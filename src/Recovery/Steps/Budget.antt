-- ===== src/Recovery/Steps/Budget.antt =====
-- How often a pass re-arms, and what each sensor's record of attempts says.
use artesca_vss_console.Common.{
  ℕ, ◌+◌, ◌≤◌, ◌<◌, ◌≡◌, refl, String, Option, none, some, List, [], ◌∷◌, ◌++◌, arith, Try, value,
  thrown,
}
use artesca_vss_console.Recovery.{
  RecordingStatus, VstSensor, RecoveryOutcome, rearmed, rearm_failed, SensorRecoveryOutcome,
  RecoveryState, Memory, RearmResult, RecoveryDeps, Pass,
}
use artesca_vss_console.Recovery.Steps.Rule.{Keeps, visit_all-Keeps}
use artesca_vss_console.Recovery.Steps.{
  resolve, degrade, note_stalled, push, set_state, on_recording, on_unknown, after_rearm, re_arm,
  gates, visit_all, start_pass,
}

-- One for an outcome that reports a re-arm that was called, whatever it answered.
abbrev attempted : RecoveryOutcome → ℕ
attempted rearmed = 1
attempted rearm_failed = 1
attempted _ = 0

-- The re-arms that the outcomes of a pass report.
abbrev pub attempts_in : List SensorRecoveryOutcome → ℕ
attempts_in [] = 0
attempts_in (o ∷ os) = attempted o.outcome + attempts_in os

attempts_in-append :
    (xs ys : List SensorRecoveryOutcome) → attempts_in (xs ++ ys) ≡ attempts_in xs + attempts_in ys
attempts_in-append [] ys = omega arith
attempts_in-append (x ∷ xs) ys = omega (arith, attempts_in-append xs ys)

module _ {W : Type 0} where
  push-attempts_in :
      (p : Pass W) (name : String) (r : RecordingStatus) (o : RecoveryOutcome) (n : ℕ)
      (ws : List String)
      → attempts_in (push p name r o n ws).outcomes ≡ attempts_in p.outcomes + attempted o
  unfolding push
  push-attempts_in p name r o n ws = rw attempts_in-append (omega arith)

  push-rearms :
      (p : Pass W) (name : String) (r : RecordingStatus) (o : RecoveryOutcome) (n : ℕ)
      (ws : List String)
      → (push p name r o n ws).rearms_this_cycle ≡ p.rearms_this_cycle
  unfolding push
  push-rearms p name r o n ws = refl

ruleset push_laws = (arith, push-attempts_in, push-rearms)

module _ {W : Type 0} (deps : RecoveryDeps W) where
  -- The counter of the pass is the number of re-arms that it reports, and stays within the cap.
  record IsWithinBudget (p : Pass W) : Type 0 where
    counted : attempts_in p.outcomes ≡ p.rearms_this_cycle
    limited : p.rearms_this_cycle ≤ deps.config.rearm_max_per_cycle

module _ {W : Type 0} (deps : RecoveryDeps W) where
  after_rearm-IsWithinBudget :
      (p : Pass W) (name : String) (n : ℕ) (r : Try RearmResult × W)
      → attempts_in p.outcomes + 1 ≡ p.rearms_this_cycle
      → p.rearms_this_cycle ≤ deps.config.rearm_max_per_cycle
      → IsWithinBudget deps (after_rearm p name n r)
  unfolding after_rearm
  after_rearm-IsWithinBudget p name n (value res, w) h k = grind push_laws
  after_rearm-IsWithinBudget p name n (thrown e, w) h k = grind push_laws

  re_arm-IsWithinBudget :
      (p : Pass W) (name sid : String) (t : ℕ) (st : RecoveryState) (url : String)
      → IsWithinBudget deps p
      → p.rearms_this_cycle < deps.config.rearm_max_per_cycle
      → IsWithinBudget deps (re_arm deps p name sid t st url)
  unfolding re_arm set_state
  re_arm-IsWithinBudget p name sid t st url h k =
      after_rearm-IsWithinBudget _ name _ _ (omega arith) (omega arith)

  resolve-IsWithinBudget :
      (p : Pass W) (name sid : String) (t : ℕ) (st : RecoveryState) (o : Option String)
      → IsWithinBudget deps p
      → p.rearms_this_cycle < deps.config.rearm_max_per_cycle
      → IsWithinBudget deps (resolve deps p name sid t st o)
  unfolding resolve
  resolve-IsWithinBudget p name sid t st none h k = grind push_laws
  resolve-IsWithinBudget p name sid t st (some url) h k =
      re_arm-IsWithinBudget p name sid t st url h k

  gates-IsWithinBudget :
      (p : Pass W) (name sid : String) (t : ℕ) (st : RecoveryState)
      → IsWithinBudget deps p
      → IsWithinBudget deps (gates deps p name sid t st)
  unfolding gates degrade note_stalled set_state
  gates-IsWithinBudget p name sid t st h = grind (push_laws, resolve-IsWithinBudget)

  IsWithinBudget-Keeps : Keeps deps (IsWithinBudget deps)
  unfolding on_recording on_unknown set_state
  IsWithinBudget-Keeps = record {
    at_status = λ p s h. omega (arith, h.counted, h.limited);
    at_now = λ p h. omega (arith, h.counted, h.limited);
    at_recording = λ p name h. grind push_laws;
    at_unknown = λ p name h. grind push_laws;
    at_first = λ p name t e h. omega (arith, h.counted, h.limited);
    at_gates = λ p name sid t st e h. gates-IsWithinBudget p name sid t st h;
  }

  pub rounds-attempts_in :
      (m : Memory) (w : W) (ss : List VstSensor)
      → attempts_in (visit_all deps (start_pass m w) ss).outcomes
        ≡ (visit_all deps (start_pass m w) ss).rearms_this_cycle
  rounds-attempts_in m w ss =
      (visit_all-Keeps deps IsWithinBudget-Keeps (start_pass m w) ss
        (record { counted = refl; limited = omega arith })).counted
