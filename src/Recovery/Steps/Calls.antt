-- ===== src/Recovery/Steps/Calls.antt =====
-- How often a pass calls the re-arm of the cluster, counted in the state of the cluster.
use artesca_vss_console.Common.{
  ℕ, ◌+◌, ◌≤◌, ◌<◌, ◌≡◌, refl, String, Bool, Option, none, some, List, [], ◌∷◌, arith, Try, value,
  thrown, Effect, length, ◌∙◌,
}
use artesca_vss_console.Recovery.{VstSensor, RecoveryState, Memory, RearmResult, RecoveryDeps, Pass}
use artesca_vss_console.Recovery.Steps.Budget.{attempts_in, rounds-attempts_in}
use artesca_vss_console.Recovery.Steps.Rule.{Keeps, visit_all-Keeps}
use artesca_vss_console.Recovery.Steps.{
  push, set_state, on_recording, on_unknown, after_rearm, re_arm, gates, visit_all, status_of,
  probed, answered, source_of, offline_reachable, targets, recover_stalled_recording, start_pass,
  escalate, after_restart, resolve, note_stalled, past_threshold, degrade, escalate_with,
  targets_with, ask_source, url_of,
}

-- What `calls` counts: the re-arms, and nothing else that a pass does to the cluster.
pub record CountsRearms {W : Type 0} (deps : RecoveryDeps W) (calls : W → ℕ) : Type 0 where
  pub at_rearm : (n u i : String) (w : W) → calls (deps.rearm n u i w).1 ≡ calls w + 1
  pub at_probe : (i : String) (w : W) → calls (deps.probe i w).1 ≡ calls w
  pub at_now : (w : W) → calls (deps.now w).1 ≡ calls w
  pub at_source :
      (ask : String → Effect W Bool)
      → deps.source_answers ≡ some ask
      → (u : String) (w : W) → calls (ask u w).1 ≡ calls w
  pub at_restart :
      (restart : Effect W (Unit {0}))
      → deps.restart_stream_processing ≡ some restart
      → (w : W) → calls (restart w).1 ≡ calls w

module _ {W : Type 0} (deps : RecoveryDeps W) (calls : W → ℕ) (c : CountsRearms deps calls) where
  -- From `base` calls at the start, the counter of the pass is the number of calls since then.
  record IsCounted (base : ℕ) (p : Pass W) : Type 0 where
    counted : calls p.world ≡ base + p.rearms_this_cycle
    limited : p.rearms_this_cycle ≤ deps.config.rearm_max_per_cycle

  after_rearm-IsCounted :
      (base : ℕ) (p : Pass W) (name : String) (n : ℕ) (r : Try RearmResult × W)
      → calls r.1 ≡ base + p.rearms_this_cycle
      → p.rearms_this_cycle ≤ deps.config.rearm_max_per_cycle
      → IsCounted base (after_rearm p name n r)
  unfolding after_rearm push
  after_rearm-IsCounted base p name n (value res, w) h k = grind arith
  after_rearm-IsCounted base p name n (thrown e, w) h k = grind arith

  re_arm-IsCounted :
      (base : ℕ) (p : Pass W) (name sid : String) (t : ℕ) (st : RecoveryState) (url : String)
      → IsCounted base p
      → p.rearms_this_cycle < deps.config.rearm_max_per_cycle
      → IsCounted base (re_arm deps p name sid t st url)
  unfolding re_arm set_state
  re_arm-IsCounted base p name sid t st url h k =
      after_rearm-IsCounted base _ name _ _
        (omega (arith, h.counted, c.at_rearm name url sid p.world)) (omega arith)

  resolve-IsCounted :
      (base : ℕ) (p : Pass W) (name sid : String) (t : ℕ) (st : RecoveryState) (o : Option String)
      → IsCounted base p
      → p.rearms_this_cycle < deps.config.rearm_max_per_cycle
      → IsCounted base (resolve deps p name sid t st o)
  unfolding resolve push
  resolve-IsCounted base p name sid t st none h k = omega arith
  resolve-IsCounted base p name sid t st (some url) h k =
      re_arm-IsCounted base p name sid t st url h k

  gates-IsCounted :
      (base : ℕ) (p : Pass W) (name sid : String) (t : ℕ) (st : RecoveryState)
      → IsCounted base p
      → IsCounted base (gates deps p name sid t st)
  unfolding gates degrade note_stalled set_state push
  gates-IsCounted base p name sid t st h = ground (
    arith,
    resolve-IsCounted base (note_stalled p name (past_threshold deps.config t st)) name sid t st
        (url_of deps.desired name),
  )

  status_of-calls : (s : VstSensor) (w : W) → calls (status_of deps s w).1 ≡ calls w
  unfolding status_of probed
  status_of-calls s w = grind (arith, c.at_probe)

  IsCounted-Keeps : (base : ℕ) → Keeps deps (IsCounted base)
  unfolding on_recording on_unknown set_state push
  IsCounted-Keeps base = record {
    at_status = λ p s h. omega (arith, h.counted, h.limited, status_of-calls s p.world);
    at_now = λ p h. omega (arith, h.counted, h.limited, c.at_now p.world);
    at_recording = λ p name h. omega (arith, h.counted, h.limited);
    at_unknown = λ p name h. omega (arith, h.counted, h.limited);
    at_first = λ p name t e h. omega (arith, h.counted, h.limited);
    at_gates = λ p name sid t st e h. gates-IsCounted base p name sid t st h;
  }

  source_of-calls :
      (desired : List (String × String)) (ask : String → Effect W Bool) (s : VstSensor) (w : W)
      → ((u : String) (v : W) → calls (ask u v).1 ≡ calls v)
      → calls (source_of desired ask s w).1 ≡ calls w
  unfolding source_of ask_source answered
  source_of-calls desired ask s w h = grind (arith, h)

  offline_reachable-calls :
      (desired : List (String × String)) (ask : String → Effect W Bool) (ss : List VstSensor)
      (w : W)
      → ((u : String) (v : W) → calls (ask u v).1 ≡ calls v)
      → calls (offline_reachable desired ask ss w).1 ≡ calls w
  unfolding offline_reachable
  offline_reachable-calls desired ask [] w h = refl
  offline_reachable-calls desired ask (s ∷ ss) w h = omega (
    arith,
    source_of-calls desired ask s w h,
    offline_reachable-calls desired ask ss (source_of desired ask s w).1 h,
  )

  targets-calls : (w : W) → calls (targets deps w).1 ≡ calls w
  unfolding targets targets_with
  targets-calls w = go deps.source_answers refl
    where
      go :
          (o : Option (String → Effect W Bool))
          → deps.source_answers ≡ o
          → calls (targets_with deps.desired deps.sensors o w).1 ≡ calls w
      go none e = refl
      go (some ask) e = offline_reachable-calls deps.desired ask deps.sensors w (c.at_source ask e)

  escalate_with-calls :
      (m : Memory) (n t : ℕ) (o : Option (Effect W (Unit {0}))) (w : W)
      → deps.restart_stream_processing ≡ o
      → calls (escalate_with deps.config m n t o w).2 ≡ calls w
  unfolding escalate_with after_restart
  escalate_with-calls m n t none w e = refl
  escalate_with-calls m n t (some restart) w e = ground (arith, c.at_restart restart e w)

  escalate-calls : (m : Memory) (n : ℕ) (w : W) → calls (escalate deps m n w).2 ≡ calls w
  unfolding escalate
  escalate-calls m n w =
      escalate_with-calls m n (deps.now w).0 deps.restart_stream_processing (deps.now w).1 refl
      ∙ c.at_now w

  -- A pass calls the re-arm exactly as often as its outcomes report a re-arm, answered or failed,
  -- and at most as often as the per-cycle cap says, whatever the probes and the clock answer.
  pub calls-eq-attempts_in :
      (m : Memory) (w : W)
      → (calls (recover_stalled_recording deps m w).2
          ≡ calls w + attempts_in (recover_stalled_recording deps m w).0.outcomes)
        × (attempts_in (recover_stalled_recording deps m w).0.outcomes
            ≤ deps.config.rearm_max_per_cycle)
  unfolding recover_stalled_recording
  calls-eq-attempts_in m w =
      let (ss, w') = targets deps w in
      let p = visit_all deps (start_pass m w') ss in
      let h =
        visit_all-Keeps deps (IsCounted-Keeps (calls w')) (start_pass m w') ss (omega arith) in
      let r = rounds-attempts_in deps m w' ss in
      let e = escalate-calls p.memory (length p.stalled_recoverable) p.world in
      (omega (arith, h.counted, targets-calls w, e, r), omega (arith, h.limited, r))
