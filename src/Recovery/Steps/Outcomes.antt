-- ===== src/Recovery/Steps/Outcomes.antt =====
-- What the summary of a pass reports: one outcome for each sensor, and the lists that go with them.
use mathlib.Core.List.{append-nil, append_assoc, map-append}
use artesca_vss_console.Common.{
  ℕ, ◌≡◌, refl, sym, ap, ◌∙◌, String, Bool, true, false, Option, none, some, List, [], ◌∷◌, ◌++◌,
  map, Try, value, thrown, get_or, if◌then◌else◌, if_rule,
}
use artesca_vss_console.Recovery.{
  RecordingStatus, recording, not_recording, VstSensor, RecoveryOutcome, healthy, unsure, waiting,
  rearmed, rearm_failed, no_rtsp_url, SensorRecoveryOutcome, RecoveryState, Memory, RearmResult,
  RecoveryDeps, Pass,
}
use artesca_vss_console.Recovery.Steps.Rule.{gates_rule, Keeps, visit_all-Keeps}
use artesca_vss_console.Recovery.Steps.{
  push, set_state, on_recording, on_unknown, on_stalled, stalled_at, after_rearm, re_arm, gates,
  resolve, degrade, note_stalled, observe, visit, visit_all, targets, recover_stalled_recording,
  start_pass,
}

abbrev pub is_rearmed : RecoveryOutcome → Bool
is_rearmed rearmed = true
is_rearmed _ = false

abbrev pub is_degraded : RecoveryOutcome → Bool
is_degraded RecoveryOutcome.degraded = true
is_degraded _ = false

-- The names of the outcomes of one kind, in their order.
abbrev pub names_with : (RecoveryOutcome → Bool) → List SensorRecoveryOutcome → List String
names_with f [] = []
names_with f (o ∷ os) = (if f o.outcome then o.name ∷ [] else []) ++ names_with f os

names_with-append :
    (f : RecoveryOutcome → Bool) (os : List SensorRecoveryOutcome) (o : SensorRecoveryOutcome)
    → names_with f (os ++ o ∷ []) ≡ names_with f os ++ (if f o.outcome then o.name ∷ [] else [])
names_with-append f [] o = append-nil _
names_with-append f (x ∷ os) o = simp (names_with-append f os o, append_assoc)

abbrev pub names_of : List SensorRecoveryOutcome → List String
names_of os = map (λ o. o.name) os

module _ {W : Type 0} where
  -- The lists of the pass are what its outcomes say.
  record IsReported (p : Pass W) : Type 0 where
    re_armed : p.re_armed ≡ names_with is_rearmed p.outcomes
    degraded : p.degraded ≡ names_with is_degraded p.outcomes

  -- A round adds one outcome, with the name of the sensor.
  abbrev Adds : Pass W → String → Pass W → Type 0
  Adds p name q = names_of q.outcomes ≡ names_of p.outcomes ++ name ∷ []

  push-Adds :
      (p : Pass W) (name : String) (r : RecordingStatus) (o : RecoveryOutcome) (n : ℕ)
      (ws : List String)
      → Adds p name (push p name r o n ws)
  unfolding push
  push-Adds p name r o n ws = map-append _ p.outcomes _

  push-IsReported :
      (p : Pass W) (name : String) (r : RecordingStatus) (o : RecoveryOutcome) (n : ℕ)
      (ws : List String)
      → p.re_armed ≡ names_with is_rearmed p.outcomes ++ (if is_rearmed o then name ∷ [] else [])
      → p.degraded ≡ names_with is_degraded p.outcomes ++ (if is_degraded o then name ∷ [] else [])
      → IsReported (push p name r o n ws)
  unfolding push
  push-IsReported p name r o n ws h k = record {
    re_armed = h ∙ sym (names_with-append is_rearmed p.outcomes _);
    degraded = k ∙ sym (names_with-append is_degraded p.outcomes _);
  }

  after_rearm-Adds :
      (p : Pass W) (name : String) (n : ℕ) (r : Try RearmResult × W)
      → Adds p name (after_rearm p name n r)
  unfolding after_rearm
  after_rearm-Adds p name n (value res, w) =
      if_rule (Adds p name) res.ok (λ _. push-Adds _ name not_recording rearmed n _)
        (λ _. push-Adds _ name not_recording rearm_failed n _)
  after_rearm-Adds p name n (thrown e, w) = push-Adds _ name not_recording rearm_failed n _

  after_rearm-IsReported :
      (p : Pass W) (name : String) (n : ℕ) (r : Try RearmResult × W)
      → IsReported p
      → IsReported (after_rearm p name n r)
  unfolding after_rearm
  after_rearm-IsReported p name n (value res, w) h =
      if_rule IsReported res.ok
        (λ _.
          push-IsReported _ name not_recording rearmed n _ (ap (λ l. l ++ name ∷ []) h.re_armed)
            (h.degraded ∙ sym (append-nil _)))
        (λ _.
          push-IsReported _ name not_recording rearm_failed n _ (h.re_armed ∙ sym (append-nil _))
            (h.degraded ∙ sym (append-nil _)))
  after_rearm-IsReported p name n (thrown e, w) h =
      push-IsReported _ name not_recording rearm_failed n _ (h.re_armed ∙ sym (append-nil _))
        (h.degraded ∙ sym (append-nil _))

module _ {W : Type 0} (deps : RecoveryDeps W) where
  resolve-Adds :
      (p : Pass W) (name sid : String) (t : ℕ) (st : RecoveryState) (o : Option String)
      → Adds p name (resolve deps p name sid t st o)
  unfolding resolve re_arm set_state
  resolve-Adds p name sid t st none = push-Adds p name not_recording no_rtsp_url _ _
  resolve-Adds p name sid t st (some url) = after_rearm-Adds _ name _ _

  gates-Adds :
      (p : Pass W) (name sid : String) (t : ℕ) (st : RecoveryState)
      → Adds p name (gates deps p name sid t st)
  unfolding degrade set_state note_stalled
  gates-Adds p name sid t st =
      gates_rule deps (Adds p name) p name sid t st
        (λ _. push-Adds _ name not_recording RecoveryOutcome.degraded _ _)
        (push-Adds _ name not_recording waiting _ _) (λ _ _ _ _. resolve-Adds _ name sid t st _)

  stalled_at-Adds :
      (p : Pass W) (name sid : String) (t : ℕ) (o : Option RecoveryState)
      → Adds p name (stalled_at deps p name sid t o)
  unfolding stalled_at set_state
  stalled_at-Adds p name sid t none = gates-Adds _ name sid t _
  stalled_at-Adds p name sid t (some st) = gates-Adds p name sid t st

  observe-Adds :
      (p : Pass W) (name sid : String) (r : RecordingStatus)
      → Adds p name (observe deps p name sid r)
  unfolding observe on_recording on_unknown on_stalled
  observe-Adds p name sid recording = push-Adds _ name recording healthy _ _
  observe-Adds p name sid RecordingStatus.unknown =
      push-Adds p name RecordingStatus.unknown unsure _ _
  observe-Adds p name sid not_recording = stalled_at-Adds _ name sid _ _

  visit-Adds : (p : Pass W) (s : VstSensor) → Adds p (get_or s.name "") (visit deps p s)
  unfolding visit
  visit-Adds p s = observe-Adds _ (get_or s.name "") _ _

  visit_all-names :
      (p : Pass W) (ss : List VstSensor)
      → names_of (visit_all deps p ss).outcomes
        ≡ names_of p.outcomes ++ map (λ s. get_or s.name "") ss
  unfolding visit_all
  visit_all-names p [] = sym (append-nil _)
  visit_all-names p (s ∷ ss) =
      simp (visit_all-names (visit deps p s) ss, visit-Adds p s, append_assoc)

  resolve-IsReported :
      (p : Pass W) (name sid : String) (t : ℕ) (st : RecoveryState) (o : Option String)
      → IsReported p
      → IsReported (resolve deps p name sid t st o)
  unfolding resolve re_arm set_state
  resolve-IsReported p name sid t st none h =
      push-IsReported p name not_recording no_rtsp_url _ _ (h.re_armed ∙ sym (append-nil _))
        (h.degraded ∙ sym (append-nil _))
  resolve-IsReported p name sid t st (some url) h =
      after_rearm-IsReported _ name _ _ (record { re_armed = h.re_armed; degraded = h.degraded })

  gates-IsReported :
      (p : Pass W) (name sid : String) (t : ℕ) (st : RecoveryState)
      → IsReported p
      → IsReported (gates deps p name sid t st)
  unfolding degrade set_state note_stalled
  gates-IsReported p name sid t st h =
      gates_rule deps IsReported p name sid t st
        (λ _.
          push-IsReported _ name not_recording RecoveryOutcome.degraded _ _
            (h.re_armed ∙ sym (append-nil _)) (ap (λ l. l ++ name ∷ []) h.degraded))
        (push-IsReported _ name not_recording waiting _ _ (h.re_armed ∙ sym (append-nil _))
          (h.degraded ∙ sym (append-nil _)))
        (λ _ _ _ _.
          resolve-IsReported _ name sid t st _
            (record { re_armed = h.re_armed; degraded = h.degraded }))

  IsReported-Keeps : Keeps deps IsReported
  unfolding on_recording on_unknown set_state
  IsReported-Keeps = record {
    at_status = λ p s h. record { re_armed = h.re_armed; degraded = h.degraded };
    at_now = λ p h. record { re_armed = h.re_armed; degraded = h.degraded };
    at_recording = λ p name h.
        push-IsReported _ name recording healthy _ _ (h.re_armed ∙ sym (append-nil _))
          (h.degraded ∙ sym (append-nil _));
    at_unknown = λ p name h.
        push-IsReported p name RecordingStatus.unknown unsure _ _ (h.re_armed ∙ sym (append-nil _))
          (h.degraded ∙ sym (append-nil _));
    at_first = λ p name t e h. record { re_armed = h.re_armed; degraded = h.degraded };
    at_gates = λ p name sid t st e h. gates-IsReported p name sid t st h;
  }

  -- A pass reports exactly one outcome for each sensor that it looks at, in their order.
  pub recover-names :
      (m : Memory) (w : W)
      → names_of (recover_stalled_recording deps m w).0.outcomes
        ≡ map (λ s. get_or s.name "") (targets deps w).0
  unfolding recover_stalled_recording
  recover-names m w = visit_all-names _ (targets deps w).0

  -- The summary lists as re-armed, and as degraded, exactly the sensors whose outcome says so.
  pub recover-IsReported :
      (m : Memory) (w : W)
      → ((recover_stalled_recording deps m w).0.re_armed
          ≡ names_with is_rearmed (recover_stalled_recording deps m w).0.outcomes)
        × ((recover_stalled_recording deps m w).0.degraded
            ≡ names_with is_degraded (recover_stalled_recording deps m w).0.outcomes)
  unfolding recover_stalled_recording
  recover-IsReported m w =
      let h =
        visit_all-Keeps deps IsReported-Keeps (start_pass m (targets deps w).1) (targets deps w).0
          (record { re_armed = refl; degraded = refl }) in
      (h.re_armed, h.degraded)
