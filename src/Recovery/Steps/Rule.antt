-- ===== src/Recovery/Steps/Rule.antt =====
-- The induction rule of a pass: what every kind of round keeps, the loop keeps.
use text.Mathlib.TextPositions.{eq_refl}
use artesca_vss_console.Common.{
  ℕ, ◌≡◌, refl, String, true, false, not, ◌||◌, ltb, leb, if_rule, arith, Option, none, some, List,
  [], ◌∷◌,
}
use artesca_vss_console.Common.Maps.{lookup, lookup-insert}
use artesca_vss_console.Recovery.{
  RecordingStatus, recording, not_recording, VstSensor, RecoveryState, RecoveryDeps, Pass, waiting,
}
use artesca_vss_console.Recovery.Steps.{
  set_state, on_recording, on_unknown, gates, stalled_at, on_stalled, observe, visit, visit_all,
  status_of, first_seen, degrade, note_stalled, past_threshold, push, resolve, cooldown_elapsed,
  url_of,
}

-- A property of what the gates give, from each of their three ways on.
pub gates_rule :
    {W : Type 0} (deps : RecoveryDeps W) (P : Pass W → Type 0) (p : Pass W) (name sid : String)
    (t : ℕ) (st : RecoveryState)
    → (leb deps.config.rearm_max_attempts st.attempts ≡ true
        → P (degrade (note_stalled p name (past_threshold deps.config t st)) name st))
    → P (
        push
          (note_stalled p name (past_threshold deps.config t st))
          name
          not_recording
          waiting
          st.attempts
          [])
    → (leb deps.config.rearm_max_attempts st.attempts ≡ false
        → past_threshold deps.config t st ≡ true
        → cooldown_elapsed deps.config.rearm_cooldown_ms t st.last_rearm_at ≡ true
        → ltb p.rearms_this_cycle deps.config.rearm_max_per_cycle ≡ true
        → P (
            resolve deps
              (note_stalled p name (past_threshold deps.config t st))
              name
              sid
              t
              st
              (url_of deps.desired name)))
    → P (gates deps p name sid t st)
unfolding gates note_stalled
gates_rule deps P p name sid t st d k r =
    if_rule P (leb deps.config.rearm_max_attempts st.attempts)
      {x = degrade (note_stalled p name (past_threshold deps.config t st)) name st} d
      (λ room.
        if_rule P
          (not (past_threshold deps.config t st)
            || not (cooldown_elapsed deps.config.rearm_cooldown_ms t st.last_rearm_at)
            || not (ltb p.rearms_this_cycle deps.config.rearm_max_per_cycle))
          {x = push (note_stalled p name (past_threshold deps.config t st)) name not_recording
            waiting st.attempts []}
          {y = resolve deps (note_stalled p name (past_threshold deps.config t st)) name sid t st
            (url_of deps.desired name)}
          (λ _. k) (λ go. r room (ground arith) (ground arith) (ground arith)))

module _ {W : Type 0} (deps : RecoveryDeps W) where
  pub record Keeps (P : Pass W → Type 0) : Type 0 where
    pub at_status :
        (p : Pass W) (s : VstSensor) → P p → P (record p { world = (status_of deps s p.world).1 })
    pub at_now : (p : Pass W) → P p → P (record p { world = (deps.now p.world).1 })
    pub at_recording : (p : Pass W) (name : String) → P p → P (on_recording p name)
    pub at_unknown : (p : Pass W) (name : String) → P p → P (on_unknown p name)
    pub at_first :
        (p : Pass W) (name : String) (t : ℕ)
        → lookup name p.memory.states ≡ none
        → P p
        → P (set_state p name (first_seen t))
    pub at_gates :
        (p : Pass W) (name sid : String) (t : ℕ) (st : RecoveryState)
        → lookup name p.memory.states ≡ some st
        → P p
        → P (gates deps p name sid t st)

module _ {W : Type 0} (deps : RecoveryDeps W) {P : Pass W → Type 0} (k : Keeps deps P) where
  lookup-set_state :
      (p : Pass W) (name : String) (st : RecoveryState)
      → lookup name (set_state p name st).memory.states ≡ some st
  unfolding set_state
  lookup-set_state p name st = simp (lookup-insert, eq_refl)

  stalled_at-Keeps :
      (p : Pass W) (name sid : String) (t : ℕ) (o : Option RecoveryState)
      → lookup name p.memory.states ≡ o
      → P p
      → P (stalled_at deps p name sid t o)
  unfolding stalled_at
  stalled_at-Keeps p name sid t none e h =
      k.at_gates _ name sid t _ (lookup-set_state p name (first_seen t)) (k.at_first p name t e h)
  stalled_at-Keeps p name sid t (some st) e h = k.at_gates p name sid t st e h

  observe-Keeps :
      (p : Pass W) (name sid : String) (r : RecordingStatus) → P p → P (observe deps p name sid r)
  unfolding observe on_stalled
  observe-Keeps p name sid recording h = k.at_recording p name h
  observe-Keeps p name sid RecordingStatus.unknown h = k.at_unknown p name h
  observe-Keeps p name sid not_recording h = stalled_at-Keeps _ name sid _ _ refl (k.at_now p h)

  pub visit-Keeps : (p : Pass W) (s : VstSensor) → P p → P (visit deps p s)
  unfolding visit
  visit-Keeps p s h = observe-Keeps _ _ _ _ (k.at_status p s h)

  pub visit_all-Keeps : (p : Pass W) (ss : List VstSensor) → P p → P (visit_all deps p ss)
  unfolding visit_all
  visit_all-Keeps p [] h = h
  visit_all-Keeps p (s ∷ ss) h = visit_all-Keeps (visit deps p s) ss (visit-Keeps p s h)
