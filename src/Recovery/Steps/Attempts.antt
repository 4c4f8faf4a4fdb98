-- ===== src/Recovery/Steps/Attempts.antt =====
-- What the kept state of each sensor says of the re-arms made on it.
use artesca_vss_console.Common.{
  ℕ, ◌≤◌, ◌<◌, ◌≡◌, refl, String, true, Option, none, some, arith, Try, value, thrown,
}
use artesca_vss_console.Common.Maps.{Each, Each-insert, Each-delete, Each-lookup}
use artesca_vss_console.Recovery.{
  RecoveryConfig, RecoveryState, Memory, RearmResult, RecoveryDeps, Pass,
}
use artesca_vss_console.Recovery.Steps.Rule.{Keeps, visit_all-Keeps}
use artesca_vss_console.Recovery.Steps.Escalation.{settle-states, escalate-states}
use artesca_vss_console.Recovery.Steps.{
  push, set_state, on_recording, on_unknown, after_rearm, re_arm, gates, resolve, degrade,
  past_threshold, note_stalled, targets, recover_stalled_recording, start_pass, url_of,
}

-- A sensor's attempts stay within the cap, and it is degraded only when the cap is reached.
pub record IsCapped (cfg : RecoveryConfig) (st : RecoveryState) : Type 0 where
  pub within : st.attempts ≤ cfg.rearm_max_attempts
  pub used_up : st.degraded ≡ true → cfg.rearm_max_attempts ≤ st.attempts

abbrev pub AreCapped : RecoveryConfig → Memory → Type 0
AreCapped cfg m = Each (IsCapped cfg) m.states

module _ {W : Type 0} (deps : RecoveryDeps W) where
  after_rearm-states :
      (p : Pass W) (name : String) (n : ℕ) (r : Try RearmResult × W)
      → (after_rearm p name n r).memory ≡ p.memory
  unfolding after_rearm push
  after_rearm-states p name n (value res, w) = ground arith
  after_rearm-states p name n (thrown e, w) = refl

  resolve-AreCapped :
      (p : Pass W) (name sid : String) (t : ℕ) (st : RecoveryState) (o : Option String)
      → IsCapped deps.config st
      → st.attempts < deps.config.rearm_max_attempts
      → AreCapped deps.config p.memory
      → AreCapped deps.config (resolve deps p name sid t st o).memory
  unfolding resolve re_arm set_state push
  resolve-AreCapped p name sid t st none c l h = h
  resolve-AreCapped p name sid t st (some url) c l h = rw after_rearm-states (
      Each-insert (IsCapped deps.config) name _ p.memory.states
        (record { within = omega arith; used_up = λ e. absurd (omega (arith, c.used_up e)) }) h)

  gates-AreCapped :
      (p : Pass W) (name sid : String) (t : ℕ) (st : RecoveryState)
      → IsCapped deps.config st
      → AreCapped deps.config p.memory
      → AreCapped deps.config (gates deps p name sid t st).memory
  unfolding gates degrade note_stalled set_state push
  gates-AreCapped p name sid t st c h = ground (
    arith,
    Each-insert (IsCapped deps.config) name (record st { degraded = true }) p.memory.states,
    resolve-AreCapped (note_stalled p name (past_threshold deps.config t st)) name sid t st
        (url_of deps.desired name) c,
  )

  AreCapped-Keeps : Keeps deps (λ p. AreCapped deps.config p.memory)
  unfolding on_recording on_unknown set_state push
  AreCapped-Keeps = record {
    at_status = λ p s h. h;
    at_now = λ p h. h;
    at_recording = λ p name h. Each-delete (IsCapped deps.config) name p.memory.states h;
    at_unknown = λ p name h. h;
    at_first = λ p name t e h.
        Each-insert (IsCapped deps.config) name _ p.memory.states
          (record { within = omega arith; used_up = λ e. cc }) h;
    at_gates = λ p name sid t st e h.
        gates-AreCapped p name sid t st
          (Each-lookup (IsCapped deps.config) name st p.memory.states e h) h;
  }

  -- Where every sensor's attempts are within the cap, and only sensors whose attempts are used up are
  -- marked as degraded, the same holds after a pass.
  pub recover-AreCapped :
      (m : Memory) (w : W)
      → AreCapped deps.config m
      → AreCapped deps.config (recover_stalled_recording deps m w).1
  unfolding recover_stalled_recording
  recover-AreCapped m w h =
      let (ss, w') = targets deps w in
      rw (settle-states, escalate-states)
        (visit_all-Keeps deps AreCapped-Keeps (start_pass m w') ss h)
