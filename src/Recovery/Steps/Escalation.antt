-- ===== src/Recovery/Steps/Escalation.antt =====
-- When a pass restarts the stream processing, and how its restarts are counted.
use mathlib.Core.Path.{subst}
use artesca_vss_console.Common.{
  ℕ, ◌+◌, ◌≤◌, ◌<◌, ◌≡◌, refl, ap, ◌∙◌, ◌⊎◌, inl, inr, Bool-cases, if_rule, count, String, Bool,
  true, false, Option, none, some, List, [], ◌∷◌, ◌++◌, arith, Try, value, thrown, Effect, length,
  length-append, if◌then◌else◌,
}
use artesca_vss_console.Common.Maps.{lookup}
use artesca_vss_console.Recovery.{
  RecordingStatus, recording, not_recording, RecoveryConfig, RecoveryOutcome, rearmed, rearm_failed,
  waiting, no_rtsp_url, healthy, unsure, RecoveryState, Memory, RearmResult, RecoveryDeps, Pass,
  SensorRecoveryOutcome, is_not_recording,
}
use artesca_vss_console.Recovery.Steps.Rule.{gates_rule, Keeps, visit_all-Keeps}
use artesca_vss_console.Recovery.Steps.{
  push, set_state, on_recording, on_unknown, after_rearm, re_arm, gates, resolve, degrade,
  past_threshold, note_stalled, visit_all, targets, recover_stalled_recording, start_pass, escalate,
  settle, after_restart, escalate_with, may_escalate, cooldown_elapsed,
}

pub settle-states : (n : ℕ) (m : Memory) → (settle n m).states ≡ m.states
unfolding settle
settle-states n m = ground arith

settle-restarts : (n : ℕ) (k : Memory) → (settle n k).restarts ≤ k.restarts
unfolding settle
settle-restarts n k = ground arith

settle_pos : (n : ℕ) (k : Memory) → 0 < n → settle n k ≡ k
unfolding settle
settle_pos n k h = ground arith

settle_zero :
    (n : ℕ) (k : Memory) → n ≡ 0 → settle n k ≡ record k { last_escalation_at = none; restarts = 0 }
unfolding settle
settle_zero n k h = ground arith

may_escalate_lem :
    (cfg : RecoveryConfig) (k : Memory) (n t : ℕ)
    → may_escalate cfg k n t ≡ true
    → (cfg.escalate_enabled ≡ true)
      × (cfg.escalate_min_stalled ≤ n)
      × (cooldown_elapsed cfg.escalate_cooldown_ms t k.last_escalation_at ≡ true)
      × (k.restarts < cfg.escalate_max_restarts)
unfolding may_escalate
may_escalate_lem cfg k n t h = ground arith

module _ {W : Type 0} where
  -- What a restart at `t` does to the memory: counted where it is reported, else nothing.
  abbrev Counted : Memory → ℕ → Bool × Memory × W → Type 0
  Counted m t r =
      ((r.0 ≡ true) × (r.1 ≡ record m { last_escalation_at = some t; restarts = m.restarts + 1 }))
      ⊎ ((r.0 ≡ false) × (r.1 ≡ m))

  Counted-of_reported :
      (m : Memory) (t : ℕ) (r : Bool × Memory × W)
      → Counted m t r
      → r.0 ≡ true
      → r.1 ≡ record m { last_escalation_at = some t; restarts = m.restarts + 1 }
  Counted-of_reported m t r (inl (_, counted)) e = counted
  Counted-of_reported m t r (inr (silent, _)) e = cc

  after_restart-Counted :
      (m : Memory) (t : ℕ) (r : Try (Unit {0}) × W) → Counted m t (after_restart m t r)
  unfolding after_restart
  after_restart-Counted m t (value u, w) = inl (refl, refl)
  after_restart-Counted m t (thrown e, w) = inr (refl, refl)

  escalate_with-Counted :
      (cfg : RecoveryConfig) (m : Memory) (n t : ℕ) (o : Option (Effect W (Unit {0}))) (w : W)
      → Counted m t (escalate_with cfg m n t o w)
  unfolding escalate_with
  escalate_with-Counted cfg m n t none w = inr (refl, refl)
  escalate_with-Counted cfg m n t (some restart) w = elim (Bool-cases (may_escalate cfg m n t)) [
    | inl e ↦ rw e (after_restart-Counted m t (restart w))
    | inr e ↦ rw e (inr (refl, refl))
  ]

  escalate_with-allowed :
      (cfg : RecoveryConfig) (m : Memory) (n t : ℕ) (o : Option (Effect W (Unit {0}))) (w : W)
      → (escalate_with cfg m n t o w).0 ≡ true
      → may_escalate cfg m n t ≡ true
  unfolding escalate_with
  escalate_with-allowed cfg m n t none w e = cc
  escalate_with-allowed cfg m n t (some restart) w e = ground arith

module _ {W : Type 0} (deps : RecoveryDeps W) where
  escalate-Counted : (m : Memory) (n : ℕ) (w : W) → Counted m (deps.now w).0 (escalate deps m n w)
  unfolding escalate
  escalate-Counted m n w =
      escalate_with-Counted deps.config m n (deps.now w).0 deps.restart_stream_processing
        (deps.now w).1

  escalate-restarts :
      (m : Memory) (n : ℕ) (w : W)
      → m.restarts ≤ deps.config.escalate_max_restarts
      → (escalate deps m n w).1.restarts ≤ deps.config.escalate_max_restarts
  unfolding escalate
  escalate-restarts m n w h = elim (escalate-Counted m n w) [
    | inl (e, counted) ↦
        let (_, _, _, room) =
          may_escalate_lem deps.config m n (deps.now w).0
            (escalate_with-allowed deps.config m n _ deps.restart_stream_processing _ e) in
        omega (arith, ap (λ k. k.restarts) counted)
    | inr (e, same) ↦ omega (arith, ap (λ k. k.restarts) same)
  ]

  pub escalate-states : (m : Memory) (n : ℕ) (w : W) → (escalate deps m n w).1.states ≡ m.states
  escalate-states m n w = ground (arith, escalate-Counted m n w)

-- The outcomes of the rounds that read their sensor as not recording.
abbrev pub stalls_in : List SensorRecoveryOutcome → ℕ
stalls_in os = count (λ o. is_not_recording o.probe) os

stalls_in-append :
    (os : List SensorRecoveryOutcome) (o : SensorRecoveryOutcome)
    → stalls_in (os ++ o ∷ []) ≡ stalls_in os + (if is_not_recording o.probe then 1 else 0)
stalls_in-append [] o = omega arith
stalls_in-append (x ∷ os) o = omega (arith, stalls_in-append os o)

module _ {W : Type 0} where
  -- The rounds of a pass leave the escalation's record alone, and count a sensor as stalled only
  -- where they report it as not recording.
  record IsFair (m : Memory) (p : Pass W) : Type 0 where
    restarts : p.memory.restarts ≡ m.restarts
    last : p.memory.last_escalation_at ≡ m.last_escalation_at
    seen : length p.stalled_recoverable ≤ stalls_in p.outcomes

  push-IsFair :
      (m : Memory) (p : Pass W) (name : String) (o : RecoveryOutcome) (n : ℕ) (ws : List String)
      → p.memory.restarts ≡ m.restarts
      → p.memory.last_escalation_at ≡ m.last_escalation_at
      → length p.stalled_recoverable ≤ stalls_in p.outcomes + 1
      → IsFair m (push p name not_recording o n ws)
  unfolding push
  push-IsFair m p name o n ws r l h = ground (
    arith,
    stalls_in-append p.outcomes
        (record { name = name; probe = not_recording; outcome = o; attempts = n; warnings = ws }),
  )

  after_rearm-IsFair :
      (m : Memory) (p : Pass W) (name : String) (n : ℕ) (r : Try RearmResult × W)
      → p.memory.restarts ≡ m.restarts
      → p.memory.last_escalation_at ≡ m.last_escalation_at
      → length p.stalled_recoverable ≤ stalls_in p.outcomes + 1
      → IsFair m (after_rearm p name n r)
  unfolding after_rearm
  after_rearm-IsFair m p name n (value res, w) r l h =
      if_rule (IsFair m) res.ok (λ _. push-IsFair m _ name rearmed n _ r l h)
        (λ _. push-IsFair m _ name rearm_failed n _ r l h)
  after_rearm-IsFair m p name n (thrown e, w) r l h = push-IsFair m _ name rearm_failed n _ r l h

module _ {W : Type 0} (deps : RecoveryDeps W) (m : Memory) where
  resolve-IsFair :
      (p : Pass W) (name sid : String) (t : ℕ) (st : RecoveryState) (o : Option String)
      → p.memory.restarts ≡ m.restarts
      → p.memory.last_escalation_at ≡ m.last_escalation_at
      → length p.stalled_recoverable ≤ stalls_in p.outcomes + 1
      → IsFair m (resolve deps p name sid t st o)
  unfolding resolve re_arm set_state
  resolve-IsFair p name sid t st none r l h = push-IsFair m p name no_rtsp_url _ _ r l h
  resolve-IsFair p name sid t st (some url) r l h = after_rearm-IsFair m _ name _ _ r l h

  note_stalled-fair :
      (p : Pass W) (name : String) (b : Bool)
      → IsFair m p
      → length (note_stalled p name b).stalled_recoverable
        ≤ stalls_in (note_stalled p name b).outcomes + 1
  unfolding note_stalled
  note_stalled-fair p name b h =
      ground (arith, length-append p.stalled_recoverable (name ∷ []), h.seen)

  gates-IsFair :
      (p : Pass W) (name sid : String) (t : ℕ) (st : RecoveryState)
      → IsFair m p
      → IsFair m (gates deps p name sid t st)
  unfolding degrade set_state note_stalled
  gates-IsFair p name sid t st h =
      let q = note_stalled p name (past_threshold deps.config t st) in
      let near : length q.stalled_recoverable ≤ stalls_in q.outcomes + 1 =
        omega (arith, note_stalled-fair p name (past_threshold deps.config t st) h) in
      gates_rule deps (IsFair m) p name sid t st
        (λ _. push-IsFair m _ name RecoveryOutcome.degraded _ _ h.restarts h.last near)
        (push-IsFair m q name waiting _ _ h.restarts h.last near)
        (λ _ _ _ _. resolve-IsFair q name sid t st _ h.restarts h.last near)

  IsFair-Keeps : Keeps deps (IsFair m)
  unfolding on_recording on_unknown set_state push
  IsFair-Keeps = record {
    at_status = λ p s h. record { restarts = h.restarts; last = h.last; seen = h.seen };
    at_now = λ p h. record { restarts = h.restarts; last = h.last; seen = h.seen };
    at_recording = λ p name h. ground (
      arith,
      stalls_in-append p.outcomes (record {
        name = name;
        probe = recording;
        outcome = healthy;
        attempts = 0;
        warnings = [];
      }),
    );
    at_unknown = λ p name h. ground (
      arith,
      stalls_in-append p.outcomes (record {
        name = name;
        probe = RecordingStatus.unknown;
        outcome = unsure;
        attempts = (elim (lookup name p.memory.states) [ none ↦ 0 | some st ↦ st.attempts ]);
        warnings = [];
      }),
    );
    at_first = λ p name t e h. record { restarts = h.restarts; last = h.last; seen = h.seen };
    at_gates = λ p name sid t st e h. gates-IsFair p name sid t st h;
  }

module _ {W : Type 0} (deps : RecoveryDeps W) (m : Memory) (w : W) where
  abbrev pub rounds : Pass W
  rounds = visit_all deps (start_pass m (targets deps w).1) (targets deps w).0

  rounds-IsFair : IsFair m rounds
  rounds-IsFair =
      visit_all-Keeps deps (IsFair-Keeps deps m) _ (targets deps w).0
        (record { restarts = refl; last = refl; seen = omega arith })

  -- A number of restarts that is within the cap before a pass is within it after the pass.
  pub restarts-le-cap :
      m.restarts ≤ deps.config.escalate_max_restarts
      → (recover_stalled_recording deps m w).1.restarts ≤ deps.config.escalate_max_restarts
  unfolding recover_stalled_recording
  restarts-le-cap h =
      let f = rounds-IsFair in
      omega (
        arith,
        settle-restarts (length rounds.stalled_recoverable)
            (escalate deps rounds.memory (length rounds.stalled_recoverable) rounds.world).1,
        escalate-restarts deps rounds.memory (length rounds.stalled_recoverable) rounds.world
            (omega (arith, f.restarts)),
      )

  -- A pass that reports a restart found the escalation enabled, at least the configured number of
  -- sensors not recording, and fewer restarts than the cap.
  pub escalated_needs :
      (recover_stalled_recording deps m w).0.escalated ≡ true
      → (deps.config.escalate_enabled ≡ true)
        × (deps.config.escalate_min_stalled
            ≤ stalls_in (recover_stalled_recording deps m w).0.outcomes)
        × (m.restarts < deps.config.escalate_max_restarts)
  unfolding recover_stalled_recording escalate
  escalated_needs e =
      let (enabled, enough, _, room) =
        may_escalate_lem deps.config rounds.memory _ (deps.now rounds.world).0 (
          escalate_with-allowed deps.config rounds.memory _ _ deps.restart_stream_processing _ e) in
      let f = rounds-IsFair in (enabled, omega (arith, f.seen), omega (arith, f.restarts))

  -- A pass that reports a restart, where at least one stalled sensor is asked for, has waited out
  -- the cooldown since the last one at the time that the clock reads after the rounds over the
  -- sensors, and keeps that time and one restart more.
  pub escalated_counted :
      0 < deps.config.escalate_min_stalled
      → (recover_stalled_recording deps m w).0.escalated ≡ true
      → (cooldown_elapsed deps.config.escalate_cooldown_ms
            (deps.now rounds.world).0
            m.last_escalation_at
          ≡ true)
        × ((recover_stalled_recording deps m w).1.last_escalation_at
            ≡ some (deps.now rounds.world).0)
        × ((recover_stalled_recording deps m w).1.restarts ≡ m.restarts + 1)
  unfolding recover_stalled_recording escalate
  escalated_counted pos e =
      let f = rounds-IsFair in
      let n = length rounds.stalled_recoverable in
      let t = (deps.now rounds.world).0 in
      let (_, enough, late, _) =
        may_escalate_lem deps.config rounds.memory n t (
          escalate_with-allowed deps.config rounds.memory n t deps.restart_stream_processing _ e) in
      let done =
        settle_pos n _ (omega arith)
        ∙ Counted-of_reported rounds.memory t (escalate deps rounds.memory n rounds.world)
            (escalate-Counted deps rounds.memory n rounds.world) e in
      (
        subst (λ l. cooldown_elapsed deps.config.escalate_cooldown_ms t l ≡ true) f.last late,
        ap (λ k. k.last_escalation_at) done,
        omega (arith, ap (λ k. k.restarts) done, f.restarts),
      )

  -- After a pass in which no sensor reads as not recording the escalation has forgotten its
  -- restarts and its cooldown, also where every probe was inconclusive.
  pub no_stall-forgets :
      stalls_in (recover_stalled_recording deps m w).0.outcomes ≡ 0
      → ((recover_stalled_recording deps m w).1.restarts ≡ 0)
        × ((recover_stalled_recording deps m w).1.last_escalation_at ≡ none)
  unfolding recover_stalled_recording
  no_stall-forgets e =
      let f = rounds-IsFair in
      rw (settle_zero (length rounds.stalled_recoverable) _ (omega (arith, f.seen))) (refl, refl)
