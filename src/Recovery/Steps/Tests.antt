-- ===== src/Recovery/Steps/Tests.antt =====
-- A pass of the recording recovery over three cameras, two of which have stalled.
use mathlib.Core.Path.{subst}
use mathlib.Core.Option.{some-injective}
use artesca_vss_console.Common.{
  ℕ, ◌+◌, ◌≤◌, ◌<◌, ◌≡◌, refl, String, true, false, none, some, [], ◌∷◌, arith, value, thrown,
  if◌then◌else◌, ◌==◌,
}
use artesca_vss_console.Common.Maps.{lookup, insert, delete, of_pairs}
use artesca_vss_console.Recovery.{
  recording, not_recording, VstSensor, default_recovery_config, Memory, RecoveryDeps, RecoveryState,
}
use artesca_vss_console.Recovery.Steps.{
  recover_stalled_recording, targets, targets_with, visit_all, visit, status_of, probed, observe,
  on_recording, on_unknown, on_stalled, stalled_at, gates, degrade, note_stalled, resolve, re_arm,
  set_state, after_rearm, push, escalate, escalate_with, after_restart, may_escalate, settle,
  cooldown_elapsed,
}
use artesca_vss_console.Recovery.Steps.Budget.{attempts_in}
use artesca_vss_console.Recovery.Steps.Calls.{CountsRearms, calls-eq-attempts_in}
use artesca_vss_console.Recovery.Steps.Attempts.{IsCapped, AreCapped, recover-AreCapped}
use artesca_vss_console.Recovery.Steps.Escalation.{
  stalls_in, rounds, escalated_needs, escalated_counted, restarts-le-cap, no_stall-forgets,
}
use artesca_vss_console.Recovery.Steps.Outcomes.{names_of}

-- The cluster: the time, and the re-arms so far.
record Cluster : Type 0 where
  time : ℕ
  rearms : ℕ

abbrev camera : String → VstSensor
camera name = record { name = some name; status = some "online"; stream_id = some name }

abbrev deps : RecoveryDeps Cluster
deps = record {
  sensors = camera "a" ∷ camera "b" ∷ camera "c" ∷ [];
  desired = ("a", "rtsp://a") ∷ ("b", "rtsp://b") ∷ ("c", "rtsp://c") ∷ [];
  probe = λ i w. (value (if i == "c" then recording else not_recording), w);
  rearm =
      λ n u i w. (value (record { ok = true; warnings = [] }), record w { rearms = w.rearms + 1 });
  source_answers = none;
  restart_stream_processing = some (λ w. (value tt, w));
  now = λ w. (w.time, w);
  config = record default_recovery_config { escalate_min_stalled = 2 };
}

abbrev stalled_since : ℕ → RecoveryState
stalled_since t = record {
  not_recording_since = t;
  last_rearm_at = none;
  attempts = 1;
  degraded = false;
}

abbrev before : Memory
before = record {
  states = ("a", stalled_since 0) ∷ ("b", stalled_since 5) ∷ [];
  ever_recorded = "b" ∷ "a" ∷ [];
  last_escalation_at = none;
  restarts = 1;
}

abbrev later : Cluster
later = record { time = 1_000_000; rearms = 7 }

counts : CountsRearms deps (λ w. w.rearms)
counts = record {
  at_rearm = λ n u i w. refl;
  at_probe = λ i w. refl;
  at_now = λ w. refl;
  at_source = λ ask e u w. cc;
  at_restart = λ restart e w. subst (λ r. (r w).1.rearms ≡ w.rearms) (some-injective _ _ e) refl;
}

before_capped : AreCapped deps.config before
before_capped =
    let one = λ (t : ℕ).
      let r : IsCapped deps.config (stalled_since t) = record {
        within = omega arith;
        used_up = λ e. cc;
      } in
      r in
    (one 0, (one 5, tt))

re_armed_once :
    ((recover_stalled_recording deps before later).0.re_armed ≡ "a" ∷ [])
    × ((recover_stalled_recording deps before later).0.escalated ≡ true)
    × (names_of (recover_stalled_recording deps before later).0.outcomes ≡ "a" ∷ "b" ∷ "c" ∷ [])
unfolding recover_stalled_recording targets targets_with visit_all visit status_of probed observe
    on_recording on_unknown on_stalled stalled_at gates degrade note_stalled resolve re_arm
    set_state after_rearm push escalate escalate_with after_restart may_escalate settle lookup
    insert delete of_pairs
re_armed_once = (refl, refl, refl)

calls-eq-attempts_in_example :
    ((recover_stalled_recording deps before later).2.rearms
      ≡ 7 + attempts_in (recover_stalled_recording deps before later).0.outcomes)
    × (attempts_in (recover_stalled_recording deps before later).0.outcomes ≤ 1)
calls-eq-attempts_in_example = calls-eq-attempts_in deps (λ w. w.rearms) counts before later

recover-AreCapped_example : AreCapped deps.config (recover_stalled_recording deps before later).1
recover-AreCapped_example = recover-AreCapped deps before later before_capped

restarts-le-cap_example : (recover_stalled_recording deps before later).1.restarts ≤ 2
restarts-le-cap_example = restarts-le-cap deps before later (omega arith)

escalated_needs_example :
    (deps.config.escalate_enabled ≡ true)
    × (2 ≤ stalls_in (recover_stalled_recording deps before later).0.outcomes)
    × (before.restarts < 2)
escalated_needs_example = escalated_needs deps before later re_armed_once.1

escalated_counted_example :
    (cooldown_elapsed 300_000 (deps.now (rounds deps before later).world).0 none ≡ true)
    × ((recover_stalled_recording deps before later).1.last_escalation_at
        ≡ some (deps.now (rounds deps before later).world).0)
    × ((recover_stalled_recording deps before later).1.restarts ≡ 2)
escalated_counted_example = escalated_counted deps before later (omega arith) re_armed_once.1

-- Every probe is inconclusive, as while the stream processing restarts.
abbrev blind : RecoveryDeps Cluster
blind = record deps { probe = λ i w. (thrown "timeout", w) }

blind_pass : stalls_in (recover_stalled_recording blind before later).0.outcomes ≡ 0
unfolding recover_stalled_recording targets targets_with visit_all visit status_of probed observe
    on_recording on_unknown on_stalled stalled_at gates degrade note_stalled resolve re_arm
    set_state after_rearm push escalate escalate_with after_restart may_escalate settle lookup
    insert delete of_pairs
blind_pass = refl

no_stall-forgets_example :
    ((recover_stalled_recording blind before later).1.restarts ≡ 0)
    × ((recover_stalled_recording blind before later).1.last_escalation_at ≡ none)
no_stall-forgets_example = no_stall-forgets blind before later blind_pass
