-- ===== src/ErrorBridge/Tests.antt =====
-- Some calls of the window, names of pods, and a poll.
use artesca_vss_console.Common.{
  ℕ, String, none, some, List, [], ◌∷◌, map, ◌≡◌, refl, arith, Try, value, thrown,
}
use artesca_vss_console.Common.Maps.{lookup, insert}
use artesca_vss_console.Common.Texts.{split, join}
use artesca_vss_console.ErrorBridge.{
  DedupeAction, call, swept, reports, dedupe_window_ms, should_suppress, sweep, looks_generated,
  without_generated, pod_base_name, Crash, ContainerStatus, Pod, Watch, capture_container_crash,
  visit_container, visit_containers, poll_namespace_once, poll_each, tick_once,
}
use artesca_vss_console.ErrorBridge.Spaced.{AreSpaced, reports-AreSpaced}

abbrev actions : List DedupeAction
actions =
    call "a" 0 ∷ call "b" 20 ∷ call "a" 30 ∷ swept 70 ∷ call "a" 70 ∷ call "b" 75 ∷ call "b" 90 ∷ []

run_reports : reports 60 [] actions ≡ ("a", 0) ∷ ("b", 20) ∷ ("a", 70) ∷ ("b", 90) ∷ []
unfolding reports should_suppress sweep lookup insert
run_reports = refl

reports-AreSpaced_example : AreSpaced 60 (reports 60 [] actions)
reports-AreSpaced_example = reports-AreSpaced 60 0 [] actions tt (
  omega arith,
  (omega arith, (omega arith, (omega arith, (omega arith, (omega arith, (omega arith, tt)))))),
)

deployment : pod_base_name "vss-agent-5d8f7c9b4d-x2x7q" ≡ "vss-agent"
unfolding pod_base_name split without_generated looks_generated join
deployment = refl

-- More than two parts are taken, and one without a digit is not.
chain : pod_base_name "a-b1c2d-e3f4g-h5i6j" ≡ "a"
unfolding pod_base_name split without_generated looks_generated join
chain = refl

letters : pod_base_name "vss-agent-xxqzk" ≡ "vss-agent-xxqzk"
unfolding pod_base_name split without_generated looks_generated join
letters = refl

abbrev status : ℕ → ContainerStatus
status n = record { name = "vst"; restart_count = some n; waiting_reason = none }

abbrev pods : ℕ → List (String × Try (List Pod))
pods n =
    ("vss", value (record { name = some "vst-0"; container_statuses = status n ∷ [] } ∷ []))
    ∷ ("alerts", thrown "forbidden")
    ∷ []

abbrev fresh : Watch
fresh = record { restart_counts = []; seen = []; captured = [] }

-- The first poll only takes the counts.
first_poll : (tick_once 0 (pods 3) fresh).captured ≡ []
unfolding tick_once poll_each poll_namespace_once visit_containers visit_container
    capture_container_crash sweep lookup insert
first_poll = refl

second_poll :
    map (λ (c : Crash). c.reason) (tick_once 45000 (pods 4) (tick_once 0 (pods 3) fresh)).captured
    ≡ "RestartCountIncreased" ∷ []
unfolding tick_once poll_each poll_namespace_once visit_containers visit_container
    capture_container_crash should_suppress dedupe_window_ms sweep lookup insert
second_poll = refl
