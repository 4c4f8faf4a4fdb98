-- ===== src/ErrorBridge.antt =====
-- The watch over crashing pods (src/lib/error-bridge.ts): the window in which an error is reported
-- once, the name that pods of one workload share, and the poll of the containers. The clock is read
-- once per poll; the context text of a report, the Kafka tap and the start-up are left out.
pub mod Distinct
pub mod Spaced
mod Tests
use Prim.Native.Char.{Char, code}
use Prim.Native.String.{◌++◌ as text_append}
use artesca_vss_console.Common.{
  ℕ, ◌+◌, String, Bool, true, false, not, ◌&&◌, ◌||◌, Option, none, some, List, [], ◌∷◌, ◌++◌, Try,
  value, thrown, get_or, truthy, if◌then◌else◌, ltb, leb, ◌==◌, includes,
}
use artesca_vss_console.Common.Maps.{Map, lookup, insert}
use artesca_vss_console.Common.Texts.{split, join, all_chars, any_char, text_length}

pub dedupe_window_ms : ℕ
dedupe_window_ms = 60000

abbrev pub is_recent : ℕ → ℕ → Option ℕ → Bool
is_recent window now none = false
is_recent window now (some last) = ltb now (last + window)

-- Whether the key fired within the window, and the times after that; a key that did not fires now.
pub should_suppress : ℕ → String → ℕ → Map ℕ → Bool × Map ℕ
should_suppress window key now seen =
    if is_recent window now (lookup key seen) then (true, seen) else (false, insert key now seen)

-- The entries that are older than the window are dropped.
pub sweep : ℕ → ℕ → Map ℕ → Map ℕ
sweep window now [] = []
sweep window now ((key, t) ∷ seen) =
    let rest = sweep window now seen in if leb (t + window) now then rest else (key, t) ∷ rest

-- A call for a key, or a sweep, each at its time.
pub data DedupeAction : Type 0 where
  call : String → ℕ → DedupeAction
  swept : ℕ → DedupeAction

abbrev reported : Bool → String → ℕ → List (String × ℕ) → List (String × ℕ)
reported true key now rest = rest
reported false key now rest = (key, now) ∷ rest

-- The calls that are not suppressed.
pub reports : ℕ → Map ℕ → List DedupeAction → List (String × ℕ)
reports window seen [] = []
reports window seen (call key now ∷ actions) =
    let (suppressed, after) = should_suppress window key now seen in
    reported suppressed key now (reports window after actions)
reports window seen (swept now ∷ actions) = reports window (sweep window now seen) actions

abbrev is_lower : Char → Bool
is_lower c = leb 97 (code c) && leb (code c) 122

abbrev is_digit : Char → Bool
is_digit c = leb 48 (code c) && leb (code c) 57

pub looks_generated : String → Bool
looks_generated s =
    all_chars (λ c. is_lower c || is_digit c) s
    && leb 5 (text_length s)
    && leb (text_length s) 10
    && any_char is_lower s
    && any_char is_digit s

-- The parts without the generated ones at the end.
pub without_generated : List String → List String
without_generated [] = []
without_generated (p ∷ ps) =
    let rest = without_generated ps in
    elim rest [ [] ↦ if looks_generated p then [] else p ∷ [] | ◌∷◌ q qs ↦ p ∷ q ∷ qs ]

-- The first part is never taken.
abbrev pub base_parts : List String → List String
base_parts [] = []
base_parts (p ∷ ps) = p ∷ without_generated ps

abbrev or_name : String → String → String
or_name s name = if s == "" then name else s

pub pod_base_name : String → String
pod_base_name name = or_name (join "-" (base_parts (split 45 name))) name

pub data Level : Type 0 where
  error warning : Level

-- A report, with its fingerprint's parts.
pub record Crash : Type 0 where
  pub namespace : String
  pub pod : String
  pub base : String
  pub container : String
  pub reason : String
  pub level : Level

pub record ContainerStatus : Type 0 where
  pub name : String
  pub restart_count : Option ℕ
  pub waiting_reason : Option String

pub record Pod : Type 0 where
  pub name : Option String
  pub container_statuses : List ContainerStatus

-- The counts that were last seen, the times of the reports, and the reports, the last one at the end.
pub record Watch : Type 0 where
  pub restart_counts : Map ℕ
  pub seen : Map ℕ
  pub captured : List Crash

abbrev slashed : String → String → String → String
slashed a b c = text_append (text_append (text_append (text_append a "/") b) "/") c

abbrev pub container_key : String → String → String → String
container_key namespace pod container = slashed namespace pod container

abbrev pub dedupe_key : Crash → String
dedupe_key c =
    text_append
      (text_append
        (text_append (text_append (text_append (text_append c.namespace ":") c.base) ":")
          c.container)
        ":")
      c.reason

abbrev captured_if : Bool × Map ℕ → Crash → Watch → Watch
captured_if (true, seen) c w = record w { seen = seen }
captured_if (false, seen) c w = record w { seen = seen; captured = w.captured ++ c ∷ [] }

pub capture_container_crash : ℕ → Crash → Watch → Watch
capture_container_crash now c w =
    captured_if (should_suppress dedupe_window_ms (dedupe_key c) now w.seen) c w

abbrev pub crash : String → String → String → String → Level → Crash
crash namespace pod container reason level = record {
  namespace = namespace;
  pod = pod;
  base = pod_base_name pod;
  container = container;
  reason = reason;
  level = level;
}

abbrev pub has_restarted : Option ℕ → ℕ → Bool
has_restarted none count = false
has_restarted (some prev) count = ltb prev count

abbrev pub crashloop_reasons : List String
crashloop_reasons = "CrashLoopBackOff" ∷ "Error" ∷ "ImagePullBackOff" ∷ "ErrImagePull" ∷ []

abbrev level_of : String → Level
level_of reason = if reason == "CrashLoopBackOff" || reason == "Error" then error else warning

abbrev restart_step : ℕ → String → String → String → Option ℕ → ℕ → Watch → Watch
restart_step now namespace pod name prev count w =
    if has_restarted prev count
    then capture_container_crash now (crash namespace pod name "RestartCountIncreased" error) w
    else w

abbrev waiting_step : ℕ → String → String → String → Option String → Watch → Watch
waiting_step now namespace pod name none w = w
waiting_step now namespace pod name (some reason) w =
    if includes crashloop_reasons reason
    then capture_container_crash now (crash namespace pod name reason (level_of reason)) w
    else w

pub visit_container : ℕ → String → String → ContainerStatus → Watch → Watch
visit_container now namespace pod cs w =
    waiting_step now namespace pod cs.name (truthy cs.waiting_reason) (
      restart_step now namespace pod cs.name
        (lookup (container_key namespace pod cs.name) w.restart_counts) (get_or cs.restart_count 0)
        (record w {
          restart_counts =
              insert (container_key namespace pod cs.name) (get_or cs.restart_count 0)
                w.restart_counts;
        }))

pub visit_containers : ℕ → String → String → List ContainerStatus → Watch → Watch
visit_containers now namespace pod [] w = w
visit_containers now namespace pod (cs ∷ css) w =
    visit_containers now namespace pod css (visit_container now namespace pod cs w)

abbrev visit_pod : ℕ → String → Option String → List ContainerStatus → Watch → Watch
visit_pod now namespace none css w = w
visit_pod now namespace (some pod) css w = visit_containers now namespace pod css w

pub poll_namespace_once : ℕ → String → List Pod → Watch → Watch
poll_namespace_once now namespace [] w = w
poll_namespace_once now namespace (p ∷ ps) w =
    poll_namespace_once now namespace ps
      (visit_pod now namespace (truthy p.name) p.container_statuses w)

abbrev polled : ℕ → String → Try (List Pod) → Watch → Watch
polled now namespace (value pods) w = poll_namespace_once now namespace pods w
polled now namespace (thrown e) w = w

pub poll_each : ℕ → List (String × Try (List Pod)) → Watch → Watch
poll_each now [] w = w
poll_each now ((namespace, pods) ∷ rest) w = poll_each now rest (polled now namespace pods w)

-- A tick over the namespaces, each with what listing its pods gives.
pub tick_once : ℕ → List (String × Try (List Pod)) → Watch → Watch
tick_once now listings w =
    let polled_all = poll_each now listings w in
    record polled_all { seen = sweep dedupe_window_ms now polled_all.seen }
