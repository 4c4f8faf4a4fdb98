-- ===== src/BoxMode.antt =====
-- The box's GPU mode as the writers see it (src/lib/box-mode.ts and box-mode-shared.ts): the cached
-- read, and the guard of the workloads that the GPU switch scales. Reading the record is a parameter;
-- calls come one after the other, so the promise that concurrent callers share is not modelled.
pub mod Cache
pub mod Guard
mod Tests
use artesca_vss_console.Common.{
  ℕ, ◌-◌, String, Bool, true, false, not, ◌&&◌, Option, none, some, List, [], ◌∷◌, ◌++◌, any,
  filter, get_or, truthy, ltb, ◌==◌, if◌then◌else◌,
}

pub data BoxModeSource : Type 0 where
  configmap absent error : BoxModeSource

pub record BoxMode : Type 0 where
  pub mode : String
  pub pinned : Bool
  pub updated_at : Option String
  pub source : BoxModeSource
  pub reason : Option String

abbrev pub default_box_mode : String
default_box_mode = "vss"

abbrev pub is_box_paused : BoxMode → Bool
is_box_paused m = not (m.mode == default_box_mode)

-- What a failed read reads as.
abbrev pub fallback : BoxModeSource → String → BoxMode
fallback source reason = record {
  mode = default_box_mode;
  pinned = false;
  updated_at = none;
  source = source;
  reason = some reason;
}

abbrev pub box_mode_ttl_ms : ℕ
box_mode_ttl_ms = 10_000

pub record Cached : Type 0 where
  pub at : ℕ
  pub value : BoxMode

-- The cached value where it is young enough.
pub fresh : Option Cached → ℕ → Option BoxMode
fresh none now = none
fresh (some c) now = if ltb (now - c.at) box_mode_ttl_ms then some c.value else none

pub data Kind : Type 0 where
  deployment stateful_set : Kind

pub record WorkloadRef : Type 0 where
  pub kind : Kind
  pub namespace_name : String
  pub workload : String

-- The names of `CLUSTER` that the guard reads.
pub record ClusterRefs : Type 0 where
  pub vlm_namespace : Option String
  pub vlm_deployment : Option String
  pub vst_namespace : Option String
  pub stream_processing : Option String
  pub stream_processing_kind : Option Kind
  pub vllm_namespace : Option String
  pub vllm_deployment : Option String

-- A workload is listed where both of its names are given and not empty.
abbrev pub listed : Kind → Option String → Option String → List WorkloadRef
listed k (some ns) (some n) = record { kind = k; namespace_name = ns; workload = n } ∷ []
listed k none _ = []
listed k (some ns) none = []

pub switch_owned_workloads : ClusterRefs → List WorkloadRef
switch_owned_workloads c =
    listed deployment (truthy c.vlm_namespace) (truthy c.vlm_deployment)
    ++ listed (get_or c.stream_processing_kind stateful_set) (truthy c.vst_namespace)
        (truthy c.stream_processing)
    ++ listed deployment (truthy c.vllm_namespace) (truthy c.vllm_deployment)

-- The kind is not compared.
abbrev pub is_switch_owned : ClusterRefs → String → String → Bool
is_switch_owned c ns n =
    any (λ w. w.namespace_name == ns && w.workload == n) (switch_owned_workloads c)

-- What a refused write carries: the mode and the workloads (`BoxPausedError`).
pub record Refusal : Type 0 where
  pub box_mode : BoxMode
  pub workloads : List WorkloadRef

abbrev pub refused : List WorkloadRef → BoxMode → Option Refusal
refused ws m = if is_box_paused m then some (record { box_mode = m; workloads = ws }) else none

module _ {W : Type 0} (read : W → BoxMode × W) (clock : W → ℕ) where
  pub serve : Option BoxMode → Option Cached × W → BoxMode × (Option Cached × W)
  serve (some m) s = (m, s)
  serve none (cached, w) =
      let (m, w') = read w in (m, (some (record { at = clock w'; value = m }), w'))

  pub get_box_mode : Option Cached × W → BoxMode × (Option Cached × W)
  get_box_mode (cached, w) = serve (fresh cached (clock w)) (cached, w)

  pub ask : List WorkloadRef → Option Cached × W → Option Refusal × (Option Cached × W)
  ask ws s = let (m, s') = get_box_mode s in (refused ws m, s')

  -- `some` where the write is refused.
  pub assert_workload_writable :
      ClusterRefs → WorkloadRef → Option Cached × W → Option Refusal × (Option Cached × W)
  assert_workload_writable c w s =
      let asked = ask (w ∷ []) s in
      if is_switch_owned c w.namespace_name w.workload then asked else (none, s)

  pub answer_for : List WorkloadRef → Option Cached × W → Option Refusal × (Option Cached × W)
  answer_for [] s = (none, s)
  answer_for (w ∷ ws) s = ask (w ∷ ws) s

  -- `some` where a route answers 409.
  pub box_paused_response :
      ClusterRefs → List WorkloadRef → Option Cached × W → Option Refusal × (Option Cached × W)
  box_paused_response c ws s =
      answer_for (filter (λ w. is_switch_owned c w.namespace_name w.workload) ws) s
