-- ===== src/BoxMode/Tests.antt =====
-- A box in the `llm` mode, with a clock.
use artesca_vss_console.Common.{
  ℕ, ◌+◌, false, Option, none, some, [], ◌∷◌, ◌≡◌, refl, not, ◌&&◌, any, filter, is_some, OnSome,
  ◌==◌, if◌then◌else◌,
}
use artesca_vss_console.BoxMode.{
  BoxMode, configmap, Cached, ClusterRefs, WorkloadRef, deployment, get_box_mode,
  box_paused_response, answer_for, ask, serve, fresh, switch_owned_workloads,
}
use artesca_vss_console.BoxMode.Cache.{HoldsFresh, get_box_mode-HoldsFresh}
use artesca_vss_console.BoxMode.Guard.{is_scaled, response-exact}

-- The time, and how often the record was read; a read takes five milliseconds.
record Box : Type 0 where
  time : ℕ
  reads : ℕ

abbrev llm : BoxMode
llm = record { mode = "llm"; pinned = false; updated_at = none; source = configmap; reason = none }

abbrev read : Box → BoxMode × Box
read w = (llm, record { time = w.time + 5; reads = w.reads + 1 })

abbrev clock : Box → ℕ
clock w = w.time

abbrev refs : ClusterRefs
refs = record {
  vlm_namespace = some "vss";
  vlm_deployment = some "vlm";
  vst_namespace = some "vst";
  stream_processing = some "";
  stream_processing_kind = none;
  vllm_namespace = none;
  vllm_deployment = none;
}

abbrev vlm : WorkloadRef
vlm = record { kind = deployment; namespace_name = "vss"; workload = "vlm" }

abbrev worker : WorkloadRef
worker = record { kind = deployment; namespace_name = "vss"; workload = "worker" }

abbrev start : Option Cached × Box
start = (none, record { time = 100; reads = 0 })

abbrev after : Option Cached × Box
after = (some (record { at = 105; value = llm }), record { time = 105; reads = 1 })

run_response :
    box_paused_response read clock refs (worker ∷ vlm ∷ []) start
    ≡ (some (record { box_mode = llm; workloads = vlm ∷ [] }), after)
unfolding box_paused_response answer_for ask get_box_mode serve fresh switch_owned_workloads
run_response = refl

get_box_mode-HoldsFresh_example :
    HoldsFresh read clock (get_box_mode read clock start).0 (get_box_mode read clock start).1
get_box_mode-HoldsFresh_example = get_box_mode-HoldsFresh read clock start

response-exact_example :
    (is_some (box_paused_response read clock refs (worker ∷ vlm ∷ []) start).0 ≡ (
      any (is_scaled refs) (worker ∷ vlm ∷ [])
      && not ((get_box_mode read clock start).0.mode == "vss")))
    × OnSome
        (λ r.
          (r.workloads ≡ filter (is_scaled refs) (worker ∷ vlm ∷ []))
          × (r.box_mode ≡ (get_box_mode read clock start).0))
        (box_paused_response read clock refs (worker ∷ vlm ∷ []) start).0
    × ((box_paused_response read clock refs (worker ∷ vlm ∷ []) start).1 ≡ (
        if any (is_scaled refs) (worker ∷ vlm ∷ [])
        then (get_box_mode read clock start).1
        else start))
response-exact_example = response-exact read clock refs (worker ∷ vlm ∷ []) start
