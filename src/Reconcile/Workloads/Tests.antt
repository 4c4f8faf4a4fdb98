-- ===== src/Reconcile/Workloads/Tests.antt =====
-- The prompt and the scenarios of a cluster with one key of each kind.
use artesca_vss_console.Common.{
  ℕ, ◌+◌, String, Bool, true, false, Option, none, some, List, [], ◌∷◌, ◌≡◌, refl, value, thrown,
  Effect, OnValue,
}
use artesca_vss_console.Reconcile.{PromptDoc, ScenarioEntry, ClusterAdapter}
use artesca_vss_console.Reconcile.Workloads.{
  PromptRefs, prompt_result, ScenarioRefs, reconcile_prompt, reconcile_scenarios, prompt_with,
  write_prompt, scenarios_with, write_scenarios,
}
use artesca_vss_console.Reconcile.Workloads.Compare.{Stores}
use artesca_vss_console.Reconcile.Workloads.Prompt.{prompt-applied}
use artesca_vss_console.Reconcile.Workloads.Scenarios.{
  restart-lost, scenarios_unchanged, scenarios_failed,
}

-- `broken`: a restart throws.
record Cluster : Type 0 where
  key : Option String
  restarts : ℕ
  broken : Bool

abbrev get : String → String → String → Effect Cluster (Option String)
get n d k w = (value w.key, w)

abbrev patch : String → String → String → String → Effect Cluster Unit
patch n d k v w = (value tt, record w { key = some v })

abbrev restart_when : Bool → Effect Cluster Unit
restart_when true w = (thrown "timeout", w)
restart_when false w = (value tt, record w { restarts = w.restarts + 1 })

abbrev restart : String → String → Effect Cluster Unit
restart n d w = restart_when w.broken w

abbrev adapter : ClusterAdapter Cluster
adapter = record {
  list_sensors = λ w. (value [], w);
  add_sensor = λ n u d w. (value (record { ok = false; warning = none }), w);
  remove_sensor = none;
  get_deployment_env = some get;
  patch_deployment_env = some patch;
  get_config_map_key = some get;
  patch_config_map_key = some patch;
  restart_deployment = some restart;
  ensure_deployment_strategy = none;
}

restart_when-keeps : (b : Bool) (w : Cluster) → OnValue (λ _ w'. w'.key ≡ w.key) (restart_when b w)
restart_when-keeps true w = tt
restart_when-keeps false w = refl

stores : (n d k : String) → Stores (λ w. w.key) (get n d k) (patch n d k) (restart n d)
stores n d k = record {
  reads = λ w. refl;
  writes = λ v w. refl;
  keeps = λ w. restart_when-keeps w.broken w;
}

abbrev prompt_refs : PromptRefs
prompt_refs = record { ns = "vss"; deployment = "vlm"; prompt_key = "PROMPT" }

abbrev scenario_refs : ScenarioRefs
scenario_refs = record {
  ns = "vss";
  config_map = "alerts";
  yaml_key = "scenarios.yaml";
  alert_worker_deployment = "alert-worker";
}

abbrev doc : PromptDoc
doc = record { prompt = "watch the till"; model = none }

abbrev serialize : List ScenarioEntry → String
serialize [] = "scenarios: []"
serialize (s ∷ ss) = s.name

abbrev before : Cluster
before = record { key = some "old"; restarts = 0; broken = false }

abbrev prompted : Cluster
prompted = record { key = some "watch the till"; restarts = 1; broken = false }

run_prompt :
    reconcile_prompt adapter (some doc) prompt_refs none before
    ≡ (value (prompt_result true), prompted)
unfolding reconcile_prompt prompt_with write_prompt
run_prompt = refl

prompt-applied_example : prompted.key ≡ some "watch the till"
prompt-applied_example =
    prompt-applied adapter prompt_refs get patch restart (λ w. w.key) (stores "vss" "vlm" "PROMPT")
      refl refl refl doc none before (prompt_result true) prompted run_prompt refl refl

abbrev applied : Cluster
applied = record { key = some "scenarios: []"; restarts = 1; broken = false }

run_scenarios :
    reconcile_scenarios adapter serialize [] scenario_refs before
    ≡ (value (record scenarios_unchanged { updated = true }), applied)
unfolding reconcile_scenarios scenarios_with write_scenarios
run_scenarios = refl

abbrev broken_before : Cluster
broken_before = record before { broken = true }

abbrev broken_after : Cluster
broken_after = record broken_before { key = some "scenarios: []" }

restart-lost_example :
    (reconcile_scenarios adapter serialize [] scenario_refs broken_before
      ≡ (value (scenarios_failed "timeout"), broken_after))
    × (reconcile_scenarios adapter serialize [] scenario_refs broken_after
        ≡ (value scenarios_unchanged, broken_after))
restart-lost_example =
    restart-lost adapter scenario_refs serialize get patch restart (λ w. w.key)
      (stores "vss" "alerts" "scenarios.yaml") refl refl refl [] broken_before broken_after
      broken_after "timeout" refl refl refl refl
