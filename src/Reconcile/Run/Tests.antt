-- ===== src/Reconcile/Run/Tests.antt =====
-- Passes of the agent over a small cluster and a store.
use artesca_vss_console.Common.{
  ℕ, ◌+◌, String, true, false, Option, none, some, [], ◌≡◌, refl, value, thrown, if◌then◌else◌,
  ◌==◌,
}
use artesca_vss_console.Reconcile.{ReconcileStatus, empty_status, ClusterAdapter}
use artesca_vss_console.Reconcile.Run.{
  ReconcileRunOptions, ConfigStore, reconcile_instance_cameras, converge, converge_sensors, lift,
  recorded, write_back, push_error,
}
use artesca_vss_console.Reconcile.Run.Paused.{OwnsVlm, paused-untouched}
use artesca_vss_console.Reconcile.Run.WriteBack.{Wrote, throws-write_status}

-- The prompt of the VLM, how often it and the alert worker were restarted, and the status.
record World : Type 0 where
  prompt : String
  restarts : ℕ
  worker_restarts : ℕ
  status : Option ReconcileStatus

abbrev adapter : ClusterAdapter World
adapter = record {
  list_sensors = λ w. (value [], w);
  add_sensor = λ n u d w. (value (record { ok = true; warning = none }), w);
  remove_sensor = none;
  get_deployment_env = some (λ n d k w. (value (some w.prompt), w));
  patch_deployment_env = some (λ n d k v w. (value tt, record w { prompt = v }));
  get_config_map_key = some (λ n c k w. (value none, w));
  patch_config_map_key = some (λ n c k v w. (value tt, w));
  restart_deployment = some (λ n d w. (
    value tt,
    record w {
      restarts = if d == "vlm" then w.restarts + 1 else w.restarts;
      worker_restarts = if d == "vlm" then w.worker_restarts else w.worker_restarts + 1;
    },
  ));
  ensure_deployment_strategy = some (λ n d s w. (value true, w));
}

abbrev store : ConfigStore World
store = record {
  read_cameras = λ i w. (value [], w);
  read_prompt = λ i w. (value (some (record { prompt = "watch"; model = none })), w);
  read_scenarios = λ i w. (value [], w);
  write_status = λ i s w. (value tt, record w { status = some s });
}

abbrev opts : ReconcileRunOptions
opts = record {
  prune = false;
  now = "2026-01-01";
  agent_version = none;
  refs = some (record {
    prompt = record { ns = "vss"; deployment = "vlm"; prompt_key = "PROMPT" };
    scenarios = record {
      ns = "vss";
      config_map = "alerts";
      yaml_key = "yaml";
      alert_worker_deployment = "worker";
    };
  });
  paused = some "paused: box in llm mode";
}

abbrev before : World
before = record { prompt = "old"; restarts = 2; worker_restarts = 0; status = none }

-- The VLM's deployment.
abbrev vlm : World → String × ℕ
vlm w = (w.prompt, w.restarts)

owns : OwnsVlm store adapter "box" vlm opts
owns = record {
  at_cameras = λ w. refl;
  at_prompt = λ w. refl;
  at_scenarios = λ w. refl;
  at_status = λ s w. refl;
  sensors = record { at_list = λ w. refl; at_add = λ n u d w. refl; at_remove = tt };
  at_env = λ n d k w. refl;
  at_key = λ n c k w. refl;
  at_patch_key = λ n c k v w. refl;
  at_worker = λ w. refl;
}

paused-untouched_example :
    vlm (reconcile_instance_cameras store adapter "box" (λ _. "scenarios: []") opts before).1
    ≡ vlm before
paused-untouched_example =
    paused-untouched store adapter "box" (λ _. "scenarios: []") vlm opts owns refl before

-- A store whose cameras cannot be read.
abbrev unreadable : ConfigStore World
unreadable = record store { read_cameras = λ i w. (thrown "bad json", w) }

abbrev noted : ReconcileStatus
noted = push_error "bad json" (empty_status "dev" "2026-01-01")

run_unreadable :
    reconcile_instance_cameras unreadable adapter "box" (λ _. "") opts before
    ≡ (value noted, record before { status = some noted })
unfolding reconcile_instance_cameras converge converge_sensors lift recorded write_back
run_unreadable = refl

-- A store that can be neither read nor written.
abbrev lost : ConfigStore World
lost = record unreadable { write_status = λ i s w. (thrown "disk full", w) }

run_lost :
    reconcile_instance_cameras lost adapter "box" (λ _. "") opts before
    ≡ (thrown "disk full", before)
unfolding reconcile_instance_cameras converge converge_sensors lift recorded write_back
run_lost = refl

throws-write_status_example : (s : ReconcileStatus) × Wrote lost "box" s (thrown "disk full") before
throws-write_status_example =
    throws-write_status lost adapter "box" (λ _. "") opts before before "disk full" run_lost
