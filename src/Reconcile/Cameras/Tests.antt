-- ===== src/Reconcile/Cameras/Tests.antt =====
-- Passes over the cameras of a small cluster that keeps the names of its sensors.
use artesca_vss_console.Common.{
  ℕ, ◌+◌, String, true, false, none, some, List, [], ◌∷◌, map, ◌≡◌, refl, sym, ap, ◌∙◌, value,
  arith, includes, All, eq_iff,
}
use artesca_vss_console.Common.Maps.{of_pairs-has, lookup, of_pairs, insert}
use artesca_vss_console.Reconcile.{CameraEntry, AdapterSensor, Answer, ClusterAdapter}
use artesca_vss_console.Reconcile.Cameras.{
  CameraReconcileResult, empty_result, reconcile_cameras, converge_cameras, converge_camera,
  visit_extras, visit_extra, prune_with, ensure, extra_note,
}
use artesca_vss_console.Reconcile.Cameras.Frame.{CountsRemovals, additive}
use artesca_vss_console.Reconcile.Cameras.Converge.{Registers, IsSettled, settled, converges}

record Cluster : Type 0 where
  names : List String
  removals : ℕ

abbrev sensor : String → AdapterSensor
sensor name = record {
  sensor_id = name;
  uuid = none;
  name = name;
  rtsp_url = none;
  status = some "online";
}

abbrev yielded : Answer
yielded = record { ok = true; warning = none }

-- The cluster adds and removes, but never ends the listing of a sensor.
abbrev adapter : ClusterAdapter Cluster
adapter = record {
  list_sensors = λ w. (value (map sensor w.names), w);
  add_sensor = λ n u d w. (value yielded, record w { names = n ∷ w.names });
  remove_sensor = some (λ id w. (value yielded, record w { removals = w.removals + 1 }));
  get_deployment_env = none;
  patch_deployment_env = none;
  get_config_map_key = none;
  patch_config_map_key = none;
  restart_deployment = none;
  ensure_deployment_strategy = none;
}

abbrev camera : String → CameraEntry
camera id = record {
  id = id;
  rtsp_url = "rtsp://host/one";
  description = none;
  role = none;
  scenario_ids = none;
  prompt_id = none;
  recording = none;
}

abbrev before : Cluster
before = record { names = "dock" ∷ "old" ∷ []; removals = 3 }

abbrev desired : List CameraEntry
desired = camera "door" ∷ camera "dock" ∷ []

abbrev after_pruning : CameraReconcileResult
after_pruning = record empty_result {
  added = "door" ∷ [];
  already_present = "dock" ∷ [];
  pruned = "old" ∷ [];
  drift = extra_note "old" ∷ [];
}

abbrev pruned : Cluster
pruned = record { names = "door" ∷ "dock" ∷ "old" ∷ []; removals = 4 }

run_prune : reconcile_cameras adapter desired true before ≡ (value after_pruning, pruned)
unfolding reconcile_cameras converge_cameras converge_camera visit_extras visit_extra prune_with
    ensure lookup of_pairs insert
run_prune = refl

abbrev after_adding : CameraReconcileResult
after_adding = record after_pruning { pruned = [] }

run_add :
    reconcile_cameras adapter desired false before
    ≡ (value after_adding, record pruned { removals = 3 })
unfolding reconcile_cameras converge_cameras converge_camera visit_extras visit_extra prune_with
    ensure lookup of_pairs insert
run_add = refl

counts : CountsRemovals adapter (λ w. w.removals)
counts = record { at_list = λ w. refl; at_add = λ n u d w. refl }

additive_example : (reconcile_cameras adapter desired false before).1.removals ≡ 3
additive_example = additive adapter (λ w. w.removals) counts desired before (refl, (refl, tt))

abbrev settled_cameras : List CameraEntry
settled_cameras = camera "old" ∷ camera "dock" ∷ []

settled_example :
    reconcile_cameras adapter settled_cameras true before
    ≡ (value (record empty_result { already_present = "old" ∷ "dock" ∷ [] }), before)
unfolding lookup of_pairs insert
settled_example =
    settled adapter settled_cameras true (map sensor before.names) before before refl
      (refl, (refl, tt)) (refl, (refl, tt)) (refl, (refl, tt))

abbrev IsNamed : String → Cluster → Type 0
IsNamed name w = includes w.names name ≡ true

names_of :
    (ns : List String)
    → map (λ (p : String × AdapterSensor). p.0) (map (λ s. (s.name, s)) (map sensor ns)) ≡ ns
names_of [] = refl
names_of (n ∷ ns) = ap (λ l. n ∷ l) (names_of ns)

registers : Registers adapter IsNamed
registers = record {
  at_list = λ w name listed alive.
      sym (
        of_pairs-has name (map (λ s. (s.name, s)) (map sensor w.names))
        ∙ ap (λ l. includes l name) (names_of w.names))
      ∙ listed;
  at_add = λ n u d w. ((λ _. ground (arith, eq_iff n n)), λ other h. ground arith);
}

converges_example :
    All
      (λ cam. IsSettled IsNamed (map sensor before.names) cam.id (record pruned { removals = 3 }))
      desired
converges_example =
    converges adapter IsNamed registers desired (map sensor before.names) before before refl
      (refl, (refl, tt)) after_adding (record pruned { removals = 3 }) run_add refl
