-- ===== src/Reconcile/Workloads/Scenarios.antt =====
-- What converging the scenarios reaches, that it is then left, and what a failed restart leaves.
use artesca_vss_console.Common.{
  String, Bool, true, false, Option, none, some, List, ◌≡◌, refl, Effect, value, thrown, ◌>>◌,
  OnValue, OnValue-bind, OnValue-at, is_text,
}
use artesca_vss_console.Reconcile.{ScenarioEntry, ClusterAdapter}
use artesca_vss_console.Reconcile.Workloads.{
  ScenarioRefs, ScenarioReconcileResult, write_scenarios, scenarios_with, reconcile_scenarios,
}
use artesca_vss_console.Reconcile.Workloads.Compare.{Stores, write-sets, compare_rule, compare-same}

module _ {W : Type 0} (at : W → Option String) (v : String) where
  write_scenarios-applies :
      (same : Bool) (write : Effect W Unit) (w : W)
      → (same ≡ true → at w ≡ some v)
      → OnValue (λ _ w'. at w' ≡ some v) (write w)
      → OnValue (λ r w'. r.error ≡ none → at w' ≡ some v) (write_scenarios same write w)
  unfolding write_scenarios
  write_scenarios-applies true write w h k = λ _. h refl
  write_scenarios-applies false write w h k =
      OnValue-bind (λ _ w'. at w' ≡ some v) _ write _ w k (λ _ w' e _. e)

abbrev pub scenarios_unchanged : ScenarioReconcileResult
scenarios_unchanged = record { updated = false; skipped = none; error = none }

abbrev pub scenarios_failed : String → ScenarioReconcileResult
scenarios_failed e = record { updated = false; skipped = none; error = some e }

module _ {W : Type 0} (adapter : ClusterAdapter W) (refs : ScenarioRefs)
    (serialize : List ScenarioEntry → String)
    (get : String → String → String → Effect W (Option String))
    (patch : String → String → String → String → Effect W Unit)
    (restart : String → String → Effect W Unit) (at : W → Option String)
    (c : Stores at
      (get refs.ns refs.config_map refs.yaml_key)
      (patch refs.ns refs.config_map refs.yaml_key)
      (restart refs.ns refs.alert_worker_deployment))
    (can_get : adapter.get_config_map_key ≡ some get)
    (can_patch : adapter.patch_config_map_key ≡ some patch)
    (can_restart : adapter.restart_deployment ≡ some restart) where
  abbrev compared : String → Bool → Effect W ScenarioReconcileResult
  compared want same = write_scenarios same (
      patch refs.ns refs.config_map refs.yaml_key want
      >> restart refs.ns refs.alert_worker_deployment)

  pass-applies :
      (desired : List ScenarioEntry) (w : W)
      → OnValue
          (λ r w'. r.error ≡ none → at w' ≡ some (serialize desired))
          (reconcile_scenarios adapter serialize desired refs w)
  unfolding reconcile_scenarios scenarios_with
  pass-applies desired w =
      rw (can_get, can_patch, can_restart)
        (let want = serialize desired in
          compare_rule at _ _ _ c (λ r w'. r.error ≡ none → at w' ≡ some want) (compared want)
            scenarios_failed want w
            (λ e. write_scenarios-applies at want true _ w (λ _. e) (write-sets at _ _ _ c want w))
            (write_scenarios-applies at want false _ w (λ e. cc) (write-sets at _ _ _ c want w))
            (λ e w' f. cc))

  -- On a cluster that can patch and restart, a pass that does not fail ends with the scenarios, as
  -- they are written, in the ConfigMap.
  pub scenarios-applied :
      (desired : List ScenarioEntry) (w : W) (r : ScenarioReconcileResult) (w' : W)
      → reconcile_scenarios adapter serialize desired refs w ≡ (value r, w')
      → r.error ≡ none
      → at w' ≡ some (serialize desired)
  scenarios-applied desired w =
      OnValue-at (λ r w'. r.error ≡ none → at w' ≡ some (serialize desired)) _
        (pass-applies desired w)

  pub scenarios-settled :
      (desired : List ScenarioEntry) (w : W)
      → at w ≡ some (serialize desired)
      → reconcile_scenarios adapter serialize desired refs w ≡ (value scenarios_unchanged, w)
  unfolding reconcile_scenarios scenarios_with write_scenarios
  scenarios-settled desired w e =
      rw (can_get, can_patch, can_restart)
        (compare-same at _ _ _ c (compared (serialize desired)) scenarios_failed (serialize desired)
          w e)

  -- The ConfigMap is patched and the restart of the alert worker then throws: the pass reports the
  -- error, and the next one reports neither a change nor an error and does not restart the worker.
  pub restart-lost :
      (desired : List ScenarioEntry) (w w1 w2 : W) (e : String)
      → is_text (at w) (serialize desired) ≡ false
      → patch refs.ns refs.config_map refs.yaml_key (serialize desired) w ≡ (value tt, w1)
      → restart refs.ns refs.alert_worker_deployment w1 ≡ (thrown e, w2)
      → at w2 ≡ some (serialize desired)
      → (reconcile_scenarios adapter serialize desired refs w ≡ (value (scenarios_failed e), w2))
        × (reconcile_scenarios adapter serialize desired refs w2 ≡ (value scenarios_unchanged, w2))
  unfolding reconcile_scenarios scenarios_with write_scenarios
  restart-lost desired w w1 w2 e differs patched failed kept = (
    rw (can_get, can_patch, can_restart, c.reads w, differs, patched, failed) refl,
    scenarios-settled desired w2 kept,
  )
