-- ===== src/Reconcile/Run/Paused.antt =====
-- What a pass over a paused box leaves alone, and when a pass throws.
use artesca_vss_console.Common.{
  String, Bool, true, false, Option, none, some, List, ◌≡◌, refl, ◌∙◌, Effect, ◌>>=◌, ◌>>◌, Leaves,
  Leaves-bind, Leaves-then, OnSome, is_some, truthy, get_or,
}
use artesca_vss_console.Reconcile.{ScenarioEntry, ReconcileStatus, empty_status, ClusterAdapter}
use artesca_vss_console.Reconcile.Cameras.{reconcile_cameras}
use artesca_vss_console.Reconcile.Cameras.Touched.{OnlySensors, reconcile_cameras-Leaves}
use artesca_vss_console.Reconcile.Workloads.{
  PromptRefs, ScenarioRefs, reconcile_prompt, reconcile_scenarios,
}
use artesca_vss_console.Reconcile.Workloads.Held.{reconcile_prompt-held, reconcile_scenarios-Leaves}
use artesca_vss_console.Reconcile.Run.{
  Refs, ReconcileRunOptions, ConfigStore, lift, note, recorded, converge_strategy, converge_prompt,
  converge_scenarios, converge_refs, converge_sensors, converge, write_back,
  reconcile_instance_cameras,
}

-- What `vlm` reads of the state changes only when the VLM's deployment is patched, restarted or given
-- a strategy: the laws name every other operation.
pub record OwnsVlm {W X : Type 0} (store : ConfigStore W) (adapter : ClusterAdapter W)
    (instance : String) (vlm : W → X) (opts : ReconcileRunOptions) : Type 0 where
  pub at_cameras : Leaves vlm (store.read_cameras instance)
  pub at_prompt : Leaves vlm (store.read_prompt instance)
  pub at_scenarios : Leaves vlm (store.read_scenarios instance)
  pub at_status : (s : ReconcileStatus) → Leaves vlm (store.write_status instance s)
  pub sensors : OnlySensors adapter vlm
  pub at_env : OnSome (λ get. (n d k : String) → Leaves vlm (get n d k)) adapter.get_deployment_env
  pub at_key : OnSome (λ get. (n c k : String) → Leaves vlm (get n c k)) adapter.get_config_map_key
  pub at_patch_key :
      OnSome (λ patch. (n c k v : String) → Leaves vlm (patch n c k v)) adapter.patch_config_map_key
  pub at_worker :
      OnSome
        (λ refs.
          OnSome
            (λ restart.
              Leaves vlm (restart refs.scenarios.ns refs.scenarios.alert_worker_deployment))
            adapter.restart_deployment)
        opts.refs

module _ {W X : Type 0} (store : ConfigStore W) (adapter : ClusterAdapter W) (instance : String)
    (serialize : List ScenarioEntry → String) (vlm : W → X) (opts : ReconcileRunOptions)
    (own : OwnsVlm store adapter instance vlm opts) where
  lift-Leaves : {A : Type 0} (m : Effect W A) → Leaves vlm m → Leaves (λ p. vlm p.1) (lift m)
  unfolding lift
  lift-Leaves m h (s, w) = h w

  -- A call of the store or the cluster, and then a note in the status.
  noted-Leaves :
      {A : Type 0} (m : Effect W A) (f : A → ReconcileStatus → ReconcileStatus)
      → Leaves vlm m
      → Leaves (λ p. vlm p.1) (lift m >>= λ a. note (f a))
  unfolding note
  noted-Leaves m f h = Leaves-bind (λ p. vlm p.1) (lift m) _ (lift-Leaves m h) (λ a p. refl)

  converge_sensors-Leaves :
      (prune : Bool)
      → Leaves (λ p. vlm p.1) (converge_sensors store adapter instance serialize prune)
  unfolding converge_sensors
  converge_sensors-Leaves prune =
      Leaves-bind (λ p. vlm p.1) (lift (store.read_cameras instance)) _
        (lift-Leaves _ own.at_cameras)
        (λ desired.
          noted-Leaves (reconcile_cameras adapter desired prune) _
            (reconcile_cameras-Leaves adapter vlm own.sensors desired prune))

  converge_scenarios-Leaves :
      (refs : ScenarioRefs)
      → OnSome
          (λ restart. Leaves vlm (restart refs.ns refs.alert_worker_deployment))
          adapter.restart_deployment
      → Leaves (λ p. vlm p.1) (converge_scenarios store adapter instance serialize refs)
  unfolding converge_scenarios
  converge_scenarios-Leaves refs worker =
      Leaves-bind (λ p. vlm p.1) (lift (store.read_scenarios instance)) _
        (lift-Leaves _ own.at_scenarios)
        (λ scenarios. noted-Leaves (reconcile_scenarios adapter serialize scenarios refs) _ (
          reconcile_scenarios-Leaves adapter vlm serialize scenarios refs own.at_key
            own.at_patch_key worker))

  converge_prompt-Leaves :
      (refs : PromptRefs) (paused : Option String)
      → is_some (truthy paused) ≡ true
      → Leaves (λ p. vlm p.1) (converge_prompt store adapter instance serialize refs paused)
  unfolding converge_prompt
  converge_prompt-Leaves refs paused held =
      Leaves-bind (λ p. vlm p.1) (lift (store.read_prompt instance)) _ (lift-Leaves _ own.at_prompt)
        (λ doc.
          noted-Leaves (reconcile_prompt adapter doc refs paused) _
            (reconcile_prompt-held adapter vlm doc refs paused held own.at_env))

  strategy-held :
      (b : Bool) (refs : PromptRefs)
      → b ≡ true
      → Leaves (λ p. vlm p.1) (converge_strategy store adapter instance serialize b refs)
  unfolding converge_strategy
  strategy-held true refs held = λ w. refl
  strategy-held false refs held = λ w. cc

  converge_refs-Leaves :
      (refs : Option Refs) (paused : Option String)
      → is_some (truthy paused) ≡ true
      → OnSome
          (λ r.
            OnSome
              (λ restart. Leaves vlm (restart r.scenarios.ns r.scenarios.alert_worker_deployment))
              adapter.restart_deployment)
          refs
      → Leaves (λ p. vlm p.1) (converge_refs store adapter instance serialize refs paused)
  unfolding converge_refs
  converge_refs-Leaves none paused held worker = λ w. refl
  converge_refs-Leaves (some refs) paused held worker =
      let strategy =
        converge_strategy store adapter instance serialize (is_some (truthy paused)) refs.prompt in
      let prompt = converge_prompt store adapter instance serialize refs.prompt paused in
      let scenarios = converge_scenarios store adapter instance serialize refs.scenarios in
      Leaves-then (λ p. vlm p.1) strategy (prompt >> scenarios) (strategy-held _ refs.prompt held)
        (Leaves-then (λ p. vlm p.1) prompt scenarios
          (converge_prompt-Leaves refs.prompt paused held)
          (converge_scenarios-Leaves refs.scenarios worker))

  converge-Leaves :
      is_some (truthy opts.paused) ≡ true
      → Leaves (λ p. vlm p.1) (converge store adapter instance serialize opts)
  unfolding converge
  converge-Leaves held =
      Leaves-bind (λ p. vlm p.1) (converge_sensors store adapter instance serialize opts.prune) _
        (converge_sensors-Leaves opts.prune)
        (λ _. converge_refs-Leaves opts.refs opts.paused held own.at_worker)

  -- While the box is paused a pass leaves the VLM's deployment as it is, whatever fails on the way.
  pub paused-untouched :
      is_some (truthy opts.paused) ≡ true
      → Leaves vlm (reconcile_instance_cameras store adapter instance serialize opts)
  unfolding reconcile_instance_cameras write_back
  paused-untouched held w =
      let start : ReconcileStatus × W =
        (empty_status (get_or opts.agent_version "dev") opts.now, w) in
      let (t, (s, w')) = converge store adapter instance serialize opts start in
      Leaves-bind vlm (store.write_status instance (recorded t s)) _ (own.at_status (recorded t s))
        (λ _ v. refl) w'
      ∙ converge-Leaves held start
