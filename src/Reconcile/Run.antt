-- ===== src/Reconcile/Run.antt =====
-- One pass of the reconcile agent (`reconcileInstanceCameras`, src/lib/reconcile/run.ts) between the
-- store of the desired configuration (the interface `ConfigStore` of src/lib/config-store/types.ts),
-- whose operations are parameters, and the cluster.
pub mod Paused
mod Tests
pub mod WriteBack
use Prim.Native.String.{◌++◌ as text_append}
use artesca_vss_console.Common.{
  String, Bool, true, false, Option, none, some, List, [], ◌∷◌, ◌++◌, map, get_or, length, Try,
  value, thrown, Effect, pure, ◌>>=◌, ◌>>◌, truthy, is_some, if◌then◌else◌,
}
use artesca_vss_console.Reconcile.{
  CameraEntry, PromptDoc, ScenarioEntry, ReconcileStatus, empty_status, ClusterAdapter,
}
use artesca_vss_console.Reconcile.Cameras.{Failure, CameraReconcileResult, reconcile_cameras}
use artesca_vss_console.Reconcile.Workloads.{
  PromptRefs, PromptReconcileResult, ScenarioRefs, ScenarioReconcileResult, VlmStrategyResult,
  reconcile_prompt, reconcile_scenarios, reconcile_vlm_strategy,
}

pub record Refs : Type 0 where
  pub prompt : PromptRefs
  pub scenarios : ScenarioRefs

pub record ReconcileRunOptions : Type 0 where
  pub prune : Bool
  pub now : String
  pub agent_version : Option String
  pub refs : Option Refs
  pub paused : Option String

-- The operations of the store that a pass uses.
pub record ConfigStore (W : Type 0) : Type 0 where
  pub read_cameras : String → Effect W (List CameraEntry)
  pub read_prompt : String → Effect W (Option PromptDoc)
  pub read_scenarios : String → Effect W (List ScenarioEntry)
  pub write_status : String → ReconcileStatus → Effect W Unit

abbrev pub failure_note : Failure → String
failure_note f =
    text_append (text_append (text_append "camera " f.id) ": ") (get_or f.warning "unknown error")

abbrev pub push_error : String → ReconcileStatus → ReconcileStatus
push_error e s = record s { errors = s.errors ++ e ∷ [] }

-- `if (error) errors.push(...)`: an empty message counts as none.
abbrev pub note_error : String → Option String → ReconcileStatus → ReconcileStatus
note_error label none s = s
note_error label (some e) s = push_error (text_append label e) s

abbrev pub note_cameras : CameraReconcileResult → ReconcileStatus → ReconcileStatus
note_cameras r s = record s {
  cameras_added = length r.added;
  cameras_pruned = length r.pruned;
  drift = r.drift;
  errors = map failure_note r.failed;
}

abbrev pub note_strategy : VlmStrategyResult → ReconcileStatus → ReconcileStatus
note_strategy r s = note_error "vlm-strategy: " (truthy r.error) s

abbrev pub prompt_drift : Option String → String
prompt_drift skipped = text_append "prompt: differs from desired — " (get_or skipped "undefined")

abbrev pub note_deferred : PromptReconcileResult → ReconcileStatus → ReconcileStatus
note_deferred r s =
    if r.deferred then record s { drift = s.drift ++ prompt_drift r.skipped ∷ [] } else s

abbrev pub note_prompt : PromptReconcileResult → ReconcileStatus → ReconcileStatus
note_prompt r s =
    note_deferred r
      (note_error "prompt: " (truthy r.error) (record s { prompt_updated = r.updated }))

abbrev pub note_scenarios : ScenarioReconcileResult → ReconcileStatus → ReconcileStatus
note_scenarios r s =
    note_error "scenarios: " (truthy r.error) (record s { scenarios_updated = r.updated })

-- The `catch` of the pass.
pub recorded : Try (Unit {0}) → ReconcileStatus → ReconcileStatus
recorded (value _) s = s
recorded (thrown e) s = push_error e s

module _ {W : Type 0} where
  -- A call of the store or of the cluster leaves the status as it is.
  pub lift : {A : Type 0} → Effect W A → Effect (ReconcileStatus × W) A
  lift m (s, w) = let (t, w') = m w in (t, (s, w'))

  pub note : (ReconcileStatus → ReconcileStatus) → Effect (ReconcileStatus × W) Unit
  note f (s, w) = (value tt, (f s, w))

module _ {W : Type 0} (store : ConfigStore W) (adapter : ClusterAdapter W) (instance : String)
    (serialize : List ScenarioEntry → String) where
  pub converge_strategy : Bool → PromptRefs → Effect (ReconcileStatus × W) Unit
  converge_strategy true refs = pure tt
  converge_strategy false refs = do
    r ← lift (reconcile_vlm_strategy adapter refs.ns refs.deployment)
    note (note_strategy r)

  pub converge_prompt : PromptRefs → Option String → Effect (ReconcileStatus × W) Unit
  converge_prompt refs paused = do
    doc ← lift (store.read_prompt instance)
    r ← lift (reconcile_prompt adapter doc refs paused)
    note (note_prompt r)

  pub converge_scenarios : ScenarioRefs → Effect (ReconcileStatus × W) Unit
  converge_scenarios refs = do
    scenarios ← lift (store.read_scenarios instance)
    r ← lift (reconcile_scenarios adapter serialize scenarios refs)
    note (note_scenarios r)

  pub converge_refs : Option Refs → Option String → Effect (ReconcileStatus × W) Unit
  converge_refs none paused = pure tt
  converge_refs (some refs) paused = do
    converge_strategy (is_some (truthy paused)) refs.prompt
    converge_prompt refs.prompt paused
    converge_scenarios refs.scenarios

  pub converge_sensors : Bool → Effect (ReconcileStatus × W) Unit
  converge_sensors prune = do
    desired ← lift (store.read_cameras instance)
    r ← lift (reconcile_cameras adapter desired prune)
    note (note_cameras r)

  -- The `try` block.
  pub converge : ReconcileRunOptions → Effect (ReconcileStatus × W) Unit
  converge opts = do converge_sensors opts.prune; converge_refs opts.refs opts.paused

  pub write_back : ReconcileStatus → Effect W ReconcileStatus
  write_back s = do store.write_status instance s; pure s

  pub reconcile_instance_cameras : ReconcileRunOptions → Effect W ReconcileStatus
  reconcile_instance_cameras opts w =
      let (t, (s, w')) =
        converge opts (empty_status (get_or opts.agent_version "dev") opts.now, w) in
      write_back (recorded t s) w'
