-- ===== src/Ingestion/Wired.antt =====
-- Runs of test footage over the ingestion of this development: what Footage asks of the calls on the
-- alert bridge is what is proved of them.
use artesca_vss_console.Common.{
  String, Option, ◌≡◌, value, pure, ◌>>=◌, Leaves, Returns, Returns-bind, Returns-pure, OnThrown,
}
use artesca_vss_console.Footage.{RunDeps, RulesDoc, absent}
use artesca_vss_console.Footage.Names.{sanitise_filename}
use artesca_vss_console.Footage.Rules.Marker.{MarkLaws}
use artesca_vss_console.Footage.Stop.Clears.{StopLaws}
use artesca_vss_console.Footage.Run.{RunRequest, start_run}
use artesca_vss_console.Footage.Run.Restored.{FailSoft, start_run-restored}
use artesca_vss_console.Ingestion.{IngestionDeps}
use artesca_vss_console.Ingestion.Switch.{list_ingesting_cameras, suspend_ingestion, set_ingestion}
use artesca_vss_console.Ingestion.Soft.{
  BridgeSoft, list_ingesting_cameras-Returns, suspend_ingestion-Returns, set_ingestion-Returns,
}
use artesca_vss_console.Ingestion.Register.{
  VstDeps, VstSoft, register_sensor_and_arm, register_sensor_and_arm-Returns,
}
use artesca_vss_console.Ingestion.Rules.{DocumentLaws, set_ingestion-Leaves}

-- The calls of a run, of which those on the rules are the ingestion's, and the registration is the one
-- of this development.
abbrev pub wired : {W : Type 0} → IngestionDeps W → VstDeps W → RunDeps W → RunDeps W
wired i v base = record base {
  read_rules = i.read_rules;
  patch_rules = i.patch_rules;
  suspend_ingestion = suspend_ingestion i;
  set_ingestion = set_ingestion i;
  list_ingesting = list_ingesting_cameras i >>= λ r. pure r.0;
  list_sensors = i.vst_list_sensors;
  register = register_sensor_and_arm v;
}

-- The reconciler's deployment and the sensors are looked up, restarted and deleted with the document
-- left as it is.
pub record ClusterLaws {W : Type 0} {i : IngestionDeps W} (laws : DocumentLaws i) (base : RunDeps W)
    : Type 0 where
  pub rollout_restart-Leaves : Leaves laws.mark base.rollout_restart
  pub wait_for_rollout-Leaves : Leaves laws.mark base.wait_for_rollout
  pub deployment_exists-Leaves : Leaves laws.mark base.deployment_exists
  pub delete_sensor-Leaves : (uuid : String) → Leaves laws.mark (base.delete_sensor uuid)

module _ {W : Type 0} {i : IngestionDeps W} {v : VstDeps W} {base : RunDeps W} (soft : BridgeSoft i)
    (vst : VstSoft v) (laws : DocumentLaws i) (cluster : ClusterLaws laws base) where
  abbrev marks : MarkLaws (wired i v base)
  marks = record {
    mark = laws.mark;
    read_rules-reads = laws.read_rules-reads;
    read_rules-Leaves = laws.read_rules-Leaves;
    patch_rules-marks = laws.patch_rules-marks;
    rollout_restart-Leaves = cluster.rollout_restart-Leaves;
    wait_for_rollout-Leaves = cluster.wait_for_rollout-Leaves;
  }

  abbrev stops : StopLaws marks
  stops = record {
    deployment_exists-Leaves = cluster.deployment_exists-Leaves;
    set_ingestion-Leaves = set_ingestion-Leaves laws;
    list_sensors-Leaves = laws.vst_list_sensors-Leaves;
    delete_sensor-Leaves = cluster.delete_sensor-Leaves;
  }

  abbrev answers : FailSoft (wired i v base)
  answers = record {
    list_ingesting-Returns =
        Returns-bind (list_ingesting_cameras i) _ (list_ingesting_cameras-Returns soft)
          (λ r. Returns-pure _);
    suspend_ingestion-Returns = suspend_ingestion-Returns soft;
    set_ingestion-Returns = set_ingestion-Returns soft;
    register-Returns = register_sensor_and_arm-Returns vst;
  }

  -- Over the ingestion and the registration as they are modelled, where the rules document can be read
  -- and patched, and the alert bridge and VST answer with a warning in place of throwing, a start that
  -- throws, once the file name is accepted, leaves no camera marked as paused.
  pub wired-restored :
      Returns i.read_rules
      → ((d : RulesDoc) (version : Option String) → Returns (i.patch_rules d version))
      → (host port : String) (req : RunRequest) (name : String)
      → sanitise_filename req.file_name ≡ value name
      → (w : W)
      → OnThrown (λ w1. laws.mark w1 ≡ absent) (start_run (wired i v base) host port req w)
  wired-restored readable patchable host port req name e w =
      start_run-restored stops readable patchable answers host port req name e w
