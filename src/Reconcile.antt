-- ===== src/Reconcile.antt =====
-- The reconciler's data (src/lib/config-store/types.ts, src/lib/helpers/gcs-config.ts) and the cluster
-- that it converges (the interface `ClusterAdapter` of src/lib/reconcile/cluster-adapter.ts). The
-- adapter is a parameter of the code: its operations act on a state `W` and may throw.
pub mod Cameras
pub mod Workloads
pub mod Run
pub mod Seed
use artesca_vss_console.Common.{ℕ, String, Bool, false, Option, none, List, [], Effect}

pub data RecordingPolicy : Type 0 where
  always event_only off : RecordingPolicy

pub record CameraRecordingEntry : Type 0 where
  pub enabled : Bool
  pub policy : RecordingPolicy
  pub retention_days : ℕ

pub record CameraEntry : Type 0 where
  pub id : String
  pub rtsp_url : String
  pub description : Option String
  pub role : Option String
  pub scenario_ids : Option (List String)
  pub prompt_id : Option String
  pub recording : Option CameraRecordingEntry

pub record PromptDoc : Type 0 where
  pub prompt : String
  pub model : Option String

pub record PromptSet : Type 0 where
  pub id : String
  pub name : String
  pub text : String
  pub model : Option String
  pub alert_type : Option String

pub data Severity : Type 0 where
  low medium high critical : Severity

pub data Channel : Type 0 where
  ui slack : Channel

pub record ScenarioEntry : Type 0 where
  pub id : String
  pub name : String
  pub description : Option String
  pub severity : Severity
  pub channels : List Channel
  pub sensor_filter : String
  pub keywords : List String
  pub enabled : Bool
  pub cooldown_seconds : Option ℕ

-- `applied` of the source is flattened here.
pub record ReconcileStatus : Type 0 where
  pub last_run_at : String
  pub cameras_added : ℕ
  pub cameras_pruned : ℕ
  pub prompt_updated : Bool
  pub scenarios_updated : Bool
  pub drift : List String
  pub errors : List String
  pub agent_version : String

abbrev pub empty_status : String → String → ReconcileStatus
empty_status agent_version now = record {
  last_run_at = now;
  cameras_added = 0;
  cameras_pruned = 0;
  prompt_updated = false;
  scenarios_updated = false;
  drift = [];
  errors = [];
  agent_version = agent_version;
}

pub record AdapterSensor : Type 0 where
  pub sensor_id : String
  pub uuid : Option String
  pub name : String
  pub rtsp_url : Option String
  pub status : Option String

-- The answer of an operation on a sensor.
pub record Answer : Type 0 where
  pub ok : Bool
  pub warning : Option String

-- The operations that the reconciler uses; an optional one may be missing.
pub record ClusterAdapter (W : Type 0) : Type 0 where
  pub list_sensors : Effect W (List AdapterSensor)
  pub add_sensor : String → String → Option String → Effect W Answer
  pub remove_sensor : Option (String → Effect W Answer)
  pub get_deployment_env : Option (String → String → String → Effect W (Option String))
  pub patch_deployment_env : Option (String → String → String → String → Effect W (Unit {0}))
  pub get_config_map_key : Option (String → String → String → Effect W (Option String))
  pub patch_config_map_key : Option (String → String → String → String → Effect W (Unit {0}))
  pub restart_deployment : Option (String → String → Effect W (Unit {0}))
  pub ensure_deployment_strategy : Option (String → String → String → Effect W Bool)
