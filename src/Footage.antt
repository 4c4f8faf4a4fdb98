-- ===== src/Footage.antt =====
-- Test footage: a video file replayed as a camera (src/lib/test-footage.ts for the names,
-- src/lib/test-footage-run.ts for the runs). The names are in Footage/Names.antt, the document of the
-- alert rules with its mark of the paused cameras in Footage/Rules.antt, the stop of a run in
-- Footage/Stop.antt and its start in Footage/Run.antt. The calls of a run on the services are the
-- record below.
pub mod Names
pub mod Rules
pub mod Stop
pub mod Run
mod Tests
use artesca_vss_console.Common.{
  ℕ, String, Bool, Option, none, some, List, [], ◌∷◌, Effect, truthy, if◌then◌else◌,
}

-- An entry of the rules document.
pub record RuleEntry : Type 0 where
  pub sensor : Option String
  pub alert_type : Option String
  pub prompt : Option String
  pub stream_url : Option String

-- How the frames of a stream are sampled; the same keys of the document.
pub record Sampling : Type 0 where
  pub chunk_duration : Option ℕ
  pub chunk_overlap_duration : Option ℕ
  pub enable_reasoning : Option Bool
  pub num_frames : Option ℕ
  pub use_fps_for_chunking : Option Bool

-- The document `rules.json`; an array under `paused_sensors` is the texts of its entries.
pub data PausedField : Type 0 where
  absent : PausedField
  paused_list : List String → PausedField
  other : PausedField

pub record RulesDoc : Type 0 where
  pub rules : Option (List RuleEntry)
  pub paused_sensors : PausedField
  pub model : Option String
  pub system_prompt : Option String
  pub sampling : Sampling
  pub rest : String

-- What the calls on VST and the alert bridge answer.
pub record Answered : Type 0 where
  pub ok : Bool
  pub warning : Option String

pub record Quiesced : Type 0 where
  pub previous_replicas : ℕ
  pub quiesced : Bool

-- A sensor, with its identifiers where it has them.
pub record VstSensor : Type 0 where
  pub sensor_id : Option String
  pub stream_id : Option String
  pub sensor_uuid : Option String

pub record Registration : Type 0 where
  pub name : String
  pub rtsp_url : String
  pub description : String

pub record Registered : Type 0 where
  pub ok : Bool
  pub uuid : Option String
  pub warnings : List String

-- `setIngestion(camera, enabled, rtspUrl, { alertType, prompt })`
pub record Ingestion : Type 0 where
  pub camera : String
  pub enabled : Bool
  pub rtsp_url : Option String
  pub alert_type : Option String
  pub prompt : Option String

pub record RunDeps (W : Type 0) : Type 0 where
  -- The rules document with its resource version, and its patch, refused on another version.
  pub read_rules : Effect W (RulesDoc × Option String)
  pub patch_rules : RulesDoc → Option String → Effect W Unit
  -- The reconciler's deployment.
  pub rollout_restart : Effect W Unit
  pub wait_for_rollout : Effect W Bool
  pub quiesce : Effect W Quiesced
  pub scale : ℕ → Effect W Unit
  pub deployment_exists : Effect W Bool
  -- The live rules of a camera.
  pub suspend_ingestion : String → Effect W Answered
  pub set_ingestion : Ingestion → Effect W Answered
  pub list_ingesting : Effect W (List String)
  -- VST.
  pub list_sensors : Effect W (List VstSensor)
  pub delete_sensor : String → Effect W Answered
  pub register : Registration → Effect W Registered

abbrev pub switched : String → Bool → Ingestion
switched id enabled = record {
  camera = id;
  enabled = enabled;
  rtsp_url = none;
  alert_type = none;
  prompt = none;
}

-- `if (!res.ok && res.warning)`
abbrev pub warned : Answered → Option String
warned res = if res.ok then none else truthy res.warning
