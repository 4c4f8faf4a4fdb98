-- ===== src/Diagnosis.antt =====
-- The diagnosis of a camera, link by link (src/lib/diagnostics/camera-chain.ts): `buildCameraChain`,
-- which names the first broken of six links. Collecting the live report is in Diagnosis/Report.antt.
pub mod Links
pub mod Verdicts
pub mod Report
mod Tests
use Prim.Native.String.{◌++◌ as text_append}
use artesca_vss_console.Common.{
  ℕ, String, Bool, true, false, not, ◌&&◌, ◌||◌, Option, none, some, List, [], ◌∷◌, map, filter,
  find?, length, get_or, truthy, is_text, is_some, ltb, includes, if◌then◌else◌, ◌==◌,
}
use artesca_vss_console.Common.Trim.{trim}
use artesca_vss_console.Common.Texts.{split, join, take_chars, show_nat}
use artesca_vss_console.Recovery.{RecordingStatus}

pub data StepState : Type 0 where
  ok fail warn blocked unknown : StepState

pub data StepId : Type 0 where
  source sensor stream recording rule scenario : StepId

pub record ChainStep : Type 0 where
  pub id : StepId
  pub label : String
  pub state : StepState
  pub detail : Option String
  pub fix : Option String

pub record Verdict : Type 0 where
  pub state : StepState
  pub reason : String
  pub fix : Option String

pub record CameraChain : Type 0 where
  pub camera_id : String
  pub rtsp_url : Option String
  pub steps : List ChainStep
  pub verdict : Option Verdict

pub record DesiredCamera : Type 0 where
  pub id : String
  pub rtsp_url : Option String

pub record ScenarioBinding : Type 0 where
  pub id : String
  pub enabled : Bool
  pub sensor_filter : String

pub record RealtimeRule : Type 0 where
  pub sensor_name : Option String
  pub alert_type : Option String
  pub model : Option String

-- The cameras that a scenario targets.
pub data Targets : Type 0 where
  every : Targets
  named : List String → Targets

abbrev comma : ℕ
comma = 44

pub targets_of : String → Targets
targets_of raw =
    if raw == "" then every else named (filter (λ v. not (v == "")) (map trim (split comma raw)))

pub scenario_targets : ScenarioBinding → Targets
scenario_targets s = targets_of (trim s.sensor_filter)

abbrev pub covers : Targets → String → Bool
covers every id = true
covers (named ids) id = includes ids id

pub is_bound : String → ScenarioBinding → Bool
is_bound id s = s.enabled && covers (scenario_targets s) id

pub record ChainInput : Type 0 where
  pub camera : DesiredCamera
  pub registered : Bool
  pub stream_id : Option String
  pub recording : RecordingStatus
  pub rules : List RealtimeRule
  pub live_model : Option String
  pub scenarios : List ScenarioBinding
  pub storage_ok : Bool
  pub storage_reason : Option String

abbrev pub good : StepId → String → Option String → ChainStep
good id label detail = record { id = id; label = label; state = ok; detail = detail; fix = none }

abbrev pub bad : StepId → String → StepState → String → Option String → ChainStep
bad id label state detail fix = record {
  id = id;
  label = label;
  state = state;
  detail = some detail;
  fix = fix;
}

-- 1. Is a URL known?
pub source_step : Option String → ChainStep
source_step (some url) = good source "RTSP source" (some url)
source_step none =
    bad source "RTSP source" fail "no RTSP URL recorded for this camera"
      (some "Set the camera's RTSP URL in the config store (Cameras → edit).")

-- 2. Is the sensor registered?
pub sensor_step : Bool → Option String → ChainStep
sensor_step true stream_id = good sensor "Registered in VST" stream_id
sensor_step false stream_id =
    bad sensor "Registered in VST" fail "no VST sensor with this name"
      (some "Use Re-register on this camera (sensor/add + proxy/stream/add).")

-- 3. Is a stream armed? The identifier is the one that is not empty.
pub stream_step : Bool → Option String → ChainStep
stream_step true (some sid) =
    good stream "Stream armed" (some (text_append (text_append "stream " (take_chars 8 sid)) "…"))
stream_step true none =
    bad stream "Stream armed" fail "sensor has no stream id"
      (some "Use Re-register — arming must target the sensor's current UUID.")
stream_step false _ = bad stream "Stream armed" blocked "needs a registered sensor" none

abbrev recording_label : String
recording_label = "Recording to ARTESCA S3"

pub probed_step : RecordingStatus → ChainStep
probed_step RecordingStatus.recording = good recording recording_label (some "segments present")
probed_step RecordingStatus.unknown =
    bad recording recording_label unknown "storage probe unreachable" none
probed_step RecordingStatus.not_recording =
    bad recording recording_label fail "no segments written in the probe window"
      (some "Use Re-register to re-arm the recorder against the sensor's current UUID.")

-- 4. Is it recording? Asked only of an armed stream, and only where the storage is up.
pub recording_step : Bool → Option String → Bool → RecordingStatus → ChainStep
recording_step false reason armed status =
    bad recording recording_label fail (get_or reason "object storage unavailable")
      (some "Fix object storage first — no camera can record until then (see Storage below).")
recording_step true reason false status =
    bad recording recording_label blocked "needs an armed stream" none
recording_step true reason true status = probed_step status

abbrev rule_label : String
rule_label = "VLM analysis rule"

-- Does the rule name another model than the one that is served?
pub is_drifted : String → RealtimeRule → Bool
is_drifted live r = is_some (truthy r.model) && not (is_text r.model live)

pub drifted : Option String → List RealtimeRule → Option RealtimeRule
drifted none mine = none
drifted (some live) mine = find? (is_drifted live) mine

pub drifted_step : RealtimeRule → String → ChainStep
drifted_step r live =
    bad rule rule_label fail
      (text_append
        (text_append (text_append "rule names model \"" (get_or r.model "undefined"))
          "\" but the VLM serves \"")
        (text_append live "\""))
      (some "Toggle ingestion off and on — the rule is recreated against the live model.")

pub duplicated_step : ℕ → ChainStep
duplicated_step n =
    bad rule rule_label warn
      (text_append (text_append (show_nat n) " duplicate rules — this camera is captioned ")
        (text_append (show_nat n) "× on the same GPU"))
      (some "The reconciler dedupes automatically; if it persists, toggle ingestion off and on.")

pub present_step : Option RealtimeRule → String → RealtimeRule → List RealtimeRule → ChainStep
present_step (some r) live first others = drifted_step r live
present_step none live first [] = good rule rule_label first.alert_type
present_step none live first (second ∷ others) = duplicated_step (length (first ∷ second ∷ others))

-- 5. Is there one rule, and does it name the served model?
pub rule_step : Option String → List RealtimeRule → ChainStep
rule_step live [] =
    bad rule rule_label fail "no realtime alert rule — this camera is recorded but never analyzed"
      (some "Enable ingestion on this camera.")
rule_step live (first ∷ others) =
    present_step (drifted live (first ∷ others)) (get_or live "") first others

-- 6. Does an enabled scenario cover it?
pub scenario_step : List ScenarioBinding → ChainStep
scenario_step [] =
    bad scenario "Scenario binding" warn
      "no enabled scenario targets this camera — it will raise no incidents"
      (some "Add this camera to a scenario's sensor list, or enable a scenario that covers it.")
scenario_step (s ∷ ss) =
    good scenario "Scenario binding" (some (join ", " (map (λ b. b.id) (s ∷ ss))))

abbrev pub is_fail : ChainStep → Bool
is_fail s = elim s.state [ fail ↦ true | _ ↦ false ]

abbrev pub is_warn : ChainStep → Bool
is_warn s = elim s.state [ warn ↦ true | _ ↦ false ]

abbrev pub verdict_from : ChainStep → Verdict
verdict_from s = record { state = s.state; reason = get_or s.detail s.label; fix = s.fix }

abbrev pub first_bad : Option ChainStep → Option ChainStep → Option Verdict
first_bad (some s) _ = some (verdict_from s)
first_bad none (some s) = some (verdict_from s)
first_bad none none = none

-- The first link that fails, else the first that warns.
pub verdict_of : List ChainStep → Option Verdict
verdict_of steps = first_bad (find? is_fail steps) (find? is_warn steps)

abbrev pub rules_of : String → List RealtimeRule → List RealtimeRule
rules_of id rules = filter (λ r. is_text r.sensor_name id) rules

pub steps_of : ChainInput → List ChainStep
steps_of i =
    source_step (truthy i.camera.rtsp_url)
    ∷ sensor_step i.registered i.stream_id
    ∷ stream_step i.registered (truthy i.stream_id)
    ∷ recording_step i.storage_ok i.storage_reason (i.registered && is_some (truthy i.stream_id))
        i.recording
    ∷ rule_step (truthy i.live_model) (rules_of i.camera.id i.rules)
    ∷ scenario_step (filter (is_bound i.camera.id) i.scenarios)
    ∷ []

pub build_camera_chain : ChainInput → CameraChain
build_camera_chain i = record {
  camera_id = i.camera.id;
  rtsp_url = i.camera.rtsp_url;
  steps = steps_of i;
  verdict = verdict_of (steps_of i);
}
