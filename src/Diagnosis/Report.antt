-- ===== src/Diagnosis/Report.antt =====
-- The live report of all cameras (`collectCameraChains`, src/lib/diagnostics/camera-chain.ts). The four
-- reads that the code makes at once are made in the order of the text, and so are the probes.
pub mod Complete
pub mod Lost
mod Tests
use Prim.Native.String.{◌++◌ as text_append}
use artesca_vss_console.Common.{
  String, Bool, true, false, not, ◌&&◌, ◌||◌, Option, none, some, List, [], ◌∷◌, ◌++◌, Effect, pure,
  ◌>>=◌, try_catch, get_or, truthy, is_some, if◌then◌else◌,
}
use artesca_vss_console.Common.Maps.{Map, lookup, insert}
use artesca_vss_console.Recovery.{RecordingStatus}
use artesca_vss_console.Diagnosis.{
  DesiredCamera, ScenarioBinding, RealtimeRule, CameraChain, ChainInput, build_camera_chain,
}

pub data StorageState : Type 0 where
  ok fail unknown : StorageState

-- The fields that are read here.
pub record StoragePreflight : Type 0 where
  pub state : StorageState
  pub reason : Option String

pub record ListedSensor : Type 0 where
  pub name : Option String
  pub sensor_id : Option String
  pub stream_id : Option String

pub record CameraChainReport : Type 0 where
  pub cameras : List CameraChain
  pub storage : StoragePreflight
  pub checked_at : String
  pub warnings : List String

-- What the report reads. The two lists come with a warning.
pub record ReportDeps (W : Type 0) : Type 0 where
  pub storage : Effect W StoragePreflight
  pub sensors : Effect W (List ListedSensor × Option String)
  pub rules : Effect W (List RealtimeRule × Option String)
  pub live_model : Effect W (Option String)
  pub probe : String → Effect W RecordingStatus
  pub checked_at : String

abbrev pub is_ok : StoragePreflight → Bool
is_ok s = elim s.state [ ok ↦ true | _ ↦ false ]

abbrev pub warning_of : Option String → List String
warning_of none = []
warning_of (some w) = w ∷ []

abbrev name_of : ListedSensor → Option String
name_of s = elim s.name [ none ↦ s.sensor_id | some n ↦ some n ]

-- The first sensor of a name is kept.
pub add_named : Map String → Option String → String → Map String
add_named m none sid = m
add_named m (some n) sid = if is_some (lookup n m) then m else insert n sid m

pub by_name_from : Map String → List ListedSensor → Map String
by_name_from m [] = m
by_name_from m (s ∷ ss) = by_name_from (add_named m (truthy (name_of s)) (get_or s.stream_id "")) ss

module _ {W : Type 0} where
  -- `m.catch(...)`: the value, with the warnings that the handler pushed.
  pub soft : {A : Type 0} → String → (String → A) → Effect W A → Effect W (A × List String)
  soft label fallback m =
      try_catch (m >>= λ a. pure (a, [])) (λ e. (fallback e, text_append label e ∷ []))

  -- Asked only of a stream, and only where the storage is up.
  pub probe_status :
      (String → Effect W RecordingStatus) → Bool → Option String → Effect W RecordingStatus
  probe_status probe true (some sid) = try_catch (probe sid) (λ _. RecordingStatus.unknown)
  probe_status probe true none = pure RecordingStatus.unknown
  probe_status probe false _ = pure RecordingStatus.unknown

abbrev pub unknown_storage : String → StoragePreflight
unknown_storage e = record { state = unknown; reason = some "preflight failed" }

-- What was read, before the cameras are looked at.
pub record Observed : Type 0 where
  pub storage : StoragePreflight
  pub streams : Map String
  pub rules : List RealtimeRule
  pub live_model : Option String
  pub warnings : List String

abbrev model_warning : Option String → List String
model_warning none = "VLM model list unreadable — model drift not checked" ∷ []
model_warning (some m) = []

pub chain_input : Observed → List ScenarioBinding → DesiredCamera → RecordingStatus → ChainInput
chain_input o scenarios camera status = record {
  camera = camera;
  registered = is_some (lookup camera.id o.streams);
  stream_id = lookup camera.id o.streams;
  recording = status;
  rules = o.rules;
  live_model = o.live_model;
  scenarios = scenarios;
  storage_ok = is_ok o.storage;
  storage_reason = o.storage.reason;
}

module _ {W : Type 0} (deps : ReportDeps W) where
  pub read_live : Effect W Observed
  read_live = do
    (storage, w1) ← soft "storage preflight failed: " unknown_storage deps.storage
    (sensors, w2) ← soft "VST sensor list failed: " (λ e. ([], some e)) deps.sensors
    (rules, w3) ← soft "alert-bridge rule list failed: " (λ e. ([], some e)) deps.rules
    live ← deps.live_model
    pure (record {
      storage = storage;
      streams = by_name_from [] sensors.0;
      rules = rules.0;
      live_model = live;
      warnings =
          w1
          ++ w2
          ++ w3
          ++ warning_of (truthy sensors.1)
          ++ warning_of (truthy rules.1)
          ++ model_warning (truthy live);
    })

  pub diagnose : Observed → List ScenarioBinding → DesiredCamera → Effect W CameraChain
  diagnose o scenarios camera = do
    status ← probe_status deps.probe (is_ok o.storage) (truthy (lookup camera.id o.streams))
    pure (build_camera_chain (chain_input o scenarios camera status))

  pub diagnose_all :
      Observed → List ScenarioBinding → List DesiredCamera → Effect W (List CameraChain)
  diagnose_all o scenarios [] = pure []
  diagnose_all o scenarios (camera ∷ cameras) = do
    chain ← diagnose o scenarios camera
    chains ← diagnose_all o scenarios cameras
    pure (chain ∷ chains)

  pub collect_camera_chains : List DesiredCamera → List ScenarioBinding → Effect W CameraChainReport
  collect_camera_chains desired scenarios = do
    o ← read_live
    chains ← diagnose_all o scenarios desired
    pure (record {
      cameras = chains;
      storage = o.storage;
      checked_at = deps.checked_at;
      warnings = o.warnings;
    })
