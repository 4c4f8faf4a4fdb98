-- ===== src/Footage/Stop.antt =====
-- Tearing runs down and resuming the cameras (src/lib/test-footage-run.ts): `restoreCameras`,
-- `stopRun` and `listRuns`.
pub mod Frame
pub mod Clears
pub mod Resumes
use Prim.Native.String.{◌++◌ as text_append}
use artesca_vss_console.Common.{
  String, Bool, true, false, ◌&&◌, Option, none, some, List, [], ◌∷◌, ◌++◌, map, Effect, Try, value,
  thrown, pure, ◌>>=◌, try_catch, get_or, truthy, if◌then◌else◌, ◌==◌,
}
use artesca_vss_console.Footage.{Answered, VstSensor, Registration, RunDeps, switched, warned}
use artesca_vss_console.Footage.Names.{is_footage_camera}
use artesca_vss_console.Footage.Rules.{set_paused_sensors, paused_sensors, distinct_from, live_only}

pub record StopRequest : Type 0 where
  pub camera_id : Option String
  pub resume : List String

pub record StopResult : Type 0 where
  pub stopped : List String
  pub resumed : List String
  pub warnings : List String

-- A run: its camera, and its stream where it has one.
pub record Run : Type 0 where
  pub camera_id : String
  pub stream_id : Option String

abbrev pub warning_list : Option String → List String
warning_list none = []
warning_list (some w) = w ∷ []

-- A warning of a camera, behind what it is about.
abbrev pub labelled : String → Option String → List String
labelled label none = []
labelled label (some w) = text_append label w ∷ []

abbrev about : String → String
about name = text_append name ": "

abbrev resume_label : String → String
resume_label id = text_append (text_append "could not resume " id) ": "

abbrev is_target : Option String → String → Bool
is_target none name = true
is_target (some wanted) name = name == wanted

abbrev target_if : Bool → String → String → List (String × String) → List (String × String)
target_if true name stream_id rest = (name, stream_id) ∷ rest
target_if false name stream_id rest = rest

abbrev target_with :
    Option String → Option String → String → List (String × String) → List (String × String)
target_with wanted none stream_id rest = rest
target_with wanted (some name) stream_id rest =
    target_if (is_footage_camera name && is_target wanted name) name stream_id rest

-- The test cameras among the sensors, the named one or all, with their stream identifiers.
pub runs_of : Option String → List VstSensor → List (String × String)
runs_of wanted [] = []
runs_of wanted (s ∷ ss) =
    target_with wanted (truthy s.sensor_id) (get_or s.stream_id "") (runs_of wanted ss)

abbrev pub uuid_of : String → String → String
uuid_of stream_id name = if stream_id == "" then name else stream_id

-- What the loop over the runs has collected.
pub record Torn : Type 0 where
  pub stopped : List String
  pub warnings : List String

abbrev pub torn_with : Torn → Torn → Torn
torn_with one rest = record {
  stopped = one.stopped ++ rest.stopped;
  warnings = one.warnings ++ rest.warnings;
}

module _ {W : Type 0} where
  -- A call inside a `try` whose handler keeps what was pushed before.
  abbrev pub attempt : {A : Type 0} → Effect W A → Effect W (Try A)
  attempt m w = let (t, w1) = m w in (value t, w1)

abbrev pub deleted : String → List String → Try Answered → Torn
deleted name ws (value del) = record {
  stopped = name ∷ [];
  warnings = ws ++ labelled (about name) (warned del);
}
deleted name ws (thrown e) = record {
  stopped = [];
  warnings = ws ++ text_append (about name) e ∷ [];
}

module _ {W : Type 0} (deps : RunDeps W) where
  -- The cameras resumed by hand, where there is no reconciler.
  pub resume_each : List String → Effect W (List String)
  resume_each [] = pure []
  resume_each (id ∷ ids) = do
    res ← deps.set_ingestion (switched id true)
    rest ← resume_each ids
    pure (labelled (resume_label id) (warned res) ++ rest)

  abbrev pub resume_unless : Bool → List String → Effect W (List String)
  resume_unless true ids = pure []
  resume_unless false ids = resume_each ids

  pub restore_cameras : List String → Effect W (List String)
  restore_cameras ids = do
    clear ← set_paused_sensors deps []
    exists ← deps.deployment_exists
    rest ← resume_unless exists ids
    pure (warning_list clear ++ rest)

  abbrev pub tear_down_with : String → String → Try Answered → Effect W Torn
  tear_down_with name uuid (thrown e) =
      pure (record { stopped = []; warnings = text_append (about name) e ∷ [] })
  tear_down_with name uuid (value ing) = do
    del ← attempt (deps.delete_sensor uuid)
    pure (deleted name (labelled (about name) (warned ing)) del)

  -- One run: its analysis is turned off, and its sensor is deleted.
  pub tear_down : String × String → Effect W Torn
  tear_down (name, stream_id) = do
    ing ← attempt (deps.set_ingestion (switched name false))
    tear_down_with name (uuid_of stream_id name) ing

  pub tear_down_each : List (String × String) → Effect W Torn
  tear_down_each [] = pure (record { stopped = []; warnings = [] })
  tear_down_each (t ∷ ts) = do
    one ← tear_down t
    rest ← tear_down_each ts
    pure (torn_with one rest)

  -- The sensors, none where they cannot be paused_list.
  abbrev pub listed_sensors : Effect W (List VstSensor)
  listed_sensors = try_catch deps.list_sensors (λ _. [])

  pub stop_run : StopRequest → Effect W StopResult
  stop_run input = do
    sensors ← listed_sensors
    torn ← tear_down_each (runs_of (truthy input.camera_id) sensors)
    marks ← paused_sensors deps
    let resume = live_only (distinct_from [] (input.resume ++ marks))
    ws ← restore_cameras resume
    pure (record { stopped = torn.stopped; resumed = resume; warnings = torn.warnings ++ ws })

abbrev pub run_of : String × String → Run
run_of (name, stream_id) = record { camera_id = name; stream_id = truthy (some stream_id) }

module _ {W : Type 0} (deps : RunDeps W) where
  -- The runs that are registered.
  pub list_runs : Effect W (List Run)
  list_runs = listed_sensors deps >>= λ sensors. pure (map run_of (runs_of none sensors))
