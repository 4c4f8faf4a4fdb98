-- ===== src/Footage/Tests.antt =====
-- A box on which turning the analysis of a clip on fails, as where the VLM is scaled to zero.
use artesca_vss_console.Common.{
  ℕ, ◌≢◌, String, true, false, not, ◌&&◌, ◌||◌, Option, none, some, List, [], ◌∷◌, any, ◌≡◌, refl,
  thrown, arith, value, OnValue, OnThrown, Returns, pure, ◌>>◌, includes, if◌then◌else◌,
}
use artesca_vss_console.Footage.{
  RuleEntry, absent, paused_list, RulesDoc, Sampling, Answered, RunDeps,
}
use artesca_vss_console.Footage.Names.{PlaybackMode, is_footage_camera}
use artesca_vss_console.Footage.Names.Tests.{raw_name, safe_name}
use artesca_vss_console.Footage.Rules.{list_alert_profiles, set_paused_sensors, paused_sensors}
use artesca_vss_console.Footage.Rules.Marker.{MarkLaws, paused_sensors-set_paused_sensors}
use artesca_vss_console.Footage.Rules.Profiles.{lists, offers, list_alert_profiles-exact}
use artesca_vss_console.Footage.Stop.{StopResult, stop_run}
use artesca_vss_console.Footage.Stop.Clears.{StopLaws}
use artesca_vss_console.Footage.Stop.Resumes.{stop_run-resumes}
use artesca_vss_console.Footage.Run.{RunRequest, start_run}
use artesca_vss_console.Footage.Run.Restored.{FailSoft, start_run-restored}
use artesca_vss_console.Footage.Run.Frame.{ScaleLaws}
use artesca_vss_console.Footage.Run.Scaled.{start_run-replicas}

record Box : Type 0 where
  document : RulesDoc
  replicas : ℕ

abbrev entry : String → String → String → RuleEntry
entry sensor kind prompt = record {
  sensor = some sensor;
  alert_type = some kind;
  prompt = some prompt;
  stream_url = none;
}

abbrev no_sampling : Sampling
no_sampling = record {
  chunk_duration = none;
  chunk_overlap_duration = none;
  enable_reasoning = none;
  num_frames = none;
  use_fps_for_chunking = none;
}

abbrev entries : List RuleEntry
entries =
    entry "gate" "theft" "watch the gate"
    ∷ entry "test-clip" "fire" "smoke"
    ∷ entry "door" "theft" "watch the door"
    ∷ []

abbrev unpaused : RulesDoc
unpaused = record {
  rules = some entries;
  paused_sensors = absent;
  model = none;
  system_prompt = none;
  sampling = no_sampling;
  rest = "";
}

abbrev box : Box
box = record { document = unpaused; replicas = 2 }

abbrev fine : Answered
fine = record { ok = true; warning = none }

abbrev deps : RunDeps Box
deps = record {
  read_rules = λ w. (value (w.document, none), w);
  patch_rules = λ d v w. (value tt, record w { document = d });
  rollout_restart = pure tt;
  wait_for_rollout = pure false;
  quiesce = λ w. (
    value (record { previous_replicas = w.replicas; quiesced = true }),
    record w { replicas = 0 },
  );
  scale = λ n w. (value tt, record w { replicas = n });
  deployment_exists = pure true;
  suspend_ingestion = λ id. pure fine;
  set_ingestion =
      λ i. pure (if i.enabled then record { ok = false; warning = some "no model" } else fine);
  list_ingesting = pure ("gate" ∷ "test-clip" ∷ []);
  list_sensors = pure (
      record { sensor_id = some "test-clip"; stream_id = some "u"; sensor_uuid = none }
      ∷ record { sensor_id = some "gate"; stream_id = none; sensor_uuid = none }
      ∷ []);
  delete_sensor = λ uuid. pure fine;
  register = λ r. pure (record { ok = true; uuid = none; warnings = [] });
}

abbrev marks : MarkLaws deps
marks = record {
  mark = λ w. w.document.paused_sensors;
  read_rules-reads = λ w. refl;
  read_rules-Leaves = λ w. refl;
  patch_rules-marks = λ d v w. refl;
  rollout_restart-Leaves = λ w. refl;
  wait_for_rollout-Leaves = λ w. refl;
}

abbrev stops : StopLaws marks
stops = record {
  deployment_exists-Leaves = λ w. refl;
  set_ingestion-Leaves = λ i w. refl;
  list_sensors-Leaves = λ w. refl;
  delete_sensor-Leaves = λ uuid w. refl;
}

abbrev softly : FailSoft deps
softly = record {
  list_ingesting-Returns = λ w. (_, _, refl);
  suspend_ingestion-Returns = λ id w. (_, _, refl);
  set_ingestion-Returns = λ i w. (_, _, refl);
  register-Returns = λ r w. (_, _, refl);
}

abbrev scales : ScaleLaws deps
scales = record {
  replicas = λ w. w.replicas;
  quiesce-previous = λ w. refl;
  quiesce-thrown = λ w. tt;
  scale-sets = λ n w. refl;
  read_rules-Leaves = λ w. refl;
  patch_rules-Leaves = λ d v w. refl;
  rollout_restart-Leaves = λ w. refl;
  wait_for_rollout-Leaves = λ w. refl;
  deployment_exists-Leaves = λ w. refl;
  suspend_ingestion-Leaves = λ id w. refl;
  set_ingestion-Leaves = λ i w. refl;
  list_ingesting-Leaves = λ w. refl;
  list_sensors-Leaves = λ w. refl;
  delete_sensor-Leaves = λ uuid w. refl;
  register-Leaves = λ r w. refl;
}

abbrev readable : Returns deps.read_rules
readable w = (_, _, refl)

abbrev patchable : (d : RulesDoc) (v : Option String) → Returns (deps.patch_rules d v)
patchable d v w = (_, _, refl)

abbrev request : RunRequest
request = record {
  file_name = raw_name;
  mode = PlaybackMode.loop;
  pause_live = true;
  alert_type = none;
  prompt = none;
}

list_alert_profiles-exact_example :
    OnValue
      (λ ps w. any (lists "theft" "door") ps ≡ any (offers "theft" "door") entries)
      (list_alert_profiles deps box)
list_alert_profiles-exact_example =
    list_alert_profiles-exact deps "theft" "door" unpaused none box box refl

paused_sensors-set_paused_sensors_example :
    (w1 : Box) × ((set_paused_sensors deps ("gate" ∷ []) >> paused_sensors deps) box
      ≡ (value ("gate" ∷ []), w1))
paused_sensors-set_paused_sensors_example =
    paused_sensors-set_paused_sensors marks readable patchable ("gate" ∷ []) box

abbrev paused_box : Box
paused_box = record box {
  document = record unpaused { paused_sensors = paused_list ("gate" ∷ []) };
}

-- Turning an analysis off throws.
abbrev failing : RunDeps Box
failing = record deps {
  set_ingestion = λ i w. (if i.enabled then value fine else thrown "unreachable", w);
}

abbrev failing_marks : MarkLaws failing
failing_marks = record {
  mark = λ w. w.document.paused_sensors;
  read_rules-reads = λ w. refl;
  read_rules-Leaves = λ w. refl;
  patch_rules-marks = λ d v w. refl;
  rollout_restart-Leaves = λ w. refl;
  wait_for_rollout-Leaves = λ w. refl;
}

abbrev failing_stops : StopLaws failing_marks
failing_stops = record {
  deployment_exists-Leaves = λ w. refl;
  set_ingestion-Leaves = λ i w. refl;
  list_sensors-Leaves = λ w. refl;
  delete_sensor-Leaves = λ uuid w. refl;
}

stop_run-resumes_example :
    (r : StopResult) × (w : Box) × (stop_run failing
        (record { camera_id = some "test-clip"; resume = "door" ∷ [] })
        paused_box
      ≡ (value r, w))
    × (w.document.paused_sensors ≡ absent)
    × ((id : String)
        → includes r.resumed id ≡ (
            (includes ("door" ∷ []) id || includes ("gate" ∷ []) id) && not (is_footage_camera id)))
stop_run-resumes_example =
    stop_run-resumes failing_stops readable patchable (λ w. (_, _, refl)) (λ id w. (_, _, refl))
      (record { camera_id = some "test-clip"; resume = "door" ∷ [] }) paused_box

start_run-restored_example :
    OnThrown
      (λ (w : Box). w.document.paused_sensors ≡ absent)
      (start_run deps "replay" "8654" request box)
start_run-restored_example =
    start_run-restored stops readable patchable softly "replay" "8654" request "store-theft-1.mp4"
      safe_name box

some_replicas : box.replicas ≢ 0
some_replicas = λ e. ground (arith, e)

start_run-replicas_example : (start_run deps "replay" "8654" request box).1.replicas ≡ 2
start_run-replicas_example =
    start_run-replicas scales (λ n w. (_, _, refl)) "replay" "8654" request box some_replicas
