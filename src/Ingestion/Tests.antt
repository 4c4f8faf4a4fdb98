-- ===== src/Ingestion/Tests.antt =====
-- A box whose alert bridge refuses to create rules.
use artesca_vss_console.Common.{
  String, true, false, none, some, List, [], ◌∷◌, ◌≡◌, refl, value, OnValue, OnThrown, includes,
  not, ◌&&◌, pure, throw,
}
use artesca_vss_console.Footage.{
  RuleEntry, absent, paused_list, Sampling, RulesDoc, Answered, Ingestion, RunDeps,
}
use artesca_vss_console.Footage.Names.{PlaybackMode}
use artesca_vss_console.Footage.Names.Tests.{raw_name, safe_name}
use artesca_vss_console.Footage.Run.{RunRequest, start_run}
use artesca_vss_console.Ingestion.{LiveRule, IngestionDeps, rule_ids, rule_for, update_first}
use artesca_vss_console.Ingestion.Switch.{
  set_ingestion, enable, disable, suspend_ingestion, read_rule_spec, write_cm_rules, delete_each,
  resolve_stream_id, live_vlm_model_id,
}
use artesca_vss_console.Ingestion.Soft.{BridgeSoft}
use artesca_vss_console.Ingestion.Rules.{DocumentLaws}
use artesca_vss_console.Ingestion.Suspended.{without, RuleLaws, suspend_ingestion-deletes}
use artesca_vss_console.Ingestion.Register.{
  VstDeps, VstSoft, resolve_sensor_uuid, register_sensor_and_arm,
}
use artesca_vss_console.Ingestion.Wired.{wired, ClusterLaws, wired-restored}

abbrev entry : String → RuleEntry
entry sensor = record {
  sensor = some sensor;
  alert_type = some "theft";
  prompt = some "watch";
  stream_url = some "rtsp://old";
}

abbrev no_sampling : Sampling
no_sampling = record {
  chunk_duration = none;
  chunk_overlap_duration = none;
  enable_reasoning = none;
  num_frames = none;
  use_fps_for_chunking = none;
}

abbrev document : RulesDoc
document = record {
  rules = some (entry "gate" ∷ entry "door" ∷ []);
  paused_sensors = paused_list ("gate" ∷ []);
  model = some "cosmos";
  system_prompt = none;
  sampling = no_sampling;
  rest = "";
}

abbrev fine : Answered
fine = record { ok = true; warning = none }

-- The state is the rules document.
abbrev refusing : IngestionDeps RulesDoc
refusing = record {
  list_realtime_rules = pure (record { id = some "r1"; sensor_name = some "gate" } ∷ [], none);
  add_realtime_rule = λ n. pure (record { ok = false; warning = some "HTTP 502" });
  delete_realtime_rule = λ id. pure fine;
  vst_list_sensors = pure [];
  read_rules = λ w. (value (w, none), w);
  patch_rules = λ d v w. (value tt, d);
  fetch_models = throw "unreachable";
}

abbrev accepting : IngestionDeps RulesDoc
accepting = record refusing { add_realtime_rule = λ n. pure fine }

abbrev request : Ingestion
request = record {
  camera = "door";
  enabled = true;
  rtsp_url = some "rtsp://new";
  alert_type = some "fire";
  prompt = none;
}

-- The recorded stream wins over the one that is given.
kept_url : set_ingestion accepting request document ≡ (
  value fine,
  record document {
    rules = some (entry "gate" ∷ record (entry "door") { alert_type = some "fire" } ∷ []);
  },
)
unfolding set_ingestion enable read_rule_spec resolve_stream_id live_vlm_model_id rule_for
    update_first write_cm_rules
kept_url = refl

dropped_entry :
    set_ingestion accepting (record request { camera = "gate"; enabled = false }) document
    ≡ (value fine, record document { rules = some (entry "door" ∷ []) })
unfolding set_ingestion disable delete_each rule_ids read_rule_spec write_cm_rules
dropped_entry = refl

abbrev base : RunDeps RulesDoc
base = record {
  read_rules = λ w. (value (w, none), w);
  patch_rules = λ d v w. (value tt, d);
  rollout_restart = pure tt;
  wait_for_rollout = pure true;
  quiesce = throw "forbidden";
  scale = λ n. pure tt;
  deployment_exists = pure true;
  suspend_ingestion = λ id. pure fine;
  set_ingestion = λ i. pure fine;
  list_ingesting = pure [];
  list_sensors = pure [];
  delete_sensor = λ uuid. pure fine;
  register = λ r. pure (record { ok = true; uuid = none; warnings = [] });
}

abbrev soft : BridgeSoft refusing
soft = record {
  list_realtime_rules-Returns = λ w. (_, _, refl);
  add_realtime_rule-Returns = λ n w. (_, _, refl);
  delete_realtime_rule-Returns = λ id w. (_, _, refl);
  vst_list_sensors-Returns = λ w. (_, _, refl);
}

abbrev laws : DocumentLaws refusing
laws = record {
  mark = λ w. w.paused_sensors;
  read_rules-reads = λ w. refl;
  read_rules-Leaves = λ w. refl;
  patch_rules-marks = λ d v w. refl;
  patch_rules-thrown = λ d v w. tt;
  list_realtime_rules-Leaves = λ w. refl;
  add_realtime_rule-Leaves = λ n w. refl;
  delete_realtime_rule-Leaves = λ id w. refl;
  vst_list_sensors-Leaves = λ w. refl;
  fetch_models-Leaves = λ w. refl;
}

abbrev cluster : ClusterLaws laws base
cluster = record {
  rollout_restart-Leaves = λ w. refl;
  wait_for_rollout-Leaves = λ w. refl;
  deployment_exists-Leaves = λ w. refl;
  delete_sensor-Leaves = λ uuid w. refl;
}

-- The sensor is there already, so its identifier is looked up, and its stream is refused.
abbrev known : VstDeps RulesDoc
known = record {
  add_sensor = λ r. pure (record { ok = true; warning = none; uuid = none });
  start_stream = λ uuid url. pure (record { ok = false; warning = some uuid });
  vst_list_sensors =
      pure (record { sensor_id = some "gate"; stream_id = some "u1"; sensor_uuid = none } ∷ []);
}

abbrev known_soft : VstSoft known
known_soft = record {
  add_sensor-Returns = λ r w. (_, _, refl);
  start_stream-Returns = λ uuid url w. (_, _, refl);
}

registered_unarmed :
    register_sensor_and_arm known
      (record { name = "gate"; rtsp_url = "rtsp://gate"; description = "" })
      document
    ≡ (value (record { ok = true; uuid = some "u1"; warnings = "u1" ∷ [] }), document)
unfolding register_sensor_and_arm resolve_sensor_uuid
registered_unarmed = refl

abbrev run : RunRequest
run = record {
  file_name = raw_name;
  mode = PlaybackMode.once;
  pause_live = true;
  alert_type = none;
  prompt = none;
}

wired-restored_example :
    OnThrown
      (λ (w : RulesDoc). w.paused_sensors ≡ absent)
      (start_run (wired refusing known base) "replay" "8654" run document)
wired-restored_example =
    wired-restored soft known_soft laws cluster (λ w. (_, _, refl)) (λ d v w. (_, _, refl)) "replay"
      "8654" run "store-theft-1.mp4" safe_name document

-- The state is the live rules.
abbrev bridge : IngestionDeps (List LiveRule)
bridge = record {
  list_realtime_rules = λ w. (value (w, none), w);
  add_realtime_rule = λ n. pure fine;
  delete_realtime_rule = λ id w. (value fine, without id w);
  vst_list_sensors = pure [];
  read_rules = throw "forbidden";
  patch_rules = λ d v. throw "forbidden";
  fetch_models = throw "unreachable";
}

abbrev bridge_laws : RuleLaws bridge
bridge_laws = record {
  live = λ w. w;
  list_realtime_rules-lists = λ w e. (refl, refl);
  delete_realtime_rule-deletes = λ id w e. refl;
}

abbrev live_rule : String → String → LiveRule
live_rule id sensor = record { id = some id; sensor_name = some sensor }

abbrev three_rules : List LiveRule
three_rules = live_rule "r1" "gate" ∷ live_rule "r2" "door" ∷ live_rule "r3" "gate" ∷ []

suspend_ingestion-deletes_example :
    OnValue
      (λ (res : Answered) w1.
        res.ok ≡ true
        → (other id : String)
        → includes (rule_ids other w1) id ≡ (
            includes (rule_ids other three_rules) id
            && not (includes (rule_ids "gate" three_rules) id)))
      (suspend_ingestion bridge "gate" three_rules)
suspend_ingestion-deletes_example = suspend_ingestion-deletes bridge_laws "gate" three_rules

suspended : suspend_ingestion bridge "gate" three_rules ≡ (value fine, live_rule "r2" "door" ∷ [])
unfolding suspend_ingestion delete_each rule_ids
suspended = refl
