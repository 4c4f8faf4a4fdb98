-- ===== src/Diagnosis/Tests.antt =====
-- Cameras as the diagnosis sees them, and what it says of them.
use artesca_vss_console.Common.{
  true, false, none, some, List, [], ◌∷◌, map, ◌≡◌, refl, is_some, not,
}
use artesca_vss_console.Common.Texts.{split, join, take_chars, show_nat}
use artesca_vss_console.Common.Trim.{trim}
use artesca_vss_console.Recovery.{RecordingStatus}
use artesca_vss_console.Diagnosis.{
  StepState, ok, fail, blocked, ScenarioBinding, RealtimeRule, ChainInput, ChainStep, targets_of,
  scenario_targets, is_bound, source_step, sensor_step, stream_step, probed_step, recording_step,
  is_drifted, drifted, drifted_step, duplicated_step, present_step, rule_step, scenario_step,
  verdict_of, steps_of, build_camera_chain,
}
use artesca_vss_console.Diagnosis.Verdicts.{
  are_explained, is_healthy, verdict-is_healthy, steps-are_explained,
}

abbrev gate_rule : RealtimeRule
gate_rule = record { sensor_name = some "gate"; alert_type = some "theft"; model = some "cosmos" }

abbrev everywhere : ScenarioBinding
everywhere = record { id = "theft"; enabled = true; sensor_filter = " " }

abbrev at_gate : ScenarioBinding
at_gate = record { id = "loitering"; enabled = true; sensor_filter = "door, gate" }

-- A camera of which nothing is wrong.
abbrev sound : ChainInput
sound = record {
  camera = record { id = "gate"; rtsp_url = some "rtsp://gate" };
  registered = true;
  stream_id = some "0a1b2c3d-4e5f";
  recording = RecordingStatus.recording;
  rules = gate_rule ∷ [];
  live_model = some "cosmos";
  scenarios = everywhere ∷ at_gate ∷ [];
  storage_ok = true;
  storage_reason = none;
}

-- The VLM serves another model, and the sensor is gone.
abbrev unsound : ChainInput
unsound = record sound { registered = false; stream_id = none; live_model = some "other" }

abbrev states : List ChainStep → List StepState
states ss = map (λ (s : ChainStep). s.state) ss

sound_states : states (build_camera_chain sound).steps ≡ ok ∷ ok ∷ ok ∷ ok ∷ ok ∷ ok ∷ []
unfolding build_camera_chain steps_of source_step sensor_step stream_step recording_step probed_step
    rule_step drifted is_drifted present_step scenario_step is_bound scenario_targets targets_of
    trim split
sound_states = refl

unsound_states :
    states (build_camera_chain unsound).steps ≡ ok ∷ fail ∷ blocked ∷ blocked ∷ fail ∷ ok ∷ []
unfolding build_camera_chain steps_of source_step sensor_step stream_step recording_step probed_step
    rule_step drifted is_drifted present_step drifted_step scenario_step is_bound scenario_targets
    targets_of trim split
unsound_states = refl

unsound_verdict :
    (build_camera_chain unsound).verdict
    ≡ some (record {
      state = fail;
      reason = "no VST sensor with this name";
      fix = some "Use Re-register on this camera (sensor/add + proxy/stream/add).";
    })
unfolding build_camera_chain steps_of source_step sensor_step stream_step recording_step probed_step
    rule_step drifted is_drifted present_step drifted_step scenario_step is_bound scenario_targets
    targets_of trim split verdict_of
unsound_verdict = refl

armed_detail : (stream_step true (some "0a1b2c3d-4e5f")).detail ≡ some "stream 0a1b2c3d…"
unfolding stream_step take_chars
armed_detail = refl

duplicated_detail :
    (duplicated_step 12).detail
    ≡ some "12 duplicate rules — this camera is captioned 12× on the same GPU"
unfolding duplicated_step show_nat
duplicated_detail = refl

bound_detail : (scenario_step (everywhere ∷ at_gate ∷ [])).detail ≡ some "theft, loitering"
unfolding scenario_step join
bound_detail = refl

verdict-is_healthy_example : is_some (build_camera_chain unsound).verdict ≡ not (is_healthy unsound)
verdict-is_healthy_example = verdict-is_healthy unsound

steps-are_explained_example : are_explained false (build_camera_chain unsound).steps ≡ true
steps-are_explained_example = steps-are_explained unsound
