-- ===== src/Recovery.antt =====
-- The guarded auto-heal of stalled VST recordings (src/lib/reconcile/recording-recovery.ts): its
-- data, and the state that is kept between passes. `Recovery/Steps` has a pass over the sensors.
-- The clock, the probes and the actions are injected by the source, and are parameters here; they
-- act on a state `W` of the cluster. Log lines are left out.
pub mod Steps
use artesca_vss_console.Common.{
  ℕ, ◌+◌, ◌-◌, String, Bool, true, false, not, ◌&&◌, ◌||◌, Option, none, some, List, [], ◌∷◌, ◌++◌,
  ltb, leb, get_or, is_some, is_text, truthy, includes, add, length, if◌then◌else◌, Try, value,
  thrown, Effect,
}
use artesca_vss_console.Common.Maps.{Map, lookup, insert, delete, of_pairs}

-- src/lib/helpers/recording-health.ts
pub data RecordingStatus : Type 0 where
  recording not_recording unknown : RecordingStatus

-- The fields of a VST sensor that are read; `stream_id` is its textual form.
pub record VstSensor : Type 0 where
  pub name : Option String
  pub status : Option String
  pub stream_id : Option String

pub record RecoveryConfig : Type 0 where
  pub stall_threshold_ms : ℕ
  pub rearm_cooldown_ms : ℕ
  pub rearm_max_attempts : ℕ
  pub rearm_max_per_cycle : ℕ
  pub escalate_enabled : Bool
  pub escalate_min_stalled : ℕ
  pub escalate_cooldown_ms : ℕ
  pub escalate_max_restarts : ℕ

abbrev pub default_recovery_config : RecoveryConfig
default_recovery_config = record {
  stall_threshold_ms = 300_000;
  rearm_cooldown_ms = 600_000;
  rearm_max_attempts = 3;
  rearm_max_per_cycle = 1;
  escalate_enabled = true;
  escalate_min_stalled = 3;
  escalate_cooldown_ms = 300_000;
  escalate_max_restarts = 2;
}

pub data RecoveryOutcome : Type 0 where
  healthy unsure waiting rearmed rearm_failed no_rtsp_url degraded : RecoveryOutcome

pub record SensorRecoveryOutcome : Type 0 where
  pub name : String
  pub probe : RecordingStatus
  pub outcome : RecoveryOutcome
  pub attempts : ℕ
  pub warnings : List String

pub record RecoverySummary : Type 0 where
  pub outcomes : List SensorRecoveryOutcome
  pub re_armed : List String
  pub degraded : List String
  pub escalated : Bool

pub record RecoveryState : Type 0 where
  pub not_recording_since : ℕ
  pub last_rearm_at : Option ℕ
  pub attempts : ℕ
  pub degraded : Bool

-- The module-level state: `state`, `everRecorded` and `escalationState`.
pub record Memory : Type 0 where
  pub states : Map RecoveryState
  pub ever_recorded : List String
  pub last_escalation_at : Option ℕ
  pub restarts : ℕ

abbrev pub initial_memory : Memory
initial_memory = record { states = []; ever_recorded = []; last_escalation_at = none; restarts = 0 }

pub record RearmResult : Type 0 where
  pub ok : Bool
  pub warnings : List String

-- What is injected; `config` is the default configuration with the caller's overrides.
pub record RecoveryDeps (W : Type 0) : Type 0 where
  pub sensors : List VstSensor
  pub desired : List (String × String)
  pub probe : String → Effect W RecordingStatus
  pub rearm : String → String → String → Effect W RearmResult
  pub source_answers : Option (String → Effect W Bool)
  pub restart_stream_processing : Option (Effect W (Unit {0}))
  pub now : W → ℕ × W
  pub config : RecoveryConfig

-- The local variables of a pass, with the module's state and the cluster's.
pub record Pass (W : Type 0) : Type 0 where
  pub memory : Memory
  pub world : W
  pub outcomes : List SensorRecoveryOutcome
  pub re_armed : List String
  pub degraded : List String
  pub stalled_recoverable : List String
  pub rearms_this_cycle : ℕ

abbrev pub stream_id_of : VstSensor → String
stream_id_of s = get_or s.stream_id ""

abbrev pub is_online : VstSensor → Bool
is_online s = is_text s.status "online" && is_some (truthy s.name)

abbrev pub is_not_recording : RecordingStatus → Bool
is_not_recording not_recording = true
is_not_recording _ = false
