-- ===== src/Recovery/Steps.antt =====
-- One pass of `recoverStalledRecording` (src/lib/reconcile/recording-recovery.ts), in the order of
-- the source: the offline sensors whose source answers, the loop over the sensors, the escalation.
mod Rule
mod Tests
pub mod Budget
pub mod Outcomes
pub mod Escalation
pub mod Attempts
pub mod Calls
use artesca_vss_console.Common.{
  ℕ, ◌+◌, String, Bool, true, false, not, ◌&&◌, ◌||◌, Option, none, some, List, [], ◌∷◌, ◌++◌, ltb,
  leb, eqb, get_or, is_some, is_text, truthy, includes, add, length, filter, if◌then◌else◌, Try,
  value, thrown, Effect,
}
use artesca_vss_console.Common.Maps.{Map, lookup, insert, delete, of_pairs}
use artesca_vss_console.Recovery.{
  RecordingStatus, recording, not_recording, VstSensor, RecoveryConfig, RecoveryOutcome, healthy,
  unsure, waiting, rearmed, rearm_failed, no_rtsp_url, RecoverySummary, RecoveryState, Memory,
  RearmResult, RecoveryDeps, Pass, stream_id_of, is_online,
}

-- `desiredByName.get(name)`, an empty URL counting as absent.
abbrev pub url_of : List (String × String) → String → Option String
url_of desired name = truthy (lookup name (of_pairs desired))

-- Is the last time, if any, more than `cooldown` ago?
abbrev pub cooldown_elapsed : ℕ → ℕ → Option ℕ → Bool
cooldown_elapsed cooldown now_ms none = true
cooldown_elapsed cooldown now_ms (some at) = ltb (at + cooldown) now_ms

-- The state of a sensor that is first seen not recording.
abbrev pub first_seen : ℕ → RecoveryState
first_seen now_ms = record {
  not_recording_since = now_ms;
  last_rearm_at = none;
  attempts = 0;
  degraded = false;
}

-- `pastThreshold`
abbrev pub past_threshold : RecoveryConfig → ℕ → RecoveryState → Bool
past_threshold cfg now_ms st = ltb (st.not_recording_since + cfg.stall_threshold_ms) now_ms

-- Are the switch, the number of stalled sensors, the cooldown and the cap in favour?
pub may_escalate : RecoveryConfig → Memory → ℕ → ℕ → Bool
may_escalate cfg m stalled now_ms =
    cfg.escalate_enabled
    && leb cfg.escalate_min_stalled stalled
    && cooldown_elapsed cfg.escalate_cooldown_ms now_ms m.last_escalation_at
    && ltb m.restarts cfg.escalate_max_restarts

-- With no stalled sensor the escalation starts afresh.
pub settle : ℕ → Memory → Memory
settle stalled m = if eqb stalled 0 then record m { last_escalation_at = none; restarts = 0 } else m

module _ {W : Type 0} where
  -- A probe of the source that throws reads as no answer.
  answered : Try Bool × W → Bool × W
  answered (value b, w) = (b, w)
  answered (thrown e, w) = (false, w)

  ask_source : (String → Effect W Bool) → Option String → W → Bool × W
  ask_source ask none w = (false, w)
  ask_source ask (some url) w = answered (ask url w)

  -- Does the sensor's desired source answer? Asked only of an offline sensor with a name and a URL.
  pub source_of : List (String × String) → (String → Effect W Bool) → VstSensor → W → Bool × W
  source_of desired ask s w =
      if is_text s.status "offline" && is_some (truthy s.name)
      then ask_source ask (url_of desired (get_or s.name "")) w
      else (false, w)

  pub offline_reachable :
      List (String × String) → (String → Effect W Bool) → List VstSensor → W → List VstSensor × W
  offline_reachable desired ask [] w = ([], w)
  offline_reachable desired ask (s ∷ ss) w =
      let (answers, w') = source_of desired ask s w in
      let (rest, w'') = offline_reachable desired ask ss w' in
      (if answers then s ∷ rest else rest, w'')

  -- `[...online, ...offlineReachable]`, the latter only where `sourceAnswers` is given.
  targets_with :
      List (String × String)
      → List VstSensor
      → Option (String → Effect W Bool)
      → W
      → List VstSensor × W
  targets_with desired ss none w = (filter is_online ss, w)
  targets_with desired ss (some ask) w =
      let (reachable, w') = offline_reachable desired ask ss w in
      (filter is_online ss ++ reachable, w')

  pub targets : RecoveryDeps W → W → List VstSensor × W
  targets deps w = targets_with deps.desired deps.sensors deps.source_answers w

  probed : Try RecordingStatus × W → RecordingStatus × W
  probed (value r, w) = (r, w)
  probed (thrown e, w) = (RecordingStatus.unknown, w)

  -- An offline sensor is not probed.
  pub status_of : RecoveryDeps W → VstSensor → W → RecordingStatus × W
  status_of deps s w =
      if is_text s.status "offline"
      then (not_recording, w)
      else probed (deps.probe (stream_id_of s) w)

  pub push : Pass W → String → RecordingStatus → RecoveryOutcome → ℕ → List String → Pass W
  push p name status outcome attempts warnings = record p {
    outcomes =
        p.outcomes
        ++ record {
          name = name;
          probe = status;
          outcome = outcome;
          attempts = attempts;
          warnings = warnings;
        }
          ∷ [];
  }

  -- `st` as a reference into the map: what is set on it is written back.
  pub set_state : Pass W → String → RecoveryState → Pass W
  set_state p name st = record p {
    memory = record p.memory { states = insert name st p.memory.states };
  }

  pub on_recording : Pass W → String → Pass W
  on_recording p name =
      let m = record p.memory {
        states = delete name p.memory.states;
        ever_recorded = add p.memory.ever_recorded name;
      } in
      push (record p { memory = m }) name recording healthy 0 []

  pub on_unknown : Pass W → String → Pass W
  on_unknown p name =
      push p name RecordingStatus.unknown unsure
        (elim (lookup name p.memory.states) [ none ↦ 0 | some st ↦ st.attempts ]) []

  -- The result of a re-arm of `name`, whose `st.attempts` is now `attempts`.
  pub after_rearm : Pass W → String → ℕ → Try RearmResult × W → Pass W
  after_rearm p name attempts (value res, w) =
      let q = record p { world = w } in
      if res.ok
      then push (record q { re_armed = q.re_armed ++ name ∷ [] }) name not_recording rearmed
          attempts res.warnings
      else push q name not_recording rearm_failed attempts res.warnings
  after_rearm p name attempts (thrown e, w) =
      push (record p { world = w }) name not_recording rearm_failed attempts (e ∷ [])

  pub re_arm : RecoveryDeps W → Pass W → String → String → ℕ → RecoveryState → String → Pass W
  re_arm deps p name sid now_ms st url =
      let st' = record st { last_rearm_at = some now_ms; attempts = st.attempts + 1 } in
      let q = set_state (record p { rearms_this_cycle = p.rearms_this_cycle + 1 }) name st' in
      after_rearm q name (st.attempts + 1) (deps.rearm name url sid q.world)

  pub degrade : Pass W → String → RecoveryState → Pass W
  degrade p name st =
      push
        (set_state (record p { degraded = p.degraded ++ name ∷ [] }) name
          (record st { degraded = true }))
        name not_recording RecoveryOutcome.degraded st.attempts []

  -- All gates are open: re-arm if the sensor has a desired URL.
  pub resolve :
      RecoveryDeps W → Pass W → String → String → ℕ → RecoveryState → Option String → Pass W
  resolve deps p name sid now_ms st none = push p name not_recording no_rtsp_url st.attempts []
  resolve deps p name sid now_ms st (some url) = re_arm deps p name sid now_ms st url

  -- `stalledRecoverable` grows by a sensor that is past the threshold and has recorded before.
  pub note_stalled : Pass W → String → Bool → Pass W
  note_stalled p name past = record p {
    stalled_recoverable =
        if past && includes p.memory.ever_recorded name
        then p.stalled_recoverable ++ name ∷ []
        else p.stalled_recoverable;
  }

  -- The gates of a stalled sensor whose state is `st` at the time `now_ms`.
  pub gates : RecoveryDeps W → Pass W → String → String → ℕ → RecoveryState → Pass W
  gates deps p name sid now_ms st =
      let past = past_threshold deps.config now_ms st in
      let q = note_stalled p name past in
      if leb deps.config.rearm_max_attempts st.attempts
      then degrade q name st
      else if not past
          || not (cooldown_elapsed deps.config.rearm_cooldown_ms now_ms st.last_rearm_at)
          || not (ltb q.rearms_this_cycle deps.config.rearm_max_per_cycle)
      then push q name not_recording waiting st.attempts []
      else resolve deps q name sid now_ms st (url_of deps.desired name)

  -- The state of the sensor is looked up, and created where there is none.
  pub stalled_at : RecoveryDeps W → Pass W → String → String → ℕ → Option RecoveryState → Pass W
  stalled_at deps p name sid now_ms (some st) = gates deps p name sid now_ms st
  stalled_at deps p name sid now_ms none =
      gates deps (set_state p name (first_seen now_ms)) name sid now_ms (first_seen now_ms)

  pub on_stalled : RecoveryDeps W → Pass W → String → String → Pass W
  on_stalled deps p name sid =
      let (now_ms, w) = deps.now p.world in
      stalled_at deps (record p { world = w }) name sid now_ms (lookup name p.memory.states)

  pub observe : RecoveryDeps W → Pass W → String → String → RecordingStatus → Pass W
  observe deps p name sid recording = on_recording p name
  observe deps p name sid RecordingStatus.unknown = on_unknown p name
  observe deps p name sid not_recording = on_stalled deps p name sid

  -- One round of the loop over the sensors.
  pub visit : RecoveryDeps W → Pass W → VstSensor → Pass W
  visit deps p s =
      let (status, w) = status_of deps s p.world in
      observe deps (record p { world = w }) (get_or s.name "") (stream_id_of s) status

  pub visit_all : RecoveryDeps W → Pass W → List VstSensor → Pass W
  visit_all deps p [] = p
  visit_all deps p (s ∷ ss) = visit_all deps (visit deps p s) ss

  -- The restart was called at `now_ms`: a throw is logged and changes nothing.
  pub after_restart : Memory → ℕ → Try (Unit {0}) × W → Bool × Memory × W
  after_restart m now_ms (value u, w) =
      (true, record m { last_escalation_at = some now_ms; restarts = m.restarts + 1 }, w)
  after_restart m now_ms (thrown e, w) = (false, m, w)

  pub escalate_with :
      RecoveryConfig → Memory → ℕ → ℕ → Option (Effect W (Unit {0})) → W → Bool × Memory × W
  escalate_with cfg m stalled now_ms none w = (false, m, w)
  escalate_with cfg m stalled now_ms (some restart) w =
      if may_escalate cfg m stalled now_ms
      then after_restart m now_ms (restart w)
      else (false, m, w)

  pub escalate : RecoveryDeps W → Memory → ℕ → W → Bool × Memory × W
  escalate deps m stalled w =
      let (now_ms, w') = deps.now w in
      escalate_with deps.config m stalled now_ms deps.restart_stream_processing w'

  abbrev pub start_pass : Memory → W → Pass W
  start_pass m w = record {
    memory = m;
    world = w;
    outcomes = [];
    re_armed = [];
    degraded = [];
    stalled_recoverable = [];
    rearms_this_cycle = 0;
  }

  pub recover_stalled_recording : RecoveryDeps W → Memory → W → RecoverySummary × Memory × W
  recover_stalled_recording deps m w =
      let (sensors, w') = targets deps w in
      let p = visit_all deps (start_pass m w') sensors in
      let stalled = length p.stalled_recoverable in
      let (escalated, m', w'') = escalate deps p.memory stalled p.world in
      (
        record {
          outcomes = p.outcomes;
          re_armed = p.re_armed;
          degraded = p.degraded;
          escalated = escalated;
        },
        settle stalled m',
        w'',
      )

pub data RecoveryDisplayState : Type 0 where
  recovering exhausted : RecoveryDisplayState

-- `getRecoveryStates`, whose "degraded" is `exhausted` here.
pub recovery_states : Map RecoveryState → Map RecoveryDisplayState
recovery_states [] = []
recovery_states ((name, st) ∷ m) =
    let rest = recovery_states m in
    if st.degraded
    then (name, exhausted) ∷ rest
    else if ltb 0 st.attempts
    then (name, recovering) ∷ rest
    else rest

pub reset_recovery_state_for_tests : Memory → Memory
reset_recovery_state_for_tests m = record {
  states = [];
  ever_recorded = [];
  last_escalation_at = none;
  restarts = 0;
}
