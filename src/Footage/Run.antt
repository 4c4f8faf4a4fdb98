-- ===== src/Footage/Run.antt =====
-- The start of a run (`startRun`, src/lib/test-footage-run.ts): the live cameras are paused while the
-- reconciler is scaled to zero, the clip is registered as a camera, and its analysis is turned on; a
-- start that fails puts the live cameras back. The pushes on the array of warnings are lists here,
-- which a throw drops as the code does.
pub mod Frame
pub mod Scaled
pub mod Restored
use Prim.Native.String.{◌++◌ as text_append}
use artesca_vss_console.Common.{
  ℕ, String, Bool, true, false, not, ◌&&◌, Option, none, some, List, [], ◌∷◌, ◌++◌, filter, find?,
  is_text, Effect, Try, value, thrown, pure, throw, ◌>>=◌, ◌>>◌, try_catch, get_or, truthy,
  if◌then◌else◌, ◌==◌, eqb, includes,
}
use artesca_vss_console.Common.Texts.{join}
use artesca_vss_console.Footage.{
  Answered, Quiesced, VstSensor, Registration, Registered, Ingestion, RunDeps, switched, warned,
}
use artesca_vss_console.Footage.Names.{
  PlaybackMode, mode_text, sanitise_filename, footage_camera_id, footage_rtsp_url,
}
use artesca_vss_console.Footage.Rules.{
  set_paused_sensors, desired_live_cameras, live_ingesting_cameras, default_profile,
}
use artesca_vss_console.Footage.Stop.{
  labelled, warning_list, uuid_of, restore_cameras, stop_run, StopRequest,
}

pub record RunRequest : Type 0 where
  pub file_name : String
  pub mode : PlaybackMode
  pub pause_live : Bool
  pub alert_type : Option String
  pub prompt : Option String

pub record RunResult : Type 0 where
  pub camera_id : String
  pub rtsp_url : String
  pub paused_cameras : List String
  pub alert_type : String
  pub warnings : List String

-- The cameras that were paused, and the warnings.
pub record Pause : Type 0 where
  pub cameras : List String
  pub warnings : List String

abbrev pub no_pause : Pause
no_pause = record { cameras = []; warnings = [] }

abbrev pub stop_failed : String → String
stop_failed e =
    text_append "could not stop the reconciler before pausing (it may re-seed the live cameras): " e

abbrev pub left_scaled : String → String
left_scaled e =
    text_append
      "the reconciler was left scaled to zero — no rule will be re-fired until it is restored: " e

abbrev pub quiesce_warning : Quiesced → List String
quiesce_warning q =
    if q.quiesced
    then []
    else "the reconciler did not stop in time — it may re-seed the live cameras during the run" ∷ []

abbrev pause_label : String → String
pause_label id = text_append (text_append "could not pause " id) ": "

abbrev repause_label : String → String
repause_label id = text_append (text_append "could not re-pause " id) ": "

abbrev paused_with : String → Answered → Pause → Pause
paused_with id res rest = record {
  cameras = if res.ok then id ∷ rest.cameras else rest.cameras;
  warnings = labelled (pause_label id) (warned res) ++ rest.warnings;
}

abbrev reseeded_warning : List String → List String
reseeded_warning [] = []
reseeded_warning (id ∷ ids) =
    text_append (text_append "re-paused " (join ", " (id ∷ ids))) " — something had re-seeded them"
    ∷ []

-- `previousReplicas || 1`
abbrev pub or_one : ℕ → ℕ
or_one n = if eqb n 0 then 1 else n

module _ {W A B : Type 0} where
  abbrev pub finally_with : Effect W B → Try A → Effect W (A × B)
  finally_with n (value a) = n >>= λ b. pure (a, b)
  finally_with n (thrown e) = n >> throw e

  -- `try { m } finally { n }`, with what both give.
  abbrev pub with_finally : Effect W A → Effect W B → Effect W (A × B)
  with_finally m n w = let (t, w1) = m w in finally_with n t w1

module _ {W : Type 0} (deps : RunDeps W) where
  -- The reconciler, scaled to zero; `none` where that throws.
  pub quiesced_reconciler : Effect W (Option Quiesced × List String)
  quiesced_reconciler =
      try_catch (deps.quiesce >>= λ q. pure (some q, quiesce_warning q))
        (λ e. (none, stop_failed e ∷ []))

  pub scale_back : Option Quiesced → Effect W (List String)
  scale_back none = pure []
  scale_back (some q) =
      try_catch (deps.scale (or_one q.previous_replicas) >> pure []) (λ e. left_scaled e ∷ [])

  pub pause_each : List String → Effect W Pause
  pause_each [] = pure no_pause
  pause_each (id ∷ ids) = do
    res ← deps.suspend_ingestion id
    rest ← pause_each ids
    pure (paused_with id res rest)

  pub repause_each : List String → Effect W (List String)
  repause_each [] = pure []
  repause_each (id ∷ ids) = do
    res ← deps.suspend_ingestion id
    rest ← repause_each ids
    pure (labelled (repause_label id) (warned res) ++ rest)

  -- The suspension of the cameras between the two scalings.
  pub pause_scaled : List String → Effect W (Pause × List String)
  pause_scaled live = do
    (quiesce, w2) ← quiesced_reconciler
    (pause, w3) ← with_finally (pause_each live) (scale_back quiesce)
    pure (pause, w2 ++ pause.warnings ++ w3)

  pub pause_live_cameras : Effect W Pause
  pause_live_cameras = do
    live ← desired_live_cameras deps
    mark ← set_paused_sensors deps live
    (pause, ws) ← pause_scaled live
    still ← live_ingesting_cameras deps
    let reseeded = filter (includes still) pause.cameras
    again ← repause_each reseeded
    pure (record {
      cameras = pause.cameras;
      warnings = warning_list mark ++ ws ++ again ++ reseeded_warning reseeded;
    })

  abbrev pub pause_if : Bool → Effect W Pause
  pause_if true = pause_live_cameras
  pause_if false = pure no_pause

  abbrev not_cleared : String → String → List String
  not_cleared id message =
      text_append (text_append (text_append "could not clear the previous " id) ": ") message ∷ []

  abbrev not_checked : String → String → String
  not_checked id e =
      text_append (text_append (text_append "could not check for a previous " id) ": ") e

  abbrev removal_warning : String → Option String → List String
  removal_warning id none = []
  removal_warning id (some message) = not_cleared id message

  abbrev pub remove_found : String → Option VstSensor → Effect W (List String)
  remove_found id none = pure []
  remove_found id (some s) = do
    _ ← deps.set_ingestion (switched id false)
    del ← deps.delete_sensor (uuid_of (get_or s.stream_id "") id)
    pure (removal_warning id (warned del))

  -- The previous registration of the clip's camera is dropped, with warnings in place of throws.
  pub remove_existing_run : String → Effect W (List String)
  remove_existing_run id =
      try_catch
        (deps.list_sensors >>= λ sensors.
          remove_found id (find? (λ s. is_text s.sensor_id id) sensors))
        (λ e. not_checked id e ∷ [])

  abbrev or_unknown : String → String
  or_unknown message = if message == "" then "unknown" else message

  abbrev not_registered : List String → String
  not_registered ws =
      text_append "could not register the footage camera: " (or_unknown (join "; " ws))

  abbrev not_analysed : String → Option String → String
  not_analysed id warning =
      text_append (text_append (text_append "could not turn analysis on for " id) ": ")
        (get_or warning "unknown")

  abbrev pub request_for : RunRequest → String → String → Ingestion
  request_for req id url = record {
    camera = id;
    enabled = true;
    rtsp_url = some url;
    alert_type = req.alert_type;
    prompt = req.prompt;
  }

  -- Where the analysis did not turn on, the run is stopped before that is thrown.
  abbrev pub analysed :
      RunRequest → String → String → Pause → List String → Answered → Effect W RunResult
  analysed req id url pause ws ing =
      if ing.ok
      then pure (record {
        camera_id = id;
        rtsp_url = url;
        paused_cameras = pause.cameras;
        alert_type = get_or req.alert_type default_profile.alert_type;
        warnings = ws;
      })
      else stop_run deps (record { camera_id = some id; resume = pause.cameras })
        >> throw (not_analysed id ing.warning)

  -- Where the registration fails, the cameras are restored before that is thrown.
  pub begin : RunRequest → String → String → Pause → List String → Registered → Effect W RunResult
  begin req id url pause ws reg =
      if reg.ok
      then deps.set_ingestion (request_for req id url)
        >>= analysed req id url pause (ws ++ reg.warnings)
      else restore_cameras deps pause.cameras >> throw (not_registered reg.warnings)

  abbrev pub description_of : String → PlaybackMode → String
  description_of name mode =
      text_append
        (text_append (text_append (text_append "Test footage: " name) " (") (mode_text mode)) ")"

  -- The run of a clip whose file name is safe, at the stream's URL.
  pub start_named : RunRequest → String → String → Effect W RunResult
  start_named req name url = do
    let id = footage_camera_id name
    pause ← pause_if req.pause_live
    removed ← remove_existing_run id
    reg ←
        deps.register
          (record { name = id; rtsp_url = url; description = description_of name req.mode })
    begin req id url pause (pause.warnings ++ removed) reg

  -- `host` and `port` are the replay server's.
  pub start_run : String → String → RunRequest → Effect W RunResult
  start_run host port req = do
    name ← λ w. (sanitise_filename req.file_name, w)
    start_named req name (footage_rtsp_url host port name req.mode)
