-- ===== src/Footage/Rules.antt =====
-- The rules document of a run (src/lib/test-footage-run.ts): the mark of the paused cameras, the
-- profiles that the live cameras run, and the cameras that are to be paused.
pub mod Marker
pub mod Desired
pub mod Profiles
use Prim.Native.String.{◌++◌ as text_append}
use artesca_vss_console.Common.{
  String, Bool, true, false, not, ◌&&◌, ◌||◌, Option, none, some, List, [], ◌∷◌, ◌++◌, filter,
  Effect, pure, ◌>>=◌, ◌>>◌, try_catch, get_or, truthy, if◌then◌else◌, ◌==◌, add,
}
use artesca_vss_console.Footage.{
  RuleEntry, PausedField, absent, paused_list, other, RulesDoc, RunDeps,
}
use artesca_vss_console.Footage.Names.{is_footage_camera}

-- A VLM configuration, with the live cameras that run it.
pub record AlertProfile : Type 0 where
  pub alert_type : String
  pub prompt : String
  pub cameras : List String

pub default_profile : AlertProfile
default_profile = record {
  alert_type = "general-activity";
  prompt = "Alert on any notable or anomalous activity.";
  cameras = [];
}

abbrev pub field_of : List String → PausedField
field_of [] = absent
field_of (s ∷ ss) = paused_list (s ∷ ss)

-- The document with the set of the paused cameras, or without the key where there is none.
abbrev pub marked : RulesDoc → List String → RulesDoc
marked doc sensors = record doc { paused_sensors = field_of sensors }

abbrev pub sensors_in : PausedField → List String
sensors_in (paused_list sensors) = sensors
sensors_in _ = []

-- A camera as a list, where the text is not empty.
abbrev pub cameras_of : Option String → List String
cameras_of none = []
cameras_of (some s) = s ∷ []

-- The map of the profiles, each under its alert type, in the order in which they were added.
pub add_profile : String → String → List String → List AlertProfile → List AlertProfile
add_profile kind prompt cameras [] =
    record { alert_type = kind; prompt = prompt; cameras = cameras } ∷ []
add_profile kind prompt cameras (p ∷ ps) =
    let rest = add_profile kind prompt cameras ps in
    if p.alert_type == kind then record p { cameras = p.cameras ++ cameras } ∷ ps else p ∷ rest

abbrev pub is_test_sensor : Option String → Bool
is_test_sensor none = false
is_test_sensor (some s) = is_footage_camera s

abbrev pub profile_from :
    Option String → Option String → Option String → List AlertProfile → List AlertProfile
profile_from none _ sensor ps = ps
profile_from (some kind) none sensor ps = ps
profile_from (some kind) (some prompt) sensor ps =
    if is_test_sensor sensor then ps else add_profile kind prompt (cameras_of sensor) ps

pub profiles_from : List AlertProfile → List RuleEntry → List AlertProfile
profiles_from ps [] = ps
profiles_from ps (r ∷ rs) =
    profiles_from (profile_from (truthy r.alert_type) (truthy r.prompt) (truthy r.sensor) ps) rs

abbrev pub or_default : List AlertProfile → List AlertProfile
or_default [] = default_profile ∷ []
or_default (p ∷ ps) = p ∷ ps

-- The cameras that the entries name.
abbrev pub sensors_of : List RuleEntry → List String
sensors_of [] = []
sensors_of (r ∷ rs) = cameras_of (truthy r.sensor) ++ sensors_of rs

-- `[...new Set(names)]`
abbrev pub distinct_from : List String → List String → List String
distinct_from seen [] = seen
distinct_from seen (s ∷ ss) = distinct_from (add seen s) ss

abbrev pub live_only : List String → List String
live_only ids = filter (λ id. not (is_footage_camera id)) ids

abbrev restart_failed : String → String
restart_failed e =
    text_append
      "paused set written but the reconciler could not be restarted, so it may re-seed from its stale mounted copy: "
      e

abbrev pub mark_failed : String → String
mark_failed e =
    text_append
      "could not record the paused set (the reconciler may resume the live cameras mid-run): " e

abbrev pub rolled_warning : Bool → Option String
rolled_warning true = none
rolled_warning false =
    some
      "the reconciler did not finish restarting in time — it may act on its stale copy for a while"

module _ {W : Type 0} (deps : RunDeps W) where
  abbrev pub roll : Option String → Effect W (Option String)
  roll (some warning) = pure (some warning)
  roll none = do rolled ← deps.wait_for_rollout; pure (rolled_warning rolled)

  abbrev pub restarted : Effect W (Option String)
  restarted = try_catch (deps.rollout_restart >> pure none) (λ e. some (restart_failed e)) >>= roll

  abbrev pub mark_document : List String → Effect W (Option String)
  mark_document sensors = do
    (doc, version) ← deps.read_rules
    _ ← deps.patch_rules (marked doc sensors) version
    restarted

  -- The warning of what went wrong, if anything.
  pub set_paused_sensors : List String → Effect W (Option String)
  set_paused_sensors sensors = try_catch (mark_document sensors) (λ e. some (mark_failed e))

  pub paused_sensors : Effect W (List String)
  paused_sensors =
      try_catch (deps.read_rules >>= λ (doc, version). pure (sensors_in doc.paused_sensors))
        (λ _. [])

  pub list_alert_profiles : Effect W (List AlertProfile)
  list_alert_profiles =
      try_catch
        (deps.read_rules >>= λ (doc, version).
          pure (or_default (profiles_from [] (get_or doc.rules []))))
        (λ _. default_profile ∷ [])

  -- The cameras that are analysed now.
  pub live_ingesting_cameras : Effect W (List String)
  live_ingesting_cameras = deps.list_ingesting >>= λ ids. pure (live_only ids)

  abbrev pub recorded_sensors : Effect W (List String)
  recorded_sensors =
      try_catch (deps.read_rules >>= λ (doc, version). pure (sensors_of (get_or doc.rules [])))
        (λ _. [])

  -- The cameras that are analysed now or have an entry. The two reads, made at once in the code, are
  -- made in the order of the text.
  pub desired_live_cameras : Effect W (List String)
  desired_live_cameras = do
    ingesting ← live_ingesting_cameras
    recorded ← recorded_sensors
    pure (live_only (distinct_from [] (ingesting ++ recorded)))
