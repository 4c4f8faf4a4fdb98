-- ===== src/Ingestion/Switch.antt =====
-- Turning the ingestion of a camera on and off, and suspending it, as calls
-- (src/lib/helpers/ingestion.ts).
use artesca_vss_console.Common.{
  String, Bool, true, false, Option, none, some, List, [], ◌∷◌, ◌++◌, find?, any, Effect, pure,
  ◌>>=◌, try_catch, get_or, truthy, is_text, if◌then◌else◌,
}
use artesca_vss_console.Footage.{Answered, Ingestion, RuleEntry, RulesDoc, warned}
use artesca_vss_console.Footage.Stop.{warning_list}
use artesca_vss_console.Ingestion.{
  LiveRule, NewRule, IngestionDeps, model_of, names_from, rule_ids, failed, answer_from, RuleSpec,
  is_entry_of, no_spec, spec_of, without_camera, with_rules, update_first, new_entry, says,
  url_from, url_or, rule_for, no_url, stream_of,
}

module _ {W : Type 0} (deps : IngestionDeps W) where
  unfoldable pub live_vlm_model_id : Effect W (Option String)
  live_vlm_model_id = try_catch (deps.fetch_models >>= λ a. pure (model_of a)) (λ _. none)

  unfoldable pub list_ingesting_cameras : Effect W (List String × Option String)
  list_ingesting_cameras =
      deps.list_realtime_rules >>= λ (rules, warning). pure (names_from [] rules, warning)

  unfoldable pub resolve_stream_id : String → Effect W (Option String)
  resolve_stream_id camera = deps.vst_list_sensors >>= λ sensors.
      pure (stream_of (find? (λ s. is_text s.sensor_id camera) sensors))

  unfoldable pub read_rule_spec : String → Effect W RuleSpec
  read_rule_spec camera =
      try_catch (deps.read_rules >>= λ (doc, version). pure (spec_of camera doc version))
        (λ _. no_spec)

  -- Best effort: what is thrown is swallowed.
  unfoldable pub write_cm_rules : RulesDoc → Option String → Effect W Unit
  write_cm_rules doc version = try_catch (deps.patch_rules doc version) (λ _. tt)

  -- The live rules are deleted, with the warnings of those that would not be.
  unfoldable pub delete_each : List String → Effect W (List String)
  delete_each [] = pure []
  delete_each (id ∷ ids) = do
    res ← deps.delete_realtime_rule id
    rest ← delete_each ids
    pure (warning_list (warned res) ++ rest)

  abbrev pub suspend_listed : String → Option String → List LiveRule → Effect W Answered
  suspend_listed camera (some warning) rules = pure (failed warning)
  suspend_listed camera none rules =
      delete_each (rule_ids camera rules) >>= λ warnings. pure (answer_from warnings)

  -- The live rules go, and the entry of the document stays.
  unfoldable pub suspend_ingestion : String → Effect W Answered
  suspend_ingestion camera = do
    (rules, warning) ← deps.list_realtime_rules
    suspend_listed camera (truthy warning) rules

  abbrev pub drop_if : Bool → String → RulesDoc → Option String → Effect W Unit
  drop_if true camera doc version = write_cm_rules (without_camera camera doc) version
  drop_if false camera doc version = pure tt

  abbrev pub drop_entry : String → Option RulesDoc → Option String → Effect W Unit
  drop_entry camera none version = pure tt
  drop_entry camera (some doc) version =
      drop_if (any (is_entry_of camera) (get_or doc.rules [])) camera doc version

  abbrev pub disable_listed : String → Option String → List LiveRule → Effect W Answered
  disable_listed camera (some warning) rules = pure (failed warning)
  disable_listed camera none rules = do
    warnings ← delete_each (rule_ids camera rules)
    spec ← read_rule_spec camera
    _ ← drop_entry camera spec.doc spec.resource_version
    pure (answer_from warnings)

  unfoldable pub disable : String → Effect W Answered
  disable camera = do
    (rules, warning) ← deps.list_realtime_rules
    disable_listed camera (truthy warning) rules

  abbrev pub keep_with : NewRule → RulesDoc → Option String → Option RuleEntry → Effect W Unit
  keep_with n doc version none =
      write_cm_rules (with_rules doc (get_or doc.rules [] ++ new_entry n ∷ [])) version
  keep_with n doc version (some r) =
      if says n r
      then pure tt
      else write_cm_rules (with_rules doc (update_first n.sensor_name n (get_or doc.rules [])))
          version

  -- Where a rule was created, the document says what was armed.
  abbrev pub keep_entry : Bool → NewRule → RuleSpec → Option RulesDoc → Effect W Unit
  keep_entry true n spec (some doc) = keep_with n doc spec.resource_version spec.rule
  keep_entry true n spec none = pure tt
  keep_entry false n spec doc = pure tt

  abbrev pub enable_at : Ingestion → RuleSpec → Option String → Effect W Answered
  enable_at i spec none = pure (failed (no_url i.camera))
  enable_at i spec (some url) = do
    sensor_id ← resolve_stream_id i.camera
    live ← live_vlm_model_id
    let n = rule_for i spec url sensor_id live
    res ← deps.add_realtime_rule n
    _ ← keep_entry res.ok n spec spec.doc
    pure res

  unfoldable pub enable : Ingestion → Effect W Answered
  enable i = do
    spec ← read_rule_spec i.camera
    enable_at i spec (url_or (url_from spec.rule) i.rtsp_url)

  unfoldable pub set_ingestion : Ingestion → Effect W Answered
  set_ingestion i = if i.enabled then enable i else disable i.camera
