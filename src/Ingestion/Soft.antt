-- ===== src/Ingestion/Soft.antt =====
-- Turning the ingestion of a camera on or off, and suspending it, never throws.
use artesca_vss_console.Common.{
  String, Bool, true, false, Option, none, some, List, [], ◌∷◌, try_catch-Returns, Returns,
  Returns-bind, Returns-pure, refl, if_rule, truthy,
}
use artesca_vss_console.Footage.{Ingestion, RuleEntry, RulesDoc}
use artesca_vss_console.Ingestion.{LiveRule, NewRule, RuleSpec, IngestionDeps, rule_ids, says}
use artesca_vss_console.Ingestion.Switch.{
  live_vlm_model_id, resolve_stream_id, read_rule_spec, write_cm_rules, delete_each, suspend_listed,
  suspend_ingestion, drop_if, drop_entry, disable_listed, disable, keep_with, keep_entry, enable_at,
  enable, set_ingestion, list_ingesting_cameras,
}

-- The calls on the alert bridge and on VST answer with a warning in place of throwing.
pub record BridgeSoft {W : Type 0} (deps : IngestionDeps W) : Type 0 where
  pub list_realtime_rules-Returns : Returns deps.list_realtime_rules
  pub add_realtime_rule-Returns : (n : NewRule) → Returns (deps.add_realtime_rule n)
  pub delete_realtime_rule-Returns : (id : String) → Returns (deps.delete_realtime_rule id)
  pub vst_list_sensors-Returns : Returns deps.vst_list_sensors

module _ {W : Type 0} {deps : IngestionDeps W} (soft : BridgeSoft deps) where
  pub delete_each-Returns : (ids : List String) → Returns (delete_each deps ids)
  unfolding delete_each
  delete_each-Returns [] w = (_, _, refl)
  delete_each-Returns (id ∷ ids) w =
      Returns-bind (deps.delete_realtime_rule id) _ (soft.delete_realtime_rule-Returns id)
        (λ res.
          Returns-bind (delete_each deps ids) _ (delete_each-Returns ids) (λ rest. Returns-pure _))
        w

  suspend_listed-Returns :
      (camera : String) (o : Option String) (rules : List LiveRule)
      → Returns (suspend_listed deps camera o rules)
  suspend_listed-Returns camera (some warning) rules = Returns-pure _
  suspend_listed-Returns camera none rules =
      Returns-bind (delete_each deps (rule_ids camera rules)) _ (delete_each-Returns _)
        (λ ws. Returns-pure _)

  pub suspend_ingestion-Returns : (camera : String) → Returns (suspend_ingestion deps camera)
  unfolding suspend_ingestion
  suspend_ingestion-Returns camera =
      Returns-bind deps.list_realtime_rules _ soft.list_realtime_rules-Returns
        (λ (rules, warning). suspend_listed-Returns camera (truthy warning) rules)

  pub list_ingesting_cameras-Returns : Returns (list_ingesting_cameras deps)
  unfolding list_ingesting_cameras
  list_ingesting_cameras-Returns =
      Returns-bind deps.list_realtime_rules _ soft.list_realtime_rules-Returns (λ r. Returns-pure _)

  write_cm_rules-Returns :
      (doc : RulesDoc) (v : Option String) → Returns (write_cm_rules deps doc v)
  unfolding write_cm_rules
  write_cm_rules-Returns doc v = try_catch-Returns _ _

  drop_entry-Returns :
      (camera : String) (o : Option RulesDoc) (v : Option String)
      → Returns (drop_entry deps camera o v)
  drop_entry-Returns camera none v = Returns-pure _
  drop_entry-Returns camera (some doc) v = dropped _
    where
      dropped : (b : Bool) → Returns (drop_if deps b camera doc v)
      dropped true = write_cm_rules-Returns _ v
      dropped false = Returns-pure _

  read_rule_spec-Returns : (camera : String) → Returns (read_rule_spec deps camera)
  unfolding read_rule_spec
  read_rule_spec-Returns camera = try_catch-Returns _ _

  disable_listed-Returns :
      (camera : String) (o : Option String) (rules : List LiveRule)
      → Returns (disable_listed deps camera o rules)
  disable_listed-Returns camera (some warning) rules = Returns-pure _
  disable_listed-Returns camera none rules =
      Returns-bind (delete_each deps (rule_ids camera rules)) _ (delete_each-Returns _) λ ws.
        Returns-bind (read_rule_spec deps camera) _ (read_rule_spec-Returns camera) λ spec.
          Returns-bind (drop_entry deps camera spec.doc spec.resource_version) _
            (drop_entry-Returns camera spec.doc spec.resource_version) (λ _. Returns-pure _)

  disable-Returns : (camera : String) → Returns (disable deps camera)
  unfolding disable
  disable-Returns camera =
      Returns-bind deps.list_realtime_rules _ soft.list_realtime_rules-Returns
        (λ (rules, warning). disable_listed-Returns camera (truthy warning) rules)

  keep_with-Returns :
      (n : NewRule) (doc : RulesDoc) (v : Option String) (o : Option RuleEntry)
      → Returns (keep_with deps n doc v o)
  keep_with-Returns n doc v none = write_cm_rules-Returns _ v
  keep_with-Returns n doc v (some r) =
      if_rule Returns (says n r) (λ _. Returns-pure _) (λ _. write_cm_rules-Returns _ v)

  keep_entry-Returns :
      (b : Bool) (n : NewRule) (spec : RuleSpec) (o : Option RulesDoc)
      → Returns (keep_entry deps b n spec o)
  keep_entry-Returns true n spec (some doc) =
      keep_with-Returns n doc spec.resource_version spec.rule
  keep_entry-Returns true n spec none = Returns-pure _
  keep_entry-Returns false n spec o = Returns-pure _

  enable_at-Returns :
      (i : Ingestion) (spec : RuleSpec) (o : Option String) → Returns (enable_at deps i spec o)
  unfolding resolve_stream_id live_vlm_model_id
  enable_at-Returns i spec none = Returns-pure _
  enable_at-Returns i spec (some url) =
      Returns-bind (resolve_stream_id deps i.camera) _
        (Returns-bind deps.vst_list_sensors _ soft.vst_list_sensors-Returns
          (λ sensors. Returns-pure _))
        λ sensor_id. Returns-bind (live_vlm_model_id deps) _ (try_catch-Returns _ _) λ live.
          Returns-bind (deps.add_realtime_rule _) _ (soft.add_realtime_rule-Returns _) λ res.
            Returns-bind (keep_entry deps res.ok _ spec spec.doc) _
              (keep_entry-Returns res.ok _ spec spec.doc) (λ _. Returns-pure _)

  enable-Returns : (i : Ingestion) → Returns (enable deps i)
  unfolding enable
  enable-Returns i =
      Returns-bind (read_rule_spec deps i.camera) _ (read_rule_spec-Returns i.camera)
        (λ spec. enable_at-Returns i spec _)

  pub set_ingestion-Returns : (i : Ingestion) → Returns (set_ingestion deps i)
  unfolding set_ingestion
  set_ingestion-Returns i =
      if_rule Returns i.enabled (λ _. enable-Returns i) (λ _. disable-Returns i.camera)
