-- ===== src/Ingestion/Rules.antt =====
-- The edits of the rules document leave the mark of the paused cameras.
use artesca_vss_console.Common.{
  String, Bool, true, false, Option, none, some, List, [], ◌∷◌, ◌≡◌, refl, ◌∙◌, ap, Effect, Try,
  value, thrown, pure, ◌>>=◌, try_catch-state, caught, continue, OnValue, OnThrown, Leaves,
  Leaves-bind, Leaves-catch, state-bind, if_rule, truthy,
}
use artesca_vss_console.Footage.{Answered, Ingestion, RuleEntry, RulesDoc, PausedField}
use artesca_vss_console.Ingestion.{
  LiveRule, NewRule, RuleSpec, no_spec, spec_of, IngestionDeps, rule_ids, says,
}
use artesca_vss_console.Ingestion.Switch.{
  live_vlm_model_id, resolve_stream_id, read_rule_spec, write_cm_rules, delete_each, suspend_listed,
  suspend_ingestion, drop_if, drop_entry, disable_listed, disable, keep_with, keep_entry, enable_at,
  enable, set_ingestion,
}

-- The mark that the rules document has; a patch that throws, and every other call, leaves it.
pub record DocumentLaws {W : Type 0} (deps : IngestionDeps W) : Type 0 where
  pub mark : W → PausedField
  pub read_rules-reads :
      (w : W)
      → OnValue
          (λ (r : RulesDoc × Option String) w1. r.0.paused_sensors ≡ mark w)
          (deps.read_rules w)
  pub read_rules-Leaves : Leaves mark deps.read_rules
  pub patch_rules-marks :
      (d : RulesDoc) (v : Option String) (w : W)
      → OnValue (λ _ w1. mark w1 ≡ d.paused_sensors) (deps.patch_rules d v w)
  pub patch_rules-thrown :
      (d : RulesDoc) (v : Option String) (w : W)
      → OnThrown (λ w1. mark w1 ≡ mark w) (deps.patch_rules d v w)
  pub list_realtime_rules-Leaves : Leaves mark deps.list_realtime_rules
  pub add_realtime_rule-Leaves : (n : NewRule) → Leaves mark (deps.add_realtime_rule n)
  pub delete_realtime_rule-Leaves : (id : String) → Leaves mark (deps.delete_realtime_rule id)
  pub vst_list_sensors-Leaves : Leaves mark deps.vst_list_sensors
  pub fetch_models-Leaves : Leaves mark deps.fetch_models

module _ {W : Type 0} {deps : IngestionDeps W} (laws : DocumentLaws deps) where
  pub delete_each-Leaves : (ids : List String) → Leaves laws.mark (delete_each deps ids)
  unfolding delete_each
  delete_each-Leaves [] w = refl
  delete_each-Leaves (id ∷ ids) w =
      Leaves-bind laws.mark (deps.delete_realtime_rule id) _ (laws.delete_realtime_rule-Leaves id)
        (λ res.
          Leaves-bind laws.mark (delete_each deps ids) _ (delete_each-Leaves ids) (λ rest v. refl))
        w

  suspend_listed-Leaves :
      (camera : String) (o : Option String) (rules : List LiveRule)
      → Leaves laws.mark (suspend_listed deps camera o rules)
  suspend_listed-Leaves camera (some warning) rules w = refl
  suspend_listed-Leaves camera none rules w =
      Leaves-bind laws.mark (delete_each deps (rule_ids camera rules)) _ (delete_each-Leaves _)
        (λ ws v. refl) w

  pub suspend_ingestion-Leaves :
      (camera : String) → Leaves laws.mark (suspend_ingestion deps camera)
  unfolding suspend_ingestion
  suspend_ingestion-Leaves camera =
      Leaves-bind laws.mark deps.list_realtime_rules _ laws.list_realtime_rules-Leaves
        (λ (rules, warning). suspend_listed-Leaves camera (truthy warning) rules)

  -- A document that has been read while the mark was `m`.
  abbrev Agrees : PausedField → Option RulesDoc → Type 0
  Agrees m none = Unit
  Agrees m (some doc) = doc.paused_sensors ≡ m

  -- Where the mark is `m` before the call, it is so after it.
  abbrev Holds : PausedField → {A : Type 0} → Effect W A → Type 0
  Holds m c = (w : W) → laws.mark w ≡ m → laws.mark (c w).1 ≡ m

  Holds-bind :
      (m : PausedField) {A B : Type 0} (c : Effect W A) (f : A → Effect W B)
      → Holds m c
      → ((a : A) → Holds m (f a))
      → Holds m (c >>= f)
  Holds-bind m c f h k w e = state-bind (λ v. laws.mark v ≡ m) c f w (h w e) (λ a w1 e1. k a w1 e1)

  Holds-Leaves : (m : PausedField) {A : Type 0} (c : Effect W A) → Leaves laws.mark c → Holds m c
  Holds-Leaves m c h w e = h w ∙ e

  write_cm_rules-Holds :
      (m : PausedField) (doc : RulesDoc) (v : Option String)
      → doc.paused_sensors ≡ m
      → Holds m (write_cm_rules deps doc v)
  unfolding write_cm_rules
  write_cm_rules-Holds m doc v same w e =
      ap laws.mark (try_catch-state (deps.patch_rules doc v) (λ _. tt) w)
      ∙ written (deps.patch_rules doc v w) (laws.patch_rules-marks doc v w)
          (laws.patch_rules-thrown doc v w)
    where
      written :
          (t : Try Unit × W)
          → OnValue (λ _ w1. laws.mark w1 ≡ doc.paused_sensors) t
          → OnThrown (λ w1. laws.mark w1 ≡ laws.mark w) t
          → laws.mark t.1 ≡ m
      written (value u, w1) h k = h ∙ same
      written (thrown f, w1) h k = k ∙ e

  read_rule_spec-Agrees :
      (camera : String) (w : W)
      → (spec : RuleSpec) × (w1 : W) × (read_rule_spec deps camera w ≡ (value spec, w1))
        × Agrees (laws.mark w) spec.doc
        × (laws.mark w1 ≡ laws.mark w)
  unfolding read_rule_spec
  read_rule_spec-Agrees camera w =
      go (deps.read_rules w) (laws.read_rules-reads w) (laws.read_rules-Leaves w)
    where
      go :
          (t : Try (RulesDoc × Option String) × W)
          → OnValue (λ r w1. r.0.paused_sensors ≡ laws.mark w) t
          → laws.mark t.1 ≡ laws.mark w
          → (spec : RuleSpec) × (w1 : W) × (caught
                (λ _. no_spec)
                (continue t.0 (λ (doc, version). pure (spec_of camera doc version)) t.1)
              ≡ (value spec, w1))
            × Agrees (laws.mark w) spec.doc
            × (laws.mark w1 ≡ laws.mark w)
      go (value r, w1) h k = (_, w1, refl, h, k)
      go (thrown f, w1) h k = (no_spec, w1, refl, tt, k)

  drop_entry-Holds :
      (m : PausedField) (camera : String) (o : Option RulesDoc) (v : Option String)
      → Agrees m o
      → Holds m (drop_entry deps camera o v)
  drop_entry-Holds m camera none v same w e = e
  drop_entry-Holds m camera (some doc) v same w e = dropped _
    where
      dropped : (b : Bool) → laws.mark (drop_if deps b camera doc v w).1 ≡ m
      dropped true = write_cm_rules-Holds m _ v same w e
      dropped false = e

  keep_with-Holds :
      (m : PausedField) (n : NewRule) (doc : RulesDoc) (v : Option String) (o : Option RuleEntry)
      → doc.paused_sensors ≡ m
      → Holds m (keep_with deps n doc v o)
  keep_with-Holds m n doc v none same = write_cm_rules-Holds m _ v same
  keep_with-Holds m n doc v (some r) same =
      if_rule (λ c. Holds m c) (says n r) (λ _ w e. e) (λ _. write_cm_rules-Holds m _ v same)

  keep_entry-Holds :
      (m : PausedField) (b : Bool) (n : NewRule) (spec : RuleSpec) (o : Option RulesDoc)
      → Agrees m o
      → Holds m (keep_entry deps b n spec o)
  keep_entry-Holds m true n spec (some doc) same w e =
      keep_with-Holds m n doc spec.resource_version spec.rule same w e
  keep_entry-Holds m true n spec none same w e = e
  keep_entry-Holds m false n spec o same w e = e

  enable_at-Holds :
      (m : PausedField) (i : Ingestion) (spec : RuleSpec) (o : Option String)
      → Agrees m spec.doc
      → Holds m (enable_at deps i spec o)
  unfolding resolve_stream_id live_vlm_model_id
  enable_at-Holds m i spec none same w e = e
  enable_at-Holds m i spec (some url) same w e =
      Holds-bind m (resolve_stream_id deps i.camera) _
        (Holds-Leaves m (resolve_stream_id deps i.camera) (
          Leaves-bind laws.mark deps.vst_list_sensors _ laws.vst_list_sensors-Leaves
            (λ sensors v. refl)))
        (λ sensor_id.
          Holds-bind m (live_vlm_model_id deps) _
            (Holds-Leaves m (live_vlm_model_id deps) (
              Leaves-catch laws.mark _ _
                (Leaves-bind laws.mark deps.fetch_models _ laws.fetch_models-Leaves (λ a v. refl))))
            λ live.
              Holds-bind m (deps.add_realtime_rule _) _
                (Holds-Leaves m (deps.add_realtime_rule _) (laws.add_realtime_rule-Leaves _))
                λ res.
                  Holds-bind m (keep_entry deps res.ok _ spec spec.doc) _
                    (keep_entry-Holds m res.ok _ spec spec.doc same) (λ _ v f. f))
        w e

  enable-Leaves : (i : Ingestion) → Leaves laws.mark (enable deps i)
  unfolding enable
  enable-Leaves i w =
      let (spec, w1, e, same, kept) = read_rule_spec-Agrees i.camera w in
      rw e (enable_at-Holds (laws.mark w) i spec _ same w1 kept)

  disable_listed-Leaves :
      (camera : String) (o : Option String) (rules : List LiveRule)
      → Leaves laws.mark (disable_listed deps camera o rules)
  disable_listed-Leaves camera (some warning) rules w = refl
  disable_listed-Leaves camera none rules w =
      Leaves-bind laws.mark (delete_each deps (rule_ids camera rules)) _ (delete_each-Leaves _)
        (λ ws w1.
          let (spec, w2, e, same, kept) = read_rule_spec-Agrees camera w1 in
          rw e (
            Holds-bind (laws.mark w1) (drop_entry deps camera spec.doc spec.resource_version) _
              (drop_entry-Holds (laws.mark w1) camera spec.doc spec.resource_version same)
              (λ _ v f. f) w2 kept))
        w

  disable-Leaves : (camera : String) → Leaves laws.mark (disable deps camera)
  unfolding disable
  disable-Leaves camera =
      Leaves-bind laws.mark deps.list_realtime_rules _ laws.list_realtime_rules-Leaves
        (λ (rules, warning). disable_listed-Leaves camera (truthy warning) rules)

  -- Turning the ingestion of a camera on or off leaves the mark of the paused cameras.
  pub set_ingestion-Leaves : (i : Ingestion) → Leaves laws.mark (set_ingestion deps i)
  unfolding set_ingestion
  set_ingestion-Leaves i =
      if_rule (λ (c : Effect W Answered). Leaves laws.mark c) i.enabled (λ _. enable-Leaves i)
        (λ _. disable-Leaves i.camera)
