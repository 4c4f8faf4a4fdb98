-- ===== src/Store/Validate.antt =====
-- The check of a parsed file (`validateDoc`, src/lib/config-store/file.ts). What the YAML library
-- parses is told apart as far as the check looks at it; the text of a message is cut short, without
-- the index of an entry and the type that was found.
pub mod Named
use Prim.Native.String.{◌++◌ as text_append}
use artesca_vss_console.Common.{
  String, Bool, true, false, Option, none, some, List, [], ◌∷◌, Try, value, thrown, truthy, get_or,
  ◌==◌, if◌then◌else◌,
}
use artesca_vss_console.Reconcile.{
  CameraEntry, PromptDoc, PromptSet, ScenarioEntry, ReconcileStatus,
}
use artesca_vss_console.Store.{Stored, ConfigDoc, empty_doc}

-- A field that should be a text; `null` is `other`.
pub data Field : Type 0 where
  absent : Field
  text : String → Field
  other : Field

-- An entry of a list: no mapping, a mapping whose id is no text, or one whose id is a text.
pub data RawEntry (A : Type 0) : Type 0 where
  no_mapping without_id : RawEntry A
  entity : Stored A → RawEntry A

-- A list that is `null` is missing.
pub data RawList (A : Type 0) : Type 0 where
  missing no_list : RawList A
  items : List (RawEntry A) → RawList A

-- A prompt and a status that are no mappings are `none`.
pub record RawDoc : Type 0 where
  pub schema : Field
  pub instance_name : Field
  pub updated_at : Field
  pub updated_by : Field
  pub active_prompt_id : Field
  pub prompt : Option (Stored PromptDoc)
  pub reconcile_status : Option ReconcileStatus
  pub cameras : RawList CameraEntry
  pub scenarios : RawList ScenarioEntry
  pub prompt_sets : RawList PromptSet

pub data Yaml : Type 0 where
  null : Yaml
  mapping : RawDoc → Yaml
  other_value : Yaml

abbrev pub config_schema : String
config_schema = "isv-labs.console-config.v1"

abbrev pub text_of : Field → Option String
text_of absent = none
text_of (text t) = some t
text_of other = none

-- The schema is left out or is the known one.
abbrev pub knows_schema : Field → Bool
knows_schema absent = true
knows_schema (text t) = t == config_schema
knows_schema other = false

abbrev pub then_try : {A B : Type 0} → Try A → (A → Try B) → Try B
then_try (value a) f = f a
then_try (thrown e) f = thrown e

abbrev pub complaint : String → String → String
complaint place problem = text_append place (text_append ": " problem)

module _ {A : Type 0} (id_of : A → String) (place : String) where
  unfoldable pub check_entry : RawEntry A → Try (Stored A)
  check_entry no_mapping = thrown (complaint place "must be a mapping")
  check_entry without_id = thrown (complaint place "has no string \"id\"")
  check_entry (entity e) =
      if id_of e.entry == "" then thrown (complaint place "has no string \"id\"") else value e

  unfoldable pub check_entries : List (RawEntry A) → Try (List (Stored A))
  check_entries [] = value []
  check_entries (r ∷ rs) =
      then_try (check_entry r) (λ e. then_try (check_entries rs) (λ es. value (e ∷ es)))

  unfoldable pub check_list : RawList A → Try (List (Stored A))
  check_list missing = value []
  check_list no_list = thrown (complaint place "must be a list")
  check_list (items rs) = check_entries rs

abbrev pub checked_doc : String → RawDoc → String → Try ConfigDoc
checked_doc name raw place =
    then_try (check_list (λ (c : CameraEntry). c.id) place raw.cameras) (λ cams.
      then_try (check_list (λ (s : ScenarioEntry). s.id) place raw.scenarios) (λ scenarios.
        then_try (check_list (λ (p : PromptSet). p.id) place raw.prompt_sets) (λ sets.
          value (record {
            instance_name = get_or (truthy (text_of raw.instance_name)) name;
            updated_at = text_of raw.updated_at;
            updated_by = text_of raw.updated_by;
            active_prompt_id = text_of raw.active_prompt_id;
            prompt = raw.prompt;
            reconcile_status = raw.reconcile_status;
            cameras = cams;
            scenarios = scenarios;
            prompt_sets = sets;
          }))))

unfoldable pub validate_doc : Yaml → String → String → Try ConfigDoc
validate_doc null name place = value (empty_doc name)
validate_doc other_value name place = thrown (complaint place "expected a YAML mapping")
validate_doc (mapping raw) name place =
    if knows_schema raw.schema
    then checked_doc name raw place
    else thrown (complaint place "unknown schema")
