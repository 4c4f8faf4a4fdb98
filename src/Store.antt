-- ===== src/Store.antt =====
-- The stored configuration of an instance and the edits of it (src/lib/config-store/file.ts): the
-- document, the change that each operation of `FileConfigStore` makes to it, and what is read of it.
-- Reading and writing the file is in Store/File.antt, filling an emptied store in Store/Fill.antt.
pub mod Entities
pub mod Documents
pub mod Validate
pub mod File
pub mod Lock
pub mod Fill
mod Tests
use artesca_vss_console.Common.{
  String, Bool, true, false, not, Option, none, some, List, [], ◌∷◌, map, filter, find?, truthy,
  ◌==◌, if◌then◌else◌,
}
use artesca_vss_console.Reconcile.{
  CameraEntry, PromptDoc, PromptSet, ScenarioEntry, ReconcileStatus,
}

pub record Stamp : Type 0 where
  pub updated_by : String
  pub updated_at : String

-- An entity with the stamps of its last edit, if it has them. `has_text` is asked of a prompt and of
-- a prompt set: what the file holds as the text is a string, as the store writes it.
pub record Stored (A : Type 0) : Type 0 where
  pub entry : A
  pub stamp : Option Stamp
  pub has_text : Bool

-- The schema, which is the same text in every document, is left out.
pub record ConfigDoc : Type 0 where
  pub instance_name : String
  pub updated_by : Option String
  pub updated_at : Option String
  pub active_prompt_id : Option String
  pub prompt : Option (Stored PromptDoc)
  pub reconcile_status : Option ReconcileStatus
  pub cameras : List (Stored CameraEntry)
  pub scenarios : List (Stored ScenarioEntry)
  pub prompt_sets : List (Stored PromptSet)

abbrev pub empty_doc : String → ConfigDoc
empty_doc name = record {
  instance_name = name;
  updated_by = none;
  updated_at = none;
  active_prompt_id = none;
  prompt = none;
  reconcile_status = none;
  cameras = [];
  scenarios = [];
  prompt_sets = [];
}

module _ {A : Type 0} where
  abbrev pub stamped : Stamp → A → Stored A
  stamped s a = record { entry = a; stamp = some s; has_text = true }

module _ {A : Type 0} (id_of : A → String) where
  abbrev pub has_id : String → Stored A → Bool
  has_id id e = id_of e.entry == id

  -- The first entity with the id is replaced whole; where there is none the new one is appended.
  pub upsert : Stored A → List (Stored A) → List (Stored A)
  upsert new [] = new ∷ []
  upsert new (e ∷ es) =
      let rest = upsert new es in if has_id (id_of new.entry) e then new ∷ es else e ∷ rest

  abbrev pub remove : String → List (Stored A) → List (Stored A)
  remove id es = filter (λ e. not (has_id id e)) es

-- The edits of the operations, before `mutate` stamps the document.
abbrev pub write_cameras : Stamp → List CameraEntry → ConfigDoc → ConfigDoc
write_cameras s cams doc = record doc { cameras = map (stamped s) cams }

abbrev pub upsert_camera : Stamp → CameraEntry → ConfigDoc → ConfigDoc
upsert_camera s cam doc = record doc { cameras = upsert (λ c. c.id) (stamped s cam) doc.cameras }

abbrev pub delete_camera : String → ConfigDoc → ConfigDoc
delete_camera id doc = record doc { cameras = remove (λ (c : CameraEntry). c.id) id doc.cameras }

abbrev pub write_status : ReconcileStatus → ConfigDoc → ConfigDoc
write_status status doc = record doc { reconcile_status = some status }

-- An empty model is left out.
abbrev pub write_prompt : Stamp → PromptDoc → ConfigDoc → ConfigDoc
write_prompt s p doc = record doc {
  prompt = some (stamped s (record { prompt = p.prompt; model = truthy p.model }));
}

abbrev pub write_scenarios : Stamp → List ScenarioEntry → ConfigDoc → ConfigDoc
write_scenarios s scenarios doc = record doc { scenarios = map (stamped s) scenarios }

abbrev pub upsert_prompt_set : Stamp → PromptSet → ConfigDoc → ConfigDoc
upsert_prompt_set s set doc = record doc {
  prompt_sets = upsert (λ p. p.id) (stamped s set) doc.prompt_sets;
}

abbrev pub delete_prompt_set : String → ConfigDoc → ConfigDoc
delete_prompt_set id doc = record doc {
  prompt_sets = remove (λ (p : PromptSet). p.id) id doc.prompt_sets;
}

abbrev pub set_active_prompt_id : String → ConfigDoc → ConfigDoc
set_active_prompt_id id doc = record doc { active_prompt_id = some id }

-- The legacy prompt, without its stamps, where its text is a string.
abbrev pub legacy_prompt : ConfigDoc → Option PromptDoc
legacy_prompt doc = elim doc.prompt [
  | none ↦ none
  | some p ↦ if p.has_text then some p.entry else none
]

abbrev pub prompt_of : PromptSet → PromptDoc
prompt_of set = record { prompt = set.text; model = set.model }

abbrev pub prompt_or : Option (Stored PromptSet) → Option PromptDoc → Option PromptDoc
prompt_or none legacy = legacy
prompt_or (some set) legacy = if set.has_text then some (prompt_of set.entry) else legacy

abbrev pub active_prompt : Option String → ConfigDoc → Option PromptDoc
active_prompt none doc = legacy_prompt doc
active_prompt (some id) doc =
    prompt_or (find? (has_id (λ (p : PromptSet). p.id) id) doc.prompt_sets) (legacy_prompt doc)

-- `readPrompt`: the active set's text, else the legacy prompt.
pub read_prompt : ConfigDoc → Option PromptDoc
read_prompt doc = active_prompt (truthy doc.active_prompt_id) doc
