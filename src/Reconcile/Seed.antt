-- ===== src/Reconcile/Seed.antt =====
-- Seeding the prompt sets of an instance (`seedDefaultPromptSet`, src/lib/reconcile/prompt-seed.ts):
-- a library of prompt sets and an active one of them are ensured.
pub mod Pointer
mod Tests
use artesca_vss_console.Common.{
  String, Bool, true, false, Option, none, some, List, [], ◌∷◌, find?, any, Effect, pure, ◌>>=◌,
  ◌>>◌, try_catch, truthy, get_or, ◌==◌, if◌then◌else◌,
}
use artesca_vss_console.Common.Trim.{trim}
use artesca_vss_console.Reconcile.{PromptDoc, PromptSet}

-- The operations of the store that seeding uses, at one instance and as the editor "reconciler".
pub record SeedStore (W : Type 0) : Type 0 where
  pub read_prompt_sets : Effect W (List PromptSet)
  pub read_prompt : Effect W (Option PromptDoc)
  pub read_active_prompt_id : Effect W (Option String)
  pub upsert_prompt_set : PromptSet → Effect W Unit
  pub set_active_prompt_id : String → Effect W Unit

abbrev pub default_id : String
default_id = "default"

abbrev pub names_set : List PromptSet → String → Bool
names_set sets id = any (λ (s : PromptSet). s.id == id) sets

-- The active set is still one of the sets.
abbrev pub is_valid : List PromptSet → Option String → Bool
is_valid sets none = false
is_valid sets (some id) = names_set sets id

abbrev pub sole : List PromptSet → Option PromptSet
sole (set ∷ []) = some set
sole [] = none
sole (a ∷ b ∷ sets) = none

abbrev pub or_else : Option PromptSet → Option PromptSet → Option PromptSet
or_else none o = o
or_else (some set) o = some set

-- The set that is activated where none is: the default one, else the only one.
pub target : List PromptSet → Option PromptSet
target sets = or_else (find? (λ (s : PromptSet). s.id == default_id) sets) (sole sets)

abbrev pub old_text : Option PromptDoc → String
old_text none = ""
old_text (some p) = p.prompt

abbrev pub old_model : Option PromptDoc → Option String
old_model none = none
old_model (some p) = truthy p.model

-- The legacy prompt's text, else the bundled one.
abbrev pub seed_text : Option PromptDoc → String → String
seed_text legacy default_text =
    if trim (old_text legacy) == "" then trim default_text else trim (old_text legacy)

module _ {W : Type 0} (store : SeedStore W) where
  pub activate_target : Option PromptSet → Effect W Unit
  activate_target none = pure tt
  activate_target (some set) = store.set_active_prompt_id set.id

  pub repair : Bool → List PromptSet → Effect W Unit
  repair true sets = pure tt
  repair false sets = activate_target (target sets)

  abbrev pub seed_set : Option PromptDoc → String → PromptSet
  seed_set legacy text = record {
    id = default_id;
    name = "Default (Retail LP)";
    text = text;
    model = old_model legacy;
    alert_type = none;
  }

  pub seed : Option PromptDoc → String → Bool → Effect W Unit
  seed legacy text true = pure tt
  seed legacy text false = do
    store.upsert_prompt_set (seed_set legacy text)
    store.set_active_prompt_id default_id

  pub seed_or_repair : List PromptSet → String → Effect W Unit
  seed_or_repair [] default_text = do
    legacy ← store.read_prompt
    seed legacy (seed_text legacy default_text) (seed_text legacy default_text == "")
  seed_or_repair (set ∷ sets) default_text = do
    active ← store.read_active_prompt_id
    repair (is_valid (set ∷ sets) active) (set ∷ sets)

  -- Whatever throws is swallowed.
  pub seed_default_prompt_set : String → Effect W Unit
  seed_default_prompt_set default_text =
      try_catch (do sets ← store.read_prompt_sets; seed_or_repair sets default_text) (λ e. tt)
