-- ===== src/Store/Fill.antt =====
-- Filling an emptied store from a saved copy (`planFill`, src/lib/config-store/fill.ts, and the edit of
-- `fillEmpty`, src/lib/config-store/file.ts). The entries of the copy are the ones that the schemas let
-- through.
pub mod Plan
pub mod Lists
pub mod Active
mod Tests
use artesca_vss_console.Common.{
  String, Bool, true, false, not, ◌&&◌, Option, none, some, List, [], ◌∷◌, ◌++◌, map, any, is_some,
  truthy, get_or, ◌==◌, if◌then◌else◌,
}
use artesca_vss_console.Reconcile.{CameraEntry, PromptSet, ScenarioEntry}
use artesca_vss_console.Store.{Stamp, Stored, ConfigDoc, stamped}

pub data FillList : Type 0 where
  cameras scenarios prompt_sets : FillList

abbrev pub same_list : FillList → FillList → Bool
same_list cameras cameras = true
same_list scenarios scenarios = true
same_list prompt_sets prompt_sets = true
same_list _ _ = false

-- `includes` on the lists' names.
abbrev pub names_list : List FillList → FillList → Bool
names_list keys key = any (same_list key) keys

pub record FillSource : Type 0 where
  pub cameras : List CameraEntry
  pub scenarios : List ScenarioEntry
  pub prompt_sets : List PromptSet
  pub active_prompt_id : Option String

-- `next` is flattened here.
pub record FillPlan : Type 0 where
  pub restored : List FillList
  pub kept : List FillList
  pub next_cameras : Option (List CameraEntry)
  pub next_scenarios : Option (List ScenarioEntry)
  pub next_prompt_sets : Option (List PromptSet)
  pub next_active : Option String

abbrev pub no_plan : FillPlan
no_plan = record {
  restored = [];
  kept = [];
  next_cameras = none;
  next_scenarios = none;
  next_prompt_sets = none;
  next_active = none;
}

abbrev pub is_empty {ℓ} : {A : Type ℓ} → List A → Bool
is_empty [] = true
is_empty (x ∷ xs) = false

-- One round of the loop over the lists: `with_next` is the plan with the copy's list as the next one.
pub visit_list : FillList → Bool → Bool → FillPlan → FillPlan → FillPlan
visit_list key src_empty stored_empty with_next p =
    if src_empty
    then p
    else if not stored_empty
    then record p { kept = p.kept ++ key ∷ [] }
    else record with_next { restored = p.restored ++ key ∷ [] }

pub visit_cameras : ConfigDoc → FillSource → FillPlan → FillPlan
visit_cameras doc src p =
    visit_list cameras (is_empty src.cameras) (is_empty doc.cameras)
      (record p { next_cameras = some src.cameras }) p

pub visit_scenarios : ConfigDoc → FillSource → FillPlan → FillPlan
visit_scenarios doc src p =
    visit_list scenarios (is_empty src.scenarios) (is_empty doc.scenarios)
      (record p { next_scenarios = some src.scenarios }) p

pub visit_prompt_sets : ConfigDoc → FillSource → FillPlan → FillPlan
visit_prompt_sets doc src p =
    visit_list prompt_sets (is_empty src.prompt_sets) (is_empty doc.prompt_sets)
      (record p { next_prompt_sets = some src.prompt_sets }) p

abbrev pub holds_set : FillSource → String → Bool
holds_set src id = any (λ (s : PromptSet). s.id == id) src.prompt_sets

-- The active prompt is set only with the restored sets that hold it.
pub activate : ConfigDoc → FillSource → Option String → FillPlan → FillPlan
activate doc src none p = p
activate doc src (some id) p =
    if names_list p.restored prompt_sets
      && not (is_some (truthy doc.active_prompt_id))
      && holds_set src id
    then record p { next_active = some id }
    else p

pub plan_fill : ConfigDoc → FillSource → FillPlan
plan_fill doc src =
    activate doc src (truthy src.active_prompt_id)
      (visit_prompt_sets doc src (visit_scenarios doc src (visit_cameras doc src no_plan)))

abbrev pub next_or : {A : Type 0} → Stamp → Option (List A) → List (Stored A) → List (Stored A)
next_or s none stored = stored
next_or s (some es) stored = map (stamped s) es

-- The document with the plan's lists in place, stamped.
pub apply_plan : Stamp → FillPlan → ConfigDoc → ConfigDoc
apply_plan s p doc = record doc {
  cameras = next_or s p.next_cameras doc.cameras;
  scenarios = next_or s p.next_scenarios doc.scenarios;
  prompt_sets = next_or s p.next_prompt_sets doc.prompt_sets;
  active_prompt_id = elim p.next_active [ none ↦ doc.active_prompt_id | some id ↦ some id ];
  updated_by = some s.updated_by;
  updated_at = some s.updated_at;
}

-- The document that `fillEmpty` writes, or none where it writes nothing.
pub fill_empty : Stamp → FillSource → ConfigDoc → Option ConfigDoc
fill_empty s src doc =
    let p = plan_fill doc src in if is_empty p.restored then none else some (apply_plan s p doc)
