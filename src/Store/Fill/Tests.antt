-- ===== src/Store/Fill/Tests.antt =====
-- Fills of a small document and of an emptied one.
use artesca_vss_console.Common.{
  String, true, false, none, some, [], ◌∷◌, ◌≡◌, refl, ◌⊎◌, is_some, truthy,
}
use artesca_vss_console.Reconcile.{PromptSet}
use artesca_vss_console.Store.{Stamp, Stored, ConfigDoc, empty_doc, stamped}
use artesca_vss_console.Store.Fill.{
  FillList, FillSource, fill_empty, plan_fill, names_list, apply_plan, visit_cameras,
  visit_scenarios, visit_prompt_sets, visit_list, activate,
}
use artesca_vss_console.Store.Fill.Plan.{restored-exact}
use artesca_vss_console.Store.Fill.Lists.{filled, fill_empty-lists, fill_empty-once}
use artesca_vss_console.Store.Fill.Active.{fill_empty-active, stores_set}

abbrev set : String → PromptSet
set id = record { id = id; name = "One"; text = "watch"; model = none; alert_type = none }

abbrev now : Stamp
now = record { updated_by = "agent"; updated_at = "2026-01-01" }

abbrev stored_set : String → Stored PromptSet
stored_set id = record { entry = set id; stamp = none; has_text = true }

abbrev doc : ConfigDoc
doc = record (empty_doc "box") {
  active_prompt_id = some "a";
  prompt =
      some
        (record { entry = record { prompt = "old"; model = none }; stamp = none; has_text = true });
  prompt_sets = stored_set "a" ∷ stored_set "b" ∷ [];
}

abbrev copy : FillSource
copy = record {
  cameras = [];
  scenarios = [];
  prompt_sets = set "x" ∷ [];
  active_prompt_id = some "x";
}

abbrev emptied : ConfigDoc
emptied = empty_doc "box"

abbrev refilled : ConfigDoc
refilled = record emptied {
  active_prompt_id = some "x";
  prompt_sets = stamped now (set "x") ∷ [];
  updated_by = some now.updated_by;
  updated_at = some now.updated_at;
}

run_fill : fill_empty now copy emptied ≡ some refilled
unfolding fill_empty plan_fill apply_plan visit_cameras visit_scenarios visit_prompt_sets visit_list
    activate
run_fill = refl

restored-exact_example : names_list (plan_fill doc copy).restored FillList.prompt_sets ≡ false
restored-exact_example = restored-exact doc copy FillList.prompt_sets

fill_empty-lists_example :
    (refilled.cameras ≡ [])
    × (refilled.scenarios ≡ [])
    × (refilled.prompt_sets ≡ filled now [] (set "x" ∷ []))
fill_empty-lists_example = fill_empty-lists now copy emptied refilled run_fill

fill_empty-once_example : fill_empty now copy refilled ≡ none
fill_empty-once_example = fill_empty-once now now copy emptied refilled run_fill

fill_empty-active_example :
    (refilled.active_prompt_id ≡ emptied.active_prompt_id)
    ⊎ ((id : String) × (refilled.active_prompt_id ≡ some id)
        × (is_some (truthy emptied.active_prompt_id) ≡ false)
        × (stores_set id refilled.prompt_sets ≡ true))
fill_empty-active_example = fill_empty-active emptied copy now refilled run_fill
