-- ===== src/Store/Tests.antt =====
-- Edits and fills of a small document, and the file of it.
use artesca_vss_console.Common.{String, true, none, some, [], ◌∷◌, ◌≡◌, ◌≢◌, arith, eq_iff}
use artesca_vss_console.Reconcile.{PromptSet}
use artesca_vss_console.Store.{
  Stamp, Stored, ConfigDoc, empty_doc, stamped, upsert, upsert_prompt_set, set_active_prompt_id,
  prompt_of, read_prompt,
}
use artesca_vss_console.Store.Entities.{find_id, find-upsert}
use artesca_vss_console.Store.Documents.{read-activated}

abbrev set : String → PromptSet
set id = record { id = id; name = "One"; text = "watch"; model = none; alert_type = none }

abbrev now : Stamp
now = record { updated_by = "agent"; updated_at = "2026-01-01" }

abbrev stored_set : String → Stored PromptSet
stored_set id = record { entry = set id; stamp = none; has_text = true }

abbrev doc : ConfigDoc
doc = record (empty_doc "box") {
  active_prompt_id = some "a";
  prompt =
      some
        (record { entry = record { prompt = "old"; model = none }; stamp = none; has_text = true });
  prompt_sets = stored_set "a" ∷ stored_set "b" ∷ [];
}

abbrev set_id : PromptSet → String
set_id p = p.id

find-upsert_example :
    find_id set_id "b" (upsert set_id (stamped now (set "a")) doc.prompt_sets)
    ≡ some (stored_set "b")
find-upsert_example = find-upsert set_id (stamped now (set "a")) "b" doc.prompt_sets

abbrev first : String
first = "a"

not_empty : first ≢ ""
not_empty e = ground (arith, eq_iff first "", e)

read-activated_example :
    read_prompt (set_active_prompt_id "a" (upsert_prompt_set now (set "a") doc))
    ≡ some (prompt_of (set "a"))
read-activated_example = read-activated now (set "a") doc not_empty
