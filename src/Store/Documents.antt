-- ===== src/Store/Documents.antt =====
-- What is read of the document after an edit of it.
use artesca_vss_console.Common.{
  String, some, truthy, ◌==◌, eq_iff, ◌≡◌, refl, ◌≢◌, arith, if◌then◌else◌,
}
use artesca_vss_console.Reconcile.{PromptSet}
use artesca_vss_console.Store.{
  Stamp, ConfigDoc, stamped, upsert_prompt_set, delete_prompt_set, set_active_prompt_id,
  legacy_prompt, prompt_of, read_prompt,
}
use artesca_vss_console.Store.Entities.{find-upsert, find-remove}

truthy-text : (id : String) → id ≢ "" → truthy (some id) ≡ some id
truthy-text id h = ground (arith, eq_iff id "", h)

if_same : {A : Type 0} (id : String) (x y : A) → (if id == id then x else y) ≡ x
if_same id x y = ground (arith, eq_iff id id)

-- A prompt set with a non-empty id that is stored and then made the active one is what is read as the prompt.
pub read-activated :
    (s : Stamp) (set : PromptSet) (doc : ConfigDoc)
    → set.id ≢ ""
    → read_prompt (set_active_prompt_id set.id (upsert_prompt_set s set doc)) ≡ some (prompt_of set)
unfolding read_prompt
read-activated s set doc h =
    rw
      (
        truthy-text set.id h,
        find-upsert (λ (p : PromptSet). p.id) (stamped s set) set.id doc.prompt_sets,
      )
      (rw if_same refl)

-- Where the active prompt set, whose id is not empty, is deleted, the legacy prompt is read.
pub read-deleted :
    (id : String) (doc : ConfigDoc)
    → doc.active_prompt_id ≡ some id
    → id ≢ ""
    → read_prompt (delete_prompt_set id doc) ≡ legacy_prompt doc
unfolding read_prompt
read-deleted id doc e h =
    rw (e, truthy-text id h, find-remove (λ (p : PromptSet). p.id) id id doc.prompt_sets)
      (rw if_same refl)
