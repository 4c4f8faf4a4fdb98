-- ===== src/Store/Validate/Named.antt =====
-- What the check of a parsed file lets through.
use artesca_vss_console.Common.{
  String, true, List, [], ◌∷◌, map, ◌≡◌, refl, ◌≢◌, arith, All, Try, value, thrown, eq_iff, if_rule,
  ◌==◌, subst,
}
use artesca_vss_console.Reconcile.{CameraEntry, PromptSet, ScenarioEntry}
use artesca_vss_console.Store.{Stored, ConfigDoc}
use artesca_vss_console.Store.Validate.{
  RawEntry, entity, no_mapping, without_id, RawList, missing, no_list, items, RawDoc, mapping,
  knows_schema, then_try, check_entry, check_entries, check_list, checked_doc, validate_doc,
}

-- What is asked of a value; a thrown message is asked for nothing.
abbrev Gives : {A : Type 0} → (A → Type 0) → Try A → Type 0
Gives P (value a) = P a
Gives P (thrown e) = Unit

then_try-Gives :
    {A B : Type 0} (P : A → Type 0) (Q : B → Type 0) (t : Try A) (f : A → Try B)
    → Gives P t
    → ((a : A) → P a → Gives Q (f a))
    → Gives Q (then_try t f)
then_try-Gives P Q (value a) f h k = k a h
then_try-Gives P Q (thrown e) f h k = tt

Gives-at : {A : Type 0} (P : A → Type 0) (t : Try A) (a : A) → Gives P t → t ≡ value a → P a
Gives-at P t a h e = subst (Gives P) e h

abbrev entries_in : {A : Type 0} → RawList A → List (RawEntry A)
entries_in (items rs) = rs
entries_in missing = []
entries_in no_list = []

-- The entities are the entries of the list, all of them and in their order, and have ids that are not
-- empty.
abbrev pub IsKept : {A : Type 0} → (A → String) → RawList A → List (Stored A) → Type 0
IsKept id_of raw es = (map entity es ≡ entries_in raw) × All (λ e. id_of e.entry ≢ "") es

module _ {A : Type 0} (id_of : A → String) (place : String) where
  check_entry-kept :
      (r : RawEntry A)
      → Gives (λ e. (entity e ≡ r) × (id_of e.entry ≢ "")) (check_entry id_of place r)
  unfolding check_entry
  check_entry-kept no_mapping = tt
  check_entry-kept without_id = tt
  check_entry-kept (entity e) =
      if_rule (Gives (λ s. (entity s ≡ entity e) × (id_of s.entry ≢ ""))) (id_of e.entry == "")
        (λ _. tt)
        (λ named. (refl, λ empty. ground (arith, eq_iff (id_of e.entry) "", named, empty)))

  check_entries-IsKept :
      (rs : List (RawEntry A)) → Gives (IsKept id_of (items rs)) (check_entries id_of place rs)
  unfolding check_entries
  check_entries-IsKept [] = (refl, tt)
  check_entries-IsKept (r ∷ rs) =
      then_try-Gives (λ e. (entity e ≡ r) × (id_of e.entry ≢ "")) (IsKept id_of (items (r ∷ rs)))
        (check_entry id_of place r) _ (check_entry-kept r)
        (λ e (same, named).
          then_try-Gives (IsKept id_of (items rs)) (IsKept id_of (items (r ∷ rs)))
            (check_entries id_of place rs) _ (check_entries-IsKept rs)
            (λ es (all, nameds). (cc, (named, nameds))))

  check_list-IsKept : (raw : RawList A) → Gives (IsKept id_of raw) (check_list id_of place raw)
  unfolding check_list
  check_list-IsKept missing = (refl, tt)
  check_list-IsKept no_list = tt
  check_list-IsKept (items rs) = check_entries-IsKept rs

-- What is kept of the three lists of a document.
abbrev pub KeepsAll : RawDoc → ConfigDoc → Type 0
KeepsAll raw doc =
    IsKept (λ (c : CameraEntry). c.id) raw.cameras doc.cameras
    × IsKept (λ (s : ScenarioEntry). s.id) raw.scenarios doc.scenarios
    × IsKept (λ (p : PromptSet). p.id) raw.prompt_sets doc.prompt_sets

checked_doc-KeepsAll :
    (name : String) (raw : RawDoc) (place : String)
    → Gives (KeepsAll raw) (checked_doc name raw place)
checked_doc-KeepsAll name raw place =
    then_try-Gives (IsKept (λ (c : CameraEntry). c.id) raw.cameras) (KeepsAll raw) _ _
      (check_list-IsKept (λ (c : CameraEntry). c.id) place raw.cameras)
      (λ cams k.
        then_try-Gives (IsKept (λ (s : ScenarioEntry). s.id) raw.scenarios) (KeepsAll raw) _ _
          (check_list-IsKept (λ (s : ScenarioEntry). s.id) place raw.scenarios)
          (λ scenarios l.
            then_try-Gives (IsKept (λ (p : PromptSet). p.id) raw.prompt_sets) (KeepsAll raw) _ _
              (check_list-IsKept (λ (p : PromptSet). p.id) place raw.prompt_sets)
              (λ sets m. (k, l, m))))

-- A parsed file that is accepted has a schema that is left out or the known one, and all of its
-- cameras, scenarios and prompt sets are kept, in their order, and have ids that are not empty.
pub validate_doc-KeepsAll :
    (raw : RawDoc) (name place : String) (doc : ConfigDoc)
    → validate_doc (mapping raw) name place ≡ value doc
    → (knows_schema raw.schema ≡ true) × KeepsAll raw doc
unfolding validate_doc
validate_doc-KeepsAll raw name place doc =
    Gives-at (λ d. (knows_schema raw.schema ≡ true) × KeepsAll raw d) _ doc
      (if_rule (Gives (λ d. (knows_schema raw.schema ≡ true) × KeepsAll raw d))
        (knows_schema raw.schema)
        (λ known.
          then_known known (checked_doc name raw place) (checked_doc-KeepsAll name raw place))
        (λ _. tt))
  where
    then_known :
        knows_schema raw.schema ≡ true
        → (t : Try ConfigDoc) → Gives (KeepsAll raw) t
        → Gives (λ d. (knows_schema raw.schema ≡ true) × KeepsAll raw d) t
    then_known known (value d) h = (known, h)
    then_known known (thrown e) h = tt
