-- ===== src/Store/Entities.antt =====
-- Lists of entities keyed by id: what an upsert and a removal do to the entity of each id.
use artesca_vss_console.Common.{
  String, Bool, true, not, ◌||◌, ◌&&◌, Option, none, some, List, [], ◌∷◌, map, find?, ◌≡◌, refl,
  ◌==◌, eq_iff, arith, if◌then◌else◌, includes,
}
use artesca_vss_console.Store.{Stored, has_id, upsert, remove}

-- No id occurs twice.
abbrev pub are_distinct : List String → Bool
are_distinct [] = true
are_distinct (x ∷ xs) = not (includes xs x) && are_distinct xs

module _ {A : Type 0} (id_of : A → String) where
  abbrev pub find_id : String → List (Stored A) → Option (Stored A)
  find_id id es = find? (has_id id_of id) es

  abbrev pub ids : List (Stored A) → List String
  ids es = map (λ e. id_of e.entry) es

  -- After an upsert the new entity is found under its id, whole, and any other id is found as before.
  pub find-upsert :
      (new : Stored A) (id : String) (es : List (Stored A))
      → find_id id (upsert id_of new es)
        ≡ (if id_of new.entry == id then some new else find_id id es)
  unfolding upsert
  find-upsert new id [] = ground arith
  find-upsert new id (e ∷ es) = ground (
    arith,
    find-upsert new id es,
    eq_iff (id_of new.entry) id,
    eq_iff (id_of e.entry) id,
    eq_iff (id_of e.entry) (id_of new.entry),
  )

  -- After a removal no entity is found under the id, and any other id is found as before.
  pub find-remove :
      (gone id : String) (es : List (Stored A))
      → find_id id (remove id_of gone es) ≡ (if gone == id then none else find_id id es)
  find-remove gone id [] = ground arith
  find-remove gone id (e ∷ es) = ground (
    arith,
    find-remove gone id es,
    eq_iff gone id,
    eq_iff (id_of e.entry) id,
    eq_iff (id_of e.entry) gone,
  )

  includes-upsert :
      (new : Stored A) (x : String) (es : List (Stored A))
      → includes (ids (upsert id_of new es)) x ≡ (id_of new.entry == x || includes (ids es) x)
  unfolding upsert
  includes-upsert new x [] = ground arith
  includes-upsert new x (e ∷ es) = ground (
    arith,
    includes-upsert new x es,
    eq_iff (id_of e.entry) (id_of new.entry),
    eq_iff (id_of e.entry) x,
    eq_iff (id_of new.entry) x,
  )

  -- An upsert keeps the ids distinct.
  pub upsert-distinct :
      (new : Stored A) (es : List (Stored A))
      → are_distinct (ids es) ≡ true
      → are_distinct (ids (upsert id_of new es)) ≡ true
  unfolding upsert
  upsert-distinct new [] h = refl
  upsert-distinct new (e ∷ es) h = ground (
    arith,
    upsert-distinct new es,
    includes-upsert new (id_of e.entry) es,
    eq_iff (id_of e.entry) (id_of new.entry),
    eq_iff (id_of new.entry) (id_of e.entry),
  )
