-- ===== src/Reconcile/Seed/Pointer.antt =====
-- The active prompt set after seeding.
use mathlib.Core.Option.{some-injective}
use artesca_vss_console.Common.{
  String, Bool, true, false, not, ◌||◌, Option, some, List, [], ◌∷◌, find?, ◌==◌, eq_iff, ◌≡◌, refl,
  sym, ap, ◌∙◌, arith, value, try_catch-state, is_some, Bool-cases, Option-cases, inl, inr, ◌>>=◌,
}
use artesca_vss_console.Reconcile.{PromptDoc, PromptSet}
use artesca_vss_console.Reconcile.Seed.{
  SeedStore, default_id, names_set, is_valid, sole, target, seed_text, activate_target, repair,
  seed, seed_or_repair, seed_set, seed_default_prompt_set,
}

-- What the store documents, while it answers: a read gives what is stored, a set that is stored is
-- there, and the active id is what it was set to.
pub record HoldsSets {W : Type 0} (store : SeedStore W) (sets : W → List PromptSet)
    (active : W → Option String) (legacy : W → Option PromptDoc) : Type 0 where
  pub reads_sets : (w : W) → store.read_prompt_sets w ≡ (value (sets w), w)
  pub reads_active : (w : W) → store.read_active_prompt_id w ≡ (value (active w), w)
  pub reads_prompt : (w : W) → store.read_prompt w ≡ (value (legacy w), w)
  pub stores :
      (set : PromptSet) (w : W)
      → (w' : W) × (store.upsert_prompt_set set w ≡ (value tt, w'))
        × (names_set (sets w') set.id ≡ true)
  pub activates :
      (id : String) (w : W)
      → (w' : W) × (store.set_active_prompt_id id w ≡ (value tt, w'))
        × (active w' ≡ some id)
        × (sets w' ≡ sets w)

found-named :
    (id : String) (sets : List PromptSet) (set : PromptSet)
    → find? (λ (s : PromptSet). s.id == id) sets ≡ some set
    → names_set sets set.id ≡ true
found-named id [] set e = cc
found-named id (s ∷ sets) set e = elim (Bool-cases (s.id == id)) [
  | inl h ↦
      let same : s.id ≡ set.id = ap (λ (p : PromptSet). p.id) (some-injective _ _ (rw h at e)) in
      ground (arith, same, eq_iff s.id set.id)
  | inr h ↦ ground (arith, found-named id sets set (rw h at e))
]

sole-named :
    (sets : List PromptSet) (set : PromptSet) → sole sets ≡ some set → names_set sets set.id ≡ true
sole-named [] set e = cc
sole-named (s ∷ []) set e =
    let same : s.id ≡ set.id = ap (λ (p : PromptSet). p.id) (some-injective _ _ e) in
    ground (arith, same, eq_iff s.id set.id)
sole-named (a ∷ b ∷ sets) set e = cc

target-named :
    (sets : List PromptSet) (set : PromptSet)
    → target sets ≡ some set
    → names_set sets set.id ≡ true
unfolding target
target-named sets set e = elim (Option-cases (find? (λ (s : PromptSet). s.id == default_id) sets)) [
  | inl n ↦ sole-named sets set (rw n at e)
  | inr (s, n) ↦ found-named default_id sets set (n ∙ (rw n at e))
]

-- There is a set that can be the active one: the active set is one of the sets, or there is one to
-- activate, or there is a text to seed a first set with.
abbrev pub can_seed : List PromptSet → Option String → Option PromptDoc → String → Bool
can_seed [] active legacy text = not (seed_text legacy text == "")
can_seed (set ∷ sets) active legacy text =
    is_valid (set ∷ sets) active || is_some (target (set ∷ sets))

module _ {W : Type 0} (store : SeedStore W) (sets : W → List PromptSet) (active : W → Option String)
    (legacy : W → Option PromptDoc) (c : HoldsSets store sets active legacy) where
  abbrev IsValid : W → Type 0
  IsValid w = is_valid (sets w) (active w) ≡ true

  activated :
      (id : String) (w : W)
      → names_set (sets w) id ≡ true
      → IsValid (store.set_active_prompt_id id w).1
  activated id w h = let (w', e, a, s) = c.activates id w in rw (e, a, s) h

  repair-IsValid :
      (b : Bool) (w : W)
      → b ≡ is_valid (sets w) (active w)
      → (b || is_some (target (sets w))) ≡ true
      → IsValid (repair store b (sets w) w).1
  unfolding repair activate_target
  repair-IsValid true w e h = sym e
  repair-IsValid false w e h = elim (Option-cases (target (sets w))) [
    | inl n ↦ ground (arith, n, h)
    | inr (set, n) ↦ rw n (activated set.id w (target-named (sets w) set n))
  ]

  seed-IsValid :
      (b : Bool) (old : Option PromptDoc) (text : String) (w : W)
      → b ≡ false
      → IsValid (seed store old text b w).1
  unfolding seed
  seed-IsValid true old text w e = cc
  seed-IsValid false old text w e =
      let (w', stored, named) = c.stores (seed_set store old text) w in
      rw stored (activated default_id w' named)

  seed_or_repair-IsValid :
      (ss : List PromptSet) (text : String) (w : W)
      → sets w ≡ ss
      → can_seed ss (active w) (legacy w) text ≡ true
      → IsValid (seed_or_repair store ss text w).1
  unfolding seed_or_repair
  seed_or_repair-IsValid [] text w e h = rw (c.reads_prompt w) (
      seed-IsValid (seed_text (legacy w) text == "") (legacy w) (seed_text (legacy w) text) w
        (ground (arith, h)))
  seed_or_repair-IsValid (set ∷ ss) text w e h =
      rw (c.reads_active w, ← e) (repair-IsValid (is_valid (sets w) (active w)) w refl (rw e h))

  -- Where the store answers and there is a set that can be the active one, the active prompt set is
  -- one of the stored sets after seeding.
  pub seeded-IsValid :
      (text : String) (w : W)
      → can_seed (sets w) (active w) (legacy w) text ≡ true
      → is_valid
          (sets (seed_default_prompt_set store text w).1)
          (active (seed_default_prompt_set store text w).1)
        ≡ true
  unfolding seed_default_prompt_set
  seeded-IsValid text w h =
      rw
        (
          try_catch-state (store.read_prompt_sets >>= λ ss. seed_or_repair store ss text) (λ e. tt)
              w,
          c.reads_sets w,
        )
        (seed_or_repair-IsValid (sets w) text w refl h)
