-- ===== src/Common/Maps.antt =====
-- A `Map` keyed by text, as an association list in the order of insertion.
use Prim.Native.String.{String}
use mathlib.Core.Path.{◌≡◌, refl, subst}
use mathlib.Core.Bool.{Bool, true, false, ◌||◌}
use mathlib.Core.Logic.{inl, inr}
use mathlib.Core.Option.{Option, none, some}
use mathlib.Core.List.{List, [], ◌∷◌, map}
use native.Mathlib.Omega.{arith}
use text.Mathlib.Text.{◌==◌}
use text.Mathlib.TextEquality.{eq_iff}
use artesca_vss_console.Common.Tests.{if◌then◌else◌, Bool-cases, is_some}
use artesca_vss_console.Common.Lists.{includes}

abbrev pub Map {ℓ} : Type ℓ → Type ℓ
Map V = List (String × V)

module _ {ℓ} {V : Type ℓ} where
  -- `get`
  unfoldable pub lookup : String → Map V → Option V
  lookup wanted [] = none
  lookup wanted ((key, kept) ∷ others) =
      let found = lookup wanted others in if key == wanted then some kept else found

  -- `set`: an existing key keeps its place, a new one goes to the end.
  unfoldable pub insert : String → V → Map V → Map V
  insert key new [] = (key, new) ∷ []
  insert key new ((other, kept) ∷ others) =
      let rest = insert key new others in
      if other == key then (key, new) ∷ others else (other, kept) ∷ rest

  -- `delete`
  unfoldable pub delete : String → Map V → Map V
  delete key [] = []
  delete key ((other, kept) ∷ others) =
      let rest = delete key others in if other == key then rest else (other, kept) ∷ rest

  -- `new Map(pairs)`: the last value of a key wins.
  insert_all : Map V → List (String × V) → Map V
  insert_all m [] = m
  insert_all m ((k, v) ∷ ps) = insert_all (insert k v m) ps

  unfoldable pub of_pairs : List (String × V) → Map V
  unfolding insert_all insert
  of_pairs ps = insert_all [] ps

  abbrev pub values : Map V → List V
  values [] = []
  values ((k, v) ∷ m) = v ∷ values m

  pub lookup-insert :
      (key wanted : String) (new : V) (entries : Map V)
      → lookup wanted (insert key new entries)
        ≡ (if key == wanted then some new else lookup wanted entries)
  unfolding lookup insert
  lookup-insert key wanted new [] = refl
  lookup-insert key wanted new ((other, kept) ∷ others) = ground (
    arith,
    lookup-insert key wanted new others,
    eq_iff key wanted,
    eq_iff other wanted,
    eq_iff other key,
  )

  pub lookup-delete :
      (k j : String) (m : Map V) → lookup j (delete k m) ≡ (if k == j then none else lookup j m)
  unfolding lookup delete
  lookup-delete k j [] = ground arith
  lookup-delete k j ((i, w) ∷ m) =
      ground (arith, eq_iff k j, eq_iff i k, eq_iff i j, lookup-delete k j m)

  insert_all-has :
      (k : String) (m : Map V) (ps : List (String × V))
      → is_some (lookup k (insert_all m ps))
        ≡ (is_some (lookup k m) || includes (map (λ p. p.0) ps) k)
  unfolding insert_all
  insert_all-has k m [] = ground arith
  insert_all-has k m ((j, v) ∷ ps) =
      ground (arith, insert_all-has k (insert j v m) ps, lookup-insert j k v m)

  -- A map made of pairs has the keys of the pairs.
  pub of_pairs-has :
      (k : String) (ps : List (String × V))
      → is_some (lookup k (of_pairs ps)) ≡ includes (map (λ p. p.0) ps) k
  unfolding of_pairs lookup
  of_pairs-has k ps = insert_all-has k [] ps

-- Every value of the map has the property.
module _ {ℓ κ} {V : Type ℓ} (P : V → Type κ) where
  abbrev pub Each : Map V → Type κ
  Each [] = Unit
  Each ((k, v) ∷ m) = P v × Each m

  Each-if : (b : Bool) (m n : Map V) → Each m → Each n → Each (if b then m else n)
  Each-if true m n h k = h
  Each-if false m n h k = k

  pub Each-insert : (k : String) (v : V) (m : Map V) → P v → Each m → Each (insert k v m)
  unfolding insert
  Each-insert k v [] p h = (p, tt)
  Each-insert k v ((j, w) ∷ m) p (q, h) =
      Each-if (j == k) ((k, v) ∷ m) ((j, w) ∷ insert k v m) (p, h) (q, Each-insert k v m p h)

  pub Each-delete : (k : String) (m : Map V) → Each m → Each (delete k m)
  unfolding delete
  Each-delete k [] h = tt
  Each-delete k ((j, w) ∷ m) (q, h) =
      Each-if (j == k) (delete k m) ((j, w) ∷ delete k m) (Each-delete k m h) (q, Each-delete k m h)

  pub Each-lookup : (k : String) (v : V) (m : Map V) → lookup k m ≡ some v → Each m → P v
  unfolding lookup
  Each-lookup k v [] e h = cc
  Each-lookup k v ((j, w) ∷ m) e (q, h) = elim (Bool-cases (j == k)) [
    | inl same ↦ let here : w ≡ v = ground arith in subst P here q
    | inr other ↦ Each-lookup k v m (ground arith) h
  ]
