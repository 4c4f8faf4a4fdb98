-- ===== src/ErrorBridge/Distinct.antt =====
-- A memory in which no key stands twice stays one.
use artesca_vss_console.Common.{
  ℕ, ◌+◌, String, none, some, [], ◌∷◌, ◌≡◌, refl, subst, arith, if_rule, leb, ◌==◌, eq_iff,
  Bool-cases, inl, inr,
}
use artesca_vss_console.Common.Maps.{Map, lookup, insert, lookup-insert}
use artesca_vss_console.ErrorBridge.{sweep}

-- No key stands twice.
abbrev pub AreDistinct : Map ℕ → Type 0
AreDistinct [] = Unit
AreDistinct ((j, u) ∷ seen) = (lookup j seen ≡ none) × AreDistinct seen

pub insert-AreDistinct :
    (k : String) (t : ℕ) (seen : Map ℕ) → AreDistinct seen → AreDistinct (insert k t seen)
unfolding insert lookup
insert-AreDistinct k t [] d = (refl, tt)
insert-AreDistinct k t ((j, u) ∷ seen) d = elim (Bool-cases (j == k)) [
  | inl same ↦ rw same (subst (λ i. lookup i seen ≡ none) ((eq_iff j k).0 same) d.0, d.1)
  | inr other ↦ rw other (
    ground (arith, other, lookup-insert k j t seen, d.0, eq_iff k j, eq_iff j k),
    insert-AreDistinct k t seen d.1,
  )
]

lookup-sweep :
    (window now : ℕ) (k : String) (seen : Map ℕ)
    → lookup k seen ≡ none
    → lookup k (sweep window now seen) ≡ none
unfolding lookup sweep
lookup-sweep window now k [] e = refl
lookup-sweep window now k ((j, u) ∷ seen) e = elim (Bool-cases (j == k)) [
  | inl same ↦ let wrong : some u ≡ none = rw same at e in cc
  | inr other ↦ ground (arith, other, lookup-sweep window now k seen (rw other at e))
]

pub sweep-AreDistinct :
    (window now : ℕ) (seen : Map ℕ) → AreDistinct seen → AreDistinct (sweep window now seen)
unfolding sweep
sweep-AreDistinct window now [] d = tt
sweep-AreDistinct window now ((j, u) ∷ seen) d =
    if_rule AreDistinct (leb (u + window) now) (λ _. sweep-AreDistinct window now seen d.1)
      (λ _. (lookup-sweep window now j seen d.0, sweep-AreDistinct window now seen d.1))
