-- ===== src/ErrorBridge/Spaced.antt =====
-- Reports of one key are a window apart, whatever calls and sweeps come between.
use artesca_vss_console.Common.{
  ℕ, ◌+◌, ◌≤◌, String, true, false, none, some, List, [], ◌∷◌, All, ◌≡◌, refl, subst, arith,
  if_rule, leb, ◌==◌, eq_iff, Bool-cases, Option-cases, inl, inr,
}
use artesca_vss_console.Common.Maps.{Map, lookup, insert, lookup-insert}
use artesca_vss_console.ErrorBridge.Distinct.{AreDistinct, insert-AreDistinct, sweep-AreDistinct}
use artesca_vss_console.ErrorBridge.{
  DedupeAction, call, swept, reports, is_recent, should_suppress, sweep,
}

abbrev pub time_of : DedupeAction → ℕ
time_of (call key now) = now
time_of (swept now) = now

-- The times of the actions do not go back.
abbrev pub AreForward : ℕ → List DedupeAction → Type 0
AreForward now [] = Unit
AreForward now (a ∷ actions) = (now ≤ time_of a) × AreForward (time_of a) actions

-- Not before `bound`, where the key is the given one.
abbrev pub NotBefore : String → ℕ → String × ℕ → Type 0
NotBefore key bound r = r.0 ≡ key → bound ≤ r.1

-- Behind each report, the ones of its key come a window later at the earliest.
abbrev pub AreSpaced : ℕ → List (String × ℕ) → Type 0
AreSpaced window [] = Unit
AreSpaced window (r ∷ rs) = All (NotBefore r.0 (r.1 + window)) rs × AreSpaced window rs

module _ (window : ℕ) (key : String) (bound : ℕ) where
  -- Each time that is kept for the key reaches up to the bound, and where none is, the bound is past.
  abbrev Reaches : Map ℕ → Type 0
  Reaches seen = All (λ (e : String × ℕ). e.0 ≡ key → bound ≤ e.1 + window) seen

  abbrev IsGuarded : ℕ → Map ℕ → Type 0
  IsGuarded now seen = Reaches seen × (lookup key seen ≡ none → bound ≤ now)

  Reaches-insert :
      (k : String) (t : ℕ) (seen : Map ℕ)
      → (k ≡ key → bound ≤ t + window)
      → Reaches seen
      → Reaches (insert k t seen)
  unfolding insert
  Reaches-insert k t [] h r = (h, tt)
  Reaches-insert k t ((j, u) ∷ seen) h r =
      if_rule Reaches (j == k) (λ _. (h, r.1)) (λ _. (r.0, Reaches-insert k t seen h r.1))

  Reaches-sweep : (now : ℕ) (seen : Map ℕ) → Reaches seen → Reaches (sweep window now seen)
  unfolding sweep
  Reaches-sweep now [] r = tt
  Reaches-sweep now ((j, u) ∷ seen) r =
      if_rule Reaches (leb (u + window) now) (λ _. Reaches-sweep now seen r.1)
        (λ _. (r.0, Reaches-sweep now seen r.1))

  gone-sweep :
      (now later : ℕ) (seen : Map ℕ)
      → now ≤ later
      → Reaches seen
      → (lookup key seen ≡ none → bound ≤ now)
      → lookup key (sweep window later seen) ≡ none
      → bound ≤ later
  unfolding sweep lookup
  gone-sweep now later [] le r g e = let b : bound ≤ now = g refl in omega (arith, b, le)
  gone-sweep now later ((j, u) ∷ seen) le r g e = elim (Bool-cases (leb (u + window) later)) [
    | inl old ↦
        let rest : lookup key (sweep window later seen) ≡ none = rw old at e in
        elim (Bool-cases (j == key)) [
          | inl same ↦
              let b : bound ≤ u + window = r.0 ((eq_iff j key).0 same) in ground (arith, b, old)
          | inr other ↦ gone-sweep now later seen le r.1 (λ z. g (rw other z)) rest
        ]
    | inr fresh ↦
        let kept : lookup key ((j, u) ∷ sweep window later seen) ≡ none = rw fresh at e in
        elim (Bool-cases (j == key)) [
          | inl same ↦ let wrong : some u ≡ none = rw same at kept in cc
          | inr other ↦ gone-sweep now later seen le r.1 (λ z. g (rw other z)) (rw other at kept)
        ]
  ]

  Reaches-lookup :
      (seen : Map ℕ) (t : ℕ) → Reaches seen → lookup key seen ≡ some t → bound ≤ t + window
  unfolding lookup
  Reaches-lookup [] t r e = cc
  Reaches-lookup ((j, u) ∷ seen) t r e = elim (Bool-cases (j == key)) [
    | inl same ↦
        let b : bound ≤ u + window = r.0 ((eq_iff j key).0 same) in
        let k : u ≡ t = ground (arith, e) in omega (arith, b, k)
    | inr other ↦ Reaches-lookup seen t r.1 (ground (arith, e))
  ]

  due :
      (now later : ℕ) (seen : Map ℕ)
      → now ≤ later
      → IsGuarded now seen
      → is_recent window later (lookup key seen) ≡ false
      → bound ≤ later
  due now later seen le (r, g) e = elim (Option-cases (lookup key seen)) [
    | inl absent ↦ let b : bound ≤ now = g absent in omega (arith, b, le)
    | inr (t, found) ↦
        let b : bound ≤ t + window = Reaches-lookup seen t r found in
        let late : is_recent window later (some t) ≡ false = rw found at e in
        ground (arith, b, late)
  ]

  reports-NotBefore :
      (now : ℕ) (seen : Map ℕ) (actions : List DedupeAction)
      → AreForward now actions
      → IsGuarded now seen
      → All (NotBefore key bound) (reports window seen actions)
  unfolding reports should_suppress
  reports-NotBefore now seen [] forward guarded = tt
  reports-NotBefore now seen (call k n ∷ actions) (le, forward) (r, g) =
      elim (Bool-cases (is_recent window n (lookup k seen))) [
        | inl recent ↦ rw recent (
            reports-NotBefore n seen actions forward
              (r, λ z. let b : bound ≤ now = g z in omega (arith, b, le)))
        | inr old ↦
            let first : k ≡ key → bound ≤ n = λ e.
              due now n seen le (r, g)
                (subst (λ i. is_recent window n (lookup i seen) ≡ false) e old) in
            rw old (
              first,
              reports-NotBefore n (insert k n seen) actions forward (
                Reaches-insert k n seen (λ e. let b : bound ≤ n = first e in omega (arith, b)) r,
                λ z. elim (Bool-cases (k == key)) [
                  | inl same ↦ first ((eq_iff k key).0 same)
                  | inr other ↦
                      let none_before : lookup key seen ≡ none =
                        ground (arith, z, other, lookup-insert k key n seen) in
                      let b : bound ≤ now = g none_before in omega (arith, b, le)
                ],
              ),
            )
      ]
  reports-NotBefore now seen (swept n ∷ actions) (le, forward) (r, g) =
      reports-NotBefore n (sweep window n seen) actions forward
        (Reaches-sweep n seen r, gone-sweep now n seen le r g)

absent-Reaches :
    (window : ℕ) (k : String) (bound : ℕ) (seen : Map ℕ)
    → lookup k seen ≡ none
    → Reaches window k bound seen
unfolding lookup
absent-Reaches window k bound [] e = tt
absent-Reaches window k bound ((j, u) ∷ seen) e = elim (Bool-cases (j == k)) [
  | inl same ↦ let wrong : some u ≡ none = rw same at e in cc
  | inr other ↦ (
    λ f. let same : (j == k) ≡ true = (eq_iff j k).1 f in cc,
    absent-Reaches window k bound seen (rw other at e),
  )
]

insert-Reaches :
    (window : ℕ) (k : String) (n : ℕ) (seen : Map ℕ)
    → AreDistinct seen
    → Reaches window k (n + window) (insert k n seen)
unfolding insert
insert-Reaches window k n [] d = (λ _. omega arith, tt)
insert-Reaches window k n ((j, u) ∷ seen) d = elim (Bool-cases (j == k)) [
  | inl same ↦ rw same (
    λ _. omega arith,
    absent-Reaches window k (n + window) seen
        (subst (λ i. lookup i seen ≡ none) ((eq_iff j k).0 same) d.0),
  )
  | inr other ↦
      rw other (
        λ f. let same : (j == k) ≡ true = (eq_iff j k).1 f in cc,
        insert-Reaches window k n seen d.1,
      )
]

-- Whatever calls and sweeps are made, at times that do not go back and from a memory in which no key
-- stands twice, two calls for one key that are not suppressed are at least a window apart.
pub reports-AreSpaced :
    (window now : ℕ) (seen : Map ℕ) (actions : List DedupeAction)
    → AreDistinct seen
    → AreForward now actions
    → AreSpaced window (reports window seen actions)
unfolding reports should_suppress
reports-AreSpaced window now seen [] d forward = tt
reports-AreSpaced window now seen (call k n ∷ actions) d (le, forward) =
    elim (Bool-cases (is_recent window n (lookup k seen))) [
      | inl recent ↦ rw recent (reports-AreSpaced window n seen actions d forward)
      | inr old ↦ rw old (
        reports-NotBefore window k (n + window) n (insert k n seen) actions forward (
          insert-Reaches window k n seen d,
          λ z. ground (arith, z, lookup-insert k k n seen, eq_iff k k),
        ),
        reports-AreSpaced window n (insert k n seen) actions (insert-AreDistinct k n seen d)
            forward,
      )
    ]
reports-AreSpaced window now seen (swept n ∷ actions) d (le, forward) =
    reports-AreSpaced window n (sweep window n seen) actions (sweep-AreDistinct window n seen d)
      forward
