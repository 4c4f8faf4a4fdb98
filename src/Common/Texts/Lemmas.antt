-- ===== src/Common/Texts/Lemmas.antt =====
-- The characters and the length of a text that is cut.
use Prim.Native.Char.{Char}
use Prim.Native.String.{String}
use Prim.Native.Nat.{ℕ, zero, suc, ◌≤◌}
use mathlib.Core.Path.{◌≡◌, refl}
use mathlib.Core.Bool.{Bool, true}
use mathlib.Core.Logic.{inl, inr}
use native.Mathlib.Omega.{arith}
use artesca_vss_console.Common.Tests.{Bool-cases}
use artesca_vss_console.Common.Texts.{take_chars, all_chars, text_length}

module _ (p : Char → Bool) where
  pub cons-all_chars :
      (c : Char) (s : String)
      → p c ≡ true
      → all_chars p s ≡ true
      → all_chars p (String.◌∷◌ c s) ≡ true
  cons-all_chars c s e h = rw e h

  pub tail-all_chars :
      (c : Char) (s : String)
      → all_chars p (String.◌∷◌ c s) ≡ true
      → (p c ≡ true) × (all_chars p s ≡ true)
  tail-all_chars c s h = elim (Bool-cases (p c)) [
    | inl e ↦ (e, ground arith)
    | inr e ↦ ground arith
  ]

  pub take_chars-all_chars :
      (n : ℕ) (s : String) → all_chars p s ≡ true → all_chars p (take_chars n s) ≡ true
  unfolding take_chars
  take_chars-all_chars zero s h = refl
  take_chars-all_chars (suc n) String.[] h = refl
  take_chars-all_chars (suc n) (String.◌∷◌ c s) h =
      cons-all_chars c (take_chars n s) (tail-all_chars c s h).0
        (take_chars-all_chars n s (tail-all_chars c s h).1)

pub text_length-take_chars : (n : ℕ) (s : String) → text_length (take_chars n s) ≤ n
unfolding take_chars
text_length-take_chars zero s = omega arith
text_length-take_chars (suc n) String.[] = omega arith
text_length-take_chars (suc n) (String.◌∷◌ c s) = omega (arith, text_length-take_chars n s)
