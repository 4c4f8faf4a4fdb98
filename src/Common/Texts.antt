-- ===== src/Common/Texts.antt =====
-- Texts as JavaScript builds them: cut, split, joined, and numbers written out.
pub mod Lemmas
use Prim.Native.Nat.{ℕ, zero, suc, ◌/◌, ◌%◌}
use Prim.Native.Char.{Char, code}
use Prim.Native.String.{String, ◌++◌}
use mathlib.Core.Bool.{Bool, true, false}
use mathlib.Core.List.{List, [], ◌∷◌}
use artesca_vss_console.Common.Tests.{if◌then◌else◌, eqb, ltb}

-- The first `n` characters, each of which is one code unit.
unfoldable pub take_chars : ℕ → String → String
take_chars zero s = ""
take_chars (suc n) String.[] = ""
take_chars (suc n) (String.◌∷◌ c s) = String.◌∷◌ c (take_chars n s)

-- `startsWith`
unfoldable pub starts_with : String → String → Bool
starts_with String.[] s = true
starts_with (String.◌∷◌ p ps) String.[] = false
starts_with (String.◌∷◌ p ps) (String.◌∷◌ c s) =
    let rest = starts_with ps s in if eqb (code p) (code c) then rest else false

-- Has a character of the text the property? Has every one?
abbrev pub any_char : (Char → Bool) → String → Bool
any_char p String.[] = false
any_char p (String.◌∷◌ c s) = let rest = any_char p s in if p c then true else rest

abbrev pub all_chars : (Char → Bool) → String → Bool
all_chars p String.[] = true
all_chars p (String.◌∷◌ c s) = let rest = all_chars p s in if p c then rest else false

-- `length` of a text whose characters are one code unit each.
abbrev pub text_length : String → ℕ
text_length String.[] = 0
text_length (String.◌∷◌ c s) = suc (text_length s)

-- The text in front of the first part of a split.
abbrev pub prefix_first : Char → List String → List String
prefix_first c [] = (String.◌∷◌ c "") ∷ []
prefix_first c (s ∷ ss) = (String.◌∷◌ c s) ∷ ss

-- `split(",")`, at the character with the code `sep`.
unfoldable pub split : ℕ → String → List String
split sep String.[] = "" ∷ []
split sep (String.◌∷◌ c s) =
    let rest = split sep s in if eqb (code c) sep then "" ∷ rest else prefix_first c rest

-- `join(sep)`
unfoldable pub join : String → List String → String
join sep [] = ""
join sep (s ∷ []) = s
join sep (s ∷ t ∷ ss) = s ++ sep ++ join sep (t ∷ ss)

abbrev digit : ℕ → String
digit n =
    if eqb n 0
    then "0"
    else if eqb n 1
    then "1"
    else if eqb n 2
    then "2"
    else if eqb n 3
    then "3"
    else if eqb n 4
    then "4"
    else if eqb n 5
    then "5"
    else if eqb n 6
    then "6"
    else if eqb n 7
    then "7"
    else if eqb n 8
    then "8"
    else "9"

-- A number below ten to the power `fuel`, in decimal.
decimal : ℕ → ℕ → String
decimal zero n = digit n
decimal (suc fuel) n =
    let front = decimal fuel (n / 10) in if ltb n 10 then digit n else front ++ digit (n % 10)

-- `String(n)` of a natural number; as many digits as the number is large are enough.
unfoldable pub show_nat : ℕ → String
unfolding decimal
show_nat n = decimal n n
