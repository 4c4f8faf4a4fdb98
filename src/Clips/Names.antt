-- ===== src/Clips/Names.antt =====
-- What a name in the cache is made of.
use Prim.Native.Char.{Char, code}
use artesca_vss_console.Common.{ℕ, ◌≤◌, ◌<◌, ◌+◌, String, true, ◌≡◌, refl, arith, if_rule, ltb}
use artesca_vss_console.Common.Texts.{all_chars, text_length}
use artesca_vss_console.Common.Texts.Lemmas.{
  cons-all_chars, take_chars-all_chars, text_length-take_chars,
}
use artesca_vss_console.Clips.{is_allowed, replaced, cleaned, sanitize, round_ms}

abbrev IsClean : String → Type 0
IsClean s = all_chars is_allowed s ≡ true

replaced-IsClean : (c : Char) (s : String) → IsClean s → IsClean (replaced c s)
replaced-IsClean c s h =
    if_rule IsClean (is_allowed c) (λ e. cons-all_chars is_allowed c s e h)
      (λ _. if_rule IsClean (ltb 65535 (code c)) (λ _. h) (λ _. h))

cleaned-IsClean : (s : String) → IsClean (cleaned s)
unfolding cleaned
cleaned-IsClean String.[] = refl
cleaned-IsClean (String.◌∷◌ c s) = replaced-IsClean c (cleaned s) (cleaned-IsClean s)

-- A part of a name has at most 128 characters, each a letter, a digit or one of `_`, `-`, `:`, `.`
-- and `+`.
pub sanitize-IsClean :
    (s : String) → (all_chars is_allowed (sanitize s) ≡ true) × (text_length (sanitize s) ≤ 128)
unfolding sanitize
sanitize-IsClean s = (
  take_chars-all_chars is_allowed 128 (cleaned s) (cleaned-IsClean s),
  text_length-take_chars 128 _,
)

-- A rounded time is at most five seconds away.
pub round_ms-near : (ms : ℕ) → (round_ms ms ≤ ms + 5000) × (ms < round_ms ms + 5000)
unfolding round_ms
round_ms-near ms = (omega arith, omega arith)
