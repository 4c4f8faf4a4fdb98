-- ===== src/Footage/Names/Safe.antt =====
-- What the names of a clip are: safe in a path and in a URL, and recognised as a test camera's.
use Prim.Native.Char.{Char}
use Prim.Native.String.{◌++◌ as text_append}
use Prim.Native.String.append
use artesca_vss_console.Common.{
  ◌≤◌, String, Bool, true, false, ◌&&◌, ◌||◌, value, thrown, ◌≡◌, refl, arith, if_rule, ◌==◌,
  includes, Bool-cases, inl, inr,
}
use artesca_vss_console.Common.Texts.{take_chars, all_chars, text_length, starts_with}
use artesca_vss_console.Common.Texts.Lemmas.{
  cons-all_chars, tail-all_chars, take_chars-all_chars, text_length-take_chars,
}
use artesca_vss_console.Footage.Names.{
  is_dash, is_slug_char, starts_dash, put_dash, dash_runs, drop_dashes, drop_end_dashes, slug_of,
  allowed_extensions, with_slug, checked_name, divided, base_name, sanitise_filename,
  footage_camera_id, is_footage_camera, lower,
}

-- `[a-z0-9-]`
abbrev pub is_plain : Char → Bool
is_plain c = is_slug_char c || is_dash c

abbrev IsPlain : String → Type 0
IsPlain s = all_chars is_plain s ≡ true

cons-IsPlain : (c : Char) (s : String) → is_plain c ≡ true → IsPlain s → IsPlain (String.◌∷◌ c s)
cons-IsPlain = cons-all_chars is_plain

put_dash-IsPlain : (s : String) → IsPlain s → IsPlain (put_dash s)
put_dash-IsPlain s h = if_rule IsPlain (starts_dash s) (λ _. h) (λ _. cons-IsPlain "-" s refl h)

dash_runs-IsPlain : (s : String) → IsPlain (dash_runs s)
unfolding dash_runs
dash_runs-IsPlain String.[] = refl
dash_runs-IsPlain (String.◌∷◌ c s) =
    if_rule IsPlain (is_slug_char c)
      (λ e. cons-IsPlain c (dash_runs s) (ground arith) (dash_runs-IsPlain s))
      (λ _. put_dash-IsPlain (dash_runs s) (dash_runs-IsPlain s))

drop_dashes-IsPlain : (s : String) → IsPlain s → IsPlain (drop_dashes s)
unfolding drop_dashes
drop_dashes-IsPlain String.[] h = refl
drop_dashes-IsPlain (String.◌∷◌ c s) h =
    if_rule IsPlain (is_dash c) (λ _. drop_dashes-IsPlain s (tail-all_chars is_plain c s h).1)
      (λ _. h)

drop_end_dashes-IsPlain : (s : String) → IsPlain s → IsPlain (drop_end_dashes s)
unfolding drop_end_dashes
drop_end_dashes-IsPlain String.[] h = refl
drop_end_dashes-IsPlain (String.◌∷◌ c s) h =
    if_rule IsPlain (is_dash c && drop_end_dashes s == "") (λ _. refl)
      (λ _.
        cons-IsPlain c (drop_end_dashes s) (tail-all_chars is_plain c s h).0
          (drop_end_dashes-IsPlain s (tail-all_chars is_plain c s h).1))

slug_of-IsPlain : (s : String) → IsPlain (slug_of s)
unfolding slug_of
slug_of-IsPlain s =
    take_chars-all_chars is_plain 64 _
      (drop_end_dashes-IsPlain _ (drop_dashes-IsPlain _ (dash_runs-IsPlain (lower s))))

slug_of-length : (s : String) → text_length (slug_of s) ≤ 64
unfolding slug_of
slug_of-length s = text_length-take_chars 64 _

-- The parts of a safe name.
abbrev pub IsSafe : String → Type 0
IsSafe name =
    (slug : String) × (extension : String) × (name ≡ text_append slug extension)
    × ((slug == "") ≡ false)
    × (all_chars is_plain slug ≡ true)
    × (text_length slug ≤ 64)
    × (includes allowed_extensions extension ≡ true)

checked_name-IsSafe :
    (raw base name : String) (parts : String × String)
    → checked_name raw base parts ≡ value name
    → IsSafe name
checked_name-IsSafe raw base name (stem, ext) e =
    elim (Bool-cases (includes allowed_extensions ext)) [
      | inl allowed ↦
          let kept : with_slug raw (slug_of stem) ext ≡ value name = rw allowed at e in
          elim (Bool-cases (slug_of stem == "")) [
            | inl empty ↦ (let gone : thrown _ ≡ value name = rw empty at kept in cc)
            | inr some ↦ (
              slug_of stem,
              ext,
              (let same : value (text_append (slug_of stem) ext) ≡ value name = rw some at kept in
                  cc),
              some,
              slug_of-IsPlain stem,
              slug_of-length stem,
              allowed,
            )
          ]
      | inr refused ↦ (let gone : thrown _ ≡ value name = rw refused at e in cc)
    ]

-- A file name that is accepted is a text of at most 64 small letters, digits and dashes, which is not
-- empty, followed by one of the extensions.
pub sanitise_filename-IsSafe :
    (raw name : String) → sanitise_filename raw ≡ value name → IsSafe name
unfolding sanitise_filename
sanitise_filename-IsSafe raw name e =
    checked_name-IsSafe raw (base_name raw) name (divided (base_name raw)) e

test-starts : (s : String) → starts_with "test-" (take_chars 32 (text_append "test-" s)) ≡ true
unfolding starts_with take_chars
test-starts s =
    rw
      (
        append.cons "t" "est-" s,
        append.cons "e" "st-" s,
        append.cons "s" "t-" s,
        append.cons "t" "-" s,
        append.cons "-" "" s,
      )
      refl

-- The camera of a clip is recognised as a test camera, and its name has at most 32 characters.
pub footage_camera_id-recognised :
    (file_name : String)
    → (is_footage_camera (footage_camera_id file_name) ≡ true)
      × (text_length (footage_camera_id file_name) ≤ 32)
unfolding is_footage_camera footage_camera_id
footage_camera_id-recognised file_name = (test-starts _, text_length-take_chars 32 _)
