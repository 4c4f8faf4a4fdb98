-- ===== src/Footage/Names.antt =====
-- The names of a clip: its file name made safe, its camera and its stream (src/lib/test-footage.ts).
pub mod Safe
pub mod Tests
use Prim.Native.Char.{Char, code}
use Prim.Native.String.{◌++◌ as text_append}
use artesca_vss_console.Common.{
  ℕ, zero, suc, ◌-◌, String, Bool, true, false, not, ◌&&◌, ◌||◌, List, [], ◌∷◌, Try, value, thrown,
  if◌then◌else◌, leb, eqb, ◌==◌, includes,
}
use artesca_vss_console.Common.Texts.{take_chars, any_char, starts_with, join}

pub data PlaybackMode : Type 0 where
  loop once : PlaybackMode

abbrev pub is_dot : Char → Bool
is_dot c = eqb (code c) 46

abbrev pub is_dash : Char → Bool
is_dash c = eqb (code c) 45

-- `[a-z0-9]`
abbrev pub is_slug_char : Char → Bool
is_slug_char c = leb 97 (code c) && leb (code c) 122 || leb 48 (code c) && leb (code c) 57

-- A slash of either kind.
abbrev is_separator : Char → Bool
is_separator c = eqb (code c) 47 || eqb (code c) 92

-- The last part of a path.
pub base_name : String → String
base_name String.[] = ""
base_name (String.◌∷◌ c s) =
    let rest = base_name s in
    if is_separator c || any_char is_separator s then rest else String.◌∷◌ c s

-- From the last dot on, and what stands in front of it.
pub from_dot : String → String
from_dot String.[] = ""
from_dot (String.◌∷◌ c s) =
    let rest = from_dot s in
    if any_char is_dot s then rest else if is_dot c then String.◌∷◌ c s else ""

pub to_dot : String → String
to_dot String.[] = ""
to_dot (String.◌∷◌ c s) =
    let rest = to_dot s in if is_dot c && not (any_char is_dot s) then "" else String.◌∷◌ c rest

-- The text of the one character at a place.
char_at : ℕ → String → String
char_at n String.[] = ""
char_at zero (String.◌∷◌ c s) = String.◌∷◌ c ""
char_at (suc n) (String.◌∷◌ c s) = char_at n s

-- `toLowerCase` of a character: the letters A to Z, and the two others that have an ASCII letter in
-- their lower case. No other character has, and it is left as it is.
lower_char : Char → String
unfolding char_at
lower_char c =
    if leb 65 (code c) && leb (code c) 90
    then char_at (code c - 65) "abcdefghijklmnopqrstuvwxyz"
    else if eqb (code c) 8490
    then "k"
    else if eqb (code c) 304
    then "i̇"
    else String.◌∷◌ c ""

pub lower : String → String
lower String.[] = ""
lower (String.◌∷◌ c s) = text_append (lower_char c) (lower s)

abbrev pub starts_dash : String → Bool
starts_dash String.[] = false
starts_dash (String.◌∷◌ c s) = is_dash c

abbrev pub put_dash : String → String
put_dash rest = if starts_dash rest then rest else String.◌∷◌ "-" rest

-- `replace(/[^a-z0-9]+/g, "-")`: one dash for a run of other characters.
pub dash_runs : String → String
dash_runs String.[] = ""
dash_runs (String.◌∷◌ c s) =
    let rest = dash_runs s in if is_slug_char c then String.◌∷◌ c rest else put_dash rest

-- `replace(/^-+|-+$/g, "")`
pub drop_dashes : String → String
drop_dashes String.[] = ""
drop_dashes (String.◌∷◌ c s) =
    let rest = drop_dashes s in if is_dash c then rest else String.◌∷◌ c s

pub drop_end_dashes : String → String
drop_end_dashes String.[] = ""
drop_end_dashes (String.◌∷◌ c s) =
    let rest = drop_end_dashes s in if is_dash c && rest == "" then "" else String.◌∷◌ c rest

pub slug_of : String → String
slug_of stem = take_chars 64 (drop_end_dashes (drop_dashes (dash_runs (lower stem))))

abbrev pub allowed_extensions : List String
allowed_extensions = ".mp4" ∷ ".ts" ∷ ".mkv" ∷ ".mov" ∷ ".webm" ∷ []

-- The stem and the extension; a dot at the very front starts no extension.
pub divided : String → String × String
divided base =
    if to_dot base == "" || not (any_char is_dot base)
    then (base, "")
    else (to_dot base, lower (from_dot base))

abbrev unsupported : String → String
unsupported shown =
    text_append (text_append (text_append "unsupported video format \"" shown) "\" — use one of ")
      (join ", " allowed_extensions)

abbrev unusable : String → String
unusable raw = text_append (text_append "filename \"" raw) "\" has no usable characters"

abbrev pub with_slug : String → String → String → Try String
with_slug raw slug ext = if slug == "" then thrown (unusable raw) else value (text_append slug ext)

abbrev pub checked_name : String → String → String × String → Try String
checked_name raw base (stem, ext) =
    if includes allowed_extensions ext
    then with_slug raw (slug_of stem) ext
    else thrown (unsupported (if ext == "" then base else ext))

-- The error's status, 400, is left out.
pub sanitise_filename : String → Try String
sanitise_filename raw = checked_name raw (base_name raw) (divided (base_name raw))

-- Is the rest of the text after a dot a last extension, `[^.]+$`?
abbrev is_last_part : String → Bool
is_last_part s = not (s == "" || any_char is_dot s)

-- `replace(/\.[^.]+$/, "")`
pub without_extension : String → String
without_extension String.[] = ""
without_extension (String.◌∷◌ c s) =
    let rest = without_extension s in if is_dot c && is_last_part s then "" else String.◌∷◌ c rest

pub footage_camera_id : String → String
footage_camera_id file_name = take_chars 32 (text_append "test-" (without_extension file_name))

abbrev pub mode_text : PlaybackMode → String
mode_text loop = "loop"
mode_text once = "once"

-- The replay server's host and port are settings of the deployment.
pub footage_rtsp_url : String → String → String → PlaybackMode → String
footage_rtsp_url host port file_name mode = text_append "rtsp://" (
    text_append host (
      text_append ":" (
        text_append port
          (text_append "/" (text_append (mode_text mode) (text_append "/" file_name))))))

pub is_footage_camera : String → Bool
is_footage_camera id = starts_with "test-" id
