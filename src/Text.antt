-- ===== src/Text.antt =====
-- The methods of Rust's `str` that the router uses, over the native texts. A text here is the
-- sequence of its Unicode scalar values; lengths are not observed.
pub mod Laws
use Prim.Native.Char.{Char, code}
use Prim.Native.String
use Prim.Native.String.{char_at, len, find}
use text.Mathlib.Text.{starts_with as text_starts_with}
use kou_router.Prelude.{
  ℕ, zero, suc, ◌+◌, ◌-◌, ◌*◌, ◌^◌, String, Bool, true, false, ◌&&◌, ◌||◌, Option, none, some, List,
  [], ◌∷◌, leb, ltb, ◌==◌, str_eq, if◌then◌else◌, and_then, zero, unwrap_or,
}

abbrev pub in_range : ℕ → ℕ → ℕ → Bool
in_range lo hi n = leb lo n && leb n hi

-- `char::to_ascii_lowercase`.
unfoldable pub lower_char : Char → Char
lower_char c =
    if in_range 65 90 (code c) then char_at "abcdefghijklmnopqrstuvwxyz" (code c - 65) else c

-- `str::to_ascii_lowercase`.
unfoldable pub to_ascii_lowercase : String → String
unfolding lower_char
to_ascii_lowercase String.[] = ""
to_ascii_lowercase (String.◌∷◌ c s) = String.◌∷◌ (lower_char c) (to_ascii_lowercase s)

-- `str::eq_ignore_ascii_case`.
unfoldable pub eq_ignore_ascii_case : String → String → Bool
unfolding to_ascii_lowercase
eq_ignore_ascii_case s t = str_eq (to_ascii_lowercase s) (to_ascii_lowercase t)

-- `str::contains`.
unfoldable pub contains : String → String → Bool
contains s t = leb (find s t) (len s)

-- `str::starts_with`.
unfoldable pub starts_with : String → String → Bool
starts_with s t = text_starts_with s t

abbrev pub is_empty_text : String → Bool
is_empty_text String.[] = true
is_empty_text (String.◌∷◌ c s) = false

-- `char::is_whitespace`: the property White_Space of Unicode.
unfoldable pub is_whitespace : Char → Bool
is_whitespace c =
    let n = code c in
    in_range 9 13 n
    || n == 32
    || n == 133
    || n == 160
    || n == 5760
    || in_range 8192 8202 n
    || n == 8232
    || n == 8233
    || n == 8239
    || n == 8287
    || n == 12288

unfoldable pub trim_start : String → String
unfolding is_whitespace
trim_start String.[] = ""
trim_start (String.◌∷◌ c s) = if is_whitespace c then trim_start s else String.◌∷◌ c s

-- Drops the longest suffix of characters that satisfy `p`: `str::trim_end_matches`.
unfoldable pub trim_end_matches : (Char → Bool) → String → String
trim_end_matches p String.[] = ""
trim_end_matches p (String.◌∷◌ c s) =
    let rest = trim_end_matches p s in if is_empty_text rest && p c then "" else String.◌∷◌ c rest

-- `str::trim`.
unfoldable pub trim : String → String
unfolding trim_start trim_end_matches
trim s = trim_end_matches is_whitespace (trim_start s)

-- The value of a digit.
abbrev pub digit : Char → Option ℕ
digit c = if in_range 48 57 (code c) then some (code c - 48) else none

-- The value of a sequence of decimal digits, with those read so far.
unfoldable pub digits_value : String → ℕ → Option ℕ
digits_value String.[] acc = some acc
digits_value (String.◌∷◌ c s) acc = elim (digit c) [
  | none ↦ none
  | some d ↦ digits_value s (acc * 10 + d)
]

-- A sequence of at least one digit.
unfoldable pub parse_digits : String → Option ℕ
unfolding digits_value
parse_digits String.[] = none
parse_digits (String.◌∷◌ c s) = digits_value (String.◌∷◌ c s) 0

abbrev pub at_most : ℕ → Option ℕ → Option ℕ
at_most limit o = and_then o (λ n. if leb n limit then some n else none)

-- `str::parse::<u64>`: an optional plus sign and digits, no overflow.
unfoldable pub parse_u64 : String → Option ℕ
unfolding parse_digits
parse_u64 String.[] = none
parse_u64 (String.◌∷◌ c s) =
    at_most (2 ^ 64 - 1) (if code c == b'+' then parse_digits s else parse_digits (String.◌∷◌ c s))

-- `str::strip_suffix` at one character.
unfoldable pub strip_suffix_char : ℕ → String → Option String
strip_suffix_char k String.[] = none
strip_suffix_char k (String.◌∷◌ c String.[]) = if code c == k then some "" else none
strip_suffix_char k (String.◌∷◌ c (String.◌∷◌ d s)) =
    and_then (strip_suffix_char k (String.◌∷◌ d s)) (λ r. some (String.◌∷◌ c r))

-- `str::split_once` at a character.
unfoldable pub split_once : ℕ → String → Option (String × String)
split_once k String.[] = none
split_once k (String.◌∷◌ c s) =
    let rest = split_once k s in
    if code c == k then some ("", s) else and_then rest (λ r. some (String.◌∷◌ c r.0, r.1))

-- `str::rsplit(k).next()`: what stands behind the last `k`.
unfoldable pub after_last : ℕ → String → String
unfolding split_once
after_last k String.[] = ""
after_last k (String.◌∷◌ c s) = elim (split_once k (String.◌∷◌ c s)) [
  | none ↦ String.◌∷◌ c s
  | some _ ↦ after_last k s
]

-- `str::ends_with`.
unfoldable pub ends_with : String → String → Bool
ends_with String.[] t = str_eq "" t
ends_with (String.◌∷◌ c s) t = str_eq (String.◌∷◌ c s) t || ends_with s t

-- `trim_end_matches('/')`.
unfoldable pub trim_end_slashes : String → String
unfolding trim_end_matches
trim_end_slashes s = trim_end_matches (λ c. code c == b'/') s

-- Puts a character in front of the first piece.
abbrev pub with_first : Char → List String → List String
with_first c [] = String.◌∷◌ c "" ∷ []
with_first c (piece ∷ pieces) = String.◌∷◌ c piece ∷ pieces

-- `str::split` at a character.
unfoldable pub split : ℕ → String → List String
split k String.[] = "" ∷ []
split k (String.◌∷◌ c s) =
    let rest = split k s in if code c == k then "" ∷ rest else with_first c rest

-- `str::replace`: `skip` counts the characters of a match that stand before the text.
unfoldable pub replace_from : ℕ → String → String → String → String
replace_from skip pattern by String.[] = ""
replace_from (suc skip) pattern by (String.◌∷◌ c s) = replace_from skip pattern by s
replace_from zero pattern by (String.◌∷◌ c s) =
    let matches = starts_with (String.◌∷◌ c s) pattern in
    let rest = replace_from (if matches then len pattern - 1 else zero) pattern by s in
    if matches then String.◌++◌ by rest else String.◌∷◌ c rest

-- `str::replace` of a pattern that is not empty.
unfoldable pub replace : String → String → String → String
unfolding replace_from
replace pattern by s = replace_from zero pattern by s

-- `str::strip_prefix`.
unfoldable pub strip_prefix : String → String → Option String
strip_prefix String.[] s = some s
strip_prefix (String.◌∷◌ c p) String.[] = none
strip_prefix (String.◌∷◌ c p) (String.◌∷◌ d s) =
    let rest = strip_prefix p s in if code c == code d then rest else none

-- The pieces between line feeds as lines: a carriage return in front of a line feed goes, and so
-- does an empty last piece.
abbrev pub to_lines : List String → List String
to_lines [] = []
to_lines (p ∷ []) = if str_eq p "" then [] else p ∷ []
to_lines (p ∷ q ∷ ps) = unwrap_or p (strip_suffix_char 13 p) ∷ to_lines (q ∷ ps)

-- `str::lines`.
unfoldable pub lines : String → List String
unfolding split strip_suffix_char
lines s = to_lines (split 10 s)

-- `str::split` at a text that is not empty; `skip` counts the characters of a match that stand before.
unfoldable pub split_text_from : ℕ → String → String → List String
split_text_from skip pattern String.[] = "" ∷ []
split_text_from (suc skip) pattern (String.◌∷◌ c s) = split_text_from skip pattern s
split_text_from zero pattern (String.◌∷◌ c s) =
    let matches = starts_with (String.◌∷◌ c s) pattern in
    let rest = split_text_from (if matches then len pattern - 1 else zero) pattern s in
    if matches then "" ∷ rest else with_first c rest

unfoldable pub split_text : String → String → List String
unfolding split_text_from
split_text pattern s = split_text_from zero pattern s

-- `join`.
abbrev pub join : String → List String → String
join sep [] = ""
join sep (v ∷ []) = v
join sep (v ∷ w ∷ vs) = String.◌++◌ v (String.◌++◌ sep (join sep (w ∷ vs)))

-- A sequence of `push_str`.
abbrev pub concat : List String → String
concat [] = ""
concat (v ∷ vs) = String.◌++◌ v (concat vs)
