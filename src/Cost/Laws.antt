-- ===== src/Cost/Laws.antt =====
-- src/cost.rs: what the usage of a stream is, and which names share a price.
use Prim.Native.String
use Prim.Native.Char.{Char, code}
use text.Mathlib.TextLemmas.{nil-append, cons-append}
use kou_router.Prelude.{
  ℕ, String, ◌&&◌, Option, none, some, List, [], ◌∷◌, ◌++◌, ◌==◌, ltb, if◌then◌else◌, or_else,
  and_then, ◌≡◌, refl, ap, ◌∙◌, sym, Bool-cases, inl, inr,
}
use kou_router.Text.{to_ascii_lowercase, lower_char, after_last, split_once, lines}
use kou_router.Json.{Value, get}
use kou_router.Cost.{
  UsageInfo, Tally, extract_usage, count_usage, count_candidate, count_value, event_of, count_found,
  count_event, count_line, count_lines, finish, extract_usage_from_sse, nonzero, plus_u64,
}
use kou_router.Cost.Pricing.{get_model_pricing, pricing_in, branches}

abbrev pub as_list : Option UsageInfo → List UsageInfo
as_list none = []
as_list (some u) = u ∷ []

-- The usages of the candidates of an event, the last first, before those read earlier.
abbrev pub with_usages_of : Option Value → List UsageInfo → List UsageInfo
with_usages_of none us = us
with_usages_of (some value) us =
    as_list (and_then (get value "message") extract_usage)
    ++ (as_list (and_then (get value "response") extract_usage)
        ++ (as_list (extract_usage value) ++ us))

-- The last positive number of a list that is read backwards, else 0.
abbrev pub last_positive : (UsageInfo → ℕ) → List UsageInfo → ℕ
last_positive f [] = 0
last_positive f (u ∷ us) = if ltb 0 (f u) then f u else last_positive f us

abbrev pub last_known : (UsageInfo → Option ℕ) → List UsageInfo → Option ℕ
last_known f [] = none
last_known f (u ∷ us) = or_else (f u) (last_known f us)

-- The variables hold the last numbers of the usages read so far.
abbrev pub tally_of : List UsageInfo → Tally
tally_of us = record {
  input = last_positive (λ u. u.input_tokens) us;
  output = last_positive (λ u. u.output_tokens) us;
  cache_read = last_known (λ u. u.cache_read_tokens) us;
  cache_creation = last_known (λ u. u.cache_creation_tokens) us;
}

count_found-tally_of :
    (found : Option UsageInfo) (us : List UsageInfo)
    → count_found found (tally_of us) ≡ tally_of (as_list found ++ us)
unfolding count_found count_usage
count_found-tally_of none us = refl
count_found-tally_of (some u) us = refl

count_event-tally_of :
    (event : Option Value) (us : List UsageInfo)
    → count_event event (tally_of us) ≡ tally_of (with_usages_of event us)
unfolding count_event count_value count_candidate
count_event-tally_of none us = refl
count_event-tally_of (some value) us =
    let first = as_list (extract_usage value) ++ us in
    let second = as_list (and_then (get value "response") extract_usage) ++ first in
    ap (λ t. count_candidate (get value "message") (count_candidate (get value "response") t))
      (count_found-tally_of (extract_usage value) us)
    ∙ (ap (count_candidate (get value "message"))
          (count_found-tally_of (and_then (get value "response") extract_usage) first)
        ∙ count_found-tally_of (and_then (get value "message") extract_usage) second)

module _ (from_str : String → Option Value) where
  -- All usages of a transcript's events, the last first, after those read before.
  unfoldable pub usages_after : List String → List UsageInfo → List UsageInfo
  unfolding event_of
  usages_after [] us = us
  usages_after (line ∷ rest) us = usages_after rest (with_usages_of (event_of from_str line) us)

  count_lines-tally_of :
      (text : List String) (us : List UsageInfo)
      → count_lines from_str text (tally_of us) ≡ tally_of (usages_after text us)
  unfolding count_lines count_line usages_after
  count_lines-tally_of [] us = refl
  count_lines-tally_of (line ∷ text) us =
      ap (count_lines from_str text) (count_event-tally_of (event_of from_str line) us)
      ∙ count_lines-tally_of text (with_usages_of (event_of from_str line) us)

  -- The usage of a stream has the last positive numbers of input and of output tokens and the last
  -- known cache counts among all usages that its events report, in the order of the events and, in
  -- one event, of the body, its response and its message; it is none just if both numbers are 0.
  pub extract_usage_from_sse_last :
      (transcript : String)
      → let us = usages_after (lines transcript) [] in
        let input = last_positive (λ u. u.input_tokens) us in
        let output = last_positive (λ u. u.output_tokens) us in
        extract_usage_from_sse from_str transcript ≡ (
          if input == 0 && output == 0
          then none
          else some (record {
            input_tokens = input;
            output_tokens = output;
            cache_read_tokens = last_known (λ u. u.cache_read_tokens) us;
            cache_creation_tokens = last_known (λ u. u.cache_creation_tokens) us;
            total_tokens = plus_u64 input output;
          }))
  unfolding extract_usage_from_sse finish nonzero
  extract_usage_from_sse_last transcript = rw (count_lines-tally_of (lines transcript) []) refl

abbrev slash : Char
slash = "/"

slash-append : (m : String) → String.◌++◌ "/" m ≡ String.◌∷◌ slash m
slash-append m = cons-append slash "" m ∙ ap (String.◌∷◌ slash) (nil-append m)

split_once-append :
    (p m : String)
    → (r : String × String) × (split_once b'/' (String.◌++◌ p (String.◌∷◌ slash m)) ≡ some r)
unfolding split_once
split_once-append String.[] m = (("", m), rw (nil-append (String.◌∷◌ slash m)) refl)
split_once-append (String.◌∷◌ c p) m = elim (Bool-cases (code c == b'/')) [
  | inl e ↦
      (("", String.◌++◌ p (String.◌∷◌ slash m)), rw (cons-append c p (String.◌∷◌ slash m), e) refl)
  | inr e ↦
      let rest = split_once-append p m in
      ((String.◌∷◌ c rest.0.0, rest.0.1), rw (cons-append c p (String.◌∷◌ slash m), e, rest.1) refl)
]

after_last-skip :
    (c : Char) (s : String) {r : String × String}
    → split_once b'/' (String.◌∷◌ c s) ≡ some r
    → after_last b'/' (String.◌∷◌ c s) ≡ after_last b'/' s
unfolding after_last
after_last-skip c s h = rw (h, after_last) refl

after_last-append :
    (p m : String) → after_last b'/' (String.◌++◌ p (String.◌∷◌ slash m)) ≡ after_last b'/' m
unfolding after_last split_once
after_last-append String.[] m = rw (nil-append (String.◌∷◌ slash m)) refl
after_last-append (String.◌∷◌ c p) m =
    let found = split_once-append (String.◌∷◌ c p) m in
    let e = ap (split_once b'/') (sym (cons-append c p (String.◌∷◌ slash m))) ∙ found.1 in
    rw (cons-append c p (String.◌∷◌ slash m))
      (after_last-skip c (String.◌++◌ p (String.◌∷◌ slash m)) e ∙ after_last-append p m)

to_ascii_lowercase-append :
    (p m : String)
    → to_ascii_lowercase (String.◌++◌ p m)
      ≡ String.◌++◌ (to_ascii_lowercase p) (to_ascii_lowercase m)
unfolding to_ascii_lowercase
to_ascii_lowercase-append String.[] m = rw (nil-append m, nil-append (to_ascii_lowercase m)) refl
to_ascii_lowercase-append (String.◌∷◌ c p) m =
    rw (cons-append c p m, cons-append (lower_char c) (to_ascii_lowercase p) (to_ascii_lowercase m))
      (ap (String.◌∷◌ (lower_char c)) (to_ascii_lowercase-append p m))

bare_name :
    (prefix model other : String)
    → to_ascii_lowercase model ≡ to_ascii_lowercase other
    → after_last b'/' (to_ascii_lowercase (String.◌++◌ prefix (String.◌++◌ "/" model)))
      ≡ after_last b'/' (to_ascii_lowercase other)
unfolding to_ascii_lowercase lower_char
bare_name prefix model other e =
    rw (slash-append model, to_ascii_lowercase-append prefix (String.◌∷◌ slash model), e)
      (after_last-append (to_ascii_lowercase prefix) (to_ascii_lowercase other))

-- A model has the same price with and without a provider's prefix, whatever the prefix, and in
-- whatever case it is written.
pub get_model_pricing_prefix :
    (prefix model other : String)
    → to_ascii_lowercase model ≡ to_ascii_lowercase other
    → get_model_pricing (String.◌++◌ prefix (String.◌++◌ "/" model)) ≡ get_model_pricing other
unfolding get_model_pricing
get_model_pricing_prefix prefix model other e =
    ap (pricing_in branches) (bare_name prefix model other e)
