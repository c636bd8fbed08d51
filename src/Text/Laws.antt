-- ===== src/Text/Laws.antt =====
-- Laws of the text methods.
use Prim.Native.String
use Prim.Native.String.append
use Prim.Native.Char.{code}
use text.Mathlib.TextEquality.{Char-path}
use kou_router.Prelude.{
  String, ◌↔◌, arith, Bool-cases, inl, inr, ◌==◌, ◌≡◌, refl, true, false, some, none,
}
use kou_router.Text.{
  to_ascii_lowercase, parse_u64, trim, split_once, after_last, contains, strip_suffix_char,
  strip_prefix,
}

text_tests :
    (to_ascii_lowercase "Retry-AFTER z" ≡ "retry-after z")
    × (trim " \t a b\n" ≡ "a b")
    × (parse_u64 "+18446744073709551615" ≡ some 18446744073709551615)
    × (parse_u64 "18446744073709551616" ≡ none)
    × (parse_u64 "" ≡ none)
    × (contains "hit rate limit" "rate limit" ≡ true)
    × (contains "" "a" ≡ false)
    × (after_last b'/' "a/b/c" ≡ "c")
    × (split_once b'/' "a/b/c" ≡ some ("a", "b/c"))
    × (strip_suffix_char b's' "30s" ≡ some "30")
unfolding to_ascii_lowercase trim parse_u64 contains after_last split_once strip_suffix_char
text_tests = (refl, refl, refl, refl, refl, refl, refl, refl, refl, refl)

strip_prefix_self : (p t : String) → strip_prefix p (String.◌++◌ p t) ≡ some t
unfolding strip_prefix
strip_prefix_self String.[] t = rw (append.nil t) refl
strip_prefix_self (String.◌∷◌ c p) t =
    rw (append.cons c p t) (ground (arith, strip_prefix_self p t))

strip_prefix_sound : (p s t : String) → strip_prefix p s ≡ some t → s ≡ String.◌++◌ p t
unfolding strip_prefix
strip_prefix_sound String.[] s t h = rw (append.nil t) cc
strip_prefix_sound (String.◌∷◌ c p) String.[] t h = cc
strip_prefix_sound (String.◌∷◌ c p) (String.◌∷◌ d s) t h = elim (Bool-cases (code c == code d)) [
  | inl e ↦
      let same : c ≡ d = Char-path c d (ground arith) in
      let rest = strip_prefix_sound p s t (ground arith) in rw (same, rest, append.cons d p t) refl
  | inr e ↦ ground arith
]

-- A prefix is stripped from just the texts that it begins.
pub strip_prefix_iff : (p s t : String) → (strip_prefix p s ≡ some t) ↔ (s ≡ String.◌++◌ p t)
strip_prefix_iff p s t = (strip_prefix_sound p s t, λ e. rw e (strip_prefix_self p t))
