-- ===== src/Upstream/Passthrough/Laws.antt =====
-- src/upstream.rs: the passed-on headers as a map without regard to the case of names.
use kou_router.Prelude.{
  String, Bool, true, false, Option, none, some, List, [], ◌∷◌, ◌++◌, str_eq, any, ◌||◌, ◌≡◌, refl,
  inl, inr, or_else, arith, eq_iff, Bool-cases, ◌∙◌, sym, ap,
}
use kou_router.Text.{eq_ignore_ascii_case, to_ascii_lowercase}
use kou_router.Upstream.{Headers}
use kou_router.Upstream.Passthrough.{has_header, set_if_missing, merge, add_missing}
use kou_router.RateLimit.Headers.{find_header}

find_header-append :
    (name : String) (hs ks : Headers)
    → find_header name (hs ++ ks) ≡ or_else (find_header name hs) (find_header name ks)
unfolding find_header
find_header-append name [] ks = refl
find_header-append name (h ∷ hs) ks = ground (arith, find_header-append name hs ks)

has_header-find :
    (name : String) (hs : Headers) → has_header name hs ≡ false → find_header name hs ≡ none
unfolding find_header has_header
has_header-find name [] e = refl
has_header-find name (h ∷ hs) e = ground (arith, has_header-find name hs)

has_header-found :
    (name : String) (hs : Headers)
    → has_header name hs ≡ true
    → (v : String) × (find_header name hs ≡ some v)
unfolding find_header has_header
has_header-found name [] e = cc
has_header-found name ((n, v) ∷ hs) e = elim (Bool-cases (eq_ignore_ascii_case n name)) [
  | inl f ↦ (v, rw f refl)
  | inr f ↦ let found = has_header-found name hs (ground arith) in (found.0, rw f found.1)
]

find_header-case :
    (a b : String) (hs : Headers)
    → eq_ignore_ascii_case a b ≡ true
    → find_header a hs ≡ find_header b hs
unfolding find_header eq_ignore_ascii_case
find_header-case a b [] e = refl
find_header-case a b ((n, v) ∷ hs) e =
    ground (arith, find_header-case a b hs e, eq_iff (to_ascii_lowercase a) (to_ascii_lowercase b))

or_else-none : {A : Type 0} (o : Option A) → or_else o none ≡ o
or_else-none none = refl
or_else-none (some v) = refl

or_else_assoc : {A : Type 0} (o p q : Option A) → or_else (or_else o p) q ≡ or_else o (or_else p q)
or_else_assoc none p q = refl
or_else_assoc (some v) p q = refl

find_header-set_if_missing :
    (j name value : String) (hs : Headers)
    → find_header j (set_if_missing name value hs)
      ≡ or_else (find_header j hs) (find_header j ((name, value) ∷ []))
unfolding set_if_missing find_header
find_header-set_if_missing j name value hs = elim (Bool-cases (has_header name hs)) [
  | inr e ↦ rw e (find_header-append j hs ((name, value) ∷ []))
  | inl e ↦ elim (Bool-cases (eq_ignore_ascii_case name j)) [
    | inl f ↦
        let found = has_header-found name hs e in
        ground (arith, find_header-case name j hs f, found.1)
    | inr f ↦ rw (e, f) (sym (or_else-none (find_header j hs)))
  ]
]

-- Merging headers never overwrites: under any name the request has the value that it had, or else
-- the first of the additional values, whatever the case of the names.
pub merge-find_header :
    (j : String) (additional hs : Headers)
    → find_header j (merge additional hs) ≡ or_else (find_header j hs) (find_header j additional)
unfolding merge find_header
merge-find_header j [] hs = sym (or_else-none (find_header j hs))
merge-find_header j ((name, value) ∷ additional) hs =
    merge-find_header j additional (set_if_missing name value hs)
    ∙ (ap (λ o. or_else o (find_header j additional)) (find_header-set_if_missing j name value hs)
        ∙ (or_else_assoc (find_header j hs) (find_header j ((name, value) ∷ []))
              (find_header j additional)
            ∙ ap (or_else (find_header j hs))
                (sym (find_header-append j ((name, value) ∷ []) additional))))

abbrev pub has_item : String → List String → Bool
has_item v vs = any (λ item. str_eq item v) vs

has_item-append :
    (x : String) (xs ys : List String) → has_item x (xs ++ ys) ≡ (has_item x xs || has_item x ys)
has_item-append x [] ys = refl
has_item-append x (y ∷ xs) ys = ground (arith, has_item-append x xs ys)

abbrev pub IsDistinct : List String → Type 0
IsDistinct [] = Unit
IsDistinct (v ∷ vs) = (has_item v vs ≡ false) × IsDistinct vs

append-IsDistinct :
    (merged : List String) (v : String)
    → has_item v merged ≡ false
    → IsDistinct merged
    → IsDistinct (merged ++ v ∷ [])
append-IsDistinct [] v e d = (refl, tt)
append-IsDistinct (m ∷ merged) v e (f, d) = (
  ground (arith, has_item-append m merged (v ∷ []), eq_iff m v, eq_iff v m),
  append-IsDistinct merged v (ground arith) d,
)

-- Adding the missing values of a comma-separated header: a value is there afterwards just if it was
-- there or is among those added, and a header without repetitions stays one.
pub add_missing-has_item :
    (merged values : List String) (x : String)
    → (has_item x (add_missing merged values) ≡ (has_item x merged || has_item x values))
      × (IsDistinct merged → IsDistinct (add_missing merged values))
unfolding add_missing
add_missing-has_item merged [] x = (ground arith, λ d. d)
add_missing-has_item merged (value ∷ values) x = elim (Bool-cases (has_item value merged)) [
  | inl e ↦
      let rest = add_missing-has_item merged values x in
      rw e (ground (arith, rest.0, eq_iff value x), rest.1)
  | inr e ↦
      let rest = add_missing-has_item (merged ++ value ∷ []) values x in
      rw e (
        ground (arith, rest.0, has_item-append x merged (value ∷ [])),
        λ d. rest.1 (append-IsDistinct merged value e d),
      )
]
