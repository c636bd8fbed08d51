-- ===== src/ResponseCache/Laws.antt =====
-- src/response_cache.rs: how long an entry may live.
use kou_router.Prelude.{
  or-false, ℕ, ◌≤◌, ◌*◌, ◌==◌, leb, ltb, String, Bool, false, ◌||◌, Option, none, some,
  if◌then◌else◌, ◌≡◌, ◌∙◌, refl, arith, Bool-cases, inl, inr, ==_iff, ltb_false→le, ap, sym,
}
use kou_router.Text.{trim}
use kou_router.Errors.{Result, ◌>>=◌, ok, err}
use kou_router.Models.Int.{ℤ, pos, negsuc}
use kou_router.ResponseCache.{
  AuthContext, ResponseCacheContext, ttl_seconds, amount_seconds, parse_ttl, transposed, with_mode,
  out_of_range, from_headers, parse_i64, split_unit, i64_max, enabled, ttl_header, from_mode,
  to_ascii_lowercase, disabled,
}

-- The lifetime that a request may ask for lies between 1 and 3600 seconds.
abbrev pub TtlInRange : Option ℕ → Type 0
TtlInRange none = Unit
TtlInRange (some d) = (1 ≤ d) × (d ≤ 3600)

checked-range :
    (s : ℕ) {d : ℕ}
    → (if s == 0 || ltb 3600 s then out_of_range else ok s) ≡ ok d
    → (1 ≤ d) × (d ≤ 3600)
checked-range s {d} e = elim (Bool-cases (s == 0 || ltb 3600 s)) [
  | inl f ↦ ground arith
  | inr f ↦ ground (arith, or-false (s == 0) (ltb 3600 s), ==_iff s 0, ltb_false→le 3600 s)
]

ttl_seconds-range :
    (amount : ℤ) (multiplier : ℕ) {d : ℕ}
    → ttl_seconds amount multiplier ≡ ok d
    → (1 ≤ d) × (d ≤ 3600)
unfolding ttl_seconds
ttl_seconds-range (negsuc n) multiplier e = cc
ttl_seconds-range (pos n) multiplier {d} e =
    checked-range (if leb (n * multiplier) i64_max then n * multiplier else i64_max) e

amount_seconds-range :
    (value : String) (amount : Option ℤ) (multiplier : ℕ) {d : ℕ}
    → amount_seconds value amount multiplier ≡ ok d
    → (1 ≤ d) × (d ≤ 3600)
unfolding amount_seconds
amount_seconds-range value none multiplier e = cc
amount_seconds-range value (some amount) multiplier e = ttl_seconds-range amount multiplier e

accepted_ttl :
    (x : Result ℕ) {o : Option ℕ}
    → ((d : ℕ) → x ≡ ok d → (1 ≤ d) × (d ≤ 3600))
    → (x >>= (λ a. ok (some a))) ≡ ok o
    → TtlInRange o
accepted_ttl (err e) h f = cc
accepted_ttl (ok d) h f = ground (arith, h d refl)

transposed-range : (o : Option String) {t : Option ℕ} → transposed parse_ttl o ≡ ok t → TtlInRange t
unfolding transposed parse_ttl
transposed-range none e = ground arith
transposed-range (some value) e =
    accepted_ttl (parse_ttl value)
      (λ d f.
        amount_seconds-range (trim value) (parse_i64 (split_unit (trim value)).0)
          (split_unit (trim value)).1 f)
      e

chain-ttl :
    (x : Result (Bool × Bool)) (y : Result (Option ℕ)) (z : Result (Option Bool))
    (build : Bool × Bool → Option ℕ → Option Bool → ResponseCacheContext) {c : ResponseCacheContext}
    → ((a : Bool × Bool) (t : Option ℕ) (w : Option Bool) → (build a t w).ttl ≡ t)
    → (x >>= (λ a. y >>= (λ t. z >>= (λ w. ok (build a t w))))) ≡ ok c
    → y ≡ ok c.ttl
chain-ttl (err r) y z build keeps e = cc
chain-ttl (ok a) (err r) z build keeps e = cc
chain-ttl (ok a) (ok t) (err r) build keeps e = cc
chain-ttl (ok a) (ok t) (ok w) build {c} keeps e =
    let same : build a t w ≡ c = cc in ap ok (sym (keeps a t w) ∙ ap (λ k. k.ttl) same)

module _ (header_value : String → Option String) (auth : AuthContext) where
  with_mode-range :
      (mode : String) {c : ResponseCacheContext}
      → with_mode header_value auth mode ≡ ok c
      → TtlInRange c.ttl
  unfolding with_mode
  with_mode-range mode e =
      transposed-range (header_value ttl_header) (chain-ttl _ _ _ _ (λ a t w. refl) e)

  from_mode-range :
      (o : Option String) {c : ResponseCacheContext}
      → from_mode header_value auth o ≡ ok c
      → TtlInRange c.ttl × (o ≡ none → enabled c ≡ false)
  unfolding from_mode
  from_mode-range (some mode) e = (with_mode-range (to_ascii_lowercase (trim mode)) e, λ h. cc)
  from_mode-range none {c} e =
      let same : disabled header_value auth ≡ c = cc in rw (← same) (tt, λ h. refl)

  -- Whatever a request asks of the cache, it is refused or its entries live between 1 and 3600
  -- seconds; and without the header of the cache it neither reads nor writes.
  pub from_headers-TtlInRange :
      {c : ResponseCacheContext}
      → from_headers header_value auth ≡ ok c
      → TtlInRange c.ttl × (header_value "x-kou-response-cache" ≡ none → enabled c ≡ false)
  unfolding from_headers
  from_headers-TtlInRange {c} e = from_mode-range (header_value "x-kou-response-cache") e
