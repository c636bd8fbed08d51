-- ===== src/Routing/Models/Laws.antt =====
-- src/service.rs: splitting a model's name, the filter of providers over time, and their order.
use Prim.Native.Char.{Char, code}
use Prim.Native.String
use Prim.Native.String.{char_at}
use text.Mathlib.TextEquality.{Char-path}
use text.Mathlib.TextLemmas.{cons-ne-nil, nil-append, cons-append}
use kou_router.Prelude.{
  All-if, All-keep, All, is_empty, keep, is_some, not, ◌&&◌, ◌||◌, str_eq, Bool, List,
}
use kou_router.Text.{is_empty_text}
use kou_router.Models.{ProviderConnection}
use kou_router.Routing.Models.{
  matching_providers, find_providers_for_bare_model, serves_inferred, serves_by_default,
  infer_provider_from_model_name,
}
use kou_router.Prelude.{
  and_then, ℕ, String, Bool, true, false, ◌≡◌, ◌≢◌, refl, sym, ap, ◌∙◌, ◌⊎◌, inl, inr, ◌↔◌, Option,
  none, some, List, arith, Bool-cases, ◌==◌, ◌<◌, ◌+◌, ◌&&◌, ◌||◌,
}
use mathlib.Core.List.{Perm}
use kou_router.Prelude.Sort.{IsStrict, IsSorted, sort_by-perm, sort_by-IsSorted}
use kou_router.Text.{split_once, is_empty_text}
use kou_router.Errors.{Result, ok, err}
use kou_router.Models.{Time, ProviderConnection}
use kou_router.Models.Int.{ℤ, lt_ℤ}
use kou_router.Models.Endpoint.{EndpointKind}
use kou_router.Repository.{failed_provider, succeeded_provider, seconds, is_rate_limit_message}
use kou_router.Routing.Formats.{provider_supports_routed_endpoint, from_provider}
use kou_router.Routing.Models.{
  split_model, available, near_limit, tried_before, order_providers, model_of_split,
}

-- No character of the text has this number.
abbrev pub Lacks : ℕ → String → Type 0
Lacks k String.[] = Unit
Lacks k (String.◌∷◌ c s) = (code c ≢ k) × Lacks k s

-- The split at the first such character, if there is one.
abbrev SplitAt : ℕ → String → Option (String × String) → Type 0
SplitAt k s none = Lacks k s
SplitAt k s (some (a, b)) =
    Lacks k a × ((c : Char) × (code c ≡ k) × (s ≡ String.◌++◌ a (String.◌∷◌ c b)))

SplitAt-cons :
    (k : ℕ) (c : Char) (s : String) (o : Option (String × String))
    → code c ≢ k
    → SplitAt k s o
    → SplitAt k (String.◌∷◌ c s) (and_then o (λ r. some (String.◌∷◌ c r.0, r.1)))
SplitAt-cons k c s none n h = (n, h)
SplitAt-cons k c s (some (a, b)) n (lacks, (d, e, eq)) =
    ((n, lacks), (d, e, ap (String.◌∷◌ c) eq ∙ sym (cons-append c a (String.◌∷◌ d b))))

split_once-SplitAt : (k : ℕ) (s : String) → SplitAt k s (split_once k s)
unfolding split_once
split_once-SplitAt k String.[] = tt
split_once-SplitAt k (String.◌∷◌ c s) = elim (Bool-cases (code c == k)) [
  | inl e ↦ rw e (tt, (c, ground arith, sym (nil-append _)))
  | inr e ↦ rw e (SplitAt-cons k c s (split_once k s) (ground arith) (split_once-SplitAt k s))
]

abbrev slash : Char
slash = char_at "/" 0

slash-append : (c : Char) (b : String) → code c ≡ b'/' → String.◌∷◌ c b ≡ String.◌++◌ "/" b
slash-append c b h =
    ap (λ (d : Char). String.◌∷◌ d b) (Char-path c slash h)
    ∙ sym (cons-append slash "" b ∙ ap (String.◌∷◌ slash) (nil-append b))

is_empty_text_iff : (s : String) → (is_empty_text s ≡ true) ↔ (s ≡ "")
is_empty_text_iff String.[] = ground arith
is_empty_text_iff (String.◌∷◌ c s) = ((λ h. cc), (λ h. absurd (cons-ne-nil c s h)))

-- What the split of a model's name may return.
abbrev pub ModelSplit : String → Result (String × String) → Type 0
ModelSplit value (ok (prefix, model)) =
    ((prefix ≡ "") × (model ≡ value) × Lacks b'/' value)
    ⊎ ((prefix ≢ "")
        × (model ≢ "")
        × Lacks b'/' prefix
        × (value ≡ String.◌++◌ prefix (String.◌++◌ "/" model)))
ModelSplit value (err e) =
    (prefix : String) × (model : String) × ((prefix ≡ "") ⊎ (model ≡ ""))
    × Lacks b'/' prefix
    × (value ≡ String.◌++◌ prefix (String.◌++◌ "/" model))

ModelSplit-parts :
    (value a b : String)
    → SplitAt b'/' value (some (a, b))
    → value ≡ String.◌++◌ a (String.◌++◌ "/" b)
ModelSplit-parts value a b (lacks, (c, e, eq)) = eq ∙ ap (String.◌++◌ a) (slash-append c b e)

model_of_split-ModelSplit :
    (value : String) (o : Option (String × String))
    → SplitAt b'/' value o
    → ModelSplit value (model_of_split value o)
unfolding model_of_split
model_of_split-ModelSplit value none h = inl (refl, refl, h)
model_of_split-ModelSplit value (some (a, b)) h =
    elim (Bool-cases (is_empty_text a || is_empty_text b)) [
      | inl e ↦ rw e (
        a,
        b,
        ground (arith, is_empty_text_iff a, is_empty_text_iff b),
        h.0,
        ModelSplit-parts value a b h,
      )
      | inr e ↦ rw e (
          inr (
            ground (arith, is_empty_text_iff a),
            ground (arith, is_empty_text_iff b),
            h.0,
            ModelSplit-parts value a b h,
          ))
    ]

-- A name without a slash is a bare model. Otherwise the first slash splits it, and the two parts
-- joined by a slash give the name back: it is accepted exactly when both parts are nonempty.
pub split_model-ModelSplit : (value : String) → ModelSplit value (split_model value)
unfolding split_model
split_model-ModelSplit value = model_of_split-ModelSplit value _ (split_once-SplitAt b'/' value)

-- A provider that failed is not chosen before 15 seconds have passed, and not before 30 if the
-- message names a rate limit or quota or has "429"; after a success it is chosen whenever it is
-- enabled and supports the endpoint.
pub available_after_report :
    (now : Time) (message : String) (p : ProviderConnection) (t : Time) (endpoint : EndpointKind)
    → (available t endpoint (failed_provider now message p) ≡ true
        → (p.enabled ≡ true)
          × (now + seconds 15 < t)
          × (is_rate_limit_message message ≡ true → now + seconds 30 < t))
      × (available t endpoint (succeeded_provider now p)
          ≡ (p.enabled && provider_supports_routed_endpoint p endpoint))
unfolding available failed_provider succeeded_provider provider_supports_routed_endpoint
    from_provider
available_after_report now message p t endpoint =
    (λ h. (ground arith, ground arith, λ m. ground arith), ground arith)

lt_ℤ-asym : (a b : ℤ) → lt_ℤ a b ≡ true → lt_ℤ b a ≡ false
lt_ℤ-asym a b h = ground arith

lt_ℤ-trans : (a b c : ℤ) → lt_ℤ b a ≡ false → lt_ℤ c b ≡ false → lt_ℤ c a ≡ false
lt_ℤ-trans a b c h k = ground arith

module _ (near : String → Bool) where
  tried_before-IsStrict : IsStrict (tried_before near)
  unfolding tried_before
  tried_before-IsStrict = record {
    asym = λ a b h. ground (arith, lt_ℤ-asym a.priority b.priority);
    trans = λ a b c h k. ground (arith, lt_ℤ-trans a.priority b.priority c.priority);
  }

  -- One provider is tried before another exactly when it is not near its rate limit and the other
  -- is, or both agree in that and its priority is the smaller. The providers tried are those that
  -- match, each as often, and none stands behind one that it is to be tried before.
  pub order_providers-IsSorted :
      (a b : ProviderConnection) (providers : List ProviderConnection)
      → ((tried_before near a b ≡ true) ↔ (
          ((near_limit near a ≡ false) × (near_limit near b ≡ true))
          ⊎ ((near_limit near a ≡ near_limit near b) × (lt_ℤ a.priority b.priority ≡ true))))
        × Perm (order_providers near providers) providers
        × IsSorted (tried_before near) (order_providers near providers)
  unfolding order_providers tried_before
  order_providers-IsSorted a b providers = (
    ground arith,
    sort_by-perm (tried_before near) providers,
    sort_by-IsSorted (tried_before near) tried_before-IsStrict providers,
  )

-- The providers that match are among those listed.
All-find_providers_for_bare_model :
    (Q : ProviderConnection → Type 0) (providers : List ProviderConnection) (model : String)
    → All Q providers
    → All Q (find_providers_for_bare_model providers model)
unfolding find_providers_for_bare_model
All-find_providers_for_bare_model Q providers model h =
    let inferred = infer_provider_from_model_name model in
    let serves : ProviderConnection → Bool =
      λ p. serves_inferred inferred p || serves_by_default model p.default_model in
    All-if Q (is_empty (keep serves providers) && not (is_some inferred)) providers
      (keep serves providers) h (All-keep Q serves providers h)

pub All-matching_providers :
    (Q : ProviderConnection → Type 0) (providers : List ProviderConnection)
    (prefix raw_model : String)
    → All Q providers
    → All Q (matching_providers providers prefix raw_model)
unfolding matching_providers
All-matching_providers Q providers prefix raw_model h =
    let named : ProviderConnection → Bool =
      λ p. str_eq p.model_prefix prefix || str_eq p.provider prefix in
    All-if Q (is_empty_text prefix) (find_providers_for_bare_model providers raw_model)
      (keep named providers) (All-find_providers_for_bare_model Q providers raw_model h)
      (All-keep Q named providers h)
