-- ===== src/Route/Laws/Failover.antt =====
-- src/service.rs: the loops of `route`, and what it leaves behind.
use mathlib.Core.List.{append-nil}
use kou_router.Prelude.{
  ℕ, String, true, ◌≡◌, refl, inl, inr, Option, List, [], ◌∷◌, ◌++◌, All, All-sort_by, sort_by-none,
  Bool-cases, is_empty,
}
use kou_router.Errors.{Result, ok, err, AppError}
use kou_router.Json.{Value}
use kou_router.Models.{ProviderConnection, ProviderChatAttempt, RoutingProviderAccount}
use kou_router.RateLimit.{is_near_limit}
use kou_router.Repository.{Repository}
use kou_router.Routing.Models.{split_model, order_providers, matching_providers, tried_before}
use kou_router.Routing.Targets.{Target}
use kou_router.Route.{Env}
use kou_router.Route.State.{Call, Progress, Outcome, onward, answer, push}
use kou_router.Route.Run.{
  aim_at, try_targets, with_targets, with_body, try_provider, try_providers, ordered_matching,
  unresolved, try_candidates, with_matching, with_split,
}
use kou_router.Route.Laws.Trail.{Trail, then_rest-Trail}
use kou_router.Route.Laws.Single.{Single-Trail}
use kou_router.Route.Laws.Target.{try_target-Single}

module _ (env : Env) (call : Call env) (P M : ProviderChatAttempt → Type 0) where
  abbrev Leaves : List ProviderChatAttempt → Outcome env → Type 0
  Leaves before o = Trail env call.endpoint P M before o

  -- Whatever a target of the provider answers may stand in the list.
  abbrev pub Fits : String → ProviderConnection → Type 0
  Fits candidate provider =
      (status : ℕ) (body : String) (account : Option RoutingProviderAccount)
      → P (record {
        provider_id = provider.id;
        model = candidate;
        status = status;
        body = body;
        account = account;
      })

  nothing-Trail : (p : Progress env) → Leaves p.tried (onward, p)
  nothing-Trail p = record {
    earlier = [];
    final = [];
    tried_is = rw (append-nil p.tried, append-nil p.tried) refl;
    passed = tt;
    ends = refl;
  }

  stopped-Trail :
      {before : List ProviderChatAttempt} (e : AppError) (q : Progress env)
      → q.tried ≡ before
      → Leaves before (answer (err e), q)
  stopped-Trail {before} e q h = record {
    earlier = [];
    final = [];
    tried_is = rw (append-nil before, append-nil before) h;
    passed = tt;
    ends = inl refl;
  }

  module _ (candidate raw_model : String) (provider : ProviderConnection)
      (fits : Fits candidate provider) where
    try_targets-Trail :
        (body : Value) (targets : List Target) (p : Progress env)
        → Leaves p.tried
            (try_targets env call (aim_at env call candidate raw_model provider body) targets p)
    unfolding try_targets
    try_targets-Trail body [] p = nothing-Trail p
    try_targets-Trail body (target ∷ targets) p =
        then_rest-Trail env call.endpoint P M _ _
          (Single-Trail env call.endpoint (aim_at env call candidate raw_model provider body target)
            P M (λ status text. fits status text _)
            (try_target-Single env call (aim_at env call candidate raw_model provider body target)
              p))
          (try_targets-Trail body targets)

    with_targets-Trail :
        (body : Value) (targets : Result (List Target) × Repository × (String → ℕ))
        (p : Progress env)
        → Leaves p.tried
            (with_targets env call (aim_at env call candidate raw_model provider body) targets p)
    unfolding with_targets
    with_targets-Trail body (err e, r, turns) p = stopped-Trail e _ refl
    with_targets-Trail body (ok targets, r, turns) p = try_targets-Trail body targets _

    with_body-Trail :
        (body : Result Value) (p : Progress env)
        → Leaves p.tried (with_body env call candidate raw_model provider body p)
    unfolding with_body
    with_body-Trail (err e) p = stopped-Trail e p refl
    with_body-Trail (ok body) p = with_targets-Trail body _ p

    try_provider-Trail :
        (p : Progress env) → Leaves p.tried (try_provider env call candidate raw_model provider p)
    unfolding try_provider
    try_provider-Trail p = with_body-Trail _ p

  try_providers-Trail :
      (candidate raw_model : String) (providers : List ProviderConnection) (p : Progress env)
      → All (Fits candidate) providers
      → Leaves p.tried (try_providers env call candidate raw_model providers p)
  unfolding try_providers
  try_providers-Trail candidate raw_model [] p _ = nothing-Trail p
  try_providers-Trail candidate raw_model (provider ∷ providers) p (h, hs) =
      then_rest-Trail env call.endpoint P M _ _
        (try_provider-Trail candidate raw_model provider h p)
        (λ q. try_providers-Trail candidate raw_model providers q hs)

  -- The loop tries the providers that match, ...
  All-ordered_matching :
      (Q : ProviderConnection → Type 0) (providers : List ProviderConnection)
      (prefix raw_model : String) (p : Progress env)
      → All Q (matching_providers providers prefix raw_model)
      → All Q (ordered_matching env providers prefix raw_model p)
  unfolding ordered_matching order_providers
  All-ordered_matching Q providers prefix raw_model p h =
      All-sort_by Q
        (tried_before
          (λ id. is_near_limit env.floats.F64 env.floats.ge env.warn_threshold id p.world.rates))
        (matching_providers providers prefix raw_model) h

  -- ... and has none only if none matches.
  ordered_matching-none :
      (providers : List ProviderConnection) (prefix raw_model : String) (p : Progress env)
      → is_empty (ordered_matching env providers prefix raw_model p) ≡ true
      → matching_providers providers prefix raw_model ≡ []
  unfolding ordered_matching order_providers
  ordered_matching-none providers prefix raw_model p h =
      sort_by-none
        (tried_before
          (λ id. is_near_limit env.floats.F64 env.floats.ge env.warn_threshold id p.world.rates))
        (matching_providers providers prefix raw_model) h

  unresolved_once :
      {before : List ProviderChatAttempt} (prefix raw_model : String) (q : Progress env)
      → M (unresolved env call.endpoint prefix raw_model)
      → q.tried ≡ before ++ unresolved env call.endpoint prefix raw_model ∷ []
      → Leaves before (onward, q)
  unresolved_once {before} prefix raw_model q k h = record {
    earlier = unresolved env call.endpoint prefix raw_model ∷ [];
    final = [];
    tried_is = rw (append-nil (before ++ unresolved env call.endpoint prefix raw_model ∷ [])) h;
    passed = (inr k, tt);
    ends = refl;
  }

  with_matching-Trail :
      (candidate prefix raw_model : String) (matching : List ProviderConnection) (p : Progress env)
      → All (Fits candidate) matching
      → (is_empty matching ≡ true → M (unresolved env call.endpoint prefix raw_model))
      → Leaves p.tried (with_matching env call candidate prefix raw_model matching p)
  unfolding with_matching push
  with_matching-Trail candidate prefix raw_model matching p h m =
      elim (Bool-cases (is_empty matching)) [
        | inl e ↦ rw e (unresolved_once prefix raw_model _ (m e) refl)
        | inr e ↦ rw e (try_providers-Trail candidate raw_model matching p h)
      ]

  -- What the attempts for a candidate may be: those with the providers that match its parts, or if
  -- none matches the one that says so.
  abbrev pub Admits : List ProviderConnection → String → Type 0
  Admits providers candidate =
      (prefix raw_model : String)
      → split_model candidate ≡ ok (prefix, raw_model)
      → All (Fits candidate) (matching_providers providers prefix raw_model)
        × (matching_providers providers prefix raw_model ≡ []
            → M (unresolved env call.endpoint prefix raw_model))

  with_split-Trail :
      (providers : List ProviderConnection) (candidate : String) (parts : Result (String × String))
      (p : Progress env)
      → split_model candidate ≡ parts
      → Admits providers candidate
      → Leaves p.tried (with_split env call providers candidate parts p)
  unfolding with_split
  with_split-Trail providers candidate (err e) p s h = stopped-Trail e p refl
  with_split-Trail providers candidate (ok (prefix, raw_model)) p s h =
      let admitted = h prefix raw_model s in
      with_matching-Trail candidate prefix raw_model
        (ordered_matching env providers prefix raw_model p) p
        (All-ordered_matching (Fits candidate) providers prefix raw_model p admitted.0)
        (λ e. admitted.1 (ordered_matching-none providers prefix raw_model p e))

  pub try_candidates-Trail :
      (providers : List ProviderConnection) (candidates : List String) (p : Progress env)
      → All (Admits providers) candidates
      → Leaves p.tried (try_candidates env call providers candidates p)
  unfolding try_candidates
  try_candidates-Trail providers [] p _ = nothing-Trail p
  try_candidates-Trail providers (candidate ∷ candidates) p (h, hs) =
      then_rest-Trail env call.endpoint P M _ _
        (with_split-Trail providers candidate (split_model candidate) p refl h)
        (λ q. try_candidates-Trail providers candidates q hs)
