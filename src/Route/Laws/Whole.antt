-- ===== src/Route/Laws/Whole.antt =====
-- src/service.rs: `route` as a whole.
use mathlib.Core.List.{Memᴰ}
use kou_router.Prelude.{
  ℕ, String, true, ◌≡◌, refl, inl, inr, Option, List, [], All, All-both, All-self, All-map_of,
  All-kept, keep, Bool-cases, is_empty,
}
use kou_router.Errors.{Result, ok, err, AppError}
use kou_router.Json.{Value}
use kou_router.Models.{ProviderConnection, ProviderChatAttempt}
use kou_router.Models.Endpoint.{EndpointKind}
use kou_router.Upstream.{Headers}
use kou_router.Repository.{Repository, list_provider_connections, resolve_alias}
use kou_router.Routing.Models.{available, split_model, matching_providers}
use kou_router.Routing.Models.Laws.{All-matching_providers}
use kou_router.Routing.Candidates.{expand_candidates}
use kou_router.ResponseCache.{ResponseCacheContext}
use kou_router.Adapt.Requests.{NormalizedRequest, normalize_request}
use kou_router.Route.{Env}
use kou_router.Route.State.{World, Call, Progress, Outcome, onward, answer, RoutedResult}
use kou_router.Route.Run.{
  unresolved, try_candidates, finished, started, with_providers, with_candidates, routed, route,
}
use kou_router.Route.Laws.Trail.{Trail}
use kou_router.Route.Laws.Failover.{Fits, Admits, try_candidates-Trail}

module _ (env : Env) where
  -- The providers that `route` chooses from.
  abbrev pub listed_available : EndpointKind → Repository → List ProviderConnection
  listed_available endpoint r = keep (available env.now endpoint) (list_provider_connections r)

  -- An attempt for a candidate, with a provider of the database that is available now for the
  -- endpoint and matches the candidate's prefix and model.
  abbrev pub TriedFor : EndpointKind → Repository → (String → Type 0) → ProviderChatAttempt → Type 0
  TriedFor endpoint r IsCandidate a =
      (candidate : String) × (prefix : String) × (raw_model : String)
      × (provider : ProviderConnection) × IsCandidate candidate
      × (split_model candidate ≡ ok (prefix, raw_model))
      × Memᴰ provider (matching_providers (listed_available endpoint r) prefix raw_model)
      × Memᴰ provider (list_provider_connections r)
      × (available env.now endpoint provider ≡ true)
      × (a.provider_id ≡ provider.id)
      × (a.model ≡ candidate)

  -- The attempt that stands for a candidate that no available provider matches.
  abbrev pub MissingFor :
      EndpointKind → Repository → (String → Type 0) → ProviderChatAttempt → Type 0
  MissingFor endpoint r IsCandidate a =
      (candidate : String) × (prefix : String) × (raw_model : String) × IsCandidate candidate
      × (split_model candidate ≡ ok (prefix, raw_model))
      × (matching_providers (listed_available endpoint r) prefix raw_model ≡ [])
      × (a ≡ unresolved env endpoint prefix raw_model)

  -- The candidates of a request: those of its model, once aliases are resolved.
  abbrev pub CandidateOf : EndpointKind → Value → World env → String → Type 0
  CandidateOf endpoint payload w candidate =
      (normalized : NormalizedRequest) × (candidates : List String) × (normalize_request
          env.to_string endpoint payload
        ≡ ok normalized)
      × ((expand_candidates endpoint (resolve_alias normalized.model w.repository) w.repository
            w.turns).0
          ≡ ok candidates)
      × Memᴰ candidate candidates

  module _ (endpoint : EndpointKind) (r : Repository) (IsCandidate : String → Type 0) where
    -- The attempts behind the answer of `route`.
    abbrev pub Answered : Result (RoutedResult env) × Progress env → Type 0
    Answered o =
        Trail env endpoint (TriedFor endpoint r IsCandidate) (MissingFor endpoint r IsCandidate) []
          (answer o.0, o.1)

    nothing_tried : (e : AppError) (q : Progress env) → q.tried ≡ [] → Answered (err e, q)
    nothing_tried e q h = record {
      earlier = [];
      final = [];
      tried_is = h;
      passed = tt;
      ends = inl refl;
    }

    finished-Answered :
        (call : Call env) (o : Outcome env)
        → Trail env endpoint
            (TriedFor endpoint r IsCandidate)
            (MissingFor endpoint r IsCandidate)
            []
            o
        → Answered (finished env call o)
    unfolding finished
    finished-Answered call (onward, q) t = record {
      earlier = t.earlier;
      final = t.final;
      tried_is = t.tried_is;
      passed = t.passed;
      ends = inl t.ends;
    }
    finished-Answered call (answer a, q) t = t

  module _ (call : Call env) (r : Repository) (IsCandidate : String → Type 0) where
    matches-TriedFor :
        (candidate prefix raw_model : String)
        → IsCandidate candidate
        → split_model candidate ≡ ok (prefix, raw_model)
        → All
            (Fits env call
              (TriedFor call.endpoint r IsCandidate)
              (MissingFor call.endpoint r IsCandidate)
              candidate)
            (matching_providers (listed_available call.endpoint r) prefix raw_model)
    matches-TriedFor candidate prefix raw_model c s =
        let matching = matching_providers (listed_available call.endpoint r) prefix raw_model in
        let Known : ProviderConnection → Type 0 = λ provider.
          Memᴰ provider (list_provider_connections r)
          × (available env.now call.endpoint provider ≡ true) in
        All-map_of (λ provider. Memᴰ provider matching × Known provider) _ matching
          (λ provider h status body account.
            (candidate, prefix, raw_model, provider, c, s, h.0, h.1.0, h.1.1, refl, refl))
          (All-both (λ provider. Memᴰ provider matching) Known matching (All-self matching)
            (All-matching_providers Known (listed_available call.endpoint r) prefix raw_model
              (All-kept (available env.now call.endpoint) (list_provider_connections r))))

    candidate-Admits :
        (candidate : String)
        → IsCandidate candidate
        → Admits env call
            (TriedFor call.endpoint r IsCandidate)
            (MissingFor call.endpoint r IsCandidate)
            (listed_available call.endpoint r)
            candidate
    candidate-Admits candidate c prefix raw_model s = (
      matches-TriedFor candidate prefix raw_model c s,
      λ none_matches. (candidate, prefix, raw_model, c, s, none_matches, refl),
    )

    with_providers-Answered :
        (candidates : List String) (w : World env)
        → All IsCandidate candidates
        → Answered call.endpoint r IsCandidate
            (with_providers env call candidates (listed_available call.endpoint r) (started env w))
    unfolding with_providers
    with_providers-Answered candidates w h =
        elim (Bool-cases (is_empty (listed_available call.endpoint r))) [
          | inl e ↦ rw e (nothing_tried call.endpoint r IsCandidate _ (started env w) refl)
          | inr e ↦ rw e (
              finished-Answered call.endpoint r IsCandidate call
                (try_candidates env call (listed_available call.endpoint r) candidates
                  (started env w))
                (try_candidates-Trail env call (TriedFor call.endpoint r IsCandidate)
                  (MissingFor call.endpoint r IsCandidate) (listed_available call.endpoint r)
                  candidates (started env w)
                  (All-map_of IsCandidate _ candidates candidate-Admits h)))
        ]

  with_candidates-Answered :
      (call : Call env) (IsCandidate : String → Type 0)
      (candidates : Result (List String) × (String → ℕ)) (w : World env)
      → ((cs : List String) → candidates.0 ≡ ok cs → All IsCandidate cs)
      → Answered call.endpoint w.repository IsCandidate (with_candidates env call candidates w)
  unfolding with_candidates
  with_candidates-Answered call IsCandidate (err e, turns) w h =
      nothing_tried call.endpoint w.repository IsCandidate e
        (started env (record w { turns = turns })) refl
  with_candidates-Answered call IsCandidate (ok candidates, turns) w h =
      with_providers-Answered call w.repository IsCandidate candidates (record w { turns = turns })
        (h candidates refl)

  routed-Answered :
      (endpoint : EndpointKind) (payload : Value) (suffix : Option String)
      (passthrough : Option Headers) (request_id : String) (cache_context : ResponseCacheContext)
      (normalized : Result NormalizedRequest) (w : World env)
      → normalize_request env.to_string endpoint payload ≡ normalized
      → Answered endpoint w.repository
          (CandidateOf endpoint payload w)
          (routed env endpoint suffix passthrough request_id cache_context normalized w)
  unfolding routed
  routed-Answered endpoint payload suffix passthrough request_id cache_context (err e) w n =
      nothing_tried endpoint w.repository (CandidateOf endpoint payload w) e (started env w) refl
  routed-Answered endpoint payload suffix passthrough request_id cache_context (ok normalized) w n =
      let resolved_model = resolve_alias normalized.model w.repository in
      let call : Call env = record {
        endpoint = endpoint;
        suffix = suffix;
        passthrough = passthrough;
        request_id = request_id;
        cache_context = cache_context;
        normalized = normalized;
        resolved_model = resolved_model;
      } in
      with_candidates-Answered call (CandidateOf endpoint payload w)
        (expand_candidates endpoint resolved_model w.repository w.turns) w
        (λ cs e.
          All-map_of (λ c. Memᴰ c cs) (CandidateOf endpoint payload w) cs
            (λ c m. (normalized, cs, n, e, m)) (All-self cs))

  -- Whatever `route` answers, it made its attempts one after the other. Each stands for a candidate
  -- of the request's model: either it is with a provider that is listed and available now for the
  -- endpoint and matches the candidate, or no such provider matches the candidate, and the attempt is
  -- the one that says so. `route` went on after an attempt only if the router falls back on its
  -- status and body or the attempt is of the second kind. The debug information of a success lists all
  -- the attempts, of which the last, and it alone, is the one answered, and it is of the first kind;
  -- after an error at most one attempt, of the first kind, is not of those that `route` went on after.
  pub route-Trail :
      (endpoint : EndpointKind) (payload : Value) (suffix : Option String)
      (passthrough : Option Headers) (request_id : String) (cache_context : ResponseCacheContext)
      (w : World env)
      → let o = route env endpoint payload suffix passthrough request_id cache_context w in
        Trail env endpoint
          (TriedFor endpoint w.repository (CandidateOf endpoint payload w))
          (MissingFor endpoint w.repository (CandidateOf endpoint payload w))
          []
          (answer o.0, o.1)
  unfolding route
  route-Trail endpoint payload suffix passthrough request_id cache_context w =
      routed-Answered endpoint payload suffix passthrough request_id cache_context
        (normalize_request env.to_string endpoint payload) w refl
