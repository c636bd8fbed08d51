-- ===== src/Route/Laws/Trail.antt =====
-- src/service.rs: the shape of the list of attempts that the loops of `route` leave behind.
use mathlib.Core.List.{append_assoc, append-nil}
use kou_router.Prelude.{All-append, ◌≡◌, refl, ◌∙◌, ◌⊎◌, true, List, [], ◌∷◌, ◌++◌, All}
use kou_router.Errors.{ok, err, fallback_error}
use kou_router.Models.{ProviderChatAttempt}
use kou_router.Models.Endpoint.{EndpointKind}
use kou_router.Route.{Env}
use kou_router.Route.State.{Flow, onward, answer, Outcome, Progress, RoutedResult, json, stream}
use kou_router.Route.Run.{then_rest}

join_trails :
    {A : Type 0} (b e d g : List A) {t f x : List A}
    → t ≡ b ++ e ++ f
    → f ≡ []
    → x ≡ t ++ d ++ g
    → x ≡ b ++ (e ++ d) ++ g
join_trails b e d g h k l = l ∙ rw (h, k, append-nil (b ++ e), ← append_assoc b e d) refl

module _ (env : Env) (endpoint : EndpointKind) where
  abbrev pub tried_of : RoutedResult env → List ProviderChatAttempt
  tried_of (json r) = r.debug.tried
  tried_of (stream s) = s.debug.tried

  -- `Tried` are the attempts with a provider, `Missing` those that stand for a candidate without one.
  module _ (Tried Missing : ProviderChatAttempt → Type 0) where
    -- An attempt after which the loops go on: one with a provider on whose status and body the
    -- router falls back, or one that stands for a candidate without a provider.
    abbrev pub Passed : ProviderChatAttempt → Type 0
    Passed a = (Tried a × (fallback_error a.status a.body ≡ true)) ⊎ Missing a

    -- How the attempts end: with nothing if the loops go on, with at most one attempt at an error,
    -- and with one at a success, whose debug lists them all.
    abbrev pub Ends : Flow env → List ProviderChatAttempt → List ProviderChatAttempt → Type 0
    Ends onward final tried = final ≡ []
    Ends (answer (err e)) final tried =
        (final ≡ []) ⊎ ((a : ProviderChatAttempt) × Tried a × (final ≡ a ∷ []))
    Ends (answer (ok r)) final tried =
        ((a : ProviderChatAttempt) × Tried a × (final ≡ a ∷ [])) × (tried_of r ≡ tried)

    pub record Trail (before : List ProviderChatAttempt) (o : Outcome env) : Type 0 where
      pub earlier : List ProviderChatAttempt
      pub final : List ProviderChatAttempt
      pub tried_is : o.1.tried ≡ before ++ earlier ++ final
      pub passed : All Passed earlier
      pub ends : Ends o.0 final o.1.tried

    -- The loop goes on from where its body left off.
    pub then_rest-Trail :
        {before : List ProviderChatAttempt} (rest : Progress env → Outcome env) (o : Outcome env)
        → Trail before o
        → ((q : Progress env) → Trail q.tried (rest q))
        → Trail before (then_rest env rest o)
    then_rest-Trail rest (onward, q) t k =
        let u = k q in
        record {
          earlier = t.earlier ++ u.earlier;
          final = u.final;
          tried_is = join_trails _ t.earlier u.earlier u.final t.tried_is t.ends u.tried_is;
          passed = All-append _ t.earlier u.earlier t.passed u.passed;
          ends = u.ends;
        }
    then_rest-Trail rest (answer r, q) t k = t
