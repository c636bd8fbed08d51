-- ===== src/Route/Laws/Single.antt =====
-- src/service.rs: what one target of `route` may leave behind.
use mathlib.Core.List.{append-nil}
use kou_router.Prelude.{ℕ, String, true, ◌≡◌, refl, inl, inr, List, [], ◌∷◌, ◌++◌}
use kou_router.Errors.{AppError, ok, err, fallback_error}
use kou_router.Models.{ProviderChatAttempt}
use kou_router.Models.Endpoint.{EndpointKind}
use kou_router.Route.{Env}
use kou_router.Route.State.{Aim, Progress, Outcome, onward, answer, RoutedResult, attempt_of}
use kou_router.Route.Laws.Trail.{Trail, tried_of}

module _ (env : Env) (endpoint : EndpointKind) (aim : Aim env) where
  -- An error before any attempt, or one attempt with an error, an answer, or a fallback.
  pub data Single (before : List ProviderChatAttempt) : Outcome env → Type 0 where
    quiet : (e : AppError) (q : Progress env) → q.tried ≡ before → Single before (answer (err e), q)
    failed_once :
        (status : ℕ) (body : String) (q : Progress env)
        → q.tried ≡ before ++ attempt_of env aim status body ∷ []
        → (e : AppError) → Single before (answer (err e), q)
    answered_once :
        (status : ℕ) (body : String) (q : Progress env)
        → q.tried ≡ before ++ attempt_of env aim status body ∷ []
        → (r : RoutedResult env) → tried_of env endpoint r ≡ q.tried
        → Single before (answer (ok r), q)
    passed_once :
        (status : ℕ) (body : String) (q : Progress env)
        → q.tried ≡ before ++ attempt_of env aim status body ∷ []
        → fallback_error status body ≡ true
        → Single before (onward, q)

  pub Single-Trail :
      (P M : ProviderChatAttempt → Type 0)
      → ((status : ℕ) (body : String) → P (attempt_of env aim status body))
      → {before : List ProviderChatAttempt} {o : Outcome env} → Single before o
      → Trail env endpoint P M before o
  unfolding attempt_of
  Single-Trail P M fits {before} (quiet e q h) = record {
    earlier = [];
    final = [];
    tried_is = rw (append-nil before, append-nil before) h;
    passed = tt;
    ends = inl refl;
  }
  Single-Trail P M fits {before} (failed_once status body q h e) = record {
    earlier = [];
    final = attempt_of env aim status body ∷ [];
    tried_is = rw (append-nil before) h;
    passed = tt;
    ends = inr (attempt_of env aim status body, fits status body, refl);
  }
  Single-Trail P M fits {before} (answered_once status body q h r k) = record {
    earlier = [];
    final = attempt_of env aim status body ∷ [];
    tried_is = rw (append-nil before) h;
    passed = tt;
    ends = ((attempt_of env aim status body, fits status body, refl), k);
  }
  Single-Trail P M fits {before} (passed_once status body q h k) = record {
    earlier = attempt_of env aim status body ∷ [];
    final = [];
    tried_is = rw (append-nil (before ++ attempt_of env aim status body ∷ [])) h;
    passed = (inl (fits status body, k), tt);
    ends = refl;
  }
