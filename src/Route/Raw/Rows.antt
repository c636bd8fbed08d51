-- ===== src/Route/Raw/Rows.antt =====
-- src/service.rs: `proxy_raw_to_provider`, the rows that a raw request logs for its exchanges.
use mathlib.Core.List.{append_assoc, append-nil}
use kou_router.Prelude.{
  ◌++◌, refl, sym, ◌∙◌, unwrap_or, and_then, ℕ, ◌+◌, String, ◌≡◌, Option, List, [], ◌∷◌, arith,
  Bool-cases, inl, inr,
}
use kou_router.Errors.{Result, ok, err, fallback_error, is_success}
use kou_router.Models.{ProviderConnection, ProviderAccount}
use kou_router.Routing.Targets.{Target}
use kou_router.Route.{Env}
use kou_router.Route.State.{World, Task, NewRequestDebugLog, request_debug_log, response_debug_log}
use kou_router.Adapt.Codex.{NewResponseDebugLog, build_response_debug_log}
use kou_router.Json.{null}
use kou_router.Route.Raw.{
  RawRoutedResponse, own_id, model_of, RawCall, RawProgress, raw_logged, raw_refused, raw_settled,
  marked_failure, marked_success, raw_response_logged, raw_target,
}

joined :
    {A : Type 0} (begun rows : List A) (row : A) (answers : List A) (all middle : List A)
    → middle ≡ begun ++ rows
    → all ≡ middle ++ row ∷ [] ++ answers
    → all ≡ begun ++ (rows ++ row ∷ answers)
joined begun rows row answers all middle h k =
    k ∙ append_assoc middle (row ∷ []) answers ∙ rw h (append_assoc begun rows (row ∷ answers))

module _ (env : Env)
    (execute_raw_proxy : ℕ
      → ProviderConnection
      → RawCall
      → Option String
      → Result RawRoutedResponse)
    (call : RawCall) (w : World env) where
  -- The row of the response that an exchange gave, under the number of its request's row.
  abbrev pub Answered : NewRequestDebugLog → Result RawRoutedResponse → List Task → Type 0
  Answered log (err e) answers = answers ≡ []
  Answered log (ok r) answers =
      (row : NewResponseDebugLog) × (answers ≡ response_debug_log row ∷ [])
      × (row.sequence_no ≡ log.sequence_no)
      × (row.request_id ≡ log.request_id)
      × (row.provider_id ≡ log.provider_id)
      × (row.provider_account_id ≡ log.provider_account_id)
      × (row.upstream_status ≡ r.status)
      × (row.raw_body ≡ r.body)

  -- The rows of the first n exchanges of the request, in order.
  pub data Rows : ℕ → List Task → Type 0 where
    none_yet : Rows 0 []
    exchanged :
        (n : ℕ) (rows : List Task) (log : NewRequestDebugLog) (sent : ProviderConnection)
        (proxy_url : Option String) (answers : List Task)
        → Rows n rows
        → log.sequence_no ≡ n + 1
        → log.request_id ≡ call.request_id
        → log.endpoint ≡ call.upstream_path
        → Answered log (execute_raw_proxy (w.executions + n) sent call proxy_url) answers
        → Rows (n + 1) (rows ++ request_debug_log log ∷ answers)

  -- As many exchanges since the start as sequence numbers, each with its rows.
  abbrev pub Numbered : RawProgress env execute_raw_proxy → Type 0
  Numbered p =
      (rows : List Task) × (p.world.tasks ≡ w.tasks ++ rows)
      × Rows p.debug_sequence_no rows
      × (p.world.executions ≡ w.executions + p.debug_sequence_no)

  -- What an exchange logs behind the row of its request, and leaves alone.
  abbrev Logged :
      NewRequestDebugLog
      → Result RawRoutedResponse
      → RawProgress env execute_raw_proxy
      → RawProgress env execute_raw_proxy
      → Type 0
  Logged log result p q =
      (answers : List Task) × (q.world.tasks ≡ p.world.tasks ++ answers)
      × Answered log result answers
      × (q.debug_sequence_no ≡ p.debug_sequence_no)
      × (q.world.executions ≡ p.world.executions)

  abbrev Kept : RawProgress env execute_raw_proxy → RawProgress env execute_raw_proxy → Type 0
  Kept p q =
      (q.world.tasks ≡ p.world.tasks)
      × (q.debug_sequence_no ≡ p.debug_sequence_no)
      × (q.world.executions ≡ p.world.executions)

  refused-Kept :
      (provider : ProviderConnection) (account : Option ProviderAccount) (r : RawRoutedResponse)
      (p : RawProgress env execute_raw_proxy)
      → Kept p (raw_refused env execute_raw_proxy call provider account r p).1
  unfolding raw_refused marked_failure
  refused-Kept provider account r p = elim (Bool-cases (fallback_error r.status r.body)) [
    | inl e ↦ rw e (refl, refl, refl)
    | inr e ↦ rw e (refl, refl, refl)
  ]

  abbrev request_row : ProviderConnection → Option ProviderAccount → ℕ → NewRequestDebugLog
  request_row provider account sequence_no = record {
    request_id = call.request_id;
    provider_id = provider.id;
    provider_account_id = own_id env execute_raw_proxy call provider account;
    model = model_of call;
    endpoint = call.upstream_path;
    sequence_no = sequence_no;
    raw_body = env.to_string (unwrap_or null call.payload);
  }

  ok-Logged :
      (provider : ProviderConnection) (account : Option ProviderAccount) (r : RawRoutedResponse)
      (p q : RawProgress env execute_raw_proxy)
      → Kept (raw_response_logged env execute_raw_proxy call provider account r p) q
      → Logged (request_row provider account p.debug_sequence_no) (ok r) p q
  unfolding raw_response_logged build_response_debug_log
  ok-Logged provider account r p q (h, k, l) =
      (_, h, (_, refl, refl, refl, refl, refl, refl, refl), k, l)

  raw_settled-Logged :
      (provider : ProviderConnection) (account : Option ProviderAccount)
      (result : Result RawRoutedResponse) (p : RawProgress env execute_raw_proxy)
      → Logged
          (request_row provider account p.debug_sequence_no)
          result
          p
          (raw_settled env execute_raw_proxy call provider account result p).1
  unfolding raw_settled marked_failure marked_success
  raw_settled-Logged provider account (err e) p =
      ([], sym (append-nil p.world.tasks), refl, refl, refl)
  raw_settled-Logged provider account (ok r) p =
      let logged = raw_response_logged env execute_raw_proxy call provider account r p in
      elim (Bool-cases (is_success r.status)) [
        | inl e ↦ rw e (
            ok-Logged provider account r p
              (marked_success env execute_raw_proxy call provider account logged)
              (refl, refl, refl))
        | inr e ↦ rw e (
            ok-Logged provider account r p
              (raw_refused env execute_raw_proxy call provider account r logged).1
              (refused-Kept provider account r logged))
      ]

  exchanged-Numbered :
      (log : NewRequestDebugLog) (sent : ProviderConnection) (proxy_url : Option String)
      (p q s : RawProgress env execute_raw_proxy)
      → Numbered p
      → (q.world.tasks ≡ p.world.tasks ++ request_debug_log log ∷ [])
        × (q.debug_sequence_no ≡ p.debug_sequence_no + 1)
        × (q.world.executions ≡ p.world.executions + 1)
      → (log.sequence_no ≡ p.debug_sequence_no + 1)
        × (log.request_id ≡ call.request_id)
        × (log.endpoint ≡ call.upstream_path)
      → Logged log (execute_raw_proxy p.world.executions sent call proxy_url) q s
      → Numbered s
  exchanged-Numbered log sent proxy_url p q s (rows, t, r, c) (qt, qn, qe) (ln, li, le)
        (answers, st, a, sn, se) =
      (
        rows ++ request_debug_log log ∷ answers,
        joined w.tasks rows (request_debug_log log) answers s.world.tasks p.world.tasks t
            (rw (← qt) st),
        rw (sn, qn)
            (exchanged p.debug_sequence_no rows log sent proxy_url answers r ln li le (rw (← c) a)),
        omega (arith, c, qn, qe, sn, se),
      )

  pub target-Numbered :
      (provider : ProviderConnection) (target : Target) (p : RawProgress env execute_raw_proxy)
      → Numbered p
      → Numbered (raw_target env execute_raw_proxy call provider target p).1
  unfolding raw_target raw_logged
  target-Numbered provider target p h =
      let sequence_no = p.debug_sequence_no + 1 in
      let proxy_url = and_then target.1 (λ (a : ProviderAccount). a.proxy_url) in
      let q = raw_logged env execute_raw_proxy call provider target.1 p in
      let run = record q { world = record q.world { executions = q.world.executions + 1 } } in
      exchanged-Numbered (request_row provider target.1 sequence_no) target.0 proxy_url p run
        (raw_target env execute_raw_proxy call provider target p).1 h (refl, refl, refl)
        (refl, refl, refl)
        (raw_settled-Logged provider target.1
          (execute_raw_proxy q.world.executions target.0 call proxy_url) run)
