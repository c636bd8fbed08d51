-- ===== src/Routing/Targets/Laws.antt =====
-- src/service.rs and src/upstream.rs: what every target of a request fulfils.
use text.Mathlib.TextEquality.{path_by_compare}
use kou_router.Prelude.{
  String, Bool, true, false, ◌≡◌, ◌≢◌, refl, ◌⊎◌, inl, inr, Option, none, some, List, [], ◌∷◌,
  str_eq, if◌then◌else◌, is_empty, unwrap_or, or_else, All, arith, eq_iff, Bool-cases, and_then,
  ◌||◌,
}
use kou_router.Text.{is_empty_text, eq_ignore_ascii_case}
use kou_router.Errors.{Result, ok, err}
use kou_router.Models.{
  ProviderAccountRoutingStrategy, Time, ProviderConnection, ProviderAccount,
  ProviderAccountAuthMode, api_key_mode, oauth_mode,
}
use kou_router.Models.Endpoint.{EndpointKind, supports_endpoint}
use kou_router.Repository.{
  Repository, list_provider_accounts, list_selectable_provider_accounts,
  get_provider_account_routing_config,
}
use kou_router.Routing.Candidates.{Turns, order_provider_accounts}
use kou_router.Routing.Targets.{
  has_secret, lookup, put_header, or_insert, remove, codex_headers, is_empty_value, filled,
  provider_with_account_auth, Target, with_token, refreshed, prepare_oauth, prepare_by_mode,
  prepare_provider_account, add_target, collect_targets, own_target, account_targets,
  execution_targets, needs_refresh,
}

lookup-put_header :
    (j k v : String) (m : List (String × String))
    → lookup j (put_header k v m) ≡ (if str_eq k j then some v else lookup j m)
unfolding lookup put_header
lookup-put_header j k v [] = refl
lookup-put_header j k v ((i, w) ∷ m) =
    ground (arith, lookup-put_header j k v m, eq_iff k j, eq_iff i j, path_by_compare k i)

lookup-or_insert :
    (j k v : String) (m : List (String × String))
    → lookup j (or_insert k v m)
      ≡ (if str_eq k j then some (unwrap_or v (lookup j m)) else lookup j m)
unfolding or_insert
lookup-or_insert j k v m = ground (arith, lookup-put_header j k v m, eq_iff k j)

lookup-remove :
    (j k : String) (m : List (String × String))
    → lookup j (remove k m) ≡ (if str_eq k j then none else lookup j m)
unfolding lookup
lookup-remove j k [] = ground arith
lookup-remove j k ((i, w) ∷ m) =
    ground (arith, lookup-remove j k m, eq_iff i j, eq_iff k j, eq_iff i k)

lookup-if :
    (j : String) (b : Bool) (x y : List (String × String))
    → lookup j (if b then x else y) ≡ (if b then lookup j x else lookup j y)
lookup-if j true x y = refl
lookup-if j false x y = refl

is_empty-eq-nil : {A : Type 0} (xs : List A) → is_empty xs ≡ true → xs ≡ []
is_empty-eq-nil [] h = refl
is_empty-eq-nil (x ∷ xs) h = cc

-- A text that is not empty.
abbrev pub nonempty : Option String → Option String
nonempty o = and_then o (λ v. if is_empty_text v then none else some v)

-- The entry of the account id behind the steps of `codex_headers`.
account_id_entry :
    (b : Bool) (o q : Option String)
    → (let kept =
          if is_empty_value (some (unwrap_or (unwrap_or "" q) o))
          then none
          else some (unwrap_or (unwrap_or "" q) o) in
        if b then kept else kept)
      ≡ nonempty (or_else o q)
account_id_entry b none none = ground arith
account_id_entry b none (some v) = ground arith
account_id_entry b (some w) q = ground arith

-- An OAuth account of Codex sends the account id that the provider configures, or else its own, and
-- never an empty one; it sends the FedRAMP header if the provider configures one or the account is
-- enrolled; and it leaves every other header as configured.
pub codex_headers-lookup :
    (account : ProviderAccount) (headers : List (String × String)) (other : String)
    → other ≢ "ChatGPT-Account-ID"
    → other ≢ "X-OpenAI-Fedramp"
    → (lookup "ChatGPT-Account-ID" (codex_headers account headers)
        ≡ nonempty (or_else (lookup "ChatGPT-Account-ID" headers) account.remote_account_id))
      × (lookup "X-OpenAI-Fedramp" (codex_headers account headers) ≡ (
          if account.is_fedramp
          then some (unwrap_or "true" (lookup "X-OpenAI-Fedramp" headers))
          else lookup "X-OpenAI-Fedramp" headers))
      × (lookup other (codex_headers account headers) ≡ lookup other headers)
unfolding codex_headers
codex_headers-lookup account headers other n m = (
  simp (lookup-if, lookup-or_insert, lookup-remove)
      (account_id_entry account.is_fedramp (lookup "ChatGPT-Account-ID" headers)
        account.remote_account_id),
  simp (lookup-if, lookup-or_insert, lookup-remove) (ground arith),
  simp (lookup-if, lookup-or_insert, lookup-remove)
      (ground (arith, eq_iff "ChatGPT-Account-ID" other, eq_iff "X-OpenAI-Fedramp" other)),
)

module _ (refresh : String → Repository → Result ProviderAccount × Repository) (now : Time)
    (provider : ProviderConnection) (endpoint : EndpointKind) where
  -- The account has a token, a key, or an endpoint of its own.
  abbrev pub IsUsable : ProviderAccount → Type 0
  IsUsable a =
      (has_secret a.access_token ≡ true)
      ⊎ (has_secret a.api_key ≡ true)
      ⊎ (filled a.base_url ≢ none)

  -- A target is the provider under an account's credentials, or with its own where it has no
  -- account, and declares the endpoint.
  abbrev pub IsTarget : Repository → Target → Type 0
  IsTarget r (p, some a) =
      (p ≡ provider_with_account_auth provider a provider.provider)
      × IsUsable a
      × (supports_endpoint p.supported_endpoints endpoint ≡ true)
  IsTarget r (p, none) =
      (p ≡ provider)
      × (list_provider_accounts provider.id r ≡ [])
      × (eq_ignore_ascii_case provider.auth_type "oauth" ≡ false)
      × (eq_ignore_ascii_case provider.provider "custom" ≡ false)
      × (supports_endpoint p.supported_endpoints endpoint ≡ true)

  abbrev Usable : Option ProviderAccount → Type 0
  Usable none = Unit
  Usable (some a) = IsUsable a

  with_token-Usable : (a : ProviderAccount) (r : Repository) → Usable (with_token refresh now a r).0
  unfolding with_token
  with_token-Usable a r = elim (Bool-cases (has_secret a.access_token)) [
    | inl e ↦ rw e (inl e)
    | inr e ↦ rw e tt
  ]

  refreshed-Usable :
      (id : String) (x : Result ProviderAccount × Repository)
      → Usable (refreshed refresh now id x).0
  unfolding refreshed
  refreshed-Usable id (ok a, r) = with_token-Usable a r
  refreshed-Usable id (err e, r) = tt

  own_endpoint-Usable :
      (a : ProviderAccount) (b : Bool)
      → (b ≡ true → IsUsable a)
      → Usable (if b then some a else none)
  own_endpoint-Usable a true h = h refl
  own_endpoint-Usable a false h = tt

  prepare_by_mode-Usable :
      (mode : ProviderAccountAuthMode) (a : ProviderAccount) (r : Repository)
      → Usable (prepare_by_mode refresh now mode a r).0
  unfolding prepare_by_mode prepare_oauth
  prepare_by_mode-Usable api_key_mode a r = own_endpoint-Usable a _ (λ h. ground arith)
  prepare_by_mode-Usable oauth_mode a r = elim (Bool-cases (needs_refresh refresh now a)) [
    | inl e ↦ rw e (refreshed-Usable a.id (refresh a.id r))
    | inr e ↦ rw e (with_token-Usable a r)
  ]

  add_target-All :
      (r : Repository) (o : Option ProviderAccount) (targets : List Target)
      → Usable o
      → All (IsTarget r) targets
      → All (IsTarget r) (add_target refresh now provider endpoint o targets)
  unfolding add_target
  add_target-All r none targets u h = h
  add_target-All r (some a) targets u h =
      elim (Bool-cases (
        supports_endpoint
          (provider_with_account_auth provider a provider.provider).supported_endpoints endpoint)) [
            | inl e ↦ rw e ((refl, u, e), h)
            | inr e ↦ rw e h
          ]

  collect_targets-All :
      (start : Repository) (accounts : List ProviderAccount) (r : Repository)
      → All (IsTarget start) (collect_targets refresh now provider endpoint accounts r).0
  unfolding collect_targets prepare_provider_account
  collect_targets-All start [] r = tt
  collect_targets-All start (a ∷ accounts) r =
      add_target-All start _ _ (prepare_by_mode-Usable a.auth_mode a r)
        (collect_targets-All start accounts _)

  own_target-All : (r : Repository) → All (IsTarget r) (own_target refresh now provider endpoint r)
  unfolding own_target
  own_target-All r =
      elim (Bool-cases (
        eq_ignore_ascii_case provider.auth_type "oauth"
        || eq_ignore_ascii_case provider.provider "custom")) [
          | inl e ↦ rw e tt
          | inr e ↦ elim (Bool-cases (is_empty (list_provider_accounts provider.id r))) [
            | inr f ↦ rw (e, f) tt
            | inl f ↦ elim (Bool-cases (supports_endpoint provider.supported_endpoints endpoint)) [
              | inr g ↦ rw (e, f, g) tt
              | inl g ↦
                  rw (e, f, g) ((refl, is_empty-eq-nil _ f, ground arith, ground arith, g), tt)
            ]
          ]
        ]

  account_targets-All :
      (accounts : List ProviderAccount) (config : Result ProviderAccountRoutingStrategy)
      (r : Repository) (turns : Turns) {targets : List Target}
      → (account_targets refresh now provider endpoint accounts config r turns).0 ≡ ok targets
      → All (IsTarget r) targets
  unfolding account_targets
  account_targets-All accounts (err e) r turns h = cc
  account_targets-All accounts (ok strategy) r turns {targets} h =
      let ordered = (order_provider_accounts provider.id accounts strategy turns).0 in
      let e : (collect_targets refresh now provider endpoint ordered r).0 ≡ targets = cc in
      rw (← e) (collect_targets-All r ordered r)

  -- Whatever refreshing does, each target of a provider is either the provider under the credentials
  -- of an account that has a token, a key or an endpoint of its own, or the provider itself, which
  -- then has no account, is not authorised by OAuth and is not the shell of custom endpoints; and
  -- each target declares the endpoint.
  pub execution_targets-IsTarget :
      (r : Repository) (turns : Turns) {targets : List Target}
      → (execution_targets refresh now provider endpoint r turns).0 ≡ ok targets
      → All (IsTarget r) targets
  unfolding execution_targets
  execution_targets-IsTarget r turns {targets} h =
      elim (Bool-cases (is_empty (list_selectable_provider_accounts now provider.id r))) [
        | inl e ↦
            let f : own_target refresh now provider endpoint r ≡ targets = ground arith in
            rw (← f) (own_target-All r)
        | inr e ↦
            account_targets-All (list_selectable_provider_accounts now provider.id r)
              (get_provider_account_routing_config provider.id r) r turns (ground arith)
      ]
