-- ===== src/Auth/Laws.antt =====
-- src/auth/middleware.rs: who is let in.
use mathlib.Core.List.{Memᴰ}
use kou_router.Prelude.{
  sym, ap, ◌∙◌, String, Bool, true, ◌≡◌, refl, ◌⊎◌, inl, inr, Option, none, some, List, [], ◌∷◌,
  find_first, str_eq, arith, eq_iff, Bool-cases, map_option, and_then, sym,
}
use kou_router.Errors.{Result, ok}
use kou_router.Json.{Value}
use kou_router.Models.{Time}
use kou_router.ResponseCache.{AuthContext, api_key, admin}
use kou_router.Auth.{
  HeaderMap, ApiKeyRow, ApiKeyRecord, Accounts, extract_jwt_cookie, presented, is_auth_required,
  allowed_models, record_of, find_api_key_by_hash, checked_key, validate_api_key, by_key,
  get_setting_string, cookie_user, by_cookie_or_key, management_auth,
}

pub find_first-Memᴰ :
    {A : Type 0} (f : A → Bool) (xs : List A) (x : A)
    → find_first f xs ≡ some x
    → Memᴰ x xs × (f x ≡ true)
find_first-Memᴰ f [] x h = cc
find_first-Memᴰ f (y ∷ ys) x h = elim (Bool-cases (f y)) [
  | inl e ↦ let same : y ≡ x = ground arith in (Memᴰ.head (sym same), rw (← same) e)
  | inr e ↦ let later = find_first-Memᴰ f ys x (ground arith) in (Memᴰ.tail later.0, later.1)
]

and_then-some :
    {A B : Type 0} (o : Option A) (f : A → Option B) (b : B)
    → and_then o f ≡ some b
    → (a : A) × (o ≡ some a) × (f a ≡ some b)
and_then-some none f b h = cc
and_then-some (some a) f b h = (a, refl, h)

module _ (now : Time) (from_str : String → Option Value) (sha256_hex : String → String)
    (verify_token : String → String → Option String) where
  -- The context names an active key of the table whose hash is that of the key presented.
  abbrev pub HoldsKey : HeaderMap → Accounts → AuthContext → Type 0
  HoldsKey headers accounts context =
      (token : String) × (row : ApiKeyRow) × (presented headers ≡ some token)
      × Memᴰ row accounts.api_keys
      × (row.is_active ≡ true)
      × (row.key_hash ≡ sha256_hex token)
      × (context
          ≡ api_key row.id row.name
              (allowed_models now from_str sha256_hex verify_token row.allowed_models_json))

  -- The context names the user of a cookie that the secret verifies.
  abbrev pub HoldsCookie : HeaderMap → Accounts → AuthContext → Type 0
  HoldsCookie headers accounts context =
      (user : String) × (token : String) × (secret : String) × (extract_jwt_cookie headers
        ≡ some token)
      × (get_setting_string now from_str sha256_hex verify_token "jwt_secret" accounts
          ≡ some secret)
      × (verify_token secret token ≡ some user)
      × (context ≡ admin user)

  active_only :
      (found : ApiKeyRecord) (accounts : Accounts) (context : AuthContext)
      → (checked_key now from_str sha256_hex verify_token (some found) accounts).0 ≡ ok context
      → (found.is_active ≡ true) × (context ≡ api_key found.id found.name found.allowed_models)
  unfolding checked_key
  active_only found accounts context h = ground arith

  found_row :
      (key_hash : String) (accounts : Accounts) (context : AuthContext) (row : Option ApiKeyRow)
      → find_first (λ (r : ApiKeyRow). str_eq r.key_hash key_hash) accounts.api_keys ≡ row
      → (checked_key now from_str sha256_hex verify_token
          (map_option (record_of now from_str sha256_hex verify_token) row)
          accounts).0
        ≡ ok context
      → (r : ApiKeyRow) × Memᴰ r accounts.api_keys
        × (r.is_active ≡ true)
        × (r.key_hash ≡ key_hash)
        × (context
            ≡ api_key r.id r.name
                (allowed_models now from_str sha256_hex verify_token r.allowed_models_json))
  unfolding checked_key
  found_row key_hash accounts context none e h = cc
  found_row key_hash accounts context (some r) e h =
      let listed =
        find_first-Memᴰ (λ (x : ApiKeyRow). str_eq x.key_hash key_hash) accounts.api_keys r e in
      let known =
        active_only (record_of now from_str sha256_hex verify_token r) accounts context h in
      (r, listed.0, known.0, (eq_iff r.key_hash key_hash).0 listed.1, known.1)

  by_key-HoldsKey :
      (message : String) (headers : HeaderMap) (accounts : Accounts) (context : AuthContext)
      (token : Option String)
      → presented headers ≡ token
      → (by_key now from_str sha256_hex verify_token message token accounts).0 ≡ ok context
      → HoldsKey headers accounts context
  unfolding by_key validate_api_key find_api_key_by_hash
  by_key-HoldsKey message headers accounts context none e h = cc
  by_key-HoldsKey message headers accounts context (some token) e h =
      let held = found_row (sha256_hex token) accounts context _ refl h in
      (token, held.0, e, held.1, held.2, held.3, held.4)

  by_user :
      (headers : HeaderMap) (accounts : Accounts) (context : AuthContext) (user : Option String)
      → cookie_user now from_str sha256_hex verify_token headers accounts ≡ user
      → (by_cookie_or_key now from_str sha256_hex verify_token user headers accounts).0 ≡ ok context
      → HoldsCookie headers accounts context ⊎ HoldsKey headers accounts context
  unfolding by_cookie_or_key cookie_user
  by_user headers accounts context none e h = inr (
      by_key-HoldsKey "no valid credentials provided" headers accounts context (presented headers)
        refl h)
  by_user headers accounts context (some user) e h =
      let cookie = and_then-some (extract_jwt_cookie headers) _ user e in
      let stored =
        and_then-some
          (get_setting_string now from_str sha256_hex verify_token "jwt_secret" accounts) _ user
          cookie.2 in
      inl (user, cookie.0, stored.0, cookie.1, stored.1, stored.2, ground arith)

  -- If authentication is required, a management request that is let in either has a cookie that the
  -- stored secret verifies, and gets the identity of its user, or it presents a key whose hash is
  -- that of an active row of the table, and gets the identity of this row.
  pub management_auth-HoldsCookie :
      (headers : HeaderMap) (accounts : Accounts) (context : AuthContext)
      → is_auth_required accounts ≡ true
      → (management_auth now from_str sha256_hex verify_token headers accounts).0 ≡ ok context
      → HoldsCookie headers accounts context ⊎ HoldsKey headers accounts context
  unfolding management_auth
  management_auth-HoldsCookie headers accounts context q h =
      let user = cookie_user now from_str sha256_hex verify_token headers accounts in
      let opened : management_auth now from_str sha256_hex verify_token headers accounts
          ≡ by_cookie_or_key now from_str sha256_hex verify_token user headers accounts =
        rw q refl in
      by_user headers accounts context user refl
        (ap (λ (o : Result AuthContext × Accounts). o.0) (sym opened) ∙ h)
