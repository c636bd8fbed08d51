-- ===== src/Auth.antt =====
-- src/auth/middleware.rs: who a request comes from, with the tables api_keys and settings of
-- src/repository.rs. SHA-256, the verification of a JSON Web Token and serde_json's parser are
-- parameters. A header's value is none if it is not a text of visible ASCII characters.
pub mod Identity
pub mod Laws
mod Tests
use Prim.Native.String
use kou_router.Prelude.{
  ◌==◌, ℕ, ◌+◌, String, Bool, true, false, ◌||◌, Option, none, some, List, [], ◌∷◌, str_eq, or_else,
  and_then, map_option, if◌then◌else◌, unwrap_or, find_first, map, is_some,
}
use Prim.Native.Char.{Char, code}
use kou_router.Text.{trim_end_matches, strip_prefix, split_text, trim}
use kou_router.Errors.{Result, ok, err, AppError, bad_request}
use kou_router.Json.{Value, as_str, as_array}
use kou_router.Models.{Time}
use kou_router.ResponseCache.{AuthContext, api_key, admin, anonymous}

-- Names in lower case, as a `HeaderMap` holds them.
abbrev pub HeaderMap : Type 0
HeaderMap = List (String × Option String)

-- A row of api_keys.
pub record ApiKeyRow : Type 0 where
  pub id : String
  pub name : String
  pub key_hash : String
  pub key_prefix : String
  pub allowed_models_json : String
  pub is_active : Bool
  pub last_used_at : Option Time
  pub usage_count : ℕ
  pub created_at : Time
  pub updated_at : Time

pub record Accounts : Type 0 where
  pub api_keys : List ApiKeyRow
  pub settings : List (String × String)

pub record ApiKeyRecord : Type 0 where
  pub id : String
  pub name : String
  pub key_prefix : String
  pub allowed_models : List String
  pub is_active : Bool
  pub last_used_at : Option Time
  pub usage_count : ℕ
  pub created_at : Time
  pub updated_at : Time

abbrev pub is_quote : Char → Bool
is_quote c = code c == 34

unfoldable pub drop_quotes : String → String
drop_quotes String.[] = ""
drop_quotes (String.◌∷◌ c s) = if is_quote c then drop_quotes s else String.◌∷◌ c s

-- `trim_matches('"')`.
unfoldable pub trim_quotes : String → String
unfolding drop_quotes trim_end_matches
trim_quotes s = trim_end_matches is_quote (drop_quotes s)

-- `headers.get(name)?.to_str().ok()`.
unfoldable pub header : String → HeaderMap → Option String
header name [] = none
header name ((key, value) ∷ rest) = if str_eq key name then value else header name rest

unfoldable pub extract_bearer_token : HeaderMap → Option String
unfolding header strip_prefix
extract_bearer_token headers = and_then (header "authorization" headers) (strip_prefix "Bearer ")

unfoldable pub extract_api_key_header : HeaderMap → Option String
unfolding header
extract_api_key_header headers = header "x-api-key" headers

unfoldable pub cookie_value : List String → Option String
cookie_value [] = none
cookie_value (cookie ∷ cookies) =
    or_else (strip_prefix "kou_auth=" (trim cookie)) (cookie_value cookies)

unfoldable pub extract_jwt_cookie : HeaderMap → Option String
unfolding header cookie_value split_text
extract_jwt_cookie headers =
    and_then (header "cookie" headers) (λ cookies. cookie_value (split_text ";" cookies))

-- The key that a request presents.
abbrev pub presented : HeaderMap → Option String
presented headers = or_else (extract_bearer_token headers) (extract_api_key_header headers)

abbrev pub unauthorized : String → AppError
unauthorized message = bad_request (String.◌++◌ "unauthorized: " message)

abbrev pub setting : String → Accounts → Option String
setting key accounts =
    map_option (λ s. s.1) (find_first (λ (s : String × String). str_eq s.0 key) accounts.settings)

unfoldable pub get_setting_bool : String → Accounts → Bool
get_setting_bool key accounts =
    unwrap_or false (map_option (λ raw. str_eq raw "true" || str_eq raw "1") (setting key accounts))

unfoldable pub is_auth_required : Accounts → Bool
unfolding get_setting_bool
is_auth_required accounts = get_setting_bool "require_auth" accounts

-- `UPDATE api_keys SET ... WHERE id = ?`.
abbrev pub touched : Time → String → ApiKeyRow → ApiKeyRow
touched now id row =
    if str_eq row.id id
    then record row { last_used_at = some now; usage_count = row.usage_count + 1; updated_at = now }
    else row

unfoldable pub touch_api_key_usage : Time → String → Accounts → Accounts
touch_api_key_usage now id accounts = record accounts {
  api_keys = map (touched now id) accounts.api_keys;
}

module _ (now : Time) (from_str : String → Option Value) (sha256_hex : String → String)
    (verify_token : String → String → Option String) where
  -- `serde_json::from_str::<Vec<String>>`.
  abbrev pub all_texts : List Value → Option (List String)
  all_texts [] = some []
  all_texts (v ∷ vs) =
      let rest = all_texts vs in
      and_then (as_str v) (λ text. map_option (λ texts. text ∷ texts) rest)

  unfoldable pub allowed_models : String → List String
  allowed_models raw = unwrap_or ("*" ∷ []) (and_then (and_then (from_str raw) as_array) all_texts)

  abbrev pub record_of : ApiKeyRow → ApiKeyRecord
  record_of row = record {
    id = row.id;
    name = row.name;
    key_prefix = row.key_prefix;
    allowed_models = allowed_models row.allowed_models_json;
    is_active = row.is_active;
    last_used_at = row.last_used_at;
    usage_count = row.usage_count;
    created_at = row.created_at;
    updated_at = row.updated_at;
  }

  unfoldable pub find_api_key_by_hash : String → Accounts → Option ApiKeyRecord
  unfolding allowed_models
  find_api_key_by_hash key_hash accounts =
      map_option record_of
        (find_first (λ (row : ApiKeyRow). str_eq row.key_hash key_hash) accounts.api_keys)

  -- What is made of the record of a key.
  unfoldable pub checked_key : Option ApiKeyRecord → Accounts → Result AuthContext × Accounts
  unfolding touch_api_key_usage
  checked_key none accounts = (err (unauthorized "invalid API key"), accounts)
  checked_key (some found) accounts =
      if found.is_active
      then (
        ok (api_key found.id found.name found.allowed_models),
        touch_api_key_usage now found.id accounts,
      )
      else (err (unauthorized "API key is disabled"), accounts)

  unfoldable pub validate_api_key : String → Accounts → Result AuthContext × Accounts
  unfolding checked_key find_api_key_by_hash
  validate_api_key key accounts =
      checked_key (find_api_key_by_hash (sha256_hex key) accounts) accounts

  -- The key that is presented, or the error if there is none.
  unfoldable pub by_key : String → Option String → Accounts → Result AuthContext × Accounts
  unfolding validate_api_key
  by_key message none accounts = (err (unauthorized message), accounts)
  by_key message (some token) accounts = validate_api_key token accounts

  -- The extractor that no route takes: the proxy's routes take `ProxyIdentity`.
  unfoldable pub proxy_auth : HeaderMap → Accounts → Result AuthContext × Accounts
  unfolding by_key is_auth_required extract_bearer_token extract_api_key_header
  proxy_auth headers accounts =
      if is_auth_required accounts
      then by_key "missing Authorization or x-api-key header" (presented headers) accounts
      else (ok anonymous, accounts)

  -- An identity that is never refused; the use of a valid key is counted.
  abbrev pub or_anonymous : Result AuthContext × Accounts → AuthContext × Accounts
  or_anonymous (ok context, accounts) = (context, accounts)
  or_anonymous (err e, accounts) = (anonymous, accounts)

  unfoldable pub proxy_identity : HeaderMap → Accounts → AuthContext × Accounts
  unfolding by_key extract_bearer_token extract_api_key_header
  proxy_identity headers accounts = or_anonymous (by_key "" (presented headers) accounts)

  unfoldable pub get_setting_string : String → Accounts → Option String
  unfolding as_str trim_quotes
  get_setting_string key accounts =
      and_then (setting key accounts) (λ raw.
        and_then (from_str raw) (λ value. some (unwrap_or (trim_quotes raw) (as_str value))))

  -- The user of a valid cookie.
  unfoldable pub cookie_user : HeaderMap → Accounts → Option String
  unfolding extract_jwt_cookie get_setting_string
  cookie_user headers accounts = and_then (extract_jwt_cookie headers) (λ token.
      and_then (get_setting_string "jwt_secret" accounts) (λ secret. verify_token secret token))

  unfoldable pub has_valid_admin_cookie : HeaderMap → Accounts → Bool
  unfolding cookie_user
  has_valid_admin_cookie headers accounts = is_some (cookie_user headers accounts)

  unfoldable pub by_cookie_or_key :
      Option String → HeaderMap → Accounts → Result AuthContext × Accounts
  unfolding by_key extract_bearer_token extract_api_key_header
  by_cookie_or_key (some user) headers accounts = (ok (admin user), accounts)
  by_cookie_or_key none headers accounts =
      by_key "no valid credentials provided" (presented headers) accounts

  unfoldable pub management_auth : HeaderMap → Accounts → Result AuthContext × Accounts
  unfolding by_cookie_or_key is_auth_required cookie_user
  management_auth headers accounts =
      if is_auth_required accounts
      then by_cookie_or_key (cookie_user headers accounts) headers accounts
      else (ok anonymous, accounts)
