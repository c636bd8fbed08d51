-- ===== src/Auth/Tests.antt =====
-- The theorems on authentication at concrete inputs.
use kou_router.Prelude.{String, true, none, some, Option, [], ◌∷◌, refl, ◌⊎◌, if◌then◌else◌, str_eq}
use kou_router.Text.{starts_with, trim}
use kou_router.Json.{Value, string}
use kou_router.ResponseCache.{admin}
use kou_router.Auth.{HeaderMap, Accounts, proxy_identity, management_auth}
use kou_router.Auth.Identity.{Identified, proxy_identity-Identified}
use kou_router.Auth.Laws.{HoldsKey, HoldsCookie, management_auth-HoldsCookie}

abbrev as_string : String → Option Value
as_string s = some (string s)

abbrev same : String → String
same s = s

-- A token is its user, if the secret is right.
abbrev verify : String → String → Option String
verify secret token = if str_eq secret "s" then some token else none

abbrev accounts : Accounts
accounts = record {
  api_keys =
      record {
        id = "1";
        name = "ci";
        key_hash = "kou_sk_1";
        key_prefix = "kou_sk_1...";
        allowed_models_json = "*";
        is_active = true;
        last_used_at = none;
        usage_count = 0;
        created_at = 0;
        updated_at = 0;
      }
      ∷ [];
  settings = ("require_auth", "true") ∷ ("jwt_secret", "s") ∷ [];
}

abbrev with_key : HeaderMap
with_key = ("x-api-key", some "kou_sk_1") ∷ []

abbrev with_cookie : HeaderMap
with_cookie = ("cookie", some "a=b; kou_auth=root") ∷ []

proxy_identity-Identified_example :
    Identified 5 as_string same verify with_key accounts
      (proxy_identity 5 as_string same verify with_key accounts)
proxy_identity-Identified_example =
    proxy_identity-Identified 5 as_string same verify with_key accounts

management_auth-HoldsCookie_example :
    HoldsCookie 5 as_string same verify with_cookie accounts (admin "root")
    ⊎ HoldsKey 5 as_string same verify with_cookie accounts (admin "root")
unfolding management_auth starts_with trim
management_auth-HoldsCookie_example =
    management_auth-HoldsCookie 5 as_string same verify with_cookie accounts (admin "root") refl
      refl
