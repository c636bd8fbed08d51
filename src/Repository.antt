-- ===== src/Repository.antt =====
-- src/repository.rs: the tables of the database that routing reads and writes, and its queries. The
-- database itself is taken to answer; an instant in a text column sorts as the instant.
pub mod Health
pub mod Aliases
pub mod Updates
pub mod Tests
use Prim.Native.String.{compare}
use Prim.Native.Nat.{Ordering}
use Prim.Native.String
use kou_router.Prelude.{
  not, ℕ, String, Bool, true, false, ◌&&◌, ◌||◌, ◌+◌, ◌*◌, ◌^◌, Option, none, some, List, [], ◌∷◌,
  map, keep, any, find_first, leb, ltb, ◌==◌, str_eq, if◌then◌else◌, or_else, unwrap_or, map_option,
}
use kou_router.Prelude.Sort.{sort_by}
use kou_router.Text.{to_ascii_lowercase, contains}
use kou_router.Models.{
  Time, ProviderConnection, ProviderAccount, Combo, ProviderAccountRoutingStrategy, by_priority,
  routing_strategy_from_str,
}
use kou_router.Models.Int.{lt_ℤ}
use kou_router.Errors.{Result, ok, err, not_found}

pub record Repository : Type 0 where
  pub providers : List ProviderConnection
  pub accounts : List ProviderAccount
  -- The column `account_routing_strategy`, by the provider's id.
  pub strategies : List (String × String)
  pub combos : List Combo
  pub aliases : List (String × String)

abbrev pub seconds : ℕ → Time
seconds n = n * 10 ^ 9

abbrev pub text_lt : String → String → Bool
text_lt s t = elim (compare s t) [ Ordering.lt ↦ true | _ ↦ false ]

-- ORDER BY priority ASC, provider ASC.
abbrev pub provider_before : ProviderConnection → ProviderConnection → Bool
provider_before p q =
    lt_ℤ p.priority q.priority
    || (not (lt_ℤ q.priority p.priority) && text_lt p.provider q.provider)

unfoldable pub list_provider_connections : Repository → List ProviderConnection
list_provider_connections r = sort_by provider_before r.providers

-- What both `mark_..._failure` functions read off the message.
unfoldable pub is_rate_limit_message : String → Bool
is_rate_limit_message message =
    let lowered = to_ascii_lowercase message in
    contains lowered "rate limit" || contains lowered "quota" || contains lowered "429"

abbrev pub limited_until : Time → String → Option Time
limited_until now message = if is_rate_limit_message message then some (now + seconds 30) else none

abbrev pub error_type : String → String
error_type message = if is_rate_limit_message message then "rate_limit" else "upstream_error"

-- The row that `mark_provider_failure` writes.
unfoldable pub failed_provider : Time → String → ProviderConnection → ProviderConnection
failed_provider now message p = record p {
  last_error = some message;
  last_error_at = some now;
  last_error_type = some (error_type message);
  last_error_source = some "gateway";
  rate_limited_until = or_else (limited_until now message) p.rate_limited_until;
  circuit_open_until = some (now + seconds 15);
  test_status = some "error";
  updated_at = now;
  backoff_level = p.backoff_level + 1;
  consecutive_use_count = 0;
}

-- The row that `mark_provider_success` writes.
unfoldable pub succeeded_provider : Time → ProviderConnection → ProviderConnection
succeeded_provider now p = record p {
  last_error = none;
  last_error_at = none;
  last_error_type = none;
  last_error_source = none;
  rate_limited_until = none;
  circuit_open_until = none;
  test_status = some "ok";
  updated_at = now;
  last_used_at = some now;
  backoff_level = 0;
  consecutive_use_count = p.consecutive_use_count + 1;
}

-- UPDATE provider_connections ... WHERE id = ?.
unfoldable pub update_provider :
    String → (ProviderConnection → ProviderConnection) → Repository → Repository
update_provider id f r = record r {
  providers = map (λ (p : ProviderConnection). if str_eq p.id id then f p else p) r.providers;
}

unfoldable pub mark_provider_failure : Time → String → String → Repository → Repository
unfolding update_provider failed_provider
mark_provider_failure now provider_id message r =
    update_provider provider_id (failed_provider now message) r

unfoldable pub mark_provider_success : Time → String → Repository → Repository
unfolding update_provider succeeded_provider
mark_provider_success now provider_id r = update_provider provider_id (succeeded_provider now) r

-- The rows that `mark_provider_account_failure` and `mark_provider_account_success` write.
unfoldable pub failed_account : Time → String → ProviderAccount → ProviderAccount
failed_account now message a = record a {
  last_error = some message;
  last_error_type = some (error_type message);
  rate_limited_until = or_else (limited_until now message) a.rate_limited_until;
  circuit_open_until = some (now + seconds 15);
  updated_at = now;
  backoff_level = a.backoff_level + 1;
  consecutive_use_count = 0;
}

unfoldable pub succeeded_account : Time → ProviderAccount → ProviderAccount
succeeded_account now a = record a {
  last_error = none;
  last_error_type = none;
  rate_limited_until = none;
  circuit_open_until = none;
  last_used_at = some now;
  updated_at = now;
  backoff_level = 0;
  consecutive_use_count = a.consecutive_use_count + 1;
}

unfoldable pub update_account :
    String → (ProviderAccount → ProviderAccount) → Repository → Repository
update_account id f r = record r {
  accounts = map (λ (a : ProviderAccount). if str_eq a.id id then f a else a) r.accounts;
}

unfoldable pub mark_provider_account_failure : Time → String → String → Repository → Repository
unfolding update_account failed_account
mark_provider_account_failure now account_id message r =
    update_account account_id (failed_account now message) r

unfoldable pub mark_provider_account_success : Time → String → Repository → Repository
unfolding update_account succeeded_account
mark_provider_account_success now account_id r = update_account account_id (succeeded_account now) r

unfoldable pub record_provider_account_refresh_error :
    Time → String → String → Repository → Repository
unfolding update_account
record_provider_account_refresh_error now account_id message r =
    update_account account_id
      (λ (a : ProviderAccount). record a { refresh_error = some message; updated_at = now }) r

-- `get_provider_account_routing_config`: an unknown text counts as "priority".
unfoldable pub get_provider_account_routing_config :
    String → Repository → Result ProviderAccountRoutingStrategy
get_provider_account_routing_config provider_id r =
    elim (find_first (λ (s : String × String). str_eq s.0 provider_id) r.strategies) [
      | none ↦
          err (
            not_found (String.◌++◌ "provider connection '" (String.◌++◌ provider_id "' not found")))
      | some row ↦ ok (unwrap_or by_priority (routing_strategy_from_str row.1))
    ]

-- ORDER BY priority ASC, created_at ASC.
abbrev pub account_before : ProviderAccount → ProviderAccount → Bool
account_before a b =
    lt_ℤ a.priority b.priority
    || (not (lt_ℤ b.priority a.priority) && ltb a.created_at b.created_at)

unfoldable pub list_provider_accounts : String → Repository → List ProviderAccount
list_provider_accounts provider_id r =
    sort_by account_before
      (keep (λ (a : ProviderAccount). str_eq a.provider_connection_id provider_id) r.accounts)

abbrev pub passed : Time → Option Time → Bool
passed now until = unwrap_or true (map_option (λ t. leb t now) until)

-- The WHERE clause of `list_selectable_provider_accounts`.
unfoldable pub selectable : Time → ProviderAccount → Bool
selectable now a = a.enabled && passed now a.rate_limited_until && passed now a.circuit_open_until

unfoldable pub list_selectable_provider_accounts : Time → String → Repository → List ProviderAccount
unfolding selectable
list_selectable_provider_accounts now provider_id r = sort_by account_before (
    keep (λ (a : ProviderAccount). str_eq a.provider_connection_id provider_id && selectable now a)
      r.accounts)

-- `find_combo_by_name` and `resolve_alias`.
unfoldable pub find_combo_by_name : String → Repository → Option Combo
find_combo_by_name name r = find_first (λ (c : Combo). str_eq c.name name) r.combos

unfoldable pub resolve_alias : String → Repository → String
resolve_alias model r = unwrap_or model (
    map_option (λ (a : String × String). a.1)
      (find_first (λ (a : String × String). str_eq a.0 model) r.aliases))

unfoldable pub put_alias : String → String → List (String × String) → List (String × String)
put_alias name target [] = (name, target) ∷ []
put_alias name target ((a, t) ∷ rest) =
    if str_eq a name then (a, target) ∷ rest else (a, t) ∷ put_alias name target rest

unfoldable pub upsert_alias : String → String → Repository → Repository
unfolding put_alias
upsert_alias name target r = record r { aliases = put_alias name target r.aliases }

-- Whether a row was deleted, and the state.
unfoldable pub delete_alias : String → Repository → Bool × Repository
delete_alias name r = (
  any (λ (a : String × String). str_eq a.0 name) r.aliases,
  record r { aliases = keep (λ (a : String × String). not (str_eq a.0 name)) r.aliases },
)
