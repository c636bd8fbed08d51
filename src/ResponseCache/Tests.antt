-- ===== src/ResponseCache/Tests.antt =====
-- The theorems on the response cache at concrete inputs.
use kou_router.ResponseCache.Store.{
  NewResponseCacheEntry, CacheRow, purge_expired_response_cache_entries,
  upsert_response_cache_entry, find_response_cache_entry,
}
use kou_router.ResponseCache.Store.Laws.{
  upsert-find_response_cache_entry, find_response_cache_entry_sound,
}
use kou_router.Prelude.{
  str_ne, ◌<◌, map_option, List, arith, String, none, some, [], ◌∷◌, ◌≡◌, refl, String, true, false,
  Option, none, some, [], ◌∷◌, ◌≡◌, refl, str_eq, if◌then◌else◌, Some,
}
use kou_router.Text.{to_ascii_lowercase, trim}
use kou_router.Json.{Value, json_object, number, pos_int, string, get}
use kou_router.Models.Endpoint.{chat_completions, is_chat_family}
use kou_router.ResponseCache.{ResponseCacheContext, anonymous, from_headers, enabled}
use kou_router.ResponseCache.Policy.{
  temperature_is_zero, live_passthrough_header, media_keys, evaluate_policy,
}
use kou_router.ResponseCache.Laws.{TtlInRange, from_headers-TtlInRange}
use kou_router.ResponseCache.Policy.Laws.{evaluate_policy_safe, Within}

abbrev body : Value
body = json_object (("temperature", number (pos_int 0)) ∷ ("model", string "x") ∷ [])

evaluate_policy_safe_example :
    (is_chat_family chat_completions ≡ true → false ≡ false → temperature_is_zero body ≡ true)
    × ((v : Value) (key : String)
        → Within v body
        → Some (λ (k : String). k ≡ key) media_keys
        → get v key ≡ none)
    × (live_passthrough_header none ≡ none)
unfolding evaluate_policy is_chat_family get json_object
evaluate_policy_safe_example = evaluate_policy_safe chat_completions body none false refl

-- A request for reading and writing, for two minutes.
abbrev sent : String → Option String
sent name =
    if str_eq name "x-kou-response-cache"
    then some "RW"
    else if str_eq name "x-kou-response-cache-ttl"
    then some "2m"
    else none

abbrev two_minutes : ResponseCacheContext
two_minutes = record {
  read = true;
  write = true;
  ttl = some 120;
  namespace = "anonymous";
  allow_nondeterministic_chat = false;
}

from_headers-TtlInRange_example :
    TtlInRange (some 120) × (sent "x-kou-response-cache" ≡ none → enabled two_minutes ≡ false)
unfolding from_headers to_ascii_lowercase trim
from_headers-TtlInRange_example = from_headers-TtlInRange sent anonymous {c = two_minutes} refl

abbrev stored_answer : String → NewResponseCacheEntry
stored_answer key = record {
  cache_key = key;
  endpoint = "chat";
  upstream_endpoint = "chat";
  requested_model = "m";
  resolved_model = "m";
  provider_id = "openai";
  provider_account_id = none;
  namespace = "alice";
  request_body_hash = "h";
  response_body = key;
  response_headers = [];
  status = 200;
  is_stream = false;
  usage = none;
  expires_at = 50;
}

abbrev table : List CacheRow
table =
    record {
      entry = record (stored_answer "k1") { response_body = "old"; expires_at = 20 };
      hit_count = 4;
      created_at = 1;
      updated_at = 1;
      last_hit_at = none;
    }
    ∷ record {
      entry = stored_answer "k2";
      hit_count = 0;
      created_at = 2;
      updated_at = 2;
      last_hit_at = none;
    }
    ∷ []

upsert-find_response_cache_entry_example :
    let later =
      (purge_expired_response_cache_entries 40
        (upsert_response_cache_entry 30 (stored_answer "k1") table)).1 in
    (map_option (λ (r : CacheRow). r.entry) (find_response_cache_entry 40 "k1" "alice" "h" later).0
      ≡ some (stored_answer "k1"))
    × ((find_response_cache_entry 40 "k2" "alice" "h" later).0
        ≡ (find_response_cache_entry 40 "k2" "alice" "h" table).0)
upsert-find_response_cache_entry_example =
    upsert-find_response_cache_entry 30 40 (stored_answer "k1") "k2" "alice" "h" table (omega arith)
      (str_ne "k2" "k1" refl)

abbrev second_row : CacheRow
second_row = record {
  entry = stored_answer "k2";
  hit_count = 0;
  created_at = 2;
  updated_at = 2;
  last_hit_at = none;
}

find_response_cache_entry_sound_example :
    (second_row.entry.cache_key ≡ "k2")
    × (second_row.entry.namespace ≡ "alice")
    × (second_row.entry.request_body_hash ≡ "h")
    × (10 < 50)
unfolding find_response_cache_entry
find_response_cache_entry_sound_example =
    find_response_cache_entry_sound 10 "k2" "alice" "h" table second_row refl
