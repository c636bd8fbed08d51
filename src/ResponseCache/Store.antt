-- ===== src/ResponseCache/Store.antt =====
-- src/repository.rs: the table llm_response_cache. Its columns for the headers and the usage are taken
-- to read back as they were written.
pub mod Laws
use kou_router.Prelude.{
  ℕ, ◌+◌, String, Bool, true, false, ◌&&◌, Option, none, some, List, [], ◌∷◌, ltb, str_eq,
  if◌then◌else◌, find_first, keep, length, map, not, leb, map_option,
}
use kou_router.Models.{Time}
use kou_router.Upstream.{Headers}
use kou_router.Cost.{UsageInfo}

pub record NewResponseCacheEntry : Type 0 where
  pub cache_key : String
  pub endpoint : String
  pub upstream_endpoint : String
  pub requested_model : String
  pub resolved_model : String
  pub provider_id : String
  pub provider_account_id : Option String
  pub namespace : String
  pub request_body_hash : String
  pub response_body : String
  pub response_headers : Headers
  pub status : ℕ
  pub is_stream : Bool
  pub usage : Option UsageInfo
  pub expires_at : Time

-- A row: the entry and the columns that the database keeps for it.
pub record CacheRow : Type 0 where
  pub entry : NewResponseCacheEntry
  pub hit_count : ℕ
  pub created_at : Time
  pub updated_at : Time
  pub last_hit_at : Option Time

module _ (now : Time) where
  -- The WHERE clause of the lookup.
  abbrev pub hits : String → String → String → CacheRow → Bool
  hits cache_key namespace request_body_hash row =
      str_eq row.entry.cache_key cache_key
      && str_eq row.entry.namespace namespace
      && str_eq row.entry.request_body_hash request_body_hash
      && ltb now row.entry.expires_at

  abbrev pub counted : String → CacheRow → CacheRow
  counted cache_key row =
      if str_eq row.entry.cache_key cache_key
      then record row { hit_count = row.hit_count + 1; last_hit_at = some now; updated_at = now }
      else row

  -- The row found, and the table after the hit is counted.
  unfoldable pub counted_hit :
      String → List CacheRow → Option CacheRow → Option CacheRow × List CacheRow
  counted_hit cache_key rows none = (none, rows)
  counted_hit cache_key rows (some row) = (some row, map (counted cache_key) rows)

  unfoldable pub find_response_cache_entry :
      String → String → String → List CacheRow → Option CacheRow × List CacheRow
  unfolding counted_hit
  find_response_cache_entry cache_key namespace request_body_hash rows =
      counted_hit cache_key rows (find_first (hits cache_key namespace request_body_hash) rows)

  -- INSERT ... ON CONFLICT(cache_key) DO UPDATE.
  unfoldable pub upsert_response_cache_entry : NewResponseCacheEntry → List CacheRow → List CacheRow
  upsert_response_cache_entry input [] =
      record {
        entry = input;
        hit_count = 0;
        created_at = now;
        updated_at = now;
        last_hit_at = none;
      }
      ∷ []
  upsert_response_cache_entry input (row ∷ rows) =
      if str_eq row.entry.cache_key input.cache_key
      then record row { entry = input; updated_at = now } ∷ rows
      else row ∷ upsert_response_cache_entry input rows

  -- How many rows expired, and the others.
  unfoldable pub purge_expired_response_cache_entries : List CacheRow → ℕ × List CacheRow
  purge_expired_response_cache_entries rows = (
    length (keep (λ (r : CacheRow). leb r.entry.expires_at now) rows),
    keep (λ (r : CacheRow). not (leb r.entry.expires_at now)) rows,
  )
