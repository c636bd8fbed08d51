-- ===== src/ResponseCache/Store/Laws.antt =====
-- src/repository.rs: what the lookups in the table of the response cache find.
use kou_router.Prelude.{
  String, Bool, true, ◌≡◌, ◌≢◌, refl, ◌<◌, some, List, [], ◌∷◌, leb, find_first, keep, not, arith,
  eq_iff, map_option,
}
use kou_router.Models.{Time}
use kou_router.ResponseCache.Store.{
  NewResponseCacheEntry, CacheRow, hits, counted_hit, find_response_cache_entry,
  upsert_response_cache_entry, purge_expired_response_cache_entries,
}

-- The row that a lookup finds, apart from the count of its hits.
found_is_first :
    (now : Time) (k n h : String) (rows : List CacheRow)
    → (find_response_cache_entry now k n h rows).0 ≡ find_first (hits now k n h) rows
unfolding find_response_cache_entry counted_hit
found_is_first now k n h rows = ground arith

find_first-passes :
    {A : Type 0} (f : A → Bool) (xs : List A) (x : A) → find_first f xs ≡ some x → f x ≡ true
find_first-passes f [] x e = cc
find_first-passes f (y ∷ ys) x e = ground (arith, find_first-passes f ys x)

-- A hit has the key, the namespace and the hash that were asked for, and has not expired.
pub find_response_cache_entry_sound :
    (now : Time) (k n h : String) (rows : List CacheRow) (row : CacheRow)
    → (find_response_cache_entry now k n h rows).0 ≡ some row
    → (row.entry.cache_key ≡ k)
      × (row.entry.namespace ≡ n)
      × (row.entry.request_body_hash ≡ h)
      × (now < row.entry.expires_at)
find_response_cache_entry_sound now k n h rows row e =
    let p : hits now k n h row ≡ true =
      find_first-passes (hits now k n h) rows row (rw (← found_is_first now k n h rows) e) in
    ground (
      arith,
      eq_iff row.entry.cache_key k,
      eq_iff row.entry.namespace n,
      eq_iff row.entry.request_body_hash h,
    )

upsert-found :
    (now later : Time) (input : NewResponseCacheEntry) (rows : List CacheRow)
    → later < input.expires_at
    → map_option
        (λ (r : CacheRow). r.entry)
        (find_first
          (hits later input.cache_key input.namespace input.request_body_hash)
          (upsert_response_cache_entry now input rows))
      ≡ some input
unfolding upsert_response_cache_entry
upsert-found now later input [] l = ground (
  arith,
  eq_iff input.cache_key input.cache_key,
  eq_iff input.namespace input.namespace,
  eq_iff input.request_body_hash input.request_body_hash,
)
upsert-found now later input (row ∷ rows) l = ground (
  arith,
  upsert-found now later input rows l,
  eq_iff input.cache_key input.cache_key,
  eq_iff input.namespace input.namespace,
  eq_iff input.request_body_hash input.request_body_hash,
  eq_iff row.entry.cache_key input.cache_key,
)

upsert-others :
    (now later : Time) (input : NewResponseCacheEntry) (k n h : String) (rows : List CacheRow)
    → k ≢ input.cache_key
    → find_first (hits later k n h) (upsert_response_cache_entry now input rows)
      ≡ find_first (hits later k n h) rows
unfolding upsert_response_cache_entry
upsert-others now later input k n h [] d = ground (arith, eq_iff input.cache_key k)
upsert-others now later input k n h (row ∷ rows) d = ground (
  arith,
  upsert-others now later input k n h rows d,
  eq_iff input.cache_key k,
  eq_iff row.entry.cache_key k,
  eq_iff row.entry.cache_key input.cache_key,
)

purge-first :
    (now : Time) (k n h : String) (rows : List CacheRow)
    → find_first (hits now k n h) (keep (λ (r : CacheRow). not (leb r.entry.expires_at now)) rows)
      ≡ find_first (hits now k n h) rows
purge-first now k n h [] = refl
purge-first now k n h (row ∷ rows) = ground (arith, purge-first now k n h rows)

-- A stored entry is found under its key, namespace and hash at every instant before it expires, also
-- if the expired rows are purged in between; lookups under another key find what they found before.
pub upsert-find_response_cache_entry :
    (now later : Time) (input : NewResponseCacheEntry) (k n h : String) (rows : List CacheRow)
    → later < input.expires_at
    → k ≢ input.cache_key
    → let table =
        (purge_expired_response_cache_entries later
          (upsert_response_cache_entry now input rows)).1 in
      (map_option
          (λ (r : CacheRow). r.entry)
          (find_response_cache_entry later input.cache_key input.namespace input.request_body_hash
            table).0
        ≡ some input)
      × ((find_response_cache_entry later k n h table).0
          ≡ (find_response_cache_entry later k n h rows).0)
unfolding purge_expired_response_cache_entries
upsert-find_response_cache_entry now later input k n h rows l d = (
  rw
      (
        found_is_first later input.cache_key input.namespace input.request_body_hash _,
        purge-first later input.cache_key input.namespace input.request_body_hash
            (upsert_response_cache_entry now input rows),
      )
      (upsert-found now later input rows l),
  rw
      (
        found_is_first later k n h _,
        purge-first later k n h (upsert_response_cache_entry now input rows),
        upsert-others now later input k n h rows d,
        found_is_first later k n h rows,
      )
      refl,
)
