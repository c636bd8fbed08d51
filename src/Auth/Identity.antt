-- ===== src/Auth/Identity.antt =====
-- src/auth/middleware.rs: `ProxyIdentity`, and the key that a request presents.
use mathlib.Core.List.{Memᴰ}
use Prim.Native.String
use kou_router.Prelude.{
  map, if◌then◌else◌, ◌+◌, String, Bool, false, All, ◌≡◌, ◌≢◌, refl, ◌⊎◌, inl, inr, Option, none,
  some, List, [], ◌∷◌, find_first, str_eq, arith, eq_iff, Bool-cases, map_option, and_then,
}
use kou_router.Text.{strip_prefix}
use kou_router.Text.Laws.{strip_prefix_iff}
use kou_router.Json.{Value}
use kou_router.Models.{Time}
use kou_router.ResponseCache.{AuthContext, anonymous}
use kou_router.Auth.{
  HeaderMap, ApiKeyRow, Accounts, header, extract_bearer_token, extract_api_key_header, presented,
  record_of, find_api_key_by_hash, checked_key, validate_api_key, by_key, touch_api_key_usage,
  or_anonymous, proxy_identity,
}
use kou_router.Auth.Laws.{HoldsKey, find_first-Memᴰ}

-- No header `authorization` names a bearer.
abbrev pub BearsNone : HeaderMap → Type 0
BearsNone headers = (t : String) → header "authorization" headers ≢ some (String.◌++◌ "Bearer " t)

-- The key is the token of a bearer, or without one the value of `x-api-key`.
abbrev pub Presents : HeaderMap → String → Type 0
Presents headers token =
    (header "authorization" headers ≡ some (String.◌++◌ "Bearer " token))
    ⊎ (BearsNone headers × (header "x-api-key" headers ≡ some token))

-- There is neither.
abbrev pub PresentsNone : HeaderMap → Type 0
PresentsNone headers = BearsNone headers × (header "x-api-key" headers ≡ none)

bearer-cases :
    (value : Option String) (found : Option String)
    → and_then value (strip_prefix "Bearer ") ≡ found
    → ((token : String) × (found ≡ some token) × (value ≡ some (String.◌++◌ "Bearer " token)))
      ⊎ ((found ≡ none) × ((t : String) → value ≢ some (String.◌++◌ "Bearer " t)))
bearer-cases none found h = inr (cc, λ t e. cc)
bearer-cases (some value) (some token) h =
    let begins = (strip_prefix_iff "Bearer " value token).0 h in inl (token, refl, cc)
bearer-cases (some value) none h =
    inr (refl, λ t e. let stripped = (strip_prefix_iff "Bearer " value t).1 cc in cc)

unborne-cases :
    (headers : HeaderMap) (found : Option String)
    → BearsNone headers
    → header "x-api-key" headers ≡ found
    → ((token : String) × (found ≡ some token) × Presents headers token)
      ⊎ ((found ≡ none) × PresentsNone headers)
unborne-cases headers none b h = inr (refl, (b, h))
unborne-cases headers (some token) b h = inl (token, refl, inr (b, h))

presented-cases :
    (headers : HeaderMap) (found : Option String)
    → presented headers ≡ found
    → ((token : String) × (found ≡ some token) × Presents headers token)
      ⊎ ((found ≡ none) × PresentsNone headers)
unfolding extract_bearer_token extract_api_key_header
presented-cases headers found h = elim (bearer-cases (header "authorization" headers) _ refl) [
  | inl (token, e, k) ↦ inl (token, rw (← h, e) refl, inl k)
  | inr (e, k) ↦ unborne-cases headers found k (rw (← h, e) refl)
]

find_first-All :
    {A : Type 0} (f : A → Bool) (xs : List A) → find_first f xs ≡ none → All (λ x. f x ≡ false) xs
find_first-All f [] h = tt
find_first-All f (x ∷ xs) h = elim (Bool-cases (f x)) [
  | inl e ↦ cc
  | inr e ↦ (e, find_first-All f xs (ground arith))
]

module _ (now : Time) (from_str : String → Option Value) (sha256_hex : String → String)
    (verify_token : String → String → Option String) where
  -- No key is presented, no row has its hash, or one that has it is inactive.
  abbrev pub NoKey : HeaderMap → Accounts → Type 0
  NoKey headers accounts =
      PresentsNone headers
      ⊎ ((token : String) × Presents headers token
          × (All (λ (row : ApiKeyRow). str_eq row.key_hash (sha256_hex token) ≡ false)
                accounts.api_keys
              ⊎ ((row : ApiKeyRow) × Memᴰ row accounts.api_keys
                  × (row.key_hash ≡ sha256_hex token)
                  × (row.is_active ≡ false))))

  -- A row behind a use of the key with this id.
  abbrev pub used : String → ApiKeyRow → ApiKeyRow
  used id row =
      if str_eq row.id id
      then record row {
        usage_count = row.usage_count + 1;
        last_used_at = some now;
        updated_at = now;
      }
      else row

  -- Either the identity is that of a key held, whose use is counted, or it is anonymous.
  abbrev pub Identified : HeaderMap → Accounts → AuthContext × Accounts → Type 0
  Identified headers accounts (context, counted) =
      ((held : HoldsKey now from_str sha256_hex verify_token headers accounts context) × Presents
          headers held.0
        × (counted ≡ record accounts { api_keys = map (used held.1.id) accounts.api_keys }))
      ⊎ (NoKey headers accounts × (context ≡ anonymous) × (counted ≡ accounts))

  found-Identified :
      (headers : HeaderMap) (accounts : Accounts) (token : String) (row : Option ApiKeyRow)
      → presented headers ≡ some token
      → Presents headers token
      → find_first (λ (r : ApiKeyRow). str_eq r.key_hash (sha256_hex token)) accounts.api_keys ≡ row
      → Identified headers accounts (
          or_anonymous now from_str sha256_hex verify_token (
            checked_key now from_str sha256_hex verify_token
              (map_option (record_of now from_str sha256_hex verify_token) row)
              accounts))
  unfolding checked_key touch_api_key_usage
  found-Identified headers accounts token none e k h =
      inr (inr (token, k, inl (find_first-All _ accounts.api_keys h)), refl, refl)
  found-Identified headers accounts token (some r) e k h =
      let listed = find_first-Memᴰ _ accounts.api_keys r h in
      let hash = (eq_iff r.key_hash (sha256_hex token)).0 listed.1 in
      elim (Bool-cases r.is_active) [
        | inl active ↦ rw active (inl ((token, r, e, listed.0, active, hash, refl), k, refl))
        | inr inactive ↦
            rw inactive (inr (inr (token, k, inr (r, listed.0, hash, inactive)), refl, refl))
      ]

  by_key-Identified :
      (headers : HeaderMap) (accounts : Accounts) (token : Option String)
      → presented headers ≡ token
      → Identified headers accounts (
          or_anonymous now from_str sha256_hex verify_token
            (by_key now from_str sha256_hex verify_token "" token accounts))
  unfolding by_key validate_api_key find_api_key_by_hash
  by_key-Identified headers accounts none e = elim (presented-cases headers none e) [
    | inl (token, clash, k) ↦ cc
    | inr (same, k) ↦ inr (inl k, refl, refl)
  ]
  by_key-Identified headers accounts (some token) e =
      elim (presented-cases headers (some token) e) [
        | inl (other, same, k) ↦
            let one : other ≡ token = cc in
            let moved : Presents headers token = rw (← one) k in
            found-Identified headers accounts token _ e moved refl
        | inr (clash, k) ↦ cc
      ]

  -- A proxy request is never refused. The key that it presents is the token of its `authorization`
  -- header, if this starts with "Bearer ", or else the value of its `x-api-key` header. Either the
  -- request gets the identity of an active row of the table whose hash is that of the key, and in the
  -- rows with this row's id, and nowhere else, the number of uses is one more and the last use and
  -- the update are dated now; or it is anonymous and the accounts stay as they are, and then it
  -- presents no key, no row has the hash of its key, or a row that has this hash is inactive.
  pub proxy_identity-Identified :
      (headers : HeaderMap) (accounts : Accounts)
      → Identified headers accounts
          (proxy_identity now from_str sha256_hex verify_token headers accounts)
  unfolding proxy_identity
  proxy_identity-Identified headers accounts =
      by_key-Identified headers accounts (presented headers) refl
