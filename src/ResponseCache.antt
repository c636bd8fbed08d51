-- ===== src/ResponseCache.antt =====
-- src/response_cache.rs: what a client asks of the response cache, and the namespace it asks in.
-- Headers are read through a parameter, the text of the header with a name. A duration is a number
-- of seconds.
pub mod Policy
pub mod Key
pub mod Store
pub mod Laws
mod Tests
use Prim.Native.String
use Prim.Native.Char.{Char, code}
use kou_router.Prelude.{
  ℕ, zero, suc, ◌-◌, ◌*◌, ◌^◌, String, Bool, true, false, ◌||◌, Option, none, some, List, [], ◌∷◌,
  leb, ltb, ◌==◌, str_eq, if◌then◌else◌, any, unwrap_or, map_option, and_then,
}
use kou_router.Text.{trim, to_ascii_lowercase, strip_suffix_char, parse_digits, is_empty_text}
use kou_router.Errors.{Result, ok, err, bad_request, ◌>>=◌}
use kou_router.Models.Int.{ℤ, pos, negsuc}

pub data AuthContext : Type 0 where
  api_key : String → String → List String → AuthContext
  admin : String → AuthContext
  anonymous : AuthContext

pub record ResponseCacheContext : Type 0 where
  pub read : Bool
  pub write : Bool
  pub ttl : Option ℕ
  pub namespace : String
  pub allow_nondeterministic_chat : Bool

abbrev pub enabled : ResponseCacheContext → Bool
enabled c = c.read || c.write

unfoldable pub auth_base : AuthContext → String
auth_base (api_key key_id key_name allowed_models) = String.◌++◌ "api_key:" key_id
auth_base (admin username) = String.◌++◌ "admin:" username
auth_base anonymous = "anonymous"

unfoldable pub auth_namespace : AuthContext → Option String → String
unfolding auth_base
auth_namespace auth (some namespace) = String.◌++◌ (auth_base auth) (String.◌++◌ ":" namespace)
auth_namespace auth none = auth_base auth

-- The negative of a number.
abbrev pub negated : ℕ → ℤ
negated zero = pos zero
negated (suc n) = negsuc n

-- A magnitude with its bound, and its sign.
abbrev pub bounded : ℕ → (ℕ → ℤ) → Option ℕ → Option ℤ
bounded limit sign o = and_then o (λ n. if leb n limit then some (sign n) else none)

-- `str::parse::<i64>`.
unfoldable pub parse_i64 : String → Option ℤ
unfolding parse_digits
parse_i64 String.[] = none
parse_i64 (String.◌∷◌ c s) =
    if code c == b'-'
    then bounded (2 ^ 63) negated (parse_digits s)
    else if code c == b'+'
    then bounded (2 ^ 63 - 1) pos (parse_digits s)
    else bounded (2 ^ 63 - 1) pos (parse_digits (String.◌∷◌ c s))

abbrev pub invalid_header : {A : Type 0} → String → String → Result A
invalid_header header value = err (
    bad_request (
      String.◌++◌ "invalid " (String.◌++◌ header (String.◌++◌ " value '" (String.◌++◌ value "'")))))

abbrev pub ttl_header : String
ttl_header = "x-kou-response-cache-ttl"

abbrev pub i64_max : ℕ
i64_max = 2 ^ 63 - 1

abbrev pub out_of_range : Result ℕ
out_of_range = err (bad_request "x-kou-response-cache-ttl must be between 1s and 3600s")

-- The seconds of an amount, by `saturating_mul`, and their range.
unfoldable pub ttl_seconds : ℤ → ℕ → Result ℕ
ttl_seconds (negsuc n) multiplier = out_of_range
ttl_seconds (pos n) multiplier =
    let seconds = if leb (n * multiplier) i64_max then n * multiplier else i64_max in
    if seconds == 0 || ltb 3600 seconds then out_of_range else ok seconds

-- The number before the unit, and the unit's seconds.
unfoldable pub split_unit : String → String × ℕ
unfolding strip_suffix_char
split_unit value = elim (strip_suffix_char b's' value) [
  | some raw ↦ (raw, 1)
  | none ↦ elim (strip_suffix_char b'm' value) [
    | some raw ↦ (raw, 60)
    | none ↦ elim (strip_suffix_char b'h' value) [ some raw ↦ (raw, 3600) | none ↦ (value, 1) ]
  ]
]

unfoldable pub amount_seconds : String → Option ℤ → ℕ → Result ℕ
unfolding ttl_seconds
amount_seconds value none multiplier = invalid_header ttl_header value
amount_seconds value (some amount) multiplier = ttl_seconds amount multiplier

unfoldable pub parse_ttl : String → Result ℕ
unfolding parse_i64 split_unit amount_seconds
parse_ttl value =
    let trimmed = trim value in
    let unit = split_unit trimmed in amount_seconds trimmed (parse_i64 unit.0) unit.1

abbrev pub one_of : List String → String → Bool
one_of names value = any (λ name. str_eq name value) names

unfoldable pub parse_bool_header : String → Result Bool
parse_bool_header value =
    let mode = to_ascii_lowercase (trim value) in
    if one_of ("1" ∷ "true" ∷ "yes" ∷ "on" ∷ []) mode
    then ok true
    else if one_of ("0" ∷ "false" ∷ "no" ∷ "off" ∷ []) mode
    then ok false
    else invalid_header "x-kou-response-cache-allow-nondeterministic" mode

-- Reading and writing, by the trimmed text in lower case.
unfoldable pub parse_mode : String → Result (Bool × Bool)
parse_mode mode =
    if one_of ("" ∷ "0" ∷ "false" ∷ "off" ∷ "none" ∷ "no" ∷ []) mode
    then ok (false, false)
    else if one_of ("1" ∷ "true" ∷ "on" ∷ "read-write" ∷ "readwrite" ∷ "rw" ∷ []) mode
    then ok (true, true)
    else if one_of ("read" ∷ "read-only" ∷ "readonly" ∷ []) mode
    then ok (true, false)
    else if one_of ("write" ∷ "write-only" ∷ "writeonly" ∷ []) mode
    then ok (false, true)
    else invalid_header "x-kou-response-cache" mode

-- `map(parse).transpose()?`.
unfoldable pub transposed : {A : Type 0} → (String → Result A) → Option String → Result (Option A)
transposed parse none = ok none
transposed parse (some value) = parse value >>= (λ a. ok (some a))

module _ (header_value : String → Option String) (auth : AuthContext) where
  -- The context of a request that has the header of the cache.
  unfoldable pub with_mode : String → Result ResponseCacheContext
  unfolding parse_mode parse_ttl parse_bool_header transposed
  with_mode mode = parse_mode mode >>= (λ access.
      transposed parse_ttl (header_value ttl_header) >>= (λ ttl.
        transposed parse_bool_header (header_value "x-kou-response-cache-allow-nondeterministic")
        >>= (λ allow. ok (record {
          read = access.0;
          write = access.1;
          ttl = ttl;
          namespace = auth_namespace auth (
              and_then (header_value "x-kou-response-cache-namespace")
                (λ v. if is_empty_text (trim v) then none else some (trim v)));
          allow_nondeterministic_chat = unwrap_or false allow;
        }))))

  -- Without the header nothing is read or written.
  abbrev pub disabled : ResponseCacheContext
  disabled = record {
    read = false;
    write = false;
    ttl = none;
    namespace = auth_namespace auth none;
    allow_nondeterministic_chat = false;
  }

  unfoldable pub from_mode : Option String → Result ResponseCacheContext
  unfolding with_mode
  from_mode (some mode) = with_mode (to_ascii_lowercase (trim mode))
  from_mode none = ok disabled

  unfoldable pub from_headers : Result ResponseCacheContext
  unfolding from_mode auth_namespace
  from_headers = from_mode (header_value "x-kou-response-cache")
