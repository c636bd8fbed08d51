-- ===== src/ResponseCache/Key.antt =====
-- src/response_cache.rs: the key of a cached response. The hash and serde_json's printer are
-- parameters.
use kou_router.Prelude.{String, Bool, true, false, Option, List, [], ◌∷◌, unwrap_or, map}
use kou_router.Prelude.Sort.{sort_by}
use kou_router.Text.{concat, join}
use kou_router.Json.{
  Value, null, bool, number, string, array, object, Items, nil, cons, Fields, end, field,
}
use kou_router.Models.Endpoint.{EndpointKind, as_str}
use kou_router.Repository.{text_lt}
use kou_router.Upstream.Requests.{PreparedUpstreamRequest}

pub record ResponseCacheIdentity : Type 0 where
  pub cache_key : String
  pub request_body_hash : String

abbrev pub bool_text : Bool → String
bool_text true = "true"
bool_text false = "false"

-- Entries by their key.
abbrev pub entry_before : String × String → String × String → Bool
entry_before a b = text_lt a.0 b.0

module _ (to_string : Value → String) where
  -- `key:value`.
  abbrev pub entry_text : String × String → String
  entry_text e = concat (to_string (string e.0) ∷ ":" ∷ e.1 ∷ [])

  unfoldable mutual
    unfolding sort_by

    pub write_canonical_json : Value → String
    write_canonical_json null = "null"
    write_canonical_json (bool b) = bool_text b
    write_canonical_json (number n) = to_string (number n)
    write_canonical_json (string s) = to_string (string s)
    write_canonical_json (array items) = concat ("[" ∷ join "," (canonical_items items) ∷ "]" ∷ [])
    write_canonical_json (object fs) =
        concat
          ("{" ∷ join "," (map entry_text (sort_by entry_before (canonical_fields fs))) ∷ "}" ∷ [])

    pub canonical_items : Items → List String
    canonical_items nil = []
    canonical_items (cons v items) = write_canonical_json v ∷ canonical_items items

    pub canonical_fields : Fields → List (String × String)
    canonical_fields end = []
    canonical_fields (field k v fs) = (k, write_canonical_json v) ∷ canonical_fields fs

  module _ (sha256_hex : String → String) where
    unfoldable pub canonical_json_hash : Value → String
    unfolding write_canonical_json
    canonical_json_hash value = sha256_hex (write_canonical_json value)

    unfoldable pub build_identity :
        EndpointKind
        → EndpointKind
        → String
        → String
        → String
        → Option String
        → String
        → PreparedUpstreamRequest
        → Bool
        → ResponseCacheIdentity
    unfolding canonical_json_hash
    build_identity endpoint upstream_endpoint requested_model resolved_model provider_id
          provider_account_id namespace prepared client_stream_requested =
        let request_body_hash = canonical_json_hash prepared.request_body in
        record {
          cache_key = sha256_hex (
              concat (
                "v1\nendpoint="
                ∷ as_str endpoint
                ∷ "\nupstream_endpoint="
                ∷ as_str upstream_endpoint
                ∷ "\nrequested_model="
                ∷ requested_model
                ∷ "\nresolved_model="
                ∷ resolved_model
                ∷ "\nprovider_id="
                ∷ provider_id
                ∷ "\nprovider_account_id="
                ∷ unwrap_or "" provider_account_id
                ∷ "\nnamespace="
                ∷ namespace
                ∷ "\npath="
                ∷ prepared.path
                ∷ "\nclient_stream="
                ∷ bool_text client_stream_requested
                ∷ "\nbody="
                ∷ request_body_hash
                ∷ []));
          request_body_hash = request_body_hash;
        }
