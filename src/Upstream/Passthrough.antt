-- ===== src/Upstream/Passthrough.antt =====
-- src/upstream.rs: the client's headers that a request passes on, `PassthroughHeaders`.
pub mod Laws
use Prim.Native.String
use kou_router.Prelude.{
  String, Bool, true, false, not, Option, none, some, List, [], ◌∷◌, ◌++◌, str_eq, if◌then◌else◌,
  any, keep, map, is_empty, ◌&&◌, ◌||◌, find_first,
}
use kou_router.Text.{trim, is_empty_text, eq_ignore_ascii_case, split, starts_with}
use kou_router.Models.{ProviderConnection}
use kou_router.Upstream.{Headers}

-- `headers.iter().any(|(n, _)| n.eq_ignore_ascii_case(name))`.
unfoldable pub has_header : String → Headers → Bool
has_header name headers = any (λ (h : String × String). eq_ignore_ascii_case h.0 name) headers

unfoldable pub set_if_missing : String → String → Headers → Headers
unfolding has_header
set_if_missing name value headers =
    if has_header name headers then headers else headers ++ (name, value) ∷ []

unfoldable pub merge : Headers → Headers → Headers
unfolding set_if_missing
merge [] headers = headers
merge ((name, value) ∷ additional) headers = merge additional (set_if_missing name value headers)

-- `split(',').map(str::trim).filter(|value| !value.is_empty())`.
unfoldable pub items : String → List String
unfolding split
items values = keep (λ v. not (is_empty_text v)) (map trim (split b',' values))

-- Appends the values that are not there yet.
unfoldable pub add_missing : List String → List String → List String
add_missing merged [] = merged
add_missing merged (value ∷ values) =
    add_missing (if any (λ item. str_eq item value) merged then merged else merged ++ value ∷ [])
      values

-- `join(",")`.
unfoldable pub join_commas : List String → String
join_commas [] = ""
join_commas (v ∷ []) = v
join_commas (v ∷ w ∷ vs) = String.◌++◌ v (String.◌++◌ "," (join_commas (w ∷ vs)))

-- The first header with the name gets the values that it lacks; a new header stands last.
unfoldable pub merge_values : String → String → Headers → Headers
unfolding items add_missing join_commas
merge_values name values [] = (name, values) ∷ []
merge_values name values ((n, existing) ∷ headers) =
    if eq_ignore_ascii_case n name
    then (n, join_commas (add_missing (items existing) (items values))) ∷ headers
    else (n, existing) ∷ merge_values name values headers

unfoldable pub merge_csv_header : String → String → Headers → Headers
unfolding merge_values
merge_csv_header name values headers =
    if is_empty_text (trim values) then headers else merge_values name values headers

unfoldable pub ensure_claude_files_api_defaults : Headers → Headers
unfolding merge_csv_header set_if_missing
ensure_claude_files_api_defaults headers =
    merge_csv_header "anthropic-beta" "files-api-2025-04-14,oauth-2025-04-20"
      (set_if_missing "anthropic-version" "2023-06-01" headers)
