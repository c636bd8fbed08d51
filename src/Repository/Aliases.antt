-- ===== src/Repository/Aliases.antt =====
-- src/repository.rs: aliases of models, as a map.
use kou_router.Prelude.{
  String, ◌≡◌, List, [], ◌∷◌, str_eq, if◌then◌else◌, arith, eq_iff, find_first, keep, not,
  map_option, unwrap_or,
}
use kou_router.Repository.{Repository, resolve_alias, upsert_alias, put_alias, delete_alias}

abbrev found : String → List (String × String) → String
found model rows = unwrap_or model (
    map_option (λ (a : String × String). a.1)
      (find_first (λ (a : String × String). str_eq a.0 model) rows))

found-put_alias :
    (model name target : String) (rows : List (String × String))
    → found model (put_alias name target rows)
      ≡ (if str_eq name model then target else found model rows)
unfolding put_alias
found-put_alias model name target [] = ground arith
found-put_alias model name target ((a, t) ∷ rows) = ground (
  arith,
  found-put_alias model name target rows,
  eq_iff a name,
  eq_iff a model,
  eq_iff name model,
)

found-keep :
    (model name : String) (rows : List (String × String))
    → found model (keep (λ (a : String × String). not (str_eq a.0 name)) rows)
      ≡ (if str_eq name model then model else found model rows)
found-keep model name [] = ground arith
found-keep model name ((a, t) ∷ rows) =
    ground (arith, found-keep model name rows, eq_iff a name, eq_iff a model, eq_iff name model)

-- After an upsert the alias resolves to its target and every other model as before; after a
-- deletion the alias resolves to itself and every other model as before.
pub resolve_alias_after :
    (model name target : String) (r : Repository)
    → (resolve_alias model (upsert_alias name target r)
        ≡ (if str_eq name model then target else resolve_alias model r))
      × (resolve_alias model (delete_alias name r).1
          ≡ (if str_eq name model then model else resolve_alias model r))
unfolding resolve_alias upsert_alias delete_alias
resolve_alias_after model name target r =
    (found-put_alias model name target r.aliases, found-keep model name r.aliases)
