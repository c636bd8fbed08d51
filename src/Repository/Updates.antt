-- ===== src/Repository/Updates.antt =====
-- src/repository.rs: the reports change one row and nothing else.
use kou_router.Prelude.{
  String, ◌≡◌, refl, Option, List, [], ◌∷◌, str_eq, if◌then◌else◌, arith, eq_iff, find_first, map,
  map_option,
}
use kou_router.Models.{Time, ProviderConnection}
use kou_router.Repository.{
  Repository, mark_provider_failure, mark_provider_success, failed_provider, succeeded_provider,
}

-- `find_provider_connection_by_id`.
unfoldable pub find_provider : String → Repository → Option ProviderConnection
find_provider id r = find_first (λ (p : ProviderConnection). str_eq p.id id) r.providers

abbrev ids : List ProviderConnection → List String
ids rows = map (λ (p : ProviderConnection). p.id) rows

module _ (id : String) (f : ProviderConnection → ProviderConnection)
    (keeps : (p : ProviderConnection) → (f p).id ≡ p.id) where
  update_rows-ids :
      (rows : List ProviderConnection)
      → ids (map (λ (p : ProviderConnection). if str_eq p.id id then f p else p) rows) ≡ ids rows
  update_rows-ids [] = refl
  update_rows-ids (p ∷ rows) = ground (arith, keeps p, update_rows-ids rows)

  find-update_rows :
      (j : String) (rows : List ProviderConnection)
      → find_first
          (λ (p : ProviderConnection). str_eq p.id j)
          (map (λ (p : ProviderConnection). if str_eq p.id id then f p else p) rows)
        ≡ map_option
            (λ (p : ProviderConnection). if str_eq id j then f p else p)
            (find_first (λ (p : ProviderConnection). str_eq p.id j) rows)
  find-update_rows j [] = refl
  find-update_rows j (p ∷ rows) = ground (
    arith,
    keeps p,
    find-update_rows j rows,
    eq_iff p.id id,
    eq_iff p.id j,
    eq_iff (f p).id j,
    eq_iff id j,
  )

-- A report on a provider, of a failure or of a success, replaces the row of that provider and no
-- other, keeps the number and the order of the rows, and leaves all the other tables, the accounts
-- among them, as they are: looking up an id afterwards gives the reported row for the provider's id
-- and the old row for any other, and a missing row stays missing.
pub mark_provider_rows :
    (now : Time) (id message j : String) (r : Repository)
    → (find_provider j (mark_provider_failure now id message r)
        ≡ map_option
            (λ (p : ProviderConnection). if str_eq id j then failed_provider now message p else p)
            (find_provider j r))
      × (find_provider j (mark_provider_success now id r)
          ≡ map_option
              (λ (p : ProviderConnection). if str_eq id j then succeeded_provider now p else p)
              (find_provider j r))
      × (map (λ (p : ProviderConnection). p.id) (mark_provider_failure now id message r).providers
          ≡ map (λ (p : ProviderConnection). p.id) r.providers)
      × (map (λ (p : ProviderConnection). p.id) (mark_provider_success now id r).providers
          ≡ map (λ (p : ProviderConnection). p.id) r.providers)
      × (mark_provider_failure now id message r
          ≡ record r { providers = (mark_provider_failure now id message r).providers })
      × (mark_provider_success now id r
          ≡ record r { providers = (mark_provider_success now id r).providers })
      × ((mark_provider_failure now id message r).accounts ≡ r.accounts)
      × ((mark_provider_success now id r).accounts ≡ r.accounts)
unfolding find_provider mark_provider_failure mark_provider_success
mark_provider_rows now id message j r = (
  find-update_rows id (failed_provider now message) (λ p. refl) j r.providers,
  find-update_rows id (succeeded_provider now) (λ p. refl) j r.providers,
  update_rows-ids id (failed_provider now message) (λ p. refl) r.providers,
  update_rows-ids id (succeeded_provider now) (λ p. refl) r.providers,
  refl,
  refl,
  refl,
  refl,
)
