-- ===== src/Routing/Candidates.antt =====
-- src/service.rs: the models that a request is tried with, and the turns of round robin. The map of
-- turns is a function, 0 where it has no entry; a turn is a `usize` of 64 bits.
pub mod Laws
use Prim.Native.String
use kou_router.Prelude.{
  ℕ, suc, zero, ◌+◌, ◌%◌, ◌^◌, String, Bool, true, false, not, Option, none, some, List, [], ◌∷◌,
  ◌++◌, str_eq, if◌then◌else◌, keep, length, ltb, drop, take, ◌&&◌,
}
use kou_router.Errors.{Result, ok, err, bad_request}
use kou_router.Models.{
  ProviderAccount, ProviderAccountRoutingStrategy, by_priority, by_turns, Combo, ComboStrategy,
  priority_first, round_robin,
}
use kou_router.Models.Endpoint.{EndpointKind, is_chat_family}
use kou_router.Repository.{Repository, find_combo_by_name}

abbrev pub Turns : Type 0
Turns = String → ℕ

-- `*next = next.wrapping_add(1)`.
unfoldable pub advance : String → Turns → Turns
advance key turns k = if str_eq key k then (turns k + 1) % 2 ^ 64 else turns k

-- Indexing a list; the code indexes within bounds.
unfoldable pub index : List String → ℕ → String
index [] i = ""
index (m ∷ models) zero = m
index (m ∷ models) (suc i) = index models i

unfoldable pub pick_round_robin : String → List String → Turns → Result String × Turns
unfolding advance index
pick_round_robin combo_name [] turns =
    (err (bad_request "combo must include at least one model"), turns)
pick_round_robin combo_name (m ∷ models) turns =
    let all = m ∷ models in
    (ok (index all (turns combo_name % length all)), advance combo_name turns)

-- The picked model first, then the others in their order.
unfoldable pub picked_first : List String → Result String × Turns → Result (List String) × Turns
picked_first models (ok picked, turns) =
    (ok (picked ∷ keep (λ (m : String). not (str_eq m picked)) models), turns)
picked_first models (err e, turns) = (err e, turns)

-- The match on the combo's strategy.
unfoldable pub by_strategy :
    ComboStrategy → String → List String → Turns → Result (List String) × Turns
unfolding pick_round_robin picked_first
by_strategy priority_first name models turns = (ok models, turns)
by_strategy round_robin name models turns = picked_first models (pick_round_robin name models turns)

unfoldable pub expand_combo : Combo → Turns → Result (List String) × Turns
unfolding by_strategy
expand_combo combo turns =
    if combo.enabled
    then by_strategy combo.strategy combo.name combo.models turns
    else (err (bad_request (String.◌++◌ "combo " (String.◌++◌ combo.name " is disabled"))), turns)

unfoldable pub expand_candidates :
    EndpointKind → String → Repository → Turns → Result (List String) × Turns
unfolding expand_combo
expand_candidates endpoint resolved_model r turns =
    if is_chat_family endpoint
    then elim (find_combo_by_name resolved_model r) [
      | none ↦ (ok (resolved_model ∷ []), turns)
      | some combo ↦ expand_combo combo turns
    ]
    else (ok (resolved_model ∷ []), turns)

unfoldable pub rotate_left {ℓ} : {A : Type ℓ} → ℕ → List A → List A
rotate_left n xs = drop n xs ++ take n xs

abbrev pub account_key : String → String
account_key provider_connection_id = String.◌++◌ "provider-account:" provider_connection_id

unfoldable pub order_provider_accounts :
    String
    → List ProviderAccount
    → ProviderAccountRoutingStrategy
    → Turns
    → List ProviderAccount × Turns
unfolding advance rotate_left
order_provider_accounts provider_connection_id accounts by_priority turns = (accounts, turns)
order_provider_accounts provider_connection_id accounts by_turns turns =
    let key = account_key provider_connection_id in
    if ltb 1 (length accounts)
    then (rotate_left (turns key % length accounts) accounts, advance key turns)
    else (accounts, turns)
