-- ===== src/Routing/Candidates/Laws.antt =====
-- src/service.rs: what round robin guarantees.
use kou_router.Prelude.{
  tests, ltb, ltb_false→le, get_elem?, take-append-drop, ℕ, suc, zero, ◌+◌, ◌-◌, ◌%◌, ◌^◌, ◌<◌, ◌≡◌,
  refl, ap, sym, ◌∙◌, ◌⊎◌, ◌↔◌, inl, inr, String, true, not, List, [], ◌∷◌, ◌++◌, str_eq, keep,
  length, drop, take, Some, arith, eq_iff, eq_refl, Bool-cases,
}
use native.Mathlib.Nat.{mod-add-mod, mod-eq_of_lt, mod-lt, add-mod_right}
use native.Mathlib.Decide.{dec_le}
use mathlib.Core.Path.{subst}
use mathlib.Core.List.{Perm, perm_append_comm}
use mathlib.Core.List.Perm
use kou_router.Errors.{ok}
use kou_router.Models.{
  ComboStrategy, priority_first, ProviderAccount, by_priority, by_turns,
  ProviderAccountRoutingStrategy, Combo, round_robin,
}
use kou_router.Routing.Candidates.{
  by_strategy, Turns, advance, index, pick_round_robin, expand_combo, rotate_left, account_key,
  order_provider_accounts,
}

-- The turns after a number of calls for one combo.
pub turns_after : String → List String → ℕ → Turns → Turns
turns_after name models zero turns = turns
turns_after name models (suc n) turns =
    (pick_round_robin name models (turns_after name models n turns)).1

turns_after-key :
    (name m : String) (models : List String) (n : ℕ) (turns : Turns)
    → turns name + n < 2 ^ 64
    → turns_after name (m ∷ models) n turns name ≡ turns name + n
unfolding turns_after pick_round_robin advance
turns_after-key name m models zero turns h = omega arith
turns_after-key name m models (suc n) turns h =
    ground (arith, eq_refl name, turns_after-key name m models n turns)

reach : (t l i : ℕ) → i < l → (n : ℕ) × (n < l) × ((t + n) % l ≡ i)
reach t l i h = elim (dec_le (t % l) i) [
  | yes p ↦ (
    i - t % l,
    omega arith,
    sym (mod-add-mod t l (i - t % l)) ∙ ap (λ (k : ℕ). k % l) (omega arith) ∙ mod-eq_of_lt h,
  )
  | no p ↦ (
    i + l - t % l,
    omega arith,
    sym (mod-add-mod t l (i + l - t % l))
        ∙ ap (λ (k : ℕ). k % l) (omega (arith, mod-lt t {m = l} (omega arith)))
        ∙ add-mod_right i l
        ∙ mod-eq_of_lt h,
  )
]

-- Every model of a combo is picked at some call among as many consecutive calls as the combo has
-- models, as long as the turn does not wrap meanwhile.
pub pick_round_robin_fair :
    (name m : String) (models : List String) (turns : Turns) (i : ℕ)
    → i < length (m ∷ models)
    → turns name + length (m ∷ models) < 2 ^ 64
    → (n : ℕ) × (n < length (m ∷ models))
      × ((pick_round_robin name (m ∷ models) (turns_after name (m ∷ models) n turns)).0
          ≡ ok (index (m ∷ models) i))
unfolding pick_round_robin
pick_round_robin_fair name m models turns i h small =
    let (n, less, hit) = reach (turns name) (length (m ∷ models)) i h in
    (n, less, rw (turns_after-key name m models n turns (omega arith), hit))

index-Some :
    (models : List String) (i : ℕ)
    → i < length models
    → Some (λ (c : String). c ≡ index models i) models
unfolding index
index-Some [] i h = elim h [ ]
index-Some (m ∷ models) zero h = inl refl
index-Some (m ∷ models) (suc i) h = inr (index-Some models i (omega arith))

module _ (picked x : String) where
  keep-Some :
      (models : List String)
      → Some (λ (c : String). c ≡ x) (keep (λ (m : String). not (str_eq m picked)) models)
      → Some (λ (c : String). c ≡ x) models
  keep-Some [] h = h
  keep-Some (m ∷ models) h = ground (arith, keep-Some models)

  Some-keep :
      (models : List String)
      → Some (λ (c : String). c ≡ x) models
      → (picked ≡ x)
        ⊎ Some (λ (c : String). c ≡ x) (keep (λ (m : String). not (str_eq m picked)) models)
  Some-keep [] h = absurd h
  Some-keep (m ∷ models) (inl e) = ground (arith, eq_iff m picked)
  Some-keep (m ∷ models) (inr h) = elim (Some-keep models h) [
    | inl e ↦ inl e
    | inr k ↦ ground (arith, eq_iff m picked)
  ]

  found-Some :
      (models : List String)
      → Some (λ (c : String). c ≡ picked) models
      → picked ≡ x
      → Some (λ (c : String). c ≡ x) models
  found-Some models h e = subst (λ (y : String). Some (λ (c : String). c ≡ y) models) e h

by_strategy_same_models :
    (strategy : ComboStrategy) (name : String) (models : List String) (turns : Turns)
    {candidates : List String} (x : String)
    → (by_strategy strategy name models turns).0 ≡ ok candidates
    → Some (λ (c : String). c ≡ x) candidates ↔ Some (λ (c : String). c ≡ x) models
unfolding by_strategy
by_strategy_same_models priority_first name models turns {candidates} x h =
    let e : models ≡ candidates = cc in rw e ((λ k. k), (λ k. k))
by_strategy_same_models round_robin name [] turns x h = cc
by_strategy_same_models round_robin name (m ∷ models) turns {candidates} x h =
    let picked = index (m ∷ models) (turns name % length (m ∷ models)) in
    let e : picked ∷ keep (λ (m : String). not (str_eq m picked)) (m ∷ models) ≡ candidates = cc in
    let here = index-Some (m ∷ models) (turns name % length (m ∷ models)) (omega arith) in
    rw (← e) (
      (λ k. elim k [
        | inl p ↦ found-Some picked x (m ∷ models) here p
        | inr k' ↦ keep-Some picked x (m ∷ models) k'
      ]),
      (λ k. Some-keep picked x (m ∷ models) k),
    )

-- The candidates of an enabled combo are, as a set, the combo's models, under either strategy; an
-- enabled combo with models always has candidates, and a disabled one is refused.
pub expand_combo_same_models :
    (combo : Combo) (turns : Turns) {candidates : List String} (x : String)
    → (expand_combo combo turns).0 ≡ ok candidates
    → (combo.enabled ≡ true)
      × (Some (λ (c : String). c ≡ x) candidates ↔ Some (λ (c : String). c ≡ x) combo.models)
unfolding expand_combo
expand_combo_same_models combo turns x h = elim (Bool-cases combo.enabled) [
  | inl on ↦
      (on, by_strategy_same_models combo.strategy combo.name combo.models turns x (ground arith))
  | inr off ↦ ground arith
]

rotate_left-perm {ℓ} : {A : Type ℓ} (n : ℕ) (xs : List A) → Perm (rotate_left n xs) xs
unfolding rotate_left
rotate_left-perm n xs =
    Perm.trans (perm_append_comm (drop n xs) (take n xs))
      (rw (take-append-drop n xs) (Perm.refl xs))

head-drop :
    {A : Type 0} (n : ℕ) (xs ys : List A)
    → n < length xs
    → get_elem? (drop n xs ++ ys) 0 ≡ get_elem? xs n
head-drop n [] ys h = elim h [ ]
head-drop zero (x ∷ xs) ys h = refl
head-drop (suc n) (x ∷ xs) ys h = head-drop n xs ys (omega arith)

head-rotate_left :
    {A : Type 0} (n : ℕ) (xs : List A)
    → n < length xs
    → get_elem? (rotate_left n xs) 0 ≡ get_elem? xs n
unfolding rotate_left
head-rotate_left n xs h = head-drop n xs (take n xs) h

-- The accounts of a provider are all tried, each as often as it is listed, in every strategy; under
-- round robin with several accounts the first is the one at the turn's remainder, and the turn goes
-- on by one.
pub order_provider_accounts_turns :
    (id : String) (accounts : List ProviderAccount) (strategy : ProviderAccountRoutingStrategy)
    (turns : Turns)
    → Perm (order_provider_accounts id accounts strategy turns).0 accounts
      × (strategy ≡ by_turns
          → 1 < length accounts
          → (get_elem? (order_provider_accounts id accounts strategy turns).0 0
              ≡ get_elem? accounts (turns (account_key id) % length accounts))
            × ((order_provider_accounts id accounts strategy turns).1
                ≡ advance (account_key id) turns))
unfolding order_provider_accounts
order_provider_accounts_turns id accounts by_priority turns = (Perm.refl accounts, λ e. cc)
order_provider_accounts_turns id accounts by_turns turns =
    elim (Bool-cases (ltb 1 (length accounts))) [
      | inl more ↦
          rw more
            (rotate_left-perm _ accounts, λ e h. (head-rotate_left _ accounts (omega arith), refl))
      | inr one ↦
          rw one (
            Perm.refl accounts,
            λ e h. absurd (omega (tests, ltb_false→le 1 (length accounts) one)),
          )
    ]
