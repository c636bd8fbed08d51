-- ===== src/ResponseCache/Policy/Laws.antt =====
-- src/response_cache.rs: what a cacheable request cannot contain.
use kou_router.Prelude.{
  or-false, String, Bool, true, false, not, ◌&&◌, ◌||◌, Option, none, some, List, [], ◌∷◌, str_eq,
  find_first, ◌≡◌, refl, All, Some, arith, eq_iff, Bool-cases, inl, inr, map_option,
}
use kou_router.Models.Endpoint.{EndpointKind, is_chat_family}
use kou_router.Json.{
  Value, null, bool, number, string, array, object, Items, nil, cons, Fields, end, field, get,
  get_field,
}
use kou_router.Upstream.{Headers}
use kou_router.ResponseCache.Policy.{
  temperature_is_zero, contains_key_recursive, items_contain, fields_contain,
  live_passthrough_header, media_keys, first_refusal, refusal_if, refusals, evaluate_policy,
}

-- A value that stands in another one, at any depth.
mutual
  pub data Within : Value → Value → Type 0 where
    itself : {v : Value} → Within v v
    in_array : {v : Value} {items : Items} → WithinItems v items → Within v (array items)
    in_object : {v : Value} {fields : Fields} → WithinFields v fields → Within v (object fields)

  pub data WithinItems : Value → Items → Type 0 where
    in_first : {v w : Value} {items : Items} → Within v w → WithinItems v (cons w items)
    in_rest : {v w : Value} {items : Items} → WithinItems v items → WithinItems v (cons w items)

  pub data WithinFields : Value → Fields → Type 0 where
    in_value :
        {v w : Value} {name : String} {fields : Fields}
        → Within v w
        → WithinFields v (field name w fields)
    in_others :
        {v w : Value} {name : String} {fields : Fields}
        → WithinFields v fields
        → WithinFields v (field name w fields)

get_field-absent :
    (key : String) (fields : Fields)
    → fields_contain fields key ≡ false
    → get_field key fields ≡ none
unfolding get_field contains_key_recursive
get_field-absent key end e = refl
get_field-absent key (field name v fields) e =
    ground (arith, get_field-absent key fields, eq_iff name key, eq_iff key name)

get-absent : (key : String) (v : Value) → contains_key_recursive v key ≡ false → get v key ≡ none
unfolding get contains_key_recursive
get-absent key null e = refl
get-absent key (bool b) e = refl
get-absent key (number n) e = refl
get-absent key (string s) e = refl
get-absent key (array items) e = refl
get-absent key (object fields) e = get_field-absent key fields e

mutual
  unfolding contains_key_recursive

  Within-absent :
      (key : String) (v w : Value)
      → Within v w
      → contains_key_recursive w key ≡ false
      → get v key ≡ none
  Within-absent key v w itself e = get-absent key v e
  Within-absent key v (array items) (in_array i) e = items-absent key v items i e
  Within-absent key v (object fields) (in_object i) e = fields-absent key v fields i e

  items-absent :
      (key : String) (v : Value) (items : Items)
      → WithinItems v items
      → items_contain items key ≡ false
      → get v key ≡ none
  items-absent key v nil i e = elim i [ ]
  items-absent key v (cons w items) (in_first i) e =
      Within-absent key v w i
        (or-false (contains_key_recursive w key) (items_contain items key) e).0
  items-absent key v (cons w items) (in_rest i) e =
      items-absent key v items i
        (or-false (contains_key_recursive w key) (items_contain items key) e).1

  fields-absent :
      (key : String) (v : Value) (fields : Fields)
      → WithinFields v fields
      → fields_contain fields key ≡ false
      → get v key ≡ none
  fields-absent key v end i e = elim i [ ]
  fields-absent key v (field name w fields) (in_value i) e =
      let here = str_eq name key || contains_key_recursive w key in
      Within-absent key v w i
        (or-false (str_eq name key) (contains_key_recursive w key)
          (or-false here (fields_contain fields key) e).0).1
  fields-absent key v (field name w fields) (in_others i) e =
      let here = str_eq name key || contains_key_recursive w key in
      fields-absent key v fields i (or-false here (fields_contain fields key) e).1

find_first-none :
    (p : String → Bool) (xs : List String) (x : String)
    → find_first p xs ≡ none
    → Some (λ (k : String). k ≡ x) xs
    → p x ≡ false
find_first-none p [] x e h = absurd h
find_first-none p (k ∷ xs) x e (inl h) =
    rw (← h) (elim (Bool-cases (p k)) [ inl f ↦ ground arith | inr f ↦ f ])
find_first-none p (k ∷ xs) x e (inr h) = find_first-none p xs x (ground arith) h

first_refusal-allows :
    (os : List (Option String))
    → (first_refusal os).cacheable ≡ true
    → All (λ (o : Option String). o ≡ none) os
unfolding first_refusal
first_refusal-allows [] e = tt
first_refusal-allows (some r ∷ os) e = cc
first_refusal-allows (none ∷ os) e = (refl, first_refusal-allows os e)

refused_name-none : (o : Option String) (f : String → String) → map_option f o ≡ none → o ≡ none
refused_name-none none f e = refl
refused_name-none (some n) f e = cc

temperature_rule :
    (chat allowed zero : Bool) (reason : String)
    → refusal_if (chat && (not allowed && not zero)) reason ≡ none
    → chat ≡ true
    → allowed ≡ false
    → zero ≡ true
temperature_rule chat allowed true reason e c a = refl
temperature_rule chat allowed false reason e c a = ground arith

-- A request that the policy calls cacheable has a temperature of 0 if it is of the chat family and
-- nondeterministic chat is not allowed, has no key of an image, audio or video content in any object
-- at any depth of its body, and comes with no header of a live session.
pub evaluate_policy_safe :
    (endpoint : EndpointKind) (body : Value) (passthrough : Option Headers)
    (allow_nondeterministic_chat : Bool)
    → (evaluate_policy endpoint body passthrough allow_nondeterministic_chat).cacheable ≡ true
    → (is_chat_family endpoint ≡ true
        → allow_nondeterministic_chat ≡ false
        → temperature_is_zero body ≡ true)
      × ((v : Value) (key : String)
          → Within v body
          → Some (λ (k : String). k ≡ key) media_keys
          → get v key ≡ none)
      × (live_passthrough_header passthrough ≡ none)
unfolding evaluate_policy refusals
evaluate_policy_safe endpoint body passthrough allow_nondeterministic_chat e =
    let none_applies =
      first_refusal-allows (refusals endpoint body passthrough allow_nondeterministic_chat) e in
    (
      λ c a.
          temperature_rule (is_chat_family endpoint) allow_nondeterministic_chat
            (temperature_is_zero body) _ none_applies.1.0 c a,
      λ v key w k. Within-absent key v body w (
          find_first-none (contains_key_recursive body) media_keys key
            (refused_name-none _ _ none_applies.1.1.1.1.0) k),
      refused_name-none _ _ none_applies.1.1.1.1.1.0,
    )
