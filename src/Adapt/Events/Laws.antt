-- ===== src/Adapt/Events/Laws.antt =====
-- src/service.rs: how a translated stream ends.
use Prim.Native.String
use kou_router.Prelude.{
  String, Bool, true, false, List, [], ◌∷◌, ◌≡◌, refl, take, Bool-cases, inl, inr, if◌then◌else◌,
}
use kou_router.Text.{is_empty_text}
use kou_router.Json.{Value}
use kou_router.Models.Endpoint.{EndpointKind}
use kou_router.Upstream.Stream.{Item, bytes, failure}
use kou_router.Text.{is_empty_text, trim, split_text}
use kou_router.Adapt.Events.{
  translate_events, parted, closing_text, ResponsesStreamState, initial, yielded, last_items,
  relay_from, closing_text, responses_sse_to_endpoint_stream, Option,
}

-- The errors that a stream delivers.
abbrev pub failures : List Item → List String
failures [] = []
failures (bytes b ∷ items) = failures items
failures (failure e ∷ items) = e ∷ failures items

-- Nothing stands behind an error.
abbrev pub EndsAtFailure : List Item → Type 0
EndsAtFailure [] = Unit
EndsAtFailure (bytes b ∷ items) = EndsAtFailure items
EndsAtFailure (failure e ∷ items) = items ≡ []

module _ (from_str : String → Option Value) (to_string : Value → String)
    (endpoint : EndpointKind) where
  abbrev Faithful : List String → List Item → Type 0
  Faithful errors items = (failures items ≡ errors) × EndsAtFailure items

  yielded-Faithful :
      (texts : List String) (items : List Item) (errors : List String)
      → Faithful errors items
      → Faithful errors (yielded from_str to_string endpoint texts items)
  yielded-Faithful [] items errors h = h
  yielded-Faithful (text ∷ texts) items errors h = elim (Bool-cases (is_empty_text text)) [
    | inl e ↦ rw e (yielded-Faithful texts items errors h)
    | inr e ↦ rw e (yielded-Faithful texts items errors h)
  ]

  closed-Faithful :
      (done : Bool) (text : String) → Faithful [] (if done then [] else bytes text ∷ [])
  closed-Faithful true text = (refl, tt)
  closed-Faithful false text = (refl, tt)

  relay_from-Faithful :
      (items : List Item) (pending : String) (state : ResponsesStreamState)
      → Faithful
          (take 1 (failures items))
          (relay_from from_str to_string endpoint items pending state)
  unfolding relay_from last_items
  relay_from-Faithful [] pending state =
      let out =
        translate_events from_str to_string endpoint
          (if is_empty_text (trim pending) then [] else pending ∷ []) state in
      let last = closing_text from_str to_string endpoint out.1 in
      yielded-Faithful out.0 (if out.1.done then [] else bytes last ∷ []) []
        (closed-Faithful out.1.done last)
  relay_from-Faithful (failure e ∷ items) pending state = (refl, refl)
  relay_from-Faithful (bytes b ∷ items) pending state =
      let pieces = parted from_str to_string endpoint (split_text "\n\n" (String.◌++◌ pending b)) in
      let out = translate_events from_str to_string endpoint pieces.0 state in
      yielded-Faithful out.0 (relay_from from_str to_string endpoint items pieces.1 out.1)
        (take 1 (failures items)) (relay_from-Faithful items pieces.1 out.1)

  -- The translated stream delivers the first error of the stream and no other, and nothing behind it;
  -- a stream without errors is translated to one without errors.
  pub responses_sse_to_endpoint_stream-failures :
      (items : List Item)
      → let out = responses_sse_to_endpoint_stream from_str to_string endpoint items in
        (failures out ≡ take 1 (failures items)) × EndsAtFailure out
  unfolding responses_sse_to_endpoint_stream
  responses_sse_to_endpoint_stream-failures items = relay_from-Faithful items "" initial
