-- ===== src/Adapt/Responses/Laws.antt =====
-- src/service.rs: what a body rebuilt from a transcript holds.
use kou_router.Prelude.{[], is_some, Option, true, ◌≡◌}
use kou_router.Json.{get, Value, null, string, Fields, or_insert_field, has}
use kou_router.Json.Laws.{has-or_insert_field, is_some-or_insert_field}
use kou_router.Adapt.Sse.{parse_sse_events}
use kou_router.Json.{insert_field, end}
use kou_router.Adapt.Responses.{
  with_output, read_events, reconstruct_responses_from_sse, with_defaults, String,
}

-- The defaults are set or were there.
with_defaults_complete :
    (o : Fields)
    → let r = with_defaults o in
      (has "id" r ≡ true)
      × (has "model" r ≡ true)
      × (has "status" r ≡ true)
      × (has "usage" r ≡ true)
      × (has "error" r ≡ true)
unfolding with_defaults
with_defaults_complete o =
    let a = or_insert_field "id" (string "resp_kou_router") o in
    let b = or_insert_field "model" null a in
    let c = or_insert_field "status" (string "completed") b in
    let d = or_insert_field "usage" null c in
    (
      has-or_insert_field "id" "error" null d (
          has-or_insert_field "id" "usage" null c (
            has-or_insert_field "id" "status" (string "completed") b (
              has-or_insert_field "id" "model" null a
                (is_some-or_insert_field "id" (string "resp_kou_router") o)))),
      has-or_insert_field "model" "error" null d (
          has-or_insert_field "model" "usage" null c (
            has-or_insert_field "model" "status" (string "completed") b
              (is_some-or_insert_field "model" null a))),
      has-or_insert_field "status" "error" null d (
          has-or_insert_field "status" "usage" null c
            (is_some-or_insert_field "status" (string "completed") b)),
      has-or_insert_field "usage" "error" null d (is_some-or_insert_field "usage" null c),
      is_some-or_insert_field "error" null d,
    )

-- Whatever the transcript, the body has an id, a model, a status, a usage and an error.
pub reconstruct_responses_from_sse_complete :
    (from_str : String → Option Value) (transcript : String)
    → let r = reconstruct_responses_from_sse from_str transcript in
      (is_some (get r "id") ≡ true)
      × (is_some (get r "model") ≡ true)
      × (is_some (get r "status") ≡ true)
      × (is_some (get r "usage") ≡ true)
      × (is_some (get r "error") ≡ true)
unfolding reconstruct_responses_from_sse get
reconstruct_responses_from_sse_complete from_str transcript = with_defaults_complete (
    with_output (
      read_events from_str (parse_sse_events transcript) (record {
        response = insert_field "object" (string "response") end;
        output_items = [];
        synthesized_text = "";
      })))
