-- ===== src/Adapt/Sse.antt =====
-- src/service.rs: the events of an SSE transcript.
use kou_router.Prelude.{
  String, Bool, false, ◌||◌, Option, none, some, List, [], ◌∷◌, ◌++◌, any, if◌then◌else◌, is_empty,
  is_some, not, str_eq, ◌&&◌, ◌==◌,
}
use kou_router.Text.{
  lines, trim, trim_start, trim_end_matches, starts_with, strip_prefix, is_empty_text, join,
  ends_with,
}
use Prim.Native.Char.{code}

unfoldable pub is_sse_transcript : String → Bool
unfolding lines trim_start
is_sse_transcript body =
    any (λ line. starts_with (trim_start line) "event:" || starts_with (trim_start line) "data:")
      (lines body)

abbrev pub Event : Type 0
Event = Option String × String

-- The mutable variables of `parse_sse_events`.
pub record Reading : Type 0 where
  pub events : List Event
  pub event_name : Option String
  pub data_lines : List String

-- The closure `flush_event`.
unfoldable pub flush_event : Reading → Reading
flush_event r = if not (is_some r.event_name) && is_empty r.data_lines then r else record {
  events = r.events ++ (r.event_name, join "\n" r.data_lines) ∷ [];
  event_name = none;
  data_lines = [];
}

-- A line that is not empty.
unfoldable pub read_field : String → Reading → Reading
unfolding strip_prefix trim trim_start
read_field line r = elim (strip_prefix "event:" line) [
  | some rest ↦ record r { event_name = some (trim rest) }
  | none ↦ elim (strip_prefix "data:" line) [
    | some rest ↦ record r { data_lines = r.data_lines ++ trim_start rest ∷ [] }
    | none ↦ r
  ]
]

unfoldable pub read_line : String → Reading → Reading
unfolding flush_event read_field trim_end_matches
read_line raw_line r =
    let line = trim_end_matches (λ c. code c == 13) raw_line in
    if is_empty_text line then flush_event r else read_field line r

unfoldable pub read_lines : List String → Reading → Reading
unfolding read_line
read_lines [] r = r
read_lines (line ∷ rest) r = read_lines rest (read_line line r)

unfoldable pub parse_sse_events : String → List Event
unfolding read_lines lines flush_event
parse_sse_events body =
    (flush_event
      (read_lines (lines body) (record { events = []; event_name = none; data_lines = [] }))).events

-- Whether an event is named and its name ends so: `is_some_and(|name| name.ends_with(...))`.
abbrev pub named : String → Option String → Bool
named ending none = false
named ending (some name) = ends_with name ending

-- The payload is empty, or the mark that ends a stream.
abbrev pub says_nothing : String → Bool
says_nothing payload = is_empty_text payload || str_eq payload "[DONE]"
