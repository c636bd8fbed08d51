-- ===== src/Upstream/Stream.antt =====
-- src/upstream.rs: the idle watchdog and the tee around a relayed byte stream.
pub mod Laws
use Prim.Native.String
use kou_router.Prelude.{String, List, [], ◌∷◌}
use kou_router.Upstream.{Poll, chunk, broken, idle}

-- What the client of the stream receives.
pub data Item : Type 0 where
  bytes : String → Item
  failure : String → Item

-- The SSE event that stands for a timeout; the digits of the seconds are a parameter.
unfoldable pub timeout_event : String → String
timeout_event secs =
    String.◌++◌ "data: {\"error\": {\"message\": \"stream idle timeout after "
      (String.◌++◌ secs "s\", \"type\": \"stream_timeout\"}}\n\n")

-- `watchdog_stream`: relays until the end, the first error, or the first timeout.
unfoldable pub watchdog_stream : String → List Poll → List Item
watchdog_stream secs [] = []
watchdog_stream secs (chunk b ∷ polls) = bytes b ∷ watchdog_stream secs polls
watchdog_stream secs (broken e ∷ polls) = failure e ∷ []
watchdog_stream secs (idle ∷ polls) = bytes (timeout_event secs) ∷ []

-- `tee_stream_boxerror`: what the client receives, and the buffer once all of it was polled.
unfoldable pub tee_stream : List Item → String → List Item × String
tee_stream [] buffer = ([], buffer)
tee_stream (bytes b ∷ items) buffer =
    let rest = tee_stream items (String.◌++◌ buffer b) in (bytes b ∷ rest.0, rest.1)
tee_stream (failure e ∷ items) buffer =
    let rest = tee_stream items buffer in (failure e ∷ rest.0, rest.1)

-- The bytes that the client receives, in order.
abbrev pub received : List Item → String
received [] = ""
received (bytes b ∷ items) = String.◌++◌ b (received items)
received (failure e ∷ items) = received items
