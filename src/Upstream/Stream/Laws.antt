-- ===== src/Upstream/Stream/Laws.antt =====
-- src/upstream.rs: what a relayed stream delivers, and what the tee records of it.
use Prim.Native.String
use text.Mathlib.TextLemmas.{append_assoc, append-nil, nil-append}
use kou_router.Prelude.{String, List, [], ◌∷◌, ◌++◌, ◌≡◌, refl, ap, sym, ◌∙◌, map}
use kou_router.Upstream.{Poll, chunk, broken, idle}
use kou_router.Upstream.Stream.{
  Item, bytes, failure, watchdog_stream, tee_stream, received, timeout_event,
}

-- How the watchdog ends a stream at a poll that brings no bytes.
abbrev pub closing : String → Poll → List Item
closing secs (chunk b) = bytes b ∷ []
closing secs (broken e) = failure e ∷ []
closing secs idle = bytes (timeout_event secs) ∷ []

abbrev pub IsEnd : Poll → Type 0
IsEnd (chunk b) = ⊥
IsEnd (broken e) = Unit
IsEnd idle = Unit

watchdog_stream-cut :
    (secs : String) (bs : List String) (p : Poll) (rest : List Poll)
    → IsEnd p
    → watchdog_stream secs (map chunk bs ++ p ∷ rest) ≡ map bytes bs ++ closing secs p
unfolding watchdog_stream
watchdog_stream-cut secs [] (broken e) rest h = refl
watchdog_stream-cut secs [] idle rest h = refl
watchdog_stream-cut secs [] (chunk b) rest h = absurd h
watchdog_stream-cut secs (b ∷ bs) p rest h =
    ap (λ l. bytes b ∷ l) (watchdog_stream-cut secs bs p rest h)

tee_stream-items : (items : List Item) (buffer : String) → (tee_stream items buffer).0 ≡ items
unfolding tee_stream
tee_stream-items [] buffer = refl
tee_stream-items (bytes b ∷ items) buffer =
    ap (λ l. bytes b ∷ l) (tee_stream-items items (String.◌++◌ buffer b))
tee_stream-items (failure e ∷ items) buffer =
    ap (λ l. failure e ∷ l) (tee_stream-items items buffer)

tee_stream-buffer :
    (items : List Item) (buffer : String)
    → (tee_stream items buffer).1 ≡ String.◌++◌ buffer (received items)
unfolding tee_stream
tee_stream-buffer [] buffer = sym (append-nil buffer)
tee_stream-buffer (bytes b ∷ items) buffer =
    tee_stream-buffer items (String.◌++◌ buffer b) ∙ append_assoc buffer b (received items)
tee_stream-buffer (failure e ∷ items) buffer = tee_stream-buffer items buffer

-- Behind the watchdog and the tee the client receives every chunk up to the first error or idle
-- timeout and then one closing item, the error or the timeout event, and nothing of what the
-- upstream sends later; the buffer holds exactly the bytes that the client received.
pub relay_exact :
    (secs : String) (bs : List String) (p : Poll) (rest : List Poll)
    → IsEnd p
    → let items = watchdog_stream secs (map chunk bs ++ p ∷ rest) in
      ((tee_stream items "").0 ≡ map bytes bs ++ closing secs p)
      × ((tee_stream items "").1 ≡ received (map bytes bs ++ closing secs p))
relay_exact secs bs p rest h =
    let cut = watchdog_stream-cut secs bs p rest h in
    (
      tee_stream-items (watchdog_stream secs (map chunk bs ++ p ∷ rest)) "" ∙ cut,
      tee_stream-buffer (watchdog_stream secs (map chunk bs ++ p ∷ rest)) ""
          ∙ nil-append _
          ∙ ap received cut,
    )
