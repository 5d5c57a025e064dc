-- ===== src/Handlers/Consumer/Stream.antt =====
-- internal/api/grpc/handlers/consumer.go: the goroutines of a consumer's stream, side by side with the
-- hub, up to the first one that ends.
pub mod Ordered
use futureq_v.Prelude.{
  ℕ, List, [], ◌∷◌, ◌++◌, Option, none, some, Bool, true, false, ◌==◌, if◌then◌else◌,
}
use futureq_v.Prelude.Result.{
  Result, ok, err, panic, Error, end_of_file, canceled, deadline_exceeded, stream_failed,
}
use futureq_v.Bytes.{Bytes}
use futureq_v.Dispatcher.Hub.{ConsumerEntry, QueueMessage}
use futureq_v.Dispatcher.Hub.Send.{try_send}
use futureq_v.Dispatcher.Dispatch.{Dispatcher}
use futureq_v.Handlers.Consumer.{ConsumerFrame, receive, disconnect}

-- `<-ch`, if something waits in the channel.
unfoldable pub take_first :
    ℕ → List (ℕ × QueueMessage) → Option (QueueMessage × List (ℕ × QueueMessage))
take_first ch [] = none
take_first ch ((c, m) ∷ rest) =
    if c == ch
    then some (m, rest)
    else elim (take_first ch rest) [ none ↦ none | some (m', rest') ↦ some (m', (c, m) ∷ rest') ]

-- What happens: a frame of the client or the end of its frames, a message from the channel with the
-- result of `Send`, the end of the context, or a send of the hub to some consumer.
pub data Event : Type 0 where
  frame : Result ConsumerFrame → Event
  push : Result (Unit {0}) → Event
  done : Error → Event
  offer : (capacity : ℕ) → ConsumerEntry → QueueMessage → (tag : Bytes) → Event

-- `sent` reached the client; `unsent` left the channel, but its `Send` failed. `ended` is what came
-- through the channel of errors first.
pub record Stream : Type 0 where
  pub dispatcher : Dispatcher
  pub sent : List QueueMessage
  pub unsent : List QueueMessage
  pub ended : Option (Result (Unit {0}))

abbrev end_with : Result (Unit {0}) → Stream → Stream
end_with r s = record s { ended = some r }

-- ── receiver ──

abbrev receive_error : Error → Result (Unit {0})
receive_error end_of_file = ok tt
receive_error e = err e

abbrev received : Bytes → Result ConsumerFrame → Stream → Stream
received id (ok f) s = record s { dispatcher = receive id f s.dispatcher }
received id (err e) s = end_with (receive_error e) s
received id panic s = end_with panic s

-- ── sender ──

abbrev with_buffers : List (ℕ × QueueMessage) → Dispatcher → Dispatcher
with_buffers bs d = record d { hub = record d.hub { buffers = bs } }

abbrev after_send : QueueMessage → Result (Unit {0}) → Stream → Stream
after_send m (ok u) s = record s { sent = s.sent ++ (m ∷ []) }
after_send m (err e) s = record s { unsent = s.unsent ++ (m ∷ []); ended = some (err e) }
after_send m panic s = record s { unsent = s.unsent ++ (m ∷ []); ended = some panic }

abbrev send_taken :
    Option (QueueMessage × List (ℕ × QueueMessage)) → Result (Unit {0}) → Stream → Stream
send_taken none r s = s
send_taken (some (m, rest)) r s =
    after_send m r (record s { dispatcher = with_buffers rest s.dispatcher })

unfoldable pub step : (id : Bytes) (ch : ℕ) → Event → Stream → Stream
unfolding take_first
step id ch (frame f) s = received id f s
step id ch (push r) s = send_taken (take_first ch s.dispatcher.hub.buffers) r s
step id ch (done e) s = end_with (err e) s
step id ch (offer capacity c msg tag) s = record s {
  dispatcher = record s.dispatcher { hub = (try_send capacity c msg tag s.dispatcher.hub).0 };
}

-- `Subscribe` waits for the first error; what the other goroutine does after it is left out.
unfoldable pub stream : (id : Bytes) (ch : ℕ) → List Event → Stream → Stream
unfolding step
stream id ch [] s = s
stream id ch (ev ∷ evs) s = elim s.ended [ some r ↦ s | none ↦ stream id ch evs (step id ch ev s) ]

-- ── the end of Subscribe ──

abbrev reported : Error → Result (Unit {0})
reported canceled = ok tt
reported deadline_exceeded = ok tt
reported end_of_file = ok tt
reported e = err stream_failed

abbrev stream_result : Result (Unit {0}) → Result (Unit {0})
stream_result (ok u) = ok tt
stream_result (err e) = reported e
stream_result panic = panic

-- The result, and the deferred `Unregister`; none while the stream lives.
unfoldable pub subscribe_end : (id : Bytes) → Stream → Option (Dispatcher × Result (Unit {0}))
subscribe_end id s = elim s.ended [
  | none ↦ none
  | some r ↦ some (disconnect id s.dispatcher, stream_result r)
]
