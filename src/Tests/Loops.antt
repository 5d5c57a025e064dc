-- ===== src/Tests/Loops.antt =====
-- The loops of the deleter, the janitor and a consumer's stream at concrete values.
use futureq_v.Prelude.{◌≡◌, ◌≢◌, refl, List, [], ◌∷◌, ◌++◌, none, Bool, true, false}
use futureq_v.Prelude.Result.{ok, err, panic, engine}
use futureq_v.Bytes.{Bytes, be_bytes}
use futureq_v.Dispatcher.Expiry.{is_expired}
use futureq_v.Bytes.Order.{bytes_eq}
use futureq_v.Keys.{event_key}
use futureq_v.Storage.Content.{Entries, get_entry}
use futureq_v.Dispatcher.Hub.{remove_in_flight_for_consumer}
use futureq_v.Dispatcher.Hub.Send.{queued, try_send}
use futureq_v.Dispatcher.Deleter.{DeleteBackend, direct_delete_keys, flush}
use futureq_v.Dispatcher.Deleter.Loop.{Turn, mark, tick, deleter_run, deleter_run_order}
use futureq_v.Dispatcher.Janitor.{sweep}
use futureq_v.Dispatcher.Janitor.Purged.{sweep-flush}
use futureq_v.Handlers.Consumer.{ack_frame, receive}
use futureq_v.Handlers.Consumer.Stream.{Event, frame, push, offer, Stream, stream, step, take_first}
use futureq_v.Handlers.Consumer.Stream.Ordered.{
  carried, accepted, waiting, LastFailed, stream_order,
}
use futureq_v.Tests.Stores.{list_db, payload_codec}
use futureq_v.Tests.Dispatching.{idle, a_hub, a_message, consumer}

-- A backend that fails at its first call.
abbrev second_try : DeleteBackend Bool
second_try keys true = (true, ok tt)
second_try keys false = (true, err (engine 0))

abbrev turns : List Turn
turns = mark (1 ∷ []) ∷ tick ((3 ∷ []) ∷ []) ∷ mark (2 ∷ []) ∷ []

never_panics : (keys : List Bytes) (s : Bool) → (second_try keys s).1 ≢ panic
never_panics keys true h = cc
never_panics keys false h = cc

-- The key 3 is marked while the first flush fails, the key 4 during the last one.
deleter_run_order_example :
    let r = deleter_run second_try turns ((4 ∷ []) ∷ []) idle false in
    (r.0.1 ++ r.0.0.pending ≡ (1 ∷ []) ∷ (3 ∷ []) ∷ (2 ∷ []) ∷ (4 ∷ []) ∷ [])
    × (r.0.0.flushing ≡ none)
deleter_run_order_example =
    deleter_run_order second_try turns ((4 ∷ []) ∷ []) idle false never_panics refl

-- ── the janitor ──

abbrev old_event : Entries
old_event = (event_key 1 1 1, 9 ∷ []) ∷ []

sweep-flush_example :
    get_entry
      (event_key 1 1 1)
      (flush
        (direct_delete_keys list_db)
        (sweep payload_codec 6 list_db old_event idle).0
        old_event).1
    ≡ none
unfolding event_key be_bytes bytes_eq is_expired
sweep-flush_example =
    sweep-flush list_db (λ k b. refl) (λ b d. refl) payload_codec 6 idle old_event (event_key 1 1 1)
      (λ v e. cc) refl tt refl

-- ── a stream ──

abbrev calm : Stream
calm = record {
  dispatcher = record { hub = a_hub; deleter = idle; in_flight = []; ticks = 0 };
  sent = [];
  unsent = [];
  ended = none;
}

abbrev events : List Event
events =
    offer 4 (consumer (1 ∷ []) 1) a_message (5 ∷ [])
    ∷ push (ok tt)
    ∷ frame (ok (ack_frame (5 ∷ []) true))
    ∷ offer 4 (consumer (1 ∷ []) 1) a_message (5 ∷ [])
    ∷ push (err (engine 0))
    ∷ offer 4 (consumer (1 ∷ []) 1) a_message (5 ∷ [])
    ∷ []

-- The third offer comes when the stream has ended.
stream_order_example :
    (carried 1 (stream (1 ∷ []) 1 events calm) ≡ a_message ∷ a_message ∷ [])
    × LastFailed (stream (1 ∷ []) 1 events calm)
unfolding waiting accepted step queued try_send take_first receive remove_in_flight_for_consumer
stream_order_example = stream_order events (1 ∷ []) 1 calm refl
