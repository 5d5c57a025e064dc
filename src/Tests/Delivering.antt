-- ===== src/Tests/Delivering.antt =====
-- A message published and dispatched at concrete values.
use futureq_v.Prelude.{ℕ, List, map, ◌≡◌, refl, [], ◌∷◌, some, none, inl, true, false, arith}
use futureq_v.Prelude.Result.{ok, err, engine}
use futureq_v.Prelude.Method.{M, for_each}
use futureq_v.Bytes.{Bytes, be_bytes}
use futureq_v.Bytes.Order.{bytes_eq, bytes_lt}
use futureq_v.Keys.{event_key, calculate_bucket, topic_lower_bound, due_upper_bound}
use futureq_v.Maps.{lookup}
use futureq_v.Storage.{range}
use futureq_v.Storage.Content.{Entries, get_entry}
use futureq_v.Repository.{store_with_batch}
use futureq_v.Dispatcher.Hub.Send.{dispatch_to_topic, queued}
use futureq_v.Dispatcher.Expiry.{is_expired}
use futureq_v.Dispatcher.Dispatch.{Dispatcher, dispatch_topic, queue_message}
use futureq_v.Handlers.Producer.Stream.{
  Batch, turn_of, process_one, handle, publish, publish-for_each,
}
use futureq_v.Dispatcher.Loop.{Event, woken, timer_fired, World}
use futureq_v.Config.{AckLevel, quorum, no_ack}
use futureq_v.Handlers.Producer.{
  process_batch, Message, Node, process_standalone_batch, marshal_messages,
}
use futureq_v.Handlers.Producer.Delivered.{published-dispatched}
use futureq_v.Tests.Stores.{list_db, payload_codec, message_of}
use futureq_v.Dispatcher.Deleter.{direct_delete_keys}
use futureq_v.Handlers.Consumer.{ConsumerFrame, ack_frame, receive_all}
use futureq_v.App.Wiring.{flush_wired, receive_all-flush}
use futureq_v.Tests.Dispatching.{topic_a, a_hub, idle}

abbrev a_publication : Message
a_publication = record { topic = topic_a; payload = 9 ∷ []; delay = 0; ttl = 1; indexes = [] }

abbrev empty_node : Node Entries
empty_node = record { db = []; last_id = 0 }

abbrev waiting_dispatcher : Dispatcher
waiting_dispatcher = record { hub = a_hub; deleter = idle; in_flight = []; ticks = 0 }

abbrev clock_of : ℕ → ℕ
clock_of n = 1000

-- The group of two consumers takes the message at once.
published-dispatched_example :
    let stored =
      (process_standalone_batch list_db payload_codec 0 (a_publication ∷ []) 5 empty_node).0 in
    let r =
      dispatch_topic clock_of 200 4 payload_codec topic_a 5 list_db 0 stored.db
        waiting_dispatcher in
    let (hub, sent_to) =
      dispatch_to_topic 4 topic_a
        (queue_message (message_of (9 ∷ [])) (event_key 5 1 1))
        (event_key 5 1 1)
        a_hub in
    (r.0.hub ≡ hub)
    × (r.1 ≡ ok 1)
    × (lookup (event_key 5 1 1) r.0.in_flight
        ≡ some (record { dispatched_at = 1000; topic = topic_a }))
unfolding process_standalone_batch marshal_messages store_with_batch calculate_bucket
    dispatch_to_topic lookup bytes_eq queued event_key be_bytes bytes_lt is_expired
    topic_lower_bound due_upper_bound range
published-dispatched_example =
    published-dispatched list_db payload_codec 0 clock_of 200 4 5 5 5 a_publication (9 ∷ [])
      empty_node _ waiting_dispatcher (inl refl) refl (omega arith) refl refl refl (omega arith)
      (omega arith) refl refl refl refl refl refl

-- ── an acknowledgement ──

abbrev acked_and_refused : List ConsumerFrame
acked_and_refused = ack_frame (5 ∷ []) true ∷ ack_frame (6 ∷ []) false ∷ []

abbrev two_entries : Entries
two_entries = (5 ∷ [], 9 ∷ []) ∷ (6 ∷ [], 9 ∷ []) ∷ []

abbrev two_flying : Dispatcher
two_flying = record waiting_dispatcher {
  in_flight =
      (5 ∷ [], record { dispatched_at = 1; topic = topic_a })
      ∷ (6 ∷ [], record { dispatched_at = 1; topic = topic_a })
      ∷ [];
}

receive_all-flush_example :
    let r =
      flush_wired
        (direct_delete_keys list_db)
        (receive_all (1 ∷ []) acked_and_refused two_flying)
        two_entries in
    (get_entry (5 ∷ []) r.1 ≡ none) × (lookup (5 ∷ []) r.0.in_flight ≡ none)
unfolding bytes_eq bytes_lt lookup
receive_all-flush_example =
    receive_all-flush list_db (λ k b. refl) (λ b d. refl) (1 ∷ []) acked_and_refused two_flying
      two_entries (5 ∷ []) (refl, tt) (refl, (refl, tt)) refl

-- ── a stream of batches ──

abbrev two_batches : List (Batch × ℕ)
two_batches =
    (record { messages = a_publication ∷ []; level = quorum }, 5)
    ∷ (record { messages = []; level = quorum }, 6)
    ∷ []

abbrev refuse_command : AckLevel → Bytes → M (Node Entries) (Unit {0})
refuse_command level cmd n = (n, err (engine 0))

abbrev process_batches : M (Node Entries) (Unit {0})
process_batches =
    for_each (process_one (handle list_db payload_codec 0 no_ack none 1 refuse_command)) two_batches

publish-for_each_example :
    publish list_db payload_codec 0 no_ack none 1 refuse_command
      (map turn_of two_batches)
      empty_node
    ≡ (((process_batches empty_node).0, true ∷ false ∷ []), none)
unfolding process_batch process_standalone_batch marshal_messages store_with_batch calculate_bucket
publish-for_each_example =
    publish-for_each list_db payload_codec 0 no_ack none 1 refuse_command two_batches empty_node
      (process_batches empty_node).0 refl

-- ── followers ──

abbrev followed : List (Event × World Entries)
followed =
    (woken, record { now = 5; store = two_entries; node_host = some (ok (2, true)) })
    ∷ (timer_fired, record { now = 6; store = two_entries; node_host = some (err (engine 0)) })
    ∷ []
