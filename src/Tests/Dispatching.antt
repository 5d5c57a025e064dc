-- ===== src/Tests/Dispatching.antt =====
-- The hub, the dispatcher, the janitor and the deleter at concrete values.
use futureq_v.Prelude.{ℕ, ◌+◌, ◌≤◌, ◌≡◌, refl, List, [], ◌∷◌, ◌++◌, none, some, true, false, arith}
use futureq_v.Prelude.Result.{ok, engine}
use futureq_v.Prelude.Method.{M, for_each}
use futureq_v.Bytes.{Bytes}
use futureq_v.Bytes.Order.{bytes_eq}
use futureq_v.Keys.{event_key, calculate_bucket}
use futureq_v.Maps.{Map, lookup}
use futureq_v.Dispatcher.Hub.{Hub, ConsumerEntry, QueueMessage, TopicSubscription, new_hub}
use futureq_v.Dispatcher.Hub.Send.{queued, dispatch_to_topic}
use futureq_v.Dispatcher.Hub.Delivery.{
  Sends, GroupsServed, UniversalServed, dispatch_to_topic-served,
}
use futureq_v.Dispatcher.Hub.Room.{
  groups_demand, universal_demand, ServesEach, dispatch_to_topic-All,
}
use futureq_v.Dispatcher.Hub.Registry.{IsNewTo}
use futureq_v.Dispatcher.Hub.Sent.{sent_with}
use futureq_v.Dispatcher.Deleter.{Deleter, raft_delete_keys, mark_deleted, begin_flush, end_flush}
use futureq_v.Dispatcher.Deleter.Conservation.{
  Event, mark, begin, return_ok, return_err, run, total, total-run,
}
use futureq_v.Dispatcher.Deleter.Backend.{rounds, rounds_poisoned}
use futureq_v.Handlers.Consumer.{ConsumerFrame, ack_frame}
use futureq_v.Dispatcher.Expiry.{is_expired}
use futureq_v.Dispatcher.Dispatch.{
  InFlightEntry, Pass, dispatch_event, dispatch_topic, queue_message,
}
use futureq_v.Dispatcher.Dispatch.Once.{sent, flying, dispatch_once}
use futureq_v.Dispatcher.Dispatch.Due.{scan_unsent, dispatch_topic_not_due}
use futureq_v.Tests.Stores.{list_db, payload_codec, message_of}

-- ── the hub ──

abbrev pub topic_a : Bytes
topic_a = b'a' ∷ []

abbrev pub consumer : Bytes → ℕ → ConsumerEntry
consumer id ch = record { id = id; topic = topic_a; group = b'g' ∷ []; ch = ch }

abbrev pub two_consumers : List ConsumerEntry
two_consumers = consumer (1 ∷ []) 1 ∷ consumer (2 ∷ []) 2 ∷ []

abbrev a_subscription : TopicSubscription
a_subscription = record { groups = (b'g' ∷ [], two_consumers) ∷ []; universal = [] }

abbrev pub a_hub : Hub
a_hub = record new_hub { topics = (topic_a, a_subscription) ∷ [] }

abbrev pub a_message : QueueMessage
a_message = queue_message (message_of (9 ∷ [])) (5 ∷ [])

a_hub-topic : lookup topic_a a_hub.topics ≡ some a_subscription
unfolding lookup bytes_eq
a_hub-topic = refl

dispatch_to_topic-served_example :
    let r = dispatch_to_topic 4 topic_a a_message (5 ∷ []) a_hub in
    (groups universal : Sends) × (sent_groups sent_universal : List Bytes) × GroupsServed a_message
      a_subscription.groups groups sent_groups
    × UniversalServed a_message [] universal sent_universal
    × (r.0.buffers ≡ [] ++ (groups ++ universal))
    × (r.1 ≡ sent_groups ++ sent_universal)
dispatch_to_topic-served_example =
    dispatch_to_topic-served 4 topic_a a_message (5 ∷ []) a_hub a_subscription a_hub-topic

-- Channels of one message, of which those of the two consumers are free and a third is full.
abbrev one_full : Hub
one_full = record a_hub { buffers = (3, a_message) ∷ [] }

has_room :
    (ch : ℕ)
    → queued ch one_full.buffers
        + groups_demand ch a_subscription.groups
        + universal_demand ch a_subscription.universal
      ≤ 1
unfolding queued groups_demand universal_demand
has_room ch = ground arith

dispatch_to_topic-All_example :
    let r = dispatch_to_topic 1 topic_a a_message (5 ∷ []) one_full in
    (sends : Sends) × ServesEach a_message a_subscription.groups sends
    × (r.0.buffers ≡ one_full.buffers ++ sends ++ [])
    × (r.1 ≡ (b'g' ∷ []) ∷ [])
dispatch_to_topic-All_example =
    dispatch_to_topic-All 1 topic_a a_message (5 ∷ []) one_full a_subscription a_hub-topic
      ((λ e. cc), tt) has_room

-- ── the dispatcher ──

abbrev one_second : ℕ → ℕ
one_second n = 1000

abbrev pub idle : Deleter
idle = record { pending = []; flushing = none }

abbrev sent_before : InFlightEntry
sent_before = record { dispatched_at = 900; topic = topic_a }

abbrev a_pass : Map InFlightEntry → Pass
a_pass in_flight = record {
  dispatcher = record { hub = a_hub; deleter = idle; in_flight = in_flight; ticks = 0 };
  dispatched = 0;
  expired_keys = [];
}

five_flies : flying (5 ∷ []) (a_pass ((5 ∷ [], sent_before) ∷ [])) ≡ some sent_before
unfolding lookup bytes_eq
five_flies = refl

dispatch_once_example :
    let q =
      (for_each
        (dispatch_event one_second 200 4 payload_codec topic_a 5)
        ((5 ∷ [], 9 ∷ []) ∷ [])
        (a_pass ((5 ∷ [], sent_before) ∷ []))).0 in
    (sent (5 ∷ []) q ≡ sent (5 ∷ []) (a_pass ((5 ∷ [], sent_before) ∷ [])))
    × (flying (5 ∷ []) q ≡ some sent_before)
dispatch_once_example =
    dispatch_once one_second 200 4 payload_codec topic_a 5 ((5 ∷ [], 9 ∷ []) ∷ []) (5 ∷ [])
      sent_before (a_pass ((5 ∷ [], sent_before) ∷ [])) five_flies (λ i h. omega arith)

nine_expired : is_expired (message_of (9 ∷ [])) 6 ≡ true
unfolding is_expired
nine_expired = refl

nine_live : is_expired (message_of (9 ∷ [])) 5 ≡ false
unfolding is_expired
nine_live = refl

scan_unsent_example :
    sent
      (5 ∷ [])
      (for_each
        (dispatch_event one_second 200 4 payload_codec topic_a 6)
        ((5 ∷ [], 9 ∷ []) ∷ [])
        (a_pass [])).0
    ≡ sent (5 ∷ []) (a_pass [])
scan_unsent_example =
    scan_unsent one_second 200 4 payload_codec topic_a 6 (5 ∷ []) ((5 ∷ [], 9 ∷ []) ∷ [])
      (a_pass []) ((λ _. (message_of (9 ∷ []), refl, nine_expired)), tt)

none_flies : flying (5 ∷ []) (a_pass []) ≡ none
unfolding lookup
none_flies = refl

bucket_ten : calculate_bucket 10 0 ≡ ok 10
unfolding calculate_bucket
bucket_ten = refl

-- A message of bucket 11, when the current bucket is 10.
dispatch_topic_not_due_example :
    sent_with
      (event_key 11 1 3)
      (dispatch_topic one_second 200 4 payload_codec topic_a 10 list_db 0
        ((event_key 11 1 3, 9 ∷ []) ∷ [])
        (a_pass []).dispatcher).0.hub.buffers
    ≡ 0
unfolding sent_with
dispatch_topic_not_due_example =
    dispatch_topic_not_due one_second 200 4 payload_codec topic_a 10 list_db 0
      ((event_key 11 1 3, 9 ∷ []) ∷ []) (a_pass []).dispatcher 11 1 3 10 bucket_ten (omega arith)
      (omega arith) (omega arith) (omega arith) refl refl

-- ── the janitor and the deleter ──

abbrev five_events : List Event
five_events = mark (1 ∷ []) ∷ begin ∷ return_err (engine 0) ∷ begin ∷ return_ok ∷ []

five_events-run : run five_events (idle, []) ≡ (idle, (1 ∷ []) ∷ [])
unfolding mark_deleted begin_flush end_flush
five_events-run = refl

total-run_example : total (1 ∷ []) (run five_events (idle, [])) ≡ 0 + 1
unfolding bytes_eq
total-run_example = total-run (1 ∷ []) five_events (idle, [])

abbrev pub count_proposals : Bytes → M ℕ (Unit {0})
count_proposals cmd n = (n + 1, ok tt)

rounds_poisoned_example :
    let r =
      rounds
        (raft_delete_keys count_proposals)
        ((event_key 1 1 1 ∷ []) ∷ [] ∷ [])
        (record { pending = (7 ∷ []) ∷ []; flushing = none })
        0 in
    (r.0.1 ≡ []) × (r.1 ≡ 0)
rounds_poisoned_example =
    rounds_poisoned count_proposals [] [] (7 ∷ [])
      (record { pending = (7 ∷ []) ∷ []; flushing = none }) 0 ((event_key 1 1 1 ∷ []) ∷ [] ∷ []) tt
      (λ e. absurd (omega (arith, e))) refl refl

none_registered :
    (lookup (1 ∷ []) new_hub.by_id ≡ none) × (lookup (1 ∷ []) new_hub.in_flight ≡ none)
unfolding lookup
none_registered = (refl, refl)

IsNewTo-hub : IsNewTo (consumer (1 ∷ []) 3) (lookup topic_a new_hub.topics)
unfolding lookup
IsNewTo-hub = tt

-- ── the consumer ──

abbrev two_frames : List ConsumerFrame
two_frames = ack_frame (5 ∷ []) true ∷ ack_frame (6 ∷ []) false ∷ []
