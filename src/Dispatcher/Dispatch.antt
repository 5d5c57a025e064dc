-- ===== src/Dispatcher/Dispatch.antt =====
-- internal/dispatcher/dispatcher.go: the scan for messages that are due, and their dispatch.
-- Each reading of the monotonic clock is numbered: `clock n` is the time of the n-th reading, in
-- nanoseconds, and `ticks` how many there were.
pub mod Once
pub mod Due
pub mod Single
use futureq_v.Prelude.{
  ℕ, ◌+◌, ◌-◌, List, [], ◌∷◌, ◌++◌, Option, none, some, Bool, true, false, not, ◌||◌, ◌==◌, ltb,
  if◌then◌else◌,
}
use futureq_v.Prelude.Result.{Result, ok, err, panic}
use futureq_v.Prelude.Method.{M, continue}
use futureq_v.Bytes.{Bytes}
use futureq_v.Keys.{calculate_bucket, topic_lower_bound, due_upper_bound}
use futureq_v.Maps.{Map, lookup, insert, remove}
use futureq_v.Storage.{Db, IterOptions, scan_db}
use futureq_v.Repository.{StoredMessage, Codec}
use futureq_v.Dispatcher.Hub.{Hub, QueueMessage, is_empty, has_consumers, active_topics}
use futureq_v.Dispatcher.Hub.Send.{dispatch_to_topic}
use futureq_v.Dispatcher.Deleter.{Deleter, mark_deleted}
use futureq_v.Dispatcher.Expiry.{is_expired}

pub record InFlightEntry : Type 0 where
  pub dispatched_at : ℕ
  pub topic : Bytes

-- The Dispatcher with the hub and the deleter that it calls.
pub record Dispatcher : Type 0 where
  pub hub : Hub
  pub deleter : Deleter
  pub in_flight : Map InFlightEntry
  pub ticks : ℕ

-- What the callback of a scan changes: the dispatcher, and two variables of `dispatchTopic`.
pub record Pass : Type 0 where
  pub dispatcher : Dispatcher
  pub dispatched : ℕ
  pub expired_keys : List Bytes

unfoldable pub remove_in_flight : Bytes → Dispatcher → Dispatcher
remove_in_flight key d = record d { in_flight = remove key d.in_flight }

unfoldable pub remove_in_flight_batch : List Bytes → Dispatcher → Dispatcher
unfolding remove_in_flight
remove_in_flight_batch [] d = d
remove_in_flight_batch (k ∷ ks) d = remove_in_flight_batch ks (remove_in_flight k d)

-- The node host is absent in standalone mode; otherwise it gives the leader's id and its validity.
unfoldable pub is_leader : Option (Result (ℕ × Bool)) → ℕ → Bool
is_leader none node = true
is_leader (some (ok (leader, valid))) node = if not valid then false else leader == node
is_leader (some (err e)) node = false
is_leader (some panic) node = false

mark_all_deleted : List Bytes → Deleter → Deleter
mark_all_deleted [] d = d
mark_all_deleted (k ∷ ks) d = mark_all_deleted ks (mark_deleted k d)

abbrev pub queue_message : StoredMessage → Bytes → QueueMessage
queue_message msg key = record {
  topic = msg.topic;
  payload = msg.payload;
  delivery_tag = key;
  enqueued_at = msg.enqueued_at;
  delay = msg.delay;
}

module _ (clock : ℕ → ℕ) (timeout : ℕ) where
  abbrev check_timeout : Option InFlightEntry → Bytes → Dispatcher → Dispatcher × Bool
  check_timeout none key d = (d, false)
  check_timeout (some e) key d =
      let d1 = record d { ticks = d.ticks + 1 } in
      if ltb (clock d.ticks - e.dispatched_at) timeout
      then (d1, true)
      else (record d1 { in_flight = remove key d.in_flight }, false)

  unfoldable pub is_in_flight : Bytes → Dispatcher → Dispatcher × Bool
  is_in_flight key d = check_timeout (lookup key d.in_flight) key d

module _ (clock : ℕ → ℕ) (timeout capacity : ℕ) (codec : Codec) (topic : Bytes) (now : ℕ) where
  abbrev after_send : Bytes → Hub × List Bytes → Pass → Pass
  after_send key (hub, sent_to) p =
      let d = p.dispatcher in
      if is_empty sent_to then record p { dispatcher = record d { hub = hub } } else record p {
        dispatcher = record d {
          hub = hub;
          in_flight =
              insert key (record { dispatched_at = clock d.ticks; topic = topic }) d.in_flight;
          ticks = d.ticks + 1;
        };
        dispatched = p.dispatched + 1;
      }

  abbrev dispatch_message : Bytes → Result StoredMessage → M Pass (Unit {0})
  dispatch_message key (ok msg) p =
      if is_expired msg now
      then (record p { expired_keys = p.expired_keys ++ (key ∷ []) }, ok tt)
      else (
        after_send key
            (dispatch_to_topic capacity topic (queue_message msg key) key p.dispatcher.hub) p,
        ok tt,
      )
  dispatch_message key (err e) p = (p, ok tt)
  dispatch_message key panic p = (p, panic)

  -- The callback of the scan.
  unfoldable pub dispatch_event : Bytes × Bytes → M Pass (Unit {0})
  unfolding is_in_flight
  dispatch_event (key, val) p =
      let (d, found) = is_in_flight clock timeout key p.dispatcher in
      if found
      then (record p { dispatcher = d }, ok tt)
      else dispatch_message key (codec.unmarshal val) (record p { dispatcher = d })

  -- An error of the scan is only logged.
  abbrev end_scan : Pass × Result (Unit {0}) → Dispatcher × Result ℕ
  end_scan (p, panic) = (p.dispatcher, panic)
  end_scan (p, ok u) = (
    record p.dispatcher { deleter = mark_all_deleted p.expired_keys p.dispatcher.deleter },
    ok p.dispatched,
  )
  end_scan (p, err e) = (
    record p.dispatcher { deleter = mark_all_deleted p.expired_keys p.dispatcher.deleter },
    ok p.dispatched,
  )

  abbrev pub due_options : ℕ → IterOptions
  due_options bucket = record {
    lower_bound = some (topic_lower_bound (codec.topic_hash topic));
    upper_bound = some (due_upper_bound (codec.topic_hash topic) bucket);
  }

  abbrev dispatch_until : {D B : Type 0} → Db D B → D → Result ℕ → M Dispatcher ℕ
  dispatch_until db store (ok bucket) d = end_scan (
      scan_db db (due_options bucket) dispatch_event store
        (record { dispatcher = d; dispatched = 0; expired_keys = [] }))
  dispatch_until db store (err e) d = (d, err e)
  dispatch_until db store panic d = (d, panic)

  unfoldable pub dispatch_topic : {D B : Type 0} → Db D B → (bucket_size : ℕ) → D → M Dispatcher ℕ
  unfolding mark_all_deleted
  dispatch_topic db bucket_size store = dispatch_until db store (calculate_bucket now bucket_size)

dispatch_topics :
    (ℕ → ℕ)
    → (timeout capacity : ℕ) → Codec
    → (now : ℕ) → {D B : Type 0} → Db D B
    → (bucket_size : ℕ) → D
    → List Bytes
    → M Dispatcher ℕ
unfolding dispatch_topic
dispatch_topics clock timeout capacity codec now db size store [] d = (d, ok 0)
dispatch_topics clock timeout capacity codec now db size store (t ∷ ts) d =
    continue (dispatch_topic clock timeout capacity codec t now db size store d) (λ n d1.
      continue (dispatch_topics clock timeout capacity codec now db size store ts d1)
        (λ rest d2. (d2, ok (n + rest))))

-- `now` is the wall clock when the pass starts, in milliseconds. Its topics come in any order.
unfoldable pub dispatch_all :
    (ℕ → ℕ)
    → (timeout capacity : ℕ) → Codec
    → (now : ℕ) → {D B : Type 0} → Db D B
    → (bucket_size : ℕ) → (node_host : Option (Result (ℕ × Bool))) (node : ℕ) → D
    → M Dispatcher ℕ
unfolding dispatch_topics is_leader
dispatch_all clock timeout capacity codec now db size host node store d =
    if not (has_consumers d.hub) || not (is_leader host node) || is_empty (active_topics d.hub)
    then (d, ok 0)
    else dispatch_topics clock timeout capacity codec now db size store (active_topics d.hub) d
