-- ===== src/Dispatcher/Dispatch/Single.antt =====
-- internal/dispatcher/dispatcher.go: the dispatch of a topic that has one message due.
use futureq_v.Prelude.{
  ℕ, ◌≡◌, refl, [], ◌∷◌, none, some, false, Bool-cases, inl, inr, if◌then◌else◌,
}
use futureq_v.Prelude.Result.{ok}
use futureq_v.Bytes.{Bytes}
use futureq_v.Keys.{calculate_bucket}
use futureq_v.Maps.{lookup, lookup-insert_self}
use futureq_v.Storage.{Db, range, scan_db}
use futureq_v.Repository.{StoredMessage, Codec}
use futureq_v.Dispatcher.Hub.{is_empty}
use futureq_v.Dispatcher.Hub.Send.{dispatch_to_topic}
use futureq_v.Dispatcher.Expiry.{is_expired}
use futureq_v.Dispatcher.Dispatch.{
  Dispatcher, InFlightEntry, is_in_flight, dispatch_event, queue_message, due_options,
  dispatch_topic,
}

-- The one message goes to the hub; if a consumer takes it, it counts and is in flight from then on.
pub dispatch_topic_single :
    {D B : Type 0} (clock : ℕ → ℕ) (timeout capacity : ℕ) (codec : Codec) (topic : Bytes) (now : ℕ)
    (db : Db D B) (bucket_size : ℕ) (store : D) (d : Dispatcher) (current : ℕ) (key val : Bytes)
    (msg : StoredMessage)
    → calculate_bucket now bucket_size ≡ ok current
    → let o = due_options clock timeout capacity codec topic now current in
      (db.visit o store).1 ≡ ok tt
      → range o (db.entries store) ≡ (key, val) ∷ []
      → lookup key d.in_flight ≡ none
      → codec.unmarshal val ≡ ok msg
      → is_expired msg now ≡ false
      → let r = dispatch_topic clock timeout capacity codec topic now db bucket_size store d in
        let (hub, sent_to) = dispatch_to_topic capacity topic (queue_message msg key) key d.hub in
        (r.0.hub ≡ hub)
        × (r.1 ≡ ok (if is_empty sent_to then 0 else 1))
        × (lookup key r.0.in_flight ≡ (
            if is_empty sent_to
            then none
            else some (record { dispatched_at = clock d.ticks; topic = topic })))
unfolding dispatch_topic scan_db dispatch_event is_in_flight
dispatch_topic_single clock timeout capacity codec topic now db bucket_size store d current key val
      msg hc hv hr hf hu hx =
    let o = due_options clock timeout capacity codec topic now current in
    let (hub, sent_to) = dispatch_to_topic capacity topic (queue_message msg key) key d.hub in
    let e : InFlightEntry = record { dispatched_at = clock d.ticks; topic = topic } in
    elim (Bool-cases (is_empty sent_to)) [
      | inl nobody ↦ rw (hc, hv, db.visit_range o store hv, hr, hf, hu, hx, nobody) (refl, refl, hf)
      | inr somebody ↦
          rw (hc, hv, db.visit_range o store hv, hr, hf, hu, hx, somebody)
            (refl, refl, lookup-insert_self key e d.in_flight)
    ]
