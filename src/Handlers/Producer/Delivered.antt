-- ===== src/Handlers/Producer/Delivered.antt =====
-- A message on its way through a standalone node: from the producer to the store and, when it is due,
-- from the store to the hub.
use futureq_v.Prelude.{
  ℕ, ◌+◌, ◌<◌, ◌≤◌, ◌%◌, ◌^◌, ◌≡◌, refl, sym, ap, ◌∙◌, List, [], ◌∷◌, ◌++◌, none, some, true, false,
  ◌&&◌, Bool-cases, inl, inr, leb, ◌==◌, if◌then◌else◌, arith,
}
use futureq_v.Prelude.Result.{Result, ok, err, panic}
use futureq_v.Prelude.Method.{continue-eq_ok}
use futureq_v.Prelude.Int64.{is_negative, add_int64}
use futureq_v.Bytes.{Bytes, IsU64, be_bytes}
use futureq_v.Keys.{calculate_bucket, event_key}
use futureq_v.Keys.Bucket.{IsBucketSize, due_bucket, bucket_of, calculate_bucket-bucket_of}
use futureq_v.Storage.{Db, sync, range, at_least, is_below}
use futureq_v.Storage.Range.{range-put_outside, range-put_inside}
use futureq_v.Keys.Layout.{due_range}
use futureq_v.Maps.{lookup}
use futureq_v.Dispatcher.Hub.{is_empty}
use futureq_v.Dispatcher.Hub.Send.{dispatch_to_topic}
use futureq_v.Dispatcher.Expiry.{is_expired}
use futureq_v.Dispatcher.Dispatch.Single.{dispatch_topic_single}
use futureq_v.Dispatcher.Dispatch.{Dispatcher, queue_message, due_options, dispatch_topic}
use futureq_v.Storage.Content.{Op, put_entry, apply_ops, apply_op}
use futureq_v.Repository.{
  Codec, RepoBatch, store_with_batch, store_raw_with_batch, events_last_id_key,
}
use futureq_v.Repository.Stored.{store_ops, store_raw-ops}
use futureq_v.Event.Commands.{StoreBatchItem}
use futureq_v.Handlers.Producer.{
  Message, Node, stored_message, check_message, marshal_messages, marshal_indexes, build_item,
  store_message, save_batch, commit_batch, process_standalone_batch,
}
use futureq_v.Handlers.Producer.Paths.{store_with_batch-raw}

bucket_of_le : (t size : ℕ) → bucket_of t size ≤ t
bucket_of_le t size = grind arith

own_range : (h b current : ℕ) → b ≤ current → (h == h && leb b current) ≡ true
own_range h b current le = ground arith

current_le :
    (later current : ℕ) {size : ℕ}
    → IsBucketSize size
    → later < 2 ^ 63
    → calculate_bucket later size ≡ ok current
    → current ≤ later
current_le later current {size} hs hl hc =
    let e : bucket_of later size ≡ current = cc (calculate_bucket-bucket_of later size hs hl, hc) in
    rw (sym e) (bucket_of_le later size)

module _ {D B : Type 0} (db : Db D B) (c : Codec) (size : ℕ) where
  save_batch_ok :
      (r : D × Result (Unit {0})) (id : ℕ) (n : Node D)
      → save_batch db r id ≡ (n, ok tt)
      → r ≡ (n.db, ok tt)
  save_batch_ok (d, ok u) id n h =
      let e : record { db = d; last_id = id } ≡ n = cc h in ap (λ (x : Node D). (x.db, ok tt)) e
  save_batch_ok (d, err e) id n h = cc
  save_batch_ok (d, panic) id n h = cc

  commit_batch_ok :
      (r : RepoBatch B × Result (Unit {0})) (n n' : Node D)
      → commit_batch db r n ≡ (n', ok tt)
      → (r.1 ≡ ok tt) × (db.commit sync r.0.batch n.db ≡ (n'.db, ok tt))
  commit_batch_ok (rb, ok u) n n' h =
      (refl, save_batch_ok (db.commit sync rb.batch n.db) rb.last_id n' h)
  commit_batch_ok (rb, err e) n n' h = cc
  commit_batch_ok (rb, panic) n n' h = cc

  check_message_ok :
      (now : ℕ) (m : Message) (s s' : RepoBatch B) (it : StoreBatchItem)
      → build_item c size (stored_message now m) ≡ ok it
      → check_message now (store_message db c size) m s ≡ (s', ok tt)
      → (key : Bytes) × (store_raw_with_batch db it.bucket it.topic_hash it.indexes it.msg s
          ≡ (s', ok key))
  check_message_ok now m s s' it hb h = elim (Bool-cases (is_negative m.delay)) [
    | inl early ↦ absurd (cc (rw early at h))
    | inr delay_ok ↦ elim (Bool-cases (is_negative m.ttl)) [
      | inl dead ↦ absurd (cc (rw (delay_ok, dead) at h))
      | inr ttl_ok ↦
          let (s1, key, h1, h2) =
            continue-eq_ok (store_with_batch db c size (stored_message now m) s) _
              (rw (delay_ok, ttl_ok) at h) in
          let e : s1 ≡ s' = cc h2 in
          (
            key,
            sym (store_with_batch-raw db c size (stored_message now m) it s hb)
                ∙ h1
                ∙ ap (λ (x : RepoBatch B). (x, ok key)) e,
          )
    ]
  ]

  -- What the store holds after such a batch of one message: the counter and the message.
  stored_one :
      (now : ℕ) (m : Message) (bytes : Bytes) (n n' : Node D)
      → IsBucketSize size
      → now + m.delay < 2 ^ 63
      → m.indexes ≡ []
      → c.marshal (stored_message now m) ≡ ok bytes
      → process_standalone_batch db c size (m ∷ []) now n ≡ (n', ok tt)
      → let id = (n.last_id + 1) % 2 ^ 64 in
        db.entries n'.db
        ≡ put_entry
            (event_key (bucket_of (now + m.delay) size) (c.topic_hash m.topic) id)
            bytes
            (put_entry events_last_id_key (be_bytes 8 id) (db.entries n.db))
  unfolding process_standalone_batch marshal_messages build_item marshal_indexes apply_ops apply_op
  stored_one now m bytes n n' hs hf hi hm h =
      let id = (n.last_id + 1) % 2 ^ 64 in
      let it : StoreBatchItem = record {
        bucket = bucket_of (now + m.delay) size;
        topic_hash = c.topic_hash m.topic;
        indexes = [];
        msg = bytes;
      } in
      let b0 : RepoBatch B = record { last_id = n.last_id; batch = db.new_batch n.db } in
      let r = marshal_messages (m ∷ []) now (store_message db c size) b0 in
      let (ok_r, saved) = commit_batch_ok r n n' h in
      let whole : add_int64 now m.delay ≡ now + m.delay = omega arith in
      let built : build_item c size (stored_message now m) ≡ ok it =
        rw (hm, whole, calculate_bucket-bucket_of (now + m.delay) size hs hf, hi) refl in
      let (s1, _, h1, h2) =
        continue-eq_ok (check_message now (store_message db c size) m b0) _
          (ap (λ (x : Result (Unit {0})). (r.0, x)) ok_r) in
      let last : s1 ≡ r.0 = cc h2 in
      let (key, raw) = check_message_ok now m b0 s1 it built h1 in
      let (_, _, ops) = store_raw-ops db it.bucket it.topic_hash [] bytes key b0 s1 raw in
      let key_ops = store_ops id (event_key it.bucket it.topic_hash id) [] bytes in
      db.commit_entries sync r.0.batch n.db n'.db saved
      ∙ ap (λ (rb : RepoBatch B). apply_ops (db.ops rb.batch) (db.entries n.db)) (sym last)
      ∙ ap (λ (os : List Op). apply_ops os (db.entries n.db))
          (ops ∙ ap (λ (os : List Op). os ++ key_ops) (db.new_batch_ops n.db))

  -- A standalone node publishes one message without indexes, at a time when its store holds nothing that
  -- the dispatcher would find due for the topic. If the message is due by the time of the next dispatch of
  -- the topic and has not expired, then, where it is read back as it was written, its key is not in flight,
  -- the iteration succeeds and the repository's counter has no key in the scanned range, this dispatch
  -- hands exactly this message to the hub, with its key as the delivery tag; and if a consumer takes it,
  -- counts it and has it in flight.
  pub published-dispatched :
      (clock : ℕ → ℕ) (timeout capacity : ℕ) (now later current : ℕ) (m : Message) (bytes : Bytes)
      (n n' : Node D) (d : Dispatcher)
      → IsBucketSize size
      → m.indexes ≡ []
      → IsU64 (c.topic_hash m.topic)
      → c.marshal (stored_message now m) ≡ ok bytes
      → c.unmarshal bytes ≡ ok (stored_message now m)
      → process_standalone_batch db c size (m ∷ []) now n ≡ (n', ok tt)
      → now + m.delay ≤ later
      → later < 2 ^ 63
      → is_expired (stored_message now m) later ≡ false
      → calculate_bucket later size ≡ ok current
      → let o = due_options clock timeout capacity c m.topic later current in
        let id = (n.last_id + 1) % 2 ^ 64 in
        let key = event_key (bucket_of (now + m.delay) size) (c.topic_hash m.topic) id in
        let r = dispatch_topic clock timeout capacity c m.topic later db size n'.db d in
        let (hub, sent_to) =
          dispatch_to_topic capacity m.topic (queue_message (stored_message now m) key) key d.hub in
        (db.visit o n'.db).1 ≡ ok tt
        → range o (db.entries n.db) ≡ []
        → (at_least o.lower_bound events_last_id_key && is_below o.upper_bound events_last_id_key)
          ≡ false
        → lookup key d.in_flight ≡ none
        → (r.0.hub ≡ hub)
          × (r.1 ≡ ok (if is_empty sent_to then 0 else 1))
          × (lookup key r.0.in_flight ≡ (
              if is_empty sent_to
              then none
              else some (record { dispatched_at = clock d.ticks; topic = m.topic })))
  published-dispatched clock timeout capacity now later current m bytes n n' d hs hi uh hm hu h due
        hl live hc hv nothing other fresh =
      let o = due_options clock timeout capacity c m.topic later current in
      let id = (n.last_id + 1) % 2 ^ 64 in
      let b = bucket_of (now + m.delay) size in
      let key = event_key b (c.topic_hash m.topic) id in
      let in_time : now + m.delay < 2 ^ 63 = omega arith in
      let eb = calculate_bucket-bucket_of (now + m.delay) size hs in_time in
      let b_le : b ≤ now + m.delay = bucket_of_le (now + m.delay) size in
      let c_le : current ≤ later = current_le later current hs hl hc in
      let b_current = (due_bucket (now + m.delay) later size b current hs in_time hl eb hc).0 due in
      let inside : (at_least o.lower_bound key && is_below o.upper_bound key) ≡ true =
        due_range b (c.topic_hash m.topic) id (c.topic_hash m.topic) current (omega arith) uh uh
          (omega arith)
        ∙ own_range (c.topic_hash m.topic) b current b_current in
      let found : range o (db.entries n'.db) ≡ (key, bytes) ∷ [] =
        ap (range o) (stored_one now m bytes n n' hs in_time hi hm h)
        ∙ range-put_inside o key bytes _ inside (
            range-put_outside o events_last_id_key (be_bytes 8 id) (db.entries n.db) other
            ∙ nothing) in
      dispatch_topic_single clock timeout capacity c m.topic later db size n'.db d current key bytes
        (stored_message now m) hc hv found fresh hu live
