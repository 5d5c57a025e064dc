-- ===== src/Handlers/Producer/Paths.antt =====
-- The two write paths of the producer store the same.
use futureq_v.Prelude.{
  ℕ, ◌+◌, ◌*◌, ◌≤◌, ◌%◌, ◌^◌, ◌≡◌, refl, sym, ap, ◌∙◌, List, [], ◌∷◌, ◌++◌, append_assoc,
  append-nil, Bool, true, Bool-cases, inl, inr, length, All, arith,
}
use futureq_v.Prelude.Result.{Result, ok, >>=-eq-ok}
use futureq_v.Prelude.Method.{M, pure, for_each, continue, continue_cong, continue-eq_ok}
use futureq_v.Prelude.Int64.{add_int64, is_negative}
use futureq_v.Bytes.{Bytes, be_bytes}
use futureq_v.Config.{AckLevel}
use futureq_v.Keys.{calculate_bucket, event_key}
use futureq_v.Storage.{Db}
use futureq_v.Repository.{
  StoredMessage, Codec, RepoBatch, store_with_batch, store_raw_with_batch, on_batch,
  events_last_id_key, set_index, set_marshalled_index,
}
use futureq_v.Event.Commands.{StoreBatchItem, unmarshal_store_batch_cmd, max_alloc}
use futureq_v.Event.Commands.Encoding.{encode_store_batch, marshal_store_batch_cmd_lem}
use futureq_v.Event.Commands.RoundTrip.{IsItem, unmarshal-marshal_store}
use futureq_v.Event.StateMachine.{store_item, apply_store, apply_entry, or_zero}
use futureq_v.Handlers.Producer.{
  Message, stored_message, check_message, marshal_messages, marshal_indexes, build_item,
  append_item, build_items, store_message, is_leader, process_raft_batch,
}

module _ {D B : Type 0} (db : Db D B) (c : Codec) (bucket_size : ℕ) where
  set_index_alike :
      (key idx bytes : Bytes) (s : RepoBatch B)
      → c.marshal_index idx ≡ ok bytes
      → set_marshalled_index db c key idx s ≡ set_index db key bytes s
  set_index_alike key idx bytes s h = rw h refl

  set_indexes_alike :
      (key : Bytes) (indexes bytes : List Bytes) (s : RepoBatch B)
      → marshal_indexes c indexes ≡ ok bytes
      → for_each (set_marshalled_index db c key) indexes s ≡ for_each (set_index db key) bytes s
  unfolding marshal_indexes
  set_indexes_alike key [] bytes s h =
      let e : [] ≡ bytes = cc h in ap (λ (bs : List Bytes). for_each (set_index db key) bs s) e
  set_indexes_alike key (idx ∷ rest) bytes s h =
      let (b, h1, k1) = >>=-eq-ok (c.marshal_index idx) _ h in
      let (bs, h2, k2) = >>=-eq-ok (marshal_indexes c rest) _ k1 in
      let e : b ∷ bs ≡ bytes = cc k2 in
      ap
        (λ (r : RepoBatch B × Result (Unit {0})).
          continue r (λ _. for_each (set_marshalled_index db c key) rest))
        (set_index_alike key idx b s h1)
      ∙ continue_cong (set_index db key b s) _ (λ _. for_each (set_index db key) bs)
          (λ _ s1. set_indexes_alike key rest bs s1 h2)
      ∙ ap (λ (xs : List Bytes). for_each (set_index db key) xs s) e

  -- A message whose item can be built is stored alike by both paths: the same batch, counter and
  -- result, errors of the batch included.
  pub store_with_batch-raw :
      (msg : StoredMessage) (it : StoreBatchItem) (s : RepoBatch B)
      → build_item c bucket_size msg ≡ ok it
      → store_with_batch db c bucket_size msg s
        ≡ store_raw_with_batch db it.bucket it.topic_hash it.indexes it.msg s
  unfolding build_item store_with_batch store_raw_with_batch
  store_with_batch-raw msg it s h =
      let (bytes, h1, k1) = >>=-eq-ok (c.marshal msg) _ h in
      let (bucket, h2, k2) =
        >>=-eq-ok (calculate_bucket (add_int64 msg.enqueued_at msg.delay) bucket_size) _ k1 in
      let (indexes, h3, k3) = >>=-eq-ok (marshal_indexes c msg.indexes) _ k2 in
      let e : record {
        bucket = bucket;
        topic_hash = c.topic_hash msg.topic;
        indexes = indexes;
        msg = bytes;
      }
          ≡ it =
        cc k3 in
      let id = (s.last_id + 1) % 2 ^ 64 in
      let key = event_key bucket (c.topic_hash msg.topic) id in
      let same : store_with_batch db c bucket_size msg s
          ≡ store_raw_with_batch db bucket (c.topic_hash msg.topic) indexes bytes s =
        rw (h2, h1)
          (continue_cong
            (on_batch db (db.batch_set events_last_id_key (be_bytes 8 id))
              (record s { last_id = id }))
            _ _
            (λ _ s1. continue_cong (on_batch db (db.batch_set key bytes) s1) _ _ (λ _ s2.
              ap (λ (r : RepoBatch B × Result (Unit {0})). continue r (λ _. pure key))
                (set_indexes_alike key msg.indexes indexes s2 h3)))) in
      same
      ∙ ap (λ (i : StoreBatchItem). store_raw_with_batch db i.bucket i.topic_hash i.indexes i.msg s)
          e

  check_message_alike :
      (now : ℕ) (m : Message) (acc acc' : List StoreBatchItem)
      → check_message now (append_item c bucket_size) m acc ≡ (acc', ok tt)
      → (it : StoreBatchItem) × (acc' ≡ acc ++ it ∷ [])
        × ((s : RepoBatch B)
            → check_message now (store_message db c bucket_size) m s ≡ store_item db it s)
  unfolding store_item
  check_message_alike now m acc acc' h = elim (Bool-cases (is_negative m.delay)) [
    | inl early ↦ absurd (cc (rw early at h))
    | inr delay_ok ↦ elim (Bool-cases (is_negative m.ttl)) [
      | inl dead ↦ absurd (cc (rw (delay_ok, dead) at h))
      | inr ttl_ok ↦
          let (s1, it, h1, h2) =
            continue-eq_ok (acc, build_item c bucket_size (stored_message now m)) _
              (rw (delay_ok, ttl_ok) at h) in
          (
            it,
            cc h2,
            λ s.
                rw (delay_ok, ttl_ok)
                  (ap (λ (r : RepoBatch B × Result Bytes). continue r (λ _ s'. (s', ok tt)))
                    (store_with_batch-raw (stored_message now m) it s (cc h1))),
          )
    ]
  ]

  -- When the items of a batch can be built, storing its messages one by one does to the batch, the
  -- counter and the result exactly what storing the items does.
  pub build_items_alike :
      (messages : List Message) (now : ℕ) (acc items : List StoreBatchItem)
      → build_items c bucket_size messages now acc ≡ (items, ok tt)
      → (rest : List StoreBatchItem) × (items ≡ acc ++ rest)
        × ((s : RepoBatch B)
            → marshal_messages messages now (store_message db c bucket_size) s
              ≡ for_each (store_item db) rest s)
  unfolding build_items marshal_messages
  build_items_alike [] now acc items h = ([], ground (arith, append-nil acc), λ s. refl)
  build_items_alike (m ∷ ms) now acc items h =
      let (acc1, u, h1, h2) =
        continue-eq_ok (check_message now (append_item c bucket_size) m acc) _ h in
      let (it, e, one) = check_message_alike now m acc acc1 h1 in
      let (rest, e', more) = build_items_alike ms now acc1 items h2 in
      (
        it ∷ rest,
        e' ∙ ap (λ (a : List StoreBatchItem). a ++ rest) e ∙ append_assoc acc (it ∷ []) rest,
        λ s.
            ap
              (λ (r : RepoBatch B × Result (Unit {0})).
                continue r (λ _. marshal_messages ms now (store_message db c bucket_size)))
              (one s)
            ∙ continue_cong (store_item db it s) _ _ (λ _ s1. more s1),
      )

  apply_entry-encoded :
      (items : List StoreBatchItem) (rb : RepoBatch B)
      → unmarshal_store_batch_cmd (encode_store_batch items) ≡ ok items
      → apply_entry db (encode_store_batch items) rb
        ≡ or_zero (for_each (store_item db) items rb) (λ _. (length items, []))
  unfolding apply_entry apply_store encode_store_batch
  apply_entry-encoded items rb h = rw h refl

  -- A batch whose items can be built and fit the wire format makes the leader propose one command, and
  -- to apply this command does to the batch and the counter of a replica what the standalone path does
  -- with the messages; the result is their number, or 0 where storing fails.
  pub raft_batch-standalone :
      {S : Type 0} (leader : Result (ℕ × Bool)) (node : ℕ)
      (propose : AckLevel → Bytes → M S (Unit {0})) (messages : List Message) (now : ℕ)
      (level : AckLevel) (items : List StoreBatchItem)
      → is_leader leader node ≡ true
      → build_items c bucket_size messages now [] ≡ (items, ok tt)
      → All IsItem items
      → length items * 64 ≤ max_alloc
      → (cmd : Bytes) × ((s : S)
          → process_raft_batch c bucket_size leader node propose messages now level s
            ≡ propose level cmd s)
        × ((rb : RepoBatch B)
            → apply_entry db cmd rb
              ≡ or_zero
                  (marshal_messages messages now (store_message db c bucket_size) rb)
                  (λ _. (length items, [])))
  unfolding process_raft_batch
  raft_batch-standalone leader node propose messages now level items hl h fits small =
      let (rest, e, alike) = build_items_alike messages now [] items h in
      let decoded =
        rw (marshal_store_batch_cmd_lem items) at (unmarshal-marshal_store items fits small) in
      (
        encode_store_batch items,
        λ s. rw (hl, h, marshal_store_batch_cmd_lem items) refl,
        λ rb.
            apply_entry-encoded items rb decoded
            ∙ ap (λ (r : RepoBatch B × Result (Unit {0})). or_zero r (λ _. (length items, [])))
                (ap (λ (its : List StoreBatchItem). for_each (store_item db) its rb) e
                  ∙ sym (alike rb)),
      )
