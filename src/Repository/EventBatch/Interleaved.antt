-- ===== src/Repository/EventBatch/Interleaved.antt =====
-- The keys that several open batches hand out.
use futureq_v.Prelude.{
  ℕ, ◌+◌, ◌%◌, ◌^◌, ◌<◌, ◌≤◌, ◌≡◌, refl, sym, ap, ◌∙◌, List, [], ◌∷◌, ◌++◌, All, length, arith,
}
use futureq_v.Prelude.Result.{Result, ok, err, panic}
use futureq_v.Prelude.Method.{for_each, for_each_keeps, continue_state, continue-eq_ok}
use futureq_v.Prelude.Int64.{add_int64}
use futureq_v.Bytes.{Bytes, be_bytes}
use futureq_v.Keys.{calculate_bucket, event_key, parse_event_key}
use futureq_v.Keys.Layout.{parse_event_key-event_key}
use futureq_v.Storage.{Db}
use futureq_v.Repository.{
  StoredMessage, Codec, RepoBatch, set_index, set_marshalled_index, on_batch, events_last_id_key,
  store_with_batch, store_raw_with_batch,
}
use futureq_v.Repository.Stored.{store_raw-ops}
use futureq_v.Repository.EventBatch.{
  store, store_raw, delete, new_batch, Repo, Call, open_batch, store_on, store_raw_on, delete_on,
  commit_on, key_list, step, run,
}

-- Each key is one of an event, and its id is above that of the key before.
abbrev pub Rises : ℕ → List Bytes → Type 0
Rises n [] = Unit {0}
Rises n (k ∷ ks) =
    (id : ℕ) × (bucket : ℕ) × (topic_hash : ℕ) × (n < id)
    × (parse_event_key k ≡ ok (topic_hash, bucket, id))
    × Rises id ks

Rises-mono : (n m : ℕ) (ks : List Bytes) → n ≤ m → Rises m ks → Rises n ks
Rises-mono n m [] h r = tt
Rises-mono n m (k ∷ ks) h (id, bucket, topic_hash, above, e, later) =
    (id, bucket, topic_hash, omega arith, e, later)

-- What a uint64 can be: the numbers of a raw event, and the hash of the topic of a message.
abbrev pub InRange : Codec → Call → Type 0
InRange c (store_on i msg) = c.topic_hash msg.topic < 2 ^ 64
InRange c (store_raw_on i bucket topic_hash indexes msg) = (bucket < 2 ^ 64) × (topic_hash < 2 ^ 64)
InRange c _ = Unit {0}

-- The key of an event with this id.
abbrev IsKey : ℕ → Bytes → Type 0
IsKey id key =
    (bucket : ℕ) × (topic_hash : ℕ) × (bucket < 2 ^ 64)
    × (topic_hash < 2 ^ 64)
    × (key ≡ event_key bucket topic_hash id)

same_value :
    {S A : Type 0} (s s' : S) (a b : A) → ◌≡◌ {A = S × Result A} (s, ok a) (s', ok b) → a ≡ b
same_value s s' a b h = cc

calculate_bucket_bound : (t size b : ℕ) → t < 2 ^ 64 → calculate_bucket t size ≡ ok b → b < 2 ^ 64
unfolding calculate_bucket
calculate_bucket_bound t size b h e = grind arith

module _ {D B : Type 0} (db : Db D B) where
  -- The methods of a batch do what the methods of the repository do to a batch that is passed to them.
  pub batch_methods :
      (c : Codec) (bucket_size : ℕ) (message : StoredMessage) (bucket topic_hash : ℕ)
      (indexes : List Bytes) (msg : Bytes) (s : RepoBatch B)
      → (store db c bucket_size message s ≡ store_with_batch db c bucket_size message s)
        × (store_raw db bucket topic_hash indexes msg s
            ≡ store_raw_with_batch db bucket topic_hash indexes msg s)
  unfolding store store_raw store_with_batch store_raw_with_batch
  batch_methods c bucket_size message bucket topic_hash indexes msg s = (refl, refl)

  batch_methods_raw :
      (bucket topic_hash : ℕ) (indexes : List Bytes) (msg : Bytes) (s : RepoBatch B)
      → store_raw db bucket topic_hash indexes msg s
        ≡ store_raw_with_batch db bucket topic_hash indexes msg s
  unfolding store_raw store_raw_with_batch
  batch_methods_raw bucket topic_hash indexes msg s = refl

  set_indexes-last_id :
      (key : Bytes) (indexes : List Bytes) (s : RepoBatch B)
      → (for_each (set_index db key) indexes s).0.last_id ≡ s.last_id
  set_indexes-last_id key indexes s =
      let P : RepoBatch B → Type 0 = λ s1. s1.last_id ≡ s.last_id in
      for_each_keeps (set_index db key) (λ _. P) P (λ x xs s1 h. h) (λ xs s1 h. h) indexes s refl

  -- Whether or not it fails, storing takes the next id.
  store_raw-last_id :
      (bucket topic_hash : ℕ) (indexes : List Bytes) (msg : Bytes) (s : RepoBatch B)
      → (store_raw db bucket topic_hash indexes msg s).0.last_id ≡ (s.last_id + 1) % 2 ^ 64
  unfolding store_raw
  store_raw-last_id bucket topic_hash indexes msg s =
      let id = (s.last_id + 1) % 2 ^ 64 in
      let key = event_key bucket topic_hash id in
      let s1 =
        (on_batch db (db.batch_set events_last_id_key (be_bytes 8 id))
          (record s { last_id = id })).0 in
      let s2 = (on_batch db (db.batch_set key msg) s1).0 in
      ground (arith, set_indexes-last_id key indexes s2)

  store_raw-IsKey :
      (bucket topic_hash : ℕ) (indexes : List Bytes) (msg : Bytes) (s : RepoBatch B) (key : Bytes)
      → bucket < 2 ^ 64
      → topic_hash < 2 ^ 64
      → (store_raw db bucket topic_hash indexes msg s).1 ≡ ok key
      → IsKey ((s.last_id + 1) % 2 ^ 64) key
  store_raw-IsKey bucket topic_hash indexes msg s key hb ht h =
      let r = store_raw db bucket topic_hash indexes msg s in
      let (_, e, _) = store_raw-ops db bucket topic_hash indexes msg key s r.0 (
        sym (batch_methods_raw bucket topic_hash indexes msg s)
        ∙ ap (λ (x : Result Bytes). (r.0, x)) h) in
      (bucket, topic_hash, hb, ht, e)

  marshalled_keeps :
      (c : Codec) (idx key : Bytes) (s : RepoBatch B)
      → (set_marshalled_index db c key idx s).0.last_id ≡ s.last_id
  marshalled_keeps c idx key s = ground arith

  set_marshalled_indexes-last_id :
      (c : Codec) (key : Bytes) (indexes : List Bytes) (s : RepoBatch B)
      → (for_each (set_marshalled_index db c key) indexes s).0.last_id ≡ s.last_id
  set_marshalled_indexes-last_id c key indexes s =
      let P : RepoBatch B → Type 0 = λ s1. s1.last_id ≡ s.last_id in
      for_each_keeps (set_marshalled_index db c key) (λ _. P) P
        (λ x xs s1 h. marshalled_keeps c x key s1 ∙ h) (λ xs s1 h. h) indexes s refl

  store-last_id :
      (c : Codec) (size : ℕ) (msg : StoredMessage) (s : RepoBatch B)
      → (store db c size msg s).0.last_id ≡ (s.last_id + 1) % 2 ^ 64
  unfolding store
  store-last_id c size msg s =
      let id = (s.last_id + 1) % 2 ^ 64 in
      let P : RepoBatch B → Type 0 = λ s1. s1.last_id ≡ id in
      let s0 = record s { last_id = id } in
      continue_state P (s0, calculate_bucket (add_int64 msg.enqueued_at msg.delay) size) _ refl
        λ bucket s1 h1.
          let key = event_key bucket (c.topic_hash msg.topic) id in
          continue_state P (on_batch db (db.batch_set events_last_id_key (be_bytes 8 id)) s1) _ h1
            λ _ s2 h2.
              continue_state P (s2, c.marshal msg) _ h2
                λ bytes s3 h3.
                  continue_state P (on_batch db (db.batch_set key bytes) s3) _ h3 λ _ s4 h4.
                    continue_state P (for_each (set_marshalled_index db c key) msg.indexes s4) _
                      (set_marshalled_indexes-last_id c key msg.indexes s4 ∙ h4) (λ _ s5 h5. h5)

  store-IsKey :
      (c : Codec) (size : ℕ) (msg : StoredMessage) (s : RepoBatch B) (key : Bytes)
      → c.topic_hash msg.topic < 2 ^ 64
      → (store db c size msg s).1 ≡ ok key
      → IsKey ((s.last_id + 1) % 2 ^ 64) key
  unfolding store
  store-IsKey c size msg s key ht h =
      let id = (s.last_id + 1) % 2 ^ 64 in
      let r = store db c size msg s in
      let s0 = record s { last_id = id } in
      let time = add_int64 msg.enqueued_at msg.delay in
      let all : r ≡ (r.0, ok key) = ap (λ (x : Result Bytes). (r.0, x)) h in
      let (s1, bucket, h1, k1) = continue-eq_ok (s0, calculate_bucket time size) _ all in
      let made = event_key bucket (c.topic_hash msg.topic) id in
      let (s2, _, h2, k2) =
        continue-eq_ok (on_batch db (db.batch_set events_last_id_key (be_bytes 8 id)) s1) _ k1 in
      let (s3, bytes, h3, k3) = continue-eq_ok (s2, c.marshal msg) _ k2 in
      let (s4, _, h4, k4) = continue-eq_ok (on_batch db (db.batch_set made bytes) s3) _ k3 in
      let (s5, _, h5, k5) =
        continue-eq_ok (for_each (set_marshalled_index db c made) msg.indexes s4) _ k4 in
      let same = same_value s5 r.0 made key k5 in
      let calculated : calculate_bucket time size ≡ ok bucket =
        ap (λ (x : RepoBatch B × Result ℕ). x.1) h1 in
      (
        bucket,
        c.topic_hash msg.topic,
        calculate_bucket_bound time size bucket (omega arith) calculated,
        ht,
        sym same,
      )

  one_key :
      (s s' : RepoBatch B) (x : Result Bytes) (later : List Bytes)
      → s'.last_id ≡ (s.last_id + 1) % 2 ^ 64
      → ((key : Bytes) → x ≡ ok key → IsKey ((s.last_id + 1) % 2 ^ 64) key)
      → s.last_id + 1 < 2 ^ 64
      → Rises s'.last_id later
      → Rises s.last_id (key_list x ++ later)
  one_key s s' (ok key) later eid is_key hi r =
      let (bucket, topic_hash, hb, ht, ekey) = is_key key refl in
      (
        s'.last_id,
        bucket,
        topic_hash,
        omega (arith, eid),
        rw (ekey, eid)
            (parse_event_key-event_key bucket topic_hash ((s.last_id + 1) % 2 ^ 64) hb ht
              (omega arith)),
        r,
      )
  one_key s s' (err x) later eid is_key hi r =
      Rises-mono s.last_id s'.last_id later (omega (arith, eid)) r
  one_key s s' panic later eid is_key hi r =
      Rises-mono s.last_id s'.last_id later (omega (arith, eid)) r

  module _ (codec : Codec) (bucket_size : ℕ) where
    step-last_id :
        (c : Call) (r : Repo D B)
        → r.last_id + 1 < 2 ^ 64
        → (step db codec bucket_size c r).0.last_id ≤ r.last_id + 1
    unfolding step delete new_batch
    step-last_id (open_batch i) r h = omega arith
    step-last_id (store_on i msg) r h = omega (
      arith,
      store-last_id codec bucket_size msg (record { last_id = r.last_id; batch = r.batches i }),
    )
    step-last_id (store_raw_on i bucket topic_hash indexes msg) r h = omega (
      arith,
      store_raw-last_id bucket topic_hash indexes msg
          (record { last_id = r.last_id; batch = r.batches i }),
    )
    step-last_id (delete_on i key) r h = omega arith
    step-last_id (commit_on i mode) r h = omega arith

    step-Rises :
        (c : Call) (r : Repo D B) (later : List Bytes)
        → InRange codec c
        → r.last_id + 1 < 2 ^ 64
        → Rises (step db codec bucket_size c r).0.last_id later
        → Rises r.last_id ((step db codec bucket_size c r).1 ++ later)
    unfolding step delete new_batch
    step-Rises (open_batch i) r later c h l = l
    step-Rises (store_on i msg) r later ht h l =
        let s : RepoBatch B = record { last_id = r.last_id; batch = r.batches i } in
        one_key s (store db codec bucket_size msg s).0 (store db codec bucket_size msg s).1 later
          (store-last_id codec bucket_size msg s)
          (λ key e. store-IsKey codec bucket_size msg s key ht e) h l
    step-Rises (store_raw_on i bucket topic_hash indexes msg) r later (hb, ht) h l =
        let s : RepoBatch B = record { last_id = r.last_id; batch = r.batches i } in
        one_key s (store_raw db bucket topic_hash indexes msg s).0
          (store_raw db bucket topic_hash indexes msg s).1 later
          (store_raw-last_id bucket topic_hash indexes msg s)
          (λ key e. store_raw-IsKey bucket topic_hash indexes msg s key hb ht e) h l
    step-Rises (delete_on i key) r later c h l = l
    step-Rises (commit_on i mode) r later c h l = l

    -- However calls on several open batches follow each other, those that store a message and those that
    -- store a raw event among them, the keys that they hand out are keys of events with ids that rise
    -- strictly, so no two are the same: if the bucket numbers of raw events and the topic hashes are
    -- uint64, and the counter does not wrap around. A call that fails hands out no key.
    pub run-Rises :
        (cs : List Call) (r : Repo D B)
        → All (InRange codec) cs
        → r.last_id + length cs < 2 ^ 64
        → Rises r.last_id (run db codec bucket_size cs r).1
    unfolding run
    run-Rises [] r c h = tt
    run-Rises (call ∷ cs) r (c, rest) h =
        let r1 = (step db codec bucket_size call r).0 in
        step-Rises call r (run db codec bucket_size cs r1).1 c (omega arith)
          (run-Rises cs r1 rest (omega (arith, step-last_id call r (omega arith))))
