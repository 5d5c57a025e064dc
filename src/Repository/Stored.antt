-- ===== src/Repository/Stored.antt =====
-- What storing an event puts into the batch, and the ids that it hands out.
use futureq_v.Prelude.{
  ℕ, ◌+◌, ◌%◌, ◌^◌, ◌≡◌, sym, ap, ◌∙◌, List, [], ◌∷◌, ◌++◌, map, append_assoc, append-nil, arith,
}
use futureq_v.Prelude.Result.{ok}
use futureq_v.Prelude.Method.{for_each, continue-eq_ok}
use futureq_v.Bytes.{Bytes, be_bytes}
use futureq_v.Keys.{event_key}
use futureq_v.Storage.{Db}
use futureq_v.Storage.Content.{Op, set}
use futureq_v.Repository.{RepoBatch, events_last_id_key, on_batch, set_index, store_raw_with_batch}

-- The mutations of one event: the counter, the event under its key, and the key under each index.
abbrev pub store_ops : ℕ → Bytes → List Bytes → Bytes → List Op
store_ops id key indexes msg =
    set events_last_id_key (be_bytes 8 id) ∷ set key msg ∷ map (λ idx. set idx key) indexes

module _ {D B : Type 0} (db : Db D B) where
  pub on_batch-set :
      (k v : Bytes) (s s' : RepoBatch B)
      → on_batch db (db.batch_set k v) s ≡ (s', ok tt)
      → (s'.last_id ≡ s.last_id) × (db.ops s'.batch ≡ db.ops s.batch ++ (set k v ∷ []))
  on_batch-set k v s s' h = (ground arith, db.set_ops k v s.batch s'.batch (ground arith))

  set_indexes-ops :
      (key : Bytes) (indexes : List Bytes) (s s' : RepoBatch B)
      → for_each (set_index db key) indexes s ≡ (s', ok tt)
      → (s'.last_id ≡ s.last_id)
        × (db.ops s'.batch ≡ db.ops s.batch ++ map (λ idx. set idx key) indexes)
  set_indexes-ops key [] s s' h = ground (arith, append-nil (db.ops s.batch))
  set_indexes-ops key (idx ∷ rest) s s' h =
      let (s1, u, h1, h2) =
        continue-eq_ok (set_index db key idx s) (λ _. for_each (set_index db key) rest) h in
      let (i1, o1) = on_batch-set idx key s s1 h1 in
      let (i2, o2) = set_indexes-ops key rest s1 s' h2 in
      (
        i2 ∙ i1,
        o2
            ∙ ap (λ (os : List Op). os ++ map (λ i. set i key) rest) o1
            ∙ append_assoc (db.ops s.batch) (set idx key ∷ []) (map (λ i. set i key) rest),
      )

  -- Storing a raw event that succeeds hands out the next id, returns the key made of the bucket, the
  -- topic hash and that id, and adds to the batch the counter, the event and one entry an index.
  pub store_raw-ops :
      (bucket topic_hash : ℕ) (indexes : List Bytes) (msg key : Bytes) (s s' : RepoBatch B)
      → store_raw_with_batch db bucket topic_hash indexes msg s ≡ (s', ok key)
      → let id = (s.last_id + 1) % 2 ^ 64 in
        (s'.last_id ≡ id)
        × (key ≡ event_key bucket topic_hash id)
        × (db.ops s'.batch
            ≡ db.ops s.batch ++ store_ops id (event_key bucket topic_hash id) indexes msg)
  unfolding store_raw_with_batch
  store_raw-ops bucket topic_hash indexes msg key s s' h =
      let id = (s.last_id + 1) % 2 ^ 64 in
      let (s1, _, h1, k1) =
        continue-eq_ok
          (on_batch db (db.batch_set events_last_id_key (be_bytes 8 id))
            (record s { last_id = id }))
          _ h in
      let (s2, _, h2, k2) =
        continue-eq_ok (on_batch db (db.batch_set (event_key bucket topic_hash id) msg) s1) _ k1 in
      let (s3, _, h3, k3) =
        continue-eq_ok (for_each (set_index db (event_key bucket topic_hash id)) indexes s2) _ k2 in
      let (i1, o1) =
        on_batch-set events_last_id_key (be_bytes 8 id) (record s { last_id = id }) s1 h1 in
      let (i2, o2) = on_batch-set (event_key bucket topic_hash id) msg s1 s2 h2 in
      let (i3, o3) = set_indexes-ops (event_key bucket topic_hash id) indexes s2 s3 h3 in
      let tail = map (λ (idx : Bytes). set idx (event_key bucket topic_hash id)) indexes in
      let e : db.ops s3.batch
          ≡ db.ops s.batch ++ store_ops id (event_key bucket topic_hash id) indexes msg =
        o3
        ∙ ap (λ (os : List Op). os ++ tail)
            (o2 ∙ ap (λ (os : List Op). os ++ (set (event_key bucket topic_hash id) msg ∷ [])) o1)
        ∙ simp append_assoc in
      let same : s3 ≡ s' = ground arith in
      (ground arith, ground arith, ap (λ (r : RepoBatch B). db.ops r.batch) (sym same) ∙ e)
