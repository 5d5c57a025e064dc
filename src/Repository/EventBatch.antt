-- ===== src/Repository/EventBatch.antt =====
-- internal/repository/events.go: the type EventBatch. Several of them can be open at once: they share the
-- counter of their repository, and each has a batch of its own.
pub mod Interleaved
use futureq_v.Prelude.{ℕ, ◌++◌, ◌+◌, ◌%◌, ◌^◌, ◌==◌, List, [], ◌∷◌, if◌then◌else◌}
use futureq_v.Prelude.Result.{Result, ok, err, panic}
use futureq_v.Prelude.Method.{M, ◌>>=◌, ◌>>◌, pure, lift, for_each}
use futureq_v.Prelude.Int64.{add_int64}
use futureq_v.Bytes.{Bytes, be_bytes}
use futureq_v.Keys.{calculate_bucket, event_key}
use futureq_v.Storage.{Db, SyncMode}
use futureq_v.Repository.{
  StoredMessage, Codec, RepoBatch, events_last_id_key, on_batch, next_id, set_index,
  set_marshalled_index,
}

-- A node's store, the counter, and the batches that are open, by number.
pub record Repo (D B : Type 0) : Type 0 where
  pub store_state : D
  pub last_id : ℕ
  pub batches : ℕ → B

abbrev replace : {B : Type 0} → (ℕ → B) → ℕ → B → ℕ → B
replace bs i b j = if j == i then b else bs j

-- A method of the batch with number `i`.
abbrev on : {D B A : Type 0} → ℕ → M (RepoBatch B) A → M (Repo D B) A
on i m r =
    let (s, x) = m (record { last_id = r.last_id; batch = r.batches i }) in
    (record r { last_id = s.last_id; batches = replace r.batches i s.batch }, x)

module _ {D B : Type 0} (db : Db D B) where
  -- An EventBatch reads as the repository's counter beside its batch.
  unfoldable pub store : Codec → (bucket_size : ℕ) → StoredMessage → M (RepoBatch B) Bytes
  store c bucket_size msg = do
    id ← next_id db
    bucket ← lift (calculate_bucket (add_int64 msg.enqueued_at msg.delay) bucket_size)
    let key = event_key bucket (c.topic_hash msg.topic) id
    on_batch db (db.batch_set events_last_id_key (be_bytes 8 id))
    bytes ← lift (c.marshal msg)
    on_batch db (db.batch_set key bytes)
    for_each (set_marshalled_index db c key) msg.indexes
    pure key

  unfoldable pub store_raw :
      (bucket topic_hash : ℕ) (indexes : List Bytes) (msg : Bytes) → M (RepoBatch B) Bytes
  store_raw bucket topic_hash indexes msg = do
    id ← next_id db
    let key = event_key bucket topic_hash id
    on_batch db (db.batch_set events_last_id_key (be_bytes 8 id))
    on_batch db (db.batch_set key msg)
    for_each (set_index db key) indexes
    pure key

  unfoldable pub delete : Bytes → M (RepoBatch B) (Unit {0})
  delete key = on_batch db (db.batch_delete key)

  unfoldable pub commit : SyncMode → RepoBatch B → M D (Unit {0})
  commit mode eb d = db.commit mode eb.batch d

  unfoldable pub new_batch : ℕ → Repo D B → Repo D B
  new_batch i r = record r { batches = replace r.batches i (db.new_batch r.store_state) }

  abbrev commit_batch : ℕ → SyncMode → M (Repo D B) (Unit {0})
  commit_batch i mode r =
      let (d, x) =
        commit mode (record { last_id = r.last_id; batch = r.batches i }) r.store_state in
      (record r { store_state = d }, x)

-- A call on the batch with some number, of which several can be open.
pub data Call : Type 0 where
  open_batch : ℕ → Call
  store_on : ℕ → StoredMessage → Call
  store_raw_on : ℕ → (bucket topic_hash : ℕ) → (indexes : List Bytes) → (msg : Bytes) → Call
  delete_on : ℕ → (key : Bytes) → Call
  commit_on : ℕ → SyncMode → Call

abbrev pub key_list : Result Bytes → List Bytes
key_list (ok key) = key ∷ []
key_list (err e) = []
key_list panic = []

module _ {D B : Type 0} (db : Db D B) (codec : Codec) (bucket_size : ℕ) where
  -- The state after a call, and the key that it handed out, if it did.
  unfoldable pub step : Call → Repo D B → Repo D B × List Bytes
  unfolding store store_raw delete new_batch commit
  step (open_batch i) r = (new_batch db i r, [])
  step (store_on i msg) r =
      let (r1, x) = on i (store db codec bucket_size msg) r in (r1, key_list x)
  step (store_raw_on i bucket topic_hash indexes msg) r =
      let (r1, x) = on i (store_raw db bucket topic_hash indexes msg) r in (r1, key_list x)
  step (delete_on i key) r = ((on i (delete db key) r).0, [])
  step (commit_on i mode) r = ((commit_batch db i mode r).0, [])

  unfoldable pub run : List Call → Repo D B → Repo D B × List Bytes
  unfolding step
  run [] r = (r, [])
  run (c ∷ cs) r = let (r1, keys) = step c r in let (r2, later) = run cs r1 in (r2, keys ++ later)
