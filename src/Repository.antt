-- ===== src/Repository.antt =====
-- internal/repository/events.go: the counter of event ids, and how an event is put into a batch.
-- `binary.BigEndian.Uint64` of the stored counter reads its first 8 bytes.
pub mod Stored
pub mod EventBatch
use futureq_v.Prelude.{ℕ, ◌+◌, ◌%◌, ◌^◌, ◌≡◌, List, [], ◌∷◌, if◌then◌else◌, ltb, length, take}
use futureq_v.Prelude.Result.{Result, ok, err, panic, Error, not_found, pebble_not_found}
use futureq_v.Prelude.Method.{M, ◌>>=◌, ◌>>◌, pure, lift, for_each}
use futureq_v.Prelude.Int64.{add_int64}
use futureq_v.Bytes.{Bytes, be_bytes, be_value}
use futureq_v.Keys.{calculate_bucket, event_key}
use futureq_v.Storage.{Db}

-- The key "metadata/event-repo/last-id", as bytes.
abbrev pub events_last_id_key : Bytes
events_last_id_key =
    b'm' ∷ b'e' ∷ b't' ∷ b'a' ∷ b'd' ∷ b'a' ∷ b't' ∷ b'a' ∷ b'/' ∷ b'e' ∷ b'v' ∷ b'e' ∷ b'n' ∷ b't'
    ∷ b'-' ∷ b'r' ∷ b'e' ∷ b'p' ∷ b'o' ∷ b'/' ∷ b'l' ∷ b'a' ∷ b's' ∷ b't' ∷ b'-' ∷ b'i' ∷ b'd' ∷ []

-- storagepb.StoredMessage; the times are int64.
pub record StoredMessage : Type 0 where
  pub topic : Bytes
  pub payload : Bytes
  pub enqueued_at : ℕ
  pub delay : ℕ
  pub ttl : ℕ
  pub indexes : List Bytes

-- The protobuf library and xxhash: how a message and one of its index entries are serialised, and
-- the hash of a topic. An index entry stands here for itself, before its serialisation.
pub record Codec : Type 0 where
  pub marshal : StoredMessage → Result Bytes
  pub unmarshal : Bytes → Result StoredMessage
  pub marshal_index : Bytes → Result Bytes
  pub topic_hash : Bytes → ℕ

-- `binary.BigEndian.Uint64(b)` panics on fewer than 8 bytes.
unfoldable pub read_u64 : Bytes → Result ℕ
read_u64 b = if ltb (length b) 8 then panic else ok (be_value (take 8 b))

-- The repository's counter, and the batch that it writes to.
pub record RepoBatch (B : Type 0) : Type 0 where
  pub last_id : ℕ
  pub batch : B

-- Only Pebble's own error counts as "not stored yet".
recover_last_id : Result Bytes → Result ℕ
unfolding read_u64
recover_last_id (ok val) = read_u64 val
recover_last_id (err pebble_not_found) = ok 0
recover_last_id (err e) = err e
recover_last_id panic = panic

module _ {D B : Type 0} (db : Db D B) where
  -- The repository is its counter here: its database and bucket size are arguments.
  unfoldable pub new_event_repository : D → Result ℕ
  unfolding recover_last_id
  new_event_repository d = recover_last_id (db.get d events_last_id_key)

  abbrev pub on_batch : {A : Type 0} → M B A → M (RepoBatch B) A
  on_batch m s = let (b, r) = m s.batch in (record s { batch = b }, r)

  -- `atomic.AddUint64(&er.lastID, 1)`
  abbrev pub next_id : M (RepoBatch B) ℕ
  next_id s = let n = (s.last_id + 1) % 2 ^ 64 in (record s { last_id = n }, ok n)

  abbrev pub set_index : Bytes → Bytes → M (RepoBatch B) (Unit {0})
  set_index key idx = on_batch (db.batch_set idx key)

  unfoldable pub store_raw_with_batch :
      (bucket topic_hash : ℕ) (indexes : List Bytes) (msg : Bytes) → M (RepoBatch B) Bytes
  store_raw_with_batch bucket topic_hash indexes msg = do
    id ← next_id
    let key = event_key bucket topic_hash id
    on_batch (db.batch_set events_last_id_key (be_bytes 8 id))
    on_batch (db.batch_set key msg)
    for_each (set_index key) indexes
    pure key

  abbrev pub set_marshalled_index : Codec → Bytes → Bytes → M (RepoBatch B) (Unit {0})
  set_marshalled_index c key idx = do
    bytes ← lift (c.marshal_index idx)
    on_batch (db.batch_set bytes key)

  unfoldable pub store_with_batch : Codec → ℕ → StoredMessage → M (RepoBatch B) Bytes
  store_with_batch c bucket_size msg = do
    id ← next_id
    bucket ← lift (calculate_bucket (add_int64 msg.enqueued_at msg.delay) bucket_size)
    let key = event_key bucket (c.topic_hash msg.topic) id
    on_batch (db.batch_set events_last_id_key (be_bytes 8 id))
    bytes ← lift (c.marshal msg)
    on_batch (db.batch_set key bytes)
    for_each (set_marshalled_index c key) msg.indexes
    pure key

  unfoldable pub delete_with_batch : Bytes → M (RepoBatch B) (Unit {0})
  delete_with_batch key = on_batch (db.batch_delete key)
