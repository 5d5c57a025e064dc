-- ===== src/Handlers/Producer.antt =====
-- internal/api/grpc/handlers/producer.go: a batch of messages on its way to the store. `Publish` calls
-- `processBatch` for each frame of its stream; metrics and logs are left out.
pub mod Paths
pub mod Delivered
pub mod Stream
use futureq_v.Prelude.{
  ℕ, Bool, true, false, not, ◌||◌, ◌&&◌, List, [], ◌∷◌, ◌++◌, Option, none, some, ◌==◌,
  if◌then◌else◌,
}
use futureq_v.Prelude.Result.{
  Result, ok, err, panic, ◌>>=◌, negative_delay, negative_ttl, not_leader, no_ack_rejected,
  batch_save_failed,
}
use futureq_v.Prelude.Method.{M, for_each, continue}
use futureq_v.Prelude.Int64.{is_negative, add_int64}
use futureq_v.Bytes.{Bytes}
use futureq_v.Config.{AckLevel, quorum, no_ack}
use futureq_v.Keys.{calculate_bucket}
use futureq_v.Storage.{Db, sync}
use futureq_v.Repository.{StoredMessage, Codec, RepoBatch, store_with_batch}
use futureq_v.Event.Commands.{StoreBatchItem, marshal_store_batch_cmd}

-- A message of pb.PublishBatch; its indexes stand for themselves.
pub record Message : Type 0 where
  pub topic : Bytes
  pub payload : Bytes
  pub delay : ℕ
  pub ttl : ℕ
  pub indexes : List Bytes

abbrev pub stored_message : ℕ → Message → StoredMessage
stored_message now msg = record {
  topic = msg.topic;
  payload = msg.payload;
  enqueued_at = now;
  delay = msg.delay;
  ttl = msg.ttl;
  indexes = msg.indexes;
}

abbrev check_message :
    {S : Type 0} → ℕ → (StoredMessage → M S (Unit {0})) → Message → M S (Unit {0})
check_message now fn msg s =
    if is_negative msg.delay
    then (s, err negative_delay)
    else if is_negative msg.ttl
    then (s, err negative_ttl)
    else fn (stored_message now msg) s

unfoldable pub marshal_messages :
    {S : Type 0} → List Message → ℕ → (StoredMessage → M S (Unit {0})) → M S (Unit {0})
marshal_messages messages now fn = for_each (check_message now fn) messages

marshal_indexes : Codec → List Bytes → Result (List Bytes)
marshal_indexes c [] = ok []
marshal_indexes c (idx ∷ rest) = do
  bytes ← c.marshal_index idx
  later ← marshal_indexes c rest
  ok (bytes ∷ later)

-- One item of a store command.
unfoldable pub build_item : Codec → ℕ → StoredMessage → Result StoreBatchItem
unfolding marshal_indexes
build_item c bucket_size msg = do
  bytes ← c.marshal msg
  bucket ← calculate_bucket (add_int64 msg.enqueued_at msg.delay) bucket_size
  indexes ← marshal_indexes c msg.indexes
  ok (record {
    bucket = bucket;
    topic_hash = c.topic_hash msg.topic;
    indexes = indexes;
    msg = bytes;
  })

abbrev append_item : Codec → ℕ → StoredMessage → M (List StoreBatchItem) (Unit {0})
append_item c bucket_size msg items =
    continue (items, build_item c bucket_size msg) (λ it s. (s ++ (it ∷ []), ok tt))

unfoldable pub build_items : Codec → ℕ → List Message → ℕ → M (List StoreBatchItem) (Unit {0})
unfolding marshal_messages
build_items c bucket_size messages now = marshal_messages messages now (append_item c bucket_size)

abbrev is_leader : Result (ℕ × Bool) → ℕ → Bool
is_leader (ok (leader, valid)) node = valid && leader == node
is_leader (err e) node = false
is_leader panic node = false

abbrev propose_items :
    {S : Type 0}
    → (Bytes → M S (Unit {0}))
    → List StoreBatchItem × Result (Unit {0})
    → M S (Unit {0})
propose_items propose (items, ok u) s = continue (s, marshal_store_batch_cmd items) propose
propose_items propose (items, err e) s = (s, err e)
propose_items propose (items, panic) s = (s, panic)

-- `propose level` submits a command to the event shard, and for the level quorum waits for it.
unfoldable pub process_raft_batch :
    {S : Type 0}
    → Codec
    → (bucket_size : ℕ) → (leader : Result (ℕ × Bool)) (node : ℕ)
    → (AckLevel → Bytes → M S (Unit {0}))
    → List Message
    → (now : ℕ) → AckLevel
    → M S (Unit {0})
unfolding build_items
process_raft_batch c bucket_size leader node propose messages now level s =
    if not (is_leader leader node)
    then (s, err not_leader)
    else propose_items (propose level) (build_items c bucket_size messages now []) s

-- The store, and the repository's counter.
pub record Node (D : Type 0) : Type 0 where
  pub db : D
  pub last_id : ℕ

module _ {D B : Type 0} (db : Db D B) where
  abbrev pub store_message : Codec → ℕ → StoredMessage → M (RepoBatch B) (Unit {0})
  store_message c bucket_size msg s =
      continue (store_with_batch db c bucket_size msg s) (λ _ s'. (s', ok tt))

  abbrev save_batch : D × Result (Unit {0}) → ℕ → Node D × Result (Unit {0})
  save_batch (d, ok u) id = (record { db = d; last_id = id }, ok tt)
  save_batch (d, err e) id = (record { db = d; last_id = id }, err batch_save_failed)
  save_batch (d, panic) id = (record { db = d; last_id = id }, panic)

  abbrev commit_batch : RepoBatch B × Result (Unit {0}) → M (Node D) (Unit {0})
  commit_batch (rb, ok u) n = save_batch (db.commit sync rb.batch n.db) rb.last_id
  commit_batch (rb, err e) n = (record n { last_id = rb.last_id }, err e)
  commit_batch (rb, panic) n = (record n { last_id = rb.last_id }, panic)

  unfoldable pub process_standalone_batch :
      Codec → (bucket_size : ℕ) → List Message → (now : ℕ) → M (Node D) (Unit {0})
  unfolding marshal_messages
  process_standalone_batch c bucket_size messages now n =
      commit_batch
        (marshal_messages messages now (store_message c bucket_size)
          (record { last_id = n.last_id; batch = db.new_batch n.db }))
        n

  abbrev is_no_ack : AckLevel → Bool
  is_no_ack no_ack = true
  is_no_ack quorum = false

  abbrev is_quorum : AckLevel → Bool
  is_quorum no_ack = false
  is_quorum quorum = true

  abbrev process_by :
      Option (Result (ℕ × Bool))
      → Codec
      → ℕ
      → ℕ
      → (AckLevel → Bytes → M (Node D) (Unit {0}))
      → List Message
      → ℕ
      → AckLevel
      → M (Node D) (Unit {0})
  process_by none c size node propose messages now level =
      process_standalone_batch c size messages now
  process_by (some leader) c size node propose messages now level =
      process_raft_batch c size leader node propose messages now level

  -- Whether the ack reports success is the success of the method, but for an empty batch.
  unfoldable pub process_batch :
      Codec
      → (bucket_size : ℕ) → (min_ack_level : AckLevel)
      → (node_host : Option (Result (ℕ × Bool))) (node : ℕ)
      → (AckLevel → Bytes → M (Node D) (Unit {0}))
      → List Message
      → (now : ℕ) → AckLevel
      → M (Node D) Bool
  unfolding process_raft_batch process_standalone_batch
  process_batch c size min_level host node propose [] now level n = (n, ok false)
  process_batch c size min_level host node propose (m ∷ ms) now level n =
      if is_quorum min_level && is_no_ack level
      then (n, err no_ack_rejected)
      else continue (process_by host c size node propose (m ∷ ms) now level n)
          (λ _ n'. (n', ok true))
