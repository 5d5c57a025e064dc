-- ===== src/Tests/Events.antt =====
-- Commands, the event state machine and the producer at concrete values.
use futureq_v.Prelude.{none, ℕ, ◌+◌, ◌^◌, ◌≡◌, refl, List, [], ◌∷◌, ◌++◌, some, true, arith}
use futureq_v.Prelude.Result.{ok, err, panic, not_found, ◌>>=◌}
use futureq_v.Prelude.Method.{M}
use futureq_v.Bytes.{Bytes, be_bytes, be_value, length-be_bytes}
use futureq_v.Bytes.Order.{bytes_lt, bytes_eq}
use futureq_v.Keys.{event_key, calculate_bucket}
use futureq_v.Keys.Layout.{length-event_key}
use futureq_v.Config.{AckLevel, quorum}
use futureq_v.Storage.Content.{Entries, Op, get_entry}
use futureq_v.Event.StateMachine.FreshBolt.{fresh_bolt}
use futureq_v.Storage.Bolt.{BoltDb}
use futureq_v.Storage.Bolt.Contract.{bolt_db}
use futureq_v.Repository.{RepoBatch, store_raw_with_batch, new_event_repository, events_last_id_key}
use futureq_v.Repository.Stored.{store_ops}
use futureq_v.Event.Commands.{
  StoreBatchItem, marshal_store_batch_cmd, unmarshal_store_batch_cmd, marshal_delete_batch_cmd,
  unmarshal_delete_batch_cmd,
}
use futureq_v.Event.Commands.RoundTrip.{IsItem, unmarshal-marshal_store}
use futureq_v.Event.Commands.Delete.{unmarshal-marshal_delete, unmarshal_delete_panic}
use futureq_v.Event.StateMachine.{
  EventStateMachine, Entry, applied_index_key, open_shard, update, apply_entry, or_zero,
}
use futureq_v.Event.StateMachine.Update.{open-update}
use futureq_v.Event.StateMachine.Snapshot.{save_snapshot, recover_from_snapshot}
use futureq_v.Event.StateMachine.Snapshot.Saved.{never, collect}
use futureq_v.Event.StateMachine.Snapshot.Recovered.{recover-save}
use futureq_v.Handlers.Producer.{
  Message, build_item, build_items, process_raft_batch, marshal_messages, store_message,
}
use futureq_v.Handlers.Producer.Paths.{raft_batch-standalone}
use futureq_v.Tests.Stores.{list_db, payload_codec, Bucket, list_engine}

-- ── commands ──

abbrev an_item : StoreBatchItem
an_item = record { bucket = 7; topic_hash = 1; indexes = (4 ∷ []) ∷ []; msg = 1 ∷ 2 ∷ [] }

an_item-IsItem : IsItem an_item
an_item-IsItem = record {
  bucket_u64 = omega arith;
  topic_u64 = omega arith;
  few_indexes = omega arith;
  short_indexes = (omega arith, tt);
  short_msg = omega arith;
}

unmarshal-marshal_store_example :
    (marshal_store_batch_cmd (an_item ∷ []) >>= unmarshal_store_batch_cmd) ≡ ok (an_item ∷ [])
unmarshal-marshal_store_example =
    unmarshal-marshal_store (an_item ∷ []) (an_item-IsItem, tt) (omega arith)

unmarshal-marshal_delete_example :
    (marshal_delete_batch_cmd (event_key 1 2 3 ∷ []) >>= unmarshal_delete_batch_cmd)
    ≡ ok (event_key 1 2 3 ∷ [])
unmarshal-marshal_delete_example =
    unmarshal-marshal_delete (event_key 1 2 3 ∷ []) (length-event_key 1 2 3, tt) (omega arith)

unmarshal_delete_panic_example :
    unmarshal_delete_batch_cmd (1 ∷ (be_bytes 8 (2 ^ 61 + 0) ++ [])) ≡ panic
unmarshal_delete_panic_example = unmarshal_delete_panic 0 [] (omega arith) (omega arith)

-- ── the repository ──

abbrev a_batch : RepoBatch (List Op)
a_batch = record { last_id = 4; batch = [] }

abbrev stored : RepoBatch (List Op)
stored = record { last_id = 5; batch = store_ops 5 (event_key 7 1 5) ((4 ∷ []) ∷ []) (9 ∷ []) }

store_raw_run :
    store_raw_with_batch list_db 7 1 ((4 ∷ []) ∷ []) (9 ∷ []) a_batch
    ≡ (stored, ok (event_key 7 1 5))
unfolding store_raw_with_batch
store_raw_run = refl

nothing_stored : (get_entry events_last_id_key [] ≡ none) × (get_entry applied_index_key [] ≡ none)
unfolding get_entry
nothing_stored = (refl, refl)

abbrev empty_bucket : BoltDb Bucket
empty_bucket = record { bucket = some ([], tt) }

fresh_bolt_example :
    (new_event_repository (bolt_db list_engine) empty_bucket ≡ err not_found)
    × (open_shard
          (bolt_db list_engine)
          (record { db = empty_bucket; last_id = 0; last_applied = 0 })
        ≡ (record { db = empty_bucket; last_id = 0; last_applied = 0 }, err not_found))
fresh_bolt_example = fresh_bolt list_engine ([], tt) 0 0 nothing_stored.0 nothing_stored.1

-- ── the state machine ──

abbrev a_machine : EventStateMachine Entries
a_machine = record { db = (events_last_id_key, be_bytes 8 4) ∷ []; last_id = 4; last_applied = 2 }

-- A command that deletes one key, and one of an unknown type.
abbrev delete_cmd : Bytes
delete_cmd = 1 ∷ (0 ∷ 0 ∷ 0 ∷ 0 ∷ 0 ∷ 0 ∷ 0 ∷ 1 ∷ (be_bytes 8 1 ++ be_bytes 8 1 ++ be_bytes 8 1))

abbrev two_entries : List Entry
two_entries = record { index = 3; cmd = delete_cmd } ∷ record { index = 6; cmd = 9 ∷ [] } ∷ []

abbrev updated : EventStateMachine Entries
updated = (update list_db two_entries a_machine).0

update_run :
    update list_db two_entries a_machine ≡ (updated, ok (1 ∷ 0 ∷ [], some (event_key 1 1 1 ∷ [])))
unfolding update unmarshal_delete_batch_cmd event_key be_bytes be_value
update_run = refl

open-update_example : (updated.last_applied ≡ 6) × ((open_shard list_db updated).1 ≡ ok 6)
open-update_example =
    open-update list_db two_entries a_machine updated updated _ (omega arith) update_run refl

abbrev a_sender : Entries
a_sender = (events_last_id_key, be_bytes 8 4) ∷ (applied_index_key, be_bytes 8 3) ∷ []

a_sender-IsSorted : (bytes_lt events_last_id_key applied_index_key ≡ true) × Unit {0}
unfolding bytes_lt
a_sender-IsSorted = (refl, tt)

a_sender-index : get_entry applied_index_key a_sender ≡ some (be_bytes 8 3)
unfolding get_entry bytes_eq
a_sender-index = refl

recover-save_example :
    (s' : EventStateMachine Entries) × (recover_from_snapshot never list_db 3
        (save_snapshot never collect list_db a_sender (record { state = []; polls = 0 })).0.state
        a_machine
      ≡ some (s', ok tt))
    × (s'.db ≡ a_sender)
    × (s'.last_applied ≡ 3)
    × (s'.last_id ≡ 4)
recover-save_example =
    recover-save list_db 3 a_sender a_machine 3 (λ k v b. refl) (λ k b. refl) (λ m b d. refl) refl
      refl a_sender-IsSorted
      (
        (omega arith, omega (arith, length-be_bytes 8 4)),
        ((omega arith, omega (arith, length-be_bytes 8 3)), tt),
      )
      a_sender-index (omega arith) (omega arith)

-- ── the producer ──

abbrev a_message : Message
a_message = record {
  topic = b'a' ∷ [];
  payload = 1 ∷ 2 ∷ [];
  delay = 3;
  ttl = 0;
  indexes = (4 ∷ []) ∷ [];
}

build_run : build_items payload_codec 0 (a_message ∷ []) 4 [] ≡ (an_item ∷ [], ok tt)
unfolding build_items build_item calculate_bucket
build_run = refl

abbrev count_proposals : AckLevel → Bytes → M ℕ (Unit {0})
count_proposals level cmd n = (n + 1, ok tt)

raft_batch-standalone_example :
    (cmd : Bytes) × ((s : ℕ)
      → process_raft_batch payload_codec 0
          (ok (1, true))
          1
          count_proposals
          (a_message ∷ [])
          4
          quorum
          s
        ≡ (s + 1, ok tt))
    × ((rb : RepoBatch (List Op))
        → apply_entry list_db cmd rb
          ≡ or_zero
              (marshal_messages (a_message ∷ []) 4 (store_message list_db payload_codec 0) rb)
              (λ _. (1, [])))
raft_batch-standalone_example =
    raft_batch-standalone list_db payload_codec 0 (ok (1, true)) 1 count_proposals (a_message ∷ [])
      4 quorum (an_item ∷ []) refl build_run (an_item-IsItem, tt) (omega arith)
