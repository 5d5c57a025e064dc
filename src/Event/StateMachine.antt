-- ===== src/Event/StateMachine.antt =====
-- internal/raft/event/statemachine.go: the on-disk state machine of the event shard. The repository's
-- counter, which the standalone write path shares, is a field of the state; log lines are left out.
pub mod Update
pub mod Snapshot
pub mod FreshBolt
use futureq_v.Prelude.{
  ℕ, suc, ◌+◌, ◌*◌, ◌%◌, ◌^◌, ◌≡◌, List, [], ◌∷◌, ◌++◌, Bool, true, false, Option, none, some,
  if◌then◌else◌, ◌==◌, ltb, length, take, drop,
}
use futureq_v.Prelude.Result.{
  Result, ok, err, panic, Error, pebble_not_found, unexpected_eof, snapshot_stopped,
}
use futureq_v.Prelude.Method.{M, ◌>>=◌, ◌>>◌, pure, lift, for_each, continue}
use futureq_v.Bytes.{Bytes, be_bytes, be_value}
use futureq_v.Storage.{Db, no_sync, sync, unbounded, scan_db}
use futureq_v.Repository.{RepoBatch, on_batch, store_raw_with_batch, read_u64}
use futureq_v.Event.Commands.{StoreBatchItem, unmarshal_store_batch_cmd, unmarshal_delete_batch_cmd}

-- The key "metadata/raft/applied-index", as bytes.
abbrev pub applied_index_key : Bytes
applied_index_key =
    b'm' ∷ b'e' ∷ b't' ∷ b'a' ∷ b'd' ∷ b'a' ∷ b't' ∷ b'a' ∷ b'/' ∷ b'r' ∷ b'a' ∷ b'f' ∷ b't' ∷ b'/'
    ∷ b'a' ∷ b'p' ∷ b'p' ∷ b'l' ∷ b'i' ∷ b'e' ∷ b'd' ∷ b'-' ∷ b'i' ∷ b'n' ∷ b'd' ∷ b'e' ∷ b'x' ∷ []

pub record EventStateMachine (D : Type 0) : Type 0 where
  pub db : D
  pub last_id : ℕ
  pub last_applied : ℕ

-- statemachine.Entry
pub record Entry : Type 0 where
  pub index : ℕ
  pub cmd : Bytes

-- A result value, and the keys that were deleted.
abbrev pub Applied : Type 0
Applied = ℕ × List Bytes

-- The errors of a command are logged, and its result is 0.
abbrev pub or_zero : {S A : Type 0} → S × Result A → (A → Applied) → S × Result Applied
or_zero (s, ok a) f = (s, ok (f a))
or_zero (s, err e) f = (s, ok (0, []))
or_zero (s, panic) f = (s, panic)

abbrev collect_deleted :
    {S : Type 0} → Bytes → S × Result (Unit {0}) → M S (List Bytes) → S × Result (List Bytes)
collect_deleted k (s, ok u) rest = continue (rest s) (λ ks s'. (s', ok (k ∷ ks)))
collect_deleted k (s, err e) rest = rest s
collect_deleted k (s, panic) rest = (s, panic)

-- What a call of `Update` has done so far.
pub record Progress (B : Type 0) : Type 0 where
  pub repo : RepoBatch B
  pub applied : ℕ
  pub results : List ℕ
  pub deleted : List Bytes

abbrev record_applied :
    {B : Type 0}
    → Entry
    → Progress B
    → RepoBatch B × Result Applied
    → Progress B × Result (Unit {0})
record_applied en p (rb, ok (value, ks)) = (
  record p {
    repo = rb;
    applied = en.index;
    results = p.results ++ (value ∷ []);
    deleted = p.deleted ++ ks;
  },
  ok tt,
)
record_applied en p (rb, err e) = (record p { repo = rb }, err e)
record_applied en p (rb, panic) = (record p { repo = rb }, panic)

-- What `OnDeleteKeys` is called with, if it is called.
abbrev pub callback : List Bytes → Option (List Bytes)
callback [] = none
callback (k ∷ ks) = some (k ∷ ks)

abbrev after_commit :
    {D B : Type 0}
    → EventStateMachine D
    → Progress B
    → D × Result (Unit {0})
    → EventStateMachine D × Result (List ℕ × Option (List Bytes))
after_commit s p (d, ok _) = (record s { db = d }, ok (p.results, callback p.deleted))
after_commit s p (d, err e) = (record s { db = d }, err e)
after_commit s p (d, panic) = (record s { db = d }, panic)

module _ {D B : Type 0} (db : Db D B) where
  recover_applied : Result Bytes → Result ℕ
  unfolding read_u64
  recover_applied (ok val) = read_u64 val
  recover_applied (err pebble_not_found) = ok 0
  recover_applied (err e) = err e
  recover_applied panic = panic

  unfoldable pub open_shard : M (EventStateMachine D) ℕ
  unfolding recover_applied
  open_shard s = elim (recover_applied (db.get s.db applied_index_key)) [
    | ok n ↦ (record s { last_applied = n }, ok n)
    | err e ↦ (s, err e)
    | panic ↦ (s, panic)
  ]

  unfoldable pub store_item : StoreBatchItem → M (RepoBatch B) (Unit {0})
  store_item it = do _ ← store_raw_with_batch db it.bucket it.topic_hash it.indexes it.msg; pure tt

  delete_keys : List Bytes → M (RepoBatch B) (List Bytes)
  delete_keys [] s = (s, ok [])
  delete_keys (k ∷ ks) s = collect_deleted k (on_batch db (db.batch_delete k) s) (delete_keys ks)

  unfoldable pub apply_store :
      Result (List StoreBatchItem) → RepoBatch B → RepoBatch B × Result Applied
  unfolding store_item
  apply_store (ok items) s = or_zero (for_each store_item items s) (λ _. (length items, []))
  apply_store (err e) s = (s, ok (0, []))
  apply_store panic s = (s, panic)

  apply_delete : Result (List Bytes) → RepoBatch B → RepoBatch B × Result Applied
  unfolding delete_keys
  apply_delete (ok keys) s = or_zero (delete_keys keys s) (λ ks. (length ks, ks))
  apply_delete (err e) s = (s, ok (0, []))
  apply_delete panic s = (s, panic)

  unfoldable pub apply_entry : Bytes → M (RepoBatch B) Applied
  unfolding apply_store apply_delete
  apply_entry [] s = (s, ok (0, []))
  apply_entry (b ∷ bs) s =
      if b == 0
      then apply_store (unmarshal_store_batch_cmd (b ∷ bs)) s
      else if b == 1
      then apply_delete (unmarshal_delete_batch_cmd (b ∷ bs)) s
      else (s, ok (0, []))

  apply_one : Entry → M (Progress B) (Unit {0})
  unfolding apply_entry
  apply_one en p = record_applied en p (apply_entry en.cmd p.repo)

  -- `Update` puts the applied index into the batch, after the entries.
  write_applied : M (Progress B) (Unit {0})
  write_applied p =
      let (rb, r) = on_batch db (db.batch_set applied_index_key (be_bytes 8 p.applied)) p.repo in
      (record p { repo = rb }, r)

  commit_progress :
      EventStateMachine D
      → Progress B × Result (Unit {0})
      → EventStateMachine D × Result (List ℕ × Option (List Bytes))
  commit_progress s (p, ok _) =
      after_commit (record s { last_id = p.repo.last_id; last_applied = p.applied }) p
        (db.commit no_sync p.repo.batch s.db)
  commit_progress s (p, err e) =
      (record s { last_id = p.repo.last_id; last_applied = p.applied }, err e)
  commit_progress s (p, panic) =
      (record s { last_id = p.repo.last_id; last_applied = p.applied }, panic)

  abbrev start_update : EventStateMachine D → Progress B
  start_update s = record {
    repo = record { last_id = s.last_id; batch = db.new_batch s.db };
    applied = s.last_applied;
    results = [];
    deleted = [];
  }

  -- The results of the entries, and what `OnDeleteKeys` is called with.
  unfoldable pub update : List Entry → M (EventStateMachine D) (List ℕ × Option (List Bytes))
  unfolding apply_one write_applied commit_progress
  update entries s =
      commit_progress s
        (continue (for_each apply_one entries (start_update s)) (λ _. write_applied))

  unfoldable pub sync_shard : M (EventStateMachine D) (Unit {0})
  sync_shard s = let (d, r) = db.flush s.db in (record s { db = d }, r)

  unfoldable pub prepare_snapshot : EventStateMachine D → ℕ
  prepare_snapshot s = s.last_applied
