-- ===== src/Event/StateMachine/Snapshot.antt =====
-- internal/raft/event/statemachine.go: snapshots of the event shard. A closed stop channel is seen by
-- a poll: `stopped n` tells what the n-th poll finds. A snapshot is written to any writer, and read
-- from the bytes that arrive; the two methods run on different nodes.
pub mod Saved
pub mod Replay
pub mod Recovered
use futureq_v.Prelude.{
  ℕ, zero, suc, ◌+◌, ◌%◌, ◌^◌, List, [], ◌∷◌, ◌++◌, Bool, Option, none, some, if◌then◌else◌, length,
}
use futureq_v.Prelude.Result.{
  Result, ok, err, panic, Error, pebble_not_found, end_of_file, snapshot_stopped,
}
use futureq_v.Prelude.Method.{M, ◌>>=◌, ◌>>◌, pure, lift, for_each, continue}
use futureq_v.Bytes.{Bytes}
use futureq_v.Bytes.Reader.{read_full, le_bytes, le_value}
use futureq_v.Storage.{Db, no_sync, sync, unbounded, scan_db}
use futureq_v.Repository.{read_u64}
use futureq_v.Event.StateMachine.{EventStateMachine, applied_index_key}

-- A state beside the number of polls made.
pub record Polled (S : Type 0) : Type 0 where
  pub state : S
  pub polls : ℕ

module _ (stopped : ℕ → Bool) {S : Type 0} where
  abbrev pub poll : M (Polled S) (Unit {0})
  poll s =
      (record s { polls = s.polls + 1 }, if stopped s.polls then err snapshot_stopped else ok tt)

  abbrev pub on_state : {A : Type 0} → M S A → M (Polled S) A
  on_state m s = let (st, r) = m s.state in (record s { state = st }, r)

-- ── SaveSnapshot ──

-- `uint32(len(b))` in little-endian order, and then the bytes.
abbrev pub write_block : {W : Type 0} → (Bytes → M W (Unit {0})) → Bytes → M W (Unit {0})
write_block write b = do write (le_bytes 4 (length b % 2 ^ 32)); write b

unfoldable pub save_entry :
    (ℕ → Bool) → {W : Type 0} → (Bytes → M W (Unit {0})) → Bytes × Bytes → M (Polled W) (Unit {0})
save_entry stopped write (key, value) = do
  poll stopped
  on_state stopped (write_block write key)
  on_state stopped (write_block write value)

unfoldable pub save_snapshot :
    (ℕ → Bool)
    → {W : Type 0} → (Bytes → M W (Unit {0}))
    → {D B : Type 0} → Db D B
    → D
    → M (Polled W) (Unit {0})
unfolding save_entry
save_snapshot stopped write db d = scan_db db unbounded (save_entry stopped write) d

-- ── RecoverFromSnapshot ──

-- What the loop that reads a snapshot changes.
pub record Recovery (B : Type 0) : Type 0 where
  pub input : Bytes
  pub batch : B

abbrev read_input : {B A : Type 0} → M Bytes A → M (Recovery B) A
read_input m s = let (rest, r) = m s.input in (record s { input = rest }, r)

abbrev read_length : M Bytes ℕ
read_length input = continue (read_full 4 input) (λ b rest. (rest, ok (le_value b)))

-- The end of the input in front of an entry ends the loop.
abbrev entry_length : Bytes × Result ℕ → Bytes × Result (Option ℕ)
entry_length (rest, ok n) = (rest, ok (some n))
entry_length (rest, err end_of_file) = (rest, ok none)
entry_length (rest, err e) = (rest, err e)
entry_length (rest, panic) = (rest, panic)

module _ (stopped : ℕ → Bool) {D B : Type 0} (db : Db D B) where
  delete_entries : Bytes × Bytes → M (Polled B) (Unit {0})
  delete_entries (key, value) = do poll stopped; on_state stopped (db.batch_delete key)

  abbrev commit_clear : D → Polled B × Result (Unit {0}) → M (Polled D) (Unit {0})
  commit_clear d (b, ok u) s =
      let (d', r) = db.commit no_sync b.state d in (record { state = d'; polls = b.polls }, r)
  commit_clear d (b, err e) s = (record s { polls = b.polls }, err e)
  commit_clear d (b, panic) s = (record s { polls = b.polls }, panic)

  -- `clearDB`, which deletes what it iterates over in one batch.
  unfoldable pub clear_db : M (Polled D) (Unit {0})
  unfolding delete_entries
  clear_db s =
      commit_clear s.state
        (scan_db db unbounded delete_entries s.state
          (record { state = db.new_batch s.state; polls = s.polls }))
        s

  read_entry : M (Recovery B) (Unit {0}) → ℕ → M (Recovery B) (Unit {0})
  read_entry rest klen = do
    k ← read_input (read_full klen)
    vlen ← read_input read_length
    v ← read_input (read_full vlen)
    (λ s. let (b, r) = db.batch_set k v s.batch in (record s { batch = b }, r))
    rest

  -- One turn of the loop: whether it goes on.
  recover_turn : M (Polled (Recovery B)) Bool
  unfolding read_entry
  recover_turn = do
    poll stopped
    on_state stopped (λ s.
        let (rest, r) = entry_length (read_length s.input) in
        continue (record s { input = rest }, r)
          (λ klen s'. elim klen [
            | none ↦ (s', ok Bool.false)
            | some n ↦ continue (read_entry (λ s2. (s2, ok tt)) n s') (λ _ s2. (s2, ok Bool.true))
          ]))

  abbrev go_on :
      Polled (Recovery B) × Result Bool
      → (Polled (Recovery B) → Option (Polled (Recovery B) × Result (Unit {0})))
      → Option (Polled (Recovery B) × Result (Unit {0}))
  go_on (s, ok Bool.true) rest = rest s
  go_on (s, ok Bool.false) rest = some (s, ok tt)
  go_on (s, err e) rest = some (s, err e)
  go_on (s, panic) rest = some (s, panic)

  -- Each turn but the last takes a whole entry, of at least 8 bytes, from the input.
  recover_loop : ℕ → Polled (Recovery B) → Option (Polled (Recovery B) × Result (Unit {0}))
  unfolding recover_turn
  recover_loop zero s = none
  recover_loop (suc fuel) s = go_on (recover_turn s) (recover_loop fuel)

  -- Without a stored index `lastApplied` stays; only Pebble's error counts as that.
  abbrev reload_applied : Result Bytes → M (EventStateMachine D) (Unit {0})
  reload_applied (ok val) s =
      continue (s, read_u64 val) (λ n s'. (record s' { last_applied = n }, ok tt))
  reload_applied (err pebble_not_found) s = (s, ok tt)
  reload_applied (err e) s = (s, err e)
  reload_applied panic s = (s, panic)

  abbrev commit_recovery :
      Polled (Recovery B) × Result (Unit {0}) → M (EventStateMachine D) (Unit {0})
  commit_recovery (p, ok u) s =
      continue (let (d, r) = db.commit sync p.state.batch s.db in (record s { db = d }, r))
        (λ _ s'. reload_applied (db.get s'.db applied_index_key) s')
  commit_recovery (p, err e) s = (s, err e)
  commit_recovery (p, panic) s = (s, panic)

  abbrev finish_recovery :
      Option (Polled (Recovery B) × Result (Unit {0}))
      → EventStateMachine D
      → Option (EventStateMachine D × Result (Unit {0}))
  finish_recovery none s = none
  finish_recovery (some r) s = some (commit_recovery r s)

  abbrev after_clear :
      ℕ
      → Bytes
      → Polled D × Result (Unit {0})
      → EventStateMachine D
      → Option (EventStateMachine D × Result (Unit {0}))
  after_clear fuel input (c, ok u) s =
      finish_recovery
        (recover_loop fuel (record {
          state = record { input = input; batch = db.new_batch c.state };
          polls = c.polls;
        }))
        (record s { db = c.state })
  after_clear fuel input (c, err e) s = some (record s { db = c.state }, err e)
  after_clear fuel input (c, panic) s = some (record s { db = c.state }, panic)

  -- None when the fuel runs out.
  unfoldable pub recover_from_snapshot :
      ℕ → Bytes → EventStateMachine D → Option (EventStateMachine D × Result (Unit {0}))
  unfolding recover_loop
  recover_from_snapshot fuel input s =
      after_clear fuel input (clear_db (record { state = s.db; polls = 0 })) s
