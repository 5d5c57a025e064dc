-- ===== src/Dispatcher/Deleter.antt =====
-- internal/dispatcher/deleter.go: keys that wait for deletion, and their deletion in batches.
-- `flush` releases its lock while the backend works. It is modelled whole, and also as two steps
-- between which other calls of `MarkDeleted` come; one goroutine flushes.
pub mod Conservation
pub mod Backend
pub mod Loop
pub mod Flushed
use futureq_v.Prelude.{ℕ, List, [], ◌∷◌, ◌++◌, Option, none, some}
use futureq_v.Prelude.Result.{Result, Error, ok, err, panic}
use futureq_v.Prelude.Method.{M, continue}
use futureq_v.Bytes.{Bytes}
use futureq_v.Storage.{Db, sync}
use futureq_v.Event.Commands.{marshal_delete_batch_cmd}

-- A DeleteBackend, over the state `S` that it changes.
abbrev pub DeleteBackend : Type 0 → Type 0
DeleteBackend S = List Bytes → M S (Unit {0})

abbrev propose_command : {S : Type 0} → (Bytes → M S (Unit {0})) → Result Bytes → M S (Unit {0})
propose_command propose (ok cmd) s = propose cmd s
propose_command propose (err e) s = (s, err e)
propose_command propose panic s = (s, panic)

-- `propose` submits a command to the event shard.
unfoldable pub raft_delete_keys : {S : Type 0} → (Bytes → M S (Unit {0})) → DeleteBackend S
raft_delete_keys propose keys = propose_command propose (marshal_delete_batch_cmd keys)

abbrev next_delete :
    {B : Type 0} → B × Result (Unit {0}) → (B → B × Result (Unit {0})) → B × Result (Unit {0})
next_delete (b, ok u) rest = rest b
next_delete (b, err e) rest = rest b
next_delete (b, panic) rest = (b, panic)

-- An error of a single deletion is logged and passed over.
delete_each : {D B : Type 0} → Db D B → List Bytes → M B (Unit {0})
delete_each db [] b = (b, ok tt)
delete_each db (k ∷ ks) b = next_delete (db.batch_delete k b) (delete_each db ks)

abbrev commit_deletes : {D B : Type 0} → Db D B → B × Result (Unit {0}) → M D (Unit {0})
commit_deletes db (b, ok u) d = db.commit sync b d
commit_deletes db (b, err e) d = (d, err e)
commit_deletes db (b, panic) d = (d, panic)

unfoldable pub direct_delete_keys : {D B : Type 0} → Db D B → DeleteBackend D
unfolding delete_each
direct_delete_keys db keys d = commit_deletes db (delete_each db keys (db.new_batch d)) d

-- ── Deleter ──

-- `flushing` holds the keys of a flush between its two critical sections.
pub record Deleter : Type 0 where
  pub pending : List Bytes
  pub flushing : Option (List Bytes)

unfoldable pub mark_deleted : Bytes → Deleter → Deleter
mark_deleted key d = record d { pending = d.pending ++ (key ∷ []) }

abbrev take_pending : List Bytes → Deleter → Deleter
take_pending [] d = d
take_pending (k ∷ ks) d = record { pending = []; flushing = some (k ∷ ks) }

-- The first critical section of `flush`.
unfoldable pub begin_flush : Deleter → Deleter
begin_flush d = take_pending d.pending d

-- What a flush does when the backend returns: the keys for `OnDelete`, which a failure has none of,
-- or a second critical section that puts the keys back in front.
unfoldable pub end_flush : List Bytes → Result (Unit {0}) → Deleter → Deleter × List Bytes
end_flush keys (ok u) d = (record d { flushing = none }, keys)
end_flush keys (err e) d = (record { pending = keys ++ d.pending; flushing = none }, [])
end_flush keys panic d = (record d { flushing = none }, [])

abbrev run_flush :
    {S : Type 0} → DeleteBackend S → Option (List Bytes) → Deleter → S → (Deleter × List Bytes) × S
run_flush backend none d s = ((d, []), s)
run_flush backend (some keys) d s = let (s', r) = backend keys s in (end_flush keys r d, s')

-- A flush with no other call in between: the deleter, the keys deleted, and the backend's state.
unfoldable pub flush : {S : Type 0} → DeleteBackend S → Deleter → S → (Deleter × List Bytes) × S
unfolding begin_flush end_flush
flush backend d s = run_flush backend (begin_flush d).flushing (begin_flush d) s
