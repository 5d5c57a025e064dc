-- ===== src/App/Wiring.antt =====
-- cmd/futureq/start.go: how the deleter is tied to the dispatcher, and what becomes of an
-- acknowledged message.
use futureq_v.Prelude.{◌≡◌, refl, ap, ◌∙◌, List, [], ◌∷◌, ◌++◌, none, if◌then◌else◌, arith}
use futureq_v.Prelude.Result.{ok}
use futureq_v.Bytes.{Bytes}
use futureq_v.Maps.{lookup, Distinct, remove-Distinct, lookup-remove}
use futureq_v.Storage.{Db, sync}
use futureq_v.Storage.Content.{IsSorted, get_entry}
use futureq_v.Dispatcher.Deleter.{DeleteBackend, flush, direct_delete_keys}
use futureq_v.Dispatcher.Deleter.Backend.{mem_key, get_entry-deletes}
use futureq_v.Dispatcher.Deleter.Flushed.{flush_direct}
use futureq_v.Dispatcher.Dispatch.{Dispatcher, remove_in_flight}
use futureq_v.Handlers.Consumer.{ConsumerFrame, receive_all}
use futureq_v.Handlers.Consumer.Received.{
  acknowledged, receive_all-acknowledged, receive_all-flushing,
}

-- `deleter.OnDelete`, called for each key that was deleted.
unfoldable pub on_delete : List Bytes → Dispatcher → Dispatcher
on_delete [] d = d
on_delete (k ∷ ks) d = on_delete ks (remove_in_flight k d)

-- A flush of the deleter, with the backend that `startRun` builds.
unfoldable pub flush_wired : {S : Type 0} → DeleteBackend S → Dispatcher → S → Dispatcher × S
unfolding on_delete
flush_wired backend d s =
    let ((deleter, deleted), s1) = flush backend d.deleter s in
    (on_delete deleted (record d { deleter = deleter }), s1)

on_delete-lookup :
    (keys : List Bytes) (k : Bytes) (d : Dispatcher)
    → Distinct d.in_flight
    → lookup k (on_delete keys d).in_flight
      ≡ (if mem_key k keys then none else lookup k d.in_flight)
unfolding on_delete remove_in_flight
on_delete-lookup [] k d h = refl
on_delete-lookup (x ∷ xs) k d h = ground (
  arith,
  on_delete-lookup xs k (remove_in_flight x d) (remove-Distinct x d.in_flight h),
  lookup-remove x k d.in_flight h,
)

module _ {D B : Type 0} (db : Db D B)
    (reliable : (k : Bytes) (b : B) → (db.batch_delete k b).1 ≡ ok tt)
    (commits : (b : B) (d : D) → (db.commit sync b d).1 ≡ ok tt) where
  -- When a consumer of a standalone node has sent its frames and the deleter has flushed, the keys that
  -- waited for deletion before and those that it acknowledged are gone from the store and not in
  -- flight any more; all other keys, refused ones among them, are stored and in flight as before. The
  -- store has its keys in order and accepts its batches, no flush was running, and the dispatcher knew
  -- each key in flight once.
  pub receive_all-flush :
      (id : Bytes) (frames : List ConsumerFrame) (d : Dispatcher) (store : D) (k : Bytes)
      → IsSorted (db.entries store)
      → Distinct d.in_flight
      → d.deleter.flushing ≡ none
      → let gone = d.deleter.pending ++ acknowledged frames in
        let r = flush_wired (direct_delete_keys db) (receive_all id frames d) store in
        (get_entry k (db.entries r.1)
          ≡ (if mem_key k gone then none else get_entry k (db.entries store)))
        × (lookup k r.0.in_flight ≡ (if mem_key k gone then none else lookup k d.in_flight))
  unfolding flush_wired
  receive_all-flush id frames d store k sorted distinct f =
      let gone = d.deleter.pending ++ acknowledged frames in
      let d1 = receive_all id frames d in
      let (pending, flying, _, _) = receive_all-acknowledged id frames d in
      let (left, deleted, _) =
        flush_direct db reliable commits gone d1.deleter store pending
          (receive_all-flushing id frames d ∙ f) in
      (
        ap (get_entry k) left ∙ get_entry-deletes gone k (db.entries store) sorted,
        rw (deleted) (
            on_delete-lookup gone k
              (record d1 { deleter = (flush (direct_delete_keys db) d1.deleter store).0.0 })
              (rw flying distinct)
            ∙ rw flying refl),
      )
