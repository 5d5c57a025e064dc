-- ===== src/Dispatcher/Deleter/Flushed.antt =====
-- What a flush leaves in the store of a standalone node.
use futureq_v.Prelude.{◌≡◌, refl, List, [], ◌∷◌, map, none}
use futureq_v.Prelude.Result.{ok}
use futureq_v.Bytes.{Bytes}
use futureq_v.Storage.{Db, sync}
use futureq_v.Storage.Content.{delete, apply_ops}
use futureq_v.Dispatcher.Deleter.{Deleter, flush, end_flush, direct_delete_keys}
use futureq_v.Dispatcher.Deleter.Backend.{direct_delete_keys-entries}
use futureq_v.Dispatcher.Deleter.Loop.{flush_empty, flush_some}

module _ {D B : Type 0} (db : Db D B)
    (reliable : (k : Bytes) (b : B) → (db.batch_delete k b).1 ≡ ok tt)
    (commits : (b : B) (d : D) → (db.commit sync b d).1 ≡ ok tt) where
  -- Where the store accepts the batch, all keys that waited are deleted, and none waits any more.
  pub flush_direct :
      (ps : List Bytes) (d : Deleter) (store : D)
      → d.pending ≡ ps
      → d.flushing ≡ none
      → let r = flush (direct_delete_keys db) d store in
        (db.entries r.1 ≡ apply_ops (map delete ps) (db.entries store))
        × (r.0.1 ≡ ps)
        × (r.0.0.pending ≡ [])
  unfolding apply_ops end_flush
  flush_direct [] d store e f = rw (flush_empty (direct_delete_keys db) d store e f) (refl, refl, e)
  flush_direct (k ∷ ks) d store e f =
      let (done, left) = direct_delete_keys-entries db reliable commits (k ∷ ks) store in
      rw (flush_some (direct_delete_keys db) k ks d store e, done) (left, refl, refl)
