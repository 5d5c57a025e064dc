-- ===== src/Dispatcher/Janitor/Purged.antt =====
-- What a sweep of the janitor and a flush of the deleter leave in the store of a standalone node.
use futureq_v.Prelude.{ℕ, ◌≡◌, ◌≢◌, refl, ap, ◌∙◌, ◌++◌, none, if◌then◌else◌}
use futureq_v.Prelude.Result.{ok, panic}
use futureq_v.Bytes.{Bytes}
use futureq_v.Storage.{Db, sync, unbounded}
use futureq_v.Storage.Content.{IsSorted, get_entry}
use futureq_v.Repository.{Codec}
use futureq_v.Dispatcher.Deleter.{Deleter, flush, direct_delete_keys}
use futureq_v.Dispatcher.Deleter.Backend.{mem_key, get_entry-deletes}
use futureq_v.Dispatcher.Deleter.Flushed.{flush_direct}
use futureq_v.Dispatcher.Janitor.{sweep, sweep_lem, expired_events}

module _ {D B : Type 0} (db : Db D B)
    (reliable : (k : Bytes) (b : B) → (db.batch_delete k b).1 ≡ ok tt)
    (commits : (b : B) (d : D) → (db.commit sync b d).1 ≡ ok tt) where
  -- After a sweep and the flush that follows it, a standalone node whose store can be iterated, and
  -- accepts its batches, holds what it held before, but for the keys that waited for deletion already
  -- and the events of 24 bytes whose message had expired at the time of the sweep.
  pub sweep-flush :
      (codec : Codec) (now : ℕ) (d : Deleter) (store : D) (k : Bytes)
      → ((v : Bytes) → codec.unmarshal v ≢ panic)
      → (db.visit unbounded store).1 ≡ ok tt
      → IsSorted (db.entries store)
      → d.flushing ≡ none
      → get_entry k
          (db.entries (flush (direct_delete_keys db) (sweep codec now db store d).0 store).1)
        ≡ (if mem_key k (d.pending ++ expired_events codec now (db.entries store))
            then none
            else get_entry k (db.entries store))
  sweep-flush codec now d store k decodes visits sorted f =
      let found = expired_events codec now (db.entries store) in
      rw (sweep_lem codec now db store d decodes visits) (
        ap (get_entry k) (
          (flush_direct db reliable commits (d.pending ++ found)
            (record d { pending = d.pending ++ found }) store refl f).0)
        ∙ get_entry-deletes (d.pending ++ found) k (db.entries store) sorted)
