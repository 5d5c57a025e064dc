-- ===== src/Event/StateMachine/Snapshot/Recovered.antt =====
-- A snapshot that is written by one replica and read by another, whose batches and commits do not fail.
use futureq_v.Prelude.{
  ℕ, zero, suc, ◌+◌, ◌^◌, ◌<◌, ◌≡◌, refl, sym, ap, ap₂, ◌∙◌, List, [], ◌∷◌, ◌++◌, map, append_assoc,
  append-nil, true, false, some, length, arith,
}
use futureq_v.Prelude.Result.{Result, ok}
use futureq_v.Prelude.Method.{for_each}
use futureq_v.Bytes.{Bytes, IsU64, be_bytes}
use futureq_v.Bytes.Reader.{
  read_full, le_bytes, length-le_bytes, le_value-le_bytes, read_full-block, read_full-append,
}
use futureq_v.Storage.{range-unbounded, Db, SyncMode, no_sync, sync, unbounded, scan_db}
use futureq_v.Storage.Content.{Op, set, delete, Entries, apply_ops, get_entry, IsSorted}
use futureq_v.Event.StateMachine.{EventStateMachine, applied_index_key}
use futureq_v.Event.StateMachine.Update.{read_u64-be_bytes}
use futureq_v.Event.StateMachine.Snapshot.{
  save_snapshot, clear_db, delete_entries, recover_turn, read_entry, recover_loop,
  recover_from_snapshot,
}
use futureq_v.Event.StateMachine.Snapshot.Saved.{
  never, collect, encode_entries, Fits, save_snapshot-encoded,
}
use futureq_v.Event.StateMachine.Snapshot.Replay.{
  to_set, to_delete, apply_ops-sets, apply_ops-deletes,
}

module _ {D B : Type 0} (db : Db D B) where
  for_each-delete_entries :
      (es : Entries) (b : B) (n : ℕ)
      → ((k : Bytes) (b : B) → (db.batch_delete k b).1 ≡ ok tt)
      → (b' : B) × (n' : ℕ) × (for_each
            (delete_entries never db)
            es
            (record { state = b; polls = n })
          ≡ (record { state = b'; polls = n' }, ok tt))
        × (db.ops b' ≡ db.ops b ++ map to_delete es)
  unfolding delete_entries
  for_each-delete_entries [] b n reliable = (b, n, refl, sym (append-nil (db.ops b)))
  for_each-delete_entries ((k, v) ∷ es) b n reliable =
      let b1 = (db.batch_delete k b).0 in
      let e : db.batch_delete k b ≡ (b1, ok tt) =
        ap (λ (r : Result (Unit {0})). (b1, r)) (reliable k b) in
      let (b', n', h, o) = for_each-delete_entries es b1 (n + 1) reliable in
      (
        b',
        n',
        rw e h,
        o
            ∙ ap (λ (os : List Op). os ++ map to_delete es) (db.delete_ops k b b1 e)
            ∙ append_assoc (db.ops b) (delete k ∷ []) (map to_delete es),
      )

  clear_db-empty :
      (d : D) (n : ℕ)
      → ((k : Bytes) (b : B) → (db.batch_delete k b).1 ≡ ok tt)
      → ((m : SyncMode) (b : B) (d : D) → (db.commit m b d).1 ≡ ok tt)
      → (db.visit unbounded d).1 ≡ ok tt
      → (d' : D) × (n' : ℕ) × (clear_db never db (record { state = d; polls = n })
          ≡ (record { state = d'; polls = n' }, ok tt))
        × (db.entries d' ≡ [])
  unfolding clear_db scan_db
  clear_db-empty d n reliable_delete reliable_commit hv =
      let (b', n', h, o) =
        for_each-delete_entries (db.entries d) (db.new_batch d) n reliable_delete in
      let d' = (db.commit no_sync b' d).0 in
      let e : db.commit no_sync b' d ≡ (d', ok tt) =
        ap (λ (r : Result (Unit {0})). (d', r)) (reliable_commit no_sync b' d) in
      let visited = db.visit_range unbounded d hv ∙ range-unbounded (db.entries d) in
      (
        d',
        n',
        rw (visited, h, hv, e) refl,
        db.commit_entries no_sync b' d d' e
            ∙ ap (λ (os : List Op). apply_ops os (db.entries d))
                (o ∙ ap (λ (os : List Op). os ++ map to_delete (db.entries d)) (db.new_batch_ops d))
            ∙ apply_ops-deletes (db.entries d),
      )

  recover_turn_end :
      (b : B) (n : ℕ)
      → recover_turn never db (record { state = record { input = []; batch = b }; polls = n })
        ≡ (record { state = record { input = []; batch = b }; polls = n + 1 }, ok false)
  unfolding recover_turn read_full
  recover_turn_end b n = refl

  recover_turn_entry :
      (k v tail : Bytes) (b b' : B) (n : ℕ)
      → length k < 2 ^ 32
      → length v < 2 ^ 32
      → db.batch_set k v b ≡ (b', ok tt)
      → recover_turn never db (record {
        state = record {
          input = le_bytes 4 (length k) ++ (k ++ (le_bytes 4 (length v) ++ (v ++ tail)));
          batch = b;
        };
        polls = n;
      })
        ≡ (record { state = record { input = tail; batch = b' }; polls = n + 1 }, ok true)
  unfolding recover_turn read_entry
  recover_turn_entry k v tail b b' n hk hv e =
      let lk = le_bytes 4 (length k) in
      let lv = le_bytes 4 (length v) in
      rw
        (
          read_full-block 4 lk (k ++ (lv ++ (v ++ tail))) (length-le_bytes 4 (length k)),
          le_value-le_bytes 4 (length k) hk,
          read_full-append k (lv ++ (v ++ tail)),
          read_full-block 4 lv (v ++ tail) (length-le_bytes 4 (length v)),
          le_value-le_bytes 4 (length v) hv,
          read_full-append v tail,
          e,
        )
        (ap
          (λ (r : B × Result (Unit {0})).
            (record { state = record { input = tail; batch = r.0 }; polls = n + 1 }, ok true))
          e)

  recover_loop-encoded :
      (fuel : ℕ) (es : Entries) (b : B) (n : ℕ)
      → ((k v : Bytes) (b : B) → (db.batch_set k v b).1 ≡ ok tt)
      → Fits es
      → length es < fuel
      → (b' : B) × (n' : ℕ) × (recover_loop never db fuel
            (record { state = record { input = encode_entries es; batch = b }; polls = n })
          ≡ some (record { state = record { input = []; batch = b' }; polls = n' }, ok tt))
        × (db.ops b' ≡ db.ops b ++ map to_set es)
  unfolding recover_loop
  recover_loop-encoded zero es b n reliable h hf = absurd (omega arith)
  recover_loop-encoded (suc fuel) [] b n reliable h hf =
      (b, n + 1, rw (recover_turn_end b n) refl, sym (append-nil (db.ops b)))
  recover_loop-encoded (suc fuel) ((k, v) ∷ es) b n reliable ((hk, hv), h) hf =
      let b1 = (db.batch_set k v b).0 in
      let e : db.batch_set k v b ≡ (b1, ok tt) =
        ap (λ (r : Result (Unit {0})). (b1, r)) (reliable k v b) in
      let (b', n', hl, o) = recover_loop-encoded fuel es b1 (n + 1) reliable h (omega arith) in
      (
        b',
        n',
        rw (recover_turn_entry k v (encode_entries es) b b1 n hk hv e) hl,
        o
            ∙ ap (λ (os : List Op). os ++ map to_set es) (db.set_ops k v b b1 e)
            ∙ append_assoc (db.ops b) (set k v ∷ []) (map to_set es),
      )

  -- A replica that recovers from the snapshot of a sorted store with an applied index, where batches
  -- and commits do not fail and nobody stops it, succeeds given more fuel than there are entries: it
  -- then holds exactly the entries and the index of the sender, whatever it held before. But the
  -- counter of event ids stays what it was.
  pub recover-save :
      (fuel : ℕ) (sender : D) (s : EventStateMachine D) (index : ℕ)
      → ((k v : Bytes) (b : B) → (db.batch_set k v b).1 ≡ ok tt)
      → ((k : Bytes) (b : B) → (db.batch_delete k b).1 ≡ ok tt)
      → ((m : SyncMode) (b : B) (d : D) → (db.commit m b d).1 ≡ ok tt)
      → (db.visit unbounded sender).1 ≡ ok tt
      → (db.visit unbounded s.db).1 ≡ ok tt
      → IsSorted (db.entries sender)
      → Fits (db.entries sender)
      → get_entry applied_index_key (db.entries sender) ≡ some (be_bytes 8 index)
      → IsU64 index
      → length (db.entries sender) < fuel
      → let snapshot =
          (save_snapshot never collect db sender (record { state = []; polls = 0 })).0.state in
        (s' : EventStateMachine D) × (recover_from_snapshot never db fuel snapshot s
          ≡ some (s', ok tt))
        × (db.entries s'.db ≡ db.entries sender)
        × (s'.last_applied ≡ index)
        × (s'.last_id ≡ s.last_id)
  unfolding recover_from_snapshot
  recover-save fuel sender s index set_ok delete_ok commit_ok hv hv' sorted fits stored hu hf =
      let es = db.entries sender in
      let (c, n, hc, empty) = clear_db-empty s.db 0 delete_ok commit_ok hv' in
      let (b, n', hl, o) = recover_loop-encoded fuel es (db.new_batch c) n set_ok fits hf in
      let d = (db.commit sync b c).0 in
      let e : db.commit sync b c ≡ (d, ok tt) =
        ap (λ (r : Result (Unit {0})). (d, r)) (commit_ok sync b c) in
      let content : db.entries d ≡ es =
        db.commit_entries sync b c d e
        ∙ ap₂ apply_ops (o ∙ ap (λ (os : List Op). os ++ map to_set es) (db.new_batch_ops c)) empty
        ∙ apply_ops-sets es [] sorted in
      let got : db.get d applied_index_key ≡ ok (be_bytes 8 index) =
        db.get_some d applied_index_key _ (ap (get_entry applied_index_key) content ∙ stored) in
      (
        record s { db = d; last_applied = index },
        rw (save_snapshot-encoded db sender fits hv, hc, hl, e, got, read_u64-be_bytes index hu)
            refl,
        content,
        refl,
        refl,
      )
