-- ===== src/Dispatcher/Deleter/Backend.antt =====
-- What the two backends delete, and a key that stops all deletions in a cluster.
use futureq_v.Prelude.{
  ◌≡◌, ◌≢◌, refl, sym, ap, ◌∙◌, List, [], ◌∷◌, ◌++◌, map, append_assoc, append-nil, none, some,
  Bool, false, ◌||◌, arith, if◌then◌else◌, length, All,
}
use futureq_v.Prelude.Result.{Result, Error, ok, err, bad_length}
use futureq_v.Prelude.Method.{M}
use futureq_v.Bytes.{Bytes}
use futureq_v.Bytes.Order.{bytes_eq}
use futureq_v.Storage.{Db, sync}
use futureq_v.Storage.Content.{
  Op, delete, Entries, IsSorted, apply_ops, apply_op, get_entry, get_entry-delete_entry,
  delete_entry, delete_entry-IsSorted, delete_entry,
}
use futureq_v.Event.Commands.Delete.{IsKey, marshal_delete_bad}
use futureq_v.Dispatcher.Deleter.{
  Deleter, DeleteBackend, propose_command, raft_delete_keys, direct_delete_keys, delete_each,
  begin_flush, end_flush, run_flush, flush, next_delete, take_pending, mark_deleted,
}

raft_delete_bad :
    {S : Type 0} (propose : Bytes → M S (Unit {0})) (front back : List Bytes) (bad : Bytes) (s : S)
    → All IsKey front
    → length bad ≢ 24
    → raft_delete_keys propose (front ++ bad ∷ back) s ≡ (s, err (bad_length (length bad)))
unfolding raft_delete_keys
raft_delete_bad propose front back bad s h hb =
    ap (λ (r : Result Bytes). propose_command propose r s) (marshal_delete_bad front back bad h hb)

flush_pending :
    {S : Type 0} (backend : DeleteBackend S) (d : Deleter) (s : S) (keys : List Bytes) (e : Error)
    → d.flushing ≡ none
    → d.pending ≡ keys
    → keys ≢ []
    → backend keys s ≡ (s, err e)
    → flush backend d s ≡ ((d, []), s)
unfolding flush begin_flush end_flush
flush_pending {S} backend d s [] e hf hp ne failed = absurd (ne refl)
flush_pending {S} backend d s (k ∷ ks) e hf hp ne failed =
    ap (λ (ps : List Bytes). run_flush backend (take_pending ps d).flushing (take_pending ps d) s)
      hp
    ∙ ap (λ (r : S × Result (Unit {0})). (end_flush (k ∷ ks) r.1 taken, r.0)) failed
    ∙ restored
  where
    taken : Deleter
    taken = record { pending = []; flushing = some (k ∷ ks) }

    restored :
        ◌≡◌ {A = (Deleter × List Bytes) × S}
          ((record { pending = (k ∷ ks) ++ []; flushing = none }, []), s)
          ((d, []), s)
    restored = ground (arith, append-nil ks)

-- Rounds of marking keys and then flushing: the deleter, all keys deleted, and the backend's state.
abbrev pub mark_all : List Bytes → Deleter → Deleter
mark_all [] d = d
mark_all (k ∷ ks) d = mark_all ks (mark_deleted k d)

abbrev pub rounds :
    {S : Type 0} → DeleteBackend S → List (List Bytes) → Deleter → S → (Deleter × List Bytes) × S
rounds backend [] d s = ((d, []), s)
rounds backend (ks ∷ rest) d s =
    let ((d1, deleted), s1) = flush backend (mark_all ks d) s in
    let ((d2, later), s2) = rounds backend rest d1 s1 in ((d2, deleted ++ later), s2)

mark_all-pending :
    (ks : List Bytes) (d : Deleter) → mark_all ks d ≡ record d { pending = d.pending ++ ks }
unfolding mark_deleted
mark_all-pending [] d = ground (arith, append-nil d.pending)
mark_all-pending (k ∷ ks) d =
    mark_all-pending ks (mark_deleted k d) ∙ ground (arith, append_assoc d.pending (k ∷ []) ks)

flush_poisoned :
    {S : Type 0} (propose : Bytes → M S (Unit {0})) (front back : List Bytes) (bad : Bytes)
    (d : Deleter) (s : S)
    → All IsKey front
    → length bad ≢ 24
    → d.flushing ≡ none
    → d.pending ≡ front ++ bad ∷ back
    → flush (raft_delete_keys propose) d s ≡ ((d, []), s)
flush_poisoned propose front back bad d s h hb hf hp =
    flush_pending (raft_delete_keys propose) d s (front ++ bad ∷ back) (bad_length (length bad)) hf
      hp (not_nil front) (raft_delete_bad propose front back bad s h hb)
  where
    not_nil : (xs : List Bytes) → xs ++ bad ∷ back ≢ []
    not_nil [] e = cc
    not_nil (x ∷ xs) e = cc

-- In a cluster one key of another length than 24 stops all deletions for good: whatever keys are
-- marked and however often the deleter flushes, nothing is proposed and nothing deleted.
pub rounds_poisoned :
    {S : Type 0} (propose : Bytes → M S (Unit {0})) (front back : List Bytes) (bad : Bytes)
    (d : Deleter) (s : S) (keys : List (List Bytes))
    → All IsKey front
    → length bad ≢ 24
    → d.flushing ≡ none
    → d.pending ≡ front ++ bad ∷ back
    → let r = rounds (raft_delete_keys propose) keys d s in (r.0.1 ≡ []) × (r.1 ≡ s)
rounds_poisoned propose front back bad d s [] h hb hf hp = (refl, refl)
rounds_poisoned propose front back bad d s (ks ∷ rest) h hb hf hp =
    let e = mark_all-pending ks d in
    let d1 = mark_all ks d in
    let hf1 : d1.flushing ≡ none = ap (λ (x : Deleter). x.flushing) e ∙ hf in
    let hp1 : d1.pending ≡ front ++ bad ∷ (back ++ ks) =
      ap (λ (x : Deleter). x.pending) e
      ∙ ap (λ (p : List Bytes). p ++ ks) hp
      ∙ append_assoc front (bad ∷ back) ks in
    let (none_deleted, same) =
      rounds_poisoned propose front (back ++ ks) bad d1 s rest h hb hf1 hp1 in
    rw (flush_poisoned propose front (back ++ ks) bad d1 s h hb hf1 hp1) (none_deleted, same)

-- ── the direct backend ──

abbrev pub mem_key : Bytes → List Bytes → Bool
mem_key k [] = false
mem_key k (x ∷ xs) = bytes_eq x k || mem_key k xs

pub get_entry-deletes :
    (keys : List Bytes) (j : Bytes) (es : Entries)
    → IsSorted es
    → get_entry j (apply_ops (map delete keys) es)
      ≡ (if mem_key j keys then none else get_entry j es)
unfolding apply_ops apply_op
get_entry-deletes [] j es h = refl
get_entry-deletes (k ∷ ks) j es h = ground (
  arith,
  get_entry-deletes ks j (delete_entry k es) (delete_entry-IsSorted k es h),
  get_entry-delete_entry k j es h,
)

module _ {D B : Type 0} (db : Db D B)
    (reliable : (k : Bytes) (b : B) → (db.batch_delete k b).1 ≡ ok tt) where
  delete_each-ops :
      (keys : List Bytes) (b : B)
      → ((delete_each db keys b).1 ≡ ok tt)
        × (db.ops (delete_each db keys b).0 ≡ db.ops b ++ map delete keys)
  unfolding delete_each
  delete_each-ops [] b = (refl, sym (append-nil (db.ops b)))
  delete_each-ops (k ∷ ks) b =
      let b1 = (db.batch_delete k b).0 in
      let e : db.batch_delete k b ≡ (b1, ok tt) =
        ap (λ (r : Result (Unit {0})). (b1, r)) (reliable k b) in
      let (done, os) = delete_each-ops ks b1 in
      rw (e, next_delete)
        (
          done,
          os
              ∙ ap (λ (o : List Op). o ++ map delete ks) (db.delete_ops k b b1 e)
              ∙ append_assoc (db.ops b) (delete k ∷ []) (map delete ks),
        )

  -- Where each commit succeeds too, the direct backend deletes the keys and nothing else.
  pub direct_delete_keys-entries :
      (commits : (b : B) (d : D) → (db.commit sync b d).1 ≡ ok tt) (keys : List Bytes) (d : D)
      → ((direct_delete_keys db keys d).1 ≡ ok tt)
        × (db.entries (direct_delete_keys db keys d).0 ≡ apply_ops (map delete keys) (db.entries d))
  unfolding direct_delete_keys
  direct_delete_keys-entries commits keys d =
      let (done, os) = delete_each-ops keys (db.new_batch d) in
      let b = (delete_each db keys (db.new_batch d)).0 in
      let all : delete_each db keys (db.new_batch d) ≡ (b, ok tt) =
        ap (λ (r : Result (Unit {0})). (b, r)) done in
      let committed : db.commit sync b d ≡ ((db.commit sync b d).0, ok tt) =
        ap (λ (r : Result (Unit {0})). ((db.commit sync b d).0, r)) (commits b d) in
      rw all (
        commits b d,
        db.commit_entries sync b d (db.commit sync b d).0 committed
            ∙ ap (λ (o : List Op). apply_ops o (db.entries d))
                (os ∙ ap (λ (o : List Op). o ++ map delete keys) (db.new_batch_ops d)),
      )
