-- ===== src/Storage/Bolt/Contract.antt =====
-- The bbolt adapter keeps the storage contract.
use futureq_v.Prelude.{
  ◌≡◌, ◌≢◌, refl, ap, ◌∙◌, inl, inr, List, [], ◌∷◌, ◌++◌, Option-cases, none, some, arith,
}
use futureq_v.Prelude.Result.{Result, ok, err, panic, >>=-eq-ok}
use futureq_v.Bytes.{Bytes}
use futureq_v.Storage.{Db, SyncMode, range}
use futureq_v.Storage.Content.{Entries, Op, set, delete, get_entry, apply_op, apply_ops}
use futureq_v.Storage.Bolt.{
  BoltDb, BoltBatch, empty_batch, batch_set, batch_delete, get, run_op, run_ops, finish, transact,
  commit, flush,
}
use futureq_v.Storage.Bolt.Engine.{BoltEngine}

pub set-ops :
    (k v : Bytes) (b b' : BoltBatch)
    → batch_set k v b ≡ (b', ok tt)
    → b'.ops ≡ b.ops ++ (set k v ∷ [])
unfolding batch_set
set-ops k v b b' h = ground arith

pub delete-ops :
    (k : Bytes) (b b' : BoltBatch)
    → batch_delete k b ≡ (b', ok tt)
    → b'.ops ≡ b.ops ++ (delete k ∷ [])
unfolding batch_delete
delete-ops k b b' h = ground arith

module _ {T C : Type 0} (e : BoltEngine T C) where
  abbrev pub bolt_entries : BoltDb T → Entries
  bolt_entries d = elim d.bucket [ none ↦ [] | some t ↦ e.entries t ]

  run_op_lem :
      (op : Op) (t t' : T) → run_op e op t ≡ ok t' → e.entries t' ≡ apply_op op (e.entries t)
  unfolding run_op apply_op
  run_op_lem (set k v) t t' h = e.put_lem t t' k v h
  run_op_lem (delete k) t t' h = e.delete_lem t t' k h

  run_ops_lem :
      (ops : List Op) (t t' : T)
      → run_ops e ops t ≡ ok t'
      → e.entries t' ≡ apply_ops ops (e.entries t)
  unfolding run_ops apply_ops
  run_ops_lem [] t t' h = ground arith
  run_ops_lem (op ∷ ops) t t' h =
      let (u, hu, hops) = >>=-eq-ok (run_op e op t) (run_ops e ops) h in
      run_ops_lem ops u t' hops ∙ ap (apply_ops ops) (run_op_lem op t u hu)

  finish_ok :
      (d d' : BoltDb T) (t : T) (r : Result (Unit {0}))
      → finish d t r ≡ (d', ok tt)
      → d'.bucket ≡ some t
  finish_ok d d' t (ok u) h = ground arith
  finish_ok d d' t (err x) h = cc
  finish_ok d d' t panic h = cc

  transact_ok :
      (d d' : BoltDb T) (r : Result T)
      → transact e d r ≡ (d', ok tt)
      → (t : T) × (r ≡ ok t) × (d'.bucket ≡ some t)
  transact_ok d d' (ok t) h = (t, refl, finish_ok d d' t (e.commit_tx t) h)
  transact_ok d d' (err x) h = cc
  transact_ok d d' panic h = cc

  commit_in :
      (m : SyncMode) (bb : BoltBatch) (d d' : BoltDb T) (t : T)
      → d.bucket ≡ some t
      → commit e m bb d ≡ (d', ok tt)
      → bolt_entries d' ≡ apply_ops bb.ops (e.entries t)
  unfolding commit
  commit_in m bb d d' t ht h =
      let (u, hu, hd) = transact_ok d d' (run_ops e bb.ops t) (ground arith) in
      ground (arith, run_ops_lem bb.ops t u hu)

  -- A commit that succeeds applies the operations of the batch in order.
  pub commit-apply_ops :
      (m : SyncMode) (bb : BoltBatch) (d d' : BoltDb T)
      → commit e m bb d ≡ (d', ok tt)
      → bolt_entries d' ≡ apply_ops bb.ops (bolt_entries d)
  unfolding commit
  commit-apply_ops m bb d d' h = elim (Option-cases d.bucket) [
    | inl missing ↦ ground arith
    | inr (t, ht) ↦ rw ht (commit_in m bb d d' t ht h)
  ]

  -- A commit that fails changes nothing.
  commit_atomic :
      (m : SyncMode) (bb : BoltBatch) (d : BoltDb T)
      → (commit e m bb d).1 ≢ ok tt
      → (commit e m bb d).0 ≡ d
  unfolding commit
  commit_atomic m bb d h = ground arith

  pub get-entries :
      (d : BoltDb T) (k v : Bytes) → get_entry k (bolt_entries d) ≡ some v → get e d k ≡ ok v
  unfolding get get_entry
  get-entries d k v h = elim (Option-cases d.bucket) [
    | inl missing ↦ ground arith
    | inr (t, ht) ↦ ground (arith, e.get_lem t k)
  ]

  -- The adapter as an implementation of the storage contract.
  abbrev pub bolt_db : Db (BoltDb T) BoltBatch
  bolt_db = record {
    entries = bolt_entries;
    ops = λ b. b.ops;
    get = get e;
    new_batch = λ d. empty_batch;
    batch_set = batch_set;
    batch_delete = batch_delete;
    commit = commit e;
    flush = flush e;
    visit = λ o d. (range o (bolt_entries d), ok tt);
    visit_range = λ o d h. refl;
    get_some = get-entries;
    new_batch_ops = λ d. refl;
    set_ops = set-ops;
    delete_ops = delete-ops;
    commit_entries = commit-apply_ops;
  }
