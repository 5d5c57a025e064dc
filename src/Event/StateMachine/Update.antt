-- ===== src/Event/StateMachine/Update.antt =====
-- What `Update` applies and stores.
use futureq_v.Prelude.{
  ℕ, ◌≡◌, refl, sym, ap, ◌∙◌, List, [], ◌∷◌, ◌++◌, append-nil, arith, length, Option, some, take,
  take-append,
}
use futureq_v.Prelude.Result.{Result, ok, err, panic}
use futureq_v.Prelude.Method.{for_each, continue-eq_ok}
use futureq_v.Bytes.{Bytes, IsU64, be_bytes, length-be_bytes, be_value-be_bytes}
use futureq_v.Bytes.Order.{bytes_eq_refl}
use futureq_v.Storage.{Db, no_sync}
use futureq_v.Storage.Content.{
  Op, set, Entries, apply_ops, apply_op, apply_ops-append, get_entry, get_entry-put_entry,
}
use futureq_v.Repository.{RepoBatch, read_u64}
use futureq_v.Event.StateMachine.{
  EventStateMachine, Entry, Progress, applied_index_key, recover_applied, open_shard, apply_one,
  apply_entry, record_applied, write_applied, commit_progress, after_commit, start_update, update,
  callback,
}

-- The index of the last entry, or the index before.
abbrev pub last_index : ℕ → List Entry → ℕ
last_index n [] = n
last_index n (en ∷ rest) = last_index en.index rest

take-eight : (b : Bytes) → length b ≡ 8 → take 8 b ≡ b
take-eight b h =
    ap (λ (n : ℕ). take n b) (sym h) ∙ ap (take (length b)) (sym (append-nil b)) ∙ take-append b []

pub read_u64-be_bytes : (n : ℕ) → IsU64 n → read_u64 (be_bytes 8 n) ≡ ok n
unfolding read_u64
read_u64-be_bytes n h =
    ground (arith, length-be_bytes 8 n, be_value-be_bytes 8 n, take-eight (be_bytes 8 n))

module _ {D B : Type 0} (db : Db D B) where
  record_applied-ok :
      (en : Entry) (p p' : Progress B) (r : RepoBatch B × Result (ℕ × List Bytes))
      → record_applied en p r ≡ (p', ok tt)
      → p'.applied ≡ en.index
  record_applied-ok en p p' (rb, ok (v, ks)) h = ground arith
  record_applied-ok en p p' (rb, err e) h = cc
  record_applied-ok en p p' (rb, panic) h = cc

  apply_all-applied :
      (entries : List Entry) (p p' : Progress B)
      → for_each (apply_one db) entries p ≡ (p', ok tt)
      → p'.applied ≡ last_index p.applied entries
  unfolding apply_one
  apply_all-applied [] p p' h = ground arith
  apply_all-applied (en ∷ rest) p p' h =
      let (p1, u, h1, h2) =
        continue-eq_ok (apply_one db en p) (λ _. for_each (apply_one db) rest) h in
      apply_all-applied rest p1 p' h2
      ∙ ap (λ (n : ℕ). last_index n rest)
          (record_applied-ok en p p1 (apply_entry db en.cmd p.repo) h1)

  after_commit-ok :
      (s s' : EventStateMachine D) (p : Progress B) (r : D × Result (Unit {0}))
      {out : List ℕ × Option (List Bytes)}
      → after_commit s p r ≡ (s', ok out)
      → (r ≡ (s'.db, ok tt))
        × (s'.last_applied ≡ s.last_applied)
        × (s'.last_id ≡ s.last_id)
        × (out ≡ (p.results, callback p.deleted))
  after_commit-ok s s' p (d, ok u) h = ground arith
  after_commit-ok s s' p (d, err e) h = cc
  after_commit-ok s s' p (d, panic) h = cc

  commit_progress-ok :
      (s s' : EventStateMachine D) (r : Progress B × Result (Unit {0}))
      {out : List ℕ × Option (List Bytes)}
      → commit_progress db s r ≡ (s', ok out)
      → (p : Progress B) × (r ≡ (p, ok tt))
        × (db.commit no_sync p.repo.batch s.db ≡ (s'.db, ok tt))
        × (s'.last_applied ≡ p.applied)
        × (s'.last_id ≡ p.repo.last_id)
        × (out ≡ (p.results, callback p.deleted))
  unfolding commit_progress
  commit_progress-ok s s' (p, ok u) h =
      let (a, b, c, e) =
        after_commit-ok (record s { last_id = p.repo.last_id; last_applied = p.applied }) s' p
          (db.commit no_sync p.repo.batch s.db) h in
      (p, refl, a, b, c, e)
  commit_progress-ok s s' (p, err e) h = cc
  commit_progress-ok s s' (p, panic) h = cc

  write_applied-ok :
      (p p' : Progress B)
      → write_applied db p ≡ (p', ok tt)
      → (p'.applied ≡ p.applied)
        × (p'.repo.last_id ≡ p.repo.last_id)
        × (p'.results ≡ p.results)
        × (p'.deleted ≡ p.deleted)
        × (db.ops p'.repo.batch
            ≡ db.ops p.repo.batch ++ (set applied_index_key (be_bytes 8 p.applied) ∷ []))
  unfolding write_applied
  write_applied-ok p p' h = (
    ground arith,
    ground arith,
    ground arith,
    ground arith,
    db.set_ops applied_index_key (be_bytes 8 p.applied) p.repo.batch p'.repo.batch (ground arith),
  )

  get_entry-last_set :
      (ops : List Op) (k v : Bytes) (es : Entries)
      → get_entry k (apply_ops (ops ++ (set k v ∷ [])) es) ≡ some v
  unfolding apply_ops apply_op
  get_entry-last_set ops k v es =
      ap (get_entry k) (apply_ops-append ops (set k v ∷ []) es)
      ∙ get_entry-put_entry k k v (apply_ops ops es)
      ∙ rw (bytes_eq_refl k)

  open_shard-get :
      (fresh : EventStateMachine D) (n : ℕ)
      → IsU64 n
      → db.get fresh.db applied_index_key ≡ ok (be_bytes 8 n)
      → open_shard db fresh ≡ (record fresh { last_applied = n }, ok n)
  unfolding open_shard recover_applied
  open_shard-get fresh n h e = rw (e, open_shard, read_u64-be_bytes n h)

  -- After an `Update` that succeeds the machine, and its store, are at the index of the
  -- last entry: opening that store again resumes there.
  pub open-update :
      (entries : List Entry) (s s' fresh : EventStateMachine D) (out : List ℕ × Option (List Bytes))
      → IsU64 (last_index s.last_applied entries)
      → update db entries s ≡ (s', ok out)
      → fresh.db ≡ s'.db
      → (s'.last_applied ≡ last_index s.last_applied entries)
        × ((open_shard db fresh).1 ≡ ok (last_index s.last_applied entries))
  unfolding update
  open-update entries s s' fresh out hu h e =
      let (p, hp, hc, ha, hi, ho) = commit_progress-ok s s' _ h in
      let (p1, u, h1, h2) =
        continue-eq_ok (for_each (apply_one db) entries (start_update db s)) (λ _. write_applied db)
          hp in
      let (a1, b1, c1, d1, o1) = write_applied-ok p1 p h2 in
      let at : p1.applied ≡ last_index s.last_applied entries =
        apply_all-applied entries (start_update db s) p1 h1 in
      let stored : get_entry applied_index_key (db.entries s'.db) ≡ some (be_bytes 8 p1.applied) =
        ap (get_entry applied_index_key) (
          db.commit_entries no_sync p.repo.batch s.db s'.db hc
          ∙ ap (λ (os : List Op). apply_ops os (db.entries s.db)) o1)
        ∙ get_entry-last_set (db.ops p1.repo.batch) applied_index_key (be_bytes 8 p1.applied)
            (db.entries s.db) in
      let got : db.get fresh.db applied_index_key
          ≡ ok (be_bytes 8 (last_index s.last_applied entries)) =
        ap (λ (d : D). db.get d applied_index_key) e
        ∙ db.get_some s'.db applied_index_key _ stored
        ∙ ap (λ (n : ℕ). ok (be_bytes 8 n)) at in
      (
        ha ∙ a1 ∙ at,
        ap (λ (r : EventStateMachine D × Result ℕ). r.1) (open_shard-get fresh _ hu got),
      )
