-- ===== src/Storage/Pebble/Contract.antt =====
-- The Pebble adapter keeps the storage contract.
use futureq_v.Prelude.{
  inl, inr, none, true, false, ℕ, suc, ◌^◌, ◌<◌, ◌≤◌, ◌≡◌, refl, sym, ap, ◌∙◌, [], Option, some,
  arith, length,
}
use futureq_v.Prelude.Result.{Result, ok, err, panic}
use futureq_v.Prelude.Method.{M, continue, for_each}
use futureq_v.Bytes.{Bytes}
use futureq_v.Storage.{Db, IterOptions, SyncMode, no_sync, sync, range, scan_db}
use futureq_v.Storage.Content.{Entries, apply_ops}
use futureq_v.Storage.Pebble.{cache_size, batch_commit, scan_opened, scan}
use futureq_v.Storage.Pebble.Engine.{PebbleEngine}
use futureq_v.Storage.Pebble.Walk.{
  walk, length-range, length-Moves, scan_loop-walk, walk_fuel, walk_done, walk-rest,
}

-- Whatever cache size the configuration gives, the adapter asks for one that is positive as an int64.
pub cache_size_positive : (mb : ℕ) → (0 < cache_size mb) × (cache_size mb < 2 ^ 63)
unfolding cache_size
cache_size_positive mb = ground arith

module _ {T B N C : Type 0} (e : PebbleEngine T B N C) where
  pub batch_commit_entries :
      (m : SyncMode) (b : B) (t t' : T)
      → batch_commit e m b t ≡ (t', ok tt)
      → e.entries t' ≡ apply_ops (e.ops b) (e.entries t)
  unfolding batch_commit
  batch_commit_entries no_sync b t t' h = e.commit_entries false b t t' h
  batch_commit_entries sync b t t' h = e.commit_entries true b t t' h

  -- What an iterator that is opened on `n` entries visits; the failure to open it counts.
  abbrev pub visit_opened : ℕ → T × Result C → Entries × Result (Unit {0})
  visit_opened n (t, ok c) = walk e (suc n) (e.first c).0
  visit_opened n (t, err x) = ([], err x)
  visit_opened n (t, panic) = ([], panic)

  abbrev pub opened_at : IterOptions → T → T × Result C
  opened_at o t = e.new_iter (some o) (e.new_snapshot t).1 (e.new_snapshot t).0

  abbrev pub pebble_visit : IterOptions → T → Entries × Result (Unit {0})
  pebble_visit o t = visit_opened (length (e.entries t)) (opened_at o t)

  whole_range :
      (o : IterOptions) (t t' : T) (c : C)
      → opened_at o t ≡ (t', ok c)
      → e.whole c ≡ range o (e.entries t)
  whole_range o t t' c h =
      e.new_iter_whole o (e.new_snapshot t).1 (e.new_snapshot t).0 t' c h
      ∙ ap (range o) (e.snapshot_content t)

  first_length :
      (o : IterOptions) (t t' : T) (c : C)
      → opened_at o t ≡ (t', ok c)
      → length (e.rest (e.first c).0) ≤ length (e.entries t)
  first_length o t t' c h = omega (
    arith,
    length-Moves e (e.first c).0 (e.whole c) (e.first_lem c),
    ap length (whole_range o t t' c h),
    length-range o (e.entries t),
  )

  pub visit_range_in :
      (o : IterOptions) (t : T) (r : T × Result C)
      → opened_at o t ≡ r
      → (visit_opened (length (e.entries t)) r).1 ≡ ok tt
      → (visit_opened (length (e.entries t)) r).0 ≡ range o (e.entries t)
  visit_range_in o t (t', ok c) h r = elim (e.first_lem c) [
    | inl there ↦
        let w = whole_range o t t' c h in
        walk-rest e (range o (e.entries t)) (suc (length (e.entries t))) (e.first c).0 (there ∙ w)
          (omega (arith, length-range o (e.entries t))) r
    | inr (gone, failed) ↦ absurd (
        failed
          (sym (ap (λ w. w.1) (walk_done e (suc (length (e.entries t))) (e.first c).0 gone)) ∙ r))
  ]
  visit_range_in o t (t', err x) h r = cc
  visit_range_in o t (t', panic) h r = cc

  -- The adapter as an implementation of the storage contract.
  abbrev pub pebble_db : Db T B
  pebble_db = record {
    entries = e.entries;
    ops = e.ops;
    get = e.get;
    new_batch = e.new_batch;
    batch_set = e.batch_set;
    batch_delete = e.batch_delete;
    commit = batch_commit e;
    flush = e.flush;
    visit = pebble_visit;
    visit_range = λ o t h. visit_range_in o t (opened_at o t) refl h;
    get_some = e.get_lem;
    new_batch_ops = e.new_batch_ops;
    set_ops = e.set_ops;
    delete_ops = e.delete_ops;
    commit_entries = batch_commit_entries;
  }

  abbrev pub outcome :
      {S : Type 0} → Option (T × S × Result (Unit {0})) → Option (S × Result (Unit {0}))
  outcome none = none
  outcome (some (t, s, r)) = some (s, r)

  scan_opened-visit :
      {S : Type 0} (fuel : ℕ) (o : IterOptions) (yield : Bytes × Bytes → M S (Unit {0})) (t : T)
      (s : S) (r : T × Result C)
      → opened_at o t ≡ r
      → length (e.entries t) < fuel
      → outcome (scan_opened e fuel yield (e.new_snapshot t).1 r s)
        ≡ some (
            continue
              (for_each yield (visit_opened (length (e.entries t)) r).0 s)
              (λ _ s'. (s', (visit_opened (length (e.entries t)) r).1)))
  scan_opened-visit fuel o yield t s (t', ok c) h f =
      let few = first_length o t t' c h in
      rw
        (
          scan_loop-walk e fuel yield (e.first c).0 s (omega arith),
          walk_fuel e fuel (suc (length (e.entries t))) (e.first c).0 (omega arith) (omega arith),
        )
        refl
  scan_opened-visit fuel o yield t s (t', err x) h f = refl
  scan_opened-visit fuel o yield t s (t', panic) h f = refl

  -- With more fuel than the store has entries, `Scan` ends, and does to the state of its function what
  -- the storage contract says of a scan: it hands over what the iterator visits, which is the whole range
  -- if the iterator ends without an error, until the function fails.
  pub pebble_scan-scan_db :
      {S : Type 0} (fuel : ℕ) (o : IterOptions) (yield : Bytes × Bytes → M S (Unit {0})) (t : T)
      (s : S)
      → length (e.entries t) < fuel
      → outcome (scan e fuel (some o) yield t s) ≡ some (scan_db pebble_db o yield t s)
  unfolding scan scan_db
  pebble_scan-scan_db fuel o yield t s h = scan_opened-visit fuel o yield t s (opened_at o t) refl h
