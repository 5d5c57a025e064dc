-- ===== src/Tests/Pebble.antt =====
-- Pebble at concrete values: a store that counts what is open.
use futureq_v.Prelude.{
  ℕ, ◌+◌, ◌-◌, ◌*◌, ◌<◌, ◌^◌, ◌≡◌, refl, sym, ap, inl, List, [], ◌∷◌, ◌++◌, Option, none, some,
  arith,
}
use futureq_v.Prelude.Result.{ok}
use futureq_v.Prelude.Method.{M}
use futureq_v.Bytes.{Bytes}
use futureq_v.Storage.{IterOptions, range, unbounded, scan_db}
use futureq_v.Storage.Content.{Entries, Op, set, delete, apply_ops, get_entry}
use futureq_v.Storage.Pebble.{cache_size, PebbleIterator, scan, scan_loop, new_iter, iter_close}
use futureq_v.Storage.Pebble.Engine.{PebbleEngine, has_entry, tail_of}
use futureq_v.Storage.Pebble.Contract.{cache_size_positive, pebble_scan-scan_db, outcome}
use futureq_v.Storage.Pebble.Walk.{walk}
use futureq_v.Storage.Pebble.Handles.{scan-handles, new_iter-iter_close}
use futureq_v.Tests.Stores.{found}

record Counted : Type 0 where
  content : Entries
  handles : ℕ

abbrev range_of : Option IterOptions → Entries → Entries
range_of none es = es
range_of (some o) es = range o es

abbrev key_of : Entries → Bytes
key_of [] = []
key_of ((k, v) ∷ es) = k

abbrev value_of : Entries → Bytes
value_of [] = []
value_of ((k, v) ∷ es) = v

-- An iterator is what it was opened on, and what is left of that.
abbrev counted_engine : PebbleEngine Counted (List Op) Entries (Entries × Entries)
counted_engine = record {
  get = λ t k. found (get_entry k t.content);
  new_batch = λ t. [];
  batch_set = λ k v os. (os ++ (set k v ∷ []), ok tt);
  batch_delete = λ k os. (os ++ (delete k ∷ []), ok tt);
  batch_close = λ os. ([], ok tt);
  commit = λ m os t. (record t { content = apply_ops os t.content }, ok tt);
  flush = λ t. (t, ok tt);
  new_snapshot = λ t. (record t { handles = t.handles + 1 }, t.content);
  close_snapshot = λ n t. (record t { handles = t.handles - 1 }, ok tt);
  new_iter = λ o n t. (record t { handles = t.handles + 1 }, ok (range_of o n, range_of o n));
  first = λ c. ((c.0, c.0), has_entry c.0);
  next = λ c. ((c.0, tail_of c.1), has_entry (tail_of c.1));
  valid = λ c. has_entry c.1;
  key = λ c. key_of c.1;
  value = λ c. value_of c.1;
  error = λ c. ok tt;
  close_iter = λ c t. (record t { handles = t.handles - 1 }, ok tt);
  entries = λ t. t.content;
  ops = λ os. os;
  content = λ n. n;
  whole = λ c. c.0;
  rest = λ c. c.1;
  handles = λ t. t.handles;
  get_lem = λ t k v h. ap found h;
  new_batch_ops = λ t. refl;
  set_ops = λ k v b b' h. ap (λ r. r.0) (sym h);
  delete_ops = λ k b b' h. ap (λ r. r.0) (sym h);
  commit_entries = λ m b t t' h. ap (λ r. r.0.content) (sym h);
  snapshot_content = λ t. refl;
  snapshot_handles = λ t. refl;
  close_snapshot_handles = λ n t. refl;
  new_iter_whole = λ o n t t' c h. cc;
  new_iter_handles = λ o n t t' c h. ap (λ r. r.0.handles) (sym h);
  new_iter_failed = λ o n t h. absurd (h (range_of o n, range_of o n) refl);
  close_iter_handles = λ c t. refl;
  first_lem = λ c. inl refl;
  next_lem = λ c. inl refl;
  valid_lem = λ c. refl;
  current_lem = λ c k v es h. (ap key_of h, ap value_of h);
}

cache_size_positive_example : (0 < 64 * 2 ^ 20) × (64 * 2 ^ 20 < 2 ^ 63)
unfolding cache_size
cache_size_positive_example = cache_size_positive 0

abbrev one_left : Counted
one_left = record { content = (5 ∷ [], 6 ∷ []) ∷ []; handles = 0 }

abbrev collect : Bytes × Bytes → M (List Bytes) (Unit {0})
collect (k, v) ks = (ks ++ k ∷ [], ok tt)

pebble_scan-scan_db_example :
    outcome counted_engine (scan counted_engine 2 (some unbounded) collect one_left [])
    ≡ some ((5 ∷ []) ∷ [], ok tt)
unfolding scan_db range walk
pebble_scan-scan_db_example =
    pebble_scan-scan_db counted_engine 2 unbounded collect one_left [] (omega arith)

scan_runs :
    scan counted_engine 2 (some unbounded) collect one_left []
    ≡ some (one_left, (5 ∷ []) ∷ [], ok tt)
unfolding scan scan_loop range
scan_runs = refl

scan-handles_example : one_left.handles ≡ 0
scan-handles_example =
    scan-handles counted_engine 2 (some unbounded) collect one_left one_left [] ((5 ∷ []) ∷ [])
      (ok tt) scan_runs

abbrev opened_iter : PebbleIterator Entries (Entries × Entries)
opened_iter = record { iter = (one_left.content, one_left.content); snap = one_left.content }

new_iter_runs :
    new_iter counted_engine none one_left ≡ (record one_left { handles = 2 }, ok opened_iter)
unfolding new_iter
new_iter_runs = refl

new_iter-iter_close_example :
    (iter_close counted_engine opened_iter (record one_left { handles = 2 })).0.handles ≡ 0
new_iter-iter_close_example =
    new_iter-iter_close counted_engine none one_left (record one_left { handles = 2 }) opened_iter
      new_iter_runs
