-- ===== src/Storage/Bolt.antt =====
-- internal/storage/bbolt.go: the adapter from bbolt's bucket and cursor to the storage contract. The
-- database is open, so that transactions can begin.
pub mod Engine
pub mod Open
pub mod Scan
pub mod Contract
use futureq_v.Prelude.{
  ℕ, zero, suc, Bool, true, false, not, ◌&&◌, List, [], ◌∷◌, ◌++◌, Option, none, some,
  if◌then◌else◌,
}
use futureq_v.Prelude.Result.{Result, ok, err, panic, ◌>>=◌, not_found, bucket_not_found}
use futureq_v.Prelude.Method.{M, after_yield}
use futureq_v.Bytes.{Bytes}
use futureq_v.Storage.{IterOptions, SyncMode, is_below}
use futureq_v.Storage.Content.{Entries, Op, set, delete}
use Engine.{BoltEngine}

-- The bucket of the adapter, which is none if it does not exist.
pub record BoltDb (T : Type 0) : Type 0 where
  pub bucket : Option T

pub record BoltBatch : Type 0 where
  pub ops : List Op

pub record BoltIterator (C : Type 0) : Type 0 where
  pub cursor : C
  pub lower : Option Bytes
  pub upper : Option Bytes
  pub current : Option (Bytes × Bytes)
  pub done : Bool

-- ── boltBatch ──

abbrev pub empty_batch : BoltBatch
empty_batch = record { ops = [] }

unfoldable pub batch_set : Bytes → Bytes → M BoltBatch (Unit {0})
batch_set key value bb = (record { ops = bb.ops ++ (set key value ∷ []) }, ok tt)

unfoldable pub batch_delete : Bytes → M BoltBatch (Unit {0})
batch_delete key bb = (record { ops = bb.ops ++ (delete key ∷ []) }, ok tt)

unfoldable pub batch_close : M BoltBatch (Unit {0})
batch_close bb = (record { ops = [] }, ok tt)

-- ── boltDB ──

abbrev get_value : Option Bytes → Result Bytes
get_value none = err not_found
get_value (some v) = ok v

abbrev is_some : Option (Bytes × Bytes) → Bool
is_some none = false
is_some (some p) = true

abbrev finish : {T : Type 0} → BoltDb T → T → Result (Unit {0}) → BoltDb T × Result (Unit {0})
finish d t (ok u) = (record { bucket = some t }, ok tt)
finish d t (err x) = (d, err x)
finish d t panic = (d, panic)

module _ {T C : Type 0} (e : BoltEngine T C) where
  -- A transaction whose function fails, or that cannot be committed, is rolled back.
  abbrev transact : BoltDb T → Result T → BoltDb T × Result (Unit {0})
  transact d (ok t) = finish d t (e.commit_tx t)
  transact d (err x) = (d, err x)
  transact d panic = (d, panic)

  unfoldable pub get : BoltDb T → Bytes → Result Bytes
  get d key = elim d.bucket [ none ↦ err bucket_not_found | some t ↦ get_value (e.get t key) ]

  run_op : Op → T → Result T
  run_op (set k v) t = e.put t k v
  run_op (delete k) t = e.delete t k

  run_ops : List Op → T → Result T
  unfolding run_op
  run_ops [] t = ok t
  run_ops (op ∷ ops) t = run_op op t >>= run_ops ops

  unfoldable pub commit : SyncMode → BoltBatch → M (BoltDb T) (Unit {0})
  unfolding run_ops
  commit mode bb d = elim d.bucket [
    | none ↦ (d, err bucket_not_found)
    | some t ↦ transact d (run_ops bb.ops t)
  ]

  unfoldable pub flush : M (BoltDb T) (Unit {0})
  flush d = (d, ok tt)

  -- ── boltIterator ──

  iter_set : Option (Bytes × Bytes) → BoltIterator C → BoltIterator C × Bool
  iter_set none bi = (record bi { done = true; current = none }, false)
  iter_set (some (k, v)) bi =
      if not (is_below bi.upper k)
      then (record bi { done = true; current = none }, false)
      else (record bi { current = some (k, v) }, true)

  unfoldable pub new_iter : IterOptions → BoltDb T → Result (BoltIterator C)
  new_iter opts d = elim d.bucket [
    | none ↦ err bucket_not_found
    | some t ↦ ok (record {
      cursor = e.cursor t;
      lower = opts.lower_bound;
      upper = opts.upper_bound;
      current = none;
      done = false;
    })
  ]

  start : Option Bytes → C → C
  start none c = e.first c
  start (some lo) c = e.seek c lo

  unfoldable pub iter_first : BoltIterator C → BoltIterator C × Bool
  unfolding iter_set start
  iter_first bi =
      let c = start bi.lower bi.cursor in iter_set (e.current c) (record bi { cursor = c })

  unfoldable pub iter_next : BoltIterator C → BoltIterator C × Bool
  unfolding iter_set
  iter_next bi =
      if bi.done
      then (bi, false)
      else (let c = e.next bi.cursor in iter_set (e.current c) (record bi { cursor = c }))

  unfoldable pub iter_valid : BoltIterator C → Bool
  iter_valid bi = not bi.done && is_some bi.current

  -- ── Scan ──

  -- `none` means that the fuel ran out.
  scan_loop :
      {S : Type 0}
      → ℕ
      → Option Bytes
      → (Bytes × Bytes → M S (Unit {0}))
      → C
      → S
      → Option (S × Result (Unit {0}))
  scan_loop zero upper yield c s = none
  scan_loop (suc fuel) upper yield c s = elim (e.current c) [
    | none ↦ some (s, ok tt)
    | some (k, v) ↦
        if not (is_below upper k)
        then some (s, ok tt)
        else after_yield (yield (k, v) s) (λ s'. scan_loop fuel upper yield (e.next c) s')
  ]

  unfoldable pub scan :
      {S : Type 0}
      → ℕ
      → IterOptions
      → (Bytes × Bytes → M S (Unit {0}))
      → BoltDb T
      → S
      → Option (S × Result (Unit {0}))
  unfolding scan_loop start
  scan fuel opts yield d s = elim d.bucket [
    | none ↦ some (s, ok tt)
    | some t ↦ scan_loop fuel opts.upper_bound yield (start opts.lower_bound (e.cursor t)) s
  ]
