-- ===== src/Storage/Pebble.antt =====
-- internal/storage/pebble.go: the adapter from Pebble to the storage contract.
pub mod Engine
pub mod Walk
pub mod Contract
pub mod Handles
use futureq_v.Prelude.{
  ℕ, zero, suc, ◌+◌, ◌*◌, ◌%◌, ◌^◌, Bool, true, false, List, [], ◌∷◌, Option, none, some,
  if◌then◌else◌,
}
use futureq_v.Prelude.Result.{Result, ok, err, panic}
use futureq_v.Prelude.Int64.{is_positive}
use futureq_v.Prelude.Method.{M, after_yield}
use futureq_v.Bytes.{Bytes}
use futureq_v.Storage.{IterOptions, SyncMode, no_sync, sync}
use futureq_v.Storage.Content.{Entries}
use Engine.{PebbleEngine}

-- ── NewPebble ──

-- config.Pebble; the cache size is an int64, the other size a uint64.
pub record PebbleConfig : Type 0 where
  pub disable_wal : Bool
  pub data_path : Bytes
  pub cache_size_mb : ℕ
  pub in_mem_table_size_mb : ℕ

-- What the adapter sets of pebble.Options, but for the loggers.
pub record PebbleOptions : Type 0 where
  pub disable_wal : Bool
  pub cache_size : ℕ
  pub mem_table_size : ℕ
  pub in_memory : Bool

abbrev is_empty : Bytes → Bool
is_empty [] = true
is_empty (b ∷ bs) = false

unfoldable pub cache_size : ℕ → ℕ
cache_size mb = let size = mb * 2 ^ 20 % 2 ^ 64 in if is_positive size then size else 64 * 2 ^ 20

unfoldable pub pebble_options : PebbleConfig → PebbleOptions
unfolding cache_size
pebble_options cfg = record {
  disable_wal = cfg.disable_wal;
  cache_size = cache_size cfg.cache_size_mb;
  mem_table_size = cfg.in_mem_table_size_mb * 2 ^ 20 % 2 ^ 64;
  in_memory = is_empty cfg.data_path;
}

-- `open_db` is pebble.Open.
unfoldable pub new_pebble :
    {T : Type 0} → (Bytes → PebbleOptions → Result T) → PebbleConfig → Result T
unfolding pebble_options
new_pebble open_db cfg = open_db cfg.data_path (pebble_options cfg)

-- pebbleIterator
pub record PebbleIterator (N C : Type 0) : Type 0 where
  pub iter : C
  pub snap : N

module _ {T B N C : Type 0} (e : PebbleEngine T B N C) where
  -- ── pebbleBatch ──

  unfoldable pub batch_commit : SyncMode → B → M T (Unit {0})
  batch_commit no_sync b = e.commit false b
  batch_commit sync b = e.commit true b

  -- ── pebbleIterator ──

  abbrev opened : N → T × Result C → T × Result (PebbleIterator N C)
  opened snap (t, ok c) = (t, ok (record { iter = c; snap = snap }))
  opened snap (t, err x) = ((e.close_snapshot snap t).0, err x)
  opened snap (t, panic) = (t, panic)

  unfoldable pub new_iter : Option IterOptions → M T (PebbleIterator N C)
  new_iter opts t = let (t1, snap) = e.new_snapshot t in opened snap (e.new_iter opts snap t1)

  abbrev first_error : Result (Unit {0}) → Result (Unit {0}) → Result (Unit {0})
  first_error (ok u) later = later
  first_error (err x) later = err x
  first_error panic later = panic

  unfoldable pub iter_close : PebbleIterator N C → M T (Unit {0})
  iter_close pi t =
      let (t1, iter_err) = e.close_iter pi.iter t in
      let (t2, snap_err) = e.close_snapshot pi.snap t1 in (t2, first_error iter_err snap_err)

  -- ── Scan ──

  -- `none` means that the fuel ran out.
  unfoldable pub scan_loop :
      {S : Type 0} → ℕ → (Bytes × Bytes → M S (Unit {0})) → C → S → Option (S × Result (Unit {0}))
  scan_loop zero yield c s = none
  scan_loop (suc fuel) yield c s = elim (e.valid c) [
    | true ↦ after_yield (yield (e.key c, e.value c) s) λ s'. scan_loop fuel yield (e.next c).0 s'
    | false ↦ some (s, e.error c)
  ]

  -- The deferred calls, whose errors are dropped.
  abbrev release :
      {S : Type 0} → N → C → T → Option (S × Result (Unit {0})) → Option (T × S × Result (Unit {0}))
  release snap c t none = none
  release snap c t (some (s, r)) = some ((e.close_snapshot snap (e.close_iter c t).0).0, s, r)

  abbrev scan_opened :
      {S : Type 0}
      → ℕ
      → (Bytes × Bytes → M S (Unit {0}))
      → N
      → T × Result C
      → S
      → Option (T × S × Result (Unit {0}))
  scan_opened fuel yield snap (t, ok c) s = release snap c t (scan_loop fuel yield (e.first c).0 s)
  scan_opened fuel yield snap (t, err x) s = some ((e.close_snapshot snap t).0, s, err x)
  scan_opened fuel yield snap (t, panic) s = some ((e.close_snapshot snap t).0, s, panic)

  unfoldable pub scan :
      {S : Type 0}
      → ℕ
      → Option IterOptions
      → (Bytes × Bytes → M S (Unit {0}))
      → T
      → S
      → Option (T × S × Result (Unit {0}))
  unfolding scan_loop
  scan fuel opts yield t s =
      let (t1, snap) = e.new_snapshot t in scan_opened fuel yield snap (e.new_iter opts snap t1) s
