-- ===== src/Storage.antt =====
-- internal/storage/contract.go: what the program asks of a storage engine.
pub mod Content
pub mod Bolt
pub mod Pebble
pub mod Range
use futureq_v.Prelude.{
  ℕ, ◌≡◌, refl, ap, ◌++◌, Bool, true, false, not, ◌&&◌, List, [], ◌∷◌, Option, none, some,
  if◌then◌else◌,
}
use futureq_v.Prelude.Result.{Result, ok, err, panic}
use futureq_v.Prelude.Method.{M, continue, for_each}
use futureq_v.Bytes.{Bytes}
use futureq_v.Bytes.Order.{bytes_lt}
use Content.{Entries, Op, set, delete, apply_ops, get_entry}

pub data SyncMode : Type 0 where
  no_sync sync : SyncMode

-- A bound that is nil is none.
pub record IterOptions : Type 0 where
  pub lower_bound : Option Bytes
  pub upper_bound : Option Bytes

abbrev pub unbounded : IterOptions
unbounded = record { lower_bound = none; upper_bound = none }

abbrev pub at_least : Option Bytes → Bytes → Bool
at_least none k = true
at_least (some lo) k = not (bytes_lt k lo)

abbrev pub is_below : Option Bytes → Bytes → Bool
is_below none k = true
is_below (some hi) k = bytes_lt k hi

-- The entries of a range: the lower bound is inclusive, the upper bound exclusive.
unfoldable pub range : IterOptions → Entries → Entries
range o [] = []
range o ((k, v) ∷ es) =
    if at_least o.lower_bound k && is_below o.upper_bound k then (k, v) ∷ range o es else range o es

pub range-unbounded : (es : Entries) → range unbounded es ≡ es
unfolding range
range-unbounded [] = refl
range-unbounded ((k, v) ∷ es) = ap (λ (rest : Entries). (k, v) ∷ rest) (range-unbounded es)

-- The interfaces DB and Batch, over the states of a database and of a batch, with their contract.
-- `visit` is what an iteration visits and how it ends, the error of `NewIter` included.
-- A batch collects its operations, `Commit` applies them all or none, and keys stay in order.
-- `entries` and `ops` are what the contract speaks of; no operation of the program reads `ops`.
pub record Db (D B : Type 0) : Type 0 where
  pub entries : D → Entries
  pub ops : B → List Op
  pub get : D → Bytes → Result Bytes
  pub new_batch : D → B
  pub batch_set : Bytes → Bytes → M B (Unit {0})
  pub batch_delete : Bytes → M B (Unit {0})
  pub commit : SyncMode → B → M D (Unit {0})
  pub flush : M D (Unit {0})
  pub visit : IterOptions → D → Entries × Result (Unit {0})
  pub get_some : (d : D) (k v : Bytes) → get_entry k (entries d) ≡ some v → get d k ≡ ok v
  pub new_batch_ops : (d : D) → ops (new_batch d) ≡ []
  pub set_ops :
      (k v : Bytes) (b b' : B) → batch_set k v b ≡ (b', ok tt) → ops b' ≡ ops b ++ (set k v ∷ [])
  pub delete_ops :
      (k : Bytes) (b b' : B) → batch_delete k b ≡ (b', ok tt) → ops b' ≡ ops b ++ (delete k ∷ [])
  pub commit_entries :
      (m : SyncMode) (b : B) (d d' : D)
      → commit m b d ≡ (d', ok tt)
      → entries d' ≡ apply_ops (ops b) (entries d)
  pub visit_range :
      (o : IterOptions) (d : D) → (visit o d).1 ≡ ok tt → (visit o d).0 ≡ range o (entries d)

-- `Scan`: hands what it visits to `yield` until that fails.
unfoldable pub scan_db :
    {D B S : Type 0} → Db D B → IterOptions → (Bytes × Bytes → M S (Unit {0})) → D → M S (Unit {0})
scan_db db o yield d s =
    continue (for_each yield (db.visit o d).0 s) (λ _ s'. (s', (db.visit o d).1))
