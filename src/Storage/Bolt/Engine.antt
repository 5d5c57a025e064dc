-- ===== src/Storage/Bolt/Engine.antt =====
-- What the adapter relies on of go.etcd.io/bbolt: a bucket is an ordered map, and a cursor walks it.
use futureq_v.Prelude.{◌≡◌, [], ◌∷◌, Option, none, some, if◌then◌else◌}
use futureq_v.Prelude.Result.{Result, ok}
use futureq_v.Bytes.{Bytes}
use futureq_v.Bytes.Order.{bytes_lt}
use futureq_v.Storage.Content.{Entries, get_entry, put_entry, delete_entry, IsSorted}

abbrev pub first_entry : Entries → Option (Bytes × Bytes)
first_entry [] = none
first_entry (p ∷ es) = some p

abbrev pub later_entries : Entries → Entries
later_entries [] = []
later_entries (p ∷ es) = es

-- The entries from the first key that is not below `lo`.
unfoldable pub entries_from : Bytes → Entries → Entries
entries_from lo [] = []
entries_from lo ((k, v) ∷ es) = if bytes_lt k lo then entries_from lo es else (k, v) ∷ es

-- `Put` and `Delete` can fail, and so can the commit of a transaction, which then keeps nothing; `Seek` moves to the first key that is not below its argument, and a
-- cursor past the end has no current entry. A cursor has a position (`rest`, what is from there on)
-- in its bucket (`whole`). The fields from `get_lem` on state this.
pub record BoltEngine (T C : Type 0) : Type 0 where
  pub get : T → Bytes → Option Bytes
  pub put : T → Bytes → Bytes → Result T
  pub delete : T → Bytes → Result T
  pub commit_tx : T → Result (Unit {0})
  pub cursor : T → C
  pub first : C → C
  pub seek : C → Bytes → C
  pub next : C → C
  pub current : C → Option (Bytes × Bytes)
  pub entries : T → Entries
  pub rest : C → Entries
  pub whole : C → Entries
  pub get_lem : (t : T) (k : Bytes) → get t k ≡ get_entry k (entries t)
  pub put_lem :
      (t t' : T) (k v : Bytes) → put t k v ≡ ok t' → entries t' ≡ put_entry k v (entries t)
  pub delete_lem :
      (t t' : T) (k : Bytes) → delete t k ≡ ok t' → entries t' ≡ delete_entry k (entries t)
  pub cursor_lem : (t : T) → whole (cursor t) ≡ entries t
  pub first_lem : (c : C) → rest (first c) ≡ whole c
  pub seek_lem : (c : C) (lo : Bytes) → rest (seek c lo) ≡ entries_from lo (whole c)
  pub next_lem : (c : C) → rest (next c) ≡ later_entries (rest c)
  pub current_lem : (c : C) → current c ≡ first_entry (rest c)
  pub sorted : (t : T) → IsSorted (entries t)
