-- ===== src/Storage/Pebble/Engine.antt =====
-- What the adapter relies on of github.com/cockroachdb/pebble: an ordered store with snapshots, whose
-- iterators report their errors at the end.
use futureq_v.Prelude.{
  ℕ, ◌+◌, ◌-◌, ◌≡◌, ◌≢◌, ◌⊎◌, List, [], ◌∷◌, ◌++◌, Bool, true, false, Option, some,
}
use futureq_v.Prelude.Result.{Result, ok}
use futureq_v.Prelude.Method.{M}
use futureq_v.Bytes.{Bytes}
use futureq_v.Storage.{IterOptions, range}
use futureq_v.Storage.Content.{Entries, Op, set, delete, apply_ops, get_entry}

abbrev pub has_entry : Entries → Bool
has_entry [] = false
has_entry (p ∷ es) = true

abbrev pub tail_of : Entries → Entries
tail_of [] = []
tail_of (p ∷ es) = es

-- A move of an iterator goes where it should, or fails: then it is at no entry, and says so.
abbrev pub Moves : {C : Type 0} → (C → Entries) → (C → Result (Unit {0})) → C → Entries → Type 0
Moves rest error c es = (rest c ≡ es) ⊎ ((rest c ≡ []) × (error c ≢ ok tt))

-- Of the state `T` of a database, a batch `B`, a snapshot `N` and an iterator `C`. `handles` counts the
-- snapshots and iterators that are open; `rest` is what an iterator has not passed, and `whole` what
-- it was opened on. No operation of the program reads these, `entries`, `content` or `ops`.
pub record PebbleEngine (T B N C : Type 0) : Type 0 where
  pub get : T → Bytes → Result Bytes
  pub new_batch : T → B
  pub batch_set : Bytes → Bytes → M B (Unit {0})
  pub batch_delete : Bytes → M B (Unit {0})
  pub batch_close : M B (Unit {0})
  pub commit : (sync : Bool) → B → M T (Unit {0})
  pub flush : M T (Unit {0})
  pub new_snapshot : T → T × N
  pub close_snapshot : N → M T (Unit {0})
  pub new_iter : Option IterOptions → N → M T C
  pub first : C → C × Bool
  pub next : C → C × Bool
  pub valid : C → Bool
  pub key : C → Bytes
  pub value : C → Bytes
  pub error : C → Result (Unit {0})
  pub close_iter : C → M T (Unit {0})
  pub entries : T → Entries
  pub ops : B → List Op
  pub content : N → Entries
  pub whole : C → Entries
  pub rest : C → Entries
  pub handles : T → ℕ
  pub get_lem : (t : T) (k v : Bytes) → get_entry k (entries t) ≡ some v → get t k ≡ ok v
  pub new_batch_ops : (t : T) → ops (new_batch t) ≡ []
  pub set_ops :
      (k v : Bytes) (b b' : B) → batch_set k v b ≡ (b', ok tt) → ops b' ≡ ops b ++ (set k v ∷ [])
  pub delete_ops :
      (k : Bytes) (b b' : B) → batch_delete k b ≡ (b', ok tt) → ops b' ≡ ops b ++ (delete k ∷ [])
  pub commit_entries :
      (sync : Bool) (b : B) (t t' : T)
      → commit sync b t ≡ (t', ok tt)
      → entries t' ≡ apply_ops (ops b) (entries t)
  pub snapshot_content : (t : T) → content (new_snapshot t).1 ≡ entries t
  pub snapshot_handles : (t : T) → handles (new_snapshot t).0 ≡ handles t + 1
  pub close_snapshot_handles : (n : N) (t : T) → handles (close_snapshot n t).0 ≡ handles t - 1
  pub new_iter_whole :
      (o : IterOptions) (n : N) (t t' : T) (c : C)
      → new_iter (some o) n t ≡ (t', ok c)
      → whole c ≡ range o (content n)
  pub new_iter_handles :
      (o : Option IterOptions) (n : N) (t t' : T) (c : C)
      → new_iter o n t ≡ (t', ok c)
      → handles t' ≡ handles t + 1
  pub new_iter_failed :
      (o : Option IterOptions) (n : N) (t : T)
      → ((c : C) → (new_iter o n t).1 ≢ ok c)
      → handles (new_iter o n t).0 ≡ handles t
  pub close_iter_handles : (c : C) (t : T) → handles (close_iter c t).0 ≡ handles t - 1
  pub first_lem : (c : C) → Moves rest error (first c).0 (whole c)
  pub next_lem : (c : C) → Moves rest error (next c).0 (tail_of (rest c))
  pub valid_lem : (c : C) → valid c ≡ has_entry (rest c)
  pub current_lem :
      (c : C) (k v : Bytes) (es : Entries) → rest c ≡ (k, v) ∷ es → (key c ≡ k) × (value c ≡ v)
