-- ===== src/Storage/Content.antt =====
-- The ordered key-value content of a database, and the batches that change it.
use futureq_v.Prelude.{
  ◌≡◌, refl, ◌⊎◌, true, List, [], ◌∷◌, ◌++◌, Option, none, some, if◌then◌else◌, arith,
}
use futureq_v.Bytes.{Bytes}
use futureq_v.Bytes.Order.{
  bytes_lt, bytes_eq, bytes_eq_iff, bytes_lt_irrefl, bytes_lt_trans, bytes_lt_total,
}

abbrev pub Entries : Type 0
Entries = List (Bytes × Bytes)

unfoldable pub get_entry : Bytes → Entries → Option Bytes
get_entry k [] = none
get_entry k ((j, v) ∷ es) = if bytes_eq j k then some v else get_entry k es

unfoldable pub put_entry : Bytes → Bytes → Entries → Entries
put_entry k v [] = (k, v) ∷ []
put_entry k v ((j, w) ∷ es) =
    if bytes_eq j k
    then (k, v) ∷ es
    else if bytes_lt k j
    then (k, v) ∷ (j, w) ∷ es
    else (j, w) ∷ put_entry k v es

unfoldable pub delete_entry : Bytes → Entries → Entries
delete_entry k [] = []
delete_entry k ((j, w) ∷ es) = if bytes_eq j k then es else (j, w) ∷ delete_entry k es

-- The mutations of a batch, in order.
pub data Op : Type 0 where
  set : Bytes → Bytes → Op
  delete : Bytes → Op

unfoldable pub apply_op : Op → Entries → Entries
apply_op (set k v) es = put_entry k v es
apply_op (delete k) es = delete_entry k es

unfoldable pub apply_ops : List Op → Entries → Entries
unfolding apply_op
apply_ops [] es = es
apply_ops (op ∷ ops) es = apply_ops ops (apply_op op es)

-- Keys rise strictly along the list.
abbrev pub Above : Bytes → Entries → Type 0
Above k [] = Unit {0}
Above k ((j, w) ∷ es) = (bytes_lt k j ≡ true) × Above j es

abbrev pub IsSorted : Entries → Type 0
IsSorted [] = Unit {0}
IsSorted ((j, w) ∷ es) = Above j es

Above-IsSorted : (k : Bytes) (es : Entries) → Above k es → IsSorted es
Above-IsSorted k [] h = tt
Above-IsSorted k ((j, w) ∷ es) h = h.1

Above-mono : (i k : Bytes) (es : Entries) → bytes_lt i k ≡ true → Above k es → Above i es
Above-mono i k [] h a = tt
Above-mono i k ((j, w) ∷ es) h a = (bytes_lt_trans i k j h a.0, a.1)

put_entry-Above :
    (i k v : Bytes) (es : Entries) → bytes_lt i k ≡ true → Above i es → Above i (put_entry k v es)
unfolding put_entry
put_entry-Above i k v [] h a = (h, tt)
put_entry-Above i k v ((j, w) ∷ es) h a =
    ground (arith, bytes_eq_iff j k, bytes_lt_total j k, put_entry-Above j k v es)

delete_entry-Above : (i k : Bytes) (es : Entries) → Above i es → Above i (delete_entry k es)
unfolding delete_entry
delete_entry-Above i k [] a = tt
delete_entry-Above i k ((j, w) ∷ es) a =
    ground (arith, Above-mono i j es, delete_entry-Above j k es)

pub put_entry-IsSorted : (k v : Bytes) (es : Entries) → IsSorted es → IsSorted (put_entry k v es)
unfolding put_entry
put_entry-IsSorted k v [] h = tt
put_entry-IsSorted k v ((j, w) ∷ es) h =
    ground (arith, bytes_eq_iff j k, bytes_lt_total j k, put_entry-Above j k v es)

pub delete_entry-IsSorted : (k : Bytes) (es : Entries) → IsSorted es → IsSorted (delete_entry k es)
unfolding delete_entry
delete_entry-IsSorted k [] h = tt
delete_entry-IsSorted k ((j, w) ∷ es) h =
    ground (arith, Above-IsSorted j es, delete_entry-Above j k es)

-- A batch keeps the keys in order.
pub apply_ops-IsSorted : (ops : List Op) (es : Entries) → IsSorted es → IsSorted (apply_ops ops es)
unfolding apply_ops
apply_ops-IsSorted [] es h = h
apply_ops-IsSorted (set k v ∷ ops) es h = apply_ops-IsSorted ops _ (put_entry-IsSorted k v es h)
apply_ops-IsSorted (delete k ∷ ops) es h = apply_ops-IsSorted ops _ (delete_entry-IsSorted k es h)

pub get_entry-Above :
    (k i : Bytes) (es : Entries)
    → Above i es
    → bytes_lt k i ≡ true ⊎ (k ≡ i)
    → get_entry k es ≡ none
unfolding get_entry
get_entry-Above k i [] a h = refl
get_entry-Above k i ((j, w) ∷ es) a h =
    ground
      (arith, bytes_eq_iff j k, bytes_lt_trans k i j, bytes_lt_irrefl k, get_entry-Above k j es)

pub get_entry-put_entry :
    (k j v : Bytes) (es : Entries)
    → get_entry j (put_entry k v es) ≡ (if bytes_eq k j then some v else get_entry j es)
unfolding get_entry put_entry
get_entry-put_entry k j v [] = refl
get_entry-put_entry k j v ((i, w) ∷ es) =
    ground
      (arith, bytes_eq_iff k j, bytes_eq_iff i k, bytes_eq_iff i j, get_entry-put_entry k j v es)

pub get_entry-delete_entry :
    (k j : Bytes) (es : Entries)
    → IsSorted es
    → get_entry j (delete_entry k es) ≡ (if bytes_eq k j then none else get_entry j es)
unfolding get_entry delete_entry
get_entry-delete_entry k j [] h = ground arith
get_entry-delete_entry k j ((i, w) ∷ es) h = ground (
  arith,
  bytes_eq_iff k j,
  bytes_eq_iff i k,
  bytes_eq_iff i j,
  get_entry-delete_entry k j es,
  Above-IsSorted i es,
  get_entry-Above i i es,
)

pub apply_ops-append :
    (xs ys : List Op) (es : Entries) → apply_ops (xs ++ ys) es ≡ apply_ops ys (apply_ops xs es)
unfolding apply_ops
apply_ops-append [] ys es = refl
apply_ops-append (x ∷ xs) ys es = apply_ops-append xs ys (apply_op x es)
