-- ===== src/Event/StateMachine/Snapshot/Replay.antt =====
-- Writing all entries of a sorted store into an empty one, and deleting them all.
use futureq_v.Prelude.{
  ◌≡◌, refl, sym, ap, subst, ◌∙◌, [], ◌∷◌, ◌++◌, map, append_assoc, append-nil, true, arith,
}
use futureq_v.Bytes.{Bytes}
use futureq_v.Bytes.Order.{
  bytes_lt, bytes_eq_iff, bytes_eq_refl, bytes_lt_asymm, bytes_lt_irrefl, bytes_lt_trans,
}
use futureq_v.Storage.Content.{
  Op, set, delete, Entries, apply_ops, apply_op, put_entry, delete_entry, IsSorted, Above,
}

Above-member :
    (j k v : Bytes) (acc rest : Entries) → Above j (acc ++ (k, v) ∷ rest) → bytes_lt j k ≡ true
Above-member j k v [] rest (h, _) = h
Above-member j k v ((i, u) ∷ acc) rest (h, hs) =
    bytes_lt_trans j i k h (Above-member i k v acc rest hs)

IsSorted-tail : (kv : Bytes × Bytes) (es : Entries) → IsSorted (kv ∷ es) → IsSorted es
IsSorted-tail (k, v) [] h = tt
IsSorted-tail (k, v) ((j, w) ∷ es) (_, h) = h

put_entry_last :
    (k v : Bytes) (acc rest : Entries)
    → IsSorted (acc ++ (k, v) ∷ rest)
    → put_entry k v acc ≡ acc ++ (k, v) ∷ []
unfolding put_entry
put_entry_last k v [] rest h = refl
put_entry_last k v ((j, w) ∷ acc) rest h =
    let below : bytes_lt j k ≡ true = Above-member j k v acc rest h in
    ground (
      arith,
      below,
      bytes_eq_iff j k,
      bytes_lt_asymm j k,
      bytes_lt_irrefl k,
      put_entry_last k v acc rest (IsSorted-tail (j, w) (acc ++ (k, v) ∷ rest) h),
    )

abbrev pub to_set : Bytes × Bytes → Op
to_set (k, v) = set k v

abbrev pub to_delete : Bytes × Bytes → Op
to_delete (k, v) = delete k

pub apply_ops-sets :
    (es acc : Entries) → IsSorted (acc ++ es) → apply_ops (map to_set es) acc ≡ acc ++ es
unfolding apply_ops apply_op
apply_ops-sets [] acc h = sym (append-nil acc)
apply_ops-sets ((k, v) ∷ es) acc h =
    let e = append_assoc acc ((k, v) ∷ []) es in
    ap (apply_ops (map to_set es)) (put_entry_last k v acc es h)
    ∙ apply_ops-sets es (acc ++ (k, v) ∷ []) (subst IsSorted (sym e) h)
    ∙ e

delete_entry-head : (k v : Bytes) (es : Entries) → delete_entry k ((k, v) ∷ es) ≡ es
unfolding delete_entry
delete_entry-head k v es = ground (arith, bytes_eq_refl k)

pub apply_ops-deletes : (es : Entries) → apply_ops (map to_delete es) es ≡ []
unfolding apply_ops apply_op
apply_ops-deletes [] = refl
apply_ops-deletes ((k, v) ∷ es) =
    ap (apply_ops (map to_delete es)) (delete_entry-head k v es) ∙ apply_ops-deletes es
