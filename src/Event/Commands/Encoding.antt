-- ===== src/Event/Commands/Encoding.antt =====
-- The wire format of the commands in plain appends, and that the encoders fill their buffer with it.
use futureq_v.Prelude.{
  ℕ, ◌+◌, ◌%◌, ◌^◌, ◌≡◌, refl, sym, ap, ◌∙◌, List, [], ◌∷◌, ◌++◌, append_assoc, append-nil, arith,
  length, length-append,
}
use futureq_v.Prelude.Result.{ok}
use futureq_v.Bytes.{Bytes, be_bytes, length-be_bytes}
use futureq_v.Bytes.Buffer.{make_bytes, Filled, Filled-cast, write}
use futureq_v.Event.Commands.{
  StoreBatchItem, indexes_size, items_size, marshal_indexes, marshal_item, marshal_items,
  marshal_store_batch_cmd,
}

unfoldable pub encode_indexes : List Bytes → Bytes
encode_indexes [] = []
encode_indexes (idx ∷ rest) = be_bytes 2 (length idx % 2 ^ 16) ++ (idx ++ encode_indexes rest)

unfoldable pub encode_item : StoreBatchItem → Bytes
encode_item it =
    be_bytes 8 it.bucket
    ++ (be_bytes 8 it.topic_hash
        ++ (be_bytes 2 (length it.indexes % 2 ^ 16)
            ++ (encode_indexes it.indexes ++ (be_bytes 4 (length it.msg % 2 ^ 32) ++ it.msg))))

unfoldable pub encode_items : List StoreBatchItem → Bytes
encode_items [] = []
encode_items (it ∷ rest) = encode_item it ++ encode_items rest

unfoldable pub encode_store_batch : List StoreBatchItem → Bytes
encode_store_batch items = 0 ∷ (be_bytes 8 (length items) ++ encode_items items)

ruleset sizes = (length-append, length-be_bytes)

pub length-encode_index :
    (idx : Bytes) (rest : List Bytes)
    → length (encode_indexes (idx ∷ rest)) ≡ 2 + (length idx + length (encode_indexes rest))
unfolding encode_indexes
length-encode_index idx rest = simp sizes

pub length-encode_item :
    (it : StoreBatchItem)
    → length (encode_item it)
      ≡ 8 + (8 + (2 + (length (encode_indexes it.indexes) + (4 + length it.msg))))
unfolding encode_item
length-encode_item it = simp sizes

marshal_indexes-Filled :
    (idxs : List Bytes) (out pre : Bytes) (n k pos : ℕ)
    → Filled out pos pre n
    → n ≡ length (encode_indexes idxs) + k
    → let r = marshal_indexes out pos idxs in Filled r.0 r.1 (pre ++ encode_indexes idxs) k
unfolding marshal_indexes encode_indexes
marshal_indexes-Filled [] out pre n k pos f hn = Filled-cast (sym (append-nil pre)) (omega arith) f
marshal_indexes-Filled (idx ∷ rest) out pre n k pos f hn =
    let len = be_bytes 2 (length idx % 2 ^ 16) in
    let k2 = length (encode_indexes rest) + k in
    let f1 =
      write len (pos + 2) n (length idx + k2) f
        (omega (arith, length-encode_index idx rest, length-be_bytes 2 (length idx % 2 ^ 16)))
        (simp sizes) in
    let f2 = write idx (pos + 2 + length idx) (length idx + k2) k2 f1 refl refl in
    Filled-cast (simp append_assoc) refl
      (marshal_indexes-Filled rest _ (pre ++ len ++ idx) k2 k (pos + 2 + length idx) f2 refl)

marshal_item-Filled :
    (it : StoreBatchItem) (out pre : Bytes) (n k pos : ℕ)
    → Filled out pos pre n
    → n ≡ length (encode_item it) + k
    → let r = marshal_item out pos it in Filled r.0 r.1 (pre ++ encode_item it) k
unfolding marshal_item encode_item
marshal_item-Filled it out pre n k pos f hn =
    let num = be_bytes 2 (length it.indexes % 2 ^ 16) in
    let len = be_bytes 4 (length it.msg % 2 ^ 32) in
    let k4 = 4 + (length it.msg + k) in
    let k3 = length (encode_indexes it.indexes) + k4 in
    let f1 =
      write (be_bytes 8 it.bucket) (pos + 8) n (8 + (2 + k3)) f
        (omega (arith, length-encode_item it, length-be_bytes 8 it.bucket)) (simp sizes) in
    let f2 =
      write (be_bytes 8 it.topic_hash) (pos + 8 + 8) (8 + (2 + k3)) (2 + k3) f1 (simp sizes)
        (simp sizes) in
    let f3 = write num (pos + 8 + 8 + 2) (2 + k3) k3 f2 (simp sizes) (simp sizes) in
    let f4 = marshal_indexes-Filled it.indexes _ _ k3 k4 (pos + 8 + 8 + 2) f3 refl in
    let f5 = write len _ k4 (length it.msg + k) f4 (simp sizes) (simp sizes) in
    let f6 = write it.msg _ (length it.msg + k) k f5 refl refl in
    Filled-cast (simp append_assoc) refl f6

marshal_items-Filled :
    (items : List StoreBatchItem) (out pre : Bytes) (n k pos : ℕ)
    → Filled out pos pre n
    → n ≡ length (encode_items items) + k
    → let r = marshal_items out pos items in Filled r.0 r.1 (pre ++ encode_items items) k
unfolding marshal_items encode_items
marshal_items-Filled [] out pre n k pos f hn = Filled-cast (sym (append-nil pre)) (omega arith) f
marshal_items-Filled (it ∷ rest) out pre n k pos f hn =
    let k1 = length (encode_items rest) + k in
    let f1 =
      marshal_item-Filled it out pre n k1 pos f
        (omega (arith, length-append (encode_item it) (encode_items rest))) in
    Filled-cast (append_assoc pre (encode_item it) (encode_items rest)) refl
      (marshal_items-Filled rest _ _ k1 k _ f1 refl)

indexes_size_lem :
    (size : ℕ) (idxs : List Bytes) → indexes_size size idxs ≡ size + length (encode_indexes idxs)
unfolding indexes_size encode_indexes
indexes_size_lem size [] = omega arith
indexes_size_lem size (idx ∷ rest) =
    omega (arith, indexes_size_lem (size + (2 + length idx)) rest, length-encode_index idx rest)

items_size_lem :
    (size : ℕ) (items : List StoreBatchItem)
    → items_size size items ≡ size + length (encode_items items)
unfolding items_size encode_items
items_size_lem size [] = omega arith
items_size_lem size (it ∷ rest) = omega (
  arith,
  items_size_lem (indexes_size (size + (8 + 8 + 2)) it.indexes + (4 + length it.msg)) rest,
  indexes_size_lem (size + (8 + 8 + 2)) it.indexes,
  length-encode_item it,
  length-append (encode_item it) (encode_items rest),
)

-- The encoder of store commands never fails, and its preallocated buffer holds exactly the format.
pub marshal_store_batch_cmd_lem :
    (items : List StoreBatchItem) → marshal_store_batch_cmd items ≡ ok (encode_store_batch items)
unfolding marshal_store_batch_cmd encode_store_batch
marshal_store_batch_cmd_lem items =
    let n = length (encode_items items) in
    let f0 : Filled (make_bytes (items_size (1 + 8) items)) 0 [] (1 + (8 + n)) = record {
      contents = ap make_bytes (items_size_lem (1 + 8) items ∙ omega arith);
      position = refl;
    } in
    let f1 = write (0 ∷ []) 1 (1 + (8 + n)) (8 + n) f0 refl refl in
    let f2 = write (be_bytes 8 (length items)) 9 (8 + n) n f1 (simp sizes) (simp sizes) in
    let f3 = marshal_items-Filled items _ _ n 0 9 f2 (omega arith) in
    ap ok (f3.contents ∙ append-nil _)
