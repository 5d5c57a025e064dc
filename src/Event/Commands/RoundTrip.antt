-- ===== src/Event/Commands/RoundTrip.antt =====
-- Commands that were encoded are decoded to what they were made from.
use futureq_v.Prelude.{
  ℕ, ◌+◌, ◌*◌, ◌%◌, ◌^◌, ◌<◌, ◌≤◌, ◌≡◌, refl, sym, ◌∙◌, List, [], ◌∷◌, ◌++◌, append_assoc,
  append-nil, arith, length, length-append, All,
}
use futureq_v.Prelude.Result.{ok, ◌>>=◌}
use futureq_v.Bytes.{Bytes, IsU64, be_bytes, length-be_bytes, be_value_one}
use futureq_v.Bytes.Read.{read_block, block_fits, read_number}
use futureq_v.Event.Commands.{
  StoreBatchItem, max_alloc, unmarshal_indexes, unmarshal_item, unmarshal_items,
  unmarshal_store_batch_cmd, marshal_store_batch_cmd,
}
use futureq_v.Event.Commands.Encoding.{
  encode_indexes, encode_item, encode_items, encode_store_batch, length-encode_index,
  length-encode_item, marshal_store_batch_cmd_lem,
}

-- What fits the widths of the wire format.
pub record IsItem (it : StoreBatchItem) : Type 0 where
  pub bucket_u64 : IsU64 it.bucket
  pub topic_u64 : IsU64 it.topic_hash
  pub few_indexes : length it.indexes < 2 ^ 16
  pub short_indexes : All (λ (idx : Bytes). length idx < 2 ^ 16) it.indexes
  pub short_msg : length it.msg < 2 ^ 32

unmarshal_indexes_lem :
    (idxs : List Bytes) (xs pre post : Bytes) (pos : ℕ)
    → xs ≡ pre ++ encode_indexes idxs ++ post
    → pos ≡ length pre
    → All (λ (idx : Bytes). length idx < 2 ^ 16) idxs
    → unmarshal_indexes (length idxs) xs pos ≡ ok (idxs, pos + length (encode_indexes idxs))
unfolding unmarshal_indexes encode_indexes
unmarshal_indexes_lem [] xs pre post pos layout hp h = ground arith
unmarshal_indexes_lem (idx ∷ rest) xs pre post pos layout hp h =
    let len = be_bytes 2 (length idx % 2 ^ 16) in
    let tail = encode_indexes rest in
    let l1 : xs ≡ pre ++ len ++ (idx ++ tail ++ post) = layout ∙ simp append_assoc in
    let l2 : xs ≡ pre ++ len ++ idx ++ (tail ++ post) = layout ∙ simp append_assoc in
    let l3 : xs ≡ pre ++ len ++ idx ++ tail ++ post = layout ∙ simp append_assoc in
    let e : length (pre ++ len) ≡ pos + 2 =
      omega (arith, length-append pre len, length-be_bytes 2 (length idx % 2 ^ 16)) in
    ground (
      arith,
      read_number xs pre (idx ++ tail ++ post) 2 (length idx % 2 ^ 16) pos (pos + 2) l1,
      block_fits xs (pre ++ len) idx (tail ++ post) l2 (pos + 2 + length idx),
      read_block xs (pre ++ len) idx (tail ++ post) l2 (pos + 2) (pos + 2 + length idx),
      length-append (pre ++ len) idx,
      length-encode_index idx rest,
      unmarshal_indexes_lem rest xs (pre ++ len ++ idx) post (pos + 2 + length idx) l3,
    )

unmarshal_item_lem :
    (it : StoreBatchItem) (xs pre post : Bytes) (pos : ℕ)
    → xs ≡ pre ++ encode_item it ++ post
    → pos ≡ length pre
    → IsItem it
    → unmarshal_item xs pos ≡ ok (it, pos + length (encode_item it))
unfolding unmarshal_item encode_item
unmarshal_item_lem it xs pre post pos layout hp h =
    let bucket = be_bytes 8 it.bucket in
    let topic = be_bytes 8 it.topic_hash in
    let num = be_bytes 2 (length it.indexes % 2 ^ 16) in
    let idxs = encode_indexes it.indexes in
    let len = be_bytes 4 (length it.msg % 2 ^ 32) in
    let p1 = pos + 8 + 8 + 2 in
    let p2 = p1 + length idxs in
    let l1 : xs ≡ pre ++ bucket ++ (topic ++ num ++ idxs ++ len ++ it.msg ++ post) =
      layout ∙ simp append_assoc in
    let l2 : xs ≡ pre ++ bucket ++ topic ++ (num ++ idxs ++ len ++ it.msg ++ post) =
      layout ∙ simp append_assoc in
    let l3 : xs ≡ pre ++ bucket ++ topic ++ num ++ (idxs ++ len ++ it.msg ++ post) =
      layout ∙ simp append_assoc in
    let l4 : xs ≡ pre ++ bucket ++ topic ++ num ++ idxs ++ (len ++ it.msg ++ post) =
      layout ∙ simp append_assoc in
    let l5 : xs ≡ pre ++ bucket ++ topic ++ num ++ idxs ++ len ++ (it.msg ++ post) =
      layout ∙ simp append_assoc in
    let l6 : xs ≡ pre ++ bucket ++ topic ++ num ++ idxs ++ len ++ it.msg ++ post =
      layout ∙ simp append_assoc in
    let e1 : length (pre ++ bucket) ≡ pos + 8 =
      simp (length-append, length-be_bytes) (omega arith) in
    let e2 : length (pre ++ bucket ++ topic) ≡ pos + 8 + 8 =
      simp (length-append, length-be_bytes) (omega arith) in
    let e3 : length (pre ++ bucket ++ topic ++ num) ≡ p1 =
      simp (length-append, length-be_bytes) (omega arith) in
    let e4 : length (pre ++ bucket ++ topic ++ num ++ idxs) ≡ p2 =
      simp (length-append, length-be_bytes) (omega arith) in
    let e5 : length (pre ++ bucket ++ topic ++ num ++ idxs ++ len) ≡ p2 + 4 =
      simp (length-append, length-be_bytes) (omega arith) in
    ground (
      arith,
      read_number xs pre _ 8 it.bucket pos (pos + 8) l1,
      read_number xs _ _ 8 it.topic_hash (pos + 8) (pos + 8 + 8) l2,
      read_number xs _ _ 2 (length it.indexes % 2 ^ 16) (pos + 8 + 8) p1 l3,
      unmarshal_indexes_lem it.indexes xs _ _ p1 l4 (sym e3) h.short_indexes,
      read_number xs _ _ 4 (length it.msg % 2 ^ 32) p2 (p2 + 4) l5,
      block_fits xs _ it.msg post l6 (p2 + 4 + length it.msg),
      read_block xs _ it.msg post l6 (p2 + 4) (p2 + 4 + length it.msg),
      length-encode_item it,
    )

unmarshal_items_lem :
    (items : List StoreBatchItem) (xs pre post : Bytes) (pos : ℕ)
    → xs ≡ pre ++ encode_items items ++ post
    → pos ≡ length pre
    → All IsItem items
    → unmarshal_items (length items) xs pos ≡ ok items
unfolding unmarshal_items encode_items
unmarshal_items_lem [] xs pre post pos layout hp h = refl
unmarshal_items_lem (it ∷ rest) xs pre post pos layout hp h = ground (
  arith,
  unmarshal_item_lem it xs pre (encode_items rest ++ post) pos (layout ∙ simp append_assoc),
  length-append pre (encode_item it),
  unmarshal_items_lem rest xs (pre ++ encode_item it) post (pos + length (encode_item it))
      (layout ∙ simp append_assoc),
)

-- A store command is decoded to the items it was made from, if each fits the widths of the wire
-- format and the number of items is one that Go can allocate for.
pub unmarshal-marshal_store :
    (items : List StoreBatchItem)
    → All IsItem items
    → length items * 64 ≤ max_alloc
    → (marshal_store_batch_cmd items >>= unmarshal_store_batch_cmd) ≡ ok items
unfolding unmarshal_store_batch_cmd
unmarshal-marshal_store items h fits =
    rw (marshal_store_batch_cmd_lem items) (unfold encode_store_batch in decoded)
  where
    count : Bytes
    count = be_bytes 8 (length items)

    decoded : unmarshal_store_batch_cmd (0 ∷ (count ++ encode_items items)) ≡ ok items
    decoded = ground (
      arith,
      read_number (0 ∷ (count ++ encode_items items)) (0 ∷ []) (encode_items items) 8 (length items)
          1 9 refl,
      be_value_one 0,
      length-append count (encode_items items),
      unmarshal_items_lem items (0 ∷ (count ++ encode_items items)) (0 ∷ count) [] 9
          (sym (append-nil (0 ∷ (count ++ encode_items items))))
          (omega (arith, length-be_bytes 8 (length items))) h,
    )
