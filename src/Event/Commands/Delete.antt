-- ===== src/Event/Commands/Delete.antt =====
-- Delete commands: round trip, the keys that are refused, and a count that makes the decoder panic.
use futureq_v.Prelude.{
  ℕ, ◌+◌, ◌*◌, ◌^◌, ◌<◌, ◌≤◌, ◌≡◌, ◌≢◌, refl, sym, ap, ap₂, ◌∙◌, List, [], ◌∷◌, ◌++◌, append_assoc,
  append-nil, arith, length, length-append, All,
}
use futureq_v.Prelude.Result.{ok, err, panic, bad_length, ◌>>=◌}
use futureq_v.Bytes.{Bytes, be_bytes, length-be_bytes, be_value_one}
use futureq_v.Bytes.Buffer.{copy_at, make_bytes, Filled, write}
use futureq_v.Bytes.Read.{read_block, read_number}
use futureq_v.Event.Commands.{
  max_alloc, marshal_keys, marshal_delete_batch_cmd, slice_keys, unmarshal_delete_batch_cmd,
}

unfoldable pub encode_keys : List Bytes → Bytes
encode_keys [] = []
encode_keys (k ∷ rest) = k ++ encode_keys rest

unfoldable pub encode_delete_batch : List Bytes → Bytes
encode_delete_batch keys = 1 ∷ (be_bytes 8 (length keys) ++ encode_keys keys)

abbrev pub IsKey : Bytes → Type 0
IsKey k = length k ≡ 24

length-encode_keys :
    (keys : List Bytes) → All IsKey keys → length (encode_keys keys) ≡ length keys * 24
unfolding encode_keys
length-encode_keys [] h = refl
length-encode_keys (k ∷ rest) h =
    omega (arith, h.0, length-append k (encode_keys rest), length-encode_keys rest h.1)

marshal_keys_lem :
    (keys : List Bytes) {out pre : Bytes} {pos n : ℕ}
    → Filled out pos pre n
    → n ≡ length keys * 24
    → All IsKey keys
    → marshal_keys out pos keys ≡ ok (pre ++ encode_keys keys)
unfolding marshal_keys encode_keys make_bytes
marshal_keys_lem [] {pre} f hn h = ap ok (
    f.contents
    ∙ ap₂ (λ (p : Bytes) (k : ℕ). p ++ make_bytes k) (sym (append-nil pre)) hn
    ∙ append-nil (pre ++ []))
marshal_keys_lem (k ∷ rest) {pre} {pos} {n} f hn h = ground (
  arith,
  marshal_keys_lem rest (write k (pos + 24) n (length rest * 24) f (omega arith) (omega arith))
      refl,
  append_assoc pre k (encode_keys rest),
)

-- The buffer of a delete command before the keys are written.
header_Filled :
    (n size : ℕ)
    → Filled
        (copy_at (copy_at (make_bytes (1 + 8 + size)) 0 (1 ∷ [])) 1 (be_bytes 8 n))
        9
        (1 ∷ be_bytes 8 n)
        size
header_Filled n size =
    let start : Filled (make_bytes (1 + 8 + size)) 0 [] (1 + (8 + size)) = record {
      contents = ap make_bytes (omega arith);
      position = refl;
    } in
    write (be_bytes 8 n) 9 (8 + size) size
      (write (1 ∷ []) 1 (1 + (8 + size)) (8 + size) start refl refl)
      (omega (arith, length-be_bytes 8 n)) (omega (arith, length-be_bytes 8 n))

marshal_delete_batch_cmd_lem :
    (keys : List Bytes)
    → All IsKey keys
    → marshal_delete_batch_cmd keys ≡ ok (encode_delete_batch keys)
unfolding marshal_delete_batch_cmd encode_delete_batch
marshal_delete_batch_cmd_lem keys h =
    marshal_keys_lem keys (header_Filled (length keys) (length keys * 24)) refl h

marshal_keys_bad :
    (front back : List Bytes) (k out : Bytes) (pos : ℕ)
    → All IsKey front
    → length k ≢ 24
    → marshal_keys out pos (front ++ k ∷ back) ≡ err (bad_length (length k))
unfolding marshal_keys
marshal_keys_bad [] back k out pos h bad = ground arith
marshal_keys_bad (x ∷ front) back k out pos h bad =
    ground (arith, marshal_keys_bad front back k (copy_at out pos x) (pos + 24))

-- The first key that is not 24 bytes long fails the whole command, with that length in the error.
pub marshal_delete_bad :
    (front back : List Bytes) (k : Bytes)
    → All IsKey front
    → length k ≢ 24
    → marshal_delete_batch_cmd (front ++ k ∷ back) ≡ err (bad_length (length k))
unfolding marshal_delete_batch_cmd
marshal_delete_bad front back k h bad = marshal_keys_bad front back k _ 9 h bad

slice_keys_lem :
    (keys : List Bytes) (xs pre : Bytes) (i : ℕ)
    → xs ≡ pre ++ encode_keys keys
    → length pre ≡ 9 + i * 24
    → All IsKey keys
    → slice_keys (length keys) i xs ≡ keys
unfolding slice_keys encode_keys
slice_keys_lem [] xs pre i layout hp h = refl
slice_keys_lem (k ∷ rest) xs pre i layout hp h =
    let l1 : xs ≡ pre ++ k ++ encode_keys rest = layout ∙ simp append_assoc in
    ap₂ ◌∷◌
      (read_block xs pre k (encode_keys rest) l1 (9 + i * 24) (9 + i * 24 + 24) (sym hp)
        (omega arith))
      (slice_keys_lem rest xs (pre ++ k) (i + 1) l1 (omega (arith, length-append pre k)) h.1)

-- A delete command of 24-byte keys is decoded to the same keys, in order, if their number is one
-- that Go can allocate for.
pub unmarshal-marshal_delete :
    (keys : List Bytes)
    → All IsKey keys
    → length keys * 24 ≤ max_alloc
    → (marshal_delete_batch_cmd keys >>= unmarshal_delete_batch_cmd) ≡ ok keys
unfolding unmarshal_delete_batch_cmd
unmarshal-marshal_delete keys h fits =
    rw (marshal_delete_batch_cmd_lem keys h) (unfold encode_delete_batch in decoded)
  where
    count : Bytes
    count = be_bytes 8 (length keys)

    decoded : unmarshal_delete_batch_cmd (1 ∷ (count ++ encode_keys keys)) ≡ ok keys
    decoded = ground (
      arith,
      read_number (1 ∷ (count ++ encode_keys keys)) (1 ∷ []) (encode_keys keys) 8 (length keys) 1 9
          refl,
      be_value_one 1,
      length-append count (encode_keys keys),
      length-be_bytes 8 (length keys),
      length-encode_keys keys h,
      slice_keys_lem keys (1 ∷ (count ++ encode_keys keys)) (1 ∷ count) 0 refl
          (omega (arith, length-be_bytes 8 (length keys))) h,
    )

-- The length test multiplies with wrap-around: a command that announces 2 ^ 61 keys more than
-- it holds passes the test, and the decoder panics.
pub unmarshal_delete_panic :
    (n : ℕ) (body : Bytes)
    → n * 24 ≤ length body
    → length body < 2 ^ 60
    → unmarshal_delete_batch_cmd (1 ∷ (be_bytes 8 (2 ^ 61 + n) ++ body)) ≡ panic
unfolding unmarshal_delete_batch_cmd
unmarshal_delete_panic n body h small = ground (
  arith,
  read_number (1 ∷ (be_bytes 8 (2 ^ 61 + n) ++ body)) (1 ∷ []) body 8 (2 ^ 61 + n) 1 9 refl,
  be_value_one 1,
  length-append (be_bytes 8 (2 ^ 61 + n)) body,
  length-be_bytes 8 (2 ^ 61 + n),
)
