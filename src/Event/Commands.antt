-- ===== src/Event/Commands.antt =====
-- internal/raft/event/commands.go: the commands of the event shard, written into one preallocated
-- buffer and read back by position. Slices that alias the command are equal lists here.
pub mod Encoding
pub mod RoundTrip
pub mod Delete
use futureq_v.Prelude.{
  ℕ, zero, suc, ◌+◌, ◌*◌, ◌%◌, ◌^◌, Bool, true, false, not, ◌||◌, List, [], ◌∷◌, ltb, leb, ◌==◌,
  if◌then◌else◌, length, slice,
}
use futureq_v.Prelude.Result.{
  Result, Error, ok, err, panic, ◌>>=◌, too_short, wrong_type, truncated, bad_length,
}
use futureq_v.Prelude.Int64.{is_negative, lt_int64}
use futureq_v.Bytes.{Bytes, be_bytes, be_value}
use futureq_v.Bytes.Buffer.{copy_at, make_bytes}

pub data CommandType : Type 0 where
  store_batch_cmd delete_batch_cmd : CommandType

abbrev pub command_byte : CommandType → ℕ
command_byte store_batch_cmd = 0
command_byte delete_batch_cmd = 1

pub record StoreBatchItem : Type 0 where
  pub bucket : ℕ
  pub topic_hash : ℕ
  pub indexes : List Bytes
  pub msg : Bytes

-- The size in bytes above which Go's `make` panics (64-bit Linux).
abbrev pub max_alloc : ℕ
max_alloc = 2 ^ 48

abbrev pub require : Bool → Error → Result (Unit {0})
require true e = ok tt
require false e = err e

-- ── encoding ──

indexes_size : ℕ → List Bytes → ℕ
indexes_size size [] = size
indexes_size size (idx ∷ rest) = indexes_size (size + (2 + length idx)) rest

items_size : ℕ → List StoreBatchItem → ℕ
unfolding indexes_size
items_size size [] = size
items_size size (it ∷ rest) =
    items_size (indexes_size (size + (8 + 8 + 2)) it.indexes + (4 + length it.msg)) rest

-- The loops carry the buffer and the position.
marshal_indexes : Bytes → ℕ → List Bytes → Bytes × ℕ
marshal_indexes out pos [] = (out, pos)
marshal_indexes out pos (idx ∷ rest) =
    let out1 = copy_at out pos (be_bytes 2 (length idx % 2 ^ 16)) in
    marshal_indexes (copy_at out1 (pos + 2) idx) (pos + 2 + length idx) rest

marshal_item : Bytes → ℕ → StoreBatchItem → Bytes × ℕ
unfolding marshal_indexes
marshal_item out pos it =
    let out1 = copy_at out pos (be_bytes 8 it.bucket) in
    let out2 = copy_at out1 (pos + 8) (be_bytes 8 it.topic_hash) in
    let out3 = copy_at out2 (pos + 8 + 8) (be_bytes 2 (length it.indexes % 2 ^ 16)) in
    let (out4, pos4) = marshal_indexes out3 (pos + 8 + 8 + 2) it.indexes in
    let out5 = copy_at out4 pos4 (be_bytes 4 (length it.msg % 2 ^ 32)) in
    (copy_at out5 (pos4 + 4) it.msg, pos4 + 4 + length it.msg)

marshal_items : Bytes → ℕ → List StoreBatchItem → Bytes × ℕ
unfolding marshal_item
marshal_items out pos [] = (out, pos)
marshal_items out pos (it ∷ rest) =
    let (out1, pos1) = marshal_item out pos it in marshal_items out1 pos1 rest

unfoldable pub marshal_store_batch_cmd : List StoreBatchItem → Result Bytes
unfolding marshal_items items_size make_bytes copy_at
marshal_store_batch_cmd items =
    let out = make_bytes (items_size (1 + 8) items) in
    let out1 = copy_at out 0 (command_byte store_batch_cmd ∷ []) in
    let out2 = copy_at out1 1 (be_bytes 8 (length items)) in ok (marshal_items out2 9 items).0

marshal_keys : Bytes → ℕ → List Bytes → Result Bytes
marshal_keys out pos [] = ok out
marshal_keys out pos (k ∷ rest) =
    if not (length k == 24)
    then err (bad_length (length k))
    else marshal_keys (copy_at out pos k) (pos + 24) rest

unfoldable pub marshal_delete_batch_cmd : List Bytes → Result Bytes
unfolding marshal_keys make_bytes copy_at
marshal_delete_batch_cmd keys =
    let out = make_bytes (1 + 8 + length keys * 24) in
    let out1 = copy_at out 0 (command_byte delete_batch_cmd ∷ []) in
    marshal_keys (copy_at out1 1 (be_bytes 8 (length keys))) 9 keys

-- ── decoding ──

-- The first argument is what the loop has left to read.
unmarshal_indexes : ℕ → Bytes → ℕ → Result (List Bytes × ℕ)
unmarshal_indexes zero xs pos = ok ([], pos)
unmarshal_indexes (suc left) xs pos = do
  _ ← require (leb (pos + 2) (length xs)) truncated
  let idx_len = be_value (slice xs pos (pos + 2))
  _ ← require (leb (pos + 2 + idx_len) (length xs)) truncated
  (rest, pos') ← unmarshal_indexes left xs (pos + 2 + idx_len)
  ok (slice xs (pos + 2) (pos + 2 + idx_len) ∷ rest, pos')

unmarshal_item : Bytes → ℕ → Result (StoreBatchItem × ℕ)
unfolding unmarshal_indexes
unmarshal_item xs pos = do
  _ ← require (leb (pos + 8 + 8 + 2) (length xs)) truncated
  let num_idx = be_value (slice xs (pos + 8 + 8) (pos + 8 + 8 + 2))
  (indexes, pos1) ← unmarshal_indexes num_idx xs (pos + 8 + 8 + 2)
  _ ← require (leb (pos1 + 4) (length xs)) truncated
  let val_len = be_value (slice xs pos1 (pos1 + 4))
  _ ← require (leb (pos1 + 4 + val_len) (length xs)) truncated
  ok (
    record {
      bucket = be_value (slice xs pos (pos + 8));
      topic_hash = be_value (slice xs (pos + 8) (pos + 8 + 8));
      indexes = indexes;
      msg = slice xs (pos1 + 4) (pos1 + 4 + val_len);
    },
    pos1 + 4 + val_len,
  )

unmarshal_items : ℕ → Bytes → ℕ → Result (List StoreBatchItem)
unfolding unmarshal_item
unmarshal_items zero xs pos = ok []
unmarshal_items (suc left) xs pos = do
  (it, pos1) ← unmarshal_item xs pos
  rest ← unmarshal_items left xs pos1
  ok (it ∷ rest)

-- `make([]StoreBatchItem, 0, count)` reserves 64 bytes an item.
unfoldable pub unmarshal_store_batch_cmd : Bytes → Result (List StoreBatchItem)
unfolding unmarshal_items
unmarshal_store_batch_cmd xs = do
  _ ← require (leb (1 + 8) (length xs)) too_short
  _ ← require (be_value (slice xs 0 1) == command_byte store_batch_cmd) wrong_type
  let count = be_value (slice xs 1 9)
  if ltb max_alloc (count * 64) then panic else unmarshal_items count xs 9

slice_keys : ℕ → ℕ → Bytes → List Bytes
slice_keys zero i xs = []
slice_keys (suc left) i xs = slice xs (9 + i * 24) (9 + i * 24 + 24) ∷ slice_keys left (i + 1) xs

-- `count` is an int: its test multiplies with wrap-around, and `make([][]byte, count)` panics for a
-- negative count and above `max_alloc`, at 24 bytes a slice.
unfoldable pub unmarshal_delete_batch_cmd : Bytes → Result (List Bytes)
unfolding slice_keys
unmarshal_delete_batch_cmd xs = do
  _ ← require (leb (1 + 8) (length xs)) too_short
  _ ← require (be_value (slice xs 0 1) == command_byte delete_batch_cmd) wrong_type
  let count = be_value (slice xs 1 9)
  _ ← require (not (lt_int64 (length xs) ((9 + count * 24) % 2 ^ 64))) too_short
  if is_negative count || ltb max_alloc (count * 24) then panic else ok (slice_keys count 0 xs)
