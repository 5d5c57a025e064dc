-- ===== src/Keys/Layout.antt =====
-- Keys read back, and the order and the ranges of keys.
use futureq_v.Prelude.{
  ℕ, ◌+◌, ◌-◌, ◌%◌, ◌^◌, ◌<◌, ◌≡◌, refl, sym, ap, ◌∙◌, [], ◌++◌, arith, length, length-append,
  slice, slice-middle, true, false, not, ◌&&◌, ltb, leb, ◌==◌, if◌then◌else◌, append-nil,
  append_assoc,
}
use futureq_v.Prelude.Result.{ok}
use futureq_v.Bytes.{Bytes, IsU64, be_bytes, be_value, length-be_bytes, be_value-be_bytes}
use futureq_v.Bytes.Order.{bytes_lt, bytes_lt-append, bytes_lt-nil, bytes_lt-be_bytes}
use futureq_v.Keys.{event_key, parse_event_key, topic_lower_bound, due_upper_bound}

pub length-event_key : (bucket hash id : ℕ) → length (event_key bucket hash id) ≡ 24
unfolding event_key
length-event_key bucket hash id = omega (
  arith,
  length-append (be_bytes 8 hash ++ be_bytes 8 bucket) (be_bytes 8 id),
  length-append (be_bytes 8 hash) (be_bytes 8 bucket),
  length-be_bytes 8 hash,
  length-be_bytes 8 bucket,
  length-be_bytes 8 id,
)

field_length : (h h' : ℕ) → length (be_bytes 8 h) ≡ length (be_bytes 8 h')
field_length h h' = omega (arith, length-be_bytes 8 h, length-be_bytes 8 h')

prefix_length :
    (h b h' b' : ℕ)
    → length (be_bytes 8 h ++ be_bytes 8 b) ≡ length (be_bytes 8 h' ++ be_bytes 8 b')
prefix_length h b h' b' = omega (
  arith,
  length-append (be_bytes 8 h) (be_bytes 8 b),
  length-append (be_bytes 8 h') (be_bytes 8 b'),
  length-be_bytes 8 h,
  length-be_bytes 8 h',
  length-be_bytes 8 b,
  length-be_bytes 8 b',
)

read_field :
    (pre post : Bytes) (v i j : ℕ)
    → IsU64 v
    → i ≡ length pre
    → j ≡ i + 8
    → be_value (slice (pre ++ be_bytes 8 v ++ post) i j) ≡ v
read_field pre post v i j hv hi hj =
    ap be_value (slice-middle pre (be_bytes 8 v) post i j hi (omega (arith, length-be_bytes 8 v)))
    ∙ be_value-be_bytes 8 v (omega arith)

module _ (bucket hash id : ℕ) where
  field_hash : IsU64 hash → be_value (slice (event_key bucket hash id) 0 8) ≡ hash
  unfolding event_key
  field_hash h =
      ap (λ (k : Bytes). be_value (slice k 0 8))
        (append_assoc (be_bytes 8 hash) (be_bytes 8 bucket) (be_bytes 8 id))
      ∙ read_field [] (be_bytes 8 bucket ++ be_bytes 8 id) hash 0 8 h refl refl

  field_bucket : IsU64 bucket → be_value (slice (event_key bucket hash id) 8 16) ≡ bucket
  unfolding event_key
  field_bucket h =
      read_field (be_bytes 8 hash) (be_bytes 8 id) bucket 8 16 h (sym (length-be_bytes 8 hash)) refl

  field_id : IsU64 id → be_value (slice (event_key bucket hash id) 16 24) ≡ id
  unfolding event_key
  field_id h =
      ap (λ (k : Bytes). be_value (slice k 16 24))
        (sym (append-nil (be_bytes 8 hash ++ be_bytes 8 bucket ++ be_bytes 8 id)))
      ∙ read_field (be_bytes 8 hash ++ be_bytes 8 bucket) [] id 16 24 h
          (omega (
            arith,
            length-append (be_bytes 8 hash) (be_bytes 8 bucket),
            length-be_bytes 8 hash,
            length-be_bytes 8 bucket,
          ))
          refl

-- For uint64 components, parsing the key of an event gives back its topic hash, bucket and id.
pub parse_event_key-event_key :
    (bucket hash id : ℕ)
    → IsU64 bucket
    → IsU64 hash
    → IsU64 id
    → parse_event_key (event_key bucket hash id) ≡ ok (hash, bucket, id)
unfolding parse_event_key
parse_event_key-event_key bucket hash id hb hh hi = ground (
  arith,
  length-event_key bucket hash id,
  field_hash bucket hash id,
  field_bucket bucket hash id,
  field_id bucket hash id,
)

-- The order of keys is the order of (topic hash, bucket, id): by topic, then by time, then by age.
pub event_key_order :
    (b h i b' h' i' : ℕ)
    → IsU64 b
    → IsU64 h
    → IsU64 i
    → IsU64 b'
    → IsU64 h'
    → IsU64 i'
    → bytes_lt (event_key b h i) (event_key b' h' i') ≡ (
        if ltb h h'
        then true
        else if ltb h' h
        then false
        else if ltb b b'
        then true
        else if ltb b' b
        then false
        else ltb i i')
unfolding event_key
event_key_order b h i b' h' i' ub uh ui ub' uh' ui' = ground (
  arith,
  bytes_lt-append (be_bytes 8 h ++ be_bytes 8 b) (be_bytes 8 h' ++ be_bytes 8 b') (be_bytes 8 i)
      (be_bytes 8 i') (prefix_length h b h' b'),
  bytes_lt-append (be_bytes 8 h) (be_bytes 8 h') (be_bytes 8 b) (be_bytes 8 b') (field_length h h'),
  bytes_lt-append (be_bytes 8 h') (be_bytes 8 h) (be_bytes 8 b') (be_bytes 8 b) (field_length h' h),
  bytes_lt-be_bytes 8 h h',
  bytes_lt-be_bytes 8 h' h,
  bytes_lt-be_bytes 8 b b',
  bytes_lt-be_bytes 8 b' b,
  bytes_lt-be_bytes 8 i i',
)

-- A key is compared with a bound by the fields that the bound has.
bytes_lt-bound :
    (xs ys us : Bytes) → length xs ≡ length ys → bytes_lt (xs ++ us) ys ≡ bytes_lt xs ys
bytes_lt-bound xs ys us e =
    ap (bytes_lt (xs ++ us)) (sym (append-nil ys))
    ∙ bytes_lt-append xs ys us [] e
    ∙ ground (arith, bytes_lt-nil us)

below_lower :
    (b h' i h : ℕ)
    → IsU64 h'
    → IsU64 h
    → bytes_lt (event_key b h' i) (topic_lower_bound h) ≡ ltb h' h
unfolding event_key topic_lower_bound
below_lower b h' i h uh' uh =
    ap (λ (k : Bytes). bytes_lt k (be_bytes 8 h))
      (append_assoc (be_bytes 8 h') (be_bytes 8 b) (be_bytes 8 i))
    ∙ bytes_lt-bound (be_bytes 8 h') (be_bytes 8 h) (be_bytes 8 b ++ be_bytes 8 i)
        (field_length h' h)
    ∙ bytes_lt-be_bytes 8 h' h uh' uh

below_upper :
    (b h' i h now : ℕ)
    → IsU64 b
    → IsU64 h'
    → IsU64 h
    → bytes_lt (event_key b h' i) (due_upper_bound h now)
      ≡ (if ltb h' h then true else if ltb h h' then false else ltb b ((now + 1) % 2 ^ 64))
unfolding event_key due_upper_bound
below_upper b h' i h now ub uh' uh =
    let next = (now + 1) % 2 ^ 64 in
    bytes_lt-bound (be_bytes 8 h' ++ be_bytes 8 b) (be_bytes 8 h ++ be_bytes 8 next) (be_bytes 8 i)
      (prefix_length h' b h next)
    ∙ ground (
      arith,
      bytes_lt-append (be_bytes 8 h') (be_bytes 8 h) (be_bytes 8 b) (be_bytes 8 next)
          (field_length h' h),
      bytes_lt-be_bytes 8 h h',
      bytes_lt-be_bytes 8 h' h,
      bytes_lt-be_bytes 8 b next,
    )

-- A key lies in the scan range of the topic hash `h` at the bucket `now` exactly if it belongs to
-- that topic hash and its bucket is at most `now`, for `now` below the last bucket of all.
pub due_range :
    (b h' i h now : ℕ)
    → IsU64 b
    → IsU64 h'
    → IsU64 h
    → now + 1 < 2 ^ 64
    → (not (bytes_lt (event_key b h' i) (topic_lower_bound h))
        && bytes_lt (event_key b h' i) (due_upper_bound h now))
      ≡ (h' == h && leb b now)
due_range b h' i h now ub uh' uh un = ground (arith, below_lower b h' i h, below_upper b h' i h now)

-- At the last bucket of all the bound wraps around, and the scan finds no message of any topic.
due_range_wraps :
    (b h' i h : ℕ)
    → IsU64 b
    → IsU64 h'
    → IsU64 h
    → (not (bytes_lt (event_key b h' i) (topic_lower_bound h))
        && bytes_lt (event_key b h' i) (due_upper_bound h (2 ^ 64 - 1)))
      ≡ false
due_range_wraps b h' i h ub uh' uh =
    ground (arith, below_lower b h' i h, below_upper b h' i h (2 ^ 64 - 1))
