-- ===== src/Keys/Bucket.antt =====
-- Time buckets: no panic for a bucket size that the configuration lets through, and order.
use futureq_v.Prelude.{ℕ, ◌+◌, ◌/◌, ◌^◌, ◌≤◌, ◌<◌, ◌≡◌, ◌⊎◌, arith, if◌then◌else◌, ◌==◌}
use Prim.Native.Nat.{max}
use futureq_v.Prelude.Result.{ok, panic}
use futureq_v.Keys.{calculate_bucket}
use futureq_v.Prelude.Int64.{milliseconds}

-- The bucket sizes that the configuration leaves: none, or a millisecond at least.
abbrev pub IsBucketSize : ℕ → Type 0
IsBucketSize d = (d ≡ 0) ⊎ ((1_000_000 ≤ d) × (d < 2 ^ 63))

-- The bucket of a time, for such a bucket size.
abbrev pub bucket_of : ℕ → ℕ → ℕ
bucket_of t d = if milliseconds d == 0 then t else t / milliseconds d

-- For a bucket size that the configuration lets through, the bucket of a time that is not negative
-- is computed without a panic: the time itself with no bucket size, else a quotient.
pub calculate_bucket-bucket_of :
    (t d : ℕ) → IsBucketSize d → t < 2 ^ 63 → calculate_bucket t d ≡ ok (bucket_of t d)
unfolding calculate_bucket
calculate_bucket-bucket_of t d h ht = ground arith

-- A bucket size between 0 and a millisecond is a division by zero, at every positive time.
pub calculate_bucket_panic :
    (t d : ℕ) → 0 < t → t < 2 ^ 63 → 0 < d → d < 1_000_000 → calculate_bucket t d ≡ panic
unfolding calculate_bucket
calculate_bucket_panic t d ht h hd k = ground arith

div_mono : (a b m : ℕ) → a ≤ b → a / m ≤ b / m
div_mono a b m h = grind arith

lt_of_div_le : (a b m : ℕ) → 0 < m → a / m ≤ b / m → a < b + m
lt_of_div_le a b m hm h = grind arith

-- A message whose time has come lies in a bucket that is scanned, and one in such a bucket is
-- early by less than a bucket.
pub due_bucket :
    (fire now d b c : ℕ)
    → IsBucketSize d
    → fire < 2 ^ 63
    → now < 2 ^ 63
    → calculate_bucket fire d ≡ ok b
    → calculate_bucket now d ≡ ok c
    → (fire ≤ now → b ≤ c) × (b ≤ c → fire < now + max 1 (milliseconds d))
due_bucket fire now d b c hd hf hn eb ec = ground (
  arith,
  calculate_bucket-bucket_of fire d,
  calculate_bucket-bucket_of now d,
  div_mono fire now (milliseconds d),
  lt_of_div_le fire now (milliseconds d),
)
