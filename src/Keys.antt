-- ===== src/Keys.antt =====
-- pkg/utils/keys.go: storage keys [topicHash][bucket][eventID], and the bounds of range scans.
-- `TopicHash` is the xxhash library's: the hash of a topic is an argument of what uses it.
pub mod Layout
pub mod Bucket
use futureq_v.Prelude.{ℕ, ◌+◌, ◌/◌, ◌%◌, ◌^◌, ◌++◌, not, ◌==◌, if◌then◌else◌, length, slice}
use futureq_v.Prelude.Result.{Result, ok, err, panic, bad_length}
use futureq_v.Prelude.Int64.{is_positive, milliseconds}
use futureq_v.Bytes.{Bytes, be_bytes, be_value}

-- `unix_ms` and `bucket_size` are an int64 and a Duration. The division by a bucket below a
-- millisecond is Go's integer division by zero.
unfoldable pub calculate_bucket : ℕ → ℕ → Result ℕ
calculate_bucket unix_ms bucket_size =
    if not (is_positive unix_ms)
    then ok 0
    else if not (is_positive bucket_size)
    then ok unix_ms
    else if milliseconds bucket_size == 0
    then panic
    else ok (unix_ms / milliseconds bucket_size)

unfoldable pub event_key : ℕ → ℕ → ℕ → Bytes
event_key bucket topic_hash event_id =
    be_bytes 8 topic_hash ++ be_bytes 8 bucket ++ be_bytes 8 event_id

unfoldable pub topic_lower_bound : ℕ → Bytes
topic_lower_bound topic_hash = be_bytes 8 topic_hash

unfoldable pub topic_upper_bound : ℕ → Bytes
topic_upper_bound topic_hash = be_bytes 8 ((topic_hash + 1) % 2 ^ 64)

unfoldable pub due_upper_bound : ℕ → ℕ → Bytes
due_upper_bound topic_hash max_bucket =
    be_bytes 8 topic_hash ++ be_bytes 8 ((max_bucket + 1) % 2 ^ 64)

unfoldable pub bucket_upper_bound : ℕ → Bytes
bucket_upper_bound max_bucket = be_bytes 8 ((max_bucket + 1) % 2 ^ 64)

-- (topicHash, bucket, eventID)
unfoldable pub parse_event_key : Bytes → Result (ℕ × ℕ × ℕ)
parse_event_key key =
    if not (length key == 24)
    then err (bad_length (length key))
    else ok (be_value (slice key 0 8), be_value (slice key 8 16), be_value (slice key 16 24))
