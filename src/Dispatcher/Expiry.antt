-- ===== src/Dispatcher/Expiry.antt =====
-- internal/dispatcher/dispatcher.go: `isExpired`, which the TTL janitor repeats in `sweep`.
use futureq_v.Prelude.{
  ℕ, ◌+◌, ◌^◌, ◌<◌, ◌≡◌, Bool, true, false, not, ◌&&◌, ltb, leb, if◌then◌else◌, arith,
}
use futureq_v.Prelude.Int64.{is_positive, add_int64, lt_int64}
use futureq_v.Repository.{StoredMessage}

unfoldable pub is_expired : StoredMessage → ℕ → Bool
is_expired msg now =
    if not (is_positive msg.ttl)
    then false
    else not (lt_int64 now (add_int64 msg.enqueued_at msg.ttl))

-- A message whose times are not negative and whose deadline fits an int64 is expired exactly from
-- its deadline on, and never if its TTL is 0.
is_expired_deadline :
    (msg : StoredMessage) (now : ℕ)
    → now < 2 ^ 63
    → msg.enqueued_at + msg.ttl < 2 ^ 63
    → is_expired msg now ≡ (ltb 0 msg.ttl && leb (msg.enqueued_at + msg.ttl) now)
unfolding is_expired
is_expired_deadline msg now hn hd = ground arith

-- A deadline beyond the int64 range wraps around: such a message, with the longest of TTLs, is
-- expired at once, at every time that is not negative.
is_expired_overflow :
    (msg : StoredMessage) (now : ℕ)
    → now < 2 ^ 63
    → msg.enqueued_at < 2 ^ 63
    → 0 < msg.ttl
    → msg.ttl < 2 ^ 63
    → 2 ^ 63 < msg.enqueued_at + msg.ttl + 1
    → is_expired msg now ≡ true
unfolding is_expired
is_expired_overflow msg now hn he h0 ht ho = ground arith
