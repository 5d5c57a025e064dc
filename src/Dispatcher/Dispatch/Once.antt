-- ===== src/Dispatcher/Dispatch/Once.antt =====
-- internal/dispatcher/dispatcher.go: a message in flight is not sent again before its timeout.
use futureq_v.Prelude.{
  ℕ, ◌+◌, ◌-◌, ◌*◌, ◌<◌, ◌≤◌, ◌≡◌, refl, ap, ◌∙◌, List, [], ◌∷◌, Option, none, some, false,
  Bool-cases, inl, inr, ltb, lt→ltb, arith, length,
}
use futureq_v.Prelude.Result.{Result, ok, err, panic}
use futureq_v.Prelude.Method.{for_each, for_each_keeps}
use futureq_v.Bytes.{Bytes}
use futureq_v.Bytes.Order.{bytes_eq, bytes_eq_iff}
use futureq_v.Maps.{lookup, lookup-insert, lookup-remove_ne}
use futureq_v.Repository.{StoredMessage, Codec}
use futureq_v.Dispatcher.Hub.{Hub}
use futureq_v.Dispatcher.Hub.Sent.{sent_with, dispatch_to_topic-sent}
use futureq_v.Dispatcher.Expiry.{is_expired}
use futureq_v.Dispatcher.Dispatch.{
  InFlightEntry, Pass, is_in_flight, check_timeout, after_send, dispatch_message, dispatch_event,
  queue_message,
}

abbrev pub sent : Bytes → Pass → ℕ
sent k p = sent_with k p.dispatcher.hub.buffers

abbrev pub flying : Bytes → Pass → Option InFlightEntry
flying k p = lookup k p.dispatcher.in_flight

-- Between two states no message with the key was sent and what is known of it did not change.
abbrev pub Untouched : Bytes → Pass → Pass → Type 0
Untouched k p q =
    (sent k q ≡ sent k p) × (flying k q ≡ flying k p) × (p.dispatcher.ticks ≤ q.dispatcher.ticks)

module _ (clock : ℕ → ℕ) (timeout capacity : ℕ) (codec : Codec) (topic : Bytes) (now : ℕ) where
  after_send-Untouched :
      (key k : Bytes) (r : Hub × List Bytes) (p : Pass)
      → bytes_eq key k ≡ false
      → sent_with k r.0.buffers ≡ sent k p
      → let q = after_send clock timeout capacity codec topic now key r p in
        Untouched k p q × (q.dispatcher.ticks ≤ p.dispatcher.ticks + 1)
  after_send-Untouched key k (hub, []) p other same = ((same, refl, omega arith), omega arith)
  after_send-Untouched key k (hub, g ∷ gs) p other same =
      let e : InFlightEntry = record { dispatched_at = clock p.dispatcher.ticks; topic = topic } in
      (
        (same, ground (arith, lookup-insert key k e p.dispatcher.in_flight), omega arith),
        omega arith,
      )

  dispatch_message-Untouched :
      (key k : Bytes) (r : Result StoredMessage) (p : Pass)
      → bytes_eq key k ≡ false
      → let q = (dispatch_message clock timeout capacity codec topic now key r p).0 in
        Untouched k p q × (q.dispatcher.ticks ≤ p.dispatcher.ticks + 1)
  dispatch_message-Untouched key k (err e) p other = ((refl, refl, omega arith), omega arith)
  dispatch_message-Untouched key k panic p other = ((refl, refl, omega arith), omega arith)
  dispatch_message-Untouched key k (ok msg) p other = elim (Bool-cases (is_expired msg now)) [
    | inl expired ↦ rw expired ((refl, refl, omega arith), omega arith)
    | inr live ↦ rw live (
        after_send-Untouched key k _ p other (
          dispatch_to_topic-sent capacity (queue_message msg key) key k other topic
            p.dispatcher.hub))
  ]

  check_timeout-Untouched :
      (key k : Bytes) (f : Option InFlightEntry) (p : Pass)
      → bytes_eq key k ≡ false
      → let q = record p { dispatcher = (check_timeout clock timeout f key p.dispatcher).0 } in
        Untouched k p q × (q.dispatcher.ticks ≤ p.dispatcher.ticks + 1)
  check_timeout-Untouched key k none p other = ((refl, refl, omega arith), omega arith)
  check_timeout-Untouched key k (some e) p other =
      elim (Bool-cases (ltb (clock p.dispatcher.ticks - e.dispatched_at) timeout)) [
        | inl fresh ↦ rw fresh ((refl, refl, omega arith), omega arith)
        | inr late ↦
            rw late (
              (refl, lookup-remove_ne key k p.dispatcher.in_flight other, omega arith),
              omega arith,
            )
      ]

  -- A message with another key does not matter.
  pub dispatch_event_other :
      (key val k : Bytes) (p : Pass)
      → bytes_eq key k ≡ false
      → let q = (dispatch_event clock timeout capacity codec topic now (key, val) p).0 in
        Untouched k p q × (q.dispatcher.ticks ≤ p.dispatcher.ticks + 2)
  unfolding dispatch_event is_in_flight
  dispatch_event_other key val k p other =
      let r = check_timeout clock timeout (lookup key p.dispatcher.in_flight) key p.dispatcher in
      let p1 = record p { dispatcher = r.0 } in
      let ((s1, f1, t1), u1) =
        check_timeout-Untouched key k (lookup key p.dispatcher.in_flight) p other in
      let ((s2, f2, t2), u2) = dispatch_message-Untouched key k (codec.unmarshal val) p1 other in
      elim (Bool-cases r.1) [
        | inl found ↦ rw found ((s1, f1, t1), omega arith)
        | inr unknown ↦ rw unknown ((s2 ∙ s1, f2 ∙ f1, omega arith), omega arith)
      ]

  dispatch_event_fresh :
      (key val : Bytes) (e : InFlightEntry) (p : Pass)
      → flying key p ≡ some e
      → clock p.dispatcher.ticks - e.dispatched_at < timeout
      → dispatch_event clock timeout capacity codec topic now (key, val) p
        ≡ (record p { dispatcher = record p.dispatcher { ticks = p.dispatcher.ticks + 1 } }, ok tt)
  unfolding dispatch_event is_in_flight
  dispatch_event_fresh key val e p hf ht =
      rw (hf, lt→ltb (clock p.dispatcher.ticks - e.dispatched_at) timeout ht) refl

  Fresh : Bytes → InFlightEntry → ℕ → List (Bytes × Bytes) → Pass → Type 0
  Fresh k e n es p =
      (sent k p ≡ n)
      × (flying k p ≡ some e)
      × ((i : ℕ) → i < p.dispatcher.ticks + 2 * length es → clock i - e.dispatched_at < timeout)

  dispatch_event-Fresh :
      (k : Bytes) (e : InFlightEntry) (n : ℕ) (x : Bytes × Bytes) (es : List (Bytes × Bytes))
      (p : Pass)
      → Fresh k e n (x ∷ es) p
      → Fresh k e n es (dispatch_event clock timeout capacity codec topic now x p).0
  unfolding Fresh
  dispatch_event-Fresh k e n (key, val) es p (hs, hf, ht) = elim (Bool-cases (bytes_eq key k)) [
    | inl same ↦
        let ek : key ≡ k = (bytes_eq_iff key k).0 same in
        rw
          (dispatch_event_fresh key val e p (ap (λ (j : Bytes). flying j p) ek ∙ hf)
            (ht p.dispatcher.ticks (omega arith)))
          (hs, hf, λ i hi. ht i (omega arith))
    | inr other ↦
        let ((s1, f1, t1), u1) = dispatch_event_other key val k p other in
        (s1 ∙ hs, f1 ∙ hf, λ i hi. ht i (omega arith))
  ]

  -- A scan of any messages sends none whose key is in flight, as long as no reading of the clock
  -- that the scan can make reaches the timeout, and the key stays in flight as it was.
  pub dispatch_once :
      (es : List (Bytes × Bytes)) (k : Bytes) (e : InFlightEntry) (p : Pass)
      → flying k p ≡ some e
      → ((i : ℕ) → i < p.dispatcher.ticks + 2 * length es → clock i - e.dispatched_at < timeout)
      → let q = (for_each (dispatch_event clock timeout capacity codec topic now) es p).0 in
        (sent k q ≡ sent k p) × (flying k q ≡ some e)
  unfolding Fresh
  dispatch_once es k e p hf ht =
      for_each_keeps (dispatch_event clock timeout capacity codec topic now) (Fresh k e (sent k p))
        (λ (q : Pass). (sent k q ≡ sent k p) × (flying k q ≡ some e))
        (dispatch_event-Fresh k e (sent k p)) (λ rest q (hs, hq, _). (hs, hq)) es p (refl, hf, ht)
