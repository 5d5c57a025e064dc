-- ===== src/Dispatcher/Dispatch/Due.antt =====
-- internal/dispatcher/dispatcher.go: what a pass never sends, and what it sends.
use futureq_v.Prelude.{
  ℕ, ◌+◌, ◌^◌, ◌<◌, ◌≡◌, refl, ap, ◌∙◌, [], ◌∷◌, Option, none, some, true, false, ◌&&◌, Bool-cases,
  inl, inr, leb, ◌==◌, if◌then◌else◌, arith, All,
}
use futureq_v.Prelude.Result.{Result, ok, err, panic}
use futureq_v.Prelude.Method.{continue, for_each, for_each_keeps}
use futureq_v.Bytes.{Bytes, IsU64}
use futureq_v.Bytes.Order.{bytes_eq, bytes_eq_iff}
use futureq_v.Keys.{calculate_bucket, event_key}
use futureq_v.Keys.Layout.{due_range}
use futureq_v.Maps.{lookup, lookup-insert_self}
use futureq_v.Storage.{Db, IterOptions, range, scan_db, at_least, is_below}
use futureq_v.Storage.Content.{Entries}
use futureq_v.Repository.{StoredMessage, Codec}
use futureq_v.Dispatcher.Hub.{Hub, is_empty}
use futureq_v.Dispatcher.Hub.Send.{dispatch_to_topic}
use futureq_v.Dispatcher.Hub.Sent.{sent_with}
use futureq_v.Dispatcher.Expiry.{is_expired}
use futureq_v.Dispatcher.Dispatch.{
  Dispatcher, InFlightEntry, Pass, is_in_flight, check_timeout, dispatch_event, queue_message,
  due_options, end_scan, dispatch_topic,
}
use futureq_v.Dispatcher.Dispatch.Once.{sent, flying, dispatch_event_other}

-- Every entry with the key holds a message that has expired.
abbrev pub OnlyExpired : Codec → ℕ → Bytes → Entries → Type 0
OnlyExpired codec now k es =
    All
      (λ (kv : Bytes × Bytes).
        bytes_eq kv.0 k ≡ true
        → (msg : StoredMessage) × (codec.unmarshal kv.1 ≡ ok msg) × (is_expired msg now ≡ true))
      es

module _ (clock : ℕ → ℕ) (timeout capacity : ℕ) (codec : Codec) (topic : Bytes) (now : ℕ) where
  check_timeout_hub :
      (f : Option InFlightEntry) (key : Bytes) (d : Dispatcher)
      → (check_timeout clock timeout f key d).0.hub ≡ d.hub
  check_timeout_hub none key d = refl
  check_timeout_hub (some e) key d = ground arith

  dispatch_event_expired :
      (key val : Bytes) (msg : StoredMessage) (k : Bytes) (p : Pass)
      → codec.unmarshal val ≡ ok msg
      → is_expired msg now ≡ true
      → sent k (dispatch_event clock timeout capacity codec topic now (key, val) p).0 ≡ sent k p
  unfolding dispatch_event is_in_flight
  dispatch_event_expired key val msg k p hu hx =
      let r = check_timeout clock timeout (lookup key p.dispatcher.in_flight) key p.dispatcher in
      let same =
        ap (λ (h : Hub). sent_with k h.buffers)
          (check_timeout_hub (lookup key p.dispatcher.in_flight) key p.dispatcher) in
      elim (Bool-cases r.1) [ inl found ↦ rw found same | inr unknown ↦ rw (unknown, hu, hx) same ]

  dispatch_event-OnlyExpired :
      (k : Bytes) (n : ℕ) (x : Bytes × Bytes) (es : Entries) (p : Pass)
      → OnlyExpired codec now k (x ∷ es) × (sent k p ≡ n)
      → OnlyExpired codec now k es
        × (sent k (dispatch_event clock timeout capacity codec topic now x p).0 ≡ n)
  dispatch_event-OnlyExpired k n (key, val) es p ((hx, hes), hs) =
      elim (Bool-cases (bytes_eq key k)) [
        | inl same ↦
            let (msg, hu, he) = hx same in (hes, dispatch_event_expired key val msg k p hu he ∙ hs)
        | inr other ↦ (
          hes,
          (dispatch_event_other clock timeout capacity codec topic now key val k p other).0.0 ∙ hs,
        )
      ]

  -- A scan sends no message under a key whose message has expired, in flight or not.
  pub scan_unsent :
      (k : Bytes) (es : Entries) (p : Pass)
      → OnlyExpired codec now k es
      → sent k (for_each (dispatch_event clock timeout capacity codec topic now) es p).0 ≡ sent k p
  scan_unsent k es p h =
      for_each_keeps (dispatch_event clock timeout capacity codec topic now)
        (λ (rest : Entries) (q : Pass). OnlyExpired codec now k rest × (sent k q ≡ sent k p))
        (λ (q : Pass). sent k q ≡ sent k p) (dispatch_event-OnlyExpired k (sent k p))
        (λ rest q (_, hq). hq) es p (h, refl)

  -- A live message that is not in flight goes to the hub with its key as the delivery tag. If a
  -- consumer takes it, it is counted and in flight from this moment; if none does, neither.
  dispatch_event_live :
      (key val : Bytes) (msg : StoredMessage) (p : Pass)
      → flying key p ≡ none
      → codec.unmarshal val ≡ ok msg
      → is_expired msg now ≡ false
      → let q = (dispatch_event clock timeout capacity codec topic now (key, val) p).0 in
        let (hub, sent_to) =
          dispatch_to_topic capacity topic (queue_message msg key) key p.dispatcher.hub in
        (q.dispatcher.hub ≡ hub)
        × (flying key q ≡ (
            if is_empty sent_to
            then none
            else some (record { dispatched_at = clock p.dispatcher.ticks; topic = topic })))
        × (q.dispatched ≡ p.dispatched + (if is_empty sent_to then 0 else 1))
  unfolding dispatch_event is_in_flight
  dispatch_event_live key val msg p hf hu hx =
      let (hub, sent_to) =
        dispatch_to_topic capacity topic (queue_message msg key) key p.dispatcher.hub in
      let e : InFlightEntry = record { dispatched_at = clock p.dispatcher.ticks; topic = topic } in
      elim (Bool-cases (is_empty sent_to)) [
        | inl nobody ↦ rw (hf, hu, hx, nobody) (refl, hf, omega arith)
        | inr somebody ↦
            rw (hf, hu, hx, somebody) (refl, lookup-insert_self key e p.dispatcher.in_flight, refl)
      ]

-- ── a whole topic ──

range-OnlyExpired :
    (codec : Codec) (now : ℕ) (k : Bytes) (o : IterOptions) (es : Entries)
    → (at_least o.lower_bound k && is_below o.upper_bound k) ≡ false
    → OnlyExpired codec now k (range o es)
unfolding range
range-OnlyExpired codec now k o [] out = tt
range-OnlyExpired codec now k o ((j, v) ∷ es) out =
    elim (Bool-cases (at_least o.lower_bound j && is_below o.upper_bound j)) [
      | inl inside ↦ rw inside (
        λ same. absurd (
            cc (
              ap (λ (x : Bytes). at_least o.lower_bound x && is_below o.upper_bound x)
                ((bytes_eq_iff j k).0 same))),
        range-OnlyExpired codec now k o es out,
      )
      | inr outside ↦ rw outside (range-OnlyExpired codec now k o es out)
    ]

continue-stays :
    {S : Type 0} (r : S × Result (Unit {0})) (z : Result (Unit {0}))
    → (continue r (λ _ s. (s, z))).0 ≡ r.0
continue-stays (s, ok u) z = refl
continue-stays (s, err e) z = refl
continue-stays (s, panic) z = refl

end_scan_hub :
    (clock : ℕ → ℕ) (timeout capacity : ℕ) (codec : Codec) (topic : Bytes) (now : ℕ)
    (r : Pass × Result (Unit {0}))
    → (end_scan clock timeout capacity codec topic now r).0.hub ≡ r.0.dispatcher.hub
end_scan_hub clock timeout capacity codec topic now (p, ok u) = refl
end_scan_hub clock timeout capacity codec topic now (p, err e) = refl
end_scan_hub clock timeout capacity codec topic now (p, panic) = refl

-- The dispatch of a topic never sends a message of another topic hash or of a later bucket than the
-- current one, be it in flight or not, when the iteration of the store succeeds and the current
-- bucket is not the last of all.
pub dispatch_topic_not_due :
    {D B : Type 0} (clock : ℕ → ℕ) (timeout capacity : ℕ) (codec : Codec) (topic : Bytes) (now : ℕ)
    (db : Db D B) (bucket_size : ℕ) (store : D) (d : Dispatcher) (bucket hash id current : ℕ)
    → calculate_bucket now bucket_size ≡ ok current
    → current + 1 < 2 ^ 64
    → IsU64 bucket
    → IsU64 hash
    → IsU64 (codec.topic_hash topic)
    → (hash == codec.topic_hash topic && leb bucket current) ≡ false
    → (db.visit (due_options clock timeout capacity codec topic now current) store).1 ≡ ok tt
    → sent_with
        (event_key bucket hash id)
        (dispatch_topic clock timeout capacity codec topic now db bucket_size store d).0.hub.buffers
      ≡ sent_with (event_key bucket hash id) d.hub.buffers
unfolding dispatch_topic scan_db
dispatch_topic_not_due clock timeout capacity codec topic now db bucket_size store d bucket hash id
      current hc hl ub uh ut out hv =
    let o = due_options clock timeout capacity codec topic now current in
    let k = event_key bucket hash id in
    let p : Pass = record { dispatcher = d; dispatched = 0; expired_keys = [] } in
    let step = dispatch_event clock timeout capacity codec topic now in
    let outside : (at_least o.lower_bound k && is_below o.upper_bound k) ≡ false =
      due_range bucket hash id (codec.topic_hash topic) current ub uh ut hl ∙ out in
    rw
      (
        hc,
        end_scan_hub clock timeout capacity codec topic now
            (continue (for_each step (db.visit o store).0 p) (λ _ s. (s, (db.visit o store).1))),
        continue-stays (for_each step (db.visit o store).0 p) (db.visit o store).1,
        db.visit_range o store hv,
      )
      (scan_unsent clock timeout capacity codec topic now k (range o (db.entries store)) p
        (range-OnlyExpired codec now k o (db.entries store) outside))
