-- ===== src/Dispatcher/Janitor.antt =====
-- internal/dispatcher/janitor.go: the sweep for expired messages over the whole store.
pub mod Purged
use futureq_v.Prelude.{
  ℕ, ◌≡◌, ◌≢◌, refl, ap, ◌∙◌, List, [], ◌∷◌, ◌++◌, append_assoc, append-nil, Bool, false,
  Bool-cases, inl, inr, not, ◌&&◌, ◌==◌, if◌then◌else◌, arith, length,
}
use futureq_v.Prelude.Result.{Result, ok, err, panic}
use futureq_v.Prelude.Method.{M, for_each}
use futureq_v.Prelude.Int64.{is_positive, add_int64, lt_int64}
use futureq_v.Bytes.{Bytes}
use futureq_v.Keys.{parse_event_key}
use futureq_v.Storage.{range-unbounded, Db, unbounded, scan_db}
use futureq_v.Storage.Content.{Entries}
use futureq_v.Repository.{StoredMessage, Codec}
use futureq_v.Dispatcher.Expiry.{is_expired}
use futureq_v.Dispatcher.Deleter.{Deleter, mark_deleted}

module _ (codec : Codec) (now : ℕ) where
  abbrev check_message : Bytes → Result StoredMessage → M (List Bytes) (Unit {0})
  check_message key (ok msg) expired =
      if not (is_positive msg.ttl)
      then (expired, ok tt)
      else if not (lt_int64 now (add_int64 msg.enqueued_at msg.ttl))
      then (expired ++ (key ∷ []), ok tt)
      else (expired, ok tt)
  check_message key (err e) expired = (expired, ok tt)
  check_message key panic expired = (expired, panic)

  abbrev check_key : Result (ℕ × ℕ × ℕ) → Bytes → Bytes → M (List Bytes) (Unit {0})
  check_key (ok parts) key val expired = check_message key (codec.unmarshal val) expired
  check_key (err e) key val expired = (expired, ok tt)
  check_key panic key val expired = (expired, panic)

  -- The callback of the scan, over the keys found so far.
  unfoldable pub sweep_event : Bytes × Bytes → M (List Bytes) (Unit {0})
  sweep_event (key, val) = check_key (parse_event_key key) key val

  mark_expired : List Bytes → Deleter → Deleter
  mark_expired [] d = d
  mark_expired (k ∷ ks) d = mark_expired ks (mark_deleted k d)

  -- An error of the scan marks nothing.
  abbrev end_sweep : List Bytes × Result (Unit {0}) → M Deleter (Unit {0})
  end_sweep (keys, ok u) d = (mark_expired keys d, ok tt)
  end_sweep (keys, err e) d = (d, ok tt)
  end_sweep (keys, panic) d = (d, panic)

  unfoldable pub sweep : {D B : Type 0} → Db D B → D → M Deleter (Unit {0})
  unfolding mark_expired sweep_event
  sweep db store = end_sweep (scan_db db unbounded sweep_event store [])

  -- ── what a sweep marks ──

  abbrev pub is_expired_value : Result StoredMessage → Bool
  is_expired_value (ok msg) = is_expired msg now
  is_expired_value (err e) = false
  is_expired_value panic = false

  -- The keys of 24 bytes whose value is a message that has expired.
  abbrev pub expired_events : Entries → List Bytes
  expired_events [] = []
  expired_events ((k, v) ∷ es) =
      if length k == 24 && is_expired_value (codec.unmarshal v)
      then k ∷ expired_events es
      else expired_events es

  check_message_lem :
      (key : Bytes) (r : Result StoredMessage) (keys : List Bytes)
      → r ≢ panic
      → check_message key r keys ≡ (if is_expired_value r then keys ++ (key ∷ []) else keys, ok tt)
  unfolding is_expired
  check_message_lem key (ok msg) keys h = ground arith
  check_message_lem key (err e) keys h = refl
  check_message_lem key panic keys h = absurd (h refl)

  sweep_event_lem :
      (k v : Bytes) (keys : List Bytes)
      → codec.unmarshal v ≢ panic
      → sweep_event (k, v) keys ≡ (
        if length k == 24 && is_expired_value (codec.unmarshal v) then keys ++ (k ∷ []) else keys,
        ok tt,
      )
  unfolding sweep_event parse_event_key
  sweep_event_lem k v keys h = ground (arith, check_message_lem k (codec.unmarshal v) keys)

  for_each-sweep_event :
      (es : Entries) (keys : List Bytes)
      → ((v : Bytes) → codec.unmarshal v ≢ panic)
      → for_each sweep_event es keys ≡ (keys ++ expired_events es, ok tt)
  for_each-sweep_event [] keys h = ground (arith, append-nil keys)
  for_each-sweep_event ((k, v) ∷ es) keys h =
      rw (sweep_event_lem k v keys (h v))
        (elim (Bool-cases (length k == 24 && is_expired_value (codec.unmarshal v))) [
          | inl found ↦ rw found (
              for_each-sweep_event es (keys ++ (k ∷ [])) h
              ∙ ground (arith, append_assoc keys (k ∷ []) (expired_events es)))
          | inr kept ↦ rw kept (for_each-sweep_event es keys h)
        ])

  mark_expired_lem :
      (ks : List Bytes) (d : Deleter) → mark_expired ks d ≡ record d { pending = d.pending ++ ks }
  unfolding mark_deleted mark_expired
  mark_expired_lem [] d = ground (arith, append-nil d.pending)
  mark_expired_lem (k ∷ ks) d =
      mark_expired_lem ks (mark_deleted k d) ∙ ground (arith, append_assoc d.pending (k ∷ []) ks)

  -- A sweep of a store that can be iterated marks for deletion exactly the keys of 24 bytes, in order,
  -- whose value decodes to a message that has expired, provided decoding does not panic.
  pub sweep_lem :
      {D B : Type 0} (db : Db D B) (store : D) (d : Deleter)
      → ((v : Bytes) → codec.unmarshal v ≢ panic)
      → (db.visit unbounded store).1 ≡ ok tt
      → sweep db store d
        ≡ (record d { pending = d.pending ++ expired_events (db.entries store) }, ok tt)
  unfolding sweep scan_db
  sweep_lem db store d h hv =
      let es = db.entries store in
      let visited : (db.visit unbounded store).0 ≡ es =
        db.visit_range unbounded store hv ∙ range-unbounded es in
      rw (visited, for_each-sweep_event es [] h, hv)
        (ap (λ (x : Deleter). (x, ok tt)) (mark_expired_lem (expired_events es) d))
