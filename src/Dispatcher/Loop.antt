-- ===== src/Dispatcher/Loop.antt =====
-- internal/dispatcher/dispatcher.go and janitor.go: the loops of `Run`, which wait for a timer. What
-- `select` delivers is a list that ends when the context is done.
use futureq_v.Prelude.{
  ℕ, ◌≡◌, ◌≢◌, ap, ◌∙◌, List, [], ◌∷◌, ◌++◌, append_assoc, append-nil, Option, Bool, ltb,
  if◌then◌else◌, arith,
}
use futureq_v.Prelude.Result.{Result, ok, panic}
use futureq_v.Prelude.Method.{M, continue}
use futureq_v.Bytes.{Bytes}
use futureq_v.Storage.{Db, unbounded}
use futureq_v.Repository.{Codec}
use futureq_v.Dispatcher.Deleter.{Deleter}
use futureq_v.Dispatcher.Dispatch.{Dispatcher, dispatch_all}
use futureq_v.Dispatcher.Janitor.{sweep, sweep_lem, expired_events}

-- A consumer has connected, or the timer has fired.
pub data Event : Type 0 where
  woken timer_fired : Event

-- What a pass reads: the wall clock, the store, and who leads.
pub record World (D : Type 0) : Type 0 where
  pub now : ℕ
  pub store : D
  pub node_host : Option (Result (ℕ × Bool))

-- What the timer is set to after a pass that dispatched `n` messages.
abbrev pub next_delay : (interval : ℕ) → Event → (n : ℕ) → ℕ
next_delay interval woken n = interval
next_delay interval timer_fired n = if ltb 0 n then 0 else interval

module _ (clock : ℕ → ℕ) (timeout capacity : ℕ) (codec : Codec) {D B : Type 0} (db : Db D B)
    (bucket_size node interval : ℕ) where
  abbrev pass : World D → M Dispatcher ℕ
  pass w d =
      dispatch_all clock timeout capacity codec w.now db bucket_size w.node_host node w.store d

  -- The dispatcher when `Run` returns, and the delays that the timer was set to.
  unfoldable pub dispatcher_run : List (Event × World D) → M Dispatcher (List ℕ)
  dispatcher_run [] d = (d, ok [])
  dispatcher_run ((ev, w) ∷ rest) d = continue (pass w d) λ n d1.
      continue (dispatcher_run rest d1) λ delays d2. (d2, ok (next_delay interval ev n ∷ delays))

module _ (codec : Codec) {D B : Type 0} (db : Db D B) where
  -- One sweep a tick, at its time and of the store then.
  unfoldable pub janitor_run : List (ℕ × D) → M Deleter (Unit {0})
  janitor_run [] d = (d, ok tt)
  janitor_run ((now, store) ∷ rest) d =
      continue (sweep codec now db store d) (λ _. janitor_run rest)

  abbrev pub all_expired : List (ℕ × D) → List Bytes
  all_expired [] = []
  all_expired ((now, store) ∷ rest) =
      expired_events codec now (db.entries store) ++ all_expired rest

  -- The janitor marks, tick by tick, the expired events of the store at that time.
  janitor_run_lem :
      (ticks : List (ℕ × D)) (d : Deleter)
      → ((v : Bytes) → codec.unmarshal v ≢ panic)
      → ((store : D) → (db.visit unbounded store).1 ≡ ok tt)
      → janitor_run ticks d ≡ (record d { pending = d.pending ++ all_expired ticks }, ok tt)
  unfolding janitor_run
  janitor_run_lem [] d h v = ground (arith, append-nil d.pending)
  janitor_run_lem ((now, store) ∷ rest) d h v =
      let found = expired_events codec now (db.entries store) in
      rw (sweep_lem codec now db store d h (v store)) (
        janitor_run_lem rest (record d { pending = d.pending ++ found }) h v
        ∙ ap (λ (ks : List Bytes). (record d { pending = ks }, ok tt))
            (append_assoc d.pending found (all_expired rest)))
