-- ===== src/Dispatcher/Deleter/Loop.antt =====
-- internal/dispatcher/deleter.go: the loop of `Run`, which flushes at each tick and once more at the end.
use futureq_v.Prelude.{
  ◌≡◌, ◌≢◌, refl, sym, ap, ap₂, subst, ◌∙◌, List, [], ◌∷◌, ◌++◌, append_assoc, append-nil, Option,
  none, some,
}
use futureq_v.Prelude.Result.{Result, ok, err, panic}
use futureq_v.Bytes.{Bytes}
use futureq_v.Dispatcher.Deleter.{
  Deleter, DeleteBackend, mark_deleted, begin_flush, end_flush, flush, run_flush, take_pending,
}

-- What happens until the context is done: a key is marked, or the ticker fires and the given keys are
-- marked while the backend works, outside the lock.
pub data Turn : Type 0 where
  mark : Bytes → Turn
  tick : (meanwhile : List Bytes) → Turn

abbrev pub marked : List Turn → List Bytes
marked [] = []
marked (mark k ∷ ts) = k ∷ marked ts
marked (tick ks ∷ ts) = ks ++ marked ts

unfoldable pub mark_all : List Bytes → Deleter → Deleter
mark_all [] d = d
mark_all (k ∷ ks) d = mark_all ks (mark_deleted k d)

module _ {S : Type 0} (backend : DeleteBackend S) where
  abbrev flush_taken : List Bytes → Option (List Bytes) → Deleter → S → (Deleter × List Bytes) × S
  flush_taken meanwhile none d s = ((mark_all meanwhile d, []), s)
  flush_taken meanwhile (some keys) d s =
      let (s1, r) = backend keys s in (end_flush keys r (mark_all meanwhile d), s1)

  -- A flush, between whose two critical sections the keys `meanwhile` are marked.
  unfoldable pub flush_during : List Bytes → Deleter → S → (Deleter × List Bytes) × S
  unfolding mark_all
  flush_during meanwhile d s = flush_taken meanwhile (begin_flush d).flushing (begin_flush d) s

  -- The deleter, the keys that were deleted, and the backend's state in the end; the keys `last` are
  -- marked during the last flush.
  unfoldable pub deleter_run :
      List Turn → (last : List Bytes) → Deleter → S → (Deleter × List Bytes) × S
  unfolding flush_during
  deleter_run [] last d s = flush_during last d s
  deleter_run (mark k ∷ ts) last d s = deleter_run ts last (mark_deleted k d) s
  deleter_run (tick meanwhile ∷ ts) last d s =
      let ((d1, deleted), s1) = flush_during meanwhile d s in
      let ((d2, later), s2) = deleter_run ts last d1 s1 in ((d2, deleted ++ later), s2)

  mark_all_lem :
      (ks : List Bytes) (d : Deleter) → mark_all ks d ≡ record d { pending = d.pending ++ ks }
  unfolding mark_all mark_deleted
  mark_all_lem [] d =
      ap (λ (ps : List Bytes). record d { pending = ps }) (sym (append-nil d.pending))
  mark_all_lem (k ∷ ks) d =
      mark_all_lem ks (mark_deleted k d)
      ∙ ap (λ (ps : List Bytes). record d { pending = ps }) (append_assoc d.pending (k ∷ []) ks)

  -- What a flush deletes, and what waits behind it, is what waited before and what was marked
  -- meanwhile, in this order.
  abbrev Keeps : List Bytes → Deleter → (Deleter × List Bytes) × S → Type 0
  Keeps meanwhile d ((d1, deleted), s1) =
      (deleted ++ d1.pending ≡ d.pending ++ meanwhile) × (d1.flushing ≡ none)

  taken_flush :
      (o : Option (List Bytes)) (d : Deleter) (s : S)
      → flush_taken [] o d s ≡ run_flush backend o d s
  unfolding mark_all
  taken_flush none d s = refl
  taken_flush (some keys) d s = refl

  -- A flush during which nothing is marked is `flush`.
  flush_during-flush : (d : Deleter) (s : S) → flush_during [] d s ≡ flush backend d s
  unfolding flush_during flush
  flush_during-flush d s = taken_flush (begin_flush d).flushing (begin_flush d) s

  returned-Keeps :
      (ks meanwhile : List Bytes) (d d1 : Deleter) (s1 : S) (r : Result (Unit {0}))
      → r ≢ panic
      → d.pending ≡ ks
      → d1.pending ≡ meanwhile
      → Keeps meanwhile d (end_flush ks r d1, s1)
  unfolding end_flush
  returned-Keeps ks meanwhile d d1 s1 (ok u) h e m = (ap₂ ◌++◌ (sym e) m, refl)
  returned-Keeps ks meanwhile d d1 s1 (err x) h e m = (ap₂ ◌++◌ (sym e) m, refl)
  returned-Keeps ks meanwhile d d1 s1 panic h e m = absurd (h refl)

  pub flush_empty :
      (d : Deleter) (s : S) → d.pending ≡ [] → d.flushing ≡ none → flush backend d s ≡ ((d, []), s)
  unfolding flush begin_flush
  flush_empty d s e f =
      ap (λ (ps : List Bytes). run_flush backend (take_pending ps d).flushing (take_pending ps d) s)
        e
      ∙ ap (λ (o : Option (List Bytes)). run_flush backend o d s) f

  pub flush_some :
      (k : Bytes) (ks : List Bytes) (d : Deleter) (s : S)
      → d.pending ≡ k ∷ ks
      → flush backend d s ≡ (
        end_flush (k ∷ ks) (backend (k ∷ ks) s).1 (take_pending (k ∷ ks) d),
        (backend (k ∷ ks) s).0,
      )
  unfolding flush begin_flush
  flush_some k ks d s e =
      ap (λ (ps : List Bytes). run_flush backend (take_pending ps d).flushing (take_pending ps d) s)
        e

  taken-Keeps :
      (ps meanwhile : List Bytes) (d : Deleter) (s : S)
      → ((keys : List Bytes) (s0 : S) → (backend keys s0).1 ≢ panic)
      → d.pending ≡ ps
      → d.flushing ≡ none
      → Keeps meanwhile d (flush_taken meanwhile (take_pending ps d).flushing (take_pending ps d) s)
  taken-Keeps [] meanwhile d s h e f =
      let all = mark_all_lem meanwhile d in
      subst (λ (o : Option (List Bytes)). Keeps meanwhile d (flush_taken meanwhile o d s)) (sym f)
        (ap (λ (x : Deleter). x.pending) all, ap (λ (x : Deleter). x.flushing) all ∙ f)
  taken-Keeps (k ∷ ks) meanwhile d s h e f =
      returned-Keeps (k ∷ ks) meanwhile d (mark_all meanwhile (take_pending (k ∷ ks) d))
        (backend (k ∷ ks) s).0 (backend (k ∷ ks) s).1 (h (k ∷ ks) s) e
        (ap (λ (x : Deleter). x.pending) (mark_all_lem meanwhile (take_pending (k ∷ ks) d)))

  flush_during-Keeps :
      (meanwhile : List Bytes) (d : Deleter) (s : S)
      → ((keys : List Bytes) (s0 : S) → (backend keys s0).1 ≢ panic)
      → d.flushing ≡ none
      → Keeps meanwhile d (flush_during meanwhile d s)
  unfolding flush_during begin_flush
  flush_during-Keeps meanwhile d s h f = taken-Keeps d.pending meanwhile d s h refl f

  -- Where the backend does not panic, the keys that `Run` has deleted when it returns, and behind them
  -- those that wait still, are the keys that waited at first and those that were marked, between the
  -- flushes or during them, in the order in which they were marked and each once: whatever flushes fail
  -- in between. No flush is left half done.
  pub deleter_run_order :
      (ts : List Turn) (last : List Bytes) (d : Deleter) (s : S)
      → ((keys : List Bytes) (s0 : S) → (backend keys s0).1 ≢ panic)
      → d.flushing ≡ none
      → let r = deleter_run ts last d s in
        (r.0.1 ++ r.0.0.pending ≡ d.pending ++ (marked ts ++ last)) × (r.0.0.flushing ≡ none)
  unfolding deleter_run mark_deleted
  deleter_run_order [] last d s h f = flush_during-Keeps last d s h f
  deleter_run_order (mark k ∷ ts) last d s h f =
      let (order, ended) = deleter_run_order ts last (mark_deleted k d) s h f in
      (order ∙ append_assoc d.pending (k ∷ []) (marked ts ++ last), ended)
  deleter_run_order (tick ks ∷ ts) last d s h f =
      let (now, idle) = flush_during-Keeps ks d s h f in
      let r = flush_during ks d s in
      let q = deleter_run ts last r.0.0 r.1 in
      let (order, ended) = deleter_run_order ts last r.0.0 r.1 h idle in
      (
        append_assoc r.0.1 q.0.1 q.0.0.pending
            ∙ ap (λ (xs : List Bytes). r.0.1 ++ xs) order
            ∙ sym (append_assoc r.0.1 r.0.0.pending (marked ts ++ last))
            ∙ ap (λ (xs : List Bytes). xs ++ (marked ts ++ last)) now
            ∙ append_assoc d.pending ks (marked ts ++ last)
            ∙ ap (λ (xs : List Bytes). d.pending ++ xs) (sym (append_assoc ks (marked ts) last)),
        ended,
      )
