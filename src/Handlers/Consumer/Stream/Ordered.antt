-- ===== src/Handlers/Consumer/Stream/Ordered.antt =====
-- The messages of a stream reach its consumer in the order in which the hub accepted them.
use futureq_v.Prelude.{
  ◌⊎◌, ◌≢◌, inl, inr, ◌&&◌, ℕ, ◌≡◌, refl, sym, ap, ◌∙◌, List, [], ◌∷◌, ◌++◌, append_assoc,
  append-nil, Option, none, some, Option-cases, ◌==◌, if◌then◌else◌, arith, ltb,
}
use futureq_v.Prelude.Result.{Result, ok, err, panic}
use futureq_v.Bytes.{Bytes}
use futureq_v.Dispatcher.Hub.{ConsumerEntry, QueueMessage, Hub, remove_in_flight_for_consumer}
use futureq_v.Dispatcher.Hub.Send.{queued, try_send}
use futureq_v.Handlers.Consumer.{ConsumerFrame, receive}
use futureq_v.Handlers.Consumer.Stream.{
  Event, frame, push, done, offer, Stream, take_first, send_taken, step, stream,
}

-- What waits in a channel.
unfoldable pub waiting : ℕ → List (ℕ × QueueMessage) → List QueueMessage
waiting ch [] = []
waiting ch ((c, m) ∷ rest) = if c == ch then m ∷ waiting ch rest else waiting ch rest

waiting-append :
    (ch : ℕ) (xs ys : List (ℕ × QueueMessage))
    → waiting ch (xs ++ ys) ≡ waiting ch xs ++ waiting ch ys
unfolding waiting
waiting-append ch [] ys = refl
waiting-append ch ((c, m) ∷ xs) ys = ground (arith, waiting-append ch xs ys)

take_first-waiting :
    (ch : ℕ) (bs rest : List (ℕ × QueueMessage)) (m : QueueMessage)
    → take_first ch bs ≡ some (m, rest)
    → waiting ch bs ≡ m ∷ waiting ch rest
unfolding waiting take_first
take_first-waiting ch [] rest m h = cc
take_first-waiting ch ((c, x) ∷ bs) rest m h = elim (Option-cases (take_first ch bs)) [
  | inl nothing ↦ ground arith
  | inr (first, e) ↦ ground (arith, take_first-waiting ch bs first.1 first.0)
]

receive-buffers :
    (id : Bytes) (f : ConsumerFrame) (s : Stream)
    → (receive id f s.dispatcher).hub.buffers ≡ s.dispatcher.hub.buffers
unfolding receive remove_in_flight_for_consumer
receive-buffers id f s = ground arith

-- What the hub accepts for the channel in one event.
abbrev pub taken : ℕ → Event → Stream → List QueueMessage
taken ch (offer capacity c msg tag) s =
    if ltb (queued c.ch s.dispatcher.hub.buffers) capacity && c.ch == ch then msg ∷ [] else []
taken ch _ s = []

-- What it accepts before the stream ends.
unfoldable pub accepted : (id : Bytes) (ch : ℕ) → List Event → Stream → List QueueMessage
accepted id ch [] s = []
accepted id ch (ev ∷ evs) s = elim s.ended [
  | some r ↦ []
  | none ↦ taken ch ev s ++ accepted id ch evs (step id ch ev s)
]

abbrev pub carried : ℕ → Stream → List QueueMessage
carried ch s = s.sent ++ s.unsent ++ waiting ch s.dispatcher.hub.buffers

offered :
    (ch capacity : ℕ) (c : ConsumerEntry) (msg : QueueMessage) (tag : Bytes) (h : Hub)
    → waiting ch (try_send capacity c msg tag h).0.buffers
      ≡ waiting ch h.buffers
        ++ (if ltb (queued c.ch h.buffers) capacity && c.ch == ch then msg ∷ [] else [])
unfolding try_send waiting
offered ch capacity c msg tag h =
    ground
      (arith, waiting-append ch h.buffers ((c.ch, msg) ∷ []), append-nil (waiting ch h.buffers))

pushed :
    (ch : ℕ) (o : Option (QueueMessage × List (ℕ × QueueMessage))) (r : Result (Unit {0}))
    (s : Stream)
    → take_first ch s.dispatcher.hub.buffers ≡ o
    → s.unsent ≡ []
    → carried ch (send_taken o r s) ≡ carried ch s
pushed ch none r s e u = refl
pushed ch (some (m, rest)) (ok x) s e u =
    rw
      (
        u,
        take_first-waiting ch s.dispatcher.hub.buffers rest m e,
        append-nil (s.sent ++ (m ∷ [])),
        append-nil s.sent,
      )
      (append_assoc s.sent (m ∷ []) (waiting ch rest))
pushed ch (some (m, rest)) (err x) s e u =
    rw (u, take_first-waiting ch s.dispatcher.hub.buffers rest m e, append-nil s.sent)
      (append_assoc s.sent (m ∷ []) (waiting ch rest))
pushed ch (some (m, rest)) panic s e u =
    rw (u, take_first-waiting ch s.dispatcher.hub.buffers rest m e, append-nil s.sent)
      (append_assoc s.sent (m ∷ []) (waiting ch rest))

step-carried :
    (id : Bytes) (ch : ℕ) (ev : Event) (s : Stream)
    → s.unsent ≡ []
    → carried ch (step id ch ev s) ≡ carried ch s ++ taken ch ev s
unfolding step
step-carried id ch (frame (ok f)) s u =
    rw (receive-buffers id f s) (sym (append-nil (carried ch s)))
step-carried id ch (frame (err e)) s u = sym (append-nil (carried ch s))
step-carried id ch (frame panic) s u = sym (append-nil (carried ch s))
step-carried id ch (push r) s u =
    pushed ch (take_first ch s.dispatcher.hub.buffers) r s refl u ∙ sym (append-nil (carried ch s))
step-carried id ch (done e) s u = sym (append-nil (carried ch s))
step-carried id ch (offer capacity c msg tag) s u =
    rw (offered ch capacity c msg tag s.dispatcher.hub) (
      sym (
        append_assoc (s.sent ++ s.unsent) (waiting ch s.dispatcher.hub.buffers)
          (taken ch (offer capacity c msg tag) s)))

pushed_unsent :
    (o : Option (QueueMessage × List (ℕ × QueueMessage))) (r : Result (Unit {0})) (s : Stream)
    → s.unsent ≡ []
    → (send_taken o r s).ended ≡ none
    → (send_taken o r s).unsent ≡ []
pushed_unsent none r s u h = u
pushed_unsent (some (m, rest)) (ok x) s u h = u
pushed_unsent (some (m, rest)) (err x) s u h = cc
pushed_unsent (some (m, rest)) panic s u h = cc

step-unsent :
    (id : Bytes) (ch : ℕ) (ev : Event) (s : Stream)
    → s.unsent ≡ []
    → (step id ch ev s).ended ≡ none
    → (step id ch ev s).unsent ≡ []
unfolding step
step-unsent id ch (frame (ok f)) s u h = u
step-unsent id ch (frame (err e)) s u h = u
step-unsent id ch (frame panic) s u h = u
step-unsent id ch (push r) s u h = pushed_unsent (take_first ch s.dispatcher.hub.buffers) r s u h
step-unsent id ch (done e) s u h = u
step-unsent id ch (offer capacity c msg tag) s u h = u

stream-carried :
    (evs : List Event) (id : Bytes) (ch : ℕ) (s : Stream)
    → (s.ended ≡ none → s.unsent ≡ [])
    → carried ch (stream id ch evs s) ≡ carried ch s ++ accepted id ch evs s
unfolding stream accepted
stream-carried [] id ch s u = sym (append-nil (carried ch s))
stream-carried (ev ∷ evs) id ch s u = elim (Option-cases s.ended) [
  | inr (r, h) ↦ simp (stream, accepted, h) (sym (append-nil (carried ch s)))
  | inl alive ↦
      simp (stream, accepted, alive)
        (stream-carried evs id ch (step id ch ev s) (step-unsent id ch ev s (u alive))
          ∙ ap (λ (ms : List QueueMessage). ms ++ accepted id ch evs (step id ch ev s))
              (step-carried id ch ev s (u alive))
          ∙ append_assoc (carried ch s) (taken ch ev s) (accepted id ch evs (step id ch ev s)))
]

-- No `Send` has failed, or one has: the last one, which ended the stream.
abbrev pub LastFailed : Stream → Type 0
LastFailed s =
    (s.unsent ≡ [])
    ⊎ ((m : QueueMessage) × (r : Result (Unit {0})) × (s.unsent ≡ m ∷ [])
        × (s.ended ≡ some r)
        × (r ≢ ok tt))

pushed-LastFailed :
    (o : Option (QueueMessage × List (ℕ × QueueMessage))) (r : Result (Unit {0})) (s : Stream)
    → s.unsent ≡ []
    → LastFailed (send_taken o r s)
pushed-LastFailed none r s u = inl u
pushed-LastFailed (some (m, rest)) (ok x) s u = inl u
pushed-LastFailed (some (m, rest)) (err x) s u =
    inr (m, err x, ap (λ (ms : List QueueMessage). ms ++ (m ∷ [])) u, refl, λ e. cc)
pushed-LastFailed (some (m, rest)) panic s u =
    inr (m, panic, ap (λ (ms : List QueueMessage). ms ++ (m ∷ [])) u, refl, λ e. cc)

step-LastFailed :
    (id : Bytes) (ch : ℕ) (ev : Event) (s : Stream) → s.unsent ≡ [] → LastFailed (step id ch ev s)
unfolding step
step-LastFailed id ch (frame (ok f)) s u = inl u
step-LastFailed id ch (frame (err e)) s u = inl u
step-LastFailed id ch (frame panic) s u = inl u
step-LastFailed id ch (push r) s u =
    pushed-LastFailed (take_first ch s.dispatcher.hub.buffers) r s u
step-LastFailed id ch (done e) s u = inl u
step-LastFailed id ch (offer capacity c msg tag) s u = inl u

LastFailed-alive : (s : Stream) → LastFailed s → s.ended ≡ none → s.unsent ≡ []
LastFailed-alive s (inl u) alive = u
LastFailed-alive s (inr (m, r, u, ended, bad)) alive = cc

stream-LastFailed :
    (evs : List Event) (id : Bytes) (ch : ℕ) (s : Stream)
    → LastFailed s
    → LastFailed (stream id ch evs s)
unfolding stream
stream-LastFailed [] id ch s l = l
stream-LastFailed (ev ∷ evs) id ch s l = elim (Option-cases s.ended) [
  | inr (r, h) ↦ simp (stream, h) (rw h at l)
  | inl alive ↦
      simp (stream, alive)
        (stream-LastFailed evs id ch (step id ch ev s)
          (step-LastFailed id ch ev s (LastFailed-alive s l alive)))
]

-- The messages that `Send` was called with, and behind them those that wait in the channel, are, after
-- any events, what waited at first and what the hub accepted for the channel up to the end of the
-- stream, in order and each once. The frames of the client change nothing of it, and at most one
-- `Send` has failed: the last one, with which the stream ended.
pub stream_order :
    (evs : List Event) (id : Bytes) (ch : ℕ) (s : Stream)
    → s.unsent ≡ []
    → (carried ch (stream id ch evs s) ≡ carried ch s ++ accepted id ch evs s)
      × LastFailed (stream id ch evs s)
stream_order evs id ch s u =
    (stream-carried evs id ch s (λ _. u), stream-LastFailed evs id ch s (inl u))
