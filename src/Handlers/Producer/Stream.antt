-- ===== src/Handlers/Producer/Stream.antt =====
-- internal/api/grpc/handlers/producer.go: `PublishStream`, which answers each batch of its stream with an
-- ack until the stream ends or something fails.
use futureq_v.Prelude.{ℕ, ◌≡◌, ap, List, [], ◌∷◌, map, Option, none, some, Bool, true, false, arith}
use futureq_v.Prelude.Result.{Result, Error, ok, err, panic, end_of_file, stream_failed}
use futureq_v.Prelude.Method.{M, continue, continue-eq_ok, for_each}
use futureq_v.Bytes.{Bytes}
use futureq_v.Config.{AckLevel}
use futureq_v.Storage.{Db}
use futureq_v.Repository.{Codec}
use futureq_v.Handlers.Producer.{Message, Node, process_batch}

-- pb.PublishBatch
pub record Batch : Type 0 where
  pub messages : List Message
  pub level : AckLevel

-- What `Recv` returns, the wall clock then, and what `Send` returns for the ack.
pub record Turn : Type 0 where
  pub received : Result Batch
  pub now : ℕ
  pub sent : Result (Unit {0})

-- How the stream ends with an error of `Recv`.
abbrev receive_end : Error → Result (Unit {0})
receive_end end_of_file = ok tt
receive_end e = err stream_failed

-- Whether an ack for these messages reports success.
abbrev pub reports : List Message → Bool
reports [] = false
reports (m ∷ ms) = true

-- A frame that arrives, and an ack that is sent.
abbrev pub turn_of : Batch × ℕ → Turn
turn_of (b, now) = record { received = ok b; now = now; sent = ok tt }

module _ {N : Type 0} (process : List Message → ℕ → AckLevel → M N Bool) where
  abbrev Answered : Type 0
  Answered = (N × List Bool) × Option (Result (Unit {0}))

  abbrev with_ack : Bool → Answered → Answered
  with_ack ack ((n, acks), end) = ((n, ack ∷ acks), end)

  abbrev answer : Result (Unit {0}) → N × Result Bool → (N → Answered) → Answered
  answer (ok u) (n, ok ack) rest = with_ack ack (rest n)
  answer (err e) (n, ok ack) rest = ((n, []), some (err stream_failed))
  answer panic (n, ok ack) rest = ((n, []), some panic)
  answer s (n, err e) rest = ((n, []), some (err e))
  answer s (n, panic) rest = ((n, []), some panic)

  abbrev on_frame : Result Batch → ℕ → Result (Unit {0}) → N → (N → Answered) → Answered
  on_frame (ok b) now s n rest = answer s (process b.messages now b.level n) rest
  on_frame (err e) now s n rest = ((n, []), some (receive_end e))
  on_frame panic now s n rest = ((n, []), some panic)

  -- The node, the acks that were sent, and how the stream ended; none while it waits for a frame.
  unfoldable pub publish_stream : List Turn → N → Answered
  publish_stream [] n = ((n, []), none)
  publish_stream (t ∷ ts) n = on_frame t.received t.now t.sent n (publish_stream ts)

  -- ── a stream on which nothing fails ──

  abbrev pub process_one : Batch × ℕ → M N (Unit {0})
  process_one (b, now) n = continue (process b.messages now b.level n) (λ _ n'. (n', ok tt))

  publish_stream-for_each :
      (bs : List (Batch × ℕ)) (n n' : N)
      → ((ms : List Message) (now : ℕ) (l : AckLevel) (s s' : N) (ack : Bool)
          → process ms now l s ≡ (s', ok ack)
          → ack ≡ reports ms)
      → for_each process_one bs n ≡ (n', ok tt)
      → publish_stream (map turn_of bs) n
        ≡ ((n', map (λ (b : Batch × ℕ). reports b.0.messages) bs), none)
  unfolding publish_stream
  publish_stream-for_each [] n n' acks h = ap (λ (r : N × Result (Unit {0})). ((r.0, []), none)) h
  publish_stream-for_each ((b, now) ∷ bs) n n' acks h =
      let (s1, _, h1, h2) = continue-eq_ok (process_one (b, now) n) _ h in
      let (s2, ack, p, q) = continue-eq_ok (process b.messages now b.level n) _ h1 in
      let same : s2 ≡ s1 = cc q in
      rw (p, acks b.messages now b.level n s2 ack p, same)
        (ap (with_ack (reports b.messages)) (publish_stream-for_each bs s1 n' acks h2))

-- ── the handler ──

module _ {D B : Type 0} (db : Db D B) (c : Codec) (bucket_size : ℕ) (min_level : AckLevel)
    (host : Option (Result (ℕ × Bool))) (node : ℕ)
    (propose : AckLevel → Bytes → M (Node D) (Unit {0})) where
  abbrev pub handle : List Message → ℕ → AckLevel → M (Node D) Bool
  handle = process_batch db c bucket_size min_level host node propose

  unfoldable pub publish : List Turn → Node D → (Node D × List Bool) × Option (Result (Unit {0}))
  unfolding publish_stream process_batch
  publish = publish_stream handle

  handle-reports :
      (ms : List Message) (now : ℕ) (l : AckLevel) (n n' : Node D) (ack : Bool)
      → handle ms now l n ≡ (n', ok ack)
      → ack ≡ reports ms
  unfolding process_batch
  handle-reports [] now l n n' ack h = cc
  handle-reports (m ∷ ms) now l n n' ack h = ground arith

  -- Where no frame, no ack and no batch fails, the node ends as if the batches had been processed one
  -- after the other, the client has one ack a batch, in order, which reports success but for an empty
  -- batch, and the stream waits for more.
  pub publish-for_each :
      (bs : List (Batch × ℕ)) (n n' : Node D)
      → for_each (process_one handle) bs n ≡ (n', ok tt)
      → publish (map turn_of bs) n ≡ ((n', map (λ (b : Batch × ℕ). reports b.0.messages) bs), none)
  unfolding publish
  publish-for_each bs n n' h = publish_stream-for_each handle bs n n' handle-reports h
