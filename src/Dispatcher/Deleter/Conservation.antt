-- ===== src/Dispatcher/Deleter/Conservation.antt =====
-- No key that was marked is lost: it waits, is being flushed, or was deleted.
use futureq_v.Prelude.{
  ℕ, ◌+◌, ◌≡◌, refl, ap, ◌∙◌, List, [], ◌∷◌, ◌++◌, Option, none, some, arith, if◌then◌else◌,
}
use futureq_v.Prelude.Result.{Result, Error, ok, err}
use futureq_v.Bytes.{Bytes}
use futureq_v.Bytes.Order.{bytes_eq}
use futureq_v.Dispatcher.Deleter.{Deleter, mark_deleted, begin_flush, end_flush, take_pending}

abbrev pub count : Bytes → List Bytes → ℕ
count k [] = 0
count k (x ∷ xs) = (if bytes_eq x k then 1 else 0) + count k xs

count-append : (k : Bytes) (xs ys : List Bytes) → count k (xs ++ ys) ≡ count k xs + count k ys
count-append k [] ys = omega arith
count-append k (x ∷ xs) ys = omega (arith, count-append k xs ys)

-- What happens to a deleter: a key is marked, a flush begins, or the backend of a flush returns.
pub data Event : Type 0 where
  mark : Bytes → Event
  begin : Event
  return_ok : Event
  return_err : Error → Event

-- A deleter, and the keys that were deleted so far.
abbrev pub State : Type 0
State = Deleter × List Bytes

-- A flush begins only when none is under way, and only a flush under way can return.
abbrev begin_if_idle : Option (List Bytes) → Deleter → Deleter
begin_if_idle none d = begin_flush d
begin_if_idle (some keys) d = d

abbrev return_if_flushing : Option (List Bytes) → Result (Unit {0}) → State → State
return_if_flushing none r s = s
return_if_flushing (some keys) r (d, deleted) =
    let (d', keys') = end_flush keys r d in (d', deleted ++ keys')

abbrev pub step : Event → State → State
step (mark k) (d, deleted) = (mark_deleted k d, deleted)
step begin (d, deleted) = (begin_if_idle d.flushing d, deleted)
step return_ok (d, deleted) = return_if_flushing d.flushing (ok tt) (d, deleted)
step (return_err e) (d, deleted) = return_if_flushing d.flushing (err e) (d, deleted)

abbrev pub run : List Event → State → State
run [] s = s
run (ev ∷ evs) s = run evs (step ev s)

abbrev pub marks : List Event → List Bytes
marks [] = []
marks (mark k ∷ evs) = k ∷ marks evs
marks (begin ∷ evs) = marks evs
marks (return_ok ∷ evs) = marks evs
marks (return_err e ∷ evs) = marks evs

abbrev pub keys_or_nil : Option (List Bytes) → List Bytes
keys_or_nil none = []
keys_or_nil (some ks) = ks

-- How often a key waits, is being flushed or was deleted.
abbrev pub total : Bytes → State → ℕ
total k (d, deleted) = count k d.pending + count k (keys_or_nil d.flushing) + count k deleted

total-begin :
    (k : Bytes) (ps fs deleted : List Bytes) (d : Deleter)
    → d.pending ≡ ps
    → d.flushing ≡ none
    → total k (take_pending ps d, deleted) ≡ total k (d, deleted)
total-begin k [] fs deleted d hp hf = refl
total-begin k (p ∷ ps) fs deleted d hp hf =
    omega (arith, ap (count k) hp, ap (λ (o : Option (List Bytes)). count k (keys_or_nil o)) hf)

total-return_ok :
    (k : Bytes) (o : Option (List Bytes)) (d : Deleter) (deleted : List Bytes)
    → d.flushing ≡ o
    → total k (return_if_flushing o (ok tt) (d, deleted)) ≡ total k (d, deleted)
unfolding end_flush
total-return_ok k none d deleted h = refl
total-return_ok k (some keys) d deleted h = omega (
  arith,
  count-append k deleted keys,
  ap (λ (o : Option (List Bytes)). count k (keys_or_nil o)) h,
)

total-return_err :
    (k : Bytes) (o : Option (List Bytes)) (e : Error) (d : Deleter) (deleted : List Bytes)
    → d.flushing ≡ o
    → total k (return_if_flushing o (err e) (d, deleted)) ≡ total k (d, deleted)
unfolding end_flush
total-return_err k none e d deleted h = refl
total-return_err k (some keys) e d deleted h = omega (
  arith,
  count-append k deleted [],
  count-append k keys d.pending,
  ap (λ (o : Option (List Bytes)). count k (keys_or_nil o)) h,
)

total-begin_if_idle :
    (k : Bytes) (o : Option (List Bytes)) (d : Deleter) (deleted : List Bytes)
    → d.flushing ≡ o
    → total k (begin_if_idle o d, deleted) ≡ total k (d, deleted)
unfolding begin_flush
total-begin_if_idle k none d deleted h = total-begin k d.pending [] deleted d refl h
total-begin_if_idle k (some keys) d deleted h = refl

total-step :
    (k : Bytes) (ev : Event) (s : State)
    → total k (step ev s) ≡ total k s + count k (marks (ev ∷ []))
unfolding mark_deleted
total-step k (mark x) (d, deleted) = omega (arith, count-append k d.pending (x ∷ []))
total-step k begin (d, deleted) = total-begin_if_idle k d.flushing d deleted refl ∙ omega arith
total-step k return_ok (d, deleted) = total-return_ok k d.flushing d deleted refl ∙ omega arith
total-step k (return_err e) (d, deleted) =
    total-return_err k d.flushing e d deleted refl ∙ omega arith

marks-cons :
    (k : Bytes) (ev : Event) (evs : List Event)
    → count k (marks (ev ∷ evs)) ≡ count k (marks (ev ∷ [])) + count k (marks evs)
marks-cons k (mark x) evs = omega arith
marks-cons k begin evs = omega arith
marks-cons k return_ok evs = omega arith
marks-cons k (return_err e) evs = omega arith

-- In every order of calls, flushes and their results, a key that was marked is waiting, being
-- flushed or deleted, as often as it was marked: none is lost and none made up.
pub total-run :
    (k : Bytes) (evs : List Event) (s : State)
    → total k (run evs s) ≡ total k s + count k (marks evs)
total-run k [] s = omega arith
total-run k (ev ∷ evs) s =
    omega (arith, total-run k evs (step ev s), total-step k ev s, marks-cons k ev evs)

-- Flushes after which no key is left waiting have deleted every key that was marked.
all_deleted :
    (k : Bytes) (evs : List Event) (d : Deleter) (deleted : List Bytes)
    → run evs (record { pending = []; flushing = none }, []) ≡ (d, deleted)
    → d.pending ≡ []
    → d.flushing ≡ none
    → count k deleted ≡ count k (marks evs)
all_deleted k evs d deleted h hp hf = omega (
  arith,
  total-run k evs (record { pending = []; flushing = none }, []),
  ap (total k) h,
  ap (count k) hp,
  ap (λ (o : Option (List Bytes)). count k (keys_or_nil o)) hf,
)
