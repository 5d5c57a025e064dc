-- ===== src/Storage/Pebble/Handles.antt =====
-- The Pebble adapter releases each snapshot and iterator that it opens.
use futureq_v.Prelude.{ℕ, ◌+◌, ◌-◌, ◌≡◌, ◌≢◌, refl, sym, ap, ◌∙◌, Option, none, some, arith}
use futureq_v.Prelude.Result.{Result, ok, err, panic, Error}
use futureq_v.Prelude.Method.{M}
use futureq_v.Bytes.{Bytes}
use futureq_v.Storage.{IterOptions}
use futureq_v.Storage.Pebble.{
  PebbleIterator, opened, new_iter, iter_close, scan_loop, release, scan_opened, scan,
}
use futureq_v.Storage.Pebble.Engine.{PebbleEngine}

module _ {T B N C : Type 0} (e : PebbleEngine T B N C) where
  release-handles :
      {S : Type 0} (snap : N) (c : C) (t t' : T) (o : Option (S × Result (Unit {0}))) (s' : S)
      (r : Result (Unit {0}))
      → release e snap c t o ≡ some (t', s', r)
      → e.handles t' ≡ e.handles t - 2
  release-handles snap c t t' none s' r h = cc
  release-handles snap c t t' (some (s, x)) s' r h =
      let same : (e.close_snapshot snap (e.close_iter c t).0).0 ≡ t' = ground arith in
      omega (
        arith,
        ap e.handles same,
        e.close_iter_handles c t,
        e.close_snapshot_handles snap (e.close_iter c t).0,
      )

  not_opened :
      (t : T) (n : N) (o : Option IterOptions) (t1 : T) (r : Result C)
      → e.new_iter o n t ≡ (t1, r)
      → ((c : C) → r ≢ ok c)
      → e.handles (e.close_snapshot n t1).0 ≡ e.handles t - 1
  not_opened t n o t1 r h bad =
      let same : (e.new_iter o n t).0 ≡ t1 = ap (λ (x : T × Result C). x.0) h in
      omega (
        arith,
        ap e.handles same,
        e.close_snapshot_handles n t1,
        e.new_iter_failed o n t (λ c k. bad c (sym (ap (λ (x : T × Result C). x.1) h) ∙ k)),
      )

  scan_opened-handles :
      {S : Type 0} (fuel : ℕ) (yield : Bytes × Bytes → M S (Unit {0})) (o : Option IterOptions)
      (n : N) (t t' : T) (q : T × Result C) (s s' : S) (r : Result (Unit {0}))
      → e.new_iter o n t ≡ q
      → scan_opened e fuel yield n q s ≡ some (t', s', r)
      → e.handles t' ≡ e.handles t - 1
  scan_opened-handles fuel yield o n t t' (t1, ok c) s s' r h k = omega (
    arith,
    e.new_iter_handles o n t t1 c h,
    release-handles n c t1 t' (scan_loop e fuel yield (e.first c).0 s) s' r k,
  )
  scan_opened-handles fuel yield o n t t' (t1, err x) s s' r h k =
      let same : (e.close_snapshot n t1).0 ≡ t' = ground arith in
      omega (arith, ap e.handles same, not_opened t n o t1 (err x) h (λ c b. cc))
  scan_opened-handles fuel yield o n t t' (t1, panic) s s' r h k =
      let same : (e.close_snapshot n t1).0 ≡ t' = ground arith in
      omega (arith, ap e.handles same, not_opened t n o t1 panic h (λ c b. cc))

  -- A scan that ends, however it ends, has as many snapshots and iterators open as before: also where
  -- the iterator cannot be opened, and where the function fails or panics.
  pub scan-handles :
      {S : Type 0} (fuel : ℕ) (o : Option IterOptions) (yield : Bytes × Bytes → M S (Unit {0}))
      (t t' : T) (s s' : S) (r : Result (Unit {0}))
      → scan e fuel o yield t s ≡ some (t', s', r)
      → e.handles t' ≡ e.handles t
  unfolding scan
  scan-handles fuel o yield t t' s s' r h = omega (
    arith,
    e.snapshot_handles t,
    scan_opened-handles fuel yield o (e.new_snapshot t).1 (e.new_snapshot t).0 t' _ s s' r refl h,
  )

  opened-handles :
      (o : Option IterOptions) (n : N) (t t' : T) (q : T × Result C) (x : Error)
      → e.new_iter o n t ≡ q
      → opened e n q ≡ (t', err x)
      → e.handles t' ≡ e.handles t - 1
  opened-handles o n t t' (t1, ok c) x h k = cc
  opened-handles o n t t' (t1, panic) x h k = cc
  opened-handles o n t t' (t1, err y) x h k =
      let same : (e.close_snapshot n t1).0 ≡ t' = ground arith in
      omega (arith, ap e.handles same, not_opened t n o t1 (err y) h (λ c b. cc))

  -- A `NewIter` that fails leaves as many open as before.
  new_iter_failed-handles :
      (o : Option IterOptions) (t t' : T) (x : Error)
      → new_iter e o t ≡ (t', err x)
      → e.handles t' ≡ e.handles t
  unfolding new_iter
  new_iter_failed-handles o t t' x h = omega (
    arith,
    e.snapshot_handles t,
    opened-handles o (e.new_snapshot t).1 (e.new_snapshot t).0 t' _ x refl h,
  )

  opened_ok-handles :
      (o : Option IterOptions) (n : N) (t t' : T) (q : T × Result C) (pi : PebbleIterator N C)
      → e.new_iter o n t ≡ q
      → opened e n q ≡ (t', ok pi)
      → e.handles t' ≡ e.handles t + 1
  opened_ok-handles o n t t' (t1, err x) pi h k = cc
  opened_ok-handles o n t t' (t1, panic) pi h k = cc
  opened_ok-handles o n t t' (t1, ok c) pi h k =
      let same : t1 ≡ t' = ground arith in
      omega (arith, ap e.handles same, e.new_iter_handles o n t t1 c h)

  -- An iterator that was opened and is closed leaves as many open as before, whatever errors the two
  -- calls of its Close return.
  pub new_iter-iter_close :
      (o : Option IterOptions) (t t1 : T) (pi : PebbleIterator N C)
      → new_iter e o t ≡ (t1, ok pi)
      → e.handles (iter_close e pi t1).0 ≡ e.handles t
  unfolding new_iter iter_close
  new_iter-iter_close o t t1 pi h = omega (
    arith,
    e.snapshot_handles t,
    opened_ok-handles o (e.new_snapshot t).1 (e.new_snapshot t).0 t1 _ pi refl h,
    e.close_iter_handles pi.iter t1,
    e.close_snapshot_handles pi.snap (e.close_iter pi.iter t1).0,
  )
