-- ===== src/Storage/Pebble/Walk.antt =====
-- What an iterator of Pebble visits, and that the loop of `Scan` hands that to its function.
use futureq_v.Prelude.{
  ℕ, zero, suc, ◌<◌, ◌≤◌, ◌≡◌, refl, sym, ap, ◌∙◌, [], ◌∷◌, true, false, Bool-cases, inl, inr,
  arith, length, some,
}
use futureq_v.Prelude.Result.{Result, ok}
use futureq_v.Prelude.Method.{M, continue, for_each, continue_assoc, after_yield-continue}
use futureq_v.Bytes.{Bytes}
use futureq_v.Storage.{IterOptions, range}
use futureq_v.Storage.Content.{Entries}
use futureq_v.Storage.Pebble.{scan_loop}
use futureq_v.Storage.Pebble.Engine.{PebbleEngine, has_entry, tail_of, Moves}

length-tail_of :
    (es : Entries) (n : ℕ) → length es < suc n → has_entry es ≡ true → length (tail_of es) < n
length-tail_of [] n h t = cc
length-tail_of (p ∷ es) n h t = omega arith

pub length-range : (o : IterOptions) (es : Entries) → length (range o es) ≤ length es
unfolding range
length-range o [] = omega arith
length-range o ((k, v) ∷ es) = ground (arith, length-range o es)

module _ {T B N C : Type 0} (e : PebbleEngine T B N C) where
  -- The entries up to where the iterator ends, and its error there.
  unfoldable pub walk : ℕ → C → Entries × Result (Unit {0})
  walk zero c = ([], e.error c)
  walk (suc n) c = elim (e.valid c) [
    | true ↦ let (es, r) = walk n (e.next c).0 in ((e.key c, e.value c) ∷ es, r)
    | false ↦ ([], e.error c)
  ]

  -- A move to `es` leaves no more than `es` to visit.
  pub length-Moves :
      (c : C) (es : Entries) → Moves e.rest e.error c es → length (e.rest c) ≤ length es
  length-Moves c es (inl there) = rw there (omega arith)
  length-Moves c es (inr (gone, failed)) = rw gone (omega arith)

  next-length :
      (c : C) (n : ℕ)
      → length (e.rest c) < suc n
      → e.valid c ≡ true
      → length (e.rest (e.next c).0) < n
  next-length c n h v = omega (
    arith,
    length-Moves (e.next c).0 (tail_of (e.rest c)) (e.next_lem c),
    length-tail_of (e.rest c) n h (sym (e.valid_lem c) ∙ v),
  )

  pub scan_loop-walk :
      {S : Type 0} (fuel : ℕ) (yield : Bytes × Bytes → M S (Unit {0})) (c : C) (s : S)
      → length (e.rest c) < fuel
      → scan_loop e fuel yield c s
        ≡ some (continue (for_each yield (walk fuel c).0 s) (λ _ s'. (s', (walk fuel c).1)))
  unfolding scan_loop walk
  scan_loop-walk zero yield c s h = absurd (omega arith)
  scan_loop-walk (suc fuel) yield c s h = elim (Bool-cases (e.valid c)) [
    | inl v ↦
        let again = walk fuel (e.next c).0 in
        rw (scan_loop, walk, v)
          (after_yield-continue (yield (e.key c, e.value c) s) _
              (λ s1. continue (for_each yield again.0 s1) (λ _ s2. (s2, again.1)))
              (λ s1. scan_loop-walk fuel yield (e.next c).0 s1 (next-length c fuel h v))
            ∙ ap some (sym (continue_assoc (yield (e.key c, e.value c) s) _ _)))
    | inr done ↦ rw (scan_loop, walk, done) refl
  ]

  -- With more fuel than there is left to visit, the fuel does not matter.
  pub walk_fuel :
      (n m : ℕ) (c : C) → length (e.rest c) < n → length (e.rest c) < m → walk n c ≡ walk m c
  unfolding walk
  walk_fuel zero m c hn hm = absurd (omega arith)
  walk_fuel (suc n) zero c hn hm = absurd (omega arith)
  walk_fuel (suc n) (suc m) c hn hm = elim (Bool-cases (e.valid c)) [
    | inl v ↦
        rw (walk, v, walk_fuel n m (e.next c).0 (next-length c n hn v) (next-length c m hm v)) refl
    | inr done ↦ rw (walk, done) refl
  ]

  pub walk_done : (n : ℕ) (c : C) → e.rest c ≡ [] → walk n c ≡ ([], e.error c)
  unfolding walk
  walk_done zero c h = refl
  walk_done (suc n) c h = rw (walk, e.valid_lem c ∙ ap has_entry h) refl

  walk_more :
      (n : ℕ) (c : C) (k v : Bytes) (es : Entries)
      → e.rest c ≡ (k, v) ∷ es
      → walk (suc n) c ≡ ((k, v) ∷ (walk n (e.next c).0).0, (walk n (e.next c).0).1)
  unfolding walk
  walk_more n c k v es h =
      let (ek, ev) = e.current_lem c k v es h in
      rw (walk, e.valid_lem c ∙ ap has_entry h, ek, ev) refl

  -- An iterator that ends without an error has visited all that it had left.
  pub walk-rest :
      (es : Entries) (n : ℕ) (c : C)
      → e.rest c ≡ es
      → length es < n
      → (walk n c).1 ≡ ok tt
      → (walk n c).0 ≡ es
  walk-rest [] n c h f r = rw (walk_done n c h) refl
  walk-rest ((k, v) ∷ es) zero c h f r = absurd (omega arith)
  walk-rest ((k, v) ∷ es) (suc n) c h f r =
      let more = walk_more n c k v es h in
      elim (e.next_lem c) [
        | inl there ↦ rw more (
            ap (λ (rest : Entries). (k, v) ∷ rest)
              (walk-rest es n (e.next c).0 (there ∙ ap tail_of h) (omega arith) (rw more at r)))
        | inr (gone, failed) ↦
            absurd (failed (sym (ap (λ w. w.1) (walk_done n (e.next c).0 gone)) ∙ (rw more at r)))
      ]
