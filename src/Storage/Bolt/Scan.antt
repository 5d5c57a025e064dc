-- ===== src/Storage/Bolt/Scan.antt =====
-- The two ways to walk a range in the bbolt adapter, `Scan` and the iterator, visit the same entries.
use futureq_v.Prelude.{
  ℕ, zero, suc, ◌<◌, ◌≤◌, ◌≡◌, refl, sym, ap, ◌∙◌, [], ◌∷◌, Option, none, some, true, false,
  Bool-cases, inl, inr, arith, if◌then◌else◌, length,
}
use futureq_v.Prelude.Method.{M, for_each, after_yield-continue}
use futureq_v.Bytes.{Bytes}
use futureq_v.Bytes.Order.{bytes_lt, bytes_lt_trans}
use futureq_v.Storage.{IterOptions, range, at_least, is_below}
use futureq_v.Storage.Content.{Entries, IsSorted, Above}
use futureq_v.Storage.Bolt.{start, scan_loop, scan}
use futureq_v.Storage.Bolt.Engine.{BoltEngine, entries_from, first_entry, later_entries}

-- The entries up to the first key that is not below the upper bound.
take_below : Option Bytes → Entries → Entries
take_below hi [] = []
take_below hi ((k, v) ∷ es) = if is_below hi k then (k, v) ∷ take_below hi es else []

from : Option Bytes → Entries → Entries
from none es = es
from (some lo) es = entries_from lo es

Above-IsSorted' : (k : Bytes) (es : Entries) → Above k es → IsSorted es
Above-IsSorted' k [] h = tt
Above-IsSorted' k ((j, w) ∷ es) h = h.1

-- Past a key that is not below the bound there is none that is.
range_none :
    (o : IterOptions) (hi k : Bytes) (es : Entries)
    → o.upper_bound ≡ some hi
    → bytes_lt k hi ≡ false
    → Above k es
    → range o es ≡ []
unfolding range
range_none o hi k [] ho h a = refl
range_none o hi k ((j, w) ∷ es) ho h a = ground (arith, bytes_lt_trans k j hi, range_none o hi j es)

at_least_mono :
    (lo : Option Bytes) (k j : Bytes)
    → bytes_lt k j ≡ true
    → at_least lo k ≡ true
    → at_least lo j ≡ true
at_least_mono none k j h l = refl
at_least_mono (some lo) k j h l = ground (arith, bytes_lt_trans k j lo)

abbrev bounds : Option Bytes → Option Bytes → IterOptions
bounds lo hi = record { lower_bound = lo; upper_bound = hi }

not_below :
    (hi : Option Bytes) (k : Bytes)
    → is_below hi k ≡ false
    → (h : Bytes) × (hi ≡ some h) × (bytes_lt k h ≡ false)
not_below none k e = cc
not_below (some h) k e = (h, refl, e)

-- Above a key that is at least the lower bound, the range is what lies below the upper bound.
range-take_below :
    (lo hi : Option Bytes) (k : Bytes) (es : Entries)
    → at_least lo k ≡ true
    → Above k es
    → range (bounds lo hi) es ≡ take_below hi es
unfolding range take_below
range-take_below lo hi k [] h a = refl
range-take_below lo hi k ((j, w) ∷ es) h a = elim (Bool-cases (is_below hi j)) [
  | inl yes_below ↦ ground (arith, at_least_mono lo k j, range-take_below lo hi j es)
  | inr past ↦
      let (b, eb, hb) = not_below hi j past in
      ground (arith, range_none (bounds lo hi) b j es eb hb a.1)
]

range-cons :
    (lo hi : Option Bytes) (k v : Bytes) (es : Entries)
    → at_least lo k ≡ true
    → Above k es
    → range (bounds lo hi) ((k, v) ∷ es) ≡ take_below hi ((k, v) ∷ es)
unfolding range take_below
range-cons lo hi k v es h a = elim (Bool-cases (is_below hi k)) [
  | inl yes_below ↦ ground (arith, range-take_below lo hi k es)
  | inr past ↦
      let (b, eb, hb) = not_below hi k past in
      ground (arith, range_none (bounds lo hi) b k es eb hb a)
]

range-from :
    (lo hi : Option Bytes) (es : Entries)
    → IsSorted es
    → range (bounds lo hi) es ≡ take_below hi (from lo es)
unfolding range take_below from entries_from
range-from none hi [] h = refl
range-from none hi ((k, v) ∷ es) h = range-cons none hi k v es refl h
range-from (some lo) hi [] h = refl
range-from (some lo) hi ((k, v) ∷ es) h = elim (Bool-cases (bytes_lt k lo)) [
  | inl low ↦ ground (arith, Above-IsSorted' k es h, range-from (some lo) hi es)
  | inr high ↦ ground (arith, range-cons (some lo) hi k v es)
]

module _ {T C : Type 0} (e : BoltEngine T C) where
  scan_loop_lem :
      {S : Type 0} (fuel : ℕ) (upper : Option Bytes) (yield : Bytes × Bytes → M S (Unit {0}))
      (c : C) (es : Entries) (s : S)
      → e.rest c ≡ es
      → length es < fuel
      → scan_loop e fuel upper yield c s ≡ some (for_each yield (take_below upper es) s)
  unfolding scan_loop take_below
  scan_loop_lem zero upper yield c es s hr hf = absurd (omega arith)
  scan_loop_lem (suc fuel) upper yield c [] s hr hf =
      rw (e.current_lem c ∙ ap first_entry hr, scan_loop)
  scan_loop_lem (suc fuel) upper yield c ((k, v) ∷ es) s hr hf =
      elim (Bool-cases (is_below upper k)) [
        | inl yes_below ↦
            rw (e.current_lem c ∙ ap first_entry hr, scan_loop, yes_below)
              (after_yield-continue (yield (k, v) s) _ (for_each yield (take_below upper es)) (λ s'.
                scan_loop_lem fuel upper yield (e.next c) es s' (e.next_lem c ∙ ap later_entries hr)
                  (omega arith)))
        | inr past ↦ rw (e.current_lem c ∙ ap first_entry hr, scan_loop, past)
      ]

  start-from :
      (lo : Option Bytes) (t : T) → e.rest (start e lo (e.cursor t)) ≡ from lo (e.entries t)
  unfolding start from
  start-from none t = e.first_lem _ ∙ e.cursor_lem t
  start-from (some lo) t = e.seek_lem _ lo ∙ ap (entries_from lo) (e.cursor_lem t)

  length-from : (lo : Option Bytes) (es : Entries) → length (from lo es) ≤ length es
  unfolding from entries_from
  length-from none es = omega arith
  length-from (some lo) [] = omega arith
  length-from (some lo) ((k, v) ∷ es) = ground (arith, length-from (some lo) es)

  -- On a bucket that exists, with more fuel than it has entries, a scan ends; it hands exactly the
  -- entries of the range to `yield`, in order, and stops at the first error.
  pub scan-range :
      {S : Type 0} (fuel : ℕ) (o : IterOptions) (yield : Bytes × Bytes → M S (Unit {0})) (t : T)
      (s : S)
      → length (e.entries t) < fuel
      → scan e fuel o yield (record { bucket = some t }) s
        ≡ some (for_each yield (range o (e.entries t)) s)
  unfolding scan
  scan-range fuel o yield t s h =
      scan_loop_lem fuel o.upper_bound yield _ (from o.lower_bound (e.entries t)) s
        (start-from o.lower_bound t) (omega (arith, length-from o.lower_bound (e.entries t)))
      ∙ ap (λ (es : Entries). some (for_each yield es s))
          (sym (range-from o.lower_bound o.upper_bound (e.entries t) (e.sorted t)))
