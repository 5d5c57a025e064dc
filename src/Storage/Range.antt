-- ===== src/Storage/Range.antt =====
-- What a range shows of a store after one entry has been put.
use futureq_v.Prelude.{◌≡◌, refl, ap, ◌∙◌, [], ◌∷◌, true, false, ◌&&◌, Bool-cases, inl, inr, arith}
use futureq_v.Bytes.{Bytes}
use futureq_v.Bytes.Order.{bytes_eq, bytes_eq_iff}
use futureq_v.Storage.{IterOptions, range, at_least, is_below}
use futureq_v.Storage.Content.{Entries, put_entry}

pub range-put_outside :
    (o : IterOptions) (k v : Bytes) (es : Entries)
    → (at_least o.lower_bound k && is_below o.upper_bound k) ≡ false
    → range o (put_entry k v es) ≡ range o es
unfolding range put_entry
range-put_outside o k v [] out = rw out refl
range-put_outside o k v ((j, w) ∷ es) out =
    let same = ap (λ (x : Bytes). at_least o.lower_bound x && is_below o.upper_bound x) in
    elim (Bool-cases (bytes_eq j k)) [
      | inl e ↦ rw (e, out, same ((bytes_eq_iff j k).0 e) ∙ out) refl
      | inr other ↦ ground (arith, range-put_outside o k v es)
    ]

pub range-put_inside :
    (o : IterOptions) (k v : Bytes) (es : Entries)
    → (at_least o.lower_bound k && is_below o.upper_bound k) ≡ true
    → range o es ≡ []
    → range o (put_entry k v es) ≡ (k, v) ∷ []
unfolding range put_entry
range-put_inside o k v [] inside h = rw inside refl
range-put_inside o k v ((j, w) ∷ es) inside h =
    elim (Bool-cases (at_least o.lower_bound j && is_below o.upper_bound j)) [
      | inl found ↦ absurd (cc (rw found at h))
      | inr out ↦ ground (arith, range-put_inside o k v es, bytes_eq_iff j k)
    ]
