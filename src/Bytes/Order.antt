-- ===== src/Bytes/Order.antt =====
-- The byte-wise order of keys, and that big-endian encodings keep the order of numbers.
use futureq_v.Prelude.{
  ℕ, zero, suc, ◌/◌, ◌%◌, ◌^◌, ◌<◌, ◌≡◌, refl, ap, ◌∙◌, [], ◌∷◌, ◌++◌, arith, length, Bool, true,
  false, ltb, ◌==◌, ◌&&◌, ◌↔◌, if◌then◌else◌,
}
use futureq_v.Bytes.{Bytes, be_bytes, length-be_bytes, div-lt-pow}

-- `bytes.Compare(a, b) < 0`
unfoldable pub bytes_lt : Bytes → Bytes → Bool
bytes_lt xs [] = false
bytes_lt [] (y ∷ ys) = true
bytes_lt (x ∷ xs) (y ∷ ys) = if ltb x y then true else if ltb y x then false else bytes_lt xs ys

pub bytes_lt-nil : (xs : Bytes) → bytes_lt xs [] ≡ false
unfolding bytes_lt
bytes_lt-nil [] = refl
bytes_lt-nil (x ∷ xs) = refl

-- On blocks of one length the first block that differs decides.
pub bytes_lt-append :
    (xs ys us vs : Bytes)
    → length xs ≡ length ys
    → bytes_lt (xs ++ us) (ys ++ vs)
      ≡ (if bytes_lt xs ys then true else if bytes_lt ys xs then false else bytes_lt us vs)
unfolding bytes_lt
bytes_lt-append [] [] us vs h = refl
bytes_lt-append [] (y ∷ ys) us vs h = absurd (omega arith)
bytes_lt-append (x ∷ xs) [] us vs h = absurd (omega arith)
bytes_lt-append (x ∷ xs) (y ∷ ys) us vs h =
    ground (arith, bytes_lt-append xs ys us vs (omega arith))

pub bytes_lt-be_bytes :
    (w a b : ℕ) → a < 256 ^ w → b < 256 ^ w → bytes_lt (be_bytes w a) (be_bytes w b) ≡ ltb a b
unfolding be_bytes bytes_lt
bytes_lt-be_bytes zero a b ha hb = ground arith
bytes_lt-be_bytes (suc w) a b ha hb =
    bytes_lt-append (be_bytes w (a / 256)) (be_bytes w (b / 256)) ((a % 256) ∷ []) ((b % 256) ∷ [])
      (length-be_bytes w (a / 256) ∙ ap (λ x. x) (omega (arith, length-be_bytes w (b / 256))))
    ∙ ground (
      arith,
      bytes_lt-be_bytes w (a / 256) (b / 256) (div-lt-pow w a ha) (div-lt-pow w b hb),
      bytes_lt-be_bytes w (b / 256) (a / 256) (div-lt-pow w b hb) (div-lt-pow w a ha),
    )

-- Equality of two slices or strings, `bytes.Equal` and `==`.
unfoldable pub bytes_eq : Bytes → Bytes → Bool
bytes_eq [] [] = true
bytes_eq (x ∷ xs) (y ∷ ys) = (x == y) && bytes_eq xs ys
bytes_eq _ _ = false

pub bytes_eq_refl : (xs : Bytes) → bytes_eq xs xs ≡ true
unfolding bytes_eq
bytes_eq_refl [] = refl
bytes_eq_refl (x ∷ xs) = ground (arith, bytes_eq_refl xs)

pub bytes_eq→eq : (xs ys : Bytes) → bytes_eq xs ys ≡ true → xs ≡ ys
unfolding bytes_eq
bytes_eq→eq [] [] h = refl
bytes_eq→eq [] (y ∷ ys) h = cc
bytes_eq→eq (x ∷ xs) [] h = cc
bytes_eq→eq (x ∷ xs) (y ∷ ys) h = ground (arith, bytes_eq→eq xs ys)

pub bytes_eq_iff : (xs ys : Bytes) → (bytes_eq xs ys ≡ true) ↔ (xs ≡ ys)
bytes_eq_iff xs ys = (bytes_eq→eq xs ys, λ e. rw e (bytes_eq_refl ys))

-- The order is strict and total.
pub bytes_lt_irrefl : (xs : Bytes) → bytes_lt xs xs ≡ false
unfolding bytes_lt
bytes_lt_irrefl [] = refl
bytes_lt_irrefl (x ∷ xs) = ground (arith, bytes_lt_irrefl xs)

pub bytes_lt_asymm : (xs ys : Bytes) → bytes_lt xs ys ≡ true → bytes_lt ys xs ≡ false
unfolding bytes_lt
bytes_lt_asymm [] [] h = refl
bytes_lt_asymm [] (y ∷ ys) h = refl
bytes_lt_asymm (x ∷ xs) [] h = cc
bytes_lt_asymm (x ∷ xs) (y ∷ ys) h = ground (arith, bytes_lt_asymm xs ys)

pub bytes_lt_trans :
    (xs ys zs : Bytes) → bytes_lt xs ys ≡ true → bytes_lt ys zs ≡ true → bytes_lt xs zs ≡ true
unfolding bytes_lt
bytes_lt_trans xs ys [] h k = cc
bytes_lt_trans xs [] (z ∷ zs) h k = cc
bytes_lt_trans [] (y ∷ ys) (z ∷ zs) h k = refl
bytes_lt_trans (x ∷ xs) (y ∷ ys) (z ∷ zs) h k = ground (arith, bytes_lt_trans xs ys zs)

pub bytes_lt_total : (xs ys : Bytes) → bytes_lt xs ys ≡ false → bytes_lt ys xs ≡ false → xs ≡ ys
unfolding bytes_lt
bytes_lt_total [] [] h k = refl
bytes_lt_total [] (y ∷ ys) h k = cc
bytes_lt_total (x ∷ xs) [] h k = cc
bytes_lt_total (x ∷ xs) (y ∷ ys) h k = ground (arith, bytes_lt_total xs ys)
