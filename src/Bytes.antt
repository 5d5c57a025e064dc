-- ===== src/Bytes.antt =====
-- Byte slices, and the fixed-width integers of encoding/binary. A `[]byte` is a list of numbers
-- below 256; an unsigned integer of w bytes is a number below 256 ^ w.
pub mod Order
pub mod Buffer
pub mod Read
pub mod Reader
use futureq_v.Prelude.{
  ℕ, zero, suc, ◌+◌, ◌*◌, ◌/◌, ◌%◌, ◌^◌, ◌<◌, ◌≡◌, refl, ap, ◌∙◌, List, [], ◌∷◌, ◌++◌, arith,
  length, length-append, All,
}
use native.Mathlib.Nat.{pow-suc}

abbrev pub Bytes : Type 0
Bytes = List ℕ

abbrev pub IsByte : ℕ → Type 0
IsByte b = b < 256

abbrev pub IsU64 : ℕ → Type 0
IsU64 v = v < 2 ^ 64

-- `binary.BigEndian.PutUint16`, `PutUint32` and `PutUint64`, for w = 2, 4 and 8.
unfoldable pub be_bytes : ℕ → ℕ → Bytes
be_bytes zero v = []
be_bytes (suc w) v = be_bytes w (v / 256) ++ (v % 256) ∷ []

abbrev pub be_from : ℕ → Bytes → ℕ
be_from acc [] = acc
be_from acc (b ∷ bs) = be_from (acc * 256 + b) bs

-- `binary.BigEndian.Uint16`, `Uint32` and `Uint64`, of a slice of that many bytes.
unfoldable pub be_value : Bytes → ℕ
be_value bs = be_from 0 bs

be_from-append : (acc : ℕ) (xs ys : Bytes) → be_from acc (xs ++ ys) ≡ be_from (be_from acc xs) ys
be_from-append acc [] ys = refl
be_from-append acc (x ∷ xs) ys = be_from-append (acc * 256 + x) xs ys

pub length-be_bytes : (w v : ℕ) → length (be_bytes w v) ≡ w
unfolding be_bytes
length-be_bytes zero v = refl
length-be_bytes (suc w) v =
    omega
      (arith, length-append (be_bytes w (v / 256)) ((v % 256) ∷ []), length-be_bytes w (v / 256))

pub div-lt-pow : (w v : ℕ) → v < 256 ^ suc w → v / 256 < 256 ^ w
div-lt-pow w v h = omega (arith, pow-suc 256 w)

pub be_value-be_bytes : (w v : ℕ) → v < 256 ^ w → be_value (be_bytes w v) ≡ v
unfolding be_bytes be_value
be_value-be_bytes zero v h = omega arith
be_value-be_bytes (suc w) v h =
    be_from-append 0 (be_bytes w (v / 256)) ((v % 256) ∷ [])
    ∙ omega (arith, be_value-be_bytes w (v / 256) (div-lt-pow w v h))

pub be_value_one : (b : ℕ) → be_value (b ∷ []) ≡ b
unfolding be_value
be_value_one b = omega arith
