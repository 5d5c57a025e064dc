-- ===== src/Bytes/Reader.antt =====
-- Go's io.ReadFull on a reader, whose state is the bytes that are left, and the fixed-width numbers
-- that snapshots hold.
use futureq_v.Prelude.{
  ℕ, zero, suc, ◌+◌, ◌*◌, ◌/◌, ◌%◌, ◌^◌, ◌<◌, ◌≡◌, refl, ap, sym, ◌∙◌, [], ◌∷◌, ◌++◌, if◌then◌else◌,
  ltb, length, take, drop, take-append, drop-append, length-append, arith,
}
use futureq_v.Prelude.Result.{ok, err, end_of_file, unexpected_eof}
use futureq_v.Prelude.Method.{M}
use futureq_v.Bytes.{Bytes}

-- Nothing to read succeeds; else no byte at all is EOF and too few are ErrUnexpectedEOF.
unfoldable pub read_full : ℕ → M Bytes Bytes
read_full zero input = (input, ok [])
read_full (suc n) [] = ([], err end_of_file)
read_full (suc n) (b ∷ bs) =
    if ltb (length bs) n then ([], err unexpected_eof) else (drop n bs, ok (b ∷ take n bs))

unfoldable pub le_bytes : ℕ → ℕ → Bytes
le_bytes zero n = []
le_bytes (suc w) n = (n % 256) ∷ le_bytes w (n / 256)

unfoldable pub le_value : Bytes → ℕ
le_value [] = 0
le_value (b ∷ bs) = b + 256 * le_value bs

pub length-le_bytes : (w n : ℕ) → length (le_bytes w n) ≡ w
unfolding le_bytes
length-le_bytes zero n = refl
length-le_bytes (suc w) n = ap suc (length-le_bytes w (n / 256))

pub le_value-le_bytes : (w n : ℕ) → n < 256 ^ w → le_value (le_bytes w n) ≡ n
unfolding le_bytes le_value
le_value-le_bytes zero n h = omega (arith, (let e : n < 1 = h in e))
le_value-le_bytes (suc w) n h =
    let small : n / 256 < 256 ^ w = grind (arith, h) in
    omega (arith, le_value-le_bytes w (n / 256) small)

-- Reading back a block that was written first.
pub read_full-append : (xs rest : Bytes) → read_full (length xs) (xs ++ rest) ≡ (rest, ok xs)
unfolding read_full
read_full-append [] rest = refl
read_full-append (x ∷ xs) rest =
    ground (arith, length-append xs rest, take-append xs rest, drop-append xs rest)

pub read_full-block :
    (n : ℕ) (xs rest : Bytes) → length xs ≡ n → read_full n (xs ++ rest) ≡ (rest, ok xs)
read_full-block n xs rest h =
    ap (λ (m : ℕ). read_full m (xs ++ rest)) (sym h) ∙ read_full-append xs rest
