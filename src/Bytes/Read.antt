-- ===== src/Bytes/Read.antt =====
-- Reading by position the fields of a buffer that is known to be a sequence of blocks.
use futureq_v.Prelude.{
  ℕ, ◌+◌, ◌^◌, ◌<◌, ◌≡◌, ap, ◌∙◌, ◌++◌, arith, length, length-append, slice, slice-middle, true,
  leb,
}
use futureq_v.Bytes.{Bytes, be_bytes, be_value, length-be_bytes, be_value-be_bytes}

module _ (xs pre mid post : Bytes) (layout : xs ≡ pre ++ mid ++ post) where
  pub read_block : (i j : ℕ) → i ≡ length pre → j ≡ i + length mid → slice xs i j ≡ mid
  read_block i j hi hj =
      ap (λ (ys : Bytes). slice ys i j) layout ∙ slice-middle pre mid post i j hi (omega arith)

  pub block_fits : (i : ℕ) → i ≡ length pre + length mid → leb i (length xs) ≡ true
  block_fits i hi =
      ground (arith, ap length layout, length-append (pre ++ mid) post, length-append pre mid)

-- A fixed-width number, and that it lies within the buffer.
pub read_number :
    (xs pre post : Bytes) (w v i j : ℕ)
    → xs ≡ pre ++ be_bytes w v ++ post
    → v < 256 ^ w
    → i ≡ length pre
    → j ≡ i + w
    → (be_value (slice xs i j) ≡ v) × (leb j (length xs) ≡ true)
read_number xs pre post w v i j layout hv hi hj = (
  ap be_value
        (read_block xs pre (be_bytes w v) post layout i j hi (omega (arith, length-be_bytes w v)))
      ∙ be_value-be_bytes w v hv,
  block_fits xs pre (be_bytes w v) post layout j (omega (arith, length-be_bytes w v)),
)
