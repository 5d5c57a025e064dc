-- ===== src/Bytes/Buffer.antt =====
-- Writing into a preallocated buffer at a position, as the command encoders do.
use futureq_v.Prelude.{
  ℕ, zero, suc, ◌+◌, ◌≡◌, refl, ap, ap₂, ◌∙◌, [], ◌∷◌, ◌++◌, append-nil, arith, length,
  length-append, replicate,
}
use futureq_v.Bytes.{Bytes}

overwrite : Bytes → Bytes → Bytes
overwrite [] src = []
overwrite (x ∷ xs) [] = x ∷ xs
overwrite (x ∷ xs) (y ∷ src) = y ∷ overwrite xs src

-- `copy(out[pos:], src)`: what does not fit is not copied.
unfoldable pub copy_at : Bytes → ℕ → Bytes → Bytes
unfolding overwrite
copy_at out zero src = overwrite out src
copy_at [] (suc pos) src = []
copy_at (x ∷ xs) (suc pos) src = x ∷ copy_at xs pos src

-- `make([]byte, size)`
unfoldable pub make_bytes : ℕ → Bytes
make_bytes size = replicate size 0

overwrite-make_bytes :
    (src : Bytes) (n k : ℕ)
    → n ≡ length src + k
    → overwrite (make_bytes n) src ≡ src ++ make_bytes k
unfolding overwrite make_bytes
overwrite-make_bytes [] zero zero h = refl
overwrite-make_bytes [] zero (suc k) h = absurd (omega arith)
overwrite-make_bytes [] (suc n) zero h = absurd (omega arith)
overwrite-make_bytes [] (suc n) (suc k) h = ap (λ (m : ℕ). 0 ∷ replicate m 0) (omega arith)
overwrite-make_bytes (y ∷ src) zero k h = absurd (omega arith)
overwrite-make_bytes (y ∷ src) (suc n) k h = ap (◌∷◌ y) (overwrite-make_bytes src n k (omega arith))

-- Where the source fits, it takes the place of as many unwritten bytes.
pub copy_at-make_bytes :
    (pre src : Bytes) (n k pos : ℕ)
    → pos ≡ length pre
    → n ≡ length src + k
    → copy_at (pre ++ make_bytes n) pos src ≡ pre ++ src ++ make_bytes k
unfolding copy_at
copy_at-make_bytes [] src n k zero hp hn = overwrite-make_bytes src n k hn
copy_at-make_bytes [] src n k (suc pos) hp hn = absurd (omega arith)
copy_at-make_bytes (x ∷ pre) src n k zero hp hn = absurd (omega arith)
copy_at-make_bytes (x ∷ pre) src n k (suc pos) hp hn =
    ap (◌∷◌ x) (copy_at-make_bytes pre src n k pos (omega arith) hn)

-- The buffer holds `pre` up to the position, and `k` unwritten bytes from there on.
pub record Filled (out : Bytes) (pos : ℕ) (pre : Bytes) (k : ℕ) : Type 0 where
  pub contents : out ≡ pre ++ make_bytes k
  pub position : pos ≡ length pre

pub Filled-cast :
    {out pre pre' : Bytes} {pos k k' : ℕ}
    → pre ≡ pre'
    → k ≡ k'
    → Filled out pos pre k
    → Filled out pos pre' k'
Filled-cast e h f = record {
  contents = f.contents ∙ ap₂ (λ (p : Bytes) (n : ℕ). p ++ make_bytes n) e h;
  position = f.position ∙ ap length e;
}

-- A block that fits is written, and the position moves on by its length.
pub write :
    {out pre : Bytes} {pos : ℕ} (src : Bytes) (pos' n k : ℕ)
    → Filled out pos pre n
    → n ≡ length src + k
    → pos' ≡ pos + length src
    → Filled (copy_at out pos src) pos' (pre ++ src) k
write {pre} {pos} src pos' n k f hn hp = record {
  contents =
      ap (λ (o : Bytes). copy_at o pos src) f.contents
      ∙ copy_at-make_bytes pre src n k pos f.position hn;
  position = hp ∙ omega (arith, f.position, length-append pre src);
}

-- A buffer without unwritten bytes.
pub Filled-full : {out pre : Bytes} {pos : ℕ} → Filled out pos pre 0 → out ≡ pre
unfolding make_bytes
Filled-full {pre} f = f.contents ∙ append-nil pre
