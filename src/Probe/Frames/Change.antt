-- ===== src/Probe/Frames/Change.antt =====
-- The frame hash of --hash (tools/dirty-probe/dirty_probe.cpp) as a detector of changes.
use nyan_real_vdd.Base.{
  ℕ, zero, suc, ◌+◌, ◌*◌, ◌^◌, ◌≡◌, ◌≢◌, ◌<◌, ◌≤◌, refl, inl, inr, arith, ap, ◌∙◌, sym, subst, ◌==◌,
  Bool-cases,
}
use nyan_real_vdd.Probe.Frames.{hash_row, hash_rows, hash_frame, fnv_basis, Mapped}
use nyan_real_vdd.Probe.Frames.Hash.{
  Bytes, hash_row-lt, hash_row_injective, hash_row_same, hash_row_one,
}

-- The byte at place `k` of row `y`, without the padding.
abbrev pub byte_at : Mapped → ℕ → ℕ → ℕ
byte_at m y k = m.bytes (y * m.row_pitch + k)

-- Two mapped frames with `n` bytes to a row.
module _ (m m' : Mapped) (n : ℕ) where
  row_same :
      (y h : ℕ)
      → ((k : ℕ) → k < n → byte_at m y k ≡ byte_at m' y k)
      → hash_row m.bytes n (y * m.row_pitch) h ≡ hash_row m'.bytes n (y * m'.row_pitch) h
  row_same y h same = hash_row_same m.bytes m'.bytes n (y * m.row_pitch) (y * m'.row_pitch) h same

  rows_same :
      (left y h : ℕ)
      → ((r k : ℕ) → y ≤ r → r < y + left → k < n → byte_at m r k ≡ byte_at m' r k)
      → hash_rows m n left y h ≡ hash_rows m' n left y h
  unfolding hash_rows
  rows_same zero y h same = refl
  rows_same (suc left) y h same =
      ap (hash_rows m n left (suc y))
        (row_same y h (λ k lt. same y k (omega arith) (omega arith) lt))
      ∙ rows_same left (suc y) (hash_row m'.bytes n (y * m'.row_pitch) h)
          (λ r k ge lt lk. same r k (omega arith) (omega arith) lk)

  module _ (bm : Bytes m.bytes) (bm' : Bytes m'.bytes) where
    rows_injective :
        (left y h h' : ℕ)
        → h < 2 ^ 64
        → h' < 2 ^ 64
        → ((r k : ℕ) → y ≤ r → r < y + left → k < n → byte_at m r k ≡ byte_at m' r k)
        → hash_rows m n left y h ≡ hash_rows m' n left y h'
        → h ≡ h'
    unfolding hash_rows
    rows_injective zero y h h' lh lh' same e = e
    rows_injective (suc left) y h h' lh lh' same e =
        let next : hash_row m.bytes n (y * m.row_pitch) h
            ≡ hash_row m'.bytes n (y * m'.row_pitch) h' =
          rows_injective left (suc y) _ _ (hash_row-lt m.bytes n (y * m.row_pitch) h lh)
            (hash_row-lt m'.bytes n (y * m'.row_pitch) h' lh')
            (λ r k ge lt lk. same r k (omega arith) (omega arith) lk) e in
        hash_row_injective m.bytes m'.bytes n (y * m.row_pitch) (y * m'.row_pitch) h h' bm bm' lh
          lh' (λ k lt. same y k (omega arith) (omega arith) lt) next

-- Two mapped frames of that size differ in the byte at place `d` of row `r`, and in no other byte of a pixel.
pub record OneChange (m m' : Mapped) (width height r d : ℕ) : Type 0 where
  pub row : r < height
  pub place : d < width * 4
  pub other : byte_at m r d ≢ byte_at m' r d
  pub rest :
      (y k : ℕ) → y < height → k < width * 4 → (y ≡ r → k ≢ d) → byte_at m y k ≡ byte_at m' y k

module _ (m m' : Mapped) (width height r d : ℕ) (o : OneChange m m' width height r d)
    (bm : Bytes m.bytes) (bm' : Bytes m'.bytes) where
  rows_one :
      (left y h : ℕ)
      → y + left ≡ height
      → y ≤ r
      → h < 2 ^ 64
      → hash_rows m (width * 4) left y h ≢ hash_rows m' (width * 4) left y h
  unfolding hash_rows
  rows_one zero y h e le lh x = omega (arith, o.row)
  rows_one (suc left) y h e le lh x = elim (Bool-cases (y == r)) [
    | inr before ↦
        rows_one left (suc y) (hash_row m.bytes (width * 4) (y * m.row_pitch) h) (omega arith)
          (ground arith) (hash_row-lt m.bytes (width * 4) (y * m.row_pitch) h lh)
          (x
            ∙ ap (hash_rows m' (width * 4) left (suc y)) (
                sym (
                  row_same m m' (width * 4) y h
                    (λ k lt. o.rest y k (omega arith) lt (λ f. absurd (ground arith))))))
    | inl here ↦
        let f : y ≡ r = ground arith in
        let next : hash_row m.bytes (width * 4) (y * m.row_pitch) h
            ≡ hash_row m'.bytes (width * 4) (y * m'.row_pitch) h =
          rows_injective m m' (width * 4) bm bm' left (suc y) _ _
            (hash_row-lt m.bytes (width * 4) (y * m.row_pitch) h lh)
            (hash_row-lt m'.bytes (width * 4) (y * m'.row_pitch) h lh)
            (λ r' k ge lt lk. o.rest r' k (omega arith) lk (λ g. absurd (omega arith))) x in
        hash_row_one m.bytes m'.bytes (width * 4) (y * m.row_pitch) (y * m'.row_pitch) h d bm bm' lh
          (record {
            within = o.place;
            other = λ same. o.other (subst (λ z. byte_at m z d ≡ byte_at m' z d) f same);
            same = λ k lt ne. o.rest y k (omega arith) lt (λ g. ne);
          })
          next
  ]

-- Two mapped frames with the same bytes in every pixel have the same hash, whatever their row pitches and their
-- padding are.
pub hash_frame-same :
    (m m' : Mapped) (width height : ℕ)
    → ((y k : ℕ) → y < height → k < width * 4 → byte_at m y k ≡ byte_at m' y k)
    → hash_frame m width height ≡ hash_frame m' width height
unfolding hash_frame
hash_frame-same m m' width height same =
    rows_same m m' (width * 4) height 0 fnv_basis (λ r k ge lt lk. same r k (omega arith) lk)

-- Two mapped frames of one size that differ in one byte of the pixels alone have hashes that differ.
pub hash_frame-OneChange :
    (m m' : Mapped) (width height r d : ℕ)
    → OneChange m m' width height r d
    → ((i : ℕ) → m.bytes i < 256)
    → ((i : ℕ) → m'.bytes i < 256)
    → hash_frame m width height ≢ hash_frame m' width height
unfolding hash_frame
hash_frame-OneChange m m' width height r d o bm bm' =
    rows_one m m' width height r d o bm bm' height 0 fnv_basis (omega arith) (omega arith)
      (omega arith)
