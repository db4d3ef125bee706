-- ===== src/Probe/Frames/Hash.antt =====
-- The hash of one row of pixels (tools/dirty-probe/dirty_probe.cpp): no step of it loses anything.
use nyan_real_vdd.Base.{ℕ, zero, suc, ◌+◌, ◌*◌, ◌^◌, ◌≡◌, ◌≢◌, ◌<◌, refl, arith, ap, ◌∙◌, sym}
use nyan_real_vdd.Base.Bits.{u64}
use nyan_real_vdd.Base.Xor.{bit_xor, bit_xor-lt, bit_xor_injective_left, bit_xor_injective_right}
use nyan_real_vdd.Probe.Frames.{hash_byte, hash_row, fnv_prime}

-- The prime is odd, so that it has an inverse.
undo : (x : ℕ) → x < 2 ^ 64 → u64 (u64 (x * fnv_prime) * 14886173955864302971) ≡ x
undo x h = omega arith

hash_byte-lt : (h b : ℕ) → hash_byte h b < 2 ^ 64
unfolding hash_byte
hash_byte-lt h b = omega arith

hash_byte_injective :
    (h h' b b' : ℕ)
    → h < 2 ^ 64
    → h' < 2 ^ 64
    → b < 2 ^ 64
    → b' < 2 ^ 64
    → hash_byte h b ≡ hash_byte h' b'
    → bit_xor h b ≡ bit_xor h' b'
unfolding hash_byte
hash_byte_injective h h' b b' lh lh' lb lb' e =
    sym (undo (bit_xor h b) (bit_xor-lt 64 h b lh lb))
    ∙ ap (λ (x : ℕ). u64 (x * 14886173955864302971)) e
    ∙ undo (bit_xor h' b') (bit_xor-lt 64 h' b' lh' lb')

-- A row keeps the hash within 64 bits.
pub hash_row-lt : (f : ℕ → ℕ) (left at h : ℕ) → h < 2 ^ 64 → hash_row f left at h < 2 ^ 64
unfolding hash_row
hash_row-lt f zero at h lt = lt
hash_row-lt f (suc left) at h lt =
    hash_row-lt f left (suc at) (hash_byte h (f at)) (hash_byte-lt h (f at))

abbrev pub Bytes : (ℕ → ℕ) → Type 0
Bytes f = (i : ℕ) → f i < 256

-- The next byte, and the bytes after it.
module _ (f g : ℕ → ℕ) (at at' : ℕ) where
  head_same : (left : ℕ) → ((k : ℕ) → k < suc left → f (at + k) ≡ g (at' + k)) → f at ≡ g at'
  head_same left same = ap f (omega arith) ∙ same 0 (omega arith) ∙ ap g (omega arith)

  tail_at : (k : ℕ) → f (at + suc k) ≡ g (at' + suc k) → f (suc at + k) ≡ g (suc at' + k)
  tail_at k e = ap f (omega arith) ∙ e ∙ ap g (omega arith)

-- The same bytes from hashes that differ give hashes that differ.
pub hash_row_injective :
    (f g : ℕ → ℕ) (left at at' h h' : ℕ)
    → Bytes f
    → Bytes g
    → h < 2 ^ 64
    → h' < 2 ^ 64
    → ((k : ℕ) → k < left → f (at + k) ≡ g (at' + k))
    → hash_row f left at h ≡ hash_row g left at' h'
    → h ≡ h'
unfolding hash_row
hash_row_injective f g zero at at' h h' bf bg lh lh' same e = e
hash_row_injective f g (suc left) at at' h h' bf bg lh lh' same e =
    let b = head_same f g at at' left same in
    let next : hash_byte h (f at) ≡ hash_byte h' (g at') =
      hash_row_injective f g left (suc at) (suc at') (hash_byte h (f at)) (hash_byte h' (g at')) bf
        bg (hash_byte-lt h (f at)) (hash_byte-lt h' (g at'))
        (λ k lt. tail_at f g at at' k (same (suc k) (omega arith))) e in
    bit_xor_injective_left h h' (f at) (
      hash_byte_injective h h' (f at) (g at') lh lh' (omega (arith, bf at)) (omega (arith, bg at'))
        next
      ∙ ap (bit_xor h') (sym b))

pub hash_row_same :
    (f g : ℕ → ℕ) (left at at' h : ℕ)
    → ((k : ℕ) → k < left → f (at + k) ≡ g (at' + k))
    → hash_row f left at h ≡ hash_row g left at' h
unfolding hash_row
hash_row_same f g zero at at' h same = refl
hash_row_same f g (suc left) at at' h same =
    ap (λ b. hash_row f left (suc at) (hash_byte h b)) (head_same f g at at' left same)
    ∙ hash_row_same f g left (suc at) (suc at') (hash_byte h (g at'))
        (λ k lt. tail_at f g at at' k (same (suc k) (omega arith)))

-- The bytes differ at place `d` alone.
pub record OneByte (f g : ℕ → ℕ) (left at at' d : ℕ) : Type 0 where
  pub within : d < left
  pub other : f (at + d) ≢ g (at' + d)
  pub same : (k : ℕ) → k < left → k ≢ d → f (at + k) ≡ g (at' + k)

pub hash_row_one :
    (f g : ℕ → ℕ) (left at at' h d : ℕ)
    → Bytes f
    → Bytes g
    → h < 2 ^ 64
    → OneByte f g left at at' d
    → hash_row f left at h ≢ hash_row g left at' h
unfolding hash_row
hash_row_one f g zero at at' h d bf bg lh o e = omega (arith, o.within)
hash_row_one f g (suc left) at at' h zero bf bg lh o e =
    let next : hash_byte h (f at) ≡ hash_byte h (g at') =
      hash_row_injective f g left (suc at) (suc at') (hash_byte h (f at)) (hash_byte h (g at')) bf
        bg (hash_byte-lt h (f at)) (hash_byte-lt h (g at'))
        (λ k lt. tail_at f g at at' k (o.same (suc k) (omega arith) (λ x. absurd (omega arith))))
        e in
    let b : f at ≡ g at' = bit_xor_injective_right h (f at) (g at') (
      hash_byte_injective h h (f at) (g at') lh lh (omega (arith, bf at)) (omega (arith, bg at'))
        next) in
    o.other (ap f (omega arith) ∙ b ∙ ap g (omega arith))
hash_row_one f g (suc left) at at' h (suc d) bf bg lh o e =
    let b : f at ≡ g at' =
      ap f (omega arith)
      ∙ o.same 0 (omega arith) (λ x. absurd (omega arith))
      ∙ ap g (omega arith) in
    hash_row_one f g left (suc at) (suc at') (hash_byte h (f at)) d bf bg (hash_byte-lt h (f at))
      (record {
        within = omega (arith, o.within);
        other = λ x. o.other (ap f (omega arith) ∙ x ∙ ap g (omega arith));
        same =
            λ k lt ne. tail_at f g at at' k (o.same (suc k) (omega arith) (λ x. ne (omega arith)));
      })
      (e ∙ ap (λ x. hash_row g left (suc at') (hash_byte h x)) (sym b))
