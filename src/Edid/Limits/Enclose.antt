-- ===== src/Edid/Limits/Enclose.antt =====
-- The computed limits enclose every mode that they are computed from.
use nyan_real_vdd.Base.{◌*◌, ◌≤◌, ◌≡◌, List, [], ◌∷◌, arith, All, All-mono, subst, sym}
use nyan_real_vdd.Edid.Mode.{NyanMode, pixel_clock_hz, horizontal_hz}
use nyan_real_vdd.Edid.Mode.Range.{
  InRange, InRange-InBounds, pixel_clock_hz_exact, horizontal_hz_exact,
}
use nyan_real_vdd.Edid.Limits.{RangeLimits, widen, widen_all, no_limits, compute_range_limits}
use nyan_real_vdd.Edid.Limits.RoundTrip.{Fits}

-- The mode's rates and clock lie within the limits.
pub record Encloses (r : RangeLimits) (m : NyanMode) : Type 0 where
  pub v_min : r.min_v_hz ≤ m.refresh_hz
  pub v_max : m.refresh_hz ≤ r.max_v_hz
  pub h_min : r.min_h_khz * 1000 ≤ horizontal_hz m
  pub h_max : horizontal_hz m ≤ r.max_h_khz * 1000
  pub clock_max : pixel_clock_hz m ≤ r.max_pclk_10mhz * 10000000

-- `s` allows all that `r` allows.
record IsWider (r s : RangeLimits) : Type 0 where
  min_v : s.min_v_hz ≤ r.min_v_hz
  max_v : r.max_v_hz ≤ s.max_v_hz
  min_h : s.min_h_khz ≤ r.min_h_khz
  max_h : r.max_h_khz ≤ s.max_h_khz
  max_clock : r.max_pclk_10mhz ≤ s.max_pclk_10mhz

-- The rates of a supported mode as the source computes them.
record IsModest (m : NyanMode) : Type 0 where
  refresh : m.refresh_hz ≤ 240
  line : horizontal_hz m ≤ 510000
  clock : pixel_clock_hz m ≤ 2550000000

InRange-IsModest : {m : NyanMode} → InRange m → IsModest m
InRange-IsModest {m} v = record {
  refresh = v.refresh_max;
  line = omega (arith, horizontal_hz_exact m (InRange-InBounds v));
  clock = omega (arith, pixel_clock_hz_exact m (InRange-InBounds v));
}

Encloses-wider : {r s : RangeLimits} → IsWider r s → (m : NyanMode) → Encloses r m → Encloses s m
Encloses-wider w m e = omega arith

widen-IsWider : (r : RangeLimits) (m : NyanMode) → IsWider r (widen r m)
unfolding widen
widen-IsWider r m = ground arith

widen-Encloses : (r : RangeLimits) (m : NyanMode) → IsModest m → Encloses (widen r m) m
unfolding widen
widen-Encloses r m v = ground arith

widen_all-IsWider : (r : RangeLimits) (ms : List NyanMode) → IsWider r (widen_all r ms)
unfolding widen_all
widen_all-IsWider r [] = omega arith
widen_all-IsWider r (m ∷ ms) = omega (arith, widen-IsWider r m, widen_all-IsWider (widen r m) ms)

widen_all-Encloses :
    (r : RangeLimits) (ms : List NyanMode) → All IsModest ms → All (Encloses (widen_all r ms)) ms
unfolding widen_all
widen_all-Encloses r [] h = tt
widen_all-Encloses r (m ∷ ms) h = (
  Encloses-wider (widen_all-IsWider (widen r m) ms) m (widen-Encloses r m h.0),
  widen_all-Encloses (widen r m) ms h.1,
)

record IsSmall (r : RangeLimits) : Type 0 where
  v : r.max_v_hz ≤ 240
  h : r.max_h_khz ≤ 510
  clock : r.max_pclk_10mhz ≤ 255

widen-IsSmall : (r : RangeLimits) (m : NyanMode) → IsModest m → IsSmall r → IsSmall (widen r m)
unfolding widen
widen-IsSmall r m v s = ground arith

widen_all-IsSmall :
    (r : RangeLimits) (ms : List NyanMode) → All IsModest ms → IsSmall r → IsSmall (widen_all r ms)
unfolding widen_all
widen_all-IsSmall r [] h s = s
widen_all-IsSmall r (m ∷ ms) h s = widen_all-IsSmall (widen r m) ms h.1 (widen-IsSmall r m h.0 s)

compute_range_limits-cons :
    (m : NyanMode) (ms : List NyanMode)
    → compute_range_limits (m ∷ ms) ≡ widen_all no_limits (m ∷ ms)
unfolding compute_range_limits
compute_range_limits-cons m ms = ground arith

Encloses-Fits : (r : RangeLimits) (m : NyanMode) → IsSmall r → Encloses r m → Fits r
Encloses-Fits r m s e = omega arith

-- The limits of a non-empty list of modes in range enclose each of them, and fit the descriptor.
pub compute_range_limits-Encloses :
    (m : NyanMode) (ms : List NyanMode)
    → All InRange (m ∷ ms)
    → let r = compute_range_limits (m ∷ ms) in All (Encloses r) (m ∷ ms) × Fits r
compute_range_limits-Encloses m ms v =
    let modest = All-mono InRange IsModest (λ k h. InRange-IsModest h) (m ∷ ms) v in
    let enclosed = widen_all-Encloses no_limits (m ∷ ms) modest in
    let small = widen_all-IsSmall no_limits (m ∷ ms) modest (omega arith) in
    subst (λ r. All (Encloses r) (m ∷ ms) × Fits r) (sym (compute_range_limits-cons m ms))
      (enclosed, Encloses-Fits _ m small enclosed.0)
