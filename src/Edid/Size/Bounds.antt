-- ===== src/Edid/Size/Bounds.antt =====
-- What PhysicalSizeMm promises: a desktop-class panel with the aspect ratio of the mode.
use nyan_real_vdd.Base.{
  ℕ, ◌+◌, ◌*◌, ◌/◌, ◌≤◌, ◌<◌, ◌≡◌, ◌⊎◌, arith, ltb, inl, inr, Bool-cases, ltb→lt, ltb→le, ap,
}
use native.Mathlib.Nat.{mul-le-mul_right}
use nyan_real_vdd.Base.Bits.{u32}
use nyan_real_vdd.Edid.Mode.{NyanMode}
use nyan_real_vdd.Edid.Mode.Range.{InBounds}
use nyan_real_vdd.Edid.Size.{mm_of_pixels, physical_size_mm, k_max_panel_height_mm}

-- `mm` is within half a millimetre of `px` pixels at 96 DPI.
pub record IsMm (px mm : ℕ) : Type 0 where
  pub above : 960 * mm ≤ 254 * px + 480
  pub below : 254 * px < 960 * mm + 480

mm_of_pixels-IsMm : (px : ℕ) → px ≤ 4095 → IsMm px (mm_of_pixels px)
unfolding mm_of_pixels
mm_of_pixels-IsMm px h = omega arith

-- The panel `w` by 380 mm has the aspect ratio of `w₀` by `h₀`, to half a millimetre of width.
pub record IsShrunk (w₀ h₀ w : ℕ) : Type 0 where
  pub too_tall : 380 < h₀
  pub above : 2 * (w * h₀) ≤ 2 * (w₀ * 380) + h₀
  pub below : 2 * (w₀ * 380) < 2 * (w * h₀) + h₀

round_div :
    (n d : ℕ)
    → 0 < d
    → (2 * ((n + d / 2) / d * d) ≤ 2 * n + d) × (2 * n < 2 * ((n + d / 2) / d * d) + d + 1)
round_div n d h = grind arith

mm_of_pixels-le : (px : ℕ) → px ≤ 4095 → mm_of_pixels px ≤ 1083
unfolding mm_of_pixels
mm_of_pixels-le px h = omega arith

shrink_exact :
    (w h : ℕ) → w ≤ 1083 → h ≤ 1083 → u32 (u32 (w * 380) + h / 2) / h ≡ (w * 380 + h / 2) / h
shrink_exact w h p q = ap (λ (t : ℕ). t / h) (omega arith)

shrink-IsShrunk :
    (w h : ℕ) → w ≤ 1083 → h ≤ 1083 → 380 < h → IsShrunk w h (u32 (u32 (w * 380) + h / 2) / h)
shrink-IsShrunk w h p q tall = rw (shrink_exact w h p q) (omega (arith, round_div (w * 380) h))

-- The size for a mode whose fields are in bounds: at true 96 DPI it is `w₀` by `h₀`; it is that
-- size when it is at most 380 mm tall, and otherwise 380 mm tall in the same aspect ratio.
pub physical_size_mm_lem :
    (m : NyanMode)
    → InBounds m
    → (w₀ : ℕ) × (h₀ : ℕ) × IsMm m.width w₀
      × IsMm m.height h₀
      × (((h₀ ≤ 380) × (physical_size_mm m ≡ (w₀, h₀)))
          ⊎ (IsShrunk w₀ h₀ (physical_size_mm m).0 × ((physical_size_mm m).1 ≡ 380)))
unfolding physical_size_mm
physical_size_mm_lem m v = (
  mm_of_pixels m.width,
  mm_of_pixels m.height,
  mm_of_pixels-IsMm m.width v.width_max,
  mm_of_pixels-IsMm m.height v.height_max,
  elim (Bool-cases (ltb k_max_panel_height_mm (mm_of_pixels m.height))) [
    | inl tall ↦ inr (
      rw tall (
          shrink-IsShrunk (mm_of_pixels m.width) (mm_of_pixels m.height)
            (mm_of_pixels-le m.width v.width_max) (mm_of_pixels-le m.height v.height_max)
            (ltb→lt _ _ tall)),
      rw tall,
    )
    | inr low ↦ inl (ltb→le _ _ low, rw low)
  ],
)

shrunk_bound : (w₀ h₀ w : ℕ) → w₀ ≤ 1083 → IsShrunk w₀ h₀ w → w ≤ 1083
shrunk_bound w₀ h₀ w h s = elim (Bool-cases (ltb 1083 w)) [
  | inl big ↦ absurd (omega (arith, mul-le-mul_right {m = 1084} {n = w} h₀ (ltb→lt _ _ big)))
  | inr small ↦ ltb→le _ _ small
]

-- The size fits the fields of the descriptors: 12 bits of millimetres, a byte of centimetres.
pub physical_size_mm_bounds :
    (m : NyanMode) → InBounds m → ((physical_size_mm m).0 ≤ 1083) × ((physical_size_mm m).1 ≤ 380)
unfolding physical_size_mm
physical_size_mm_bounds m v =
    let w = mm_of_pixels-le m.width v.width_max in
    let h = mm_of_pixels-le m.height v.height_max in
    elim (Bool-cases (ltb k_max_panel_height_mm (mm_of_pixels m.height))) [
      | inl tall ↦ rw tall (
        shrunk_bound (mm_of_pixels m.width) (mm_of_pixels m.height) _ w
            (shrink-IsShrunk _ _ w h (ltb→lt _ _ tall)),
        omega arith,
      )
      | inr low ↦ rw low (w, ltb→le _ _ low)
    ]
