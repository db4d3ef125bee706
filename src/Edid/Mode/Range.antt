-- ===== src/Edid/Mode/Range.antt =====
-- The accepted range without machine arithmetic: inside the limits on the fields nothing wraps.
use nyan_real_vdd.Base.{ℕ, ◌+◌, ◌*◌, ◌≤◌, ◌^◌, ◌≡◌, ◌↔◌, true, arith}
use native.Mathlib.Nat.{mul-le-mul, mod-eq_of_lt}
use nyan_real_vdd.Edid.Mode.{NyanMode, pixel_clock_hz, horizontal_hz, is_supported_mode}

-- The limits on the fields alone.
pub record InBounds (m : NyanMode) : Type 0 where
  pub width_max : m.width ≤ 4095
  pub height_max : m.height ≤ 4095
  pub refresh_max : m.refresh_hz ≤ 240

-- The accepted mode range, as include/nyanvdd_protocol.h documents it.
pub record InRange (m : NyanMode) : Type 0 where
  pub width_min : 640 ≤ m.width
  pub width_max : m.width ≤ 4095
  pub height_min : 480 ≤ m.height
  pub height_max : m.height ≤ 4095
  pub refresh_min : 24 ≤ m.refresh_hz
  pub refresh_max : m.refresh_hz ≤ 240
  pub line_max : (m.height + 35) * m.refresh_hz ≤ 510000
  pub clock_max : (m.width + 160) * (m.height + 35) * m.refresh_hz ≤ 2550000000

pub InRange-InBounds : {m : NyanMode} → InRange m → InBounds m
InRange-InBounds v = omega arith

product_bound :
    (w h r : ℕ) → w ≤ 4095 → h ≤ 4095 → r ≤ 240 → (w + 160) * (h + 35) * r ≤ 4255 * 4130 * 240
product_bound w h r p q s =
    mul-le-mul {n₂ = 4255 * 4130} {m₂ = 240}
      (mul-le-mul {n₂ = 4255} {m₂ = 4130} (omega arith) (omega arith)) s

line_bound : (h r : ℕ) → h ≤ 4095 → r ≤ 240 → (h + 35) * r ≤ 4130 * 240
line_bound h r q s = mul-le-mul {n₂ = 4130} (omega arith) s

area_bound : (w h : ℕ) → w ≤ 4095 → h ≤ 4095 → (w + 160) * (h + 35) ≤ 4255 * 4130
area_bound w h p q = mul-le-mul {n₂ = 4255} {m₂ = 4130} (omega arith) (omega arith)

-- Within the bounds on the fields the pixel clock does not wrap.
pub pixel_clock_hz_exact :
    (m : NyanMode)
    → InBounds m
    → pixel_clock_hz m ≡ (m.width + 160) * (m.height + 35) * m.refresh_hz
unfolding pixel_clock_hz
pixel_clock_hz_exact m v = rw (mod-eq_of_lt {n = m.width + 160} {m = 2 ^ 32} (omega arith)) (
    rw (mod-eq_of_lt {n = m.height + 35} {m = 2 ^ 32} (omega arith)) (
      rw
        (mod-eq_of_lt {n = (m.width + 160) * (m.height + 35)} {m = 2 ^ 64}
          (omega (arith, area_bound m.width m.height v.width_max v.height_max)))
        (mod-eq_of_lt (
          omega (
            arith,
            product_bound m.width m.height m.refresh_hz v.width_max v.height_max v.refresh_max,
          )))))

-- Nor does the line rate.
pub horizontal_hz_exact :
    (m : NyanMode) → InBounds m → horizontal_hz m ≡ (m.height + 35) * m.refresh_hz
unfolding horizontal_hz
horizontal_hz_exact m v =
    rw (mod-eq_of_lt {n = m.height + 35} {m = 2 ^ 32} (omega arith))
      (mod-eq_of_lt (omega (arith, line_bound m.height m.refresh_hz v.height_max v.refresh_max)))

-- A mode is supported exactly when it is in the documented range.
pub is_supported_mode_iff : (m : NyanMode) → (is_supported_mode m ≡ true) ↔ InRange m
unfolding is_supported_mode
is_supported_mode_iff m = (
  λ h. ground (arith, pixel_clock_hz_exact m, horizontal_hz_exact m),
  λ v. ground (arith, pixel_clock_hz_exact m, horizontal_hz_exact m),
)
