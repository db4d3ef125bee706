-- ===== src/Edid/Limits/RoundTrip.antt =====
-- Decoding the range limits descriptor gives back the limits, where EDID 1.4 can express them.
use nyan_real_vdd.Base.{◌≤◌, ◌<◌, ◌≡◌, arith, length, All}
use nyan_real_vdd.Edid.Limits.{RangeLimits, write_range_limits, decode_range}

-- What the descriptor can express: rates of at most 255 + 255, clocks of at most 255.
pub record Fits (r : RangeLimits) : Type 0 where
  pub v_order : r.min_v_hz ≤ r.max_v_hz
  pub v_max : r.max_v_hz ≤ 510
  pub h_order : r.min_h_khz ≤ r.max_h_khz
  pub h_max : r.max_h_khz ≤ 510
  pub clock_max : r.max_pclk_10mhz ≤ 255

-- Limits that the descriptor can express are read back from it unchanged.
pub decode_range-write_range_limits :
    (r : RangeLimits) → Fits r → decode_range (write_range_limits r) ≡ r
unfolding decode_range write_range_limits
decode_range-write_range_limits r v = ground arith

-- Eighteen bytes, also for limits that had to be clamped.
pub write_range_limits_bytes :
    (r : RangeLimits)
    → (length (write_range_limits r) ≡ 18) × All (λ b. b < 256) (write_range_limits r)
unfolding write_range_limits
write_range_limits_bytes r = ground arith
