-- ===== src/Edid/Limits.antt =====
-- The display range limits descriptor (driver/src/Edid.cpp).
pub mod Enclose
pub mod RoundTrip
use nyan_real_vdd.Base.{
  ℕ, ◌+◌, ◌-◌, ◌*◌, ◌/◌, Bool, ◌||◌, List, [], ◌∷◌, ltb, ◌==◌, if◌then◌else◌, get_or, bit_or,
  length,
}
use nyan_real_vdd.Base.Bits.{u32, u64, shr, low_bits}
use nyan_real_vdd.Edid.Mode.{NyanMode, pixel_clock_hz, horizontal_hz}

-- RangeLimits
pub record RangeLimits : Type 0 where
  pub min_v_hz : ℕ
  pub max_v_hz : ℕ
  pub min_h_khz : ℕ
  pub max_h_khz : ℕ
  pub max_pclk_10mhz : ℕ

-- Clamp8
unfoldable pub clamp8 : ℕ → ℕ
clamp8 value = if ltb 255 value then 255 else value

abbrev floor_khz : NyanMode → ℕ
floor_khz m = horizontal_hz m / 1000

abbrev ceil_khz : NyanMode → ℕ
ceil_khz m = u32 (horizontal_hz m + 999) / 1000

abbrev pclk_10mhz : NyanMode → ℕ
pclk_10mhz m = u32 (u64 (pixel_clock_hz m + 9999999) / 10000000)

-- The body of the loop of ComputeRangeLimits.
unfoldable pub widen : RangeLimits → NyanMode → RangeLimits
widen r m = record {
  min_v_hz = if ltb m.refresh_hz r.min_v_hz then m.refresh_hz else r.min_v_hz;
  max_v_hz = if ltb r.max_v_hz m.refresh_hz then m.refresh_hz else r.max_v_hz;
  min_h_khz = if ltb (floor_khz m) r.min_h_khz then floor_khz m else r.min_h_khz;
  max_h_khz = if ltb r.max_h_khz (ceil_khz m) then ceil_khz m else r.max_h_khz;
  max_pclk_10mhz = if ltb r.max_pclk_10mhz (pclk_10mhz m) then pclk_10mhz m else r.max_pclk_10mhz;
}

unfoldable pub widen_all : RangeLimits → List NyanMode → RangeLimits
unfolding widen
widen_all r [] = r
widen_all r (m ∷ ms) = widen_all (widen r m) ms

abbrev no_limits : RangeLimits
no_limits = record {
  min_v_hz = 0xFFFF_FFFF;
  max_v_hz = 0;
  min_h_khz = 0xFFFF_FFFF;
  max_h_khz = 0;
  max_pclk_10mhz = 0;
}

-- ComputeRangeLimits
unfoldable pub compute_range_limits : List NyanMode → RangeLimits
compute_range_limits modes =
    let r = widen_all no_limits modes in
    if length modes == 0
    then record {
      min_v_hz = 60;
      max_v_hz = 60;
      min_h_khz = 67;
      max_h_khz = 67;
      max_pclk_10mhz = 15;
    }
    else r

-- The flags, the minimum and the maximum of one rate, as the two `if`s of WriteRangeLimits leave
-- them; `both` and `only_max` are the bits for that rate.
offset_rate : ℕ → ℕ → ℕ → ℕ → ℕ × ℕ × ℕ
offset_rate both only_max min_rate max_rate =
    if ltb 255 max_rate
    then (
      if ltb 255 min_rate then both else only_max,
      if ltb 255 min_rate then min_rate - 255 else min_rate,
      max_rate - 255,
    )
    else (0, min_rate, max_rate)

-- WriteRangeLimits: the eighteen bytes that it writes, in order.
unfoldable pub write_range_limits : RangeLimits → List ℕ
unfolding offset_rate clamp8
write_range_limits r =
    let (v_flags, min_v, max_v) = offset_rate 0x03 0x02 r.min_v_hz r.max_v_hz in
    let (h_flags, min_h, max_h) = offset_rate 0x0C 0x08 r.min_h_khz r.max_h_khz in
    0
    ∷ 0
    ∷ 0
    ∷ 0xFD
    ∷ bit_or v_flags h_flags
    ∷ clamp8 min_v
    ∷ clamp8 max_v
    ∷ clamp8 min_h
    ∷ clamp8 max_h
    ∷ clamp8 r.max_pclk_10mhz
    ∷ 0x01
    ∷ 0x0A
    ∷ 0x20
    ∷ 0x20
    ∷ 0x20
    ∷ 0x20
    ∷ 0x20
    ∷ 0x20
    ∷ []

-- DecodeRange of tests/nyanvdd_tests.cpp, over the bytes of the descriptor. (There the last field
-- is in Hz, ten million times this one.)
unfoldable pub decode_range : List ℕ → RangeLimits
decode_range d =
    let v = low_bits (get_or d 4 0) 2 in
    let h = low_bits (shr (get_or d 4 0) 2) 2 in
    record {
      min_v_hz = get_or d 5 0 + (if v == 0x03 then 255 else 0);
      max_v_hz = get_or d 6 0 + (if v == 0x02 || v == 0x03 then 255 else 0);
      min_h_khz = get_or d 7 0 + (if h == 0x03 then 255 else 0);
      max_h_khz = get_or d 8 0 + (if h == 0x02 || h == 0x03 then 255 else 0);
      max_pclk_10mhz = get_or d 9 0;
    }
