-- ===== src/Edid/Mode.antt =====
-- Display modes (driver/src/Edid.h and Edid.cpp): the clocks and the accepted range.
-- A mode's fields are uint32_t; each sum and product keeps the width at which the source computes.
pub mod Range
use nyan_real_vdd.Base.{ℕ, ◌+◌, ◌*◌, Bool, true, false, ◌&&◌, ◌||◌, ltb, leb, ◌==◌, if◌then◌else◌}
use nyan_real_vdd.Base.Bits.{u32, u64}

-- NyanMode
pub record NyanMode : Type 0 where
  pub width : ℕ
  pub height : ℕ
  pub refresh_hz : ℕ

-- SameMode
unfoldable pub same_mode : NyanMode → NyanMode → Bool
same_mode a b = a.width == b.width && (a.height == b.height && a.refresh_hz == b.refresh_hz)

abbrev pub k_h_blank : ℕ
k_h_blank = 160

abbrev pub k_v_blank : ℕ
k_v_blank = 35

abbrev pub k_min_width : ℕ
k_min_width = 640

abbrev pub k_min_height : ℕ
k_min_height = 480

abbrev pub k_max_active_pixels : ℕ
k_max_active_pixels = 4095

abbrev pub k_min_refresh_hz : ℕ
k_min_refresh_hz = 24

abbrev pub k_max_refresh_hz : ℕ
k_max_refresh_hz = 240

abbrev pub k_max_line_rate_hz : ℕ
k_max_line_rate_hz = 510000

abbrev pub k_max_pixel_clock_hz : ℕ
k_max_pixel_clock_hz = 2550000000

-- PixelClockHz: the sums are 32 bits wide, the products 64.
unfoldable pub pixel_clock_hz : NyanMode → ℕ
pixel_clock_hz m = u64 (u64 (u32 (m.width + k_h_blank) * u32 (m.height + k_v_blank)) * m.refresh_hz)

-- HorizontalHz
unfoldable pub horizontal_hz : NyanMode → ℕ
horizontal_hz m = u32 (u32 (m.height + k_v_blank) * m.refresh_hz)

-- IsSupportedMode
unfoldable pub is_supported_mode : NyanMode → Bool
is_supported_mode m =
    if ltb m.width k_min_width || ltb m.height k_min_height
    then false
    else if ltb k_max_active_pixels m.width || ltb k_max_active_pixels m.height
    then false
    else if ltb m.refresh_hz k_min_refresh_hz || ltb k_max_refresh_hz m.refresh_hz
    then false
    else if ltb k_max_line_rate_hz (horizontal_hz m)
    then false
    else if ltb k_max_pixel_clock_hz (pixel_clock_hz m)
    then false
    else true
