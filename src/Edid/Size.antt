-- ===== src/Edid/Size.antt =====
-- Panel sizes (driver/src/Edid.h and Edid.cpp).
pub mod Bounds
use nyan_real_vdd.Base.{ℕ, ◌+◌, ◌*◌, ◌/◌, ltb, if◌then◌else◌}
use nyan_real_vdd.Base.Bits.{u32}
use nyan_real_vdd.Edid.Mode.{NyanMode}

abbrev pub k_max_panel_height_mm : ℕ
k_max_panel_height_mm = 380

-- mm = px * 25.4 / 96, rounded to nearest.
unfoldable pub mm_of_pixels : ℕ → ℕ
mm_of_pixels px = u32 (u32 (px * 254) + 480) / 960

-- PhysicalSizeMm: the width and the height that go through the pointers.
unfoldable pub physical_size_mm : NyanMode → ℕ × ℕ
physical_size_mm m =
    let w = mm_of_pixels m.width in
    let h = mm_of_pixels m.height in
    if ltb k_max_panel_height_mm h
    then (u32 (u32 (w * k_max_panel_height_mm) + h / 2) / h, k_max_panel_height_mm)
    else (w, h)
