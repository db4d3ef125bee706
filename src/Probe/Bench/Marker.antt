-- ===== src/Probe/Bench/Marker.antt =====
-- The colour of a paint, and what the reader makes of a pixel with it.
use nyan_real_vdd.Base.{ℕ, ◌+◌, ◌*◌, ◌/◌, ◌%◌, ◌^◌, ◌<◌, ◌≡◌, arith, ◌∙◌}
use nyan_real_vdd.Base.Bits.{shr, low_bits, bit_or_disjoint_comm}
use nyan_real_vdd.Probe.Bench.{rgb, marker_colour, marker_id}

-- The pixel of that colour in a texture of format B8G8R8A8: blue in the lowest byte.
abbrev pub bgra_pixel : ℕ → ℕ → ℕ
bgra_pixel colour alpha =
    low_bits (shr colour 16) 8
    + low_bits (shr colour 8) 8 * 2 ^ 8
    + low_bits colour 8 * 2 ^ 16
    + alpha * 2 ^ 24

rgb_sum : (r g b : ℕ) → r < 256 → g < 256 → b < 256 → rgb r g b ≡ r + g * 2 ^ 8 + b * 2 ^ 16
rgb_sum r g b lr lg lb =
    rw (bit_or_disjoint_comm 8 g r (omega arith))
      (rw (bit_or_disjoint_comm 16 b (g * 2 ^ 8 + r) (omega arith)) (omega arith))

colour_sum : (id : ℕ) → marker_colour id ≡ id % 256 + (id / 256) % 256 * 2 ^ 8 + 0x5a * 2 ^ 16
colour_sum id =
    rgb_sum (low_bits id 8) (low_bits (shr id 8) 8) 0x5a (omega arith) (omega arith) (omega arith)

marker_sum :
    (pixel : ℕ) → marker_id pixel ≡ low_bits (shr pixel 8) 8 * 2 ^ 8 + low_bits (shr pixel 16) 8
unfolding marker_id
marker_sum pixel =
    bit_or_disjoint_comm 8 (low_bits (shr pixel 8) 8) (low_bits (shr pixel 16) 8) (omega arith)

-- Below 65536 paints, the pixel of a paint names it.
pub marker_id-bgra_pixel :
    (id alpha : ℕ) → id < 65536 → marker_id (bgra_pixel (marker_colour id) alpha) ≡ id
marker_id-bgra_pixel id alpha lt =
    marker_sum (bgra_pixel (marker_colour id) alpha) ∙ rw (colour_sum id) (omega arith)

pub marker_byte : (id alpha : ℕ) → low_bits (bgra_pixel (marker_colour id) alpha) 8 ≡ 0x5a
marker_byte id alpha = rw (colour_sum id) (omega arith)
