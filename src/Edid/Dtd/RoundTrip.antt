-- ===== src/Edid/Dtd/RoundTrip.antt =====
-- Decoding the descriptor gives back what was written.
use nyan_real_vdd.Base.{ℕ, ◌*◌, ◌/◌, ◌≤◌, ◌<◌, ◌≡◌, true, arith, bit_or, length, All}
use nyan_real_vdd.Base.Bits.{bit_or_disjoint, bit_or_disjoint_comm, shr, shl, low_bits, u8, u32}
use nyan_real_vdd.Edid.Mode.{NyanMode, pixel_clock_hz}
use nyan_real_vdd.Edid.Dtd.{
  dtd_encodable, write_dtd, dtd_width, dtd_height, dtd_pixel_clock_hz, dtd_width_mm, dtd_height_mm,
}

-- Twelve bits kept as a low byte and the high half of another byte.
split12 :
    (x lo : ℕ)
    → x ≤ 4095
    → lo < 16
    → bit_or (low_bits x 8) (shl (shr (u8 (bit_or (shl (shr x 8) 4) lo)) 4) 8) ≡ x
split12 x lo h k =
    rw (bit_or_disjoint 4 (shr x 8) lo (omega arith))
      (rw (bit_or_disjoint_comm 8 _ (low_bits x 8) (omega arith)) (omega arith))

-- The same with the low half.
split12_low :
    (x hi : ℕ)
    → x ≤ 4095
    → bit_or (low_bits x 8) (shl (low_bits (u8 (bit_or (shl hi 4) (low_bits (shr x 8) 4))) 4) 8) ≡ x
split12_low x hi h =
    rw (bit_or_disjoint 4 hi (low_bits (shr x 8) 4) (omega arith))
      (rw (bit_or_disjoint_comm 8 _ (low_bits x 8) (omega arith)) (omega arith))

clock_split :
    (c : ℕ)
    → c ≤ 655350000
    → u32 (
        bit_or (low_bits (u32 (c / 10000)) 8) (shl (low_bits (shr (u32 (c / 10000)) 8) 8) 8)
        * 10000)
      ≡ c / 10000 * 10000
clock_split c h =
    rw (bit_or_disjoint_comm 8 _ (low_bits (u32 (c / 10000)) 8) (omega arith)) (omega arith)

pub dtd_encodable_bounds :
    (m : NyanMode)
    → dtd_encodable m ≡ true
    → (m.width ≤ 4095) × (m.height ≤ 4095) × (pixel_clock_hz m ≤ 655350000)
unfolding dtd_encodable
dtd_encodable_bounds m e = ground arith

-- The descriptor of a mode that it can hold, with a size of at most 12 bits, decodes to that mode's
-- pixel counts, to its pixel clock in whole units of 10 kHz, and to that size.
pub write_dtd_round_trip :
    (m : NyanMode) (w h : ℕ)
    → dtd_encodable m ≡ true
    → w ≤ 4095
    → h ≤ 4095
    → let d = write_dtd m w h in
      (dtd_width d ≡ m.width)
      × (dtd_height d ≡ m.height)
      × (dtd_pixel_clock_hz d ≡ pixel_clock_hz m / 10000 * 10000)
      × (dtd_width_mm d ≡ w)
      × (dtd_height_mm d ≡ h)
unfolding write_dtd
write_dtd_round_trip m w h e p q =
    let b = dtd_encodable_bounds m e in
    (
      split12 m.width 0 b.0 (omega arith),
      split12 m.height 0 b.1 (omega arith),
      clock_split (pixel_clock_hz m) b.2,
      split12 w (low_bits (shr h 8) 4) p (omega arith),
      split12_low h (shr w 8) q,
    )

-- Eighteen bytes, whatever the mode.
pub write_dtd_bytes :
    (m : NyanMode) (w h : ℕ)
    → (length (write_dtd m w h) ≡ 18) × All (λ b. b < 256) (write_dtd m w h)
unfolding write_dtd
write_dtd_bytes m w h = omega arith
