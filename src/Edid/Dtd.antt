-- ===== src/Edid/Dtd.antt =====
-- The detailed timing descriptor (driver/src/Edid.cpp): what it can hold, the timing written into
-- it, and its bytes.
pub mod StepDown
pub mod RoundTrip
use nyan_real_vdd.Base.{
  ℕ, ◌+◌, ◌*◌, ◌/◌, Bool, ◌&&◌, List, [], ◌∷◌, ltb, leb, if◌then◌else◌, get_or, bit_or,
}
use nyan_real_vdd.Base.Bits.{u8, u32, shr, shl, low_bits}
use nyan_real_vdd.Edid.Mode.{NyanMode, pixel_clock_hz, k_h_blank, k_v_blank}

-- DtdEncodable
unfoldable pub dtd_encodable : NyanMode → Bool
dtd_encodable m = leb m.width 4095 && (leb m.height 4095 && leb (pixel_clock_hz m) 655350000)

abbrev pub k_step_down : List ℕ
k_step_down = 120 ∷ 100 ∷ 90 ∷ 75 ∷ 72 ∷ 60 ∷ 50 ∷ 30 ∷ 24 ∷ []

abbrev pub full_hd : NyanMode
full_hd = record { width = 1920; height = 1080; refresh_hz = 60 }

-- The loop of DtdModeFor, with what follows it.
unfoldable pub step_down : NyanMode → List ℕ → NyanMode
step_down requested [] = full_hd
step_down requested (hz ∷ rest) =
    let next = step_down requested rest in
    let candidate = record requested { refresh_hz = hz } in
    if leb requested.refresh_hz hz
    then next
    else if dtd_encodable candidate
    then candidate
    else next

-- DtdModeFor
unfoldable pub dtd_mode_for : NyanMode → NyanMode
dtd_mode_for requested =
    if dtd_encodable requested then requested else step_down requested k_step_down

-- WriteDtd: the eighteen bytes that it writes, in order.
unfoldable pub write_dtd : NyanMode → ℕ → ℕ → List ℕ
write_dtd m image_width_mm image_height_mm =
    let clk_10khz = u32 (pixel_clock_hz m / 10000) in
    let h_blank : ℕ = k_h_blank in
    let v_blank : ℕ = k_v_blank in
    let h_sync_offset : ℕ = 48 in
    let h_sync_width : ℕ = 32 in
    let v_sync_offset : ℕ = 3 in
    let v_sync_width : ℕ = 5 in
    low_bits clk_10khz 8
    ∷ low_bits (shr clk_10khz 8) 8
    ∷ low_bits m.width 8
    ∷ low_bits h_blank 8
    ∷ u8 (bit_or (shl (shr m.width 8) 4) (shr h_blank 8))
    ∷ low_bits m.height 8
    ∷ low_bits v_blank 8
    ∷ u8 (bit_or (shl (shr m.height 8) 4) (shr v_blank 8))
    ∷ low_bits h_sync_offset 8
    ∷ low_bits h_sync_width 8
    ∷ u8 (bit_or (shl (low_bits v_sync_offset 4) 4) (low_bits v_sync_width 4))
    ∷ u8 (
        bit_or
          (bit_or (bit_or (shl (shr h_sync_offset 8) 6) (shl (shr h_sync_width 8) 4))
            (shl (shr v_sync_offset 4) 2))
          (shr v_sync_width 4))
    ∷ low_bits image_width_mm 8
    ∷ low_bits image_height_mm 8
    ∷ u8 (bit_or (shl (shr image_width_mm 8) 4) (low_bits (shr image_height_mm 8) 4))
    ∷ 0
    ∷ 0
    ∷ 0x1E
    ∷ []

-- The decoders of tests/nyanvdd_tests.cpp, written there independently of the builder.
-- They take the descriptor's bytes.
abbrev pub dtd_width : List ℕ → ℕ
dtd_width d = bit_or (get_or d 2 0) (shl (shr (get_or d 4 0) 4) 8)

abbrev pub dtd_height : List ℕ → ℕ
dtd_height d = bit_or (get_or d 5 0) (shl (shr (get_or d 7 0) 4) 8)

abbrev pub dtd_pixel_clock_hz : List ℕ → ℕ
dtd_pixel_clock_hz d = u32 (bit_or (get_or d 0 0) (shl (get_or d 1 0) 8) * 10000)

abbrev pub dtd_width_mm : List ℕ → ℕ
dtd_width_mm d = bit_or (get_or d 12 0) (shl (shr (get_or d 14 0) 4) 8)

abbrev pub dtd_height_mm : List ℕ → ℕ
dtd_height_mm d = bit_or (get_or d 13 0) (shl (low_bits (get_or d 14 0) 4) 8)
