-- ===== src/Edid/Block.antt =====
-- BuildEdid and CookieFromEdid (driver/src/Edid.cpp): the 128-byte base block.
pub mod Laws
pub mod Describes
use nyan_real_vdd.Base.{
  ℕ, zero, suc, ◌+◌, ◌-◌, ◌/◌, ◌*◌, ◌%◌, Bool, ◌||◌, not, Option, none, some, List, [], ◌∷◌, ◌++◌,
  ltb, ◌==◌, if◌then◌else◌, get_or, set, take, write_at, replicate,
}
use nyan_real_vdd.Base.Bits.{u8, byte_of, word_of, shr, low_bits}
use nyan_real_vdd.Edid.Mode.{NyanMode}
use nyan_real_vdd.Edid.Size.{physical_size_mm}
use nyan_real_vdd.Edid.ModeList.{build_mode_list}
use nyan_real_vdd.Edid.Dtd.{dtd_mode_for, write_dtd}
use nyan_real_vdd.Edid.Limits.{clamp8, compute_range_limits, write_range_limits}

-- The thirteen text bytes of WriteTextDescriptor from byte `i` on: the text up to its end, one
-- 0x0A if there is room, and spaces.
text_field : ℕ → List ℕ → List ℕ
text_field zero text = []
text_field (suc room) [] = 0x0A ∷ replicate room 0x20
text_field (suc room) (c ∷ text) = c ∷ text_field room text

-- WriteTextDescriptor: the eighteen bytes that it writes, in order.
unfoldable pub write_text_descriptor : ℕ → List ℕ → List ℕ
unfolding text_field
write_text_descriptor tag text = 0 ∷ 0 ∷ 0 ∷ tag ∷ 0 ∷ text_field 13 text

-- "nyan Wall"
abbrev pub product_name : List ℕ
product_name = b'n' ∷ b'y' ∷ b'a' ∷ b'n' ∷ b' ' ∷ b'W' ∷ b'a' ∷ b'l' ∷ b'l' ∷ []

-- One digit of %08X.
hex_digit : ℕ → ℕ
hex_digit d = if ltb d 10 then b'0' + d else b'A' + (d - 10)

-- snprintf "NW-%08X"
unfoldable pub serial_text : ℕ → List ℕ
unfolding hex_digit
serial_text cookie =
    b'N'
    ∷ b'W'
    ∷ b'-'
    ∷ hex_digit (low_bits (shr cookie 28) 4)
    ∷ hex_digit (low_bits (shr cookie 24) 4)
    ∷ hex_digit (low_bits (shr cookie 20) 4)
    ∷ hex_digit (low_bits (shr cookie 16) 4)
    ∷ hex_digit (low_bits (shr cookie 12) 4)
    ∷ hex_digit (low_bits (shr cookie 8) 4)
    ∷ hex_digit (low_bits (shr cookie 4) 4)
    ∷ hex_digit (low_bits cookie 4)
    ∷ []

abbrev header : List ℕ
header = 0x00 ∷ 0xFF ∷ 0xFF ∷ 0xFF ∷ 0xFF ∷ 0xFF ∷ 0xFF ∷ 0x00 ∷ []

abbrev chroma : List ℕ
chroma = 0x6C ∷ 0xE5 ∷ 0xA5 ∷ 0x55 ∷ 0x50 ∷ 0xA0 ∷ 0x23 ∷ 0x0B ∷ 0x50 ∷ 0x54 ∷ []

-- Bytes 8 to 24: vendor, product, serial, date, version, panel size, gamma, features.
pub identity_bytes : ℕ → ℕ → ℕ → List ℕ
identity_bytes cookie width_mm height_mm =
    0x3B
    ∷ 0x2E
    ∷ low_bits 0x3D0F 8
    ∷ byte_of 0x3D0F 8
    ∷ byte_of cookie 0
    ∷ byte_of cookie 8
    ∷ byte_of cookie 16
    ∷ byte_of cookie 24
    ∷ 1
    ∷ 36
    ∷ 1
    ∷ 4
    ∷ 0xA5
    ∷ clamp8 ((width_mm + 5) / 10)
    ∷ clamp8 ((height_mm + 5) / 10)
    ∷ 120
    ∷ 0x06
    ∷ []

-- The loop that sums the first 127 bytes in a uint8_t.
sum_bytes : ℕ → List ℕ → ℕ
sum_bytes sum [] = sum
sum_bytes sum (b ∷ bs) = sum_bytes (u8 (sum + b)) bs

-- The writes of BuildEdid up to the checksum, in order, into the buffer `e`.
pub lay_out : List ℕ → List ℕ → List ℕ → List ℕ → List ℕ → List ℕ → List ℕ
lay_out e identity dtd name serial limits =
    let e0 = write_at e 0 header in
    let e1 = write_at e0 8 identity in
    let e2 = write_at e1 25 chroma in
    let e3 = write_at e2 38 (replicate 16 0x01) in
    let e4 = write_at e3 54 dtd in
    let e5 = write_at e4 72 name in
    let e6 = write_at e5 90 serial in let e7 = write_at e6 108 limits in set e7 126 0

-- The last byte: the checksum of those before it.
pub finish : List ℕ → List ℕ
unfolding sum_bytes
finish e = set e 127 (u8 (0x100 - sum_bytes 0 (take 127 e)))

-- BuildEdid
unfoldable pub build_edid : ℕ → NyanMode → List ℕ
build_edid cookie preferred =
    let size = physical_size_mm preferred in
    let modes = build_mode_list (some preferred) in
    finish (
      lay_out (replicate 128 0) (identity_bytes cookie size.0 size.1)
        (write_dtd (dtd_mode_for preferred) size.0 size.1) (write_text_descriptor 0xFC product_name)
        (write_text_descriptor 0xFF (serial_text cookie))
        (write_range_limits (compute_range_limits modes)))

-- CookieFromEdid; `none` is the null pointer.
unfoldable pub cookie_from_edid : Option (List ℕ) → ℕ → ℕ
cookie_from_edid none size = 0
cookie_from_edid (some e) size =
    if not (size == 128)
    then 0
    else if not (get_or e 8 0 == 0x3B) || not (get_or e 9 0 == 0x2E)
    then 0
    else if not (get_or e 10 0 == 0x0F) || not (get_or e 11 0 == 0x3D)
    then 0
    else word_of (get_or e 12 0) (get_or e 13 0) (get_or e 14 0) (get_or e 15 0)
