-- ===== src/Edid/Block/Laws.antt =====
-- The block that BuildEdid writes: 128 bytes, a valid checksum, the cookie, the descriptors.
use nyan_real_vdd.Base.{
  ℕ, zero, suc, ◌/◌, ◌+◌, ◌-◌, ◌%◌, ◌^◌, ◌<◌, ◌≡◌, refl, List, [], ◌∷◌, some, arith, All,
  All-write_at, All-set, length, length-set, length-write_at, take, drop, set, replicate, ◌∙◌,
}
use nyan_real_vdd.Base.Bits.{u8, word_of-byte_of}
use nyan_real_vdd.Edid.Mode.{NyanMode}
use nyan_real_vdd.Edid.Size.{physical_size_mm}
use nyan_real_vdd.Edid.ModeList.{build_mode_list}
use nyan_real_vdd.Edid.Dtd.{dtd_mode_for, write_dtd}
use nyan_real_vdd.Edid.Dtd.RoundTrip.{write_dtd_bytes}
use nyan_real_vdd.Edid.Limits.{clamp8, compute_range_limits, write_range_limits}
use nyan_real_vdd.Edid.Limits.RoundTrip.{write_range_limits_bytes}
use nyan_real_vdd.Edid.Block.{
  build_edid, lay_out, finish, sum_bytes, cookie_from_edid, identity_bytes, write_text_descriptor,
  serial_text, product_name, hex_digit,
}

-- A 32-bit cookie is read back from the block that is built for it, whatever the mode.
pub cookie_from_edid-build_edid :
    (cookie : ℕ) (m : NyanMode)
    → cookie < 2 ^ 32
    → cookie_from_edid (some (build_edid cookie m)) 128 ≡ cookie
unfolding cookie_from_edid build_edid lay_out finish identity_bytes
cookie_from_edid-build_edid cookie m h = word_of-byte_of cookie h

abbrev IsByte : ℕ → Type 0
IsByte b = b < 256

-- The sum of the bytes, with no wrapping.
abbrev pub total : List ℕ → ℕ
total [] = 0
total (b ∷ bs) = b + total bs

sum_bytes_lem : (s : ℕ) (bs : List ℕ) → sum_bytes s bs % 256 ≡ (s + total bs) % 256
unfolding sum_bytes
sum_bytes_lem s [] = omega arith
sum_bytes_lem s (b ∷ bs) = omega (arith, sum_bytes_lem (u8 (s + b)) bs)

sum_bytes-lt : (s : ℕ) (bs : List ℕ) → s < 256 → sum_bytes s bs < 256
unfolding sum_bytes
sum_bytes-lt s [] h = h
sum_bytes-lt s (b ∷ bs) h = sum_bytes-lt (u8 (s + b)) bs (omega arith)

total-set_last :
    (n : ℕ) (e : List ℕ) (v : ℕ) → length e ≡ suc n → total (set e n v) ≡ total (take n e) + v
total-set_last n [] v h = absurd (omega arith)
total-set_last zero (b ∷ []) v h = omega arith
total-set_last zero (b ∷ c ∷ e) v h = absurd (omega arith)
total-set_last (suc n) (b ∷ e) v h = omega (arith, total-set_last n e v (omega arith))

finish_sum : (e : List ℕ) → length e ≡ 128 → total (finish e) % 256 ≡ 0
unfolding finish
finish_sum e h =
    let body = take 127 e in
    omega (
      arith,
      total-set_last 127 e (u8 (0x100 - sum_bytes 0 body)) h,
      sum_bytes_lem 0 body,
      sum_bytes-lt 0 body (omega arith),
    )

module _ (e identity dtd name serial limits : List ℕ) where
  length-lay_out : length (lay_out e identity dtd name serial limits) ≡ length e
  unfolding lay_out
  length-lay_out = simp (length-set, length-write_at)

  lay_out-IsByte :
      All IsByte e
      → All IsByte identity
      → All IsByte dtd
      → All IsByte name
      → All IsByte serial
      → All IsByte limits
      → All IsByte (lay_out e identity dtd name serial limits)
  unfolding lay_out
  lay_out-IsByte he hi hd hn hs hl =
      All-set _ _ _ _
        (All-write_at _ _ _ _
          (All-write_at _ _ _ _
            (All-write_at _ _ _ _
              (All-write_at _ _ _ _
                (All-write_at _ _ _ _
                  (All-write_at _ _ _ _
                    (All-write_at _ _ _ _ (All-write_at _ _ _ _ he (omega arith)) hi) (omega arith))
                  (omega arith))
                hd)
              hn)
            hs)
          hl)
        (omega arith)

finish-IsByte : (e : List ℕ) → All IsByte e → All IsByte (finish e)
unfolding finish
finish-IsByte e h = All-set _ _ _ _ h (omega arith)

length-finish : (e : List ℕ) → length (finish e) ≡ length e
unfolding finish
length-finish e = length-set e 127 _

hex_digit-IsByte : (d : ℕ) → d < 16 → IsByte (hex_digit d)
unfolding hex_digit
hex_digit-IsByte d h = ground arith

clamp8-IsByte : (v : ℕ) → IsByte (clamp8 v)
unfolding clamp8
clamp8-IsByte v = ground arith

identity_bytes-IsByte : (cookie w h : ℕ) → All IsByte (identity_bytes cookie w h)
unfolding identity_bytes
identity_bytes-IsByte cookie w h =
    omega (arith, clamp8-IsByte ((w + 5) / 10), clamp8-IsByte ((h + 5) / 10))

serial-IsByte : (cookie : ℕ) → All IsByte (write_text_descriptor 0xFF (serial_text cookie))
unfolding write_text_descriptor serial_text
serial-IsByte cookie = omega (arith, hex_digit-IsByte)

name-IsByte : All IsByte (write_text_descriptor 0xFC product_name)
unfolding write_text_descriptor
name-IsByte = omega arith

-- For every cookie and mode the block is 128 bytes long, each entry is a byte, and the bytes add up to 0 modulo 256.
pub build_edid-IsBlock :
    (cookie : ℕ) (m : NyanMode)
    → (length (build_edid cookie m) ≡ 128)
      × All IsByte (build_edid cookie m)
      × (total (build_edid cookie m) % 256 ≡ 0)
unfolding build_edid
build_edid-IsBlock cookie m = (
  length-finish _ ∙ length-lay_out _ _ _ _ _ _,
  finish-IsByte _ (
      lay_out-IsByte (replicate 128 0) _ _ _ _ _ (omega arith) (identity_bytes-IsByte cookie _ _)
        (write_dtd_bytes (dtd_mode_for m) _ _).1 name-IsByte (serial-IsByte cookie)
        (write_range_limits_bytes _).1),
  finish_sum _ (length-lay_out (replicate 128 0) _ _ _ _ _),
)

-- Bytes 54 to 71 are the timing descriptor.
pub build_edid_dtd :
    (cookie : ℕ) (m : NyanMode)
    → take 18 (drop 54 (build_edid cookie m))
      ≡ write_dtd (dtd_mode_for m) (physical_size_mm m).0 (physical_size_mm m).1
unfolding build_edid lay_out finish write_dtd identity_bytes
build_edid_dtd cookie m = refl

-- Bytes 108 to 125 are the range limits of the reported mode list.
pub build_edid_limits :
    (cookie : ℕ) (m : NyanMode)
    → take 18 (drop 108 (build_edid cookie m))
      ≡ write_range_limits (compute_range_limits (build_mode_list (some m)))
unfolding build_edid lay_out finish write_range_limits identity_bytes write_dtd
    write_text_descriptor serial_text
build_edid_limits cookie m = refl
