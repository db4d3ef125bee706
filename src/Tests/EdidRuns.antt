-- ===== src/Tests/EdidRuns.antt =====
-- Modes, descriptors and EDID blocks at concrete inputs.
use nyan_real_vdd.Base.{
  ℕ, ◌*◌, ◌/◌, ◌%◌, ◌<◌, ◌≡◌, ◌↔◌, refl, true, false, some, [], ◌∷◌, arith, length, All,
}
use nyan_real_vdd.Edid.Mode.{NyanMode, is_supported_mode, pixel_clock_hz, horizontal_hz}
use nyan_real_vdd.Edid.Mode.Range.{InBounds, InRange, is_supported_mode_iff}
use nyan_real_vdd.Edid.ModeList.{mode, build_mode_list}
use nyan_real_vdd.Edid.Size.{physical_size_mm, mm_of_pixels}
use nyan_real_vdd.Edid.Dtd.{
  dtd_encodable, dtd_mode_for, write_dtd, dtd_width, dtd_height, dtd_pixel_clock_hz, dtd_width_mm,
  dtd_height_mm, k_step_down, step_down,
}
use nyan_real_vdd.Edid.Dtd.StepDown.{dtd_mode_for-IsBest, IsStep, IsBest}
use nyan_real_vdd.Edid.Dtd.RoundTrip.{write_dtd_round_trip}
use nyan_real_vdd.Edid.Limits.{compute_range_limits, decode_range}
use nyan_real_vdd.Edid.Limits.RoundTrip.{Fits}
use nyan_real_vdd.Edid.Limits.Enclose.{Encloses, compute_range_limits-Encloses}
use nyan_real_vdd.Edid.Block.{build_edid, cookie_from_edid}
use nyan_real_vdd.Edid.Block.Laws.{cookie_from_edid-build_edid, build_edid-IsBlock, total}
use nyan_real_vdd.Edid.Block.Describes.{build_edid_describes, TimingOf, dtd_of, limits_of}

abbrev full_hd : NyanMode
full_hd = mode 1920 1080 60

-- Over the pixel clock of a detailed timing descriptor.
abbrev uhd_120 : NyanMode
uhd_120 = mode 3840 2160 120

full_hd-InRange : InRange full_hd
full_hd-InRange = omega arith

uhd_120_run : dtd_mode_for uhd_120 ≡ mode 3840 2160 72
unfolding dtd_mode_for dtd_encodable pixel_clock_hz step_down
uhd_120_run = refl

full_hd_size_run : physical_size_mm full_hd ≡ (508, 286)
unfolding physical_size_mm mm_of_pixels
full_hd_size_run = refl

write_dtd_round_trip_example :
    let d = write_dtd full_hd 508 286 in
    (dtd_width d ≡ 1920)
    × (dtd_height d ≡ 1080)
    × (dtd_pixel_clock_hz d ≡ pixel_clock_hz full_hd / 10000 * 10000)
    × (dtd_width_mm d ≡ 508)
    × (dtd_height_mm d ≡ 286)
unfolding dtd_encodable pixel_clock_hz
write_dtd_round_trip_example = write_dtd_round_trip full_hd 508 286 refl (omega arith) (omega arith)

uhd_120-InRange : InRange uhd_120
uhd_120-InRange = omega arith

dtd_mode_for-IsBest_example :
    let d = dtd_mode_for uhd_120 in
    IsStep uhd_120 d
    × (dtd_encodable uhd_120 ≡ true → d ≡ uhd_120)
    × (dtd_encodable uhd_120 ≡ false
        → (d.refresh_hz < uhd_120.refresh_hz) × IsBest uhd_120 d.refresh_hz k_step_down)
dtd_mode_for-IsBest_example = dtd_mode_for-IsBest uhd_120 uhd_120-InRange

cookie_from_edid-build_edid_example : cookie_from_edid (some (build_edid 7 full_hd)) 128 ≡ 7
cookie_from_edid-build_edid_example = cookie_from_edid-build_edid 7 full_hd (omega arith)

build_edid_describes_example :
    TimingOf (dtd_of (build_edid 7 full_hd)) full_hd
    × All
        (Encloses (decode_range (limits_of (build_edid 7 full_hd))))
        (build_mode_list (some full_hd))
unfolding is_supported_mode horizontal_hz pixel_clock_hz
build_edid_describes_example = build_edid_describes 7 full_hd refl

build_edid-IsBlock_example :
    (length (build_edid 7 full_hd) ≡ 128)
    × All (λ (b : ℕ). b < 256) (build_edid 7 full_hd)
    × (total (build_edid 7 full_hd) % 256 ≡ 0)
build_edid-IsBlock_example = build_edid-IsBlock 7 full_hd

compute_range_limits-Encloses_example :
    let r = compute_range_limits (full_hd ∷ []) in All (Encloses r) (full_hd ∷ []) × Fits r
compute_range_limits-Encloses_example =
    compute_range_limits-Encloses full_hd [] (full_hd-InRange, tt)

is_supported_mode_iff_example : (is_supported_mode uhd_120 ≡ true) ↔ InRange uhd_120
is_supported_mode_iff_example = is_supported_mode_iff uhd_120

full_hd-InBounds : InBounds full_hd
full_hd-InBounds = omega arith
