-- ===== src/Edid/Block/Describes.antt =====
-- The block of a supported mode, decoded: it describes the mode and the reported mode list.
use nyan_real_vdd.Base.{
  ℕ, ◌*◌, ◌/◌, ◌≡◌, true, List, ◌∷◌, some, arith, All, take, drop, subst, sym, ◌∙◌,
}
use nyan_real_vdd.Edid.Mode.{NyanMode, pixel_clock_hz, is_supported_mode}
use nyan_real_vdd.Edid.Mode.Range.{InRange, InRange-InBounds, is_supported_mode_iff}
use nyan_real_vdd.Edid.Size.{physical_size_mm}
use nyan_real_vdd.Edid.Size.Bounds.{physical_size_mm_bounds}
use nyan_real_vdd.Edid.ModeList.{k_mode_table, append_table, build_mode_list}
use nyan_real_vdd.Edid.ModeList.Laws.{All-append_table}
use nyan_real_vdd.Edid.Dtd.{
  dtd_mode_for, write_dtd, dtd_width, dtd_height, dtd_pixel_clock_hz, dtd_width_mm, dtd_height_mm,
}
use nyan_real_vdd.Edid.Dtd.StepDown.{dtd_mode_for-IsStep}
use nyan_real_vdd.Edid.Dtd.RoundTrip.{write_dtd_round_trip}
use nyan_real_vdd.Edid.Limits.{compute_range_limits, write_range_limits, decode_range}
use nyan_real_vdd.Edid.Limits.RoundTrip.{decode_range-write_range_limits}
use nyan_real_vdd.Edid.Limits.Enclose.{Encloses, compute_range_limits-Encloses}
use nyan_real_vdd.Edid.Block.{build_edid}
use nyan_real_vdd.Edid.Block.Laws.{build_edid_dtd, build_edid_limits}

abbrev pub dtd_of : List ℕ → List ℕ
dtd_of e = take 18 (drop 54 e)

abbrev pub limits_of : List ℕ → List ℕ
limits_of e = take 18 (drop 108 e)

-- What the timing descriptor `d` says of the mode `m`.
pub record TimingOf (d : List ℕ) (m : NyanMode) : Type 0 where
  pub width : dtd_width d ≡ m.width
  pub height : dtd_height d ≡ m.height
  pub clock : dtd_pixel_clock_hz d ≡ pixel_clock_hz (dtd_mode_for m) / 10000 * 10000
  pub width_mm : dtd_width_mm d ≡ (physical_size_mm m).0
  pub height_mm : dtd_height_mm d ≡ (physical_size_mm m).1

timing_of :
    (m : NyanMode)
    → InRange m
    → TimingOf (write_dtd (dtd_mode_for m) (physical_size_mm m).0 (physical_size_mm m).1) m
timing_of m v =
    let step = dtd_mode_for-IsStep m v in
    let size = physical_size_mm_bounds m (InRange-InBounds v) in
    let t = write_dtd_round_trip (dtd_mode_for m) _ _ step.encodable (omega arith) (omega arith) in
    record {
      width = t.0 ∙ step.width_kept;
      height = t.1 ∙ step.height_kept;
      clock = t.2;
      width_mm = t.3;
      height_mm = t.4;
    }

k_mode_table-InRange : All InRange k_mode_table
k_mode_table-InRange = omega arith

limits_enclose :
    (m : NyanMode)
    → InRange m
    → All
        (Encloses
          (decode_range (write_range_limits (compute_range_limits (build_mode_list (some m))))))
        (build_mode_list (some m))
unfolding build_mode_list
limits_enclose m v =
    let modes = m ∷ append_table (some m) k_mode_table in
    let r =
      compute_range_limits-Encloses m (append_table (some m) k_mode_table)
        (v, All-append_table InRange m k_mode_table k_mode_table-InRange) in
    subst (λ s. All (Encloses s) modes) (sym (decode_range-write_range_limits _ r.1)) r.0

-- The block of a supported mode states that mode's pixel counts and panel size, the clock of the
-- mode that DtdModeFor picks in units of 10 kHz, and range limits that enclose every mode which is
-- reported for the monitor.
pub build_edid_describes :
    (cookie : ℕ) (m : NyanMode)
    → is_supported_mode m ≡ true
    → TimingOf (dtd_of (build_edid cookie m)) m
      × All (Encloses (decode_range (limits_of (build_edid cookie m)))) (build_mode_list (some m))
build_edid_describes cookie m supported =
    let v = (is_supported_mode_iff m).0 supported in
    (
      subst (λ d. TimingOf d m) (sym (build_edid_dtd cookie m)) (timing_of m v),
      subst (λ d. All (Encloses (decode_range d)) (build_mode_list (some m)))
          (sym (build_edid_limits cookie m)) (limits_enclose m v),
    )
