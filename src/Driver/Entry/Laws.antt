-- ===== src/Driver/Entry/Laws.antt =====
-- A file object that was cleaned up owns no capture and never gets one again, and who may open one.
use nyan_real_vdd.Base.{
  ℕ, ◌≡◌, refl, true, false, Option, none, some, arith, Bool-cases, inl, inr, ◌==◌,
}
use nyan_real_vdd.FrameShare.Channel.{CreateEnv}
use nyan_real_vdd.Device.{Device, nt_success}
use nyan_real_vdd.Device.Capture.{has_owner, open_capture, close_capture}
use nyan_real_vdd.Device.Capture.Close.{close_capture_lem}
use nyan_real_vdd.Driver.Entry.{Driver, capture_file_cleanup, open_for_file, map_device}

-- No monitor's capture belongs to the file.
abbrev pub OwnsNothing : ℕ → Option Device → Type 0
OwnsNothing file none = Unit
OwnsNothing file (some d) = has_owner file d.slots ≡ false

owns_nothing :
    (between : Device → Device) (file : ℕ) (o : Option Device)
    → OwnsNothing file (map_device (λ d. close_capture file (between d)) o)
owns_nothing between file none = tt
owns_nothing between file (some d) = (close_capture_lem file 0 (between d)).0

-- Whatever other threads do between the two statements of the cleanup of a file object, among them a request
-- that opens a capture for it, afterwards the file owns no capture; and in every later state of the device a
-- request of that file to open a capture fails and changes nothing.
pub cleanup_is_final :
    (between : Device → Device) (file cookie : ℕ) (env : CreateEnv) (g : Driver) (later : Device)
    → let g' = capture_file_cleanup between file g in
      OwnsNothing file g'.context
      × (nt_success (open_for_file cookie file env g' later).0 ≡ false)
      × ((open_for_file cookie file env g' later).2 ≡ later)
unfolding capture_file_cleanup open_for_file open_capture
cleanup_is_final between file cookie env g later =
    let self : (file == file) ≡ true = ground arith in
    elim (Bool-cases (cookie == 0)) [
      | inl null ↦ simp (self, null) (owns_nothing between file g.context, refl, refl)
      | inr given ↦ simp (self, given) (owns_nothing between file g.context, refl, refl)
    ]
