-- ===== src/Tests/ProbeRuns.antt =====
-- The measurement tools and the entry points at concrete inputs.
use nyan_real_vdd.Base.{◌≡◌, refl, Bool, true, false, none, some}
use nyan_real_vdd.Device.{nt_success}
use nyan_real_vdd.Driver.Entry.{Driver, capture_file_cleanup, open_for_file}
use nyan_real_vdd.Driver.Entry.Laws.{OwnsNothing, cleanup_is_final}
use nyan_real_vdd.Device.Capture.{open_capture, open_at, has_owner, find_arrived, attach}
use nyan_real_vdd.Device.Watchdog.{pet_watchdog}
use nyan_real_vdd.Device.Report.{fill_status, count_arrived}
use nyan_real_vdd.Driver.Ioctl.{io_device_control, complete, serve, capture_result}
use nyan_real_vdd.FrameShare.Channel.{create}
use nyan_real_vdd.FrameShare.Channel.{fresh_metadata}
use nyan_real_vdd.Cli.Drive.{drive}
use nyan_real_vdd.Probe.Connect.{
  ConnectEnv, Connected, connected, throws, connect, after_status, after_capture, map_view,
}
use nyan_real_vdd.Probe.Connect.Granted.{IsGranted, connect-IsGranted}
use nyan_real_vdd.Tests.Samples.{alone, waiting_device, one_monitor}

abbrev driver : Driver
driver = record { context = some waiting_device; closing = λ f. false }

cleanup_is_final_example :
    OwnsNothing 1 (capture_file_cleanup (λ d. d) 1 driver).context
    × (nt_success
          (open_for_file 7 1 alone.channel
            (capture_file_cleanup (λ d. d) 1 driver)
            waiting_device).0
        ≡ false)
    × ((open_for_file 7 1 alone.channel (capture_file_cleanup (λ d. d) 1 driver) waiting_device).2
        ≡ waiting_device)
cleanup_is_final_example = cleanup_is_final (λ d. d) 1 7 alone.channel driver waiting_device

-- A system on which the metadata can be mapped.
abbrev windows : ConnectEnv
windows = record {
  list_size_ok = true;
  list_size = 60;
  list_ok = true;
  open_device = none;
  open_mapping = none;
  view_error = 0;
  view = some (fresh_metadata 4);
}

connect-IsGranted_example :
    IsGranted alone (connect (drive (λ r. alone) (λ status. 5)) windows 7 one_monitor)
connect-IsGranted_example = connect-IsGranted (λ r. alone) (λ status. 5) windows 7 one_monitor

abbrev is_connected : Connected → Bool
is_connected (connected name m) = true
is_connected (throws e) = false

connect_run :
    is_connected (connect (drive (λ r. alone) (λ status. 5)) windows 7 one_monitor).0 ≡ true
unfolding connect drive after_status after_capture map_view io_device_control complete serve
    fill_status capture_result open_capture open_at has_owner find_arrived create attach
    pet_watchdog count_arrived
connect_run = refl
