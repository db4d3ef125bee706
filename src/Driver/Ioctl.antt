-- ===== src/Driver/Ioctl.antt =====
-- NyanVddIoDeviceControl (driver/src/Driver.cpp): the control requests of user mode. The control
-- codes are built by a macro of the Windows headers, so a request carries the operation that its
-- code selects, and `unknown` stands for every other code. The sizes are those of the structures
-- of include/nyanvdd_protocol.h.
pub mod Laws
pub mod Registry
pub mod Refine
use nyan_real_vdd.Base.{ℕ, Bool, true, false, not, Option, none, some, List, [], ◌∷◌, if◌then◌else◌}
use nyan_real_vdd.Protocol.{PlugIn, StatusOut, MonitorInfo}
use nyan_real_vdd.FrameShare.Channel.{CreateEnv}
use nyan_real_vdd.Device.{
  Device, NtStatus, success, access_denied, invalid_device_request, failure, nt_success, OsResult,
  done, failed,
}
use nyan_real_vdd.Device.Plug.{PlugEnv, plug}
use nyan_real_vdd.Device.Unplug.{unplug}
use nyan_real_vdd.Device.Report.{list, fill_status}
use nyan_real_vdd.Device.Capture.{open_capture}
use nyan_real_vdd.Device.Watchdog.{WatchdogEnv, set_watchdog, pet_watchdog}

-- The request, with the contents of its input buffer.
pub data Request : Type 0 where
  open_capture_request : ℕ → Request
  get_status_request : Request
  plug_request : PlugIn → Request
  unplug_request : ℕ → Request
  list_request : Request
  set_watchdog_request : ℕ → Request
  unknown : Request

-- What the framework answers while it serves one request: whether the buffers are large enough,
-- what the impersonated access check says, the file object and its flag, and the clock at the two
-- places where it is read.
pub record IoctlEnv : Type 0 where
  pub input : OsResult
  pub output : OsResult
  pub impersonate : OsResult
  pub authorized : Bool
  pub file_object : Option ℕ
  pub closing : Bool
  pub channel : CreateEnv
  pub plug : PlugEnv
  pub watchdog : WatchdogEnv
  pub set_now : ℕ
  pub pet_now : ℕ

-- What goes back to the caller in the output buffer.
pub data Answer : Type 0 where
  nothing : Answer
  capture_answer : List ℕ → Answer
  status_answer : StatusOut → Answer
  plug_answer : ℕ → Answer
  list_answer : List MonitorInfo → Answer

abbrev status_of : OsResult → NtStatus
status_of done = success
status_of (failed status) = failure status

-- `if (NT_SUCCESS(Status))` after a call of the framework.
abbrev pub after : OsResult → NtStatus × Answer × Device → Device → NtStatus × Answer × Device
after done rest d = rest
after (failed status) rest d = (failure status, nothing, d)

-- The answer of a success; on a failure Information stays 0.
unfoldable pub capture_result : NtStatus × Option (List ℕ) × Device → NtStatus × Answer × Device
capture_result (status, some name, d) =
    (status, (if nt_success status then capture_answer name else nothing), d)
capture_result (status, none, d) = (status, nothing, d)

unfoldable pub plug_result : NtStatus × Option ℕ × Device → NtStatus × Answer × Device
plug_result (status, some connector, d) =
    (status, (if nt_success status then plug_answer connector else nothing), d)
plug_result (status, none, d) = (status, nothing, d)

-- The cases of the `switch`.
unfoldable pub serve : IoctlEnv → Request → Device → NtStatus × Answer × Device
serve env (open_capture_request cookie) d =
    after env.input
      (after env.output
        (after env.impersonate
          (if env.authorized
            then capture_result (open_capture cookie env.file_object env.closing env.channel d)
            else (access_denied, nothing, d))
          d)
        d)
      d
serve env get_status_request d = after env.output (success, status_answer (fill_status d), d) d
serve env (plug_request p) d =
    after env.input (after env.output (plug_result (plug env.plug p d)) d) d
serve env (unplug_request cookie) d =
    after env.input ((unplug cookie d).0, nothing, (unplug cookie d).1) d
serve env list_request d = after env.output (success, list_answer (list d), d) d
serve env (set_watchdog_request t) d =
    let r = set_watchdog env.watchdog t env.set_now d in after env.input (r.0, nothing, r.1) d
serve env unknown d = (invalid_device_request, nothing, d)

-- The end of the handler: a request that succeeded pets the watchdog.
unfoldable pub complete : ℕ → NtStatus × Answer × Device → NtStatus × Answer × Device
complete now (status, answer, d) =
    (status, answer, if nt_success status then pet_watchdog now d else d)

-- NyanVddIoDeviceControl
unfoldable pub io_device_control : IoctlEnv → Request → Device → NtStatus × Answer × Device
io_device_control env request d = complete env.pet_now (serve env request d)
