-- ===== src/Driver/Entry.antt =====
-- NyanVddDeviceAdd, the cleanup of a file object, CaptureAuthorize and the callbacks that
-- pass a call on to the device context (driver/src/Driver.cpp).
pub mod Laws
pub mod Teardown
use nyan_real_vdd.Base.{
  ℕ, Bool, true, false, not, ◌&&◌, Option, none, some, List, [], ◌∷◌, ◌==◌, if◌then◌else◌,
}
use nyan_real_vdd.Device.{
  Device, new_device, NtStatus, success, insufficient_resources, failure, OsResult, done, failed,
  update,
}
use nyan_real_vdd.Device.Adapter.{AdapterEnv, d0_entry, on_adapter_init_finished}
use nyan_real_vdd.Device.Capture.{open_capture, close_capture}
use nyan_real_vdd.Device.Report.{record_committed_monitors}
use nyan_real_vdd.FrameShare.Channel.{CreateEnv}

-- The driver: the context of its one device, which is also g_DeviceContext, and the Closing flag of each
-- file object.
pub record Driver : Type 0 where
  pub context : Option Device
  pub closing : ℕ → Bool

abbrev pub new_driver : Driver
new_driver = record { context = none; closing = λ f. false }

-- What the framework answers to NyanVddDeviceAdd, in the order of its calls.
pub record AddEnv : Type 0 where
  pub config : OsResult
  pub create : OsResult
  pub initialize : OsResult
  pub interface : OsResult
  pub allocated : Bool

-- `if (!NT_SUCCESS(Status)) return Status;`
abbrev and_then : OsResult → Driver → NtStatus × Driver → NtStatus × Driver
and_then done g next = next
and_then (failed status) g next = (failure status, g)

-- NyanVddDeviceAdd
unfoldable pub device_add : AddEnv → Driver → NtStatus × Driver
device_add env g = and_then env.config g (
    and_then env.create g (
      and_then env.initialize g (
        and_then env.interface g (
          if env.allocated
          then (success, record g { context = some new_device })
          else (insufficient_resources, g)))))

abbrev pub map_device : (Device → Device) → Option Device → Option Device
map_device f none = none
map_device f (some d) = some (f d)

-- CaptureFileCleanup; `between` is what other threads do to the device after the flag is set.
unfoldable pub capture_file_cleanup : (Device → Device) → ℕ → Driver → Driver
capture_file_cleanup between file g = record {
  context = map_device (λ d. close_capture file (between d)) g.context;
  closing = update g.closing file true;
}

-- OPEN_CAPTURE of a file object after the access check: OpenCapture reads the file's flag.
unfoldable pub open_for_file :
    ℕ → ℕ → CreateEnv → Driver → Device → NtStatus × Option (List ℕ) × Device
open_for_file cookie file env g d = open_capture cookie (some file) (g.closing file) env d

-- What Windows says of the caller: whether the SID could be made and the token is a member, and the
-- session of the token, where it could be opened and read.
pub record CallerEnv : Type 0 where
  pub sid_made : Bool
  pub is_member : Bool
  pub token : Option (Option ℕ)
  pub console_session : ℕ

-- The session stays MAXDWORD where it could not be read.
abbrev session_of : Option (Option ℕ) → ℕ
session_of none = 0xFFFFFFFF
session_of (some none) = 0xFFFFFFFF
session_of (some (some session)) = session

-- CaptureAuthorize
unfoldable pub capture_authorize : CallerEnv → Bool
capture_authorize env =
    (env.sid_made && env.is_member)
    && (not (session_of env.token == 0xFFFFFFFF) && session_of env.token == env.console_session)

-- A callback of the framework that passes its arguments on to the context.
pub data Callback : Type 0 where
  d0_entered : AdapterEnv → ℕ → Callback
  adapter_init_finished : OsResult → Callback
  commit_modes : List (Bool × ℕ) → Callback
  commit_modes2 : List (Bool × ℕ) → Callback
  set_default_hdr_metadata : Callback

-- NyanVddDeviceD0Entry, NyanVddAdapterInitFinished, NyanVddAdapterCommitModes and its second version, and
-- NyanVddMonitorSetDefaultHdrMetaData; each returns success.
unfoldable pub on_callback : Callback → Device → Device
on_callback (d0_entered env now) d = d0_entry env now d
on_callback (adapter_init_finished status) d = on_adapter_init_finished status d
on_callback (commit_modes paths) d = record_committed_monitors paths d
on_callback (commit_modes2 paths) d = record_committed_monitors paths d
on_callback set_default_hdr_metadata d = d
