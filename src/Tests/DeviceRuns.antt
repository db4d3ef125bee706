-- ===== src/Tests/DeviceRuns.antt =====
-- A device with one monitor, and the results about its operations at concrete inputs.
use nyan_real_vdd.Base.{◌≢◌, ◌≡◌, refl, true, false, ◌&&◌, none, some, [], ◌∷◌, arith}
use nyan_real_vdd.Protocol.{PlugIn, AdapterState}
use nyan_real_vdd.Edid.Mode.{NyanMode, is_supported_mode, pixel_clock_hz, horizontal_hz}
use nyan_real_vdd.Edid.ModeList.{mode}
use nyan_real_vdd.FrameShare.Channel.{CreateEnv, create}
use nyan_real_vdd.Tests.Samples.{one_slot, one_monitor}
use nyan_real_vdd.Device.{Device, empty_slot, new_device, nt_success, OsResult, done}
use nyan_real_vdd.Device.Slots.{lookup, has_cookie, first_free}
use nyan_real_vdd.Device.Invariant.{TableOk, SlotOk, new_device-TableOk, empty_slot-SlotOk}
use nyan_real_vdd.Device.Plug.{PlugEnv, plug, reserve, reserved_slot, at_index, rollback, commit}
use nyan_real_vdd.Device.Plug.Invariant.{IsAcceptable}
use nyan_real_vdd.Device.Plug.Race.{rollback_after_reuse}
use nyan_real_vdd.Device.Plug.Admission.{is_admitted, has_free}
use nyan_real_vdd.Device.Plug.Quiet.{IsQuiet, os_accepts, arrived_slot}
use nyan_real_vdd.Device.Plug.Outcome.{plug_succeeds_iff, lookup-plug}
use nyan_real_vdd.Device.Unplug.{unplug, sweep, stop_channel, depart_all}
use nyan_real_vdd.Device.Capture.{open_capture, has_owner, open_at, find_arrived}
use nyan_real_vdd.Device.System.{start, next, unplugs, Reach-TableOk}

abbrev full_hd : NyanMode
full_hd = mode 1920 1080 60

abbrev full_hd_plug : PlugIn
full_hd_plug = record { cookie = 7; width = 1920; height = 1080; refresh_hz = 60; flags = 0 }

-- The framework accepts the monitor, and no other thread runs.
abbrev quiet : PlugEnv
quiet = record {
  binding_ok = true;
  create = done;
  handle = 100;
  context_ok = true;
  arrival = done;
  before_read = λ d. d;
  before_commit = λ d. d;
  before_rollback = λ d. d;
}

quiet-IsQuiet : IsQuiet quiet
quiet-IsQuiet = record { read = λ d. refl; committed = λ d. refl; rolled_back = λ d. refl }

-- The framework refuses the monitor's arrival.
abbrev refusing : PlugEnv
refusing = record quiet { arrival = OsResult.failed 5 }

refusing-IsQuiet : IsQuiet refusing
refusing-IsQuiet = record { read = λ d. refl; committed = λ d. refl; rolled_back = λ d. refl }

abbrev ready_device : Device
ready_device = record new_device { adapter_ready = true; adapter_state = AdapterState.ready }

one_slot-SlotOk : SlotOk one_slot
unfolding is_supported_mode horizontal_hz pixel_clock_hz
one_slot-SlotOk = record {
  empty_unless_used = λ h. cc;
  cookie_ne_zero = λ h. omega arith;
  supported = λ h. refl;
  edid_built = λ h. refl;
  captured = λ h. λ e. cc;
  monitored = λ h. λ e. cc;
  unmonitored = λ h. cc;
  active_arrived = λ h. refl;
  owner_arrived = λ h. refl;
}

one_monitor-TableOk : TableOk one_monitor.slots
unfolding has_cookie
one_monitor-TableOk = record {
  four = refl;
  each = (one_slot-SlotOk, (empty_slot-SlotOk, (empty_slot-SlotOk, (empty_slot-SlotOk, tt))));
  unique = ((λ h. refl), ((λ h. cc), ((λ h. cc), ((λ h. cc), tt))));
}

Reach-TableOk_example : TableOk (unplug 0 new_device).1.slots
Reach-TableOk_example =
    Reach-TableOk (next new_device (unplug 0 new_device).1 start (unplugs 0 new_device))

plug_succeeds_iff_example :
    nt_success (plug quiet full_hd_plug ready_device).0
    ≡ (is_admitted quiet full_hd_plug ready_device && os_accepts quiet)
plug_succeeds_iff_example =
    plug_succeeds_iff quiet full_hd_plug ready_device quiet-IsQuiet (omega arith) new_device-TableOk

plug_run : nt_success (plug quiet full_hd_plug ready_device).0 ≡ true
unfolding has_free has_cookie is_supported_mode horizontal_hz pixel_clock_hz
plug_run =
    plug_succeeds_iff quiet full_hd_plug ready_device quiet-IsQuiet (omega arith) new_device-TableOk

lookup-plug_example :
    lookup 7 (plug quiet full_hd_plug ready_device).2.slots
    ≡ some (arrived_slot quiet (reserved_slot full_hd_plug 0 0))
lookup-plug_example =
    lookup-plug quiet full_hd_plug ready_device quiet-IsQuiet (omega arith) 7 new_device-TableOk
      plug_run

refusal_run : nt_success (plug refusing full_hd_plug ready_device).0 ≡ false
unfolding has_free has_cookie is_supported_mode horizontal_hz pixel_clock_hz
refusal_run =
    plug_succeeds_iff refusing full_hd_plug ready_device refusing-IsQuiet (omega arith)
      new_device-TableOk

-- The system grants a channel.
abbrev granting : CreateEnv
granting = record {
  alloc_fails = false;
  create_guid = none;
  guid_text = some (1 ∷ []);
  convert_descriptor = none;
  create_mapping = none;
  already_exists = false;
  map_view = none;
  process_id = 4;
}

open_capture_run : nt_success (open_capture 7 (some 1) false granting one_monitor).0 ≡ true
unfolding open_capture open_at has_owner find_arrived create
open_capture_run = refl

abbrev reserved_device : Device
reserved_device = record ready_device {
  slots = reserved_slot full_hd_plug 0 0 ∷ empty_slot ∷ empty_slot ∷ empty_slot ∷ [];
}

reserve_run : reserve full_hd_plug 0 ready_device ≡ at_index 0 reserved_device
unfolding reserve has_cookie first_free
reserve_run = refl

-- A second plug of cookie 7, after an unplug of it.
abbrev smaller_plug : PlugIn
smaller_plug = record full_hd_plug { width = 1280; height = 720 }

abbrev reused_device : Device
reused_device = record ready_device {
  slots = reserved_slot smaller_plug 0 1 ∷ empty_slot ∷ empty_slot ∷ empty_slot ∷ [];
}

full_hd_plug-IsAcceptable : IsAcceptable full_hd_plug
unfolding is_supported_mode horizontal_hz pixel_clock_hz
full_hd_plug-IsAcceptable = record { cookie_ne_zero = omega arith; supported = refl }

reuse_run : reserve smaller_plug 1 (unplug 7 reserved_device).1 ≡ at_index 0 reused_device
unfolding reserve has_cookie first_free unplug sweep stop_channel depart_all reserved_slot
reuse_run = refl

rollback_after_reuse_example :
    let cleared = (unplug 7 reserved_device).1 in
    let committed = (commit 0 7 100 reused_device).1 in
    (rollback 0 7 cleared ≡ cleared)
    × (full_hd_plug.cookie ≡ smaller_plug.cookie
        → (rollback 0 7 reused_device).slots ≡ cleared.slots)
    × (full_hd_plug.cookie ≢ smaller_plug.cookie → rollback 0 7 reused_device ≡ reused_device)
    × (rollback 0 7 committed ≡ committed)
rollback_after_reuse_example =
    rollback_after_reuse full_hd_plug smaller_plug 0 1 0 7 100 ready_device reserved_device
      reused_device new_device-TableOk full_hd_plug-IsAcceptable reserve_run reuse_run
