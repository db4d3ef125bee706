-- ===== src/Tests/DriverRuns.antt =====
-- The callbacks and the control interface at concrete inputs.
use nyan_real_vdd.Base.{◌≡◌, refl, true, false, none, some, [], ◌∷◌, map, arith}
use nyan_real_vdd.Edid.Mode.{NyanMode}
use nyan_real_vdd.Edid.ModeList.{mode, build_mode_list, append_table}
use nyan_real_vdd.Edid.Block.{build_edid}
use nyan_real_vdd.Device.{Device, Slot, empty_slot, new_device, nt_success, done}
use nyan_real_vdd.Device.Plug.Invariant.{Keeps}
use nyan_real_vdd.Driver.Modes.{
  Description, mode_list_of, resolve_mode_list, resolve, parse_monitor_description, query_modes,
}
use nyan_real_vdd.Driver.Modes.Laws.{
  monitor_picture, target_picture, monitor_and_target_modes_agree,
}
use nyan_real_vdd.Driver.Ioctl.{open_capture_request, IoctlEnv, nothing, io_device_control}
use nyan_real_vdd.Driver.Ioctl.Laws.{unauthorized_capture}

abbrev uhd : NyanMode
uhd = mode 3840 2160 75

abbrev one_slot : Slot
one_slot = record empty_slot {
  used = true;
  arrived = true;
  params = record { cookie = 7; width = 3840; height = 2160; refresh_hz = 75; flags = 0 };
  edid = build_edid 7 uhd;
}

abbrev one_monitor : Device
one_monitor = record new_device { slots = one_slot ∷ empty_slot ∷ empty_slot ∷ empty_slot ∷ [] }

abbrev description : Description
description = record { is_edid = true; data_size = 128; bytes = some (build_edid 7 uhd) }

-- With no device context the list is the static table.
monitor_and_target_modes_agree_example :
    map monitor_picture (parse_monitor_description true none description 16 true).written
    ≡ map target_picture (query_modes true none description 16 true).1
unfolding resolve_mode_list resolve mode_list_of build_mode_list append_table
monitor_and_target_modes_agree_example =
    monitor_and_target_modes_agree true none description 16 refl refl (omega arith) (omega arith)

-- Every call of the framework succeeds, but the caller is not authorized.
abbrev stranger : IoctlEnv
stranger = record {
  input = done;
  output = done;
  impersonate = done;
  authorized = false;
  file_object = some 1;
  closing = false;
  channel = record {
    alloc_fails = false;
    create_guid = none;
    guid_text = some [];
    convert_descriptor = none;
    create_mapping = none;
    already_exists = false;
    map_view = none;
    process_id = 4;
  };
  plug = record {
    binding_ok = true;
    create = done;
    handle = 100;
    context_ok = true;
    arrival = done;
    before_read = λ d. d;
    before_commit = λ d. d;
    before_rollback = λ d. d;
  };
  watchdog = record { wake_ok = true; stop_ok = true; thread_ok = true };
  set_now = 5;
  pet_now = 6;
}

stranger-Keeps : Keeps stranger.plug
stranger-Keeps = record { read = λ d v. v; committed = λ d v. v; rolled_back = λ d v. v }

unauthorized_capture_example :
    (nt_success (io_device_control stranger (open_capture_request 7) one_monitor).0 ≡ false)
    × ((io_device_control stranger (open_capture_request 7) one_monitor).1 ≡ nothing)
    × ((io_device_control stranger (open_capture_request 7) one_monitor).2 ≡ one_monitor)
unauthorized_capture_example = unauthorized_capture stranger 7 one_monitor refl
