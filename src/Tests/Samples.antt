-- ===== src/Tests/Samples.antt =====
-- Environments and states that several tests use.
use nyan_real_vdd.Base.{refl, true, false, none, some, [], ◌∷◌}
use nyan_real_vdd.Protocol.{PlugIn, AdapterState}
use nyan_real_vdd.Device.{Device, new_device, done, Slot, empty_slot}
use nyan_real_vdd.Edid.Block.{build_edid}
use nyan_real_vdd.Device.Plug.Quiet.{IsQuiet}
use nyan_real_vdd.Driver.Ioctl.{IoctlEnv}

-- Every call of the framework succeeds, and no other thread runs.
abbrev pub alone : IoctlEnv
alone = record {
  input = done;
  output = done;
  impersonate = done;
  authorized = true;
  file_object = some 1;
  closing = false;
  channel = record {
    alloc_fails = false;
    create_guid = none;
    guid_text = some [];
    convert_descriptor = none;
    create_mapping = none;
    already_exists = false;
    map_view = none;
    process_id = 4;
  };
  plug = record {
    binding_ok = true;
    create = done;
    handle = 100;
    context_ok = true;
    arrival = done;
    before_read = λ d. d;
    before_commit = λ d. d;
    before_rollback = λ d. d;
  };
  watchdog = record { wake_ok = true; stop_ok = true; thread_ok = true };
  set_now = 5;
  pet_now = 6;
}

pub alone-IsQuiet : IsQuiet alone.plug
alone-IsQuiet = record { read = λ d. refl; committed = λ d. refl; rolled_back = λ d. refl }

-- The adapter is ready, and nothing is plugged.
abbrev pub waiting_device : Device
waiting_device = record new_device { adapter_ready = true; adapter_state = AdapterState.ready }

abbrev pub hd_plug : PlugIn
hd_plug = record { cookie = 7; width = 1920; height = 1080; refresh_hz = 60; flags = 0 }

-- A monitor that has arrived.
abbrev pub one_slot : Slot
one_slot = record {
  used = true;
  arrived = true;
  active = false;
  params = hd_plug;
  monitor = some 100;
  edid = build_edid 7 (record { width = 1920; height = 1080; refresh_hz = 60 });
  capture = some 0;
  capture_owner = none;
}

abbrev pub one_monitor : Device
one_monitor = record waiting_device {
  slots = one_slot ∷ empty_slot ∷ empty_slot ∷ empty_slot ∷ [];
  next_binding = 1;
}
