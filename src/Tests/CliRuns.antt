-- ===== src/Tests/CliRuns.antt =====
-- nyanvddctl at concrete arguments.
use nyan_real_vdd.Base.{ℕ, ◌<◌, ◌^◌, ◌≡◌, refl, true, none, some, List, [], ◌∷◌, ◌++◌, arith}
use nyan_real_vdd.Protocol.{MonitorInfo}
use nyan_real_vdd.Protocol.ContainerId.{make_container_id}
use nyan_real_vdd.Device.{Device, NtStatus}
use nyan_real_vdd.Device.Invariant.{new_device-TableOk}
use nyan_real_vdd.Driver.Ioctl.{Request, IoctlEnv, list_answer}
use nyan_real_vdd.Driver.Ioctl.Registry.{registry_of}
use nyan_real_vdd.Cli.{Text, same_text, ControlResult, answered, Session}
use nyan_real_vdd.Cli.Console.{Wts}
use nyan_real_vdd.Cli.DevicePath.{
  hash, brace, path_prefix, instance_id_from_device_path, without_prefix, without_class, rfind_hash,
  brace_after,
}
use nyan_real_vdd.Cli.Displays.{DisplayConfig, edid_manufacture_id, edid_product_code_id}
use nyan_real_vdd.Cli.Displays.Laws.{Shows}
use nyan_real_vdd.Cli.Commands.{cmd_resolve, cmd_watchdog, cmd_unplug, off_word}
use nyan_real_vdd.Cli.Commands.Resolved.{OnScreen, cmd_resolve_zero}
use nyan_real_vdd.Cli.Plug.{Scanner, cmd_plug, parse_plug, default_plug, cookie_option}
use nyan_real_vdd.Cli.Drive.{drive, PlugOutcome, cmd_plug-PlugOutcome}
use nyan_real_vdd.Cli.Drive.Unplug.{UnplugOutcome, cmd_unplug-UnplugOutcome, cmd_watchdog-off}
use nyan_real_vdd.Cli.Main.{Windows, wmain, plug_word}
use nyan_real_vdd.Cli.Main.Laws.{VersionFirst, wmain-VersionFirst}
use nyan_real_vdd.Tests.Samples.{alone, alone-IsQuiet, waiting_device}

-- "7", read as the number 7; every other text is no number.
abbrev seven : Text
seven = 55 ∷ []

abbrev read_number : Text → ℕ
read_number [] = 0
read_number (c ∷ cs) = 7

abbrev scanner : Scanner
scanner = record { wcstoul = read_number; mode = λ t. none }

read_number_fits : (t : Text) → read_number t < 2 ^ 32
read_number_fits [] = omega arith
read_number_fits (c ∷ cs) = omega arith

-- The console session is the one that is shown.
abbrev console : Wts
console = record { console_session = 1; console_state = some (4, 0); sessions = none }

abbrev session : Session Device
session = record { driver = waiting_device; sent = []; said = [] }

abbrev environments : Request → IoctlEnv
environments r = alone

abbrev error_of : NtStatus → ℕ
error_of status = 1

-- The instance id of a device path, "DISPLAY\NYN3D0F\1&37a367&0&UID256".
abbrev id : Text
id =
    68 ∷ 73 ∷ 83 ∷ 80 ∷ 76 ∷ 65 ∷ 89 ∷ 35 ∷ 78 ∷ 89 ∷ 78 ∷ 51 ∷ 68 ∷ 48 ∷ 70 ∷ 35 ∷ 49 ∷ 38 ∷ 51
    ∷ 55 ∷ 97 ∷ 51 ∷ 54 ∷ 55 ∷ 38 ∷ 48 ∷ 38 ∷ 85 ∷ 73 ∷ 68 ∷ 50 ∷ 53 ∷ 54 ∷ []

abbrev class : Text
class = 101 ∷ 54 ∷ 102 ∷ 48 ∷ 55 ∷ 98 ∷ 53 ∷ 102 ∷ 125 ∷ []

instance_id_run :
    instance_id_from_device_path (path_prefix ++ (id ++ (hash ∷ brace ∷ class)))
    ≡ 68 ∷ 73 ∷ 83 ∷ 80 ∷ 76 ∷ 65 ∷ 89 ∷ 92 ∷ 78 ∷ 89 ∷ 78 ∷ 51 ∷ 68 ∷ 48 ∷ 70 ∷ 92 ∷ 49 ∷ 38 ∷ 51
      ∷ 55 ∷ 97 ∷ 51 ∷ 54 ∷ 55 ∷ 38 ∷ 48 ∷ 38 ∷ 85 ∷ 73 ∷ 68 ∷ 50 ∷ 53 ∷ 54 ∷ []
unfolding instance_id_from_device_path without_prefix without_class same_text rfind_hash brace_after
instance_id_run = refl

-- The display of the monitor with cookie 7.
abbrev displays : DisplayConfig
displays = record {
  sizes_ok = true;
  paths = some ((1, 2) ∷ []);
  target_name = λ t. some (record {
    manufacture_id = edid_manufacture_id;
    product_code_id = edid_product_code_id;
    device_path = path_prefix ++ (id ++ (hash ∷ brace ∷ class));
    friendly_name = [];
  });
  locate = λ t. some 3;
  container_id = λ node. some (true, make_container_id 7);
  source_name = λ s. some [];
  settings = λ t. none;
}

abbrev listed : MonitorInfo
listed = record {
  cookie = 7;
  connector_index = 0;
  width = 1920;
  height = 1080;
  refresh_hz = 60;
  flags = 0;
}

shown : Shows displays 7 (1, 2)
shown = record {
  target = record {
    manufacture_id = edid_manufacture_id;
    product_code_id = edid_product_code_id;
    device_path = path_prefix ++ (id ++ (hash ∷ brace ∷ class));
    friendly_name = [];
  };
  id = id;
  class = class;
  node = 3;
  gdi = [];
  named = refl;
  vendor = refl;
  product = refl;
  path = refl;
  plain = ground arith;
  located = refl;
  contained = refl;
  source = refl;
}

on_screen : OnScreen displays ((1, 2) ∷ []) listed
on_screen = record {
  nonzero = omega arith;
  fits = omega arith;
  before = [];
  path = (1, 2);
  after = [];
  split = refl;
  shows = shown;
}

abbrev lists_one : Request → ℕ → ControlResult × ℕ
lists_one r d = (answered (list_answer (listed ∷ [])), d)

abbrev counted : Session ℕ
counted = record { driver = 0; sent = []; said = [] }

-- The monitor that the driver lists is on the screen.
cmd_resolve_zero_example : (cmd_resolve lists_one console displays counted).0 ≡ 0
cmd_resolve_zero_example =
    cmd_resolve_zero lists_one console displays ((1, 2) ∷ []) (listed ∷ []) counted 0 refl refl refl
      (on_screen, tt)

abbrev windows : Windows
windows = record {
  wts = console;
  displays = displays;
  scanner = scanner;
  random = λ i. 9;
  sw_device = record { create = none; signalled = true; creation = none; set_lifetime = λ l. none };
  interfaces = record {
    length = some 20;
    list_error = 0;
    first = some 92;
    last_error = 0;
    handle = some 5;
  };
}

wmain-VersionFirst_example :
    VersionFirst lists_one windows counted
      (wmain lists_one windows (plug_word ∷ []) counted).session.sent
wmain-VersionFirst_example = wmain-VersionFirst lists_one windows (plug_word ∷ []) counted

abbrev arguments : List Text
arguments = cookie_option ∷ seven ∷ []

cmd_plug-PlugOutcome_example :
    PlugOutcome
      (parse_plug scanner arguments default_plug)
      (λ i. 9)
      (registry_of waiting_device.slots)
      (registry_of
        (cmd_plug
          (drive environments error_of)
          scanner
          (λ i. 9)
          console
          arguments
          session).1.driver.slots)
      (cmd_plug (drive environments error_of) scanner (λ i. 9) console arguments session).0
cmd_plug-PlugOutcome_example =
    cmd_plug-PlugOutcome environments error_of (λ r. alone-IsQuiet) scanner (λ i. 9) 0 console
      arguments session new_device-TableOk read_number_fits (λ i. omega arith) (omega arith)
      (omega arith) (λ i lt. absurd (omega arith))

cmd_unplug-UnplugOutcome_example :
    UnplugOutcome read_number seven
      (registry_of waiting_device.slots)
      (registry_of
        (cmd_unplug (drive environments error_of) read_number seven session).1.driver.slots)
      (cmd_unplug (drive environments error_of) read_number seven session).0
cmd_unplug-UnplugOutcome_example =
    cmd_unplug-UnplugOutcome environments error_of (λ r. alone-IsQuiet) read_number seven session
      new_device-TableOk

cmd_watchdog-off_example :
    (cmd_watchdog lists_one read_number [] counted
      ≡ cmd_watchdog lists_one read_number off_word counted)
    × ((cmd_unplug lists_one read_number [] counted).0 ≡ 2)
    × ((cmd_unplug lists_one read_number [] counted).1.sent ≡ [])
unfolding same_text
cmd_watchdog-off_example = cmd_watchdog-off lists_one read_number [] counted refl refl
