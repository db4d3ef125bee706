-- ===== src/Cli/Main.antt =====
-- wmain (cli/nyanvddctl.cpp): the commands, and the check of the protocol version before them.
pub mod Laws
use nyan_real_vdd.Base.{
  ℕ, zero, suc, Bool, true, false, not, Option, none, some, List, [], ◌∷◌, ◌++◌, ◌==◌,
  if◌then◌else◌,
}
use nyan_real_vdd.Protocol.{protocol_version, control_protocol_supported}
use nyan_real_vdd.Driver.Ioctl.{Request, Answer, get_status_request}
use nyan_real_vdd.Cli.{
  Text, same_text, Message, ControlResult, Session, say, ioctl, or_fail, usage, device_created,
  device_removed, protocol_mismatch,
}
use nyan_real_vdd.Cli.Console.{Wts}
use nyan_real_vdd.Cli.Displays.{DisplayConfig}
use nyan_real_vdd.Cli.Commands.{
  read_status, cmd_resolve, cmd_status, cmd_list, cmd_unplug, cmd_watchdog,
}
use nyan_real_vdd.Cli.Plug.{Scanner, cmd_plug}
use nyan_real_vdd.Cli.Lifetime.{
  SwLifetime, while_handle_open, while_parent_present, SwDevice, SwCall, set_device_lifetime,
  Interfaces, open_device,
}

-- "install-device"
abbrev pub install_word : Text
install_word = 105 ∷ 110 ∷ 115 ∷ 116 ∷ 97 ∷ 108 ∷ 108 ∷ 45 ∷ 100 ∷ 101 ∷ 118 ∷ 105 ∷ 99 ∷ 101 ∷ []

-- "remove-device"
abbrev pub remove_word : Text
remove_word = 114 ∷ 101 ∷ 109 ∷ 111 ∷ 118 ∷ 101 ∷ 45 ∷ 100 ∷ 101 ∷ 118 ∷ 105 ∷ 99 ∷ 101 ∷ []

-- "status"
abbrev pub status_word : Text
status_word = 115 ∷ 116 ∷ 97 ∷ 116 ∷ 117 ∷ 115 ∷ []

-- "list"
abbrev pub list_word : Text
list_word = 108 ∷ 105 ∷ 115 ∷ 116 ∷ []

-- "resolve"
abbrev pub resolve_word : Text
resolve_word = 114 ∷ 101 ∷ 115 ∷ 111 ∷ 108 ∷ 118 ∷ 101 ∷ []

-- "plug"
abbrev pub plug_word : Text
plug_word = 112 ∷ 108 ∷ 117 ∷ 103 ∷ []

-- "unplug"
abbrev pub unplug_word : Text
unplug_word = 117 ∷ 110 ∷ 112 ∷ 108 ∷ 117 ∷ 103 ∷ []

-- "watchdog"
abbrev pub watchdog_word : Text
watchdog_word = 119 ∷ 97 ∷ 116 ∷ 99 ∷ 104 ∷ 100 ∷ 111 ∷ 103 ∷ []

-- What Windows and the C++ library answer to the program.
pub record Windows : Type 0 where
  pub wts : Wts
  pub displays : DisplayConfig
  pub scanner : Scanner
  pub random : ℕ → ℕ
  pub sw_device : SwDevice
  pub interfaces : Interfaces

-- A run of the program that ended: the exit code, the session, the calls about the device node, and
-- the handles of the driver's interface that were opened and closed, in that order.
pub record Finished {ℓ} (D : Type ℓ) : Type ℓ where
  pub code : ℕ
  pub session : Session D
  pub sw_calls : List SwCall
  pub opened : List ℕ
  pub closed : List ℕ

module _ {ℓ} {D : Type ℓ} where
  unfoldable pub say_all : List Message → Session D → Session D
  say_all [] s = s
  say_all (m ∷ ms) s = say_all ms (say m s)

  abbrev without_device : ℕ → Session D → Finished D
  without_device code s = record {
    code = code;
    session = s;
    sw_calls = [];
    opened = [];
    closed = [];
  }

  -- The commands that create and remove the device node.
  unfoldable pub change_device_node : SwDevice → SwLifetime → Message → Session D → Finished D
  change_device_node w lifetime done s =
      let (code, calls, said) = set_device_lifetime w lifetime in
      let s' = say_all said s in
      record (without_device code (if code == 0 then say done s' else s')) { sw_calls = calls }

  module _ (control : Request → D → ControlResult × D) where
    -- The commands with an argument after their name.
    unfoldable pub run_with : Windows → Text → List Text → Session D → ℕ × Session D
    run_with w cmd [] s = (2, say usage s)
    run_with w cmd (arg ∷ args) s =
        if same_text cmd unplug_word
        then cmd_unplug control w.scanner.wcstoul arg s
        else if same_text cmd watchdog_word
        then cmd_watchdog control w.scanner.wcstoul arg s
        else (2, say usage s)

    -- The commands to a driver whose version is known.
    unfoldable pub run_command : Windows → Text → List Text → Session D → ℕ × Session D
    run_command w cmd args s =
        if same_text cmd status_word
        then cmd_status control s
        else if same_text cmd list_word
        then cmd_list control w.wts s
        else if same_text cmd resolve_word
        then cmd_resolve control w.wts w.displays s
        else if same_text cmd plug_word
        then cmd_plug control w.scanner w.random w.wts args s
        else run_with w cmd args s

    -- The check of the version, and the command.
    unfoldable pub checked : Windows → Text → List Text → Answer → Session D → ℕ × Session D
    checked w cmd args a s =
        let version = (read_status a).protocol_version in
        if not (control_protocol_supported version)
        then (1, say (protocol_mismatch version protocol_version) s)
        else run_command w cmd args s

    unfoldable pub probe : Windows → Text → List Text → Session D → ℕ × Session D
    probe w cmd args s = or_fail (ioctl control get_status_request s) (checked w cmd args)

    unfoldable pub with_handle : Windows → Text → List Text → Option ℕ → Session D → Finished D
    with_handle w cmd args none s = without_device 1 s
    with_handle w cmd args (some h) s =
        let (code, s') = probe w cmd args s in
        record (without_device code s') { opened = h ∷ []; closed = h ∷ [] }

    -- wmain, on the arguments after the program's name.
    unfoldable pub wmain : Windows → List Text → Session D → Finished D
    wmain w [] s = without_device 2 (say usage s)
    wmain w (cmd ∷ args) s =
        if same_text cmd install_word
        then change_device_node w.sw_device while_parent_present device_created s
        else if same_text cmd remove_word
        then change_device_node w.sw_device while_handle_open device_removed s
        else (let (handle, said) = open_device w.interfaces in
            with_handle w cmd args handle (say_all said s))
