-- ===== src/Cli.antt =====
-- nyanvddctl (cli/nyanvddctl.cpp), the control tool: its session with the driver, and what it says.
-- A text is the list of its UTF-16 code units. What the program asks Windows is an argument.
pub mod Console
pub mod DevicePath
pub mod Displays
pub mod Commands
pub mod Plug
pub mod Lifetime
pub mod Main
pub mod Drive
use nyan_real_vdd.Base.{ℕ, Bool, true, false, ◌&&◌, Option, none, some, List, [], ◌∷◌, ◌==◌}
use nyan_real_vdd.Protocol.{MonitorInfo, AdapterState}
use nyan_real_vdd.Driver.Ioctl.{Request, Answer}

abbrev pub Text : Type 0
Text = List ℕ

-- `wcscmp(a, b) == 0`
unfoldable pub same_text : Text → Text → Bool
same_text [] [] = true
same_text [] (b ∷ bs) = false
same_text (a ∷ rest) [] = false
same_text (a ∷ rest) (b ∷ bs) = a == b && same_text rest bs

-- The session that shows the desktop, as IsConsoleSessionActive names it.
pub data Owner : Type 0 where
  another_session remote_desktop another_local_session : Owner

-- ResolvedDisplay
pub record ResolvedDisplay : Type 0 where
  pub cookie : ℕ
  pub gdi_name : Text
  pub friendly_name : Text
  pub width : ℕ
  pub height : ℕ
  pub refresh_hz : ℕ
  pub pos_x : ℕ
  pub pos_y : ℕ

-- The lines of CmdStatus; the capabilities are the bits 0 to 3 and whether there are none.
pub record StatusLines : Type 0 where
  pub protocol : ℕ
  pub major : ℕ
  pub minor : ℕ
  pub os_iddcx : ℕ
  pub monitors : ℕ
  pub max_monitors : ℕ
  pub adapter : AdapterState
  pub hdr10_ready : Bool
  pub rt_gpu_priority : Bool
  pub precise_dirty : Bool
  pub shared_capture : Bool
  pub no_caps : Bool
  pub watchdog_armed : Bool
  pub watchdog_ms : ℕ

-- One call of wprintf or fwprintf, by its format and arguments.
pub data Message : Type 0 where
  usage device_created device_removed : Message
  create_failed creation_failed lifetime_failed : ℕ → Message
  creation_timeout no_device : Message
  list_interfaces_failed : ℕ → Message
  open_failed : ℕ → Message
  control_failed : ℕ → Message
  protocol_mismatch : ℕ → ℕ → Message
  not_visible_here none_visible will_not_appear : Owner → Message
  should_be_transient query_config_failed no_monitors : Message
  resolved : MonitorInfo → ResolvedDisplay → Message
  plugged_as : MonitorInfo → Message
  not_on_screen : MonitorInfo → Message
  orphan : ResolvedDisplay → Message
  status_lines : StatusLines → Message
  connector : MonitorInfo → Bool → Bool → Message
  unrecognized bad_cookie : Text → Message
  plugged : ℕ → ℕ → ℕ → ℕ → ℕ → Message
  unplugged watchdog_armed watchdog_off : Message

-- What DeviceIoControl answers: the output buffer, or GetLastError.
pub data ControlResult : Type 0 where
  answered : Answer → ControlResult
  refused : ℕ → ControlResult

-- The driver behind the handle, the requests sent to it, and the lines written; each list the latest
-- first.
pub record Session {ℓ} (D : Type ℓ) : Type ℓ where
  pub driver : D
  pub sent : List Request
  pub said : List Message

module _ {ℓ} {D : Type ℓ} where
  abbrev pub say : Message → Session D → Session D
  say m s = record s { said = m ∷ s.said }

  abbrev received : Request → Session D → ControlResult × D → Option Answer × Session D
  received request s (answered a, d) = (some a, record s { driver = d; sent = request ∷ s.sent })
  received request s (refused code, d) =
      (none, say (control_failed code) (record s { driver = d; sent = request ∷ s.sent }))

  -- Ioctl: the answer of a success.
  unfoldable pub ioctl :
      (Request → D → ControlResult × D) → Request → Session D → Option Answer × Session D
  ioctl control request s = received request s (control request s.driver)

  -- `if (!Ioctl(...)) return 1;` and the rest of a command.
  abbrev pub or_fail :
      Option Answer × Session D → (Answer → Session D → ℕ × Session D) → ℕ × Session D
  or_fail (none, s) rest = (1, s)
  or_fail (some a, s) rest = rest a s
