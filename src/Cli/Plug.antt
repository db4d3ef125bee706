-- ===== src/Cli/Plug.antt =====
-- CmdPlug (cli/nyanvddctl.cpp): its arguments, the random cookie, and the request.
pub mod Laws
use nyan_real_vdd.Base.{
  ℕ, zero, suc, Bool, true, false, Option, none, some, List, [], ◌∷◌, ◌==◌, if◌then◌else◌,
}
use nyan_real_vdd.Base.Bits.{set_bit}
use nyan_real_vdd.Protocol.{PlugIn, plug_flag_hdr10}
use nyan_real_vdd.Driver.Ioctl.{Request, Answer, plug_request, plug_answer}
use nyan_real_vdd.Cli.{
  Text, same_text, ControlResult, Session, say, ioctl, or_fail, Owner, unrecognized, plugged,
  will_not_appear,
}
use nyan_real_vdd.Cli.Console.{Wts, is_console_session_active}

-- "--hdr" and "--cookie"
abbrev pub hdr_option : Text
hdr_option = 45 ∷ 45 ∷ 104 ∷ 100 ∷ 114 ∷ []

abbrev pub cookie_option : Text
cookie_option = 45 ∷ 45 ∷ 99 ∷ 111 ∷ 111 ∷ 107 ∷ 105 ∷ 101 ∷ []

-- The functions of the C library: `wcstoul`, and what `swscanf_s` with "%ux%u@%u" stores when it
-- converts all three.
pub record Scanner : Type 0 where
  pub wcstoul : Text → ℕ
  pub mode : Text → Option (ℕ × ℕ × ℕ)

-- The default request.
abbrev pub default_plug : PlugIn
default_plug = record { cookie = 0; width = 1920; height = 1080; refresh_hz = 60; flags = 0 }

pub data Parsed : Type 0 where
  parsed : PlugIn → Parsed
  bad : Text → Parsed

abbrev pub with_hdr : PlugIn → PlugIn
with_hdr p = record p { flags = set_bit p.flags plug_flag_hdr10 }

abbrev pub with_cookie : ℕ → PlugIn → PlugIn
with_cookie cookie p = record p { cookie = cookie }

abbrev pub with_mode : ℕ × ℕ × ℕ → PlugIn → PlugIn
with_mode (width, height, refresh_hz) p = record p {
  width = width;
  height = height;
  refresh_hz = refresh_hz;
}

-- The loop over the arguments. A "--cookie" without a number after it is scanned as a mode.
unfoldable pub parse_plug : Scanner → List Text → PlugIn → Parsed
parse_plug c [] p = parsed p
parse_plug c (arg ∷ []) p =
    if same_text arg hdr_option
    then parsed (with_hdr p)
    else elim (c.mode arg) [ none ↦ bad arg | some m ↦ parsed (with_mode m p) ]
parse_plug c (arg ∷ next ∷ args) p =
    let after_hdr = parse_plug c (next ∷ args) (with_hdr p) in
    let after_cookie = parse_plug c args (with_cookie (c.wcstoul next) p) in
    if same_text arg hdr_option
    then after_hdr
    else if same_text arg cookie_option
    then after_cookie
    else elim (c.mode arg) [ none ↦ bad arg | some m ↦ parse_plug c (next ∷ args) (with_mode m p) ]

-- `do { In.Cookie = Rd(); } while (In.Cookie == 0)`: the device's numbers from the `k`-th on, at most
-- `fuel` of them after it.
unfoldable pub draw : ℕ → (ℕ → ℕ) → ℕ → ℕ
draw zero rd k = rd k
draw (suc fuel) rd k = let rest = draw fuel rd (suc k) in if rd k == 0 then rest else rd k

abbrev pub draw_fuel : ℕ
draw_fuel = 4

abbrev pub with_drawn : (ℕ → ℕ) → PlugIn → PlugIn
with_drawn rd p = if p.cookie == 0 then with_cookie (draw draw_fuel rd 0) p else p

-- The connector index of the output buffer, which starts as 0.
abbrev pub read_connector : Answer → ℕ
read_connector (plug_answer connector) = connector
read_connector _ = 0

-- The end of CmdPlug.
abbrev warn {ℓ} : {D : Type ℓ} → Option Owner → Session D → ℕ × Session D
warn (some owner) s = (3, say (will_not_appear owner) s)
warn none s = (0, s)

-- What CmdPlug says of a success, and its exit code.
unfoldable pub report_plug {ℓ} : {D : Type ℓ} → Wts → PlugIn → Answer → Session D → ℕ × Session D
report_plug w p a s =
    warn (is_console_session_active w)
      (say (plugged p.cookie (read_connector a) p.width p.height p.refresh_hz) s)

module _ {ℓ} {D : Type ℓ} (control : Request → D → ControlResult × D) where
  unfoldable pub send_plug : Wts → PlugIn → Session D → ℕ × Session D
  send_plug w p s = or_fail (ioctl control (plug_request p) s) (report_plug w p)

  abbrev plug_parsed : (ℕ → ℕ) → Wts → Parsed → Session D → ℕ × Session D
  plug_parsed rd w (bad arg) s = (2, say (unrecognized arg) s)
  plug_parsed rd w (parsed p) s = send_plug w (with_drawn rd p) s

  -- CmdPlug
  unfoldable pub cmd_plug : Scanner → (ℕ → ℕ) → Wts → List Text → Session D → ℕ × Session D
  cmd_plug c rd w args s = plug_parsed rd w (parse_plug c args default_plug) s
