-- ===== src/Cli/Drive.antt =====
-- nyanvddctl (cli/nyanvddctl.cpp) on the driver: DeviceIoControl reaches NyanVddIoDeviceControl.
pub mod Unplug
use nyan_real_vdd.Base.{
  ℕ, zero, suc, ◌<◌, ◌≤◌, ◌^◌, ◌≡◌, ◌≢◌, refl, Bool, true, false, ◌||◌, ◌⊎◌, inl, inr, Option, none,
  some, List, [], ◌∷◌, arith, Bool-cases, Option-cases, ap, ◌∙◌, sym, subst, ◌==◌, if◌then◌else◌,
}
use nyan_real_vdd.Base.Bits.{clear_bit}
use nyan_real_vdd.Protocol.{PlugIn, plug_flag_hdr10}
use nyan_real_vdd.Device.{Device, NtStatus, nt_success}
use nyan_real_vdd.Device.Invariant.{TableOk}
use nyan_real_vdd.Device.Plug.Quiet.{IsQuiet}
use nyan_real_vdd.Driver.Ioctl.{
  Request, plug_request, unplug_request, IoctlEnv, Answer, io_device_control,
}
use nyan_real_vdd.Driver.Ioctl.Registry.{Registry, registry_of, Spec, plugs, unplugs, fails, reads}
use nyan_real_vdd.Driver.Ioctl.Refine.{io_device_control-Spec}
use nyan_real_vdd.Cli.{Text, same_text, ControlResult, answered, refused, Session, ioctl, or_fail}
use nyan_real_vdd.Cli.Console.{Wts, is_console_session_active}
use nyan_real_vdd.Cli.Plug.{
  Scanner, hdr_option, cookie_option, default_plug, with_hdr, with_cookie, with_mode, Parsed,
  parsed, bad, parse_plug, draw, draw_fuel, with_drawn, report_plug, send_plug, cmd_plug,
}
use nyan_real_vdd.Cli.Plug.Laws.{with_drawn-nonzero, Parsed-cases}

-- DeviceIoControl: the answer of a request that succeeds, and the error code of a status otherwise. The
-- framework's answers may depend on the request.
unfoldable pub drive :
    (Request → IoctlEnv) → (NtStatus → ℕ) → Request → Device → ControlResult × Device
drive env error_of request d =
    let (status, answer, d') = io_device_control (env request) request d in
    ((if nt_success status then answered answer else refused (error_of status)), d')

-- The monitor is new, and it is added as asked or without HDR.
pub record Adds (p : PlugIn) (m m' : Registry) : Type 0 where
  pub granted : PlugIn
  pub new : m p.cookie ≡ none
  pub as_asked : (granted ≡ p) ⊎ (granted ≡ record p { flags = clear_bit p.flags plug_flag_hdr10 })
  pub after : (c : ℕ) → m' c ≡ (if c == p.cookie then some granted else m c)

Spec-Adds :
    (p : PlugIn) {status : NtStatus} {m m' : Registry}
    → Spec (plug_request p) status m m'
    → ((nt_success status ≡ true) × Adds p m m')
      ⊎ ((nt_success status ≡ false) × ((c : ℕ) → m' c ≡ m c))
Spec-Adds p (plugs q granted status m m' ok nz supported new as_asked after) =
    inl (ok, record { granted = granted; new = new; as_asked = as_asked; after = after })
Spec-Adds p (fails request status m m' failed same) = inr (failed, same)
Spec-Adds p (reads request status m m' no_plug no_unplug same) = absurd (no_plug p refl)

-- The cookie of a request that was parsed has 32 bits.
abbrev CookieFits : Parsed → Type 0
CookieFits (parsed p) = p.cookie < 2 ^ 32
CookieFits (bad arg) = Unit

parse_plug-CookieFits :
    (c : Scanner)
    → ((t : Text) → c.wcstoul t < 2 ^ 32)
    → (args : List Text) (p : PlugIn) → p.cookie < 2 ^ 32
    → CookieFits (parse_plug c args p)
unfolding parse_plug
parse_plug-CookieFits c h [] p lt = lt
parse_plug-CookieFits c h (arg ∷ []) p lt = elim (Bool-cases (same_text arg hdr_option)) [
  | inl hdr ↦ simp hdr lt
  | inr other ↦ elim (Option-cases (c.mode arg)) [
    | inl unread ↦ simp (other, unread) tt
    | inr (m, read) ↦ simp (other, read) lt
  ]
]
parse_plug-CookieFits c h (arg ∷ next ∷ args) p lt = elim (Bool-cases (same_text arg hdr_option)) [
  | inl hdr ↦ simp hdr (parse_plug-CookieFits c h (next ∷ args) (with_hdr p) lt)
  | inr other ↦ elim (Bool-cases (same_text arg cookie_option)) [
    | inl cookie ↦
        simp (other, cookie)
          (parse_plug-CookieFits c h args (with_cookie (c.wcstoul next) p) (h next))
    | inr no_option ↦ elim (Option-cases (c.mode arg)) [
      | inl unread ↦ simp (other, no_option, unread) tt
      | inr (m, read) ↦
          simp (other, no_option, read) (parse_plug-CookieFits c h (next ∷ args) (with_mode m p) lt)
    ]
  ]
]

draw_fits : (fuel : ℕ) (rd : ℕ → ℕ) (k : ℕ) → ((i : ℕ) → rd i < 2 ^ 32) → draw fuel rd k < 2 ^ 32
unfolding draw
draw_fits zero rd k h = h k
draw_fits (suc fuel) rd k h = ground (arith, draw_fits fuel rd (suc k) h, h k)

with_drawn_fits :
    (rd : ℕ → ℕ) (p : PlugIn)
    → ((i : ℕ) → rd i < 2 ^ 32)
    → p.cookie < 2 ^ 32
    → (with_drawn rd p).cookie < 2 ^ 32
with_drawn_fits rd p h lt = ground (arith, draw_fits draw_fuel rd 0 h)

-- Exit code 1 or 2: nothing changed. Exit code 0 or 3: the monitor of the arguments was added, under the
-- cookie that they give or, where they give none or 0, under one that was drawn.
pub data PlugOutcome (x : Parsed) (rd : ℕ → ℕ) (m m' : Registry) : ℕ → Type 0 where
  declined :
      (code : ℕ) → (code ≡ 1) ⊎ (code ≡ 2) → ((k : ℕ) → m' k ≡ m k) → PlugOutcome x rd m m' code
  added :
      (code : ℕ) (p : PlugIn)
      → (code ≡ 0) ⊎ (code ≡ 3)
      → x ≡ parsed p
      → (with_drawn rd p).cookie ≢ 0
      → Adds (with_drawn rd p) m m'
      → PlugOutcome x rd m m' code

driver-report_plug {ℓ} :
    {D : Type ℓ} (w : Wts) (p : PlugIn) (a : Answer) (s : Session D)
    → ((report_plug w p a s).1.driver ≡ s.driver)
      × (((report_plug w p a s).0 ≡ 0) ⊎ ((report_plug w p a s).0 ≡ 3))
unfolding report_plug
driver-report_plug w p a s = elim (Option-cases (is_console_session_active w)) [
  | inl here ↦ simp here (refl, inl refl)
  | inr (owner, away) ↦ simp away (refl, inr refl)
]

module _ (env : Request → IoctlEnv) (error_of : NtStatus → ℕ)
    (quiet : (r : Request) → IsQuiet (env r).plug) where
  send_plug-PlugOutcome :
      (x : Parsed) (rd : ℕ → ℕ) (w : Wts) (p : PlugIn) (s : Session Device)
      → x ≡ parsed p
      → TableOk s.driver.slots
      → (with_drawn rd p).cookie < 2 ^ 32
      → (with_drawn rd p).cookie ≢ 0
      → let r = send_plug (drive env error_of) w (with_drawn rd p) s in
        PlugOutcome x rd (registry_of s.driver.slots) (registry_of r.1.driver.slots) r.0
  unfolding send_plug ioctl drive
  send_plug-PlugOutcome x rd w p s e v fits nz =
      let q = with_drawn rd p in
      let request = plug_request q in
      let r = io_device_control (env request) request s.driver in
      elim (Spec-Adds q
        (io_device_control-Spec (env request) s.driver (quiet request) v request fits)) [
          | inr (failure, same) ↦ simp failure (declined 1 (inl refl) same)
          | inl (ok, adds) ↦
              let s' : Session Device = record s { driver = r.2; sent = request ∷ s.sent } in
              let (kept, code) = driver-report_plug w q r.1 s' in
              simp (ok, kept) (added _ p code e nz adds)
        ]

  -- Run alone against a driver with a sound slot table, where the numbers it reads and draws have 32 bits
  -- and one of the first five drawn is not 0, the plug command exits with 1 or 2 and leaves the driver's
  -- monitors as they are, or exits with 0 or 3, and the driver has just one more: the one that the
  -- arguments ask for, perhaps without HDR, under a new cookie that is not 0, theirs if they give one.
  pub cmd_plug-PlugOutcome :
      (c : Scanner) (rd : ℕ → ℕ) (j : ℕ) (w : Wts) (args : List Text) (s : Session Device)
      → TableOk s.driver.slots
      → ((t : Text) → c.wcstoul t < 2 ^ 32)
      → ((i : ℕ) → rd i < 2 ^ 32)
      → j ≤ draw_fuel
      → rd j ≢ 0
      → ((i : ℕ) → i < j → rd i ≡ 0)
      → let r = cmd_plug (drive env error_of) c rd w args s in
        PlugOutcome
          (parse_plug c args default_plug)
          rd
          (registry_of s.driver.slots)
          (registry_of r.1.driver.slots)
          r.0
  unfolding cmd_plug
  cmd_plug-PlugOutcome c rd j w args s v read_fits drawn_fits le nz before =
      let fits = parse_plug-CookieFits c read_fits args default_plug (omega arith) in
      elim (Parsed-cases (parse_plug c args default_plug)) [
        | inr (arg, e) ↦ simp e (declined 2 (inr refl) (λ k. refl))
        | inl (p, e) ↦
            let outcome =
              send_plug-PlugOutcome (parsed p) rd w p s refl v
                (with_drawn_fits rd p drawn_fits (simp e at fits))
                (with_drawn-nonzero rd p j le nz before) in
            simp e outcome
      ]
