-- ===== src/Cli/Drive/Unplug.antt =====
-- The unplug and watchdog commands of nyanvddctl (cli/nyanvddctl.cpp) on the driver.
use nyan_real_vdd.Base.{
  ℕ, ◌≡◌, ◌≢◌, refl, true, false, ◌||◌, ◌⊎◌, inl, inr, none, arith, Bool-cases, ◌==◌, if◌then◌else◌,
}
use nyan_real_vdd.Device.{Device, NtStatus, nt_success}
use nyan_real_vdd.Device.Invariant.{TableOk}
use nyan_real_vdd.Device.Plug.Quiet.{IsQuiet}
use nyan_real_vdd.Driver.Ioctl.{Request, unplug_request, IoctlEnv}
use nyan_real_vdd.Driver.Ioctl.Registry.{Registry, registry_of, Spec, unplugs, fails, reads}
use nyan_real_vdd.Driver.Ioctl.Refine.{io_device_control-Spec}
use nyan_real_vdd.Cli.{Text, same_text, ControlResult, Session, ioctl}
use nyan_real_vdd.Cli.Commands.{all_word, off_word, cmd_unplug, cmd_watchdog, send_unplug}
use nyan_real_vdd.Cli.Drive.{drive}

-- Exactly the monitors that a cookie stands for were removed, and there was one unless it is 0.
pub record Removes (cookie : ℕ) (m m' : Registry) : Type 0 where
  pub known : (cookie ≡ 0) ⊎ (m cookie ≢ none)
  pub after : (c : ℕ) → m' c ≡ (if cookie == 0 || c == cookie then none else m c)

Spec-Removes :
    (cookie : ℕ) {status : NtStatus} {m m' : Registry}
    → Spec (unplug_request cookie) status m m'
    → ((nt_success status ≡ true) × Removes cookie m m')
      ⊎ ((nt_success status ≡ false) × ((c : ℕ) → m' c ≡ m c))
Spec-Removes cookie (unplugs k status m m' ok known after) =
    inl (ok, record { known = known; after = after })
Spec-Removes cookie (fails request status m m' failed same) = inr (failed, same)
Spec-Removes cookie (reads request status m m' no_plug no_unplug same) =
    absurd (no_unplug cookie refl)

-- The cookie that the argument of the command stands for: 0 for "all" alone.
abbrev pub unplug_cookie : (Text → ℕ) → Text → ℕ
unplug_cookie wcstoul arg = if same_text arg all_word then 0 else wcstoul arg

-- What the command does to the driver's monitors, by its exit code.
pub data UnplugOutcome (wcstoul : Text → ℕ) (arg : Text) (m m' : Registry) : ℕ → Type 0 where
  removed :
      (same_text arg all_word ≡ true) ⊎ (wcstoul arg ≢ 0)
      → Removes (unplug_cookie wcstoul arg) m m'
      → UnplugOutcome wcstoul arg m m' 0
  refused_by_driver : ((k : ℕ) → m' k ≡ m k) → UnplugOutcome wcstoul arg m m' 1
  bad_argument :
      same_text arg all_word ≡ false
      → wcstoul arg ≡ 0
      → ((k : ℕ) → m' k ≡ m k)
      → UnplugOutcome wcstoul arg m m' 2

module _ (env : Request → IoctlEnv) (error_of : NtStatus → ℕ)
    (quiet : (r : Request) → IsQuiet (env r).plug) where
  send_unplug-UnplugOutcome :
      (wcstoul : Text → ℕ) (arg : Text) (s : Session Device)
      → TableOk s.driver.slots
      → (same_text arg all_word ≡ true) ⊎ (wcstoul arg ≢ 0)
      → let r = send_unplug (drive env error_of) (unplug_cookie wcstoul arg) s in
        UnplugOutcome wcstoul arg (registry_of s.driver.slots) (registry_of r.1.driver.slots) r.0
  unfolding ioctl drive
  send_unplug-UnplugOutcome wcstoul arg s v meant =
      let cookie = unplug_cookie wcstoul arg in
      let request = unplug_request cookie in
      elim (Spec-Removes cookie
        (io_device_control-Spec (env request) s.driver (quiet request) v request tt)) [
          | inr (failure, same) ↦ simp failure (refused_by_driver same)
          | inl (ok, removes) ↦ simp ok (removed meant removes)
        ]

  -- Run alone against a driver with a sound slot table, the unplug command exits with 0 and removed all
  -- monitors for "all", or the one whose cookie the argument is; or it exits with 1 where the driver
  -- refused, or with 2 where the argument is neither "all" nor read as a number that is not 0, and
  -- the driver's monitors are as they were.
  pub cmd_unplug-UnplugOutcome :
      (wcstoul : Text → ℕ) (arg : Text) (s : Session Device)
      → TableOk s.driver.slots
      → let r = cmd_unplug (drive env error_of) wcstoul arg s in
        UnplugOutcome wcstoul arg (registry_of s.driver.slots) (registry_of r.1.driver.slots) r.0
  unfolding cmd_unplug
  cmd_unplug-UnplugOutcome wcstoul arg s v = elim (Bool-cases (same_text arg all_word)) [
    | inl all ↦ simp all (simp all at (send_unplug-UnplugOutcome wcstoul arg s v (inl all)))
    | inr one ↦ elim (Bool-cases (wcstoul arg == 0)) [
      | inl wrong ↦ simp (one, wrong) (bad_argument one (ground arith) (λ k. refl))
      | inr right ↦
          let meant : wcstoul arg ≢ 0 = ground arith in
          simp (one, right) (simp one at (send_unplug-UnplugOutcome wcstoul arg s v (inr meant)))
    ]
  ]

module _ {ℓ} {D : Type ℓ} (control : Request → D → ControlResult × D) where
  -- An argument other than "all" that is read as 0, also one that is no number, makes the watchdog command
  -- disarm the watchdog as "off" does, whereas the unplug command refuses it with exit code 2 and sends
  -- nothing.
  pub cmd_watchdog-off :
      (wcstoul : Text → ℕ) (arg : Text) (s : Session D)
      → wcstoul arg ≡ 0
      → same_text arg all_word ≡ false
      → (cmd_watchdog control wcstoul arg s ≡ cmd_watchdog control wcstoul off_word s)
        × ((cmd_unplug control wcstoul arg s).0 ≡ 2)
        × ((cmd_unplug control wcstoul arg s).1.sent ≡ s.sent)
  unfolding cmd_watchdog cmd_unplug same_text
  cmd_watchdog-off wcstoul arg s none_read no_all = elim (Bool-cases (same_text arg off_word)) [
    | inl off ↦ simp (off, none_read, no_all) (refl, refl, refl)
    | inr other ↦ simp (other, none_read, no_all) (refl, refl, refl)
  ]
