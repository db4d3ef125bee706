-- ===== src/Cli/Commands/Resolved.antt =====
-- The exit code of CmdResolve (cli/nyanvddctl.cpp).
use nyan_real_vdd.Base.{ℕ, ◌<◌, ◌^◌, ◌≡◌, ◌≢◌, refl, true, some, List, [], ◌∷◌, ◌++◌, ap, ◌∙◌, All}
use nyan_real_vdd.Protocol.{MonitorInfo}
use nyan_real_vdd.Driver.Ioctl.{Request, list_request, list_answer}
use nyan_real_vdd.Cli.{ResolvedDisplay, ControlResult, answered, Session, ioctl}
use nyan_real_vdd.Cli.Console.{Wts}
use nyan_real_vdd.Cli.Displays.{DisplayConfig, resolve_paths, resolve_displays, find_display}
use nyan_real_vdd.Cli.Displays.Laws.{Shows, find_shown}
use nyan_real_vdd.Cli.Commands.{say_monitors, say_resolved, report_resolved, cmd_resolve}

-- An active path shows the monitor.
pub record OnScreen (c : DisplayConfig) (ps : List (ℕ × ℕ)) (m : MonitorInfo) : Type 0 where
  pub nonzero : m.cookie ≢ 0
  pub fits : m.cookie < 2 ^ 32
  pub before : List (ℕ × ℕ)
  pub path : ℕ × ℕ
  pub after : List (ℕ × ℕ)
  pub split : ps ≡ before ++ (path ∷ after)
  pub shows : Shows c m.cookie path

found-OnScreen :
    (c : DisplayConfig) (ps : List (ℕ × ℕ)) (m : MonitorInfo)
    → OnScreen c ps m
    → (d : ResolvedDisplay) × (find_display m.cookie (resolve_paths c ps) ≡ some d)
found-OnScreen c ps m o =
    let (d, e) = find_shown c m.cookie o.nonzero o.fits o.before o.after o.path o.shows in
    (d, ap (λ x. find_display m.cookie (resolve_paths c x)) o.split ∙ e)

module _ {ℓ} {D : Type ℓ} where
  none_missing :
      (c : DisplayConfig) (ps : List (ℕ × ℕ)) (ms : List MonitorInfo) (s : Session D)
      → All (OnScreen c ps) ms
      → (say_monitors ms (resolve_paths c ps) s).0 ≡ 0
  unfolding say_monitors
  none_missing c ps [] s h = refl
  none_missing c ps (m ∷ ms) s h =
      let (d, e) = found-OnScreen c ps m h.0 in
      simp e (none_missing c ps ms (say_resolved m (some d) s) h.1)

  report_resolved_zero :
      (w : Wts) (c : DisplayConfig) (ps : List (ℕ × ℕ)) (ms : List MonitorInfo) (s : Session D)
      → All (OnScreen c ps) ms
      → (report_resolved w ms (some (resolve_paths c ps)) s).0 ≡ 0
  unfolding report_resolved
  report_resolved_zero w c ps [] s h = refl
  report_resolved_zero w c ps (m ∷ ms) s h = simp (none_missing c ps (m ∷ ms) s h) refl

  -- Where the driver lists its monitors and the system its active paths, and each listed monitor has a
  -- 32-bit cookie that is not 0 and an active path that the system names as the protocol documents
  -- (the EDID ids, the device path, a node with the container id of the cookie), the resolve command
  -- finds them all and exits with 0.
  pub cmd_resolve_zero :
      (control : Request → D → ControlResult × D) (w : Wts) (c : DisplayConfig) (ps : List (ℕ × ℕ))
      (ms : List MonitorInfo) (s : Session D) (d : D)
      → control list_request s.driver ≡ (answered (list_answer ms), d)
      → c.sizes_ok ≡ true
      → c.paths ≡ some ps
      → All (OnScreen c ps) ms
      → (cmd_resolve control w c s).0 ≡ 0
  unfolding cmd_resolve ioctl resolve_displays
  cmd_resolve_zero control w c ps ms s d answer sizes paths h =
      simp (answer, sizes, paths) (report_resolved_zero w c ps ms _ h)
