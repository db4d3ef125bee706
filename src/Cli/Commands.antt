-- ===== src/Cli/Commands.antt =====
-- CmdResolve, CmdStatus, CmdList, CmdUnplug and CmdWatchdog (cli/nyanvddctl.cpp): the exit code, and the
-- session after it.
pub mod Laws
pub mod Resolved
use nyan_real_vdd.Base.{
  ℕ, zero, suc, Bool, true, false, not, ◌||◌, Option, none, some, List, [], ◌∷◌, ◌==◌,
  if◌then◌else◌,
}
use nyan_real_vdd.Base.Bits.{shr, low_bits, has_bit}
use nyan_real_vdd.Protocol.{
  MonitorInfo, StatusOut, AdapterState, plug_flag_hdr10, monitor_flag_active, cap_hdr10_ready,
  cap_shared_capture,
}
use nyan_real_vdd.Driver.Ioctl.{
  Request, Answer, get_status_request, unplug_request, list_request, set_watchdog_request,
  status_answer, list_answer,
}
use nyan_real_vdd.Cli.{
  Text, same_text, ResolvedDisplay, StatusLines, Message, ControlResult, Session, say, ioctl,
  or_fail, Owner, none_visible, query_config_failed, no_monitors, resolved, plugged_as,
  not_on_screen, orphan, status_lines, connector, bad_cookie, unplugged, watchdog_armed,
  watchdog_off,
}
use nyan_real_vdd.Cli.Console.{Wts, is_console_session_active, report_why_not_on_screen}
use nyan_real_vdd.Cli.Displays.{DisplayConfig, resolve_displays, find_display}

-- "all" and "off"
abbrev pub all_word : Text
all_word = 97 ∷ 108 ∷ 108 ∷ []

abbrev pub off_word : Text
off_word = 111 ∷ 102 ∷ 102 ∷ []

-- NYANVDD_CAP_RT_GPU_PRIORITY and NYANVDD_CAP_PRECISE_DIRTY, by their bits.
abbrev cap_rt_gpu_priority : ℕ
cap_rt_gpu_priority = 1

abbrev cap_precise_dirty : ℕ
cap_precise_dirty = 2

-- The output buffers start as zeros, which another answer than the one asked for leaves.
abbrev pub read_status : Answer → StatusOut
read_status (status_answer out) = out
read_status _ = record {
  protocol_version = 0;
  driver_version = 0;
  iddcx_os_version = 0;
  max_monitors = 0;
  cap_flags = 0;
  monitor_count = 0;
  watchdog_timeout_ms = 0;
  adapter_state = AdapterState.starting;
}

abbrev pub read_list : Answer → List MonitorInfo
read_list (list_answer ms) = ms
read_list _ = []

abbrev lines_of : StatusOut → StatusLines
lines_of s = record {
  protocol = s.protocol_version;
  major = shr s.driver_version 16;
  minor = low_bits s.driver_version 16;
  os_iddcx = s.iddcx_os_version;
  monitors = s.monitor_count;
  max_monitors = s.max_monitors;
  adapter = s.adapter_state;
  hdr10_ready = has_bit s.cap_flags cap_hdr10_ready;
  rt_gpu_priority = has_bit s.cap_flags cap_rt_gpu_priority;
  precise_dirty = has_bit s.cap_flags cap_precise_dirty;
  shared_capture = has_bit s.cap_flags cap_shared_capture;
  no_caps = s.cap_flags == 0;
  watchdog_armed = not (s.watchdog_timeout_ms == 0);
  watchdog_ms = s.watchdog_timeout_ms;
}

-- Whether the list has the cookie.
unfoldable pub is_known : ℕ → List MonitorInfo → Bool
is_known cookie [] = false
is_known cookie (m ∷ ms) = m.cookie == cookie || is_known cookie ms

-- The monitors that the system does not drive.
unfoldable pub count_not_driven : List MonitorInfo → ℕ
count_not_driven [] = 0
count_not_driven (m ∷ ms) =
    let rest = count_not_driven ms in if has_bit m.flags monitor_flag_active then rest else suc rest

-- `++Missing` where no display was found.
abbrev pub count_missing : Option ResolvedDisplay → ℕ → ℕ
count_missing none missing = suc missing
count_missing (some d) missing = missing

module _ {ℓ} {D : Type ℓ} where
  -- What CmdResolve says of one monitor.
  unfoldable pub say_resolved : MonitorInfo → Option ResolvedDisplay → Session D → Session D
  say_resolved m none s = say (not_on_screen m) s
  say_resolved m (some d) s =
      if not (d.width == m.width) || not (d.height == m.height)
      then say (plugged_as m) (say (resolved m d) s)
      else say (resolved m d) s

  -- The first loop of CmdResolve, and the number of monitors that are missing.
  unfoldable pub say_monitors : List MonitorInfo → List ResolvedDisplay → Session D → ℕ × Session D
  say_monitors [] ds s = (0, s)
  say_monitors (m ∷ ms) ds s =
      let found = find_display m.cookie ds in
      let (missing, s') = say_monitors ms ds (say_resolved m found s) in
      (count_missing found missing, s')

  -- The second loop of CmdResolve.
  unfoldable pub say_orphans : List ResolvedDisplay → List MonitorInfo → Session D → Session D
  say_orphans [] ms s = s
  say_orphans (d ∷ ds) ms s =
      say_orphans ds ms (if is_known d.cookie ms then s else say (orphan d) s)

  -- CmdResolve from the list and the displays on.
  unfoldable pub report_resolved :
      Wts → List MonitorInfo → Option (List ResolvedDisplay) → Session D → ℕ × Session D
  report_resolved w ms none s = (1, say query_config_failed s)
  report_resolved w [] (some ds) s = (0, say no_monitors s)
  report_resolved w (m ∷ ms) (some ds) s =
      let (missing, s') = say_monitors (m ∷ ms) ds s in
      let s'' = say_orphans ds (m ∷ ms) s' in
      if missing == 0 then (0, s'') else (2, report_why_not_on_screen w s'')

  -- The loop of CmdList.
  unfoldable pub say_connectors : List MonitorInfo → Session D → Session D
  say_connectors [] s = s
  say_connectors (m ∷ ms) s =
      say_connectors ms (
        say (connector m (has_bit m.flags monitor_flag_active) (has_bit m.flags plug_flag_hdr10)) s)

  -- The end of CmdList, by the number of monitors that are not driven.
  abbrev say_visible : Wts → ℕ → Option Owner → Session D → Session D
  say_visible w not_driven (some owner) s = say (none_visible owner) s
  say_visible w not_driven none s = if not_driven == 0 then s else report_why_not_on_screen w s

  -- CmdList from the list on.
  unfoldable pub report_list : Wts → List MonitorInfo → Session D → Session D
  report_list w [] s = say no_monitors s
  report_list w (m ∷ ms) s =
      say_visible w (count_not_driven (m ∷ ms)) (is_console_session_active w)
        (say_connectors (m ∷ ms) s)

  module _ (control : Request → D → ControlResult × D) where
    -- CmdResolve
    unfoldable pub cmd_resolve : Wts → DisplayConfig → Session D → ℕ × Session D
    cmd_resolve w c s =
        or_fail (ioctl control list_request s)
          (λ a s'. report_resolved w (read_list a) (resolve_displays c) s')

    -- CmdStatus
    unfoldable pub cmd_status : Session D → ℕ × Session D
    cmd_status s =
        or_fail (ioctl control get_status_request s)
          (λ a s'. (0, say (status_lines (lines_of (read_status a))) s'))

    -- CmdList
    unfoldable pub cmd_list : Wts → Session D → ℕ × Session D
    cmd_list w s =
        or_fail (ioctl control list_request s) (λ a s'. (0, report_list w (read_list a) s'))

    abbrev pub send_unplug : ℕ → Session D → ℕ × Session D
    send_unplug cookie s =
        or_fail (ioctl control (unplug_request cookie) s) (λ a s'. (0, say unplugged s'))

    -- CmdUnplug; `wcstoul` is the number that the C library reads.
    unfoldable pub cmd_unplug : (Text → ℕ) → Text → Session D → ℕ × Session D
    cmd_unplug wcstoul arg s =
        if same_text arg all_word
        then send_unplug 0 s
        else if wcstoul arg == 0
        then (2, say (bad_cookie arg) s)
        else send_unplug (wcstoul arg) s

    -- CmdWatchdog
    unfoldable pub cmd_watchdog : (Text → ℕ) → Text → Session D → ℕ × Session D
    cmd_watchdog wcstoul arg s =
        let timeout_ms = if same_text arg off_word then 0 else wcstoul arg in
        or_fail (ioctl control (set_watchdog_request timeout_ms) s)
          (λ a s'. (0, say (if timeout_ms == 0 then watchdog_off else watchdog_armed) s'))
