-- ===== src/Probe/Arguments.antt =====
-- wmain of dirty-probe (tools/dirty-probe/dirty_probe.cpp): its arguments, and the call of RunCaptureBench.
pub mod Laws
use nyan_real_vdd.Base.{
  ℕ, zero, suc, Bool, true, false, not, ◌||◌, ◌&&◌, Option, none, some, List, [], ◌∷◌, ◌++◌, ltb,
  leb, ◌==◌, if◌then◌else◌,
}
use nyan_real_vdd.Cli.{Text, same_text}
use nyan_real_vdd.Probe.Monitor.{MonitorEntry, pick_monitor}
use nyan_real_vdd.Probe.Words.{
  share_self_test_option, list_option, capture_bench_option, cookie_option, driver_pid_option,
  readback_every_option, monitor_option, seconds_option, no_cursor_option, wiggle_option,
  csv_option, label_option, verbose_option, hash_option, min_update_option, mode_option,
  stimulus_option, shared_word, wgc_word, report_word, render_word, none_word, run_word,
}

-- An int: pos n is n, and negsuc n is -(n + 1).
pub data ℤ : Type 0 where
  pos negsuc : ℕ → ℤ

-- `n <= i`, for a natural number `n`
abbrev pub at_least : ℕ → ℤ → Bool
at_least n (pos i) = leb n i
at_least n (negsuc i) = false

-- `i <= n`
abbrev pub at_most : ℕ → ℤ → Bool
at_most n (pos i) = leb i n
at_most n (negsuc i) = true

-- ProbeMode
pub data ProbeMode : Type 0 where
  report render unset : ProbeMode

-- The local variables of wmain that the arguments set, and the two members of g_Stimulus.
pub record Options : Type 0 where
  pub monitor : Option Text
  pub csv : Option Text
  pub label : Text
  pub seconds : ℤ
  pub cursor_capture : Bool
  pub wiggle : Bool
  pub verbose : Bool
  pub list_only : Bool
  pub hash_frames : Bool
  pub mode : ProbeMode
  pub min_update_ms : ℤ
  pub capture_bench : Bool
  pub shared : Bool
  pub cookie : ℕ
  pub driver_pid : ℕ
  pub readback_every : ℤ
  pub size : ℤ
  pub hz : ℤ

abbrev pub default_options : Options
default_options = record {
  monitor = none;
  csv = none;
  label = run_word;
  seconds = pos 10;
  cursor_capture = true;
  wiggle = false;
  verbose = false;
  list_only = false;
  hash_frames = false;
  mode = report;
  min_update_ms = pos 0;
  capture_bench = false;
  shared = false;
  cookie = 0;
  driver_pid = 0;
  readback_every = pos 1;
  size = pos 0;
  hz = pos 10;
}

-- The C library: wcstoul, _wtoi, and what swscanf_s with "%d@%d" stores for an argument, the second number
-- only where it reads one; `none` where it reads none.
pub record Reads : Type 0 where
  pub wcstoul : Text → ℕ
  pub wtoi : Text → ℤ
  pub stimulus : Text → Option (ℤ × Option ℤ)

-- What one argument does: it is done with, it takes the next one too, or wmain returns 2.
pub data Taken : Type 0 where
  one two : Options → Taken
  rejects : Taken

abbrev set_mode : Text → Options → Taken
set_mode value o =
    if same_text value report_word
    then two (record o { mode = report })
    else if same_text value render_word
    then two (record o { mode = render })
    else if same_text value none_word
    then two (record o { mode = unset })
    else rejects

abbrev set_bench : Text → Options → Taken
set_bench value o =
    if same_text value shared_word
    then two (record o { capture_bench = true; shared = true })
    else if same_text value wgc_word
    then two (record o { capture_bench = true; shared = false })
    else rejects

abbrev set_stimulus : Option (ℤ × Option ℤ) → Options → Taken
set_stimulus none o = rejects
set_stimulus (some (size, none)) o =
    if at_least 1 size then two (record o { size = size }) else rejects
set_stimulus (some (size, some hz)) o =
    if at_least 1 size then two (record o { size = size; hz = hz }) else rejects

-- The options that stand alone.
unfoldable pub take_flag : Text → Options → Taken
take_flag arg o =
    if same_text arg list_option
    then one (record o { list_only = true })
    else if same_text arg no_cursor_option
    then one (record o { cursor_capture = false })
    else if same_text arg wiggle_option
    then one (record o { wiggle = true })
    else if same_text arg verbose_option
    then one (record o { verbose = true })
    else if same_text arg hash_option
    then one (record o { hash_frames = true })
    else rejects

-- The options with a number or a text after them, and the flags.
unfoldable pub take_value : Reads → Text → Text → Options → Taken
take_value c arg value o =
    if same_text arg cookie_option
    then two (record o { cookie = c.wcstoul value })
    else if same_text arg driver_pid_option
    then two (record o { driver_pid = c.wcstoul value })
    else if same_text arg readback_every_option
    then two (record o { readback_every = c.wtoi value })
    else if same_text arg monitor_option
    then two (record o { monitor = some value })
    else if same_text arg seconds_option
    then two (record o { seconds = c.wtoi value })
    else if same_text arg csv_option
    then two (record o { csv = some value })
    else if same_text arg label_option
    then two (record o { label = value })
    else if same_text arg min_update_option
    then two (record o { min_update_ms = c.wtoi value })
    else take_flag arg o

-- An argument, with the one after it if there is one.
unfoldable pub take_argument : Reads → Text → Option Text → Options → Taken
take_argument c arg none o = take_flag arg o
take_argument c arg (some value) o =
    if same_text arg capture_bench_option
    then set_bench value o
    else if same_text arg mode_option
    then set_mode value o
    else if same_text arg stimulus_option
    then set_stimulus (c.stimulus value) o
    else take_value c arg value o

abbrev pub head_of : List Text → Option Text
head_of [] = none
head_of (a ∷ rest) = some a

abbrev pub on_taken :
    Taken → (Options → Option Options) → (Options → Option Options) → Option Options
on_taken (one o) next after_next = next o
on_taken (two o) next after_next = after_next o
on_taken rejects next after_next = none

-- The loop over the arguments: `none` where wmain returns 2. The flag says that the first of them was
-- taken by the argument before it.
unfoldable pub parse_arguments : Reads → Bool → List Text → Options → Option Options
parse_arguments c skips [] o = some o
parse_arguments c true (arg ∷ rest) o = parse_arguments c false rest o
parse_arguments c false (arg ∷ rest) o =
    on_taken (take_argument c arg (head_of rest) o) (parse_arguments c false rest)
      (parse_arguments c true rest)

-- `if (Seconds <= 0) { Seconds = 10; }`
abbrev pub with_seconds : Options → Options
with_seconds o = if at_most 0 o.seconds then record o { seconds = pos 10 } else o

-- How wmain goes on: it returns a code, runs the capture benchmark, or measures.
pub data Course : Type 0 where
  returns : ℕ → Course
  self_test lists : Course
  benchmarks : MonitorEntry → Options → Course
  measures : MonitorEntry → Options → Course

-- `Seconds > 120 || (Shared && !Cookie) || ReadbackEvery < 1 || ReadbackEvery > 1000`
abbrev pub bad_benchmark : Options → Bool
bad_benchmark o =
    not (at_most 120 o.seconds)
    || ((o.shared && o.cookie == 0)
        || (not (at_least 1 o.readback_every) || not (at_most 1000 o.readback_every)))

unfoldable pub with_monitor : Options → Option MonitorEntry → Course
with_monitor o none = returns 1
with_monitor o (some m) =
    if o.capture_bench
    then (if bad_benchmark o then returns 2 else benchmarks m o)
    else measures m o

-- wmain from the enumeration of the monitors on.
unfoldable pub with_options : (Text → Text → Bool) → List MonitorEntry → Options → Course
with_options same [] o = returns 1
with_options same (m ∷ ms) o =
    if o.list_only then lists else with_monitor o (pick_monitor same (m ∷ ms) o.monitor)

abbrev parsed_or_returns : (Text → Text → Bool) → List MonitorEntry → Option Options → Course
parsed_or_returns same ms none = returns 2
parsed_or_returns same ms (some o) = with_options same ms (with_seconds o)

abbrev pub is_self_test : List Text → Bool
is_self_test (arg ∷ []) = same_text arg share_self_test_option
is_self_test _ = false

-- wmain, on the arguments after the program's name, up to the measurement.
unfoldable pub wmain : Reads → (Text → Text → Bool) → List MonitorEntry → List Text → Course
wmain c same ms argv =
    if is_self_test argv
    then self_test
    else parsed_or_returns same ms (parse_arguments c false argv default_options)
