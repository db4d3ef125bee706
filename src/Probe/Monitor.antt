-- ===== src/Probe/Monitor.antt =====
-- PickMonitor (tools/dirty-probe/dirty_probe.cpp): the monitor that an argument names.
use nyan_real_vdd.Base.{
  ◌≡◌, refl, Bool, true, false, ◌&&◌, Option, none, some, List, [], ◌∷◌, ◌++◌, leb, ◌==◌,
  if◌then◌else◌,
}
use nyan_real_vdd.Cli.{Text}

-- MonitorEntry, without its handle and rectangle.
pub record MonitorEntry : Type 0 where
  pub device : Text
  pub primary : Bool

-- The first monitor with the flag or, if there is none, the first.
unfoldable pub find_primary : List MonitorEntry → Option MonitorEntry
find_primary [] = none
find_primary (m ∷ ms) = if m.primary then some m else find_primary ms

abbrev first_of : List MonitorEntry → Option MonitorEntry
first_of [] = none
first_of (m ∷ ms) = some m

abbrev or_first : Option MonitorEntry → List MonitorEntry → Option MonitorEntry
or_first (some m) ms = some m
or_first none ms = first_of ms

-- "DISPLAY" and "\\.\"
abbrev pub display_word : Text
display_word = 68 ∷ 73 ∷ 83 ∷ 80 ∷ 76 ∷ 65 ∷ 89 ∷ []

abbrev pub device_prefix : Text
device_prefix = 92 ∷ 92 ∷ 46 ∷ 92 ∷ []

-- `!Wanted.empty() && iswdigit(Wanted[0])`, in the C locale
abbrev pub starts_with_digit : Text → Bool
starts_with_digit [] = false
starts_with_digit (c ∷ cs) = leb 48 c && leb c 57

-- `Wanted.rfind(p, 0) == 0`
unfoldable pub starts_with : Text → Text → Bool
starts_with [] wanted = true
starts_with (c ∷ cs) [] = false
starts_with (c ∷ cs) (x ∷ xs) = c == x && starts_with cs xs

-- The name that PickMonitor looks for.
unfoldable pub wanted_name : Text → Text
wanted_name arg =
    let named = if starts_with_digit arg then display_word ++ arg else arg in
    if starts_with device_prefix named then named else device_prefix ++ named

-- `same` is `_wcsicmp(a, b) == 0`.
unfoldable pub find_named : (Text → Text → Bool) → Text → List MonitorEntry → Option MonitorEntry
find_named same wanted [] = none
find_named same wanted (m ∷ ms) =
    let rest = find_named same wanted ms in if same m.device wanted then some m else rest

-- PickMonitor
unfoldable pub pick_monitor :
    (Text → Text → Bool) → List MonitorEntry → Option Text → Option MonitorEntry
pick_monitor same ms none = or_first (find_primary ms) ms
pick_monitor same ms (some arg) = find_named same (wanted_name arg) ms

-- A number, the name "DISPLAY" with the number, and the device name with both pick the same monitor.
pub pick_monitor_spellings :
    (same : Text → Text → Bool) (ms : List MonitorEntry) (n : Text)
    → starts_with_digit n ≡ true
    → (pick_monitor same ms (some n) ≡ pick_monitor same ms (some (display_word ++ n)))
      × (pick_monitor same ms (some n)
          ≡ pick_monitor same ms (some (device_prefix ++ (display_word ++ n))))
unfolding pick_monitor wanted_name starts_with
pick_monitor_spellings same ms n h = simp h (refl, refl)
