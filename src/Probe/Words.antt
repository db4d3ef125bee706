-- ===== src/Probe/Words.antt =====
-- The words of the command line of dirty-probe (tools/dirty-probe/dirty_probe.cpp).
use nyan_real_vdd.Base.{[], ◌∷◌}
use nyan_real_vdd.Cli.{Text}

-- "--share-self-test"
abbrev pub share_self_test_option : Text
share_self_test_option =
    45 ∷ 45 ∷ 115 ∷ 104 ∷ 97 ∷ 114 ∷ 101 ∷ 45 ∷ 115 ∷ 101 ∷ 108 ∷ 102 ∷ 45 ∷ 116 ∷ 101 ∷ 115 ∷ 116
    ∷ []

-- "--list"
abbrev pub list_option : Text
list_option = 45 ∷ 45 ∷ 108 ∷ 105 ∷ 115 ∷ 116 ∷ []

-- "--capture-bench"
abbrev pub capture_bench_option : Text
capture_bench_option =
    45 ∷ 45 ∷ 99 ∷ 97 ∷ 112 ∷ 116 ∷ 117 ∷ 114 ∷ 101 ∷ 45 ∷ 98 ∷ 101 ∷ 110 ∷ 99 ∷ 104 ∷ []

-- "--cookie"
abbrev pub cookie_option : Text
cookie_option = 45 ∷ 45 ∷ 99 ∷ 111 ∷ 111 ∷ 107 ∷ 105 ∷ 101 ∷ []

-- "--driver-pid"
abbrev pub driver_pid_option : Text
driver_pid_option = 45 ∷ 45 ∷ 100 ∷ 114 ∷ 105 ∷ 118 ∷ 101 ∷ 114 ∷ 45 ∷ 112 ∷ 105 ∷ 100 ∷ []

-- "--readback-every"
abbrev pub readback_every_option : Text
readback_every_option =
    45 ∷ 45 ∷ 114 ∷ 101 ∷ 97 ∷ 100 ∷ 98 ∷ 97 ∷ 99 ∷ 107 ∷ 45 ∷ 101 ∷ 118 ∷ 101 ∷ 114 ∷ 121 ∷ []

-- "--monitor"
abbrev pub monitor_option : Text
monitor_option = 45 ∷ 45 ∷ 109 ∷ 111 ∷ 110 ∷ 105 ∷ 116 ∷ 111 ∷ 114 ∷ []

-- "--seconds"
abbrev pub seconds_option : Text
seconds_option = 45 ∷ 45 ∷ 115 ∷ 101 ∷ 99 ∷ 111 ∷ 110 ∷ 100 ∷ 115 ∷ []

-- "--no-cursor"
abbrev pub no_cursor_option : Text
no_cursor_option = 45 ∷ 45 ∷ 110 ∷ 111 ∷ 45 ∷ 99 ∷ 117 ∷ 114 ∷ 115 ∷ 111 ∷ 114 ∷ []

-- "--wiggle"
abbrev pub wiggle_option : Text
wiggle_option = 45 ∷ 45 ∷ 119 ∷ 105 ∷ 103 ∷ 103 ∷ 108 ∷ 101 ∷ []

-- "--csv"
abbrev pub csv_option : Text
csv_option = 45 ∷ 45 ∷ 99 ∷ 115 ∷ 118 ∷ []

-- "--label"
abbrev pub label_option : Text
label_option = 45 ∷ 45 ∷ 108 ∷ 97 ∷ 98 ∷ 101 ∷ 108 ∷ []

-- "--verbose"
abbrev pub verbose_option : Text
verbose_option = 45 ∷ 45 ∷ 118 ∷ 101 ∷ 114 ∷ 98 ∷ 111 ∷ 115 ∷ 101 ∷ []

-- "--hash"
abbrev pub hash_option : Text
hash_option = 45 ∷ 45 ∷ 104 ∷ 97 ∷ 115 ∷ 104 ∷ []

-- "--min-update"
abbrev pub min_update_option : Text
min_update_option = 45 ∷ 45 ∷ 109 ∷ 105 ∷ 110 ∷ 45 ∷ 117 ∷ 112 ∷ 100 ∷ 97 ∷ 116 ∷ 101 ∷ []

-- "--mode"
abbrev pub mode_option : Text
mode_option = 45 ∷ 45 ∷ 109 ∷ 111 ∷ 100 ∷ 101 ∷ []

-- "--stimulus"
abbrev pub stimulus_option : Text
stimulus_option = 45 ∷ 45 ∷ 115 ∷ 116 ∷ 105 ∷ 109 ∷ 117 ∷ 108 ∷ 117 ∷ 115 ∷ []

-- "shared"
abbrev pub shared_word : Text
shared_word = 115 ∷ 104 ∷ 97 ∷ 114 ∷ 101 ∷ 100 ∷ []

-- "wgc"
abbrev pub wgc_word : Text
wgc_word = 119 ∷ 103 ∷ 99 ∷ []

-- "report"
abbrev pub report_word : Text
report_word = 114 ∷ 101 ∷ 112 ∷ 111 ∷ 114 ∷ 116 ∷ []

-- "render"
abbrev pub render_word : Text
render_word = 114 ∷ 101 ∷ 110 ∷ 100 ∷ 101 ∷ 114 ∷ []

-- "none"
abbrev pub none_word : Text
none_word = 110 ∷ 111 ∷ 110 ∷ 101 ∷ []

-- "run"
abbrev pub run_word : Text
run_word = 114 ∷ 117 ∷ 110 ∷ []
