-- ===== src/Probe/Arguments/Laws.antt =====
-- The benchmark is run only with arguments in its range.
use nyan_real_vdd.Base.{
  ◌≡◌, ◌≢◌, refl, Bool, true, false, Option, none, some, List, [], ◌∷◌, arith, Bool-cases,
  Option-cases, inl, inr,
}
use nyan_real_vdd.Cli.{Text}
use nyan_real_vdd.Probe.Monitor.{MonitorEntry, pick_monitor}
use nyan_real_vdd.Probe.Arguments.{
  ℤ, pos, negsuc, at_least, at_most, Options, default_options, Reads, parse_arguments, with_seconds,
  Course, benchmarks, bad_benchmark, with_monitor, with_options, wmain, is_self_test,
}

-- The arguments that RunCaptureBench gets: its loop ends, it does not divide by 0, and a shared capture is
-- asked for with a cookie.
pub record InRange (o : Options) : Type 0 where
  pub seconds_positive : at_least 1 o.seconds ≡ true
  pub seconds_bounded : at_most 120 o.seconds ≡ true
  pub readback_positive : at_least 1 o.readback_every ≡ true
  pub readback_bounded : at_most 1000 o.readback_every ≡ true
  pub named : o.shared ≡ true → o.cookie ≢ 0

abbrev pub BenchInRange : Course → Type 0
BenchInRange (benchmarks m o) = InRange o
BenchInRange _ = Unit

positive-cases : (i : ℤ) → at_most 0 i ≡ false → at_least 1 i ≡ true
positive-cases (pos n) h = ground arith
positive-cases (negsuc n) h = cc

with_seconds_positive : (o : Options) → at_least 1 (with_seconds o).seconds ≡ true
with_seconds_positive o = elim (Bool-cases (at_most 0 o.seconds)) [
  | inl missing ↦ simp missing refl
  | inr given ↦ simp given (positive-cases o.seconds given)
]

with_monitor-BenchInRange :
    (o : Options) (m : Option MonitorEntry)
    → at_least 1 o.seconds ≡ true
    → BenchInRange (with_monitor o m)
unfolding with_monitor
with_monitor-BenchInRange o none h = tt
with_monitor-BenchInRange o (some m) h = elim (Bool-cases o.capture_bench) [
  | inr other ↦ simp other tt
  | inl bench ↦ elim (Bool-cases (bad_benchmark o)) [
    | inl bad ↦ simp (bench, bad) tt
    | inr fine ↦
        simp (bench, fine)
          (record {
            seconds_positive = h;
            seconds_bounded = ground arith;
            readback_positive = ground arith;
            readback_bounded = ground arith;
            named = λ s e. absurd (ground arith);
          })
  ]
]

with_options-BenchInRange :
    (same : Text → Text → Bool) (ms : List MonitorEntry) (o : Options)
    → at_least 1 o.seconds ≡ true
    → BenchInRange (with_options same ms o)
unfolding with_options
with_options-BenchInRange same [] o h = tt
with_options-BenchInRange same (m ∷ ms) o h = elim (Bool-cases o.list_only) [
  | inl list ↦ simp list tt
  | inr run ↦ simp run (with_monitor-BenchInRange o (pick_monitor same (m ∷ ms) o.monitor) h)
]

-- Whatever the arguments, the monitors and the C library's answers are, the capture benchmark runs only for 1
-- to 120 seconds, with a readback every 1 to 1000 frames, so that the remainder by it is defined, and
-- with a cookie that is not 0 if it reads a shared capture.
pub wmain-BenchInRange :
    (c : Reads) (same : Text → Text → Bool) (ms : List MonitorEntry) (argv : List Text)
    → BenchInRange (wmain c same ms argv)
unfolding wmain
wmain-BenchInRange c same ms argv = elim (Bool-cases (is_self_test argv)) [
  | inl test ↦ simp test tt
  | inr other ↦ elim (Option-cases (parse_arguments c false argv default_options)) [
    | inl bad ↦ simp (other, bad) tt
    | inr (o, e) ↦
        simp (other, e)
          (with_options-BenchInRange same ms (with_seconds o) (with_seconds_positive o))
  ]
]
