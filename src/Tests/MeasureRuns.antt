-- ===== src/Tests/MeasureRuns.antt =====
-- The measurements of dirty-probe at concrete inputs.
use nyan_real_vdd.Base.{
  ℕ, ◌+◌, ◌*◌, ◌≡◌, ◌≢◌, ◌≤◌, ◌<◌, refl, true, some, List, [], ◌∷◌, length, ◌==◌, arith,
  if◌then◌else◌,
}
use nyan_real_vdd.Probe.Frames.{FrameRecord, Mapped, new_record, hash_byte, hash_frame, fnv_basis}
use nyan_real_vdd.Probe.Frames.Change.{OneChange, hash_frame-OneChange}
use nyan_real_vdd.Probe.Summary.{
  insert, sort, percentile, back, no_totals, add_frames, steady_of, see_frame, see_frames,
  no_content,
}
use nyan_real_vdd.Probe.Summary.Sorting.{IsRounding}
use nyan_real_vdd.Probe.Summary.Laws.{Describes, steady-Describes}
use nyan_real_vdd.Probe.Bench.{
  Config, Observed, new_bench, marker_colour, marker_id, paint, begin_measurement, check_pixel,
  on_new, bench_round, bench_loop, print_times,
}
use nyan_real_vdd.Probe.Bench.Marker.{bgra_pixel}
use nyan_real_vdd.Probe.Bench.Laws.{IsBenchConfig}
use nyan_real_vdd.Probe.Bench.NoFalseAlarm.{GenuineRun, bench_no_false_alarm}

-- The FNV-1a hash of the byte 'a'.
hash_of_a : hash_byte fnv_basis 97 ≡ 0xAF63DC4C8601EC8C
unfolding hash_byte
hash_of_a = refl

-- One pixel, with two row pitches.
abbrev dark : Mapped
dark = record { bytes = λ i. 0; row_pitch = 4 }

abbrev light : Mapped
light = record { bytes = λ i. if i == 2 then 7 else 0; row_pitch = 8 }

light-byte : (i : ℕ) → light.bytes i < 256
light-byte i = ground arith

dark-light : OneChange dark light 1 1 0 2
dark-light = record {
  row = omega arith;
  place = omega arith;
  other = λ e. absurd cc;
  rest = λ y k ly lk ne. same_byte y k (omega arith) (ne (omega arith));
}
  where
    same_byte : (y k : ℕ) → y ≡ 0 → k ≢ 2 → 0 ≡ light.bytes (y * 8 + k)
    same_byte y k e ne = ground arith

hash_frame-OneChange_example : hash_frame dark 1 1 ≢ hash_frame light 1 1
hash_frame-OneChange_example =
    hash_frame-OneChange dark light 1 1 0 2 dark-light (λ i. omega arith) light-byte

exact-IsRounding : IsRounding (λ n. n)
exact-IsRounding = record { mono = λ a b le. le; whole = λ k lt. refl; and_half = λ k lt. refl }

-- A frame with one region of that area.
abbrev frame : ℕ → FrameRecord
frame area = record new_record { rect_count = 1; dirty_px = area; hash = area; hash_valid = true }

abbrev rest_of_frames : List FrameRecord
rest_of_frames = frame 10 ∷ frame 40 ∷ frame 30 ∷ []

steady-Describes_example :
    Describes
      (frame 20 ∷ rest_of_frames)
      (steady_of (λ n. n) (add_frames (frame 20 ∷ rest_of_frames) no_totals))
steady-Describes_example =
    steady-Describes (λ n. n) exact-IsRounding (frame 20) rest_of_frames (omega arith)

-- Of four values, the median is the third and the 95th percentile the last.
four_values : steady_of (λ n. n) (add_frames (frame 20 ∷ rest_of_frames) no_totals) ≡ record {
  count = 4;
  average = 25;
  median = 30;
  high = 40;
  max = 40;
  max_rects = 1;
  rect_sum = 4;
}
unfolding insert sort percentile back add_frames
four_values = refl

three_changes : (see_frames (frame 20 ∷ frame 20 ∷ rest_of_frames) no_content).changed ≡ 3
unfolding see_frames see_frame
three_changes = refl

times : print_times (5 ∷ 9 ∷ 1 ∷ []) ≡ some (3, 5, 9, 9)
unfolding print_times insert sort back
times = refl

abbrev config : Config
config = record {
  shared = true;
  seconds = 1;
  size = 64;
  hz = 60;
  readback_every = 1;
  frequency = 1000;
}

config-IsBenchConfig : IsBenchConfig config
config-IsBenchConfig = record {
  slow = omega arith;
  some_rate = omega arith;
  short = omega arith;
  clock = omega arith;
}

-- A round at the first paint, whose new frame shows it, and one a second later with the next paint.
abbrev observed : ℕ → ℕ → Observed
observed now id = record {
  now = now;
  ready = true;
  is_new = true;
  pixel = bgra_pixel (marker_colour id) 255;
  end_time = now + 4;
}

abbrev observations : List Observed
observations = observed 100 1 ∷ observed 1100 2 ∷ []

genuine : GenuineRun config observations (new_bench 100)
unfolding paint bench_round begin_measurement on_new check_pixel
genuine = (
  (λ going new. record {
    paint_id = 1;
    alpha = 255;
    not_first = λ e. absurd (omega arith);
    was_painted = omega arith;
    shown = refl;
  }),
  (
    (λ going new. record {
      paint_id = 2;
      alpha = 255;
      not_first = λ e. absurd (omega arith);
      was_painted = omega arith;
      shown = refl;
    }),
    tt,
  ),
)

bench_no_false_alarm_example :
    ((bench_loop config observations (new_bench 100)).invalid_pixels ≡ 0)
    × (length (bench_loop config observations (new_bench 100)).painted ≤ 29042)
bench_no_false_alarm_example =
    bench_no_false_alarm config observations 100 config-IsBenchConfig genuine

one_latency : (bench_loop config observations (new_bench 100)).latencies ≡ 4 ∷ []
unfolding paint bench_round begin_measurement on_new check_pixel bench_loop marker_id
one_latency = refl
