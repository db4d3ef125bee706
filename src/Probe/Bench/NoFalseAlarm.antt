-- ===== src/Probe/Bench/NoFalseAlarm.antt =====
-- The benchmark's loop on rounds whose pixels are those of its paints.
use nyan_real_vdd.Base.{
  ℕ, suc, ◌+◌, ◌-◌, ◌*◌, ◌≤◌, ◌≡◌, refl, Bool, true, false, not, ◌&&◌, inl, inr, List, [], ◌∷◌,
  length, leb, ◌==◌, arith, Bool-cases, ap, ◌∙◌, if◌then◌else◌,
}
use nyan_real_vdd.Probe.Bench.{
  Config, Bench, Observed, new_bench, paint, begin_measurement, reads_back, on_new, bench_round,
  bench_loop,
}
use nyan_real_vdd.Probe.Bench.Laws.{
  IsBenchConfig, paint-PaintOk, IsClean, same_paints, IsGenuine, check_pixel-IsClean,
}

-- `Elapsed >= Seconds+1.0`
abbrev pub is_over : Config → Observed → Bench → Bool
is_over c o b = leb ((c.seconds + 1) * c.frequency) (o.now - b.start)

-- Every new frame of a round shows a paint from before it.
abbrev pub GenuineRun : Config → List Observed → Bench → Type 0
GenuineRun c [] b = Unit
GenuineRun c (o ∷ os) b =
    (is_over c o b ≡ false → o.is_new ≡ true → IsGenuine (paint c o.now b) o)
    × GenuineRun c os (bench_round c o b)

paint-invalid :
    (c : Config) (now : ℕ) (b : Bench) → (paint c now b).invalid_pixels ≡ b.invalid_pixels
unfolding paint
paint-invalid c now b = ground arith

begin-IsClean :
    (c : Config) (now : ℕ) (b : Bench)
    → IsClean c b
    → IsClean c (begin_measurement c now b) × ((begin_measurement c now b).painted ≡ b.painted)
unfolding begin_measurement
begin-IsClean c now b v =
    elim (Bool-cases (b.measurement_start == 0 && leb c.frequency (now - b.start))) [
      | inl e ↦ simp e (same_paints c b _ refl refl refl refl v, refl)
      | inr e ↦ simp e (v, refl)
    ]

on_new-IsClean :
    (c : Config) (o : Observed) (b : Bench) → IsClean c b → IsGenuine b o → IsClean c (on_new c o b)
unfolding on_new
on_new-IsClean c o b v g =
    let b1 : Bench = record b {
      new_polls = if b.measurement_start == 0 then b.new_polls else suc b.new_polls;
      frames = if b.measurement_start == 0 then b.frames else suc b.frames;
      received = suc b.received;
    } in
    let v1 : IsClean c b1 = same_paints c b b1 refl refl refl refl v in
    let g1 : IsGenuine b1 o = record {
      paint_id = g.paint_id;
      alpha = g.alpha;
      not_first = g.not_first;
      was_painted = g.was_painted;
      shown = g.shown;
    } in
    elim (Bool-cases (reads_back c b1)) [
      | inl e ↦ simp e (check_pixel-IsClean c o b1 v1 g1)
      | inr e ↦ simp e v1
    ]

bench_round-IsClean :
    (c : Config) (o : Observed) (b : Bench)
    → IsBenchConfig c
    → is_over c o b ≡ false
    → IsClean c b
    → (o.is_new ≡ true → IsGenuine (paint c o.now b) o)
    → IsClean c (bench_round c o b)
unfolding bench_round
bench_round-IsClean c o b ok going v genuine =
    let p : IsClean c (paint c o.now b) = record {
      paints = paint-PaintOk c o.now b ok going v.paints;
      right = paint-invalid c o.now b ∙ v.right;
    } in
    let (m, same) = begin-IsClean c o.now (paint c o.now b) p in
    elim (Bool-cases (c.shared && not o.ready)) [
      | inl e ↦ simp e p
      | inr e ↦ elim (Bool-cases o.is_new) [
        | inr idle ↦
            simp (e, idle)
              (same_paints c (begin_measurement c o.now (paint c o.now b)) _ refl refl refl refl m)
        | inl new ↦
            let g = genuine new in
            simp (e, new)
              (on_new-IsClean c o (begin_measurement c o.now (paint c o.now b)) m (record {
                paint_id = g.paint_id;
                alpha = g.alpha;
                not_first = g.not_first;
                was_painted = omega (arith, g.was_painted, ap length same);
                shown = g.shown;
              }))
      ]
    ]

loop-IsClean :
    (c : Config) (os : List Observed) (b : Bench)
    → IsBenchConfig c
    → IsClean c b
    → GenuineRun c os b
    → IsClean c (bench_loop c os b)
unfolding bench_loop
loop-IsClean c [] b ok v run = v
loop-IsClean c (o ∷ os) b ok v run = elim (Bool-cases (is_over c o b)) [
  | inl over ↦ simp over v
  | inr going ↦ simp going (
      loop-IsClean c os (bench_round c o b) ok (bench_round-IsClean c o b ok going v (run.0 going))
        run.1)
]

-- For the arguments that dirty-probe lets through, on a clock with at least as many ticks per second as paints: where
-- each new frame shows the pixel of a paint before it, the loop counts no pixel as wrong; and the paints stay at most
-- 29041, so that the 16 bits of a marker name each of them.
pub bench_no_false_alarm :
    (c : Config) (os : List Observed) (start : ℕ)
    → IsBenchConfig c
    → GenuineRun c os (new_bench start)
    → ((bench_loop c os (new_bench start)).invalid_pixels ≡ 0)
      × (length (bench_loop c os (new_bench start)).painted ≤ 29042)
bench_no_false_alarm c os start ok run =
    let v =
      loop-IsClean c os (new_bench start) ok
        (record {
          paints = record { first = omega arith; moved = omega arith; few = omega arith };
          right = refl;
        })
        run in
    (v.right, v.paints.few)
