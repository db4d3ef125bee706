-- ===== src/Probe/Bench/Laws.antt =====
-- How many paints there are, and that the check of the pixels raises no false alarm.
use native.Mathlib.Nat.{
  div-add-mod', mod-lt, mul-le-mul_left, mul-le-mul_right, le-div_iff_mul-le,
  le_of_mul-le-mul_right,
}
use nyan_real_vdd.Base.{
  ℕ, zero, suc, ◌+◌, ◌-◌, ◌*◌, ◌/◌, ◌≤◌, ◌<◌, ◌≡◌, ◌≢◌, refl, false, not, ◌||◌, inl, inr, length,
  leb, ◌==◌, arith, Bool-cases, ap, ◌∙◌, sym, subst,
}
use nyan_real_vdd.Base.Bits.{low_bits}
use nyan_real_vdd.Probe.Bench.{
  Config, Bench, Observed, marker_colour, marker_id, is_due, paint, check_pixel,
}
use nyan_real_vdd.Probe.Bench.Marker.{bgra_pixel, marker_id-bgra_pixel, marker_byte}

-- The arguments that dirty-probe lets through, with the rate clamped and a clock of at least that rate.
pub record IsBenchConfig (c : Config) : Type 0 where
  pub slow : c.hz ≤ 120
  pub some_rate : 0 < c.hz
  pub short : c.seconds ≤ 120
  pub clock : c.hz ≤ c.frequency

-- Every paint moved the time of the next one, and there are not many.
pub record PaintOk (c : Config) (b : Bench) : Type 0 where
  pub first : 0 < length b.painted
  pub moved : b.start + (length b.painted - 1) * (c.frequency / c.hz) ≤ b.next_paint
  pub few : length b.painted ≤ 29042

-- The bound on the paints before the end of the loop.
paint_bound :
    (n q f hz s x : ℕ)
    → hz ≤ 120
    → 0 < hz
    → hz ≤ f
    → s ≤ 120
    → q ≡ f / hz
    → n * q ≤ x
    → x < (s + 1) * f
    → n ≤ 29040
paint_bound n q f hz s x slow rate clock short e le lt =
    let below : f < q * 120 + 120 =
      omega (
        arith,
        div-add-mod' f hz,
        mod-lt f rate,
        ap (λ (k : ℕ). k * hz) e,
        mul-le-mul_left q slow,
      ) in
    let some_ticks : 1 ≤ q =
      subst (λ (k : ℕ). 1 ≤ k) (sym e) ((le-div_iff_mul-le rate).1 (omega arith)) in
    let seconds : (s + 1) * f ≤ 121 * f = mul-le-mul_right f (omega arith) in
    le_of_mul-le-mul_right (let t : n * q ≤ 29040 * q = omega arith in t) some_ticks

one_more : (n q : ℕ) → 0 < n → (suc n - 1) * q ≡ (n - 1) * q + q
one_more (suc n) q lt =
    let e : suc (suc n) - 1 ≡ suc (suc n - 1) = omega arith in rw e (omega arith)
one_more zero q lt = absurd (omega arith)

pub paint-PaintOk :
    (c : Config) (now : ℕ) (b : Bench)
    → IsBenchConfig c
    → leb ((c.seconds + 1) * c.frequency) (now - b.start) ≡ false
    → PaintOk c b
    → PaintOk c (paint c now b)
unfolding paint
paint-PaintOk c now b ok going p = elim (Bool-cases (is_due c now b)) [
  | inr early ↦ simp early p
  | inl due ↦
      let q = c.frequency / c.hz in
      let reached : b.next_paint ≤ now = ground arith in
      let moved = p.moved in
      let n : length b.painted - 1 ≤ 29040 =
        paint_bound (length b.painted - 1) q c.frequency c.hz c.seconds (now - b.start) ok.slow
          ok.some_rate ok.clock ok.short refl (omega arith) (ground arith) in
      simp due (record {
        first = omega arith;
        moved = omega (arith, one_more (length b.painted) q p.first);
        few = omega (arith, p.first);
      })
]

-- Few paints, and no pixel was found wrong.
pub record IsClean (c : Config) (b : Bench) : Type 0 where
  pub paints : PaintOk c b
  pub right : b.invalid_pixels ≡ 0

pub same_paints :
    (c : Config) (b b' : Bench)
    → b'.start ≡ b.start
    → b'.painted ≡ b.painted
    → b'.next_paint ≡ b.next_paint
    → b'.invalid_pixels ≡ b.invalid_pixels
    → IsClean c b
    → IsClean c b'
same_paints c b b' s p n i v =
    let o = v.paints in
    let l : length b'.painted ≡ length b.painted = ap length p in
    let m : (length b'.painted - 1) * (c.frequency / c.hz)
        ≡ (length b.painted - 1) * (c.frequency / c.hz) =
      ap (λ (k : ℕ). (k - 1) * (c.frequency / c.hz)) l in
    record {
      paints = record {
        first = omega (arith, o.first);
        moved = omega (arith, o.moved);
        few = omega (arith, o.few);
      };
      right = i ∙ v.right;
    }

-- The pixel that is read back is that of a paint before it.
pub record IsGenuine (b : Bench) (o : Observed) : Type 0 where
  pub paint_id : ℕ
  pub alpha : ℕ
  pub not_first : paint_id ≢ 0
  pub was_painted : paint_id < length b.painted
  pub shown : o.pixel ≡ bgra_pixel (marker_colour paint_id) alpha

pub check_pixel-IsClean :
    (c : Config) (o : Observed) (b : Bench)
    → IsClean c b
    → IsGenuine b o
    → IsClean c (check_pixel o.pixel o.end_time b)
unfolding check_pixel
check_pixel-IsClean c o b v g =
    let few = v.paints.few in
    let id : marker_id o.pixel ≡ g.paint_id =
      ap marker_id g.shown
      ∙ marker_id-bgra_pixel g.paint_id g.alpha (omega (arith, g.was_painted)) in
    let byte : low_bits o.pixel 8 ≡ 0x5a =
      ap (λ (x : ℕ). low_bits x 8) g.shown ∙ marker_byte g.paint_id g.alpha in
    let ne = g.not_first in
    let lt = g.was_painted in
    elim (Bool-cases (b.measurement_start == 0)) [
      | inl early ↦ simp early (same_paints c b _ refl refl refl refl v)
      | inr late ↦
          let good : (not (low_bits o.pixel 8 == 0x5a)
                || (marker_id o.pixel == 0 || leb (length b.painted) (marker_id o.pixel)))
              ≡ false =
            ground arith in
          simp (late, good) (same_paints c b _ refl refl refl refl v)
    ]
