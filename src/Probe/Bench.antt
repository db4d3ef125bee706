-- ===== src/Probe/Bench.antt =====
-- RunCaptureBench (tools/dirty-probe/capture_bench.cpp): the window that is painted in a colour for each
-- paint, the loop that polls and checks one pixel, the times that are printed and the result. The clock, the
-- transport and the pixels are what a round observes. Times are in ticks of the clock, without the floating-point
-- scale.
pub mod Marker
pub mod Laws
pub mod NoFalseAlarm
use nyan_real_vdd.Base.{
  ℕ, zero, suc, ◌+◌, ◌-◌, ◌*◌, ◌/◌, ◌%◌, ◌^◌, ◌≤◌, ◌≡◌, Bool, true, false, not, ◌&&◌, ◌||◌, bit_or,
  Option, none, some, List, [], ◌∷◌, ◌++◌, length, get_or, ltb, leb, ◌==◌, if◌then◌else◌,
}
use nyan_real_vdd.Base.Bits.{u32, shl, shr, low_bits}
use nyan_real_vdd.Probe.Summary.{sort, back}

-- RGB of the three bytes: red in the lowest one.
abbrev pub rgb : ℕ → ℕ → ℕ → ℕ
rgb r g b = bit_or (bit_or r (shl g 8)) (shl b 16)

-- `RGB(Id&255, (Id>>8)&255, 0x5a)`
abbrev pub marker_colour : ℕ → ℕ
marker_colour id = rgb (low_bits id 8) (low_bits (shr id 8) 8) 0x5a

-- `((Pixel>>16)&255) | (Pixel&0xff00)`
unfoldable pub marker_id : ℕ → ℕ
marker_id pixel = bit_or (low_bits (shr pixel 16) 8) (shl (low_bits (shr pixel 8) 8) 8)

-- The arguments, and the ticks per second; `hz` is what std::clamp(Hz, 1, 120) gives.
pub record Config : Type 0 where
  pub shared : Bool
  pub seconds : ℕ
  pub size : ℕ
  pub hz : ℕ
  pub readback_every : ℕ
  pub frequency : ℕ

-- The locals of the loop; the paint times and the latencies are latest first, and the two counts are of the
-- poll times without and with a new frame. `start` is the counter before the loop.
pub record Bench : Type 0 where
  pub start : ℕ
  pub painted : List ℕ
  pub next_paint : ℕ
  pub measurement_start : ℕ
  pub idle_polls : ℕ
  pub new_polls : ℕ
  pub latencies : List ℕ
  pub last_seen : ℕ
  pub frames : ℕ
  pub invalid_pixels : ℕ
  pub received : ℕ
  pub checked : ℕ

abbrev pub new_bench : ℕ → Bench
new_bench start = record {
  start = start;
  painted = 0 ∷ [];
  next_paint = start;
  measurement_start = 0;
  idle_polls = 0;
  new_polls = 0;
  latencies = [];
  last_seen = 0;
  frames = 0;
  invalid_pixels = 0;
  received = 0;
  checked = 0;
}

-- One round: the counter at its start, whether Import finds the ring ready, whether a new frame came, the pixel
-- that is read back, and the counter after it.
pub record Observed : Type 0 where
  pub now : ℕ
  pub ready : Bool
  pub is_new : Bool
  pub pixel : ℕ
  pub end_time : ℕ

-- `Now.QuadPart >= NextPaint && (Size > 0 || Painted.size() == 1)`
abbrev pub is_due : Config → ℕ → Bench → Bool
is_due c now b = leb b.next_paint now && (ltb 0 c.size || length b.painted == 1)

unfoldable pub paint : Config → ℕ → Bench → Bench
paint c now b =
    if is_due c now b
    then record b { painted = now ∷ b.painted; next_paint = now + c.frequency / c.hz }
    else b

-- The measurement begins after one second.
unfoldable pub begin_measurement : Config → ℕ → Bench → Bench
begin_measurement c now b =
    if b.measurement_start == 0 && leb c.frequency (now - b.start)
    then record b { measurement_start = now }
    else b

-- `Painted[Id]`, in the order of the paints.
abbrev pub painted_at : List ℕ → ℕ → ℕ
painted_at painted id = get_or painted (length painted - suc id) 0

-- The pixel was read back.
unfoldable pub check_pixel : ℕ → ℕ → Bench → Bench
check_pixel pixel end_time b =
    let id = marker_id pixel in
    if b.measurement_start == 0
    then record b { last_seen = id }
    else if not (low_bits pixel 8 == 0x5a) || (id == 0 || leb (length b.painted) id)
    then record b { checked = suc b.checked; invalid_pixels = suc b.invalid_pixels; last_seen = id }
    else record b {
      checked = suc b.checked;
      latencies =
          if ltb b.last_seen id
          then (end_time - painted_at b.painted id) ∷ b.latencies
          else b.latencies;
      last_seen = id;
    }

-- `Received == 1 || Received % ReadbackEvery == 0`
abbrev pub reads_back : Config → Bench → Bool
reads_back c b = b.received == 1 || b.received % c.readback_every == 0

-- A new frame came.
unfoldable pub on_new : Config → Observed → Bench → Bench
on_new c o b =
    let b1 : Bench = record b {
      new_polls = if b.measurement_start == 0 then b.new_polls else suc b.new_polls;
      frames = if b.measurement_start == 0 then b.frames else suc b.frames;
      received = suc b.received;
    } in
    if reads_back c b1 then check_pixel o.pixel o.end_time b1 else b1

abbrev pub on_idle : Bench → Bench
on_idle b = record b {
  idle_polls = if b.measurement_start == 0 then b.idle_polls else suc b.idle_polls;
}

-- A round of the loop after its test.
unfoldable pub bench_round : Config → Observed → Bench → Bench
bench_round c o b =
    let painted = paint c o.now b in
    if c.shared && not o.ready
    then painted
    else (let measured = begin_measurement c o.now painted in
        if o.is_new then on_new c o measured else on_idle measured)

-- The loop over the rounds that are observed: it ends where a round starts `seconds + 1` seconds after the start.
unfoldable pub bench_loop : Config → List Observed → Bench → Bench
bench_loop c [] b = b
bench_loop c (o ∷ os) b =
    let rest = bench_loop c os (bench_round c o b) in
    if leb ((c.seconds + 1) * c.frequency) (o.now - b.start) then b else rest

-- `MeasurementStart && !InvalidPixels && (Size == 0 || !LatencyMs.empty()) ? 0 : 1`
unfoldable pub bench_result : Config → Bench → ℕ
bench_result c b =
    if not (b.measurement_start == 0)
      && (b.invalid_pixels == 0 && (c.size == 0 || ltb 0 (length b.latencies)))
    then 0
    else 1

-- What PrintTimes prints of some times: their number, the median, the 95th percentile and the maximum.
unfoldable pub print_times : List ℕ → Option (ℕ × ℕ × ℕ × ℕ)
print_times [] = none
print_times (v ∷ vs) =
    let sorted = sort (v ∷ vs) in
    let n = length (v ∷ vs) in
    some (n, get_or sorted (n / 2) 0, get_or sorted (n * 95 / 100) 0, back sorted)
