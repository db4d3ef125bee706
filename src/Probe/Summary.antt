-- ===== src/Probe/Summary.antt =====
-- The summary that dirty-probe prints (tools/dirty-probe/dirty_probe.cpp): the areas of the dirty regions
-- with their percentiles, the frames whose pixels changed, and the rows of the CSV file. The rates and
-- shares, which are floating point for the eye alone, are left out.
pub mod Sorting
pub mod Laws
pub mod Changed
use nyan_real_vdd.Base.{
  ℕ, zero, suc, ◌+◌, ◌-◌, ◌*◌, ◌/◌, ◌^◌, Bool, true, false, not, ◌&&◌, Option, none, some, List, [],
  ◌∷◌, ◌++◌, map, length, get_or, leb, ltb, ◌==◌, if◌then◌else◌,
}
use nyan_real_vdd.Base.Bits.{u32, u64}
use nyan_real_vdd.Probe.Frames.{FrameRecord, Rect}

-- What std::sort leaves in a range of numbers.
unfoldable pub insert : ℕ → List ℕ → List ℕ
insert a [] = a ∷ []
insert a (x ∷ xs) = if leb a x then a ∷ x ∷ xs else x ∷ insert a xs

unfoldable pub sort : List ℕ → List ℕ
sort [] = []
sort (x ∷ xs) = insert x (sort xs)

-- The doubles 0.5 and 0.95, in units of 2^-53.
abbrev pub half : ℕ
half = 4503599627370496

abbrev pub p95 : ℕ
p95 = 8556839292003942

-- `(size_t)(P * (n - 1) + 0.5)`, in units of 2^-53: `round` is the rounding of a result to a double.
abbrev pub rank : (ℕ → ℕ) → ℕ → ℕ → ℕ
rank round p n = round (round (p * (n - 1)) + half) / 2 ^ 53

-- Percentile
unfoldable pub percentile : (ℕ → ℕ) → List ℕ → ℕ → ℕ
percentile round [] p = 0
percentile round (x ∷ xs) p = get_or (x ∷ xs) (rank round p (length (x ∷ xs))) 0

-- Areas.back(), of a range that is not empty
unfoldable pub back : List ℕ → ℕ
back [] = 0
back (x ∷ []) = x
back (x ∷ y ∷ xs) = back (y ∷ xs)

-- The locals of the loop over the frames after the first.
pub record Totals : Type 0 where
  pub areas : List ℕ
  pub total_px : ℕ
  pub max_rects : ℕ
  pub rect_sum : ℕ

abbrev pub no_totals : Totals
no_totals = record { areas = []; total_px = 0; max_rects = 0; rect_sum = 0 }

abbrev pub add_frame : FrameRecord → Totals → Totals
add_frame f t = record {
  areas = t.areas ++ (f.dirty_px ∷ []);
  total_px = u64 (t.total_px + f.dirty_px);
  max_rects = if ltb t.max_rects f.rect_count then f.rect_count else t.max_rects;
  rect_sum = u64 (t.rect_sum + f.rect_count);
}

unfoldable pub add_frames : List FrameRecord → Totals → Totals
add_frames [] t = t
add_frames (f ∷ fs) t = add_frames fs (add_frame f t)

-- The numbers of the line about the frames after the first.
pub record Steady : Type 0 where
  pub count : ℕ
  pub average : ℕ
  pub median : ℕ
  pub high : ℕ
  pub max : ℕ
  pub max_rects : ℕ
  pub rect_sum : ℕ

abbrev pub steady_of : (ℕ → ℕ) → Totals → Steady
steady_of round t =
    let sorted = sort t.areas in
    record {
      count = length sorted;
      average = t.total_px / length sorted;
      median = percentile round sorted half;
      high = percentile round sorted p95;
      max = back sorted;
      max_rects = t.max_rects;
      rect_sum = t.rect_sum;
    }

-- What is printed of the dirty regions: nothing where no frame came, a count alone on an older system, or the
-- first frame's numbers with, if there are more frames, those of the rest.
pub data Result : Type 0 where
  no_frames frames_only : Result
  first_frame : ℕ → ℕ → Option Steady → Result

unfoldable pub steady : (ℕ → ℕ) → List FrameRecord → Option Steady
steady round [] = none
steady round (f ∷ fs) = some (steady_of round (add_frames (f ∷ fs) no_totals))

unfoldable pub summary : (ℕ → ℕ) → Bool → List FrameRecord → Result
summary round dirty_supported [] = no_frames
summary round false (f ∷ fs) = frames_only
summary round true (f ∷ fs) = first_frame f.rect_count f.dirty_px (steady round fs)

-- The locals of the loop that counts the frames with other pixels than the one before.
pub record Content : Type 0 where
  pub prev : ℕ
  pub have_prev : Bool
  pub hashed : ℕ
  pub changed : ℕ

abbrev pub no_content : Content
no_content = record { prev = 0; have_prev = false; hashed = 0; changed = 0 }

-- The body of the loop.
unfoldable pub see_frame : FrameRecord → Content → Content
see_frame f c = if not f.hash_valid then c else record {
  prev = f.hash;
  have_prev = true;
  hashed = suc c.hashed;
  changed = if c.have_prev && not (f.hash == c.prev) then suc c.changed else c.changed;
}

unfoldable pub see_frames : List FrameRecord → Content → Content
see_frames [] c = c
see_frames (f ∷ fs) c = see_frames fs (see_frame f c)

-- A line of the CSV file: the heading, or a frame's number, count, area, box and hash.
pub data CsvLine : Type 0 where
  heading : CsvLine
  row : ℕ → ℕ → ℕ → Rect → ℕ → CsvLine

unfoldable pub csv_rows : ℕ → List FrameRecord → List CsvLine
csv_rows i [] = []
csv_rows i (f ∷ fs) =
    row i f.rect_count f.dirty_px f.bounding_box (if f.hash_valid then f.hash else 0)
    ∷ csv_rows (suc i) fs

-- The lines of the file after the run; the heading is for an empty file.
unfoldable pub append_csv : List FrameRecord → List CsvLine → List CsvLine
append_csv frames [] = heading ∷ csv_rows 0 frames
append_csv frames (l ∷ ls) = (l ∷ ls) ++ csv_rows 0 frames
