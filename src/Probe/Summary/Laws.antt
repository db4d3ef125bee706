-- ===== src/Probe/Summary/Laws.antt =====
-- What the printed summary says of the frames.
use mathlib.Core.List.{append_assoc, append-nil}
use native.Mathlib.Nat.{div-le_of_le-mul}
use nyan_real_vdd.Base.{
  ℕ, suc, ◌+◌, ◌*◌, ◌^◌, ◌≤◌, ◌<◌, ◌≡◌, refl, List, [], ◌∷◌, ◌++◌, map, length, All, arith, ap, ◌∙◌,
  sym, subst,
}
use nyan_real_vdd.Probe.Frames.{FrameRecord}
use nyan_real_vdd.Probe.Summary.{
  sort, half, p95, percentile, back, Totals, no_totals, add_frame, add_frames, Steady, steady_of,
}
use nyan_real_vdd.Probe.Summary.Sorting.{
  IsSorted, length-sort, sort-IsSorted, sort-All, back-greatest, IsRounding, percentile-Ordered,
}

abbrev sum : List ℕ → ℕ
sum [] = 0
sum (x ∷ xs) = x + sum xs

sum-le : (top : ℕ) (xs : List ℕ) → All (λ x. x ≤ top) xs → sum xs ≤ length xs * top
sum-le top [] h = omega arith
sum-le top (x ∷ xs) h = omega (arith, h.0, sum-le top xs h.1)

-- The loop over the frames after the first.
areas_of :
    (fs : List FrameRecord) (t : Totals)
    → (add_frames fs t).areas ≡ t.areas ++ map (λ f. f.dirty_px) fs
unfolding add_frames
areas_of [] t = sym (append-nil t.areas)
areas_of (f ∷ fs) t =
    areas_of fs (add_frame f t) ∙ append_assoc t.areas (f.dirty_px ∷ []) (map (λ f. f.dirty_px) fs)

total_le :
    (fs : List FrameRecord) (t : Totals)
    → (add_frames fs t).total_px ≤ t.total_px + sum (map (λ f. f.dirty_px) fs)
unfolding add_frames
total_le [] t = omega arith
total_le (f ∷ fs) t = omega (arith, total_le fs (add_frame f t))

rects_grow : (fs : List FrameRecord) (t : Totals) → t.max_rects ≤ (add_frames fs t).max_rects
unfolding add_frames
rects_grow [] t = omega arith
rects_grow (f ∷ fs) t = ground (arith, rects_grow fs (add_frame f t))

rects_le :
    (fs : List FrameRecord) (t : Totals) → All (λ f. f.rect_count ≤ (add_frames fs t).max_rects) fs
unfolding add_frames
rects_le [] t = tt
rects_le (f ∷ fs) t = (ground (arith, rects_grow fs (add_frame f t)), rects_le fs (add_frame f t))

-- What the line about the frames after the first says of them.
pub record Describes (fs : List FrameRecord) (s : Steady) : Type 0 where
  pub count : s.count ≡ length fs
  pub median : s.median ≤ s.high
  pub high : s.high ≤ s.max
  pub average : s.average ≤ s.max
  pub greatest : All (λ f. f.dirty_px ≤ s.max) fs
  pub rects : All (λ f. f.rect_count ≤ s.max_rects) fs

All-map {κ} :
    (P : ℕ → Type κ) (fs : List FrameRecord)
    → All P (map (λ f. f.dirty_px) fs)
    → All (λ (f : FrameRecord). P f.dirty_px) fs
All-map P [] h = tt
All-map P (f ∷ fs) h = (h.0, All-map P fs h.1)

length_map : (fs : List FrameRecord) → length (map (λ f. f.dirty_px) fs) ≡ length fs
length_map [] = refl
length_map (f ∷ fs) = ap suc (length_map fs)

average_le :
    (f : FrameRecord) (fs : List FrameRecord) (top n : ℕ)
    → n ≡ length (f ∷ fs)
    → All (λ y. y ≤ top) (map (λ (g : FrameRecord). g.dirty_px) (f ∷ fs))
    → (add_frames (f ∷ fs) no_totals).total_px ≤ n * top
average_le f fs top n e h =
    let areas = map (λ (g : FrameRecord). g.dirty_px) (f ∷ fs) in
    let n' : length areas ≡ n = length_map (f ∷ fs) ∙ sym e in
    let le : sum areas ≤ length areas * top = sum-le top areas h in
    let le' : sum areas ≤ n * top = subst (λ k. sum areas ≤ k * top) n' le in
    omega (arith, total_le (f ∷ fs) no_totals)

module _ (round : ℕ → ℕ) (ok : IsRounding round) where
  percentiles :
      (xs : List ℕ)
      → IsSorted xs
      → length xs < 2 ^ 52
      → (percentile round xs half ≤ percentile round xs p95) × (percentile round xs p95 ≤ back xs)
  unfolding percentile back
  percentiles [] s small = (omega arith, omega arith)
  percentiles (x ∷ xs) s small = percentile-Ordered round ok x xs s (omega arith)

  -- Where fewer than 2^52 frames came after the first, of them the printed median is at most the 95th percentile and
  -- that at most the maximum; the average is at most the maximum too, even where the sum of the areas wraps; no frame
  -- has a larger area than the maximum or more regions than the greatest count; and the count is that of the frames.
  pub steady-Describes :
      (f : FrameRecord) (fs : List FrameRecord)
      → length (f ∷ fs) < 2 ^ 52
      → Describes (f ∷ fs) (steady_of round (add_frames (f ∷ fs) no_totals))
  steady-Describes f fs small =
      let t = add_frames (f ∷ fs) no_totals in
      let areas : t.areas ≡ map (λ (g : FrameRecord). g.dirty_px) (f ∷ fs) =
        areas_of (f ∷ fs) no_totals in
      let sorted = sort-IsSorted t.areas in
      let counted : length (sort t.areas) ≡ length (f ∷ fs) =
        length-sort t.areas ∙ ap length areas ∙ length_map (f ∷ fs) in
      let ordered = percentiles (sort t.areas) sorted (omega arith) in
      let all : All (λ y. y ≤ back (sort t.areas)) t.areas =
        sort-All (λ y. y ≤ back (sort t.areas)) t.areas (back-greatest (sort t.areas) sorted) in
      let below : All (λ y. y ≤ back (sort t.areas))
          (map (λ (g : FrameRecord). g.dirty_px) (f ∷ fs)) =
        subst (All (λ y. y ≤ back (sort t.areas))) areas all in
      record {
        count = counted;
        median = ordered.0;
        high = ordered.1;
        average =
            div-le_of_le-mul (length (sort t.areas))
              (average_le f fs (back (sort t.areas)) (length (sort t.areas)) counted below);
        greatest = All-map (λ y. y ≤ back (sort t.areas)) (f ∷ fs) below;
        rects = rects_le (f ∷ fs) no_totals;
      }
