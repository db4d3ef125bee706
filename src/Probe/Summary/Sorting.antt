-- ===== src/Probe/Summary/Sorting.antt =====
-- Sorted areas, and the places in them that dirty-probe prints.
use nyan_real_vdd.Base.{
  ℕ, zero, suc, ◌+◌, ◌-◌, ◌*◌, ◌^◌, ◌≤◌, ◌<◌, ◌≡◌, refl, inl, inr, List, [], ◌∷◌, length, All,
  All-mono, get_or, leb, arith, Bool-cases, ap, ◌∙◌, sym, subst,
}
use nyan_real_vdd.Probe.Summary.{insert, sort, half, p95, rank, percentile, back}

abbrev pub IsSorted : List ℕ → Type 0
IsSorted [] = Unit
IsSorted (x ∷ xs) = All (λ y. x ≤ y) xs × IsSorted xs

length-insert : (a : ℕ) (xs : List ℕ) → length (insert a xs) ≡ suc (length xs)
unfolding insert
length-insert a [] = refl
length-insert a (x ∷ xs) = elim (Bool-cases (leb a x)) [
  | inl e ↦ simp e refl
  | inr e ↦ simp e (ap suc (length-insert a xs))
]

pub length-sort : (xs : List ℕ) → length (sort xs) ≡ length xs
unfolding sort
length-sort [] = refl
length-sort (x ∷ xs) = length-insert x (sort xs) ∙ ap suc (length-sort xs)

All-insert {κ} : (P : ℕ → Type κ) (a : ℕ) (xs : List ℕ) → P a → All P xs → All P (insert a xs)
unfolding insert
All-insert P a [] p h = (p, tt)
All-insert P a (x ∷ xs) p h = elim (Bool-cases (leb a x)) [
  | inl e ↦ simp e (p, h)
  | inr e ↦ simp e (h.0, All-insert P a xs p h.1)
]

insert-IsSorted : (a : ℕ) (xs : List ℕ) → IsSorted xs → IsSorted (insert a xs)
unfolding insert
insert-IsSorted a [] s = (tt, tt)
insert-IsSorted a (x ∷ xs) s = elim (Bool-cases (leb a x)) [
  | inl e ↦
      let le : a ≤ x = ground arith in
      simp e ((le, All-mono (λ y. x ≤ y) (λ y. a ≤ y) (λ y h. omega arith) xs s.0), s)
  | inr e ↦
      let le : x ≤ a = ground arith in
      simp e (All-insert (λ y. x ≤ y) a xs le s.0, insert-IsSorted a xs s.1)
]

pub sort-IsSorted : (xs : List ℕ) → IsSorted (sort xs)
unfolding sort
sort-IsSorted [] = tt
sort-IsSorted (x ∷ xs) = insert-IsSorted x (sort xs) (sort-IsSorted xs)

-- What holds of every sorted value held of every value.
insert-All {κ} : (P : ℕ → Type κ) (a : ℕ) (xs : List ℕ) → All P (insert a xs) → P a × All P xs
unfolding insert
insert-All P a [] h = (h.0, tt)
insert-All P a (x ∷ xs) h = elim (Bool-cases (leb a x)) [
  | inl e ↦ simp e at h
  | inr e ↦
      let (p, rest) : P x × All P (insert a xs) = (simp e at h) in
      let (q, more) = insert-All P a xs rest in (q, (p, more))
]

pub sort-All {κ} : (P : ℕ → Type κ) (xs : List ℕ) → All P (sort xs) → All P xs
unfolding sort
sort-All P [] h = tt
sort-All P (x ∷ xs) h = let (p, rest) = insert-All P x (sort xs) h in (p, sort-All P xs rest)

get-All {κ} :
    (P : ℕ → Type κ) (xs : List ℕ) (i d : ℕ) → All P xs → i < length xs → P (get_or xs i d)
get-All P [] i d h lt = absurd (omega arith)
get-All P (x ∷ xs) zero d h lt = h.0
get-All P (x ∷ xs) (suc i) d h lt = get-All P xs i d h.1 (omega arith)

get_mono :
    (xs : List ℕ) (i j d : ℕ) → IsSorted xs → i ≤ j → j < length xs → get_or xs i d ≤ get_or xs j d
get_mono [] i j d s le lt = absurd (omega arith)
get_mono (x ∷ xs) zero zero d s le lt = omega arith
get_mono (x ∷ xs) zero (suc j) d s le lt = get-All (λ y. x ≤ y) xs j d s.0 (omega arith)
get_mono (x ∷ xs) (suc i) zero d s le lt = absurd (omega arith)
get_mono (x ∷ xs) (suc i) (suc j) d s le lt = get_mono xs i j d s.1 (omega arith) (omega arith)

back-get : (x : ℕ) (xs : List ℕ) → back (x ∷ xs) ≡ get_or (x ∷ xs) (length xs) 0
unfolding back
back-get x [] = refl
back-get x (y ∷ xs) = back-get y xs

-- Every value is at most the last.
pub back-greatest : (xs : List ℕ) → IsSorted xs → All (λ y. y ≤ back xs) xs
unfolding back
back-greatest [] s = tt
back-greatest (x ∷ []) s = (omega arith, tt)
back-greatest (x ∷ y ∷ xs) s =
    let rest = back-greatest (y ∷ xs) s.1 in let le : x ≤ y = s.0.0 in (omega (arith, rest.0), rest)

-- What the rounding of doubles does: it keeps the order, whole numbers and whole numbers and a half.
pub record IsRounding (round : ℕ → ℕ) : Type 0 where
  pub mono : (a b : ℕ) → a ≤ b → round a ≤ round b
  pub whole : (k : ℕ) → k < 2 ^ 52 → round (k * 2 ^ 53) ≡ k * 2 ^ 53
  pub and_half : (k : ℕ) → k < 2 ^ 52 → round (k * 2 ^ 53 + half) ≡ k * 2 ^ 53 + half

module _ (round : ℕ → ℕ) (ok : IsRounding round) where
  rank_mono : (p q n : ℕ) → p * (n - 1) ≤ q * (n - 1) → rank round p n ≤ rank round q n
  rank_mono p q n le =
      let a : round (p * (n - 1)) ≤ round (q * (n - 1)) = ok.mono _ _ le in
      let b : round (round (p * (n - 1)) + half) ≤ round (round (q * (n - 1)) + half) =
        ok.mono _ _ (omega arith) in
      omega arith

  rank-lt : (p k : ℕ) → p * k ≤ k * 2 ^ 53 → k < 2 ^ 52 → rank round p (suc k) ≤ k
  rank-lt p k scaled small =
      let e : suc k - 1 ≡ k = omega arith in
      let a : round (p * (suc k - 1)) ≤ round (k * 2 ^ 53) = ok.mono _ _ (rw e scaled) in
      let b : round (round (p * (suc k - 1)) + half) ≤ round (k * 2 ^ 53 + half) =
        ok.mono _ _ (omega (arith, ok.whole k small)) in
      omega (arith, ok.and_half k small)

  -- The median and the 95th percentile of a sorted range.
  pub percentile-Ordered :
      (x : ℕ) (xs : List ℕ)
      → IsSorted (x ∷ xs)
      → length xs < 2 ^ 52
      → (percentile round (x ∷ xs) half ≤ percentile round (x ∷ xs) p95)
        × (percentile round (x ∷ xs) p95 ≤ back (x ∷ xs))
  unfolding percentile
  percentile-Ordered x xs s small =
      let high : rank round p95 (suc (length xs)) ≤ length xs =
        rank-lt p95 (length xs) (omega arith) small in
      let between : rank round half (suc (length xs)) ≤ rank round p95 (suc (length xs)) =
        rank_mono half p95 (suc (length xs)) (omega arith) in
      (
        get_mono (x ∷ xs) _ _ 0 s between (omega arith),
        subst (λ y. get_or (x ∷ xs) (rank round p95 (suc (length xs))) 0 ≤ y) (sym (back-get x xs))
            (get_mono (x ∷ xs) _ (length xs) 0 s high (omega arith)),
      )
