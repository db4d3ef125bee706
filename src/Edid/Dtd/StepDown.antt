-- ===== src/Edid/Dtd/StepDown.antt =====
-- DtdModeFor keeps the pixel count and gives up as little refresh rate as its steps allow.
use native.Mathlib.Nat.{mul-le-mul}
use nyan_real_vdd.Base.{
  ℕ, ◌+◌, ◌*◌, ◌≤◌, ◌<◌, ◌≡◌, refl, true, false, List, [], ◌∷◌, ◌++◌, arith, leb, inl, inr,
  Bool-cases, All, All-mono, ltb, ltb→lt, ltb→le, leb→le, ap, ◌⊎◌, subst, sym,
}
use nyan_real_vdd.Edid.Mode.{NyanMode}
use nyan_real_vdd.Edid.Mode.Range.{InBounds, InRange, InRange-InBounds, pixel_clock_hz_exact}
use nyan_real_vdd.Edid.Dtd.{dtd_encodable, k_step_down, step_down, dtd_mode_for}

-- `d` is `m` at the rate `d.refresh_hz`, which the descriptor can hold.
pub record IsStep (m d : NyanMode) : Type 0 where
  pub encodable : dtd_encodable d ≡ true
  pub width_kept : d.width ≡ m.width
  pub height_kept : d.height ≡ m.height
  pub refresh_le : d.refresh_hz ≤ m.refresh_hz

abbrev at_rate : NyanMode → ℕ → NyanMode
at_rate m hz = record m { refresh_hz = hz }

step_down-IsStep :
    (m : NyanMode) (steps : List ℕ)
    → 24 < m.refresh_hz
    → dtd_encodable (at_rate m 24) ≡ true
    → IsStep m (step_down m (steps ++ 24 ∷ []))
unfolding step_down
step_down-IsStep m [] h e = ground arith
step_down-IsStep m (hz ∷ steps) h e = ground (arith, step_down-IsStep m steps h e)

clock_at_24 : (w h : ℕ) → w ≤ 4095 → h ≤ 4095 → (w + 160) * (h + 35) * 24 ≤ 655350000
clock_at_24 w h p q = omega (
  arith,
  mul-le-mul {n₁ = w + 160} {m₁ = h + 35} {n₂ = 4255} {m₂ = 4130} (omega arith) (omega arith),
)

at_24_encodable : (m : NyanMode) → InBounds m → dtd_encodable (at_rate m 24) ≡ true
unfolding dtd_encodable
at_24_encodable m v = ground (
  arith,
  pixel_clock_hz_exact (at_rate m 24)
      (record { width_max = v.width_max; height_max = v.height_max; refresh_max = omega arith }),
  clock_at_24 m.width m.height v.width_max v.height_max,
)

above_24 : (m : NyanMode) → InRange m → dtd_encodable m ≡ false → 24 < m.refresh_hz
above_24 m v over = elim (Bool-cases (ltb 24 m.refresh_hz)) [
  | inl high ↦ ltb→lt _ _ high
  | inr low ↦
      let e : m.refresh_hz ≡ 24 = omega (arith, ltb→le _ _ low) in
      let same : at_rate m m.refresh_hz ≡ at_rate m 24 = ap (at_rate m) e in
      cc (at_24_encodable m (InRange-InBounds v))
]

-- Every supported mode gets a descriptor that can hold it: the same pixel count, at no higher rate.
pub dtd_mode_for-IsStep : (m : NyanMode) → InRange m → IsStep m (dtd_mode_for m)
unfolding dtd_mode_for
dtd_mode_for-IsStep m v = elim (Bool-cases (dtd_encodable m)) [
  | inl fits ↦
      rw fits (record {
        encodable = fits;
        width_kept = refl;
        height_kept = refl;
        refresh_le = omega arith;
      })
  | inr over ↦ rw over (
      step_down-IsStep m (120 ∷ 100 ∷ 90 ∷ 75 ∷ 72 ∷ 60 ∷ 50 ∷ 30 ∷ []) (above_24 m v over)
        (at_24_encodable m (InRange-InBounds v)))
]

abbrev Descending : List ℕ → Type 0
Descending [] = Unit
Descending (hz ∷ steps) = All (λ k. k ≤ hz) steps × Descending steps

-- No step of the list that the descriptor could hold is higher than the rate `r`.
abbrev pub IsBest : NyanMode → ℕ → List ℕ → Type 0
IsBest m r = All (λ hz. hz < m.refresh_hz → dtd_encodable (at_rate m hz) ≡ true → hz ≤ r)

step_down_cases :
    (m : NyanMode) (hz : ℕ) (steps : List ℕ)
    → ((step_down m (hz ∷ steps) ≡ step_down m steps)
        × ((hz < m.refresh_hz) → dtd_encodable (at_rate m hz) ≡ true → ⊥))
      ⊎ (step_down m (hz ∷ steps) ≡ at_rate m hz)
unfolding step_down
step_down_cases m hz steps = elim (Bool-cases (leb m.refresh_hz hz)) [
  | inl skip ↦ inl (rw skip, λ lt enc. omega (arith, leb→le _ _ skip))
  | inr below ↦ elim (Bool-cases (dtd_encodable (at_rate m hz))) [
    | inl fits ↦ inr (rw (below, fits))
    | inr over ↦ inl (rw (below, over), λ lt enc. cc)
  ]
]

step_down-IsBest :
    (m : NyanMode) (steps : List ℕ)
    → Descending steps
    → IsBest m (step_down m steps).refresh_hz steps
step_down-IsBest m [] d = tt
step_down-IsBest m (hz ∷ steps) d = elim (step_down_cases m hz steps) [
  | inl (e, refused) ↦
      subst (λ x. IsBest m x.refresh_hz (hz ∷ steps)) (sym e)
        (λ lt enc. absurd (refused lt enc), step_down-IsBest m steps d.1)
  | inr e ↦
      subst (λ x. IsBest m x.refresh_hz (hz ∷ steps)) (sym e)
        (λ lt enc. omega arith, All-mono _ _ (λ k le lt enc. le) steps d.0)
]

-- A step of a mode that does not fit is not that mode.
lower_rate : (m d : NyanMode) → IsStep m d → dtd_encodable m ≡ false → d.refresh_hz < m.refresh_hz
lower_rate m d s over = elim (Bool-cases (ltb d.refresh_hz m.refresh_hz)) [
  | inl lower ↦ ltb→lt _ _ lower
  | inr same ↦
      let le = s.refresh_le in
      let e : m.refresh_hz ≡ d.refresh_hz = omega (arith, ltb→le _ _ same) in
      let width = s.width_kept in
      let height = s.height_kept in
      let fits = s.encodable in let equal : m ≡ d = ground arith in absurd cc
]

-- A supported mode is described by itself if it fits the descriptor. If not, it is described by a mode that fits,
-- with the same width and height, at a lower rate, such that no step below the requested rate at which the
-- mode would fit is higher.
pub dtd_mode_for-IsBest :
    (m : NyanMode)
    → InRange m
    → let d = dtd_mode_for m in
      IsStep m d
      × (dtd_encodable m ≡ true → d ≡ m)
      × (dtd_encodable m ≡ false
          → (d.refresh_hz < m.refresh_hz) × IsBest m d.refresh_hz k_step_down)
unfolding dtd_mode_for
dtd_mode_for-IsBest m v = (
  dtd_mode_for-IsStep m v,
  λ e. rw e,
  λ e. (
    lower_rate m (dtd_mode_for m) (dtd_mode_for-IsStep m v) e,
    rw e (step_down-IsBest m k_step_down (omega arith)),
  ),
)
