-- ===== src/Device/Slots/Laws.antt =====
-- The lookups of the slot table after a slot is written.
use nyan_real_vdd.Base.{
  ℕ, zero, suc, ◌+◌, ◌<◌, ◌≡◌, refl, true, false, none, some, List, [], ◌∷◌, arith, get_or, set,
  length, Bool-cases, inl, inr, ap,
}
use nyan_real_vdd.Device.{Slot, empty_slot}
use nyan_real_vdd.Device.Slots.{slot_has, has_cookie, lookup, first_free}

-- No two used slots have one cookie.
abbrev pub Unique : List Slot → Type 0
Unique [] = Unit
Unique (s ∷ ss) = (s.used ≡ true → has_cookie s.params.cookie ss ≡ false) × Unique ss

-- Clearing or filling one slot, by what it does to a lookup.
pub has_cookie-set :
    (c i : ℕ) (s : Slot) (ss : List Slot)
    → has_cookie c ss ≡ false
    → slot_has c s ≡ false
    → has_cookie c (set ss i s) ≡ false
unfolding has_cookie
has_cookie-set c i s [] h k = h
has_cookie-set c zero s (t ∷ ts) h k = ground arith
has_cookie-set c (suc i) s (t ∷ ts) h k = ground (arith, has_cookie-set c i s ts)

pub lookup-absent : (c : ℕ) (ss : List Slot) → has_cookie c ss ≡ false → lookup c ss ≡ none
unfolding has_cookie lookup
lookup-absent c [] h = refl
lookup-absent c (s ∷ ss) h = ground (arith, lookup-absent c ss)

pub lookup-present :
    (c : ℕ) (ss : List Slot)
    → has_cookie c ss ≡ true
    → (s : Slot) × (lookup c ss ≡ some s) × (slot_has c s ≡ true)
unfolding has_cookie lookup
lookup-present c [] h = cc
lookup-present c (s ∷ ss) h = elim (Bool-cases (slot_has c s)) [
  | inl here ↦ (s, rw here, here)
  | inr later ↦ let (t, e, k) = lookup-present c ss (ground arith) in (t, rw later e, k)
]

-- Another cookie than those of the old and the new slot is looked up as before.
pub lookup-set_ne :
    (c i : ℕ) (s : Slot) (ss : List Slot)
    → slot_has c (get_or ss i empty_slot) ≡ false
    → slot_has c s ≡ false
    → lookup c (set ss i s) ≡ lookup c ss
unfolding lookup
lookup-set_ne c i s [] h k = refl
lookup-set_ne c zero s (t ∷ ts) h k = ground arith
lookup-set_ne c (suc i) s (t ∷ ts) h k = ground (arith, lookup-set_ne c i s ts)

-- A cookie that is nowhere else is found in the slot that was written.
pub lookup-set_self :
    (c i : ℕ) (s : Slot) (ss : List Slot)
    → i < length ss
    → slot_has c s ≡ true
    → has_cookie c (set ss i empty_slot) ≡ false
    → lookup c (set ss i s) ≡ some s
unfolding lookup has_cookie
lookup-set_self c i s [] h k a = absurd (omega arith)
lookup-set_self c zero s (t ∷ ts) h k a = ground arith
lookup-set_self c (suc i) s (t ∷ ts) h k a = ground (arith, lookup-set_self c i s ts)

pub has_cookie-set_empty :
    (c i : ℕ) (ss : List Slot)
    → has_cookie c ss ≡ false
    → has_cookie c (set ss i empty_slot) ≡ false
has_cookie-set_empty c i ss h = has_cookie-set c i empty_slot ss h refl

has_cookie-get_or :
    (i : ℕ) (ss : List Slot)
    → (get_or ss i empty_slot).used ≡ true
    → has_cookie (get_or ss i empty_slot).params.cookie ss ≡ true
unfolding has_cookie
has_cookie-get_or i [] h = cc
has_cookie-get_or zero (s ∷ ss) h = ground arith
has_cookie-get_or (suc i) (s ∷ ss) h = ground (arith, has_cookie-get_or i ss h)

-- Where the slot of index `i` has the cookie, no other slot has it.
pub Unique-others :
    (i : ℕ) (ss : List Slot)
    → Unique ss
    → (get_or ss i empty_slot).used ≡ true
    → has_cookie (get_or ss i empty_slot).params.cookie (set ss i empty_slot) ≡ false
unfolding has_cookie
Unique-others i [] u h = cc
Unique-others zero (s ∷ ss) u h = ground (arith, u.0 h)
Unique-others (suc i) (s ∷ ss) u h =
    let c = (get_or ss i empty_slot).params.cookie in
    ground (
      arith,
      has_cookie-get_or i ss h,
      Unique-others i ss u.1 h,
      u.0,
      ap (λ (k : ℕ). has_cookie k ss) {x = s.params.cookie} {y = c},
    )

-- A slot may be written whose cookie, if it is used, no other slot has.
pub Unique-set :
    (i : ℕ) (s : Slot) (ss : List Slot)
    → Unique ss
    → (s.used ≡ true → has_cookie s.params.cookie (set ss i empty_slot) ≡ false)
    → Unique (set ss i s)
unfolding has_cookie
Unique-set i s [] u h = tt
Unique-set zero s (t ∷ ts) u h = (λ k. ground (arith, h k), u.1)
Unique-set (suc i) s (t ∷ ts) u h = (
  λ k. has_cookie-set t.params.cookie i s ts (u.0 k) (ground (arith, h)),
  Unique-set i s ts u.1 (λ k. ground (arith, h k)),
)

-- The index that first_free gives is that of a slot which is not used.
pub first_free_lem :
    (i : ℕ) (ss : List Slot) {j : ℕ}
    → first_free i ss ≡ some j
    → (k : ℕ) × (j ≡ i + k) × (k < length ss) × ((get_or ss k empty_slot).used ≡ false)
unfolding first_free
first_free_lem i [] h = cc
first_free_lem i (s ∷ ss) {j} h = elim (Bool-cases s.used) [
  | inl busy ↦
      let (k, e, lt, free) = first_free_lem (suc i) ss {j = j} (ground arith) in
      (suc k, omega arith, omega arith, free)
  | inr idle ↦ (0, ground arith, omega arith, idle)
]
