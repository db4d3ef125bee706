-- ===== src/Device/Slots.antt =====
-- The loops over the slot table that look a slot up.
pub mod Laws
use nyan_real_vdd.Base.{
  ℕ, zero, suc, Bool, true, false, ◌&&◌, ◌||◌, Option, none, some, List, [], ◌∷◌, ◌==◌,
  if◌then◌else◌,
}
use nyan_real_vdd.Device.{Slot}

-- `Slot.Used && Slot.Params.Cookie == Cookie`
abbrev pub slot_has : ℕ → Slot → Bool
slot_has c s = s.used && s.params.cookie == c

-- Whether a used slot has the cookie.
unfoldable pub has_cookie : ℕ → List Slot → Bool
has_cookie c [] = false
has_cookie c (s ∷ ss) = slot_has c s || has_cookie c ss

-- The first used slot with the cookie.
unfoldable pub lookup : ℕ → List Slot → Option Slot
lookup c [] = none
lookup c (s ∷ ss) = if slot_has c s then some s else lookup c ss

-- The index of the first slot that is not used, `i` being the index of the head.
unfoldable pub first_free : ℕ → List Slot → Option ℕ
first_free i [] = none
first_free i (s ∷ ss) = if s.used then first_free (suc i) ss else some i
