-- ===== src/Device/Capture/Close.antt =====
-- CloseCapture takes every capture of one client back, and nothing else.
use nyan_real_vdd.Base.{
  ℕ, suc, ◌≡◌, refl, false, Option, none, some, List, [], ◌∷◌, arith, length, Bool-cases, inl, inr,
  if◌then◌else◌, ap, ◌∙◌, subst, sym, All, map,
}
use nyan_real_vdd.FrameShare.Channel.{Channel}
use nyan_real_vdd.Device.{Device, Slot}
use nyan_real_vdd.Device.Slots.{slot_has, has_cookie, lookup}
use nyan_real_vdd.Device.Slots.Laws.{Unique}
use nyan_real_vdd.Device.Invariant.{SlotOk, TableOk}
use nyan_real_vdd.Device.Capture.{owned_by, has_owner, close_slots, close_capture}

-- What closing leaves of one slot.
abbrev pub released : ℕ → Slot → Slot
released o s = if owned_by o s then record s { capture_owner = none } else s

slots-close_slots :
    (o : ℕ) (ss : List Slot) (bindings : ℕ → Option ℕ) (channels : ℕ → Option Channel)
    → (close_slots o ss bindings channels).slots ≡ map (released o) ss
unfolding close_slots
slots-close_slots o [] bindings channels = refl
slots-close_slots o (s ∷ ss) bindings channels =
    ap (◌∷◌ (released o s)) (slots-close_slots o ss _ _)

slots-close_capture : (o : ℕ) (d : Device) → (close_capture o d).slots ≡ map (released o) d.slots
unfolding close_capture
slots-close_capture o d = slots-close_slots o d.slots d.bindings d.channels

module _ (o : ℕ) where
  released_has : (c : ℕ) (s : Slot) → slot_has c (released o s) ≡ slot_has c s
  released_has c s = ground arith

  lookup-released :
      (c : ℕ) (ss : List Slot)
      → lookup c (map (released o) ss)
        ≡ (elim (lookup c ss) [ none ↦ none | some s ↦ some (released o s) ])
  unfolding lookup
  lookup-released c [] = refl
  lookup-released c (s ∷ ss) = elim (Bool-cases (slot_has c s)) [
    | inl here ↦ rw (released_has c s, here) refl
    | inr other ↦ rw (released_has c s, other) (lookup-released c ss)
  ]

  has_owner-released : (ss : List Slot) → has_owner o (map (released o) ss) ≡ false
  unfolding has_owner
  has_owner-released [] = refl
  has_owner-released (s ∷ ss) = ground (arith, has_owner-released ss)

  has_cookie-released :
      (c : ℕ) (ss : List Slot) → has_cookie c (map (released o) ss) ≡ has_cookie c ss
  unfolding has_cookie
  has_cookie-released c [] = refl
  has_cookie-released c (s ∷ ss) = rw (released_has c s, has_cookie-released c ss) refl

  released-SlotOk : (s : Slot) → SlotOk s → SlotOk (released o s)
  released-SlotOk s v = ground arith

  All-released : (ss : List Slot) → All SlotOk ss → All SlotOk (map (released o) ss)
  All-released [] v = tt
  All-released (s ∷ ss) v = (released-SlotOk s v.0, All-released ss v.1)

  Unique-released : (ss : List Slot) → Unique ss → Unique (map (released o) ss)
  Unique-released [] u = tt
  Unique-released (s ∷ ss) u =
      (λ h. ground (arith, has_cookie-released s.params.cookie ss, u.0), Unique-released ss u.1)

  length-released : (ss : List Slot) → length (map (released o) ss) ≡ length ss
  length-released [] = refl
  length-released (s ∷ ss) = ap suc (length-released ss)

-- CloseCapture keeps the invariant of the slot table.
pub close_capture-TableOk :
    (o : ℕ) (d : Device) → TableOk d.slots → TableOk (close_capture o d).slots
close_capture-TableOk o d v = subst TableOk (sym (slots-close_capture o d)) (record {
  four = length-released o d.slots ∙ v.four;
  each = All-released o d.slots v.each;
  unique = Unique-released o d.slots v.unique;
})

-- After CloseCapture the client owns no capture, and every monitor is looked up as before but for
-- that ownership.
pub close_capture_lem :
    (o c : ℕ) (d : Device)
    → (has_owner o (close_capture o d).slots ≡ false)
      × (lookup c (close_capture o d).slots
          ≡ (elim (lookup c d.slots) [ none ↦ none | some s ↦ some (released o s) ]))
close_capture_lem o c d = (
  ap (has_owner o) (slots-close_capture o d) ∙ has_owner-released o d.slots,
  ap (lookup c) (slots-close_capture o d) ∙ lookup-released o c d.slots,
)
