-- ===== src/Device/Unplug/Laws.antt =====
-- Unplug removes exactly the monitors it is asked to remove, keeps the invariant, stops the capture
-- channels of the slots it clears, and departs each of their monitors.
use nyan_real_vdd.Base.{
  ℕ, suc, ◌≡◌, ◌≢◌, refl, false, ◌||◌, Option, none, List, [], ◌∷◌, arith, Bool-cases, inl, inr,
  length, ◌==◌, All, if◌then◌else◌, ap, map, ◌∙◌, subst, sym,
}
use nyan_real_vdd.FrameShare.Channel.{Channel}
use nyan_real_vdd.Device.{Device, Slot, empty_slot, success, not_found, OsCall, log}
use nyan_real_vdd.Device.Slots.{has_cookie, lookup}
use nyan_real_vdd.Device.Slots.Laws.{Unique}
use nyan_real_vdd.Device.Invariant.{SlotOk, TableOk, empty_slot-SlotOk}
use nyan_real_vdd.Device.Unplug.{is_target, stop_channel, channel_of, sweep, depart_all, unplug}

pub slots-depart_all : (hs : List ℕ) (d : Device) → (depart_all hs d).slots ≡ d.slots
unfolding depart_all
slots-depart_all [] d = refl
slots-depart_all (h ∷ hs) d = slots-depart_all hs (log (OsCall.departed h) d)

pub slots-unplug :
    (cookie : ℕ) (d : Device)
    → (unplug cookie d).1.slots ≡ (sweep cookie d.bindings d.slots d.channels).slots
unfolding unplug
slots-unplug cookie d =
    let w = sweep cookie d.bindings d.slots d.channels in
    ground (arith, slots-depart_all w.targets (record d { slots = w.slots; channels = w.channels }))

-- What the sweep leaves of one slot.
abbrev pub cleared : ℕ → Slot → Slot
cleared cookie s = if is_target cookie s then empty_slot else s

slots-sweep :
    (cookie : ℕ) (bindings : ℕ → Option ℕ) (ss : List Slot) (channels : ℕ → Option Channel)
    → (sweep cookie bindings ss channels).slots ≡ map (cleared cookie) ss
unfolding sweep
slots-sweep cookie bindings [] channels = refl
slots-sweep cookie bindings (s ∷ ss) channels = elim (Bool-cases (is_target cookie s)) [
  | inl hit ↦ rw hit (
      ap (◌∷◌ empty_slot)
        (slots-sweep cookie bindings ss (stop_channel (channel_of bindings s) channels)))
  | inr miss ↦ rw miss (ap (◌∷◌ s) (slots-sweep cookie bindings ss channels))
]

-- The slot table after an unplug, slot by slot.
pub unplug_slots :
    (cookie : ℕ) (d : Device) → (unplug cookie d).1.slots ≡ map (cleared cookie) d.slots
unplug_slots cookie d = slots-unplug cookie d ∙ slots-sweep cookie d.bindings d.slots d.channels

module _ (cookie : ℕ) where
  lookup-cleared :
      (c : ℕ) (ss : List Slot)
      → lookup c (map (cleared cookie) ss)
        ≡ (if cookie == 0 || c == cookie then none else lookup c ss)
  unfolding lookup
  lookup-cleared c [] = ground arith
  lookup-cleared c (s ∷ ss) = ground (arith, lookup-cleared c ss)

  has_cookie-cleared :
      (c : ℕ) (ss : List Slot)
      → has_cookie c ss ≡ false
      → has_cookie c (map (cleared cookie) ss) ≡ false
  unfolding has_cookie
  has_cookie-cleared c [] h = refl
  has_cookie-cleared c (s ∷ ss) h = ground (arith, has_cookie-cleared c ss)

  length-cleared : (ss : List Slot) → length (map (cleared cookie) ss) ≡ length ss
  length-cleared [] = refl
  length-cleared (s ∷ ss) = ap suc (length-cleared ss)

  cleared-SlotOk : (ss : List Slot) → All SlotOk ss → All SlotOk (map (cleared cookie) ss)
  cleared-SlotOk [] v = tt
  cleared-SlotOk (s ∷ ss) v = elim (Bool-cases (is_target cookie s)) [
    | inl hit ↦ rw hit (empty_slot-SlotOk, cleared-SlotOk ss v.1)
    | inr miss ↦ rw miss (v.0, cleared-SlotOk ss v.1)
  ]

  cleared-Unique : (ss : List Slot) → Unique ss → Unique (map (cleared cookie) ss)
  cleared-Unique [] u = tt
  cleared-Unique (s ∷ ss) u = elim (Bool-cases (is_target cookie s)) [
    | inl hit ↦ rw hit ((λ h. cc), cleared-Unique ss u.1)
    | inr miss ↦
        rw miss ((λ h. has_cookie-cleared s.params.cookie ss (u.0 h)), cleared-Unique ss u.1)
  ]

-- Unplugging a cookie removes the monitor with that cookie and no other; unplugging 0 removes all.
pub lookup-unplug :
    (cookie c : ℕ) (d : Device)
    → lookup c (unplug cookie d).1.slots
      ≡ (if cookie == 0 || c == cookie then none else lookup c d.slots)
lookup-unplug cookie c d = ap (lookup c) (unplug_slots cookie d) ∙ lookup-cleared cookie c d.slots

-- Unplug keeps the invariant of the slot table.
pub unplug-TableOk : (cookie : ℕ) (d : Device) → TableOk d.slots → TableOk (unplug cookie d).1.slots
unplug-TableOk cookie d v = subst TableOk (sym (unplug_slots cookie d)) (record {
  four = length-cleared cookie d.slots ∙ v.four;
  each = cleared-SlotOk cookie d.slots v.each;
  unique = cleared-Unique cookie d.slots v.unique;
})

found-sweep :
    (cookie : ℕ) (bindings : ℕ → Option ℕ) (ss : List Slot) (channels : ℕ → Option Channel)
    → cookie ≢ 0
    → (sweep cookie bindings ss channels).found ≡ has_cookie cookie ss
unfolding sweep has_cookie
found-sweep cookie bindings [] channels h = refl
found-sweep cookie bindings (s ∷ ss) channels h = ground (
  arith,
  found-sweep cookie bindings ss channels h,
  found-sweep cookie bindings ss (stop_channel (channel_of bindings s) channels) h,
)

-- Unplugging 0 always succeeds; unplugging another cookie succeeds exactly when a monitor has it,
-- and otherwise answers NOT_FOUND.
pub unplug_status :
    (cookie : ℕ) (d : Device)
    → (unplug cookie d).0
      ≡ (if cookie == 0 || has_cookie cookie d.slots then success else not_found)
unfolding unplug
unplug_status cookie d = ground (arith, found-sweep cookie d.bindings d.slots d.channels)
