-- ===== src/Device/Invariant.antt =====
-- The invariant of the slot table: what holds whenever the lock is free.
use nyan_real_vdd.Base.{
  ℕ, zero, suc, ◌≡◌, ◌≢◌, refl, true, false, none, List, [], ◌∷◌, arith, All, All-set, length,
  length-set, set, get_or, ◌∙◌,
}
use nyan_real_vdd.Protocol.{max_monitors}
use nyan_real_vdd.Edid.Mode.{NyanMode, is_supported_mode}
use nyan_real_vdd.Edid.Block.{build_edid}
use nyan_real_vdd.Device.{Slot, empty_slot, new_device}
use nyan_real_vdd.Device.Slots.{has_cookie}
use nyan_real_vdd.Device.Slots.Laws.{Unique, Unique-set}

abbrev pub mode_of : Slot → NyanMode
mode_of s = record {
  width = s.params.width;
  height = s.params.height;
  refresh_hz = s.params.refresh_hz;
}

pub record SlotOk (s : Slot) : Type 0 where
  pub empty_unless_used : s.used ≡ false → s ≡ empty_slot
  pub cookie_ne_zero : s.used ≡ true → s.params.cookie ≢ 0
  pub supported : s.used ≡ true → is_supported_mode (mode_of s) ≡ true
  pub edid_built : s.used ≡ true → s.edid ≡ build_edid s.params.cookie (mode_of s)
  pub captured : s.used ≡ true → s.capture ≢ none
  pub monitored : s.arrived ≡ true → s.monitor ≢ none
  pub unmonitored : s.arrived ≡ false → s.monitor ≡ none
  pub active_arrived : s.active ≡ true → s.arrived ≡ true
  pub owner_arrived : s.capture_owner ≢ none → s.arrived ≡ true

pub record TableOk (slots : List Slot) : Type 0 where
  pub four : length slots ≡ max_monitors
  pub each : All SlotOk slots
  pub unique : Unique slots

pub empty_slot-SlotOk : SlotOk empty_slot
empty_slot-SlotOk = ground arith

pub new_device-TableOk : TableOk new_device.slots
new_device-TableOk = record {
  four = refl;
  each = (empty_slot-SlotOk, (empty_slot-SlotOk, (empty_slot-SlotOk, (empty_slot-SlotOk, tt))));
  unique = ((λ h. cc), ((λ h. cc), ((λ h. cc), ((λ h. cc), tt))));
}

pub SlotOk-get_or : (i : ℕ) (ss : List Slot) → All SlotOk ss → SlotOk (get_or ss i empty_slot)
SlotOk-get_or i [] h = empty_slot-SlotOk
SlotOk-get_or zero (s ∷ ss) h = h.0
SlotOk-get_or (suc i) (s ∷ ss) h = SlotOk-get_or i ss h.1

-- A slot may be written that is sound itself and whose cookie no other used slot has.
pub TableOk-set :
    (i : ℕ) (s : Slot) (ss : List Slot)
    → TableOk ss
    → SlotOk s
    → (s.used ≡ true → has_cookie s.params.cookie (set ss i empty_slot) ≡ false)
    → TableOk (set ss i s)
TableOk-set i s ss v ok fresh = record {
  four = length-set ss i s ∙ v.four;
  each = All-set SlotOk ss i s v.each ok;
  unique = Unique-set i s ss v.unique fresh;
}
