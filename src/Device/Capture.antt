-- ===== src/Device/Capture.antt =====
-- OpenCapture and CloseCapture. An owner is a file object; `closing` is its flag.
pub mod Laws
pub mod Close
use nyan_real_vdd.Base.{
  ℕ, zero, suc, Bool, true, false, not, ◌&&◌, ◌||◌, Option, none, some, List, [], ◌∷◌, ◌==◌,
  if◌then◌else◌, get_or, set,
}
use nyan_real_vdd.FrameShare.Channel.{
  Channel, active, stop, create, Created, CreateEnv, created, refused,
}
use nyan_real_vdd.Device.{
  Device, Slot, empty_slot, NtStatus, success, invalid_parameter, cancelled, invalid_device_state,
  device_busy, insufficient_resources, not_found, update,
}
use nyan_real_vdd.Device.Unplug.{channel_of, stop_channel}

-- `Slot.CaptureOwner == Owner`
abbrev pub owned_by : ℕ → Slot → Bool
owned_by owner s = elim s.capture_owner [ none ↦ false | some o ↦ o == owner ]

unfoldable pub has_owner : ℕ → List Slot → Bool
has_owner owner [] = false
has_owner owner (s ∷ ss) = owned_by owner s || has_owner owner ss

-- The index of the first arrived slot with the cookie, `i` being the index of the head.
unfoldable pub find_arrived : ℕ → ℕ → List Slot → Option ℕ
find_arrived i cookie [] = none
find_arrived i cookie (s ∷ ss) =
    if s.arrived && s.params.cookie == cookie then some i else find_arrived (suc i) cookie ss

-- `Current && Current->Active()`
abbrev pub channel_active : Option ℕ → (ℕ → Option Channel) → Bool
channel_active none channels = false
channel_active (some k) channels = elim (channels k) [ none ↦ false | some c ↦ active c ]

-- The stores of OpenCapture: the owner into the slot, the channel into the slot's binding.
unfoldable pub attach : ℕ → ℕ → Channel → Device → Device
attach i owner c d =
    let s = get_or d.slots i empty_slot in
    record d {
      next_channel = suc d.next_channel;
      channels = update d.channels d.next_channel (some c);
      bindings = elim s.capture [
        | none ↦ d.bindings
        | some b ↦ update d.bindings b (some d.next_channel)
      ];
      slots = set d.slots i (record s { capture_owner = some owner });
    }

-- The body of the loop for the slot that has arrived with the cookie.
unfoldable pub open_at : ℕ → ℕ → CreateEnv → Device → NtStatus × Option (List ℕ) × Device
open_at i owner env d =
    let s = get_or d.slots i empty_slot in
    if channel_active (channel_of d.bindings s) d.channels
    then (device_busy, none, d)
    else elim (create env) [
      | refused e ↦ (insufficient_resources, none, d)
      | created c ↦ (success, some c.name, attach i owner c d)
    ]

-- OpenCapture: the status, the name that goes to the caller, and the state.
unfoldable pub open_capture :
    ℕ → Option ℕ → Bool → CreateEnv → Device → NtStatus × Option (List ℕ) × Device
open_capture cookie none closing env d = (invalid_parameter, none, d)
open_capture cookie (some owner) closing env d =
    if cookie == 0
    then (invalid_parameter, none, d)
    else if closing
    then (cancelled, none, d)
    else if has_owner owner d.slots
    then (invalid_device_state, none, d)
    else elim (find_arrived 0 cookie d.slots) [
      | none ↦ (not_found, none, d)
      | some i ↦ open_at i owner env d
    ]

-- The table and the two heaps after the loop of CloseCapture.
pub record Closed : Type 0 where
  pub slots : List Slot
  pub bindings : ℕ → Option ℕ
  pub channels : ℕ → Option Channel

-- `atomic_exchange` of the binding's channel with null.
abbrev pub clear_binding : Slot → (ℕ → Option ℕ) → ℕ → Option ℕ
clear_binding s bindings = elim s.capture [ none ↦ bindings | some b ↦ update bindings b none ]

unfoldable pub close_slots : ℕ → List Slot → (ℕ → Option ℕ) → (ℕ → Option Channel) → Closed
close_slots owner [] bindings channels = record {
  slots = [];
  bindings = bindings;
  channels = channels;
}
close_slots owner (s ∷ ss) bindings channels =
    let hit = owned_by owner s in
    let rest =
      close_slots owner ss (if hit then clear_binding s bindings else bindings)
        (if hit then stop_channel (channel_of bindings s) channels else channels) in
    record rest { slots = (if hit then record s { capture_owner = none } else s) ∷ rest.slots }

-- CloseCapture
unfoldable pub close_capture : ℕ → Device → Device
close_capture owner d =
    let w = close_slots owner d.slots d.bindings d.channels in
    record d { slots = w.slots; bindings = w.bindings; channels = w.channels }
