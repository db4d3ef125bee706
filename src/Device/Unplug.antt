-- ===== src/Device/Unplug.antt =====
-- Unplug: the sweep over the slot table under the lock, and the departures after it.
pub mod Laws
use nyan_real_vdd.Base.{
  ℕ, Bool, true, false, not, ◌&&◌, ◌||◌, Option, none, some, List, [], ◌∷◌, ◌==◌, if◌then◌else◌,
}
use nyan_real_vdd.FrameShare.Channel.{Channel, stop}
use nyan_real_vdd.Device.{
  Device, Slot, empty_slot, NtStatus, success, not_found, OsCall, log, update,
}

-- The channel of a slot's capture binding. A used slot has a binding.
abbrev pub channel_of : (ℕ → Option ℕ) → Slot → Option ℕ
channel_of bindings s = elim s.capture [ none ↦ none | some b ↦ bindings b ]

-- Stop on the channel with that reference, if there is one.
unfoldable pub stop_channel : Option ℕ → (ℕ → Option Channel) → ℕ → Option Channel
stop_channel none channels = channels
stop_channel (some k) channels = elim (channels k) [
  | none ↦ channels
  | some c ↦ update channels k (some (stop c))
]

-- `Slot.Used && (Cookie == 0 || Slot.Params.Cookie == Cookie)`
abbrev pub is_target : ℕ → Slot → Bool
is_target cookie s = s.used && (cookie == 0 || s.params.cookie == cookie)

-- A slot's monitor goes to `Targets` if it arrived.
abbrev pub add_target : Slot → List ℕ → List ℕ
add_target s targets =
    if s.arrived then elim s.monitor [ none ↦ targets | some h ↦ h ∷ targets ] else targets

-- The table, `Targets`, `Found` and the channels after the loop.
pub record Sweep : Type 0 where
  pub slots : List Slot
  pub targets : List ℕ
  pub found : Bool
  pub channels : ℕ → Option Channel

unfoldable pub sweep : ℕ → (ℕ → Option ℕ) → List Slot → (ℕ → Option Channel) → Sweep
sweep cookie bindings [] channels = record {
  slots = [];
  targets = [];
  found = false;
  channels = channels;
}
sweep cookie bindings (s ∷ ss) channels =
    let hit = is_target cookie s in
    let rest =
      sweep cookie bindings ss
        (if hit then stop_channel (channel_of bindings s) channels else channels) in
    if hit
    then record rest {
      slots = empty_slot ∷ rest.slots;
      targets = add_target s rest.targets;
      found = true;
    }
    else record rest { slots = s ∷ rest.slots }

-- IddCxMonitorDeparture of each target; its status is only logged.
unfoldable pub depart_all : List ℕ → Device → Device
depart_all [] d = d
depart_all (h ∷ hs) d = depart_all hs (log (OsCall.departed h) d)

-- Unplug
unfoldable pub unplug : ℕ → Device → NtStatus × Device
unplug cookie d =
    let w = sweep cookie d.bindings d.slots d.channels in
    let d' = record d { slots = w.slots; channels = w.channels } in
    if not w.found && not (cookie == 0) then (not_found, d') else (success, depart_all w.targets d')
