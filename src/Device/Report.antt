-- ===== src/Device/Report.antt =====
-- List, FillStatus, SetActiveMonitors, RecordCommittedMonitors and CopySlotByEdid.
pub mod Laws
use nyan_real_vdd.Base.{
  ℕ, zero, suc, ◌+◌, Bool, true, false, not, ◌&&◌, ◌||◌, Option, none, some, List, [], ◌∷◌, map,
  ◌==◌, if◌then◌else◌, bit_or,
}
use nyan_real_vdd.Base.Bits.{set_bit, shl}
use nyan_real_vdd.Protocol.{
  MonitorInfo, StatusOut, protocol_version, max_monitors, cap_shared_capture, monitor_flag_active,
}
use nyan_real_vdd.Edid.Block.{cookie_from_edid}
use nyan_real_vdd.Device.{Device, Slot}
use nyan_real_vdd.Device.Slots.{lookup}

abbrev pub info_of : ℕ → Slot → MonitorInfo
info_of i s = record {
  cookie = s.params.cookie;
  connector_index = i;
  width = s.params.width;
  height = s.params.height;
  refresh_hz = s.params.refresh_hz;
  flags = if s.active then set_bit s.params.flags monitor_flag_active else s.params.flags;
}

-- The loop of List from the slot of index `i` on; the count is the length.
unfoldable pub list_from : ℕ → List Slot → List MonitorInfo
list_from i [] = []
list_from i (s ∷ ss) =
    let rest = list_from (suc i) ss in if s.used && s.arrived then info_of i s ∷ rest else rest

-- List
unfoldable pub list : Device → List MonitorInfo
list d = list_from 0 d.slots

-- The loop of FillStatus.
unfoldable pub count_arrived : List Slot → ℕ
count_arrived [] = 0
count_arrived (s ∷ ss) =
    let rest = count_arrived ss in if s.used && s.arrived then suc rest else rest

-- NYANVDD_DRIVER_VERSION_MAJOR and MINOR
abbrev driver_version : ℕ
driver_version = bit_or (shl 0 16) 1

-- FillStatus
unfoldable pub fill_status : Device → StatusOut
fill_status d = record {
  protocol_version = protocol_version;
  driver_version = driver_version;
  iddcx_os_version = d.os_version;
  max_monitors = max_monitors;
  cap_flags = set_bit d.cap_flags cap_shared_capture;
  monitor_count = count_arrived d.slots;
  watchdog_timeout_ms = d.watchdog_timeout_ms;
  adapter_state = d.adapter_state;
}

-- Whether the monitor is among those given.
unfoldable pub is_listed : Option ℕ → List ℕ → Bool
is_listed none hs = false
is_listed (some h) [] = false
is_listed (some h) (k ∷ hs) = h == k || is_listed (some h) hs

abbrev pub with_active : List ℕ → Slot → Slot
with_active monitors s =
    if not s.used || not s.arrived then s else record s { active = is_listed s.monitor monitors }

unfoldable pub set_active : List ℕ → List Slot → List Slot
set_active monitors [] = []
set_active monitors (s ∷ ss) = with_active monitors s ∷ set_active monitors ss

-- SetActiveMonitors
unfoldable pub set_active_monitors : List ℕ → Device → Device
set_active_monitors monitors d = record d { slots = set_active monitors d.slots }

-- The monitors of the active paths, `room` of them at most.
unfoldable pub active_of_paths : ℕ → List (Bool × ℕ) → List ℕ
active_of_paths room [] = []
active_of_paths zero (p ∷ ps) = []
active_of_paths (suc room) ((true, h) ∷ ps) = h ∷ active_of_paths room ps
active_of_paths (suc room) ((false, h) ∷ ps) = active_of_paths (suc room) ps

-- RecordCommittedMonitors, over the paths of CommitModes or CommitModes2.
unfoldable pub record_committed_monitors : List (Bool × ℕ) → Device → Device
record_committed_monitors paths d = set_active_monitors (active_of_paths max_monitors paths) d

-- CopySlotByEdid
unfoldable pub copy_slot_by_edid : Option (List ℕ) → ℕ → Device → Option Slot
copy_slot_by_edid edid size d =
    let cookie = cookie_from_edid edid size in if cookie == 0 then none else lookup cookie d.slots
