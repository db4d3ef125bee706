-- ===== src/Device/Plug.antt =====
-- Plug and CreateAndArriveMonitor. Each region under `m_Lock` is a function of its own; between two
-- regions other threads may run, which the functions `before_…` of the environment stand for.
pub mod Invariant
pub mod Admission
pub mod Quiet
pub mod Outcome
pub mod Race
use nyan_real_vdd.Base.{
  ℕ, zero, suc, Bool, true, false, not, ◌&&◌, ◌||◌, Option, none, some, List, [], ◌∷◌, ◌==◌,
  if◌then◌else◌, get_or, set,
}
use nyan_real_vdd.Base.Bits.{has_bit, clear_bit}
use nyan_real_vdd.Protocol.{PlugIn, cap_hdr10_ready, plug_flag_hdr10}
use nyan_real_vdd.Edid.Mode.{NyanMode, is_supported_mode}
use nyan_real_vdd.Edid.Block.{build_edid, cookie_from_edid}
use nyan_real_vdd.Device.{
  Device, Slot, empty_slot, NtStatus, success, invalid_parameter, insufficient_resources,
  device_not_ready, object_name_collision, cancelled, failure, nt_success, OsResult, done, failed,
  OsCall, log, update,
}
use nyan_real_vdd.Device.Slots.{has_cookie, first_free}

abbrev pub requested_mode : PlugIn → NyanMode
requested_mode p = record { width = p.width; height = p.height; refresh_hz = p.refresh_hz }

-- The slot that Plug reserves: HDR is dropped unless the adapter declared it.
unfoldable pub reserved_slot : PlugIn → ℕ → ℕ → Slot
reserved_slot p cap_flags binding = record empty_slot {
  used = true;
  params =
      if has_bit cap_flags cap_hdr10_ready
      then p
      else record p { flags = clear_bit p.flags plug_flag_hdr10 };
  capture = some binding;
  edid = build_edid p.cookie (requested_mode p);
}

pub data Reserved : Type 0 where
  refused : NtStatus → Reserved
  at_index : ℕ → Device → Reserved

-- The first locked region of Plug, with the binding that was made before it.
unfoldable pub reserve : PlugIn → ℕ → Device → Reserved
reserve p binding d =
    if not d.adapter_ready
    then refused device_not_ready
    else if has_cookie p.cookie d.slots
    then refused object_name_collision
    else elim (first_free 0 d.slots) [
      | none ↦ refused insufficient_resources
      | some i ↦
          at_index i (record d { slots = set d.slots i (reserved_slot p d.cap_flags binding) })
    ]

-- The monitor is still the one that the arrival was made for.
abbrev pub is_pending : ℕ → Slot → Bool
is_pending cookie s = s.used && (s.params.cookie == cookie && not s.arrived)

-- The locked region at the end of CreateAndArriveMonitor; the flag is `Stale`.
unfoldable pub commit : ℕ → ℕ → ℕ → Device → Bool × Device
commit i cookie handle d =
    let s = get_or d.slots i empty_slot in
    if is_pending cookie s
    then (
      false,
      record d { slots = set d.slots i (record s { monitor = some handle; arrived = true }) },
    )
    else (true, d)

-- The locked region of Plug that gives a reservation up.
unfoldable pub rollback : ℕ → ℕ → Device → Device
rollback i cookie d =
    if is_pending cookie (get_or d.slots i empty_slot)
    then record d { slots = set d.slots i empty_slot }
    else d

-- What the framework answers to one plug, and what other threads do meanwhile.
pub record PlugEnv : Type 0 where
  pub binding_ok : Bool
  pub create : OsResult
  pub handle : ℕ
  pub context_ok : Bool
  pub arrival : OsResult
  pub before_read : Device → Device
  pub before_commit : Device → Device
  pub before_rollback : Device → Device

-- After IddCxMonitorArrival succeeded: commit, or undo the arrival.
unfoldable pub settle : PlugEnv → ℕ → ℕ → Device → NtStatus × Device
settle env i cookie d =
    let (stale, d') =
      commit i cookie env.handle (env.before_commit (log (OsCall.arrived env.handle) d)) in
    if stale then (cancelled, log (OsCall.departed env.handle) d') else (success, d')

-- CreateAndArriveMonitor after its first locked region, which reads the EDID that `cookie` is from.
unfoldable pub offer : PlugEnv → ℕ → ℕ → Device → NtStatus × Device
offer env i cookie d = elim env.create [
  | failed status ↦ (failure status, d)
  | done ↦
      let d1 = log (OsCall.created env.handle) d in
      if not env.context_ok
      then (insufficient_resources, log (OsCall.deleted env.handle) d1)
      else elim env.arrival [
        | failed status ↦ (failure status, log (OsCall.deleted env.handle) d1)
        | done ↦ settle env i cookie d1
      ]
]

-- CreateAndArriveMonitor
unfoldable pub create_and_arrive_monitor : PlugEnv → ℕ → Device → NtStatus × Device
create_and_arrive_monitor env i d =
    offer env i (cookie_from_edid (some (get_or d.slots i empty_slot).edid) 128) d

-- Plug from the reservation on: the status, and the connector index of a success.
unfoldable pub arrive : PlugEnv → PlugIn → Reserved → Device → NtStatus × Option ℕ × Device
arrive env p (refused status) d = (status, none, d)
arrive env p (at_index i d') d =
    let (status, d'') = create_and_arrive_monitor env i (env.before_read d') in
    if nt_success status
    then (success, some i, d'')
    else (status, none, rollback i p.cookie (env.before_rollback d''))

-- make_shared of a CaptureBinding, whose channel is null.
abbrev pub with_binding : Device → Device
with_binding d = record d {
  next_binding = suc d.next_binding;
  bindings = update d.bindings d.next_binding none;
}

-- Plug
unfoldable pub plug : PlugEnv → PlugIn → Device → NtStatus × Option ℕ × Device
plug env p d =
    if p.cookie == 0 || not (is_supported_mode (requested_mode p))
    then (invalid_parameter, none, d)
    else if not env.binding_ok
    then (insufficient_resources, none, d)
    else arrive env p (reserve p d.next_binding (with_binding d)) (with_binding d)
