-- ===== src/Device/Adapter.antt =====
-- InitAdapter and OnAdapterInitFinished. The one adapter flag that the driver ever sets is
-- IDDCX_ADAPTER_FLAGS_CAN_PROCESS_FP16, so a set of flags is whether that flag is in it.
pub mod Laws
use nyan_real_vdd.Base.{
  ℕ, Bool, true, false, not, ◌&&◌, ◌||◌, Option, none, some, leb, ◌==◌, if◌then◌else◌,
}
use nyan_real_vdd.Base.Bits.{has_bit, set_bit, clear_bit}
use nyan_real_vdd.Protocol.{AdapterState, cap_hdr10_ready}
use nyan_real_vdd.Device.{Device, OsResult, done, failed}
use nyan_real_vdd.Device.Watchdog.{pet_watchdog}

-- What the framework and the registry answer, and what other threads do meanwhile. `fp16_disabled` is whether DisableAdapterFlags holds
-- the framework's FP16 flag, whose value is not in this repository.
pub record AdapterEnv : Type 0 where
  pub version : Option ℕ
  pub enable_fp16 : ℕ
  pub disable_flags : ℕ
  pub fp16_disabled : Bool
  pub first_attempt : OsResult
  pub second_attempt : OsResult
  pub adapter_object : ℕ
  pub before_request : Device → Device
  pub before_conclude : Device → Device

abbrev os_1_10 : ℕ
os_1_10 = 0x1A00

-- The flags that the adapter asks for, with the capabilities that go with them.
unfoldable pub request : AdapterEnv → Device → Bool × ℕ
request env d =
    let fp16 = leb os_1_10 d.os_version && not (env.enable_fp16 == 0) in
    let caps = if fp16 then set_bit d.cap_flags cap_hdr10_ready else d.cap_flags in
    if env.disable_flags == 0 then (fp16, caps) else (
      fp16 && not env.fp16_disabled,
      if has_bit env.disable_flags 6 then clear_bit caps cap_hdr10_ready else caps,
    )

-- The loop over the attempts: the flags that were accepted, if any.
unfoldable pub attempts : AdapterEnv → Bool → Option Bool
attempts env requested = elim env.first_attempt [
  | done ↦ some requested
  | failed status ↦
      if not requested
      then none
      else elim env.second_attempt [ done ↦ some false | failed status ↦ none ]
]

-- The last region of InitAdapter.
unfoldable pub conclude : AdapterEnv → Option Bool → Device → Device
conclude env (some fp16) d = record d {
  adapter = some env.adapter_object;
  cap_flags = if fp16 then d.cap_flags else clear_bit d.cap_flags cap_hdr10_ready;
}
conclude env none d = record d { adapter_state = AdapterState.failed; cap_flags = 0 }

-- The first region.
abbrev pub begin_adapter : Device → Device
begin_adapter d = record d { adapter_init_started = true }

-- IddCxGetVersion: `some` is the version that it stores.
abbrev pub set_version : Option ℕ → Device → Device
set_version none d = d
set_version (some v) d = record d { os_version = v }

-- The capabilities that go with the requested flags.
abbrev pub set_caps : ℕ → Device → Device
set_caps caps d = record d { cap_flags = caps }

-- InitAdapter. Other threads run between the two regions under `m_Lock`; those before the attempts and those
-- during them are the functions `before_…` of the environment.
unfoldable pub init_adapter : AdapterEnv → Device → Device
init_adapter env d =
    if d.adapter_init_started
    then d
    else let d' = set_version env.version (env.before_request (begin_adapter d)) in
      let (requested, caps) = request env d' in
      conclude env (attempts env requested) (env.before_conclude (set_caps caps d'))

-- OnAdapterInitFinished
unfoldable pub on_adapter_init_finished : OsResult → Device → Device
on_adapter_init_finished done d = record d {
  adapter_ready = true;
  adapter_state = AdapterState.ready;
}
on_adapter_init_finished (failed status) d = record d {
  adapter_ready = false;
  adapter_state = AdapterState.failed;
}

-- NyanVddDeviceD0Entry: the adapter is started, or the machine resumes; `now` is UnbiasedNowMs.
unfoldable pub d0_entry : AdapterEnv → ℕ → Device → Device
d0_entry env now d = pet_watchdog now (init_adapter env d)
