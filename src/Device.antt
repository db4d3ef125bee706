-- ===== src/Device.antt =====
-- IndirectDeviceContext (driver/src/Driver.h and Driver.cpp): the state of the device, the monitor
-- slot table, and what the calls of IddCx answer. Handles are numbers; a null handle is `none`.
-- The shared pointers of a slot's capture binding and of its channel are references into two heaps,
-- so that a slot and a swap-chain worker can share one binding.
pub mod Slots
pub mod Invariant
pub mod Plug
pub mod Unplug
pub mod Report
pub mod Capture
pub mod Watchdog
pub mod Adapter
pub mod System
use nyan_real_vdd.Base.{
  ℕ, Bool, true, false, Option, none, some, List, [], ◌∷◌, ◌==◌, if◌then◌else◌, replicate, ◌≡◌,
  refl, ◌⊎◌, inl, inr,
}
use nyan_real_vdd.Protocol.{PlugIn, AdapterState, max_monitors}
use nyan_real_vdd.FrameShare.Channel.{Channel}

-- The NTSTATUS values that the driver returns; `failure` is a failing status of the framework.
pub data NtStatus : Type 0 where
  success : NtStatus
  invalid_parameter : NtStatus
  insufficient_resources : NtStatus
  device_not_ready : NtStatus
  object_name_collision : NtStatus
  not_found : NtStatus
  cancelled : NtStatus
  invalid_device_state : NtStatus
  device_busy : NtStatus
  access_denied : NtStatus
  invalid_device_request : NtStatus
  buffer_too_small : NtStatus
  abandon_swapchain : NtStatus
  failure : ℕ → NtStatus

-- NT_SUCCESS
abbrev pub nt_success : NtStatus → Bool
nt_success success = true
nt_success _ = false

-- What a call of the framework answers.
pub data OsResult : Type 0 where
  done : OsResult
  failed : ℕ → OsResult

pub OsResult-cases : (r : OsResult) → (r ≡ done) ⊎ ((status : ℕ) × (r ≡ failed status))
OsResult-cases done = inl refl
OsResult-cases (failed status) = inr (status, refl)

abbrev no_params : PlugIn
no_params = record { cookie = 0; width = 0; height = 0; refresh_hz = 0; flags = 0 }

-- MonitorSlot
pub record Slot : Type 0 where
  pub used : Bool
  pub arrived : Bool
  pub active : Bool
  pub params : PlugIn
  pub monitor : Option ℕ
  pub edid : List ℕ
  pub capture : Option ℕ
  pub capture_owner : Option ℕ

-- `MonitorSlot{}`
abbrev pub empty_slot : Slot
empty_slot = record {
  used = false;
  arrived = false;
  active = false;
  params = no_params;
  monitor = none;
  edid = replicate 128 0;
  capture = none;
  capture_owner = none;
}

-- The calls of IddCx about a monitor object, as the driver makes them.
pub data OsCall : Type 0 where
  created arrived departed deleted : ℕ → OsCall

-- IndirectDeviceContext. `calls` is a record of the calls made, the latest first.
pub record Device : Type 0 where
  pub adapter : Option ℕ
  pub adapter_ready : Bool
  pub os_version : ℕ
  pub cap_flags : ℕ
  pub adapter_state : AdapterState
  pub adapter_init_started : Bool
  pub slots : List Slot
  pub watchdog_thread : Bool
  pub watchdog_timeout_ms : ℕ
  pub watchdog_deadline : ℕ
  pub next_binding : ℕ
  pub bindings : ℕ → Option ℕ
  pub next_channel : ℕ
  pub channels : ℕ → Option Channel
  pub calls : List OsCall

-- The constructor's state.
abbrev pub new_device : Device
new_device = record {
  adapter = none;
  adapter_ready = false;
  os_version = 0;
  cap_flags = 0;
  adapter_state = AdapterState.starting;
  adapter_init_started = false;
  slots = replicate max_monitors empty_slot;
  watchdog_thread = false;
  watchdog_timeout_ms = 0;
  watchdog_deadline = 0;
  next_binding = 0;
  bindings = λ _. none;
  next_channel = 0;
  channels = λ _. none;
  calls = [];
}

abbrev pub update {ℓ} : {A : Type ℓ} → (ℕ → A) → ℕ → A → ℕ → A
update f i a j = if j == i then a else f j

abbrev pub log : OsCall → Device → Device
log call d = record d { calls = call ∷ d.calls }
