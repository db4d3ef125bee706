-- ===== src/Protocol.antt =====
-- include/nyanvdd_protocol.h: the constants and structures of the control protocol.
pub mod ContainerId
use nyan_real_vdd.Base.{ℕ, ◌^◌, Bool, ◌||◌, List, ◌==◌}

abbrev pub protocol_version : ℕ
protocol_version = 4

-- NyanVddControlProtocolSupported
pub control_protocol_supported : ℕ → Bool
control_protocol_supported version = version == 3 || version == 4

abbrev pub max_monitors : ℕ
max_monitors = 4

abbrev pub min_width : ℕ
min_width = 640

abbrev pub min_height : ℕ
min_height = 480

abbrev pub max_dimension : ℕ
max_dimension = 4095

abbrev pub min_refresh_hz : ℕ
min_refresh_hz = 24

abbrev pub max_refresh_hz : ℕ
max_refresh_hz = 240

-- Bit positions of NYANVDD_CAP_HDR10_READY, NYANVDD_CAP_SHARED_CAPTURE, NYANVDD_PLUG_FLAG_HDR10
-- and NYANVDD_MONITOR_FLAG_ACTIVE.
abbrev pub cap_hdr10_ready : ℕ
cap_hdr10_ready = 0

abbrev pub cap_shared_capture : ℕ
cap_shared_capture = 3

abbrev pub plug_flag_hdr10 : ℕ
plug_flag_hdr10 = 0

abbrev pub monitor_flag_active : ℕ
monitor_flag_active = 16

-- NYANVDD_ADAPTER_STATE_*
pub data AdapterState : Type 0 where
  starting ready failed : AdapterState

-- NYANVDD_PLUG_IN (the reserved words are never read)
pub record PlugIn : Type 0 where
  pub cookie : ℕ
  pub width : ℕ
  pub height : ℕ
  pub refresh_hz : ℕ
  pub flags : ℕ

-- NYANVDD_MONITOR_INFO
pub record MonitorInfo : Type 0 where
  pub cookie : ℕ
  pub connector_index : ℕ
  pub width : ℕ
  pub height : ℕ
  pub refresh_hz : ℕ
  pub flags : ℕ

-- NYANVDD_STATUS_OUT
pub record StatusOut : Type 0 where
  pub protocol_version : ℕ
  pub driver_version : ℕ
  pub iddcx_os_version : ℕ
  pub max_monitors : ℕ
  pub cap_flags : ℕ
  pub monitor_count : ℕ
  pub watchdog_timeout_ms : ℕ
  pub adapter_state : AdapterState
