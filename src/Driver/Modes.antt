-- ===== src/Driver/Modes.antt =====
-- The callbacks that report modes, in driver/src/Driver.cpp: FillSignalInfo and the functions that
-- build an IddCx mode from a NyanMode, ResolveModeList, and the Parse, GetDefault and Query callbacks
-- in both versions. A buffer of the caller is `none` where its pointer is null.
pub mod Laws
use nyan_real_vdd.Base.{
  ℕ, zero, suc, ◌*◌, Bool, true, false, not, ◌&&◌, ◌||◌, Option, none, some, List, [], ◌∷◌, map,
  length, ltb, leb, ◌==◌, if◌then◌else◌,
}
use nyan_real_vdd.Base.Bits.{u32, u64, has_bit}
use nyan_real_vdd.Protocol.{plug_flag_hdr10}
use nyan_real_vdd.Edid.Mode.{NyanMode}
use nyan_real_vdd.Edid.ModeList.{k_mode_table, k_mode_table_count, build_mode_list}
use nyan_real_vdd.Device.{Device, Slot, NtStatus, success, invalid_parameter, buffer_too_small}
use nyan_real_vdd.Device.Invariant.{mode_of}
use nyan_real_vdd.Device.Report.{copy_slot_by_edid}

-- The fields of DISPLAYCONFIG_VIDEO_SIGNAL_INFO that vary. The total size is the active size.
pub record SignalInfo : Type 0 where
  pub width : ℕ
  pub height : ℕ
  pub v_sync_freq_divider : ℕ
  pub v_sync : ℕ
  pub h_sync : ℕ
  pub pixel_rate : ℕ

-- FillSignalInfo
unfoldable pub fill_signal_info : ℕ → ℕ → ℕ → Bool → SignalInfo
fill_signal_info width height v_sync monitor_mode = record {
  width = width;
  height = height;
  v_sync_freq_divider = if monitor_mode then 0 else 1;
  v_sync = v_sync;
  h_sync = u32 (v_sync * height);
  pixel_rate = u64 (u64 (v_sync * width) * height);
}

-- IDDCX_MONITOR_MODE_ORIGIN_MONITORDESCRIPTOR and DRIVER
pub data Origin : Type 0 where
  monitor_descriptor driver : Origin

-- IDDCX_MONITOR_MODE and IDDCX_MONITOR_MODE2: `ten_bits` is `none` in the former, and in the latter
-- whether 10 bits per component are claimed beside 8.
pub record MonitorMode : Type 0 where
  pub origin : Origin
  pub signal : SignalInfo
  pub ten_bits : Option Bool

-- IDDCX_TARGET_MODE and IDDCX_TARGET_MODE2
pub record TargetMode : Type 0 where
  pub signal : SignalInfo
  pub ten_bits : Option Bool

-- CreateIddCxMonitorMode and CreateIddCxMonitorMode2
unfoldable pub create_monitor_mode : Option Bool → NyanMode → Origin → MonitorMode
create_monitor_mode ten_bits m origin = record {
  origin = origin;
  signal = fill_signal_info m.width m.height m.refresh_hz true;
  ten_bits = ten_bits;
}

-- CreateIddCxTargetMode and CreateIddCxTargetMode2
unfoldable pub create_target_mode : Option Bool → NyanMode → TargetMode
create_target_mode ten_bits m = record {
  signal = fill_signal_info m.width m.height m.refresh_hz false;
  ten_bits = ten_bits;
}

-- IDDCX_MONITOR_DESCRIPTION
pub record Description : Type 0 where
  pub is_edid : Bool
  pub data_size : ℕ
  pub bytes : Option (List ℕ)

-- The slot that a description resolves to; the device is `none` while g_DeviceContext is null.
unfoldable pub resolve : Option Device → Description → Option Slot
resolve none desc = none
resolve (some d) desc =
    if desc.is_edid && desc.data_size == 128
    then copy_slot_by_edid desc.bytes desc.data_size d
    else none

-- What ResolveModeList returns: the list, and `*Hdr10`.
unfoldable pub mode_list_of : Option Slot → List NyanMode × Bool
mode_list_of none = (build_mode_list none, false)
mode_list_of (some s) = (build_mode_list (some (mode_of s)), has_bit s.params.flags plug_flag_hdr10)

-- ResolveModeList
unfoldable pub resolve_mode_list : Option Device → Description → List NyanMode × Bool
resolve_mode_list context desc = mode_list_of (resolve context desc)

-- What ParseDescriptionCommon stores: the count, the preferred index, the modes, `*Hdr10`.
pub record Parsed : Type 0 where
  pub count : ℕ
  pub preferred : ℕ
  pub modes : List NyanMode
  pub hdr10 : Bool

-- ParseDescriptionCommon
unfoldable pub parse_description_common : Option Device → Description → ℕ → NtStatus × Option Parsed
parse_description_common context desc input_count =
    if not desc.is_edid || not (desc.data_size == 128)
    then (invalid_parameter, none)
    else (let (modes, hdr10) = resolve_mode_list context desc in
        let out : Parsed = record {
          count = length modes;
          preferred = 0;
          modes = modes;
          hdr10 = hdr10;
        } in
        (
          if ltb input_count (length modes) && ltb 0 input_count then buffer_too_small else success,
          some out,
        ))

-- The loop that fills the caller's buffer: the first mode comes from the descriptor.
unfoldable pub monitor_modes : Option Bool → List NyanMode → List MonitorMode
monitor_modes ten_bits [] = []
monitor_modes ten_bits (m ∷ ms) =
    create_monitor_mode ten_bits m monitor_descriptor
    ∷ map (λ (x : NyanMode). create_monitor_mode ten_bits x driver) ms

-- What a Parse callback answers: the status, the count if it was stored, the modes that it wrote.
pub record ParseOut : Type 0 where
  pub status : NtStatus
  pub parsed : Option Parsed
  pub written : List MonitorMode

-- The part after ParseDescriptionCommon; version 2 of the callback reports the bits per component.
unfoldable pub write_parsed : Bool → ℕ → Bool → NtStatus × Option Parsed → ParseOut
write_parsed version2 input_count has_buffer (status, none) = record {
  status = status;
  parsed = none;
  written = [];
}
write_parsed version2 input_count has_buffer (success, some p) = record {
  status = success;
  parsed = some p;
  written =
      if input_count == 0 || not has_buffer
      then []
      else monitor_modes (if version2 then some p.hdr10 else none) p.modes;
}
write_parsed version2 input_count has_buffer (status, some p) = record {
  status = status;
  parsed = some p;
  written = [];
}

-- NyanVddParseMonitorDescription and NyanVddParseMonitorDescription2
unfoldable pub parse_monitor_description : Bool → Option Device → Description → ℕ → Bool → ParseOut
parse_monitor_description version2 context desc input_count has_buffer =
    write_parsed version2 input_count has_buffer (parse_description_common context desc input_count)

-- NyanVddMonitorGetDefaultModes: the status, the count, the modes that it wrote.
unfoldable pub get_default_modes : ℕ → NtStatus × ℕ × List MonitorMode
get_default_modes input_count =
    if input_count == 0
    then (success, k_mode_table_count, [])
    else if ltb input_count k_mode_table_count
    then (buffer_too_small, k_mode_table_count, [])
    else (
      success,
      k_mode_table_count,
      map (λ (m : NyanMode). create_monitor_mode none m driver) k_mode_table,
    )

-- NyanVddMonitorQueryModes and NyanVddMonitorQueryModes2: the count, the modes that it wrote.
unfoldable pub query_modes : Bool → Option Device → Description → ℕ → Bool → ℕ × List TargetMode
query_modes version2 context desc input_count has_buffer =
    let (modes, hdr10) = resolve_mode_list context desc in
    (
      length modes,
      if leb (length modes) input_count && has_buffer
          then map (create_target_mode (if version2 then some hdr10 else none)) modes
          else [],
    )

-- NyanVddParseMonitorDescription2
abbrev pub parse_monitor_description2 : Option Device → Description → ℕ → Bool → ParseOut
parse_monitor_description2 context desc input_count has_buffer =
    parse_monitor_description true context desc input_count has_buffer

-- NyanVddMonitorQueryModes2
abbrev pub query_modes2 : Option Device → Description → ℕ → Bool → ℕ × List TargetMode
query_modes2 context desc input_count has_buffer =
    query_modes true context desc input_count has_buffer
