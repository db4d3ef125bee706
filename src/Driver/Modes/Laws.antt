-- ===== src/Driver/Modes/Laws.antt =====
-- The monitor modes and the target modes agree, and the mode a monitor was plugged with comes first.
use nyan_real_vdd.Base.{
  ℕ, ◌≤◌, ◌<◌, ◌^◌, ◌≡◌, refl, Bool, true, false, Option, none, some, List, [], ◌∷◌, map, length,
  arith, ltb, leb, ◌==◌, if◌then◌else◌, ap, ◌∙◌, sym,
}
use nyan_real_vdd.Edid.Mode.{NyanMode}
use nyan_real_vdd.Edid.Block.{build_edid}
use nyan_real_vdd.Edid.Block.Laws.{cookie_from_edid-build_edid}
use nyan_real_vdd.Device.{Device, Slot}
use nyan_real_vdd.Device.Slots.{lookup}
use nyan_real_vdd.Device.Report.{copy_slot_by_edid}
use nyan_real_vdd.Driver.Modes.{
  SignalInfo, fill_signal_info, Origin, MonitorMode, TargetMode, create_monitor_mode,
  create_target_mode, Description, resolve, mode_list_of, resolve_mode_list,
  parse_description_common, monitor_modes, write_parsed, parse_monitor_description, query_modes,
}

-- The picture that a mode asks for, whichever list it is in.
abbrev pub picture : SignalInfo → ℕ × ℕ × ℕ × ℕ × ℕ
picture s = (s.width, s.height, s.v_sync, s.h_sync, s.pixel_rate)

abbrev pub monitor_picture : MonitorMode → (ℕ × ℕ × ℕ × ℕ × ℕ) × Option Bool
monitor_picture m = (picture m.signal, m.ten_bits)

abbrev pub target_picture : TargetMode → (ℕ × ℕ × ℕ × ℕ × ℕ) × Option Bool
target_picture m = (picture m.signal, m.ten_bits)

tail_pictures :
    (t : Option Bool) (ms : List NyanMode)
    → map monitor_picture (map (λ (x : NyanMode). create_monitor_mode t x Origin.driver) ms)
      ≡ map target_picture (map (create_target_mode t) ms)
unfolding create_monitor_mode create_target_mode fill_signal_info
tail_pictures t [] = refl
tail_pictures t (m ∷ ms) = ap (◌∷◌ (target_picture (create_target_mode t m))) (tail_pictures t ms)

pictures :
    (t : Option Bool) (ms : List NyanMode)
    → map monitor_picture (monitor_modes t ms) ≡ map target_picture (map (create_target_mode t) ms)
unfolding monitor_modes create_monitor_mode create_target_mode fill_signal_info
pictures t [] = refl
pictures t (m ∷ ms) = ap (◌∷◌ (target_picture (create_target_mode t m))) (tail_pictures t ms)

-- The answers of both callbacks, when the buffers are large enough.
query_room :
    (version2 : Bool) (context : Option Device) (desc : Description) (n : ℕ)
    → length (resolve_mode_list context desc).0 ≤ n
    → (query_modes version2 context desc n true).1
      ≡ map
          (create_target_mode (if version2 then some (resolve_mode_list context desc).1 else none))
          (resolve_mode_list context desc).0
unfolding query_modes
query_room version2 context desc n room =
    let fits : leb (length (resolve_mode_list context desc).0) n ≡ true = ground arith in
    simp fits refl

parse_room :
    (version2 : Bool) (context : Option Device) (desc : Description) (n : ℕ)
    → desc.is_edid ≡ true
    → desc.data_size ≡ 128
    → 0 < n
    → length (resolve_mode_list context desc).0 ≤ n
    → (parse_monitor_description version2 context desc n true).written
      ≡ monitor_modes
          (if version2 then some (resolve_mode_list context desc).1 else none)
          (resolve_mode_list context desc).0
unfolding parse_monitor_description parse_description_common write_parsed
parse_room version2 context desc n e size some_room room =
    let fits : ltb n (length (resolve_mode_list context desc).0) ≡ false = ground arith in
    let filled : (n == 0) ≡ false = ground arith in simp (e, size, fits, filled) refl

-- For the description of a monitor, with buffers that are large enough, the list of monitor modes
-- and the list of target modes have the same pictures and wire formats in the same order, in both
-- versions of the callbacks.
pub monitor_and_target_modes_agree :
    (version2 : Bool) (context : Option Device) (desc : Description) (n : ℕ)
    → desc.is_edid ≡ true
    → desc.data_size ≡ 128
    → 0 < n
    → length (resolve_mode_list context desc).0 ≤ n
    → map monitor_picture (parse_monitor_description version2 context desc n true).written
      ≡ map target_picture (query_modes version2 context desc n true).1
monitor_and_target_modes_agree version2 context desc n e size some_room room =
    ap (map monitor_picture) (parse_room version2 context desc n e size some_room room)
    ∙ pictures _ (resolve_mode_list context desc).0
    ∙ ap (map target_picture) (sym (query_room version2 context desc n room))

-- The description of the EDID that the driver built for a 32-bit cookie other than 0 resolves to the
-- slot that the cookie is looked up to: the mode list and the HDR flag are those of that slot.
pub resolve_mode_list-build_edid :
    (d : Device) (cookie : ℕ) (s : Slot) (m : NyanMode)
    → cookie < 2 ^ 32
    → (cookie == 0) ≡ false
    → lookup cookie d.slots ≡ some s
    → resolve_mode_list
        (some d)
        (record { is_edid = true; data_size = 128; bytes = some (build_edid cookie m) })
      ≡ mode_list_of (some s)
unfolding resolve_mode_list resolve copy_slot_by_edid
resolve_mode_list-build_edid d cookie s m fits ne found =
    rw (cookie_from_edid-build_edid cookie m fits, ne, found) refl
