-- ===== src/Edid/ModeList.antt =====
-- The reported mode list (driver/src/Edid.h and Edid.cpp).
pub mod Laws
use nyan_real_vdd.Base.{ℕ, Option, none, some, List, [], ◌∷◌, if◌then◌else◌}
use nyan_real_vdd.Edid.Mode.{NyanMode, same_mode}

abbrev pub mode : ℕ → ℕ → ℕ → NyanMode
mode w h hz = record { width = w; height = h; refresh_hz = hz }

-- kModeTable
abbrev pub k_mode_table : List NyanMode
k_mode_table =
    mode 1920 1080 60
    ∷ mode 1920 1080 72
    ∷ mode 1920 1080 90
    ∷ mode 1920 1080 120
    ∷ mode 2560 1440 60
    ∷ mode 2560 1440 90
    ∷ mode 2560 1440 120
    ∷ mode 3840 2160 60
    ∷ mode 3840 2160 90
    ∷ mode 3840 2160 120
    ∷ mode 1280 720 60
    ∷ []

abbrev pub k_mode_table_count : ℕ
k_mode_table_count = 11

abbrev pub k_max_modes : ℕ
k_max_modes = 12

-- The loop over the table; the modes that it appends to `Out`.
unfoldable pub append_table : Option NyanMode → List NyanMode → List NyanMode
append_table preferred [] = []
append_table none (t ∷ ts) = t ∷ append_table none ts
append_table (some p) (t ∷ ts) =
    let rest = append_table (some p) ts in if same_mode t p then rest else t ∷ rest

-- BuildModeList: the filled part of `Out`; the count that it returns is the length.
unfoldable pub build_mode_list : Option NyanMode → List NyanMode
build_mode_list none = append_table none k_mode_table
build_mode_list (some p) = p ∷ append_table (some p) k_mode_table
