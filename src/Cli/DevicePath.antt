-- ===== src/Cli/DevicePath.antt =====
-- InstanceIdFromDevicePath (cli/nyanvddctl.cpp): from a monitor's interface path to the instance id of
-- its device node.
pub mod Laws
use nyan_real_vdd.Base.{
  ℕ, zero, suc, Bool, true, false, ◌&&◌, ◌||◌, Option, none, some, List, [], ◌∷◌, ◌==◌, map, take,
  drop, if◌then◌else◌,
}
use nyan_real_vdd.Cli.{Text, same_text}

abbrev pub hash : ℕ
hash = 35

abbrev pub backslash : ℕ
backslash = 92

abbrev pub brace : ℕ
brace = 123

-- "\\?\"
abbrev pub path_prefix : Text
path_prefix = backslash ∷ backslash ∷ 63 ∷ backslash ∷ []

-- `Id.rfind(L"\\\\?\\", 0) == 0`, then `Id.erase(0, 4)`
unfoldable pub without_prefix : Text → Text
without_prefix id = if same_text (take 4 id) path_prefix then drop 4 id else id

-- `Id.rfind(L'#')`
unfoldable pub rfind_hash : Text → Option ℕ
rfind_hash [] = none
rfind_hash (c ∷ cs) = elim (rfind_hash cs) [
  | some i ↦ some (suc i)
  | none ↦ if c == hash then some 0 else none
]

-- `Brace + 1 < Id.size() && Id[Brace + 1] == L'{'`
unfoldable pub brace_after : ℕ → Text → Bool
brace_after i [] = false
brace_after zero (c ∷ []) = false
brace_after zero (c ∷ x ∷ cs) = x == brace
brace_after (suc i) (c ∷ cs) = brace_after i cs

-- `Id.erase(Brace)` where the last '#' starts a class GUID.
abbrev pub erase_class : Option ℕ → Text → Text
erase_class none id = id
erase_class (some i) id = if brace_after i id then take i id else id

unfoldable pub without_class : Text → Text
without_class id = erase_class (rfind_hash id) id

abbrev pub separator : ℕ → ℕ
separator c = if c == hash then backslash else c

-- InstanceIdFromDevicePath
unfoldable pub instance_id_from_device_path : Text → Text
instance_id_from_device_path path = map separator (without_class (without_prefix path))
