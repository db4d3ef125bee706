-- ===== src/Cli/Displays.antt =====
-- CookieFromInstanceId and ResolveDisplays (cli/nyanvddctl.cpp): from the cookies to the displays of
-- the system.
pub mod Laws
use nyan_real_vdd.Base.{
  ℕ, Bool, true, false, not, ◌||◌, Option, none, some, List, [], ◌∷◌, ◌++◌, ◌==◌, if◌then◌else◌,
}
use nyan_real_vdd.Protocol.ContainerId.{Guid, cookie_from_container_id}
use nyan_real_vdd.Cli.{Text, ResolvedDisplay}
use nyan_real_vdd.Cli.DevicePath.{instance_id_from_device_path}

-- NYANVDD_EDID_MANUFACTURE_ID and NYANVDD_EDID_PRODUCT_CODE_ID
abbrev pub edid_manufacture_id : ℕ
edid_manufacture_id = 0x2E3B

abbrev pub edid_product_code_id : ℕ
edid_product_code_id = 0x3D0F

-- DISPLAYCONFIG_TARGET_DEVICE_NAME, as far as it is read.
pub record TargetName : Type 0 where
  pub manufacture_id : ℕ
  pub product_code_id : ℕ
  pub device_path : Text
  pub friendly_name : Text

-- The current mode and position of a source.
pub record Settings : Type 0 where
  pub width : ℕ
  pub height : ℕ
  pub refresh_hz : ℕ
  pub pos_x : ℕ
  pub pos_y : ℕ

abbrev no_settings : Settings
no_settings = record { width = 0; height = 0; refresh_hz = 0; pos_x = 0; pos_y = 0 }

-- What the system answers about its displays; an active path is its target and its source. A
-- property of a device node is the flag whether its type is GUID, and its value.
pub record DisplayConfig : Type 0 where
  pub sizes_ok : Bool
  pub paths : Option (List (ℕ × ℕ))
  pub target_name : ℕ → Option TargetName
  pub locate : Text → Option ℕ
  pub container_id : ℕ → Option (Bool × Guid)
  pub source_name : ℕ → Option Text
  pub settings : Text → Option Settings

abbrev guid_cookie : Option (Bool × Guid) → ℕ
guid_cookie none = 0
guid_cookie (some (false, g)) = 0
guid_cookie (some (true, g)) = cookie_from_container_id g

abbrev node_cookie : DisplayConfig → Option ℕ → ℕ
node_cookie c none = 0
node_cookie c (some node) = guid_cookie (c.container_id node)

-- CookieFromInstanceId
unfoldable pub cookie_from_instance_id : DisplayConfig → Text → ℕ
cookie_from_instance_id c id = node_cookie c (c.locate id)

abbrev settings_or_zero : Option Settings → Settings
settings_or_zero none = no_settings
settings_or_zero (some s) = s

abbrev pub display_of : DisplayConfig → ℕ → TargetName → Text → ResolvedDisplay
display_of c cookie t gdi =
    let s = settings_or_zero (c.settings gdi) in
    record {
      cookie = cookie;
      gdi_name = gdi;
      friendly_name = t.friendly_name;
      width = s.width;
      height = s.height;
      refresh_hz = s.refresh_hz;
      pos_x = s.pos_x;
      pos_y = s.pos_y;
    }

abbrev from_source : DisplayConfig → ℕ → TargetName → Option Text → Option ResolvedDisplay
from_source c cookie t none = none
from_source c cookie t (some gdi) = some (display_of c cookie t gdi)

-- The body of the loop from the target's name on.
unfoldable pub resolve_target : DisplayConfig → ℕ → TargetName → Option ResolvedDisplay
resolve_target c source t =
    let cookie = cookie_from_instance_id c (instance_id_from_device_path t.device_path) in
    if not (t.manufacture_id == edid_manufacture_id)
      || not (t.product_code_id == edid_product_code_id)
    then none
    else if cookie == 0
    then none
    else from_source c cookie t (c.source_name source)

abbrev from_target : DisplayConfig → ℕ → Option TargetName → Option ResolvedDisplay
from_target c source none = none
from_target c source (some t) = resolve_target c source t

-- The body of the loop: `none` for `continue`.
unfoldable pub resolve_path : DisplayConfig → ℕ × ℕ → Option ResolvedDisplay
resolve_path c (target, source) = from_target c source (c.target_name target)

-- `Out.push_back` unless the loop went on.
abbrev pub push : Option ResolvedDisplay → List ResolvedDisplay → List ResolvedDisplay
push none ds = ds
push (some d) ds = d ∷ ds

unfoldable pub resolve_paths : DisplayConfig → List (ℕ × ℕ) → List ResolvedDisplay
resolve_paths c [] = []
resolve_paths c (p ∷ ps) = let rest = resolve_paths c ps in push (resolve_path c p) rest

abbrev resolve_queried : DisplayConfig → Option (List (ℕ × ℕ)) → Option (List ResolvedDisplay)
resolve_queried c none = none
resolve_queried c (some ps) = some (resolve_paths c ps)

-- ResolveDisplays: `none` for false.
unfoldable pub resolve_displays : DisplayConfig → Option (List ResolvedDisplay)
resolve_displays c = if not c.sizes_ok then none else resolve_queried c c.paths

-- The first display with the cookie.
unfoldable pub find_display : ℕ → List ResolvedDisplay → Option ResolvedDisplay
find_display cookie [] = none
find_display cookie (d ∷ ds) =
    let rest = find_display cookie ds in if d.cookie == cookie then some d else rest
