-- ===== src/Cli/Displays/Laws.antt =====
-- A display of the system whose device node has a cookie's container id is resolved to the cookie.
use nyan_real_vdd.Base.{
  ℕ, ◌<◌, ◌^◌, ◌≡◌, ◌≢◌, refl, true, false, inl, inr, some, List, [], ◌∷◌, ◌++◌, map, arith,
  Bool-cases, Option-cases, ap, ◌∙◌, ◌==◌,
}
use nyan_real_vdd.Protocol.ContainerId.{
  make_container_id, cookie_from_container_id-make_container_id,
}
use nyan_real_vdd.Cli.{Text, ResolvedDisplay}
use nyan_real_vdd.Cli.DevicePath.{hash, brace, path_prefix, separator, instance_id_from_device_path}
use nyan_real_vdd.Cli.DevicePath.Laws.{NoHash, instance_id_lem}
use nyan_real_vdd.Cli.Displays.{
  edid_manufacture_id, edid_product_code_id, TargetName, DisplayConfig, cookie_from_instance_id,
  display_of, resolve_target, resolve_path, resolve_paths, find_display,
}

-- The active path shows the monitor with that cookie, and the system names it as documented: the EDID
-- ids of the driver, a device path "\\?\" id "#{" class, and a node whose container id is the one that the
-- driver makes of the cookie.
pub record Shows (c : DisplayConfig) (cookie : ℕ) (p : ℕ × ℕ) : Type 0 where
  pub target : TargetName
  pub id : Text
  pub class : Text
  pub node : ℕ
  pub gdi : Text
  pub named : c.target_name p.0 ≡ some target
  pub vendor : target.manufacture_id ≡ edid_manufacture_id
  pub product : target.product_code_id ≡ edid_product_code_id
  pub path : target.device_path ≡ path_prefix ++ (id ++ (hash ∷ brace ∷ class))
  pub plain : NoHash class
  pub located : c.locate (map separator id) ≡ some node
  pub contained : c.container_id node ≡ some (true, make_container_id cookie)
  pub source : c.source_name p.1 ≡ some gdi

module _ (c : DisplayConfig) (cookie : ℕ) (nz : cookie ≢ 0) (fits : cookie < 2 ^ 32) where
  resolved_cookie :
      (p : ℕ × ℕ) (s : Shows c cookie p)
      → cookie_from_instance_id c (instance_id_from_device_path s.target.device_path) ≡ cookie
  unfolding cookie_from_instance_id
  resolved_cookie p s =
      let id : instance_id_from_device_path s.target.device_path ≡ map separator s.id =
        ap instance_id_from_device_path s.path ∙ instance_id_lem s.id s.class s.plain in
      simp (id, s.located, s.contained) (cookie_from_container_id-make_container_id cookie fits)

  resolve_path-Shows :
      (p : ℕ × ℕ)
      → Shows c cookie p
      → (d : ResolvedDisplay) × (resolve_path c p ≡ some d) × (d.cookie ≡ cookie)
  unfolding resolve_path resolve_target
  resolve_path-Shows p s =
      let same = resolved_cookie p s in
      let given : (cookie == 0) ≡ false = ground arith in
      let vendor : (s.target.manufacture_id == edid_manufacture_id) ≡ true =
        ground (arith, s.vendor) in
      let product : (s.target.product_code_id == edid_product_code_id) ≡ true =
        ground (arith, s.product) in
      (
        display_of c cookie s.target s.gdi,
        simp (s.named, vendor, product, same, given, s.source) refl,
        refl,
      )

  pub find_shown :
      (before after : List (ℕ × ℕ)) (p : ℕ × ℕ)
      → Shows c cookie p
      → (d : ResolvedDisplay) × (find_display cookie (resolve_paths c (before ++ (p ∷ after)))
          ≡ some d)
  unfolding find_display resolve_paths
  find_shown [] after p s = let (d, e, k) = resolve_path-Shows p s in (d, simp e (ground arith))
  find_shown (q ∷ before) after p s =
      let (d, e) = find_shown before after p s in
      elim (Option-cases (resolve_path c q)) [
        | inl skipped ↦ (d, simp skipped e)
        | inr (x, taken) ↦ elim (Bool-cases (x.cookie == cookie)) [
          | inl first ↦ (x, simp (taken, first) refl)
          | inr later ↦ (d, simp (taken, later) e)
        ]
      ]
