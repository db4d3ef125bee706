-- ===== src/Driver/Direct3D.antt =====
-- Direct3DDevice::Init, NyanVddAdapterQueryTargetInfo and the start of SwapChainProcessor::RunCore
-- (driver/src/Driver.cpp): the calls of Direct3D that each is made of.
use nyan_real_vdd.Base.{
  ℕ, ◌≡◌, ◌↔◌, refl, Bool, true, false, Option, none, some, Option-cases, inl, inr,
}
use nyan_real_vdd.Device.{NtStatus, success}

-- The errors of CreateDXGIFactory2, EnumAdapterByLuid and D3D11CreateDevice.
pub record D3dEnv : Type 0 where
  pub factory : Option ℕ
  pub adapter : Option ℕ
  pub device : Option ℕ

-- Which members of Direct3DDevice are set; DeviceContext is set with the device.
pub record Direct3dDevice : Type 0 where
  pub factory : Bool
  pub adapter : Bool
  pub device : Bool

abbrev pub new_direct3d_device : Direct3dDevice
new_direct3d_device = record { factory = false; adapter = false; device = false }

-- Init: the error that it returns, and the members.
unfoldable pub init_device : D3dEnv → Direct3dDevice → Option ℕ × Direct3dDevice
init_device env d = elim env.factory [
  | some e ↦ (some e, d)
  | none ↦
      let d1 : Direct3dDevice = record d { factory = true } in
      elim env.adapter [
        | some e ↦ (some e, d1)
        | none ↦
            let d2 : Direct3dDevice = record d1 { adapter = true } in
            elim env.device [ some e ↦ (some e, d2) | none ↦ (none, record d2 { device = true }) ]
      ]
]

-- RunCore before its loop: whether the loop is entered, by the errors of the query for the DXGI device and of
-- IddCxSwapChainSetDevice.
unfoldable pub enters_loop : Option ℕ → Option ℕ → Bool
enters_loop (some e) set_device = false
enters_loop none (some e) = false
enters_loop none none = true

-- IDDCX_TARGET_CAPS_WIDE_COLOR_SPACE and IDDCX_TARGET_CAPS_HIGH_COLOR_SPACE, and no dithering.
pub record TargetInfo : Type 0 where
  pub wide_color_space : Bool
  pub high_color_space : Bool
  pub dithering : Bool

-- NyanVddAdapterQueryTargetInfo
unfoldable pub query_target_info : NtStatus × TargetInfo
query_target_info =
    (success, record { wide_color_space = true; high_color_space = true; dithering = false })

-- The device that the worker uses is there exactly when Init returns no error.
init_device_complete :
    (env : D3dEnv)
    → ((init_device env new_direct3d_device).0 ≡ none)
      ↔ ((init_device env new_direct3d_device).1.device ≡ true)
unfolding init_device
init_device_complete env = elim (Option-cases env.factory) [
  | inr (e, f) ↦ rw (f, init_device) ((λ x. absurd cc), (λ x. absurd cc))
  | inl f ↦ elim (Option-cases env.adapter) [
    | inr (e, a) ↦ rw (f, init_device, a, init_device) ((λ x. absurd cc), (λ x. absurd cc))
    | inl a ↦ elim (Option-cases env.device) [
      | inr (e, g) ↦
          rw (f, init_device, a, init_device, g, init_device) ((λ x. absurd cc), (λ x. absurd cc))
      | inl g ↦ rw (f, init_device, a, init_device, g, init_device) ((λ x. refl), (λ x. refl))
    ]
  ]
]
