-- ===== src/Driver/Ioctl/Registry.antt =====
-- An abstract view of the control requests (driver/src/Driver.cpp): the device as a finite map from
-- cookies to plugged monitors, which forgets slots, handles, channels and the watchdog.
use nyan_real_vdd.Base.{
  ℕ, zero, suc, ◌≡◌, ◌≢◌, ◌⊎◌, inl, inr, refl, Bool, true, false, ◌||◌, Option, none, some, List,
  [], ◌∷◌, arith, set, get_or, ◌==◌, if◌then◌else◌, Bool-cases, Option-cases, ap, ◌∙◌,
}
use nyan_real_vdd.Base.Bits.{clear_bit}
use nyan_real_vdd.Protocol.{PlugIn, plug_flag_hdr10}
use nyan_real_vdd.FrameShare.Channel.{Channel, CreateEnv, create}
use nyan_real_vdd.Edid.Mode.{is_supported_mode}
use nyan_real_vdd.Device.{Device, Slot, empty_slot, NtStatus, nt_success}
use nyan_real_vdd.Device.Slots.{lookup, slot_has}
use nyan_real_vdd.Device.Plug.{requested_mode}
use nyan_real_vdd.Device.Unplug.{channel_of}
use nyan_real_vdd.Device.Capture.{open_capture, open_at, attach, find_arrived, channel_active}
use nyan_real_vdd.Device.Capture.Laws.{Created-cases}
use nyan_real_vdd.Driver.Ioctl.{Request, plug_request, unplug_request}

-- The monitors by their cookies.
abbrev pub Registry : Type 0
Registry = ℕ → Option PlugIn

abbrev pub params_of : Option Slot → Option PlugIn
params_of none = none
params_of (some s) = some s.params

unfoldable pub registry_of : List Slot → Registry
registry_of ss c = params_of (lookup c ss)

-- What a request may do to the registry. A monitor is granted as it was asked for, or without HDR.
pub data Spec : Request → NtStatus → Registry → Registry → Type 0 where
  plugs :
      (p granted : PlugIn) (status : NtStatus) (m m' : Registry)
      → nt_success status ≡ true
      → p.cookie ≢ 0
      → is_supported_mode (requested_mode p) ≡ true
      → m p.cookie ≡ none
      → ((granted ≡ p) ⊎ (granted ≡ record p { flags = clear_bit p.flags plug_flag_hdr10 }))
      → ((c : ℕ) → m' c ≡ (if c == p.cookie then some granted else m c))
      → Spec (plug_request p) status m m'
  unplugs :
      (cookie : ℕ) (status : NtStatus) (m m' : Registry)
      → nt_success status ≡ true
      → ((cookie ≡ 0) ⊎ (m cookie ≢ none))
      → ((c : ℕ) → m' c ≡ (if cookie == 0 || c == cookie then none else m c))
      → Spec (unplug_request cookie) status m m'
  fails :
      (request : Request) (status : NtStatus) (m m' : Registry)
      → nt_success status ≡ false
      → ((c : ℕ) → m' c ≡ m c)
      → Spec request status m m'
  reads :
      (request : Request) (status : NtStatus) (m m' : Registry)
      → ((p : PlugIn) → request ≢ plug_request p)
      → ((cookie : ℕ) → request ≢ unplug_request cookie)
      → ((c : ℕ) → m' c ≡ m c)
      → Spec request status m m'

-- A slot that is written with the same cookie and parameters answers as before.
params-set :
    (c i : ℕ) (s : Slot) (ss : List Slot)
    → s.used ≡ (get_or ss i empty_slot).used
    → s.params ≡ (get_or ss i empty_slot).params
    → params_of (lookup c (set ss i s)) ≡ params_of (lookup c ss)
unfolding lookup
params-set c i s [] u e = refl
params-set c zero s (t ∷ ts) u e =
    let same : slot_has c s ≡ slot_has c t = ground arith in
    elim (Bool-cases (slot_has c t)) [
      | inl here ↦ simp (same ∙ here, here) (ap some e)
      | inr other ↦ simp (same ∙ other, other) refl
    ]
params-set c (suc i) s (t ∷ ts) u e = ground (arith, params-set c i s ts u e)

registry-attach :
    (i o : ℕ) (ch : Channel) (d : Device) (c : ℕ)
    → registry_of (attach i o ch d).slots c ≡ registry_of d.slots c
unfolding registry_of attach
registry-attach i o ch d c = params-set c i _ d.slots refl refl

registry-open_at :
    (i o : ℕ) (env : CreateEnv) (d : Device) (c : ℕ)
    → registry_of (open_at i o env d).2.slots c ≡ registry_of d.slots c
unfolding open_at
registry-open_at i o env d c =
    let busy = channel_active (channel_of d.bindings (get_or d.slots i empty_slot)) d.channels in
    elim (Bool-cases busy) [
      | inl live ↦ simp live refl
      | inr idle ↦ elim (Created-cases (create env)) [
        | inr (r, refusal) ↦ simp (idle, refusal) refl
        | inl (ch, made) ↦ simp (idle, made) (registry-attach i o ch d c)
      ]
    ]

pub registry-open_capture :
    (cookie : ℕ) (owner : Option ℕ) (closing : Bool) (env : CreateEnv) (d : Device) (c : ℕ)
    → registry_of (open_capture cookie owner closing env d).2.slots c ≡ registry_of d.slots c
unfolding open_capture
registry-open_capture cookie none closing env d c = refl
registry-open_capture cookie (some o) closing env d c =
    elim (Option-cases (find_arrived 0 cookie d.slots)) [
      | inl absent ↦ ground (arith, absent)
      | inr (i, found) ↦ ground (arith, found, registry-open_at i o env d c)
    ]
