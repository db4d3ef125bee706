-- ===== src/Driver/Ioctl/Refine.antt =====
-- NyanVddIoDeviceControl (driver/src/Driver.cpp) implements the registry of monitors.
use nyan_real_vdd.Base.{
  ℕ, ◌<◌, ◌^◌, ◌≡◌, ◌≢◌, ◌⊎◌, inl, inr, refl, Bool, true, false, ◌||◌, ◌&&◌, Option, none, some,
  List, [], ◌∷◌, arith, ◌==◌, if◌then◌else◌, Bool-cases, ap, ◌∙◌, sym, subst, All,
}
use nyan_real_vdd.Base.Bits.{clear_bit, has_bit}
use nyan_real_vdd.Protocol.{PlugIn, plug_flag_hdr10, cap_hdr10_ready}
use nyan_real_vdd.Device.{
  Device, Slot, NtStatus, nt_success, OsResult, done, failed, success, not_found,
}
use nyan_real_vdd.Device.Slots.{lookup, has_cookie}
use nyan_real_vdd.Device.Slots.Laws.{lookup-absent, lookup-present}
use nyan_real_vdd.Device.Invariant.{TableOk}
use nyan_real_vdd.Device.Plug.{reserved_slot, plug, PlugEnv}
use nyan_real_vdd.Device.Plug.Invariant.{Keeps}
use nyan_real_vdd.Device.Plug.Admission.{is_admitted}
use nyan_real_vdd.Device.Plug.Quiet.{IsQuiet, os_accepts}
use nyan_real_vdd.Device.Plug.Outcome.{plug_succeeds_iff, lookup-plug, slots-plug_failed}
use nyan_real_vdd.Device.Unplug.{unplug}
use nyan_real_vdd.Device.Unplug.Laws.{lookup-unplug, unplug_status}
use nyan_real_vdd.Device.Capture.{open_capture}
use nyan_real_vdd.Device.System.{slots-set_watchdog, slots-pet_watchdog}
use nyan_real_vdd.Driver.Ioctl.{
  Request, open_capture_request, get_status_request, plug_request, unplug_request, list_request,
  set_watchdog_request, unknown, IoctlEnv, Answer, after, serve, complete, io_device_control,
}
use nyan_real_vdd.Driver.Ioctl.Laws.{
  io_device_control-TableOk, capture_result-device, plug_result-device, plug_result-status,
}
use nyan_real_vdd.Driver.Ioctl.Registry.{
  Registry, params_of, registry_of, Spec, plugs, unplugs, fails, reads, registry-open_capture,
}

params-if :
    (b : Bool) (x y : Option Slot)
    → params_of (if b then x else y) ≡ (if b then params_of x else params_of y)
params-if true x y = refl
params-if false x y = refl

granted-Grant :
    (p : PlugIn) (caps b : ℕ)
    → let g = (reserved_slot p caps b).params in
      (g ≡ p) ⊎ (g ≡ record p { flags = clear_bit p.flags plug_flag_hdr10 })
unfolding reserved_slot
granted-Grant p caps b = elim (Bool-cases (has_bit caps cap_hdr10_ready)) [
  | inl hdr ↦ inl (rw hdr refl)
  | inr sdr ↦ inr (rw sdr refl)
]

-- A 32-bit cookie in a request to plug.
abbrev pub Fits : Request → Type 0
Fits (plug_request p) = p.cookie < 2 ^ 32
Fits _ = Unit

after-Spec :
    (request : Request) (r : OsResult) (rest : NtStatus × Answer × Device) (d : Device)
    → Spec request rest.0 (registry_of d.slots) (registry_of rest.2.slots)
    → let after_it = after r rest d in
      Spec request after_it.0 (registry_of d.slots) (registry_of after_it.2.slots)
after-Spec request done rest d h = h
after-Spec request (failed status) rest d h = fails request _ _ _ refl (λ c. refl)

module _ (env : IoctlEnv) (d : Device) (q : IsQuiet env.plug) (v : TableOk d.slots) where
  plug-Spec :
      (p : PlugIn)
      → p.cookie < 2 ^ 32
      → let r = plug env.plug p d in
        Spec (plug_request p) r.0 (registry_of d.slots) (registry_of r.2.slots)
  unfolding registry_of
  plug-Spec p fits = elim (Bool-cases (nt_success (plug env.plug p d).0)) [
    | inr bad ↦
        fails (plug_request p) _ _ _ bad
          (λ c. ap (λ ss. params_of (lookup c ss)) (slots-plug_failed env.plug p d q fits v bad))
    | inl ok ↦
        let admitted : (is_admitted env.plug p d && os_accepts env.plug) ≡ true =
          sym (plug_succeeds_iff env.plug p d q fits v) ∙ ok in
        plugs p (reserved_slot p d.cap_flags d.next_binding).params _ _ _ ok (ground arith)
          (ground arith) (ap params_of (lookup-absent p.cookie d.slots (ground arith)))
          (granted-Grant p d.cap_flags d.next_binding)
          (λ c.
            ap params_of (lookup-plug env.plug p d q fits c v ok) ∙ params-if (c == p.cookie) _ _)
  ]

  present : (cookie : ℕ) → has_cookie cookie d.slots ≡ true → registry_of d.slots cookie ≢ none
  unfolding registry_of
  present cookie h n =
      let (s, e, k) = lookup-present cookie d.slots h in
      let found : params_of (lookup cookie d.slots) ≡ some s.params = ap params_of e in cc

  named :
      (cookie : ℕ)
      → (cookie == 0 || has_cookie cookie d.slots) ≡ true
      → (cookie ≡ 0) ⊎ (registry_of d.slots cookie ≢ none)
  named cookie h = elim (Bool-cases (cookie == 0)) [
    | inl all ↦ inl (ground arith)
    | inr one ↦ inr (present cookie (ground arith))
  ]

  unplug-Spec :
      (cookie : ℕ)
      → let r = unplug cookie d in
        Spec (unplug_request cookie) r.0 (registry_of d.slots) (registry_of r.1.slots)
  unfolding registry_of
  unplug-Spec cookie =
      let after_it : (c : ℕ)
          → registry_of (unplug cookie d).1.slots c
            ≡ (if cookie == 0 || c == cookie then none else registry_of d.slots c) =
        λ c.
          ap params_of (lookup-unplug cookie c d) ∙ params-if (cookie == 0 || c == cookie) none _ in
      elim (Bool-cases (cookie == 0 || has_cookie cookie d.slots)) [
        | inl known ↦
            let ok : (unplug cookie d).0 ≡ success = unplug_status cookie d ∙ simp known refl in
            unplugs cookie _ _ _ (ap nt_success ok) (named cookie known) after_it
        | inr missing ↦
            let bad : (unplug cookie d).0 ≡ not_found =
              unplug_status cookie d ∙ simp missing refl in
            fails (unplug_request cookie) _ _ _ (ap nt_success bad) (λ c.
              after_it c
              ∙ ground (arith, ap params_of (lookup-absent cookie d.slots (ground arith))))
      ]

  serve-Spec :
      (request : Request)
      → Fits request
      → let r = serve env request d in
        Spec request r.0 (registry_of d.slots) (registry_of r.2.slots)
  unfolding serve registry_of
  serve-Spec (open_capture_request cookie) fits = after-Spec _ env.input _ d (
      after-Spec _ env.output _ d (
        after-Spec _ env.impersonate _ d (elim (Bool-cases env.authorized) [
          | inr stranger ↦ simp stranger (fails _ _ _ _ refl (λ c. refl))
          | inl known ↦
              let r = open_capture cookie env.file_object env.closing env.channel d in
              simp (known, capture_result-device r)
                (reads _ _ _ _ (λ p e. cc) (λ k e. cc)
                  (λ c. registry-open_capture cookie env.file_object env.closing env.channel d c))
        ])))
  serve-Spec get_status_request fits =
      after-Spec _ env.output _ d (reads _ _ _ _ (λ p e. cc) (λ k e. cc) (λ c. refl))
  serve-Spec (plug_request p) fits = after-Spec _ env.input _ d (
      after-Spec _ env.output _ d (
        simp (plug_result-status (plug env.plug p d), plug_result-device (plug env.plug p d))
          (plug-Spec p fits)))
  serve-Spec (unplug_request cookie) fits = after-Spec _ env.input _ d (unplug-Spec cookie)
  serve-Spec list_request fits =
      after-Spec _ env.output _ d (reads _ _ _ _ (λ p e. cc) (λ k e. cc) (λ c. refl))
  serve-Spec (set_watchdog_request t) fits = after-Spec _ env.input _ d (
      reads _ _ _ _ (λ p e. cc) (λ k e. cc)
        (λ c. ap (λ ss. params_of (lookup c ss)) (slots-set_watchdog env.watchdog t env.set_now d)))
  serve-Spec unknown fits = fails _ _ _ _ refl (λ c. refl)

  pub io_device_control-Spec :
      (request : Request)
      → Fits request
      → let r = io_device_control env request d in
        Spec request r.0 (registry_of d.slots) (registry_of r.2.slots)
  unfolding io_device_control complete
  io_device_control-Spec request fits =
      let r = serve env request d in
      elim (Bool-cases (nt_success r.0)) [
        | inl ok ↦ rw ok (
            subst (λ ss. Spec request r.0 (registry_of d.slots) (registry_of ss))
              (sym (slots-pet_watchdog env.pet_now r.2)) (serve-Spec request fits))
        | inr bad ↦ rw bad (serve-Spec request fits)
      ]

quiet-Keeps : (env : PlugEnv) → IsQuiet env → Keeps env
quiet-Keeps env q = record {
  read = λ d v. subst (λ (x : Device). TableOk x.slots) (sym (q.read d)) v;
  committed = λ d v. subst (λ (x : Device). TableOk x.slots) (sym (q.committed d)) v;
  rolled_back = λ d v. subst (λ (x : Device). TableOk x.slots) (sym (q.rolled_back d)) v;
}

-- Requests one after the other: the statuses that go back, and the state.
unfoldable pub serve_all : List (IoctlEnv × Request) → Device → List NtStatus × Device
serve_all [] d = ([], d)
serve_all ((env, request) ∷ rest) d =
    let r = io_device_control env request d in
    let after_it = serve_all rest r.2 in (r.0 ∷ after_it.0, after_it.1)

-- The statuses and registries that the specification allows for a sequence of requests.
pub data SpecRun : List (IoctlEnv × Request) → List NtStatus → Registry → Registry → Type 0 where
  ends : (m : Registry) → SpecRun [] [] m m
  goes_on :
      (env : IoctlEnv) (request : Request) (status : NtStatus) (m m' m'' : Registry)
      → {rest : List (IoctlEnv × Request)} {statuses : List NtStatus} → Spec request status m m'
      → SpecRun rest statuses m' m''
      → SpecRun ((env, request) ∷ rest) (status ∷ statuses) m m''

-- Nothing interferes with a plug, and its cookie has 32 bits.
abbrev pub IsAlone : IoctlEnv × Request → Type 0
IsAlone (env, request) = IsQuiet env.plug × Fits request

-- From a sound slot table, a sequence of control requests that no other thread interferes with, whose
-- plugs have 32-bit cookies, answers the statuses and changes the map from cookies to monitors as the
-- specification allows: a plug succeeds only for a supported mode and a non-zero cookie that is new,
-- and adds that monitor as asked or without HDR; an unplug succeeds only for 0 or a known cookie, and
-- removes all or that one; a request that fails, and any other request, changes nothing.
pub serve_all-SpecRun :
    (requests : List (IoctlEnv × Request)) (d : Device)
    → All IsAlone requests
    → TableOk d.slots
    → let r = serve_all requests d in
      SpecRun requests r.0 (registry_of d.slots) (registry_of r.1.slots)
unfolding serve_all
serve_all-SpecRun [] d alone v = ends (registry_of d.slots)
serve_all-SpecRun ((env, request) ∷ rest) d alone v =
    let r = io_device_control env request d in
    let (q, fits) = alone.0 in
    goes_on env request r.0 _ (registry_of r.2.slots) _
      (io_device_control-Spec env d q v request fits)
      (serve_all-SpecRun rest r.2 alone.1
        (io_device_control-TableOk env request d (quiet-Keeps env.plug q) v))
