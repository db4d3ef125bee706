-- ===== src/Driver/Ioctl/Laws.antt =====
-- What every control request keeps, and what a failed one leaves alone.
use nyan_real_vdd.Base.{
  ℕ, ◌≡◌, refl, false, Option, none, some, List, Bool-cases, inl, inr, subst, sym,
}
use nyan_real_vdd.Device.{Device, NtStatus, nt_success, OsResult, OsResult-cases, done, failed}
use nyan_real_vdd.Device.Invariant.{TableOk}
use nyan_real_vdd.Device.Plug.{plug}
use nyan_real_vdd.Device.Plug.Invariant.{Keeps, plug-TableOk}
use nyan_real_vdd.Device.Unplug.Laws.{unplug-TableOk}
use nyan_real_vdd.Device.Capture.{open_capture}
use nyan_real_vdd.Device.Capture.Laws.{open_capture-TableOk}
use nyan_real_vdd.Device.System.{slots-set_watchdog, slots-pet_watchdog}
use nyan_real_vdd.Driver.Ioctl.{
  Request, open_capture_request, get_status_request, plug_request, unplug_request, list_request,
  set_watchdog_request, unknown, IoctlEnv, Answer, nothing, after, capture_result, plug_result,
  serve, complete, io_device_control,
}

after-TableOk :
    (r : OsResult) (rest : NtStatus × Answer × Device) (d : Device)
    → TableOk d.slots
    → TableOk rest.2.slots
    → TableOk (after r rest d).2.slots
after-TableOk done rest d v w = w
after-TableOk (failed status) rest d v w = v

pub capture_result-device : (r : NtStatus × Option (List ℕ) × Device) → (capture_result r).2 ≡ r.2
unfolding capture_result
capture_result-device (status, some name, d) = refl
capture_result-device (status, none, d) = refl

pub plug_result-device : (r : NtStatus × Option ℕ × Device) → (plug_result r).2 ≡ r.2
unfolding plug_result
plug_result-device (status, some connector, d) = refl
plug_result-device (status, none, d) = refl

pub capture_result-status : (r : NtStatus × Option (List ℕ) × Device) → (capture_result r).0 ≡ r.0
unfolding capture_result
capture_result-status (status, some name, d) = refl
capture_result-status (status, none, d) = refl

pub plug_result-status : (r : NtStatus × Option ℕ × Device) → (plug_result r).0 ≡ r.0
unfolding plug_result
plug_result-status (status, some connector, d) = refl
plug_result-status (status, none, d) = refl

serve-TableOk :
    (env : IoctlEnv) (request : Request) (d : Device)
    → Keeps env.plug
    → TableOk d.slots
    → TableOk (serve env request d).2.slots
unfolding serve
serve-TableOk env (open_capture_request cookie) d k v = after-TableOk env.input _ d v (
    after-TableOk env.output _ d v (
      after-TableOk env.impersonate _ d v (elim (Bool-cases env.authorized) [
        | inr stranger ↦ rw stranger v
        | inl known ↦
            rw
              (
                known,
                capture_result-device
                    (open_capture cookie env.file_object env.closing env.channel d),
              )
              (open_capture-TableOk cookie env.file_object env.closing env.channel d v)
      ])))
serve-TableOk env get_status_request d k v = after-TableOk env.output _ d v v
serve-TableOk env (plug_request p) d k v = after-TableOk env.input _ d v (
    after-TableOk env.output _ d v
      (rw (plug_result-device (plug env.plug p d)) (plug-TableOk env.plug p d k v)))
serve-TableOk env (unplug_request cookie) d k v =
    after-TableOk env.input _ d v (unplug-TableOk cookie d v)
serve-TableOk env list_request d k v = after-TableOk env.output _ d v v
serve-TableOk env (set_watchdog_request t) d k v =
    after-TableOk env.input _ d v
      (subst TableOk (sym (slots-set_watchdog env.watchdog t env.set_now d)) v)
serve-TableOk env unknown d k v = v

-- Every control request keeps the invariant of the slot table, whatever the framework answers, where
-- the threads that run during a plug keep it.
pub io_device_control-TableOk :
    (env : IoctlEnv) (request : Request) (d : Device)
    → Keeps env.plug
    → TableOk d.slots
    → TableOk (io_device_control env request d).2.slots
unfolding io_device_control complete
io_device_control-TableOk env request d k v =
    let r = serve env request d in
    elim (Bool-cases (nt_success r.0)) [
      | inl ok ↦ rw ok (
          subst TableOk (sym (slots-pet_watchdog env.pet_now r.2))
            (serve-TableOk env request d k v))
      | inr bad ↦ rw bad (serve-TableOk env request d k v)
    ]

-- A request for a capture by a caller that the access check does not authorize changes nothing,
-- does not feed the watchdog and gets no answer, whatever else the framework answers.
pub unauthorized_capture :
    (env : IoctlEnv) (cookie : ℕ) (d : Device)
    → env.authorized ≡ false
    → (nt_success (io_device_control env (open_capture_request cookie) d).0 ≡ false)
      × ((io_device_control env (open_capture_request cookie) d).1 ≡ nothing)
      × ((io_device_control env (open_capture_request cookie) d).2 ≡ d)
unfolding io_device_control complete serve
unauthorized_capture env cookie d no_right = elim (OsResult-cases env.input) [
  | inr (e, bad) ↦ simp bad (refl, refl, refl)
  | inl ok ↦ elim (OsResult-cases env.output) [
    | inr (e, bad) ↦ simp (ok, bad) (refl, refl, refl)
    | inl ok' ↦ elim (OsResult-cases env.impersonate) [
      | inr (e, bad) ↦ simp (ok, ok', bad) (refl, refl, refl)
      | inl ok'' ↦ simp (ok, ok', ok'', no_right) (refl, refl, refl)
    ]
  ]
]
