-- ===== src/Probe/Connect/Granted.antt =====
-- A reader of captures (tools/dirty-probe/capture_bench.cpp) on the driver (driver/src/Driver.cpp).
use nyan_real_vdd.Base.{
  ℕ, zero, suc, ◌<◌, ◌≡◌, refl, Bool, true, false, not, ◌||◌, inl, inr, Option, none, some, List,
  [], ◌∷◌, length, set, get_or, arith, leb, ◌==◌, Bool-cases, Option-cases, ap, ◌∙◌, sym, subst,
}
use nyan_real_vdd.Device.{Device, Slot, empty_slot, NtStatus, nt_success, OsResult-cases}
use nyan_real_vdd.Device.Capture.{has_owner, attach, open_capture}
use nyan_real_vdd.Device.Capture.Laws.{Opening, opening}
use nyan_real_vdd.Device.System.{slots-pet_watchdog}
use nyan_real_vdd.FrameShare.Channel.{CreateEnv}
use nyan_real_vdd.Driver.Ioctl.{
  Request, get_status_request, open_capture_request, IoctlEnv, Answer, capture_answer,
  status_answer, plug_answer, list_answer, nothing, serve, complete, io_device_control,
}
use nyan_real_vdd.Driver.Ioctl.Laws.{capture_result-device, capture_result-status}
use nyan_real_vdd.Cli.{ControlResult, answered, refused}
use nyan_real_vdd.Cli.Drive.{drive}
use nyan_real_vdd.Probe.Connect.{
  ConnectEnv, Connected, connected, throws, is_capture_driver, after_capture, after_status, connect,
}

-- The caller is authorized, and the driver has it down as the owner of a monitor's capture.
pub record IsOwner (env : IoctlEnv) (slots : List Slot) : Type 0 where
  pub authorized : env.authorized ≡ true
  pub open_file : env.closing ≡ false
  pub file : ℕ
  pub object : env.file_object ≡ some file
  pub owns : has_owner file slots ≡ true

has_owner-set :
    (o i : ℕ) (ss : List Slot) (s : Slot)
    → i < length ss
    → has_owner o (set ss i (record s { capture_owner = some o })) ≡ true
unfolding has_owner
has_owner-set o i [] s lt = absurd (omega arith)
has_owner-set o zero (x ∷ ss) s lt = ground arith
has_owner-set o (suc i) (x ∷ ss) s lt = let e = has_owner-set o i ss s (omega arith) in ground arith

Opening-owns :
    (cookie file : ℕ) (env : CreateEnv) (d : Device)
    → Opening cookie file env d
    → nt_success (open_capture cookie (some file) false env d).0 ≡ true
    → has_owner file (open_capture cookie (some file) false env d).2.slots ≡ true
unfolding attach
Opening-owns cookie file env d (Opening.opens i ch given found lt arrived live new e) h =
    rw e (has_owner-set file i d.slots (get_or d.slots i empty_slot) lt)
Opening-owns cookie file env d (Opening.declines f same) h =
    let x : true ≡ false = sym h ∙ f in absurd cc

-- OpenCapture succeeds only for an open file object, which then owns a capture.
opened-owns :
    (cookie : ℕ) (object : Option ℕ) (closing : Bool) (env : CreateEnv) (d : Device)
    → nt_success (open_capture cookie object closing env d).0 ≡ true
    → (closing ≡ false)
      × ((file : ℕ) × (object ≡ some file)
          × (has_owner file (open_capture cookie object closing env d).2.slots ≡ true))
unfolding open_capture
opened-owns cookie none closing env d h = absurd cc
opened-owns cookie (some file) true env d h = elim (Bool-cases (cookie == 0)) [
  | inl null ↦ absurd (ground (arith, h))
  | inr given ↦ absurd (ground (arith, h))
]
opened-owns cookie (some file) false env d h =
    (refl, (file, refl, Opening-owns cookie file env d (opening cookie file env d) h))

complete-status : (now : ℕ) (r : NtStatus × Answer × Device) → (complete now r).0 ≡ r.0
unfolding complete
complete-status now (status, answer, d) = refl

complete-slots : (now : ℕ) (r : NtStatus × Answer × Device) → (complete now r).2.slots ≡ r.2.slots
unfolding complete
complete-slots now (status, answer, d) = ground (arith, slots-pet_watchdog now d)

-- A request for a capture that succeeds.
serve-IsOwner :
    (env : IoctlEnv) (cookie : ℕ) (d : Device)
    → nt_success (serve env (open_capture_request cookie) d).0 ≡ true
    → IsOwner env (serve env (open_capture_request cookie) d).2.slots
unfolding serve
serve-IsOwner env cookie d h = elim (OsResult-cases env.input) [
  | inr (e, bad) ↦ let x : false ≡ true = (simp bad at h) in absurd cc
  | inl ok ↦ elim (OsResult-cases env.output) [
    | inr (e, bad) ↦ let x : false ≡ true = (simp (ok, bad) at h) in absurd cc
    | inl ok' ↦ elim (OsResult-cases env.impersonate) [
      | inr (e, bad) ↦ let x : false ≡ true = (simp (ok, ok', bad) at h) in absurd cc
      | inl ok'' ↦ elim (Bool-cases env.authorized) [
        | inr no_right ↦ let x : false ≡ true = (simp (ok, ok', ok'', no_right) at h) in absurd cc
        | inl right ↦
            let r = open_capture cookie env.file_object env.closing env.channel d in
            let (open_file, (file, object, owns)) =
              opened-owns cookie env.file_object env.closing env.channel d
                (simp (ok, ok', ok'', right, capture_result-status r) at h) in
            simp (ok, ok', ok'', right, capture_result-device r)
              (record {
                authorized = right;
                open_file = open_file;
                file = file;
                object = object;
                owns = owns;
              })
      ]
    ]
  ]
]

request-IsOwner :
    (env : IoctlEnv) (cookie : ℕ) (d : Device)
    → nt_success (io_device_control env (open_capture_request cookie) d).0 ≡ true
    → IsOwner env (io_device_control env (open_capture_request cookie) d).2.slots
unfolding io_device_control
request-IsOwner env cookie d h =
    let r = serve env (open_capture_request cookie) d in
    subst (IsOwner env) (sym (complete-slots env.pet_now r))
      (serve-IsOwner env cookie d (ap nt_success (sym (complete-status env.pet_now r)) ∙ h))

-- A connection is one of an owner, or there is none.
pub IsGranted : IoctlEnv → Connected × List Request × Device → Type 0
IsGranted env (connected name m, sent, d) = IsOwner env d.slots
IsGranted env (throws e, sent, d) = Unit

owner-IsGranted :
    (env : IoctlEnv) (x : Connected) (sent : List Request) (d : Device)
    → IsOwner env d.slots
    → IsGranted env (x, sent, d)
unfolding IsGranted
owner-IsGranted env (connected name m) sent d h = h
owner-IsGranted env (throws e) sent d h = tt

module _ (env : Request → IoctlEnv) (error_of : NtStatus → ℕ) (windows : ConnectEnv)
    (cookie : ℕ) where
  control : Request → Device → ControlResult × Device
  control = drive env error_of

  answered-IsGranted :
      (x : ControlResult) (sent : List Request) (d : Device)
      → IsOwner (env (open_capture_request cookie)) d.slots
      → IsGranted (env (open_capture_request cookie)) (after_capture control windows (x, d) sent)
  unfolding after_capture IsGranted
  answered-IsGranted (refused e) sent d h = tt
  answered-IsGranted (answered (capture_answer name)) sent d h =
      owner-IsGranted (env (open_capture_request cookie)) _ sent d h
  answered-IsGranted (answered (status_answer s)) sent d h = tt
  answered-IsGranted (answered (plug_answer k)) sent d h = tt
  answered-IsGranted (answered (list_answer ms)) sent d h = tt
  answered-IsGranted (answered nothing) sent d h = tt

  asked-IsGranted :
      (sent : List Request) (d : Device)
      → IsGranted
          (env (open_capture_request cookie))
          (after_capture control windows (control (open_capture_request cookie) d) sent)
  unfolding control drive after_capture IsGranted
  asked-IsGranted sent d =
      let r =
        io_device_control (env (open_capture_request cookie)) (open_capture_request cookie) d in
      elim (Bool-cases (nt_success r.0)) [
        | inr failed ↦ simp failed tt
        | inl ok ↦ simp ok (
            answered-IsGranted (answered r.1) sent r.2
              (request-IsOwner (env (open_capture_request cookie)) cookie d ok))
      ]

  status-IsGranted :
      (x : ControlResult) (d : Device)
      → IsGranted (env (open_capture_request cookie)) (after_status control windows cookie (x, d))
  unfolding after_status IsGranted
  status-IsGranted (refused e) d = tt
  status-IsGranted (answered (capture_answer name)) d = tt
  status-IsGranted (answered (plug_answer k)) d = tt
  status-IsGranted (answered (list_answer ms)) d = tt
  status-IsGranted (answered nothing) d = tt
  status-IsGranted (answered (status_answer s)) d = elim (Bool-cases (is_capture_driver s)) [
    | inr other ↦ simp other tt
    | inl ours ↦ simp ours (asked-IsGranted _ d)
  ]

  granted :
      (d : Device)
      → IsGranted (env (open_capture_request cookie)) (connect control windows cookie d)
  unfolding connect IsGranted
  granted d = elim (Bool-cases (not windows.list_size_ok || not (leb 2 windows.list_size))) [
    | inl empty ↦ simp empty tt
    | inr found ↦ elim (Bool-cases windows.list_ok) [
      | inr bad ↦ simp (found, bad) tt
      | inl listed ↦ elim (Option-cases windows.open_device) [
        | inr (e, refusal) ↦ simp (found, listed, refusal) tt
        | inl opened ↦
            simp (found, listed, opened)
              (status-IsGranted (control get_status_request d).0 (control get_status_request d).1)
      ]
    ]
  ]

-- A reader that connects to the driver passed the access check with an open file object, and the driver has this
-- file down as the owner of a monitor's capture; whatever the framework and Windows answer.
pub connect-IsGranted :
    (env : Request → IoctlEnv) (error_of : NtStatus → ℕ) (windows : ConnectEnv) (cookie : ℕ)
    (d : Device)
    → IsGranted (env (open_capture_request cookie)) (connect (drive env error_of) windows cookie d)
unfolding control
connect-IsGranted env error_of windows cookie d = granted env error_of windows cookie d
