-- ===== src/Probe/Connect/Laws.antt =====
-- A capture is asked for only of a driver that speaks the version and has the capability.
use nyan_real_vdd.Base.{
  ℕ, ◌≡◌, inl, inr, refl, true, not, ◌||◌, List, [], ◌∷◌, leb, Bool-cases, Option-cases,
}
use nyan_real_vdd.Protocol.{StatusOut}
use nyan_real_vdd.Driver.Ioctl.{
  Request, get_status_request, open_capture_request, status_answer, capture_answer, nothing,
  plug_answer, list_answer,
}
use nyan_real_vdd.Cli.{ControlResult, answered, refused}
use nyan_real_vdd.Probe.Connect.{
  ConnectEnv, is_capture_driver, after_capture, after_status, connect,
}

module _ {ℓ} {D : Type ℓ} (control : Request → D → ControlResult × D) (env : ConnectEnv)
    (cookie : ℕ) where
  -- The requests of a connection that began in the driver state `d`, the latest first.
  pub data StatusFirst (x : ControlResult × D) : List Request → Type ℓ where
    silent : StatusFirst x []
    status_only : StatusFirst x (get_status_request ∷ [])
    capture_asked :
        (s : StatusOut) (d : D)
        → x ≡ (answered (status_answer s), d)
        → is_capture_driver s ≡ true
        → StatusFirst x (open_capture_request cookie ∷ get_status_request ∷ [])

  sent-after_capture :
      (x : ControlResult × D) (sent : List Request) → (after_capture control env x sent).1 ≡ sent
  unfolding after_capture
  sent-after_capture (refused e, d) sent = refl
  sent-after_capture (answered (capture_answer name), d) sent = refl
  sent-after_capture (answered (status_answer s), d) sent = refl
  sent-after_capture (answered (plug_answer k), d) sent = refl
  sent-after_capture (answered (list_answer ms), d) sent = refl
  sent-after_capture (answered nothing, d) sent = refl

  after_status-StatusFirst :
      (x : ControlResult × D) → StatusFirst x (after_status control env cookie x).1
  unfolding after_status
  after_status-StatusFirst (refused e, d) = status_only
  after_status-StatusFirst (answered (capture_answer name), d) = status_only
  after_status-StatusFirst (answered (plug_answer k), d) = status_only
  after_status-StatusFirst (answered (list_answer ms), d) = status_only
  after_status-StatusFirst (answered nothing, d) = status_only
  after_status-StatusFirst (answered (status_answer s), d) =
      elim (Bool-cases (is_capture_driver s)) [
        | inr other ↦ simp other status_only
        | inl ours ↦
            simp (ours, sent-after_capture (control (open_capture_request cookie) d) _)
              (capture_asked s d refl ours)
      ]

  -- A connection sends nothing, or the status request, or after it the capture request to a driver whose
  -- status has protocol version 4 and the capability of shared captures.
  pub connect-StatusFirst :
      (d : D) → StatusFirst (control get_status_request d) (connect control env cookie d).1
  unfolding connect
  connect-StatusFirst d = elim (Bool-cases (not env.list_size_ok || not (leb 2 env.list_size))) [
    | inl empty ↦ simp empty silent
    | inr found ↦ elim (Bool-cases env.list_ok) [
      | inr bad ↦ simp (found, bad) silent
      | inl listed ↦ elim (Option-cases env.open_device) [
        | inr (e, refusal) ↦ simp (found, listed, refusal) silent
        | inl opened ↦
            simp (found, listed, opened) (after_status-StatusFirst (control get_status_request d))
      ]
    ]
  ]
