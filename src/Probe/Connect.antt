-- ===== src/Probe/Connect.antt =====
-- SharedReader::Connect (tools/dirty-probe/capture_bench.cpp): the requests of a capture client, and
-- the mapping of the channel's metadata.
pub mod Laws
pub mod Granted
use nyan_real_vdd.Base.{
  ℕ, Bool, not, ◌||◌, ◌&&◌, Option, none, some, List, [], ◌∷◌, ◌==◌, leb, if◌then◌else◌, get_or,
}
use nyan_real_vdd.Base.Bits.{has_bit}
use nyan_real_vdd.Protocol.{StatusOut, cap_shared_capture}
use nyan_real_vdd.FrameShare.Channel.{Metadata}
use nyan_real_vdd.Driver.Ioctl.{
  Request, get_status_request, open_capture_request, status_answer, capture_answer,
}
use nyan_real_vdd.Cli.{ControlResult, answered, refused}

-- NYANVDD_CAPTURE_NAME_CHARS
abbrev pub capture_name_chars : ℕ
capture_name_chars = 96

-- E_NOINTERFACE, E_FAIL and E_INVALIDARG, and HRESULT_FROM_WIN32 of an error code.
pub data ConnectError : Type 0 where
  no_interface fail_code invalid_argument : ConnectError
  win32 : ℕ → ConnectError

-- What Windows answers: the interface list, the device handle, the mapping and the view, each an error
-- code or, for the view, the metadata.
pub record ConnectEnv : Type 0 where
  pub list_size_ok : Bool
  pub list_size : ℕ
  pub list_ok : Bool
  pub open_device : Option ℕ
  pub open_mapping : Option ℕ
  pub view_error : ℕ
  pub view : Option Metadata

-- A connection, or what Check throws; with the requests that were sent, the latest first, and the
-- driver's state.
pub data Connected : Type 0 where
  connected : List ℕ → Metadata → Connected
  throws : ConnectError → Connected

-- A driver that the reader understands.
abbrev pub is_capture_driver : StatusOut → Bool
is_capture_driver s = s.protocol_version == 4 && has_bit s.cap_flags cap_shared_capture

-- The name has its terminator in the last place.
abbrev name_fits : List ℕ → Bool
name_fits name = get_or name 95 0 == 0

-- From the name of the channel on.
unfoldable pub map_view : ConnectEnv → List ℕ → Connected
map_view env name = elim env.open_mapping [
  | some e ↦ throws (win32 e)
  | none ↦ elim env.view [
    | none ↦ throws (win32 env.view_error)
    | some m ↦ if not (m.protocol_version == 4) then throws no_interface else connected name m
  ]
]

module _ {ℓ} {D : Type ℓ} (control : Request → D → ControlResult × D) where
  -- From the answer to the capture request on.
  unfoldable pub after_capture :
      ConnectEnv → ControlResult × D → List Request → Connected × List Request × D
  after_capture env (refused e, d) sent = (throws (win32 e), sent, d)
  after_capture env (answered (capture_answer name), d) sent =
      (if name_fits name then map_view env name else throws invalid_argument, sent, d)
  after_capture env (answered _, d) sent = (throws invalid_argument, sent, d)

  -- From the answer to the status request on. Another answer has another length.
  unfoldable pub after_status : ConnectEnv → ℕ → ControlResult × D → Connected × List Request × D
  after_status env cookie (refused e, d) = (throws (win32 e), get_status_request ∷ [], d)
  after_status env cookie (answered (status_answer s), d) =
      if is_capture_driver s
      then after_capture env (control (open_capture_request cookie) d)
          (open_capture_request cookie ∷ get_status_request ∷ [])
      else (throws no_interface, get_status_request ∷ [], d)
  after_status env cookie (answered _, d) = (throws no_interface, get_status_request ∷ [], d)

  -- Connect
  unfoldable pub connect : ConnectEnv → ℕ → D → Connected × List Request × D
  connect env cookie d =
      if not env.list_size_ok || not (leb 2 env.list_size)
      then (throws (win32 1168), [], d)
      else if not env.list_ok
      then (throws fail_code, [], d)
      else elim env.open_device [
        | some e ↦ (throws (win32 e), [], d)
        | none ↦ after_status env cookie (control get_status_request d)
      ]
