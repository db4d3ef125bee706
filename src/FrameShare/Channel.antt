-- ===== src/FrameShare/Channel.antt =====
-- FrameChannel (driver/src/FrameShare.h, FrameShare.cpp): the CPU-side state of a capture channel
-- with its shared metadata (include/nyanvdd_protocol.h). A channel that was created has its metadata
-- mapped, so `Meta` is never null here.
pub mod Laws
use nyan_real_vdd.Base.{
  ℕ, Bool, true, false, not, Option, none, some, List, [], ◌∷◌, ◌++◌, if◌then◌else◌,
}
use nyan_real_vdd.Protocol.{protocol_version}

-- NYANVDD_CAPTURE_WAITING, READY, STOPPED, FAILED
pub data CaptureState : Type 0 where
  waiting ready stopped failed : CaptureState

-- NYANVDD_CAPTURE_SLOT
pub record CaptureSlot : Type 0 where
  pub sequence : ℕ
  pub present_qpc : ℕ
  pub publish_qpc : ℕ

-- NYANVDD_CAPTURE_METADATA
pub record Metadata : Type 0 where
  pub protocol_version : ℕ
  pub state : CaptureState
  pub width : ℕ
  pub height : ℕ
  pub adapter_luid : ℕ
  pub source_bind_flags : ℕ
  pub source_misc_flags : ℕ
  pub error : ℕ
  pub driver_process_id : ℕ
  pub frames_seen : ℕ
  pub frames_published : ℕ
  pub frames_skipped : ℕ
  pub submit_qpc_ticks : ℕ
  pub slots : List CaptureSlot

-- FrameChannel
pub record Channel : Type 0 where
  pub name : List ℕ
  pub meta : Metadata
  pub is_stopped : Bool

-- Active
abbrev pub active : Channel → Bool
active c = not c.is_stopped

-- InterlockedCompareExchange on State: the new value is stored where the old one is `expected`.
abbrev pub exchange_waiting : CaptureState → CaptureState → CaptureState
exchange_waiting new waiting = new
exchange_waiting new s = s

abbrev pub exchange_ready : CaptureState → CaptureState → CaptureState
exchange_ready new ready = new
exchange_ready new s = s

-- FrameChannel::Stop
unfoldable pub stop : Channel → Channel
stop c = record c {
  is_stopped = true;
  meta = record (c.meta) {
    state =
        exchange_ready CaptureState.stopped (exchange_waiting CaptureState.stopped c.meta.state);
  };
}

-- FrameChannel::Fail
unfoldable pub fail : ℕ → Channel → Channel
fail error c = record c {
  is_stopped = true;
  meta = record (c.meta) { error = error; state = CaptureState.failed };
}

-- What the system calls of FrameChannel::Create answer; `some` is an error code.
pub record CreateEnv : Type 0 where
  pub alloc_fails : Bool
  pub create_guid : Option ℕ
  pub guid_text : Option (List ℕ)
  pub convert_descriptor : Option ℕ
  pub create_mapping : Option ℕ
  pub already_exists : Bool
  pub map_view : Option ℕ
  pub process_id : ℕ

-- An HRESULT that is a failure.
pub data CreateError : Type 0 where
  out_of_memory fail_code already_exists : CreateError
  system : ℕ → CreateError

pub data Created : Type 0 where
  created : Channel → Created
  refused : CreateError → Created

-- "Global\NyanVddCapture-"
abbrev name_prefix : List ℕ
name_prefix =
    b'G' ∷ b'l' ∷ b'o' ∷ b'b' ∷ b'a' ∷ b'l' ∷ b'\\' ∷ b'N' ∷ b'y' ∷ b'a' ∷ b'n' ∷ b'V' ∷ b'd' ∷ b'd'
    ∷ b'C' ∷ b'a' ∷ b'p' ∷ b't' ∷ b'u' ∷ b'r' ∷ b'e' ∷ b'-' ∷ []

abbrev pub no_capture_slot : CaptureSlot
no_capture_slot = record { sequence = 0; present_qpc = 0; publish_qpc = 0 }

abbrev pub fresh_metadata : ℕ → Metadata
fresh_metadata process_id = record {
  protocol_version = protocol_version;
  state = waiting;
  width = 0;
  height = 0;
  adapter_luid = 0;
  source_bind_flags = 0;
  source_misc_flags = 0;
  error = 0;
  driver_process_id = process_id;
  frames_seen = 0;
  frames_published = 0;
  frames_skipped = 0;
  submit_qpc_ticks = 0;
  slots = no_capture_slot ∷ no_capture_slot ∷ no_capture_slot ∷ [];
}

abbrev or_refuse : Option ℕ → Created → Created
or_refuse (some e) next = refused (system e)
or_refuse none next = next

name_channel : CreateEnv → Created
name_channel env = elim env.guid_text [
  | none ↦ refused fail_code
  | some guid ↦ or_refuse env.convert_descriptor (
      or_refuse env.create_mapping (
        if env.already_exists
        then refused CreateError.already_exists
        else or_refuse env.map_view (
            created (record {
              name = name_prefix ++ guid;
              meta = fresh_metadata env.process_id;
              is_stopped = false;
            }))))
]

-- FrameChannel::Create
unfoldable pub create : CreateEnv → Created
unfolding name_channel
create env =
    if env.alloc_fails then refused out_of_memory else or_refuse env.create_guid (name_channel env)
