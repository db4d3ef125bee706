-- ===== src/Probe/Reader.antt =====
-- SharedReader::Poll and SharedReader::Import (tools/dirty-probe/capture_bench.cpp): the reader of the
-- ring of shared textures. A sequence number is kept as a natural number.
pub mod Laws
pub mod Newest
pub mod Round
use nyan_real_vdd.Base.{
  ℕ, zero, suc, Bool, true, false, not, ◌||◌, ◌&&◌, Option, none, some, List, [], ◌∷◌, get_or, set,
  ltb, leb, ◌==◌, if◌then◌else◌,
}
use nyan_real_vdd.FrameShare.Channel.{CaptureState, waiting, ready, stopped, failed, Metadata}
use nyan_real_vdd.FrameShare.Publisher.{
  SyncResult, sync_ok, sync_timeout, sync_failed, capture_slots,
}

-- The members of SharedReader that Poll uses. `leased` says of each slot whether the reader owns its
-- mutex.
pub record Reader : Type 0 where
  pub held : Option ℕ
  pub sequence : ℕ
  pub returned : List ℕ
  pub leased : List Bool

abbrev pub new_reader : Reader
new_reader = record {
  held = none;
  sequence = 0;
  returned = 0 ∷ 0 ∷ 0 ∷ [];
  leased = false ∷ false ∷ false ∷ [];
}

-- What the metadata and the mutexes answer, slot by slot: the sequence number before the mutex is
-- asked for, the mutex, the number under it, and the error of a release that fails.
pub record PollEnv : Type 0 where
  pub seen : ℕ → ℕ
  pub acquire : ℕ → SyncResult
  pub read : ℕ → ℕ
  pub release : ℕ → Option ℕ

-- The loop goes on with `Changed`, or Check throws.
pub data Polled : Type 0 where
  goes_on : Bool → Reader → Polled
  throws : ℕ → Reader → Polled

-- `Check` of a release, and what follows it.
abbrev pub check_release : Option ℕ → Reader → Polled → Polled
check_release none r next = next
check_release (some e) r next = throws e r

abbrev pub lease : ℕ → Reader → Reader
lease i r = record r { leased = set r.leased i true }

-- ReleaseSync of slot `i`, and `Returned[i] = sequence`.
abbrev pub give_back : ℕ → ℕ → Reader → Reader
give_back i sequence r = record r {
  leased = set r.leased i false;
  returned = set r.returned i sequence;
}

abbrev pub retain : ℕ → ℕ → Reader → Reader
retain i sequence r = record r { held = some i; sequence = sequence }

-- The newer frame takes the place of the one that is held.
unfoldable pub replace_held : PollEnv → ℕ → Option ℕ → Reader → Polled
replace_held env i none r = goes_on true (retain i (env.read i) r)
replace_held env i (some h) r =
    check_release (env.release h) r
      (goes_on true (retain i (env.read i) (give_back h r.sequence r)))

-- The mutex of slot `i` was acquired.
unfoldable pub on_acquired : PollEnv → ℕ → Bool → Reader → Polled
on_acquired env i changed r =
    if ltb r.sequence (env.read i)
    then replace_held env i r.held r
    else check_release (env.release i) r (goes_on changed (give_back i (env.read i) r))

unfoldable pub on_answer : SyncResult → PollEnv → ℕ → Bool → Reader → Polled
on_answer sync_ok env i changed r = on_acquired env i changed (lease i r)
on_answer sync_timeout env i changed r = goes_on changed r
on_answer (sync_failed e) env i changed r = throws e r

abbrev pub is_held : ℕ → Option ℕ → Bool
is_held i none = false
is_held i (some h) = i == h

-- The body of the loop.
unfoldable pub poll_slot : PollEnv → ℕ → Bool → Reader → Polled
poll_slot env i changed r =
    if is_held i r.held || leb (env.seen i) (get_or r.returned i 0)
    then goes_on changed r
    else on_answer (env.acquire i) env i changed r

abbrev pub and_then : Polled → (Bool → Reader → Polled) → Polled
and_then (goes_on changed r) next = next changed r
and_then (throws e r) next = throws e r

-- The loop, `left` slots from slot `i` on.
unfoldable pub poll_from : PollEnv → ℕ → ℕ → Bool → Reader → Polled
poll_from env zero i changed r = goes_on changed r
poll_from env (suc left) i changed r =
    and_then (poll_slot env i changed r) (poll_from env left (suc i))

-- Poll
unfoldable pub poll : PollEnv → Reader → Polled
poll env r = poll_from env capture_slots 0 false r

-- DXGI_ERROR_ACCESS_LOST, DXGI_ERROR_UNSUPPORTED and E_INVALIDARG
abbrev pub access_lost : ℕ
access_lost = 0x887A0026

abbrev pub unsupported : ℕ
unsupported = 0x887A0004

abbrev pub invalid_argument : ℕ
invalid_argument = 0x80070057

-- FAILED
abbrev pub is_failure : ℕ → Bool
is_failure hr = leb 0x80000000 hr

-- What Direct3D answers to Import: an error of the calls about the adapter, the adapter's LUID, and of
-- each slot's texture an error, or its width, height and whether its format is B8G8R8A8.
pub record ImportEnv : Type 0 where
  pub adapter_error : Option ℕ
  pub adapter_luid : ℕ
  pub texture : ℕ → Option ℕ
  pub width : ℕ → ℕ
  pub height : ℕ → ℕ
  pub is_bgra : ℕ → Bool
  pub views : ℕ → Option ℕ

-- False, true with the slots that have a texture now, or the error that Check throws.
pub data Imported : Type 0 where
  not_ready : Imported
  imported : Imported
  import_throws : ℕ → Imported

abbrev check_import : Option ℕ → Imported → Imported
check_import none next = next
check_import (some e) next = import_throws e

-- The loop of Import.
unfoldable pub import_slots : ImportEnv → Metadata → ℕ → ℕ → Imported
import_slots env m zero i = imported
import_slots env m (suc left) i =
    let rest = import_slots env m left (suc i) in
    check_import (env.texture i) (
      if not (env.width i == m.width) || (not (env.height i == m.height) || not (env.is_bgra i))
      then import_throws invalid_argument
      else check_import (env.views i) rest)

-- Import once the metadata is ready; the flag says whether the first texture is there already.
unfoldable pub import_ready : ImportEnv → Metadata → Bool → Imported
import_ready env m true = imported
import_ready env m false = check_import env.adapter_error (
    if not (env.adapter_luid == m.adapter_luid)
    then import_throws unsupported
    else import_slots env m capture_slots 0)

abbrev import_lost : Metadata → Imported
import_lost m = import_throws (if is_failure m.error then m.error else access_lost)

-- Import
unfoldable pub import_textures : CaptureState → ImportEnv → Metadata → Bool → Imported
import_textures waiting env m has_textures = not_ready
import_textures ready env m has_textures = import_ready env m has_textures
import_textures stopped env m has_textures = import_lost m
import_textures failed env m has_textures = import_lost m
