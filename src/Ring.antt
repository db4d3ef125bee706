-- ===== src/Ring.antt =====
-- The shared ring as one system: the publisher (FramePublisher::Publish, driver/src/FrameShare.cpp) and the
-- reader (SharedReader::Poll, tools/dirty-probe/capture_bench.cpp) on three textures with keyed mutexes.
-- Windows' keyed mutex has one owner; a key is given at the release and asked for by AcquireSync. A step is
-- one call of Publish or one round of Poll's loop, in any order, and a mutex may time out at any moment.
pub mod Invariant
pub mod Writes
pub mod Publish
pub mod Slot
pub mod Handover
pub mod Poll
pub mod Interleaved
pub mod CatchUp
pub mod Progress
use nyan_real_vdd.Base.{
  ℕ, zero, suc, ◌+◌, ◌%◌, ◌^◌, ◌<◌, ◌≡◌, Bool, true, false, not, ◌&&◌, ◌||◌, Option, none, some,
  List, [], ◌∷◌, get_or, ltb, leb, ◌==◌, if◌then◌else◌,
}
use nyan_real_vdd.FrameShare.Channel.{Channel, active, stop, fail, no_capture_slot}
use nyan_real_vdd.FrameShare.Publisher.{
  Publisher, PublishEnv, SyncResult, sync_ok, sync_timeout, sync_failed, publish, capture_slots,
}
use nyan_real_vdd.Probe.Reader.{Reader, PollEnv, goes_on, is_held, poll_slot, new_reader}

-- A mutex: released with key 0, released with key 1, or owned by a side.
pub data Key : Type 0 where
  writable readable by_publisher by_reader : Key

-- The two sides, the mutex and the contents of each texture, and the contents of each publication by its
-- number, which nobody reads.
pub record Ring : Type 0 where
  pub publisher : Publisher
  pub channel : Channel
  pub reader : Reader
  pub mutex : ℕ → Key
  pub texture : ℕ → ℕ
  pub frames : ℕ → ℕ

abbrev pub put {ℓ} : {A : Type ℓ} → (ℕ → A) → ℕ → A → ℕ → A
put f i v j = if j == i then v else f j

-- Meta->Slots[i].Sequence
abbrev pub sequence_at : Channel → ℕ → ℕ
sequence_at c i = (get_or c.meta.slots i no_capture_slot).sequence

-- The slot whose mutex a publication acquires, among `left` attempts from attempt `k` on.
unfoldable pub chosen : PublishEnv → ℕ → ℕ → Publisher → Option ℕ
chosen env zero k p = none
chosen env (suc left) k p =
    let i = (p.next + k) % capture_slots in
    let rest = chosen env left (suc k) p in
    elim (env.acquire i) [ sync_timeout ↦ rest | sync_failed e ↦ none | sync_ok ↦ some i ]

-- The channel is active and the frame has the publisher's size and format.
abbrev pub takes_frame : PublishEnv → Publisher → Channel → Bool
takes_frame env p c =
    active c && (env.width == p.width && (env.height == p.height && env.format == p.format))

unfoldable pub written_slot : PublishEnv → Publisher → Channel → Option ℕ
written_slot env p c = if takes_frame env p c then chosen env capture_slots 0 p else none

-- ReleaseSync(1) by the publisher.
abbrev pub released_key : SyncResult → Key
released_key (sync_failed e) = by_publisher
released_key sync_ok = readable
released_key sync_timeout = readable

-- The keyed mutexes and the textures after a publication of `content`.
abbrev pub with_written : PublishEnv → ℕ → Option ℕ → Ring → Ring
with_written env content none s = s
with_written env content (some i) s = record s {
  mutex = put s.mutex i (released_key env.release);
  texture = put s.texture i content;
  frames = put s.frames s.publisher.sequence content;
}

-- One call of Publish.
unfoldable pub publish_in : PublishEnv → ℕ → Ring → Ring
publish_in env content s =
    let (result, p, c) = publish env s.publisher s.channel in
    with_written env content (written_slot env s.publisher s.channel)
      (record s { publisher = p; channel = c })

-- AcquireSync(1) succeeded on slot `i`: the mutexes after the rest of the round.
abbrev pub handed_over : ℕ → Option ℕ → (ℕ → Key) → ℕ → Key
handed_over i none keys = put keys i by_reader
handed_over i (some h) keys = put (put keys i by_reader) h writable

abbrev pub on_key : SyncResult → PollEnv → ℕ → Reader → (ℕ → Key) → ℕ → Key
on_key sync_ok env i r keys =
    if ltb r.sequence (env.read i) then handed_over i r.held keys else put keys i writable
on_key sync_timeout env i r keys = keys
on_key (sync_failed e) env i r keys = keys

-- The keyed mutexes after a round of Poll that does not throw.
unfoldable pub polled_keys : PollEnv → ℕ → Reader → (ℕ → Key) → ℕ → Key
polled_keys env i r keys =
    if is_held i r.held || leb (env.seen i) (get_or r.returned i 0)
    then keys
    else on_key (env.acquire i) env i r keys

-- A keyed mutex is acquired with the key that it was released with.
pub record PublishHonest (env : PublishEnv) (s : Ring) : Type 0 where
  pub free : (i : ℕ) → env.acquire i ≡ sync_ok → s.mutex i ≡ writable

-- The same for the reader, which reads the number of the slot under the mutex.
pub record PollHonest (env : PollEnv) (s : Ring) (i : ℕ) : Type 0 where
  pub free : env.acquire i ≡ sync_ok → s.mutex i ≡ readable
  pub current : env.read i ≡ sequence_at s.channel i

-- A step of the system; the number of a publication stays below 2^63.
pub data Step : Ring → Ring → Type 0 where
  publishes :
      (s : Ring) (env : PublishEnv) (content : ℕ)
      → PublishHonest env s
      → suc s.publisher.sequence < 2 ^ 63
      → Step s (publish_in env content s)
  polls :
      (s : Ring) (env : PollEnv) (i : ℕ) (changed changed' : Bool) (r : Reader)
      → i < capture_slots
      → PollHonest env s i
      → poll_slot env i changed s.reader ≡ goes_on changed' r
      → Step s (record s { reader = r; mutex = polled_keys env i s.reader s.mutex })
  stops : (s : Ring) → Step s (record s { channel = stop s.channel })
  fails : (s : Ring) (error : ℕ) → Step s (record s { channel = fail error s.channel })

-- The ring of a new publisher and a new reader; every texture has its first contents.
abbrev pub new_ring : Publisher → Channel → ℕ → Ring
new_ring p c content = record {
  publisher = p;
  channel = c;
  reader = new_reader;
  mutex = λ i. writable;
  texture = λ i. content;
  frames = λ n. content;
}

-- The publisher and the channel are as Init leaves them.
pub record IsFresh (p : Publisher) (c : Channel) : Type 0 where
  pub next : p.next ≡ 0
  pub sequence : p.sequence ≡ 0
  pub slots : c.meta.slots ≡ no_capture_slot ∷ no_capture_slot ∷ no_capture_slot ∷ []

pub data Reach : Ring → Type 0 where
  starts : (p : Publisher) (c : Channel) (content : ℕ) → IsFresh p c → Reach (new_ring p c content)
  steps : (s s' : Ring) → Reach s → Step s s' → Reach s'
