-- ===== src/Ring/Invariant.antt =====
-- What holds of the ring between two steps.
use nyan_real_vdd.Base.{
  ℕ, ◌<◌, ◌≤◌, ◌≡◌, ◌≢◌, refl, Bool, true, false, ◌⊎◌, none, length, get_or, ◌==◌, arith,
}
use nyan_real_vdd.FrameShare.Publisher.{capture_slots}
use nyan_real_vdd.Probe.Reader.{is_held}
use nyan_real_vdd.Probe.Reader.Laws.{HeldFits}
use nyan_real_vdd.Ring.{Key, writable, readable, by_publisher, by_reader, Ring, put, sequence_at}

pub put_self {ℓ} : {A : Type ℓ} (f : ℕ → A) (i : ℕ) (v : A) → put f i v i ≡ v
put_self f i v = let e : (i == i) ≡ true = ground arith in rw e refl

pub put_other {ℓ} : {A : Type ℓ} (f : ℕ → A) (i j : ℕ) (v : A) → i ≢ j → put f i v j ≡ f j
put_other f i j v ne = let e : (j == i) ≡ false = ground arith in rw e refl

abbrev pub reader_owns : Key → Bool
reader_owns by_reader = true
reader_owns writable = false
reader_owns readable = false
reader_owns by_publisher = false

-- One slot: the numbers that the reader gave back and that the slot carries, whose mutex it is, and
-- the contents.
pub record SlotOk (s : Ring) (j : ℕ) : Type 0 where
  pub written : sequence_at s.channel j ≤ s.publisher.sequence
  pub returned : get_or s.reader.returned j 0 ≤ s.publisher.sequence
  pub unread : s.mutex j ≡ readable → get_or s.reader.returned j 0 < sequence_at s.channel j
  pub owner : reader_owns (s.mutex j) ≡ is_held j s.reader.held
  pub shown : is_held j s.reader.held ≡ true → sequence_at s.channel j ≡ s.reader.sequence
  pub pixels : s.texture j ≡ s.frames (sequence_at s.channel j)

-- The publication `n` is in a slot that the reader has not given back.
pub record IsPending (s : Ring) (n j : ℕ) : Type 0 where
  pub small : j < capture_slots
  pub carries : sequence_at s.channel j ≡ n
  pub kept : s.mutex j ≢ writable

-- The whole ring: every slot, no number in two slots, and the last publication not given back.
pub record RingOk (s : Ring) : Type 0 where
  pub entries : length s.channel.meta.slots ≡ capture_slots
  pub returns : length s.reader.returned ≡ capture_slots
  pub next : s.publisher.next < capture_slots
  pub fits : HeldFits s.reader.held
  pub behind : s.reader.sequence ≤ s.publisher.sequence
  pub empty : s.reader.held ≡ none → s.reader.sequence ≡ 0
  pub slot : (j : ℕ) → j < capture_slots → SlotOk s j
  pub apart :
      (i j : ℕ)
      → i < capture_slots
      → j < capture_slots
      → i ≢ j
      → sequence_at s.channel i ≡ sequence_at s.channel j
      → sequence_at s.channel i ≡ 0
  pub latest : (s.publisher.sequence ≡ 0) ⊎ ((j : ℕ) × IsPending s s.publisher.sequence j)
