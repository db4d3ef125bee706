-- ===== src/Device/Capture/Laws.antt =====
-- Who may capture a monitor: one client at a time, and one monitor for each client.
use nyan_real_vdd.Base.{
  ℕ, zero, suc, ◌+◌, ◌<◌, ◌≡◌, ◌≢◌, refl, Bool, true, false, ◌&&◌, Option, none, some, List, [],
  ◌∷◌, arith, length, ◌==◌, ==_iff, Bool-cases, Option-cases, inl, inr, if◌then◌else◌, ap, ◌∙◌,
  subst, sym, get_or, set, ◌⊎◌, get_or-set_self,
}
use nyan_real_vdd.FrameShare.Channel.{
  Channel, active, create, CreateEnv, Created, CreateError, created, refused,
}
use nyan_real_vdd.FrameShare.Channel.Laws.{create-active}
use nyan_real_vdd.Device.{
  Device, Slot, empty_slot, NtStatus, success, device_busy, nt_success, update,
}
use nyan_real_vdd.Device.Slots.Laws.{Unique-others}
use nyan_real_vdd.Device.Invariant.{SlotOk, TableOk, TableOk-set, SlotOk-get_or}
use nyan_real_vdd.Device.Unplug.{channel_of}
use nyan_real_vdd.Device.Capture.{
  has_owner, find_arrived, channel_active, attach, open_at, open_capture,
}

find_arrived_lem :
    (i c : ℕ) (ss : List Slot) {j : ℕ}
    → find_arrived i c ss ≡ some j
    → (k : ℕ) × (j ≡ i + k)
      × (k < length ss)
      × ((get_or ss k empty_slot).arrived ≡ true)
      × ((get_or ss k empty_slot).params.cookie ≡ c)
unfolding find_arrived
find_arrived_lem i c [] h = cc
find_arrived_lem i c (s ∷ ss) {j} h = elim (Bool-cases (s.arrived && s.params.cookie == c)) [
  | inl here ↦ (0, ground arith, omega arith, ground arith, ground arith)
  | inr later ↦
      let (k, e, lt, a, m) = find_arrived_lem (suc i) c ss {j = j} (ground arith) in
      (suc k, omega arith, omega arith, a, m)
]

owned-SlotOk :
    (o : ℕ) (s : Slot) → SlotOk s → s.arrived ≡ true → SlotOk (record s { capture_owner = some o })
owned-SlotOk o s v a = ground arith

-- OpenCapture either stores an owner and a channel at the index of an arrived slot, or nothing.
pub data Opening (c o : ℕ) (env : CreateEnv) (d : Device) : Type 0 where
  opens :
      (i : ℕ) (ch : Channel)
      → (c == 0) ≡ false
      → find_arrived 0 c d.slots ≡ some i
      → i < length d.slots
      → (get_or d.slots i empty_slot).arrived ≡ true
      → active ch ≡ true
      → has_owner o d.slots ≡ false
      → open_capture c (some o) false env d ≡ (success, some ch.name, attach i o ch d)
      → Opening c o env d
  declines :
      nt_success (open_capture c (some o) false env d).0 ≡ false
      → (open_capture c (some o) false env d).2 ≡ d
      → Opening c o env d

pub Created-cases :
    (r : Created) → ((c : Channel) × (r ≡ created c)) ⊎ ((e : CreateError) × (r ≡ refused e))
Created-cases (created c) = inl (c, refl)
Created-cases (refused e) = inr (e, refl)

open_at-Opening :
    (c o i : ℕ) (env : CreateEnv) (d : Device)
    → (c == 0) ≡ false
    → open_capture c (some o) false env d ≡ open_at i o env d
    → find_arrived 0 c d.slots ≡ some i
    → has_owner o d.slots ≡ false
    → Opening c o env d
unfolding open_at
open_at-Opening c o i env d cookie e found new =
    let (k, at, lt, a, m) = find_arrived_lem 0 c d.slots {j = i} found in
    let same : k ≡ i = omega arith in
    let s = get_or d.slots i empty_slot in
    elim (Bool-cases (channel_active (channel_of d.bindings s) d.channels)) [
      | inl busy ↦ declines (simp (e, busy) refl) (simp (e, busy) refl)
      | inr idle ↦ elim (Created-cases (create env)) [
        | inr (r, refusal) ↦ declines (simp (e, idle, refusal) refl) (simp (e, idle, refusal) refl)
        | inl (ch, made) ↦
            opens i ch cookie found (omega arith)
              (ap (λ (x : ℕ). (get_or d.slots x empty_slot).arrived) (sym same) ∙ a)
              (create-active env made) new (e ∙ simp (idle, made) refl)
      ]
    ]

pub opening : (c o : ℕ) (env : CreateEnv) (d : Device) → Opening c o env d
unfolding open_capture open_at
opening c o env d = elim (Bool-cases (c == 0)) [
  | inl null ↦ declines (simp null refl) (simp null refl)
  | inr cookie ↦ elim (Bool-cases (has_owner o d.slots)) [
    | inl owns ↦ declines (simp (cookie, owns) refl) (simp (cookie, owns) refl)
    | inr new ↦ elim (Option-cases (find_arrived 0 c d.slots)) [
      | inl absent ↦ declines (simp (cookie, new, absent) refl) (simp (cookie, new, absent) refl)
      | inr (i, found) ↦
          open_at-Opening c o i env d cookie (simp (cookie, new, found) refl) found new
    ]
  ]
]

attach-TableOk :
    (i o : ℕ) (ch : Channel) (d : Device)
    → TableOk d.slots
    → (get_or d.slots i empty_slot).arrived ≡ true
    → TableOk (attach i o ch d).slots
unfolding attach
attach-TableOk i o ch d v a =
    TableOk-set i _ d.slots v
      (owned-SlotOk o (get_or d.slots i empty_slot) (SlotOk-get_or i d.slots v.each) a)
      (λ u. Unique-others i d.slots v.unique u)

-- OpenCapture keeps the invariant of the slot table, whoever asks and whatever the system answers.
pub open_capture-TableOk :
    (c : ℕ) (owner : Option ℕ) (closing : Bool) (env : CreateEnv) (d : Device)
    → TableOk d.slots
    → TableOk (open_capture c owner closing env d).2.slots
unfolding open_capture
open_capture-TableOk c none closing env d v = v
open_capture-TableOk c (some o) true env d v = elim (Bool-cases (c == 0)) [
  | inl null ↦ simp null v
  | inr cookie ↦ simp cookie v
]
open_capture-TableOk c (some o) false env d v = elim (opening c o env d) [
  | declines fails same ↦ subst (λ (x : Device). TableOk x.slots) (sym same) v
  | opens i ch cookie found lt a live new e ↦
      subst (λ (x : NtStatus × Option (List ℕ) × Device). TableOk x.2.slots) (sym e)
        (attach-TableOk i o ch d v a)
]

find_arrived-set :
    (j c i o : ℕ) (ss : List Slot)
    → find_arrived j c (set ss i (record (get_or ss i empty_slot) { capture_owner = some o }))
      ≡ find_arrived j c ss
unfolding find_arrived
find_arrived-set j c i o [] = refl
find_arrived-set j c zero o (s ∷ ss) = refl
find_arrived-set j c (suc i) o (s ∷ ss) =
    ap (λ (x : Option ℕ). if s.arrived && s.params.cookie == c then some j else x)
      (find_arrived-set (suc j) c i o ss)

has_owner-set :
    (i o p : ℕ) (ss : List Slot)
    → has_owner p ss ≡ false
    → o ≢ p
    → has_owner p (set ss i (record (get_or ss i empty_slot) { capture_owner = some o })) ≡ false
unfolding has_owner
has_owner-set i o p [] h n = refl
has_owner-set zero o p (s ∷ ss) h n = ground arith
has_owner-set (suc i) o p (s ∷ ss) h n = ground (arith, has_owner-set i o p ss)

update_self {ℓ} : {A : Type ℓ} (f : ℕ → A) (i : ℕ) (a : A) → update f i a i ≡ a
update_self f i a = rw ((==_iff i i).1 refl) refl

arrived_captured : (s : Slot) → SlotOk s → s.arrived ≡ true → (b : ℕ) × (s.capture ≡ some b)
arrived_captured s v a = elim (Option-cases s.capture) [
  | inr (b, e) ↦ (b, e)
  | inl e ↦ elim (Bool-cases s.used) [
    | inl u ↦ absurd (v.captured u e)
    | inr free ↦ absurd (ground (arith, ap (λ (x : Slot). x.arrived) (v.empty_unless_used free)))
  ]
]

live_at :
    (ch : Channel) (k : ℕ) (channels : ℕ → Option Channel)
    → channels k ≡ some ch
    → active ch ≡ true
    → channel_active (some k) channels ≡ true
live_at ch k channels e live = rw (e, channel_active) live

attached_channel :
    (b n : ℕ) (f : ℕ → Option ℕ) (s : Slot)
    → s.capture ≡ some b
    → channel_of (elim s.capture [ none ↦ f | some k ↦ update f k (some n) ]) s ≡ some n
attached_channel b n f s e = rw (e, channel_of) (rw e (update_self f b (some n)))

-- The channel of the slot that was opened is the new one.
attach_active :
    (i o : ℕ) (ch : Channel) (d : Device)
    → SlotOk (get_or d.slots i empty_slot)
    → i < length d.slots
    → (get_or d.slots i empty_slot).arrived ≡ true
    → active ch ≡ true
    → let d' = attach i o ch d in
      channel_active (channel_of d'.bindings (get_or d'.slots i empty_slot)) d'.channels ≡ true
unfolding attach
attach_active i o ch d v lt a live =
    let s = get_or d.slots i empty_slot in
    let d' = attach i o ch d in
    let (b, e) = arrived_captured s v a in
    ap (λ (x : Slot). channel_active (channel_of d'.bindings x) d'.channels)
      (get_or-set_self d.slots i (record s { capture_owner = some o }) empty_slot lt)
    ∙ ap (λ (x : Option ℕ). channel_active x d'.channels)
        (attached_channel b d.next_channel d.bindings s e)
    ∙ live_at ch d.next_channel d'.channels (update_self d.channels d.next_channel (some ch)) live

busy_at :
    (c p i : ℕ) (env : CreateEnv) (d : Device)
    → (c == 0) ≡ false
    → has_owner p d.slots ≡ false
    → find_arrived 0 c d.slots ≡ some i
    → channel_active (channel_of d.bindings (get_or d.slots i empty_slot)) d.channels ≡ true
    → (open_capture c (some p) false env d).0 ≡ device_busy
unfolding open_capture open_at
busy_at c p i env d cookie new found live = simp (cookie, new, found, live) refl

-- In a sound slot table, right after a client's capture of a monitor was opened, a request for the
-- same monitor by another client, which owns no capture, is refused as busy.
pub open_capture_busy :
    (c o p : ℕ) (env env' : CreateEnv) (d : Device)
    → TableOk d.slots
    → has_owner p d.slots ≡ false
    → o ≢ p
    → nt_success (open_capture c (some o) false env d).0 ≡ true
    → (open_capture c (some p) false env' (open_capture c (some o) false env d).2).0 ≡ device_busy
unfolding attach
open_capture_busy c o p env env' d v other ne h = elim (opening c o env d) [
  | declines fails same ↦ absurd (ground arith)
  | opens i ch cookie found lt a live new e ↦
      subst
        (λ (x : NtStatus × Option (List ℕ) × Device).
          (open_capture c (some p) false env' x.2).0 ≡ device_busy)
        (sym e)
        (busy_at c p i env' (attach i o ch d) cookie (has_owner-set i o p d.slots other ne)
          (find_arrived-set 0 c i o d.slots ∙ found)
          (attach_active i o ch d (SlotOk-get_or i d.slots v.each) lt a live))
]
