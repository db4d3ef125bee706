-- ===== src/Ring/Poll.antt =====
-- A round of the reader's loop keeps the invariant of the ring.
use nyan_real_vdd.Base.{
  ℕ, ◌<◌, ◌≤◌, ◌≡◌, refl, Bool, ◌||◌, inl, inr, Option, none, some, get_or, ltb, leb, arith,
  Bool-cases, Option-cases, sym, subst, if◌then◌else◌,
}
use nyan_real_vdd.FrameShare.Publisher.{sync_ok, capture_slots}
use nyan_real_vdd.FrameShare.Publisher.Laws.{SyncResult-cases}
use nyan_real_vdd.Probe.Reader.{
  PollEnv, Polled, goes_on, throws, lease, give_back, replace_held, on_acquired, on_answer, is_held,
  poll_slot,
}
use nyan_real_vdd.Ring.{
  Key, writable, readable, Ring, put, sequence_at, handed_over, polled_keys, PollHonest,
}
use nyan_real_vdd.Ring.Invariant.{RingOk}
use nyan_real_vdd.Ring.Handover.{given_back, first_taken, next_reader, next_keys, then_taken}

-- The ring after a round that does not throw.
abbrev pub Keeps : Ring → (ℕ → Key) → Polled → Type 0
Keeps s keys (goes_on changed r) = RingOk (record s { reader = r; mutex = keys })
Keeps s keys (throws e r) = Unit

module _ (s : Ring) (env : PollEnv) (i : ℕ) (v : RingOk s) (lt : i < capture_slots)
    (honest : PollHonest env s i) where
  replaced-Keeps :
      (held : Option ℕ)
      → s.reader.held ≡ held
      → s.mutex i ≡ readable
      → s.reader.sequence < sequence_at s.channel i
      → Keeps s (handed_over i held s.mutex) (replace_held env i held (lease i s.reader))
  unfolding replace_held next_reader next_keys
  replaced-Keeps none e free newer = rw honest.current (first_taken s i v lt free newer e)
  replaced-Keeps (some h) e free newer = elim (Option-cases (env.release h)) [
    | inr (error, fails) ↦ simp fails tt
    | inl fine ↦ simp (fine, honest.current) (then_taken s i v lt free newer h e)
  ]

  acquired-Keeps :
      (changed : Bool)
      → env.acquire i ≡ sync_ok
      → Keeps s
          (if ltb s.reader.sequence (env.read i)
            then handed_over i s.reader.held s.mutex
            else put s.mutex i writable)
          (on_acquired env i changed (lease i s.reader))
  unfolding on_acquired
  acquired-Keeps changed ok = elim (Bool-cases (ltb s.reader.sequence (env.read i))) [
    | inl newer ↦
        let n : s.reader.sequence < env.read i = ground arith in
        simp newer (
          replaced-Keeps s.reader.held refl (honest.free ok)
            (subst (λ x. s.reader.sequence < x) honest.current n))
    | inr older ↦ elim (Option-cases (env.release i)) [
      | inr (error, fails) ↦ simp (older, fails) tt
      | inl fine ↦
          let n : env.read i ≤ s.reader.sequence = ground arith in
          simp (older, fine)
            (subst
              (λ x. RingOk (record s {
                reader = give_back i x (lease i s.reader);
                mutex = put s.mutex i writable;
              }))
              (sym honest.current)
              (given_back s i v lt (honest.free ok)
                (subst (λ x. x ≤ s.reader.sequence) honest.current n)))
    ]
  ]

  -- A round with an honest mutex keeps the invariant, unless it throws.
  pub poll_slot-RingOk :
      (changed : Bool)
      → Keeps s (polled_keys env i s.reader s.mutex) (poll_slot env i changed s.reader)
  unfolding poll_slot on_answer polled_keys
  poll_slot-RingOk changed =
      elim (Bool-cases
        (is_held i s.reader.held || leb (env.seen i) (get_or s.reader.returned i 0))) [
          | inl skipped ↦ simp skipped v
          | inr asked ↦ elim (SyncResult-cases (env.acquire i)) [
            | inl ok ↦ simp (asked, ok) (acquired-Keeps changed ok)
            | inr (inl busy) ↦ simp (asked, busy) v
            | inr (inr (e, failed)) ↦ simp (asked, failed) tt
          ]
        ]
