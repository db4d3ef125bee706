-- ===== src/Ring/Progress.antt =====
-- After a whole poll the publisher finds a free slot.
use nyan_real_vdd.Base.{
  ℕ, zero, suc, ◌+◌, ◌<◌, ◌≡◌, ◌≢◌, refl, Bool, true, false, ◌||◌, ◌⊎◌, inl, inr, Option, none,
  some, get_or, ltb, leb, ◌==◌, arith, Bool-cases, ap, ◌∙◌, sym, subst,
}
use nyan_real_vdd.FrameShare.Channel.{active}
use nyan_real_vdd.FrameShare.Publisher.{PublishEnv, nothing_done, publish, capture_slots}
use nyan_real_vdd.FrameShare.Publisher.Laws.{SyncResult-cases}
use nyan_real_vdd.Probe.Reader.{Reader, PollEnv, goes_on, is_held, poll_slot}
use nyan_real_vdd.Ring.{
  Key, writable, readable, by_publisher, by_reader, Ring, put, handed_over, polled_keys, PollHonest,
  Step, Reach,
}
use nyan_real_vdd.Ring.Invariant.{put_self, put_other, reader_owns, RingOk}
use nyan_real_vdd.Ring.Interleaved.{Reach-RingOk, PublishPrompt, skip_means_unread}
use nyan_real_vdd.Ring.CatchUp.{PollExact, readable_or_not}

-- The ring after a round of Poll's loop.
abbrev pub after_round : PollEnv → ℕ → Reader → Ring → Ring
after_round env i r s = record s { reader = r; mutex = polled_keys env i s.reader s.mutex }

-- The rounds of one poll, `left` of them from slot `i` on, with no publication between them.
pub data PollRun : ℕ → ℕ → Ring → Ring → Type 0 where
  finished : (i : ℕ) (s : Ring) → PollRun zero i s s
  polls_one :
      (left i : ℕ) (s s' : Ring) (env : PollEnv) (changed changed' : Bool) (r : Reader)
      → PollExact env s
      → poll_slot env i changed s.reader ≡ goes_on changed' r
      → PollRun left (suc i) (after_round env i r s) s'
      → PollRun (suc left) i s s'

-- A key that neither waits for the reader nor was left by the publisher.
abbrev Settled : Key → Type 0
Settled k = (k ≢ readable) × (k ≢ by_publisher)

handed_other :
    (i j : ℕ) (held : Option ℕ) (keys : ℕ → Key)
    → i ≢ j
    → (handed_over i held keys j ≡ keys j) ⊎ (handed_over i held keys j ≡ writable)
handed_other i j none keys ne = inl (put_other keys i j by_reader ne)
handed_other i j (some h) keys ne = elim (Bool-cases (h == j)) [
  | inl same ↦
      let e : h ≡ j = ground arith in
      inr (
        subst (λ x. put (put keys i by_reader) h writable x ≡ writable) e
          (put_self (put keys i by_reader) h writable))
  | inr other ↦ inl (
      put_other (put keys i by_reader) h j writable (ground arith)
      ∙ put_other keys i j by_reader ne)
]

key-Settled : (k : Key) → (k ≡ by_reader) ⊎ (k ≡ writable) → Settled k
key-Settled k (inl e) = ((λ x. absurd cc), (λ x. absurd cc))
key-Settled k (inr e) = ((λ x. absurd cc), (λ x. absurd cc))

handed_self :
    (i : ℕ) (held : Option ℕ) (keys : ℕ → Key)
    → (handed_over i held keys i ≡ by_reader) ⊎ (handed_over i held keys i ≡ writable)
handed_self i none keys = inl (put_self keys i by_reader)
handed_self i (some h) keys = elim (Bool-cases (h == i)) [
  | inl same ↦
      let e : h ≡ i = ground arith in
      inr (
        subst (λ x. put (put keys i by_reader) h writable x ≡ writable) e
          (put_self (put keys i by_reader) h writable))
  | inr other ↦
      inl (put_other (put keys i by_reader) h i writable (ground arith) ∙ put_self keys i by_reader)
]

module _ (env : PollEnv) (i : ℕ) (s : Ring) (v : RingOk s) (lt : i < capture_slots)
    (x : PollExact env s) where
  -- A round leaves the other mutexes, or releases the one that was held.
  round_other :
      (j : ℕ)
      → i ≢ j
      → (polled_keys env i s.reader s.mutex j ≡ s.mutex j)
        ⊎ (polled_keys env i s.reader s.mutex j ≡ writable)
  unfolding polled_keys
  round_other j ne =
      elim (Bool-cases
        (is_held i s.reader.held || leb (env.seen i) (get_or s.reader.returned i 0))) [
          | inl skipped ↦ simp skipped (inl refl)
          | inr asked ↦ elim (SyncResult-cases (env.acquire i)) [
            | inr (inl busy) ↦ simp (asked, busy) (inl refl)
            | inr (inr (e, failed)) ↦ simp (asked, failed) (inl refl)
            | inl ok ↦ elim (Bool-cases (ltb s.reader.sequence (env.read i))) [
              | inl newer ↦ simp (asked, ok, newer) (handed_other i j s.reader.held s.mutex ne)
              | inr older ↦ simp (asked, ok, older) (inl (put_other s.mutex i j writable ne))
            ]
          ]
        ]

  skipped_key :
      (is_held i s.reader.held || leb (env.seen i) (get_or s.reader.returned i 0)) ≡ true
      → s.mutex i ≢ readable
  skipped_key e free =
      let o = v.slot i lt in
      let unheld : is_held i s.reader.held ≡ false = sym o.owner ∙ ap reader_owns free in
      let unread = o.unread free in let seen = x.seen i in absurd (ground arith)

  -- The mutex of the slot of a round does not wait for the reader any more.
  round_self : s.mutex i ≢ by_publisher → Settled (polled_keys env i s.reader s.mutex i)
  unfolding polled_keys
  round_self mine =
      elim (Bool-cases
        (is_held i s.reader.held || leb (env.seen i) (get_or s.reader.returned i 0))) [
          | inl skipped ↦ simp skipped (skipped_key skipped, mine)
          | inr asked ↦ elim (SyncResult-cases (env.acquire i)) [
            | inr (inl busy) ↦ simp (asked, busy) ((λ r. let e = x.free i r in absurd cc), mine)
            | inr (inr (e, failed)) ↦
                simp (asked, failed) ((λ r. let f = x.free i r in absurd cc), mine)
            | inl ok ↦ elim (Bool-cases (ltb s.reader.sequence (env.read i))) [
              | inl newer ↦
                  simp (asked, ok, newer) (key-Settled _ (handed_self i s.reader.held s.mutex))
              | inr older ↦
                  simp (asked, ok, older) (key-Settled _ (inr (put_self s.mutex i writable)))
            ]
          ]
        ]

-- The slots before `i` are settled, and no slot was left by the publisher.
record Swept (i : ℕ) (s : Ring) : Type 0 where
  settled : (j : ℕ) → j < i → s.mutex j ≢ readable
  mine : (j : ℕ) → j < capture_slots → s.mutex j ≢ by_publisher

round-Swept :
    (env : PollEnv) (i : ℕ) (r : Reader) (s : Ring)
    → RingOk s
    → i < capture_slots
    → PollExact env s
    → Swept i s
    → Swept (suc i) (after_round env i r s)
round-Swept env i r s v lt x w =
    let here = round_self env i s v lt x (w.mine i lt) in
    record {
      settled = λ j ltj. elim (Bool-cases (i == j)) [
        | inl same ↦
            let e : i ≡ j = ground arith in
            subst (λ k. polled_keys env i s.reader s.mutex k ≢ readable) e here.0
        | inr other ↦ elim (round_other env i s v lt x j (ground arith)) [
          | inl kept ↦ λ e. w.settled j (ground arith) (sym kept ∙ e)
          | inr back ↦ λ e. let f : writable ≡ readable = sym back ∙ e in absurd cc
        ]
      ];
      mine = λ j ltj. elim (Bool-cases (i == j)) [
        | inl same ↦
            let e : i ≡ j = ground arith in
            subst (λ k. polled_keys env i s.reader s.mutex k ≢ by_publisher) e here.1
        | inr other ↦ elim (round_other env i s v lt x j (ground arith)) [
          | inl kept ↦ λ e. w.mine j ltj (sym kept ∙ e)
          | inr back ↦ λ e. let f : writable ≡ by_publisher = sym back ∙ e in absurd cc
        ]
      ];
    }

exact-PollHonest : (env : PollEnv) (s : Ring) (i : ℕ) → PollExact env s → PollHonest env s i
exact-PollHonest env s i x = record {
  free = λ ok. elim (readable_or_not (s.mutex i)) [
    | inl e ↦ e
    | inr other ↦ let b = x.busy i other in absurd cc
  ];
  current = x.read i;
}

run-Swept :
    (left i : ℕ) (s s' : Ring)
    → i + left ≡ capture_slots
    → Reach s
    → Swept i s
    → PollRun left i s s'
    → Reach s' × Swept capture_slots s'
run-Swept left i s s' e reached w (PollRun.finished _ _) =
    (reached, subst (λ n. Swept n s) (omega arith) w)
run-Swept left i s s' e reached w
      (PollRun.polls_one left' _ _ _ env changed changed' r x gone rest) =
    let lt : i < capture_slots = omega arith in
    run-Swept left' (suc i) (after_round env i r s) s' (omega arith)
      (Reach.steps s (after_round env i r s) reached
        (Step.polls s env i changed changed' r lt (exact-PollHonest env s i x) gone))
      (round-Swept env i r s (Reach-RingOk s reached) lt x w) rest

-- The reader holds at most one of the first two slots.
one_free : (held : Option ℕ) → (is_held 0 held ≡ false) ⊎ (is_held 1 held ≡ false)
one_free none = inl refl
one_free (some zero) = inr refl
one_free (some (suc h)) = inl (ground arith)

-- In every interleaving, once the three rounds of a poll were made with exact answers and no publication between them,
-- and no failed release had left a slot with the publisher, the next publication on the active channel is not skipped,
-- where a mutex times out only when it is not free.
pub poll_then_publish :
    (s s' : Ring) (env : PublishEnv)
    → Reach s
    → ((j : ℕ) → j < capture_slots → s.mutex j ≢ by_publisher)
    → PollRun capture_slots 0 s s'
    → PublishPrompt env s'
    → active s'.channel ≡ true
    → (publish env s'.publisher s'.channel).0 ≢ nothing_done
poll_then_publish s s' env reached mine run prompt live skipped =
    let (reached', w) =
      run-Swept capture_slots 0 s s' refl reached
        (record { settled = λ j lt. absurd (omega arith); mine = mine }) run in
    let stuck : (j : ℕ) → j < capture_slots → is_held j s'.reader.held ≡ false → ⊥ = λ j lt other.
      w.settled j lt
        (skip_means_unread s' j env reached' prompt live skipped lt other (w.mine j lt)).0 in
    elim (one_free s'.reader.held) [
      | inl other ↦ stuck 0 (omega arith) other
      | inr other ↦ stuck 1 (omega arith) other
    ]
