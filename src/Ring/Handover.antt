-- ===== src/Ring/Handover.antt =====
-- The three ways in which a round of the reader's loop ends once it acquired a mutex.
use nyan_real_vdd.Base.{
  ℕ, ◌<◌, ◌≤◌, ◌≡◌, ◌≢◌, refl, true, false, ◌⊎◌, inl, inr, none, some, length, length-set, get_or,
  get_or-set_self, get_or-set_ne, ◌==◌, arith, Bool-cases, Option-cases, ap, ◌∙◌, sym, subst,
}
use nyan_real_vdd.FrameShare.Publisher.{capture_slots}
use nyan_real_vdd.Probe.Reader.{Reader, lease, give_back, retain, is_held}
use nyan_real_vdd.Probe.Reader.Laws.{HeldFits}
use nyan_real_vdd.Ring.{Key, writable, readable, by_reader, Ring, put, sequence_at}
use nyan_real_vdd.Ring.Invariant.{put_self, put_other, reader_owns, SlotOk, IsPending, RingOk}
use nyan_real_vdd.Ring.Slot.{kept_slot, back_slot, taken_slot}

held_is : (s : Ring) (h : ℕ) → s.reader.held ≡ some h → is_held h s.reader.held ≡ true
held_is s h e = rw e (ground arith)

-- Slot `i` was released with key 1, so it is not the one that is held.
module _ (s : Ring) (i : ℕ) (v : RingOk s) (lt : i < capture_slots)
    (free : s.mutex i ≡ readable) where
  not_held : is_held i s.reader.held ≡ false
  not_held = let o = v.slot i lt in sym o.owner ∙ ap reader_owns free

  held_other : (h : ℕ) → s.reader.held ≡ some h → i ≢ h
  held_other h e x =
      let t : is_held i s.reader.held ≡ true = rw e (ground (arith, x)) in
      let f : true ≡ false = sym t ∙ not_held in absurd cc

  unread : 0 < sequence_at s.channel i
  unread = let o = v.slot i lt in omega (arith, o.unread free)

  fits_held : (h : ℕ) → s.reader.held ≡ some h → h < capture_slots
  fits_held h e = subst HeldFits e v.fits

  shown_held : (h : ℕ) → s.reader.held ≡ some h → sequence_at s.channel h ≡ s.reader.sequence
  shown_held h e = let o = v.slot h (fits_held h e) in o.shown (held_is s h e)

  -- No other slot has the number of the frame that is held.
  not_same : sequence_at s.channel i ≢ s.reader.sequence
  not_same e = elim (Option-cases s.reader.held) [
    | inl none_held ↦ omega (arith, unread, v.empty none_held)
    | inr (h, held) ↦
        let z : sequence_at s.channel i ≡ 0 =
          v.apart i h lt (fits_held h held) (held_other h held) (e ∙ sym (shown_held h held)) in
        omega (arith, unread)
  ]

  within : i < length s.reader.returned
  within = subst (λ n. i < n) (sym v.returns) lt

  -- The last publication stays in a slot that was not given back.
  still-IsPending :
      (r : Reader) (keys : ℕ → Key)
      → ((j : ℕ) → IsPending s s.publisher.sequence j → keys j ≢ writable)
      → (s.publisher.sequence ≡ 0)
        ⊎ ((j : ℕ) × IsPending (record s { reader = r; mutex = keys }) s.publisher.sequence j)
  still-IsPending r keys k = elim v.latest [
    | inl z ↦ inl z
    | inr (j, w) ↦ inr (j, record { small = w.small; carries = w.carries; kept = k j w })
  ]

  -- The slot's frame is older than the one that is shown: it is given back at once.
  pub given_back :
      sequence_at s.channel i ≤ s.reader.sequence
      → RingOk (record s {
        reader = give_back i (sequence_at s.channel i) (lease i s.reader);
        mutex = put s.mutex i writable;
      })
  given_back older = record {
    entries = v.entries;
    returns = length-set s.reader.returned i _ ∙ v.returns;
    next = v.next;
    fits = v.fits;
    behind = v.behind;
    empty = v.empty;
    slot = λ j ltj. elim (Bool-cases (i == j)) [
      | inl same ↦
          let e : i ≡ j = ground arith in
          subst (SlotOk _) e (
            back_slot s (give_back i (sequence_at s.channel i) (lease i s.reader))
              (put s.mutex i writable) i (v.slot i lt) (put_self s.mutex i writable)
              (get_or-set_self s.reader.returned i _ 0 within) not_held)
      | inr other ↦
          let ne : i ≢ j = ground arith in
          kept_slot s _ _ j (v.slot j ltj) (put_other s.mutex i j writable ne)
            (get_or-set_ne s.reader.returned i j _ 0 ne) refl (λ h. refl)
    ];
    apart = v.apart;
    latest = still-IsPending _ _ (λ j w k. elim (Bool-cases (i == j)) [
      | inl same ↦
          let e : i ≡ j = ground arith in
          let q : sequence_at s.channel i ≡ s.publisher.sequence =
            ap (sequence_at s.channel) e ∙ w.carries in
          absurd (not_same (omega (arith, v.behind)))
      | inr other ↦ w.kept (sym (put_other s.mutex i j writable (ground arith)) ∙ k)
    ]);
  }

  -- The round keeps the frame, and gives back the one that was held.
  module _ (newer : s.reader.sequence < sequence_at s.channel i) where
    self_held : is_held i (some i) ≡ true
    self_held = ground arith

    other_held : (j : ℕ) → i ≢ j → is_held j (some i) ≡ false
    other_held j ne = ground arith

    small : get_or s.reader.returned i 0 ≤ s.publisher.sequence
    small = let o = v.slot i lt in o.returned

    behind : sequence_at s.channel i ≤ s.publisher.sequence
    behind = let o = v.slot i lt in o.written

    pub first_taken :
        s.reader.held ≡ none
        → RingOk (record s {
          reader = retain i (sequence_at s.channel i) (lease i s.reader);
          mutex = put s.mutex i by_reader;
        })
    first_taken e = record {
      entries = v.entries;
      returns = v.returns;
      next = v.next;
      fits = lt;
      behind = behind;
      empty = λ x. absurd cc;
      slot = λ j ltj. elim (Bool-cases (i == j)) [
        | inl same ↦
            let x : i ≡ j = ground arith in
            subst (SlotOk _) x (
              taken_slot s (retain i (sequence_at s.channel i) (lease i s.reader))
                (put s.mutex i by_reader) i (v.slot i lt) (put_self s.mutex i by_reader) small
                self_held refl)
        | inr other ↦
            let ne : i ≢ j = ground arith in
            kept_slot s _ _ j (v.slot j ltj) (put_other s.mutex i j by_reader ne) refl
              (other_held j ne ∙ sym (rw e refl))
              (λ h. let f : true ≡ false = sym h ∙ other_held j ne in absurd cc)
      ];
      apart = v.apart;
      latest = still-IsPending _ _ (λ j w k. elim (Bool-cases (i == j)) [
        | inl same ↦
            let x : i ≡ j = ground arith in
            let y : by_reader ≡ writable =
              sym (put_self s.mutex i by_reader) ∙ ap (put s.mutex i by_reader) x ∙ k in
            absurd cc
        | inr other ↦ w.kept (sym (put_other s.mutex i j by_reader (ground arith)) ∙ k)
      ]);
    }

    module _ (h : ℕ) (e : s.reader.held ≡ some h) where
      unfoldable pub next_reader : Reader
      next_reader =
          retain i (sequence_at s.channel i) (give_back h s.reader.sequence (lease i s.reader))

      unfoldable pub next_keys : ℕ → Key
      next_keys = put (put s.mutex i by_reader) h writable

      slot_taken : SlotOk (record s { reader = next_reader; mutex = next_keys }) i
      unfolding next_reader next_keys
      slot_taken =
          let ne : h ≢ i = λ x. held_other h e (sym x) in
          taken_slot s next_reader next_keys i (v.slot i lt)
            (put_other (put s.mutex i by_reader) h i writable ne ∙ put_self s.mutex i by_reader)
            (omega (arith, get_or-set_ne s.reader.returned h i s.reader.sequence 0 ne, small))
            self_held refl

      slot_back : SlotOk (record s { reader = next_reader; mutex = next_keys }) h
      unfolding next_reader next_keys
      slot_back =
          back_slot s next_reader next_keys h (v.slot h (fits_held h e))
            (put_self (put s.mutex i by_reader) h writable)
            (get_or-set_self s.reader.returned h s.reader.sequence 0
                (subst (λ n. h < n) (sym v.returns) (fits_held h e))
              ∙ sym (shown_held h e))
            (other_held h (held_other h e))

      slot_other :
          (j : ℕ)
          → j < capture_slots
          → i ≢ j
          → h ≢ j
          → SlotOk (record s { reader = next_reader; mutex = next_keys }) j
      unfolding next_reader next_keys
      slot_other j ltj ne nh =
          kept_slot s next_reader next_keys j (v.slot j ltj)
            (put_other (put s.mutex i by_reader) h j writable nh
              ∙ put_other s.mutex i j by_reader ne)
            (get_or-set_ne s.reader.returned h j s.reader.sequence 0 nh)
            (other_held j ne ∙ sym (rw e (ground arith)))
            (λ x. let f : true ≡ false = sym x ∙ other_held j ne in absurd cc)

      latest_kept : (j : ℕ) → IsPending s s.publisher.sequence j → next_keys j ≢ writable
      unfolding next_keys
      latest_kept j w k = elim (Bool-cases (h == j)) [
        | inl same ↦
            let x : h ≡ j = ground arith in
            let q : sequence_at s.channel h ≡ s.publisher.sequence =
              ap (sequence_at s.channel) x ∙ w.carries in
            omega (arith, shown_held h e, newer, behind)
        | inr other ↦ elim (Bool-cases (i == j)) [
          | inl same ↦
              let x : i ≡ j = ground arith in
              let y : by_reader ≡ writable =
                sym (put_self s.mutex i by_reader)
                ∙ ap (put s.mutex i by_reader) x
                ∙ sym (put_other (put s.mutex i by_reader) h j writable (ground arith))
                ∙ k in
              absurd cc
          | inr apart ↦ w.kept (
              sym (
                put_other (put s.mutex i by_reader) h j writable (ground arith)
                ∙ put_other s.mutex i j by_reader (ground arith))
              ∙ k)
        ]
      ]

      pub then_taken : RingOk (record s { reader = next_reader; mutex = next_keys })
      unfolding next_reader next_keys
      then_taken = record {
        entries = v.entries;
        returns = length-set s.reader.returned h _ ∙ v.returns;
        next = v.next;
        fits = lt;
        behind = behind;
        empty = λ x. absurd cc;
        slot = λ j ltj. elim (Bool-cases (i == j)) [
          | inl same ↦ subst (SlotOk _) (let x : i ≡ j = ground arith in x) slot_taken
          | inr other ↦ elim (Bool-cases (h == j)) [
            | inl same ↦ subst (SlotOk _) (let x : h ≡ j = ground arith in x) slot_back
            | inr apart ↦ slot_other j ltj (ground arith) (ground arith)
          ]
        ];
        apart = v.apart;
        latest = still-IsPending next_reader next_keys latest_kept;
      }
