-- ===== src/Ring/Publish.antt =====
-- A publication keeps the invariant of the ring.
use nyan_real_vdd.Base.{
  ℕ, suc, ◌^◌, ◌<◌, ◌≡◌, ◌≢◌, false, inl, inr, Option, none, some, List, length, length-set, get_or,
  get_or-set_self, get_or-set_ne, ◌==◌, arith, Bool-cases, ap, ◌∙◌, sym, subst,
}
use nyan_real_vdd.FrameShare.Channel.{Channel, CaptureSlot, no_capture_slot}
use nyan_real_vdd.FrameShare.Publisher.{Publisher, PublishEnv, publish, capture_slots, write_slot}
use nyan_real_vdd.FrameShare.Publisher.Laws.{SyncResult-cases}
use nyan_real_vdd.Probe.Reader.{is_held}
use nyan_real_vdd.Ring.{
  writable, Ring, put, sequence_at, written_slot, released_key, with_written, publish_in,
  PublishHonest,
}
use nyan_real_vdd.Ring.Invariant.{put_self, put_other, reader_owns, SlotOk, RingOk}
use nyan_real_vdd.Ring.Writes.{Writes, publish-Writes}

-- Only the entries of the channel count.
pub same_entries :
    (s : Ring) (c : Channel)
    → c.meta.slots ≡ s.channel.meta.slots
    → RingOk s
    → RingOk (record s { channel = c })
same_entries s c e v =
    let at : (j : ℕ) → sequence_at c j ≡ sequence_at s.channel j =
      λ j. ap (λ (ss : List CaptureSlot). (get_or ss j no_capture_slot).sequence) e in
    record {
      entries = ap length e ∙ v.entries;
      returns = v.returns;
      next = v.next;
      fits = v.fits;
      behind = v.behind;
      empty = v.empty;
      slot = λ j lt.
          let o = v.slot j lt in
          record {
            written = ground (arith, at j, o.written);
            returned = o.returned;
            unread = λ m. ground (arith, at j, o.unread m);
            owner = o.owner;
            shown = λ h. at j ∙ o.shown h;
            pixels = o.pixels ∙ ap s.frames (sym (at j));
          };
      apart = λ i j li lj ne same. at i ∙ v.apart i j li lj ne (sym (at i) ∙ same ∙ at j);
      latest = elim v.latest [
        | inl z ↦ inl z
        | inr (j, w) ↦
            inr (j, record { small = w.small; carries = at j ∙ w.carries; kept = w.kept })
      ];
    }

-- Slot `i` was written, under a mutex that nobody owned.
module _ (env : PublishEnv) (content i : ℕ) (s : Ring) (p : Publisher) (c : Channel) (v : RingOk s)
    (lt : i < capture_slots) (free : s.mutex i ≡ writable)
    (number : p.sequence ≡ suc s.publisher.sequence) (next : p.next < capture_slots)
    (entries : c.meta.slots ≡ (write_slot env i s.publisher s.channel.meta).slots)
    (bound : suc s.publisher.sequence < 2 ^ 63) where
  after : Ring
  after = with_written env content (some i) (record s { publisher = p; channel = c })

  here : sequence_at c i ≡ p.sequence
  here =
      ap (λ (ss : List CaptureSlot). (get_or ss i no_capture_slot).sequence) entries
      ∙ ap (λ (x : CaptureSlot). x.sequence)
          (get_or-set_self s.channel.meta.slots i _ no_capture_slot
            (subst (λ n. i < n) (sym v.entries) lt))
      ∙ omega arith

  elsewhere : (j : ℕ) → i ≢ j → sequence_at c j ≡ sequence_at s.channel j
  elsewhere j ne =
      ap (λ (ss : List CaptureSlot). (get_or ss j no_capture_slot).sequence) entries
      ∙ ap (λ (x : CaptureSlot). x.sequence)
          (get_or-set_ne s.channel.meta.slots i j _ no_capture_slot ne)

  not_held : is_held i s.reader.held ≡ false
  not_held = let o = v.slot i lt in sym o.owner ∙ ap reader_owns free

  key-owner : reader_owns (released_key env.release) ≡ false
  key-owner = elim (SyncResult-cases env.release) [
    | inl e ↦ ap (λ x. reader_owns (released_key x)) e
    | inr (inl e) ↦ ap (λ x. reader_owns (released_key x)) e
    | inr (inr (k, e)) ↦ ap (λ x. reader_owns (released_key x)) e
  ]

  key-kept : released_key env.release ≢ writable
  key-kept w = elim (SyncResult-cases env.release) [
    | inl e ↦ absurd (ground (arith, e, w))
    | inr (inl e) ↦ absurd (ground (arith, e, w))
    | inr (inr (k, e)) ↦ absurd (ground (arith, e, w))
  ]

  slot_here : SlotOk after i
  unfolding after
  slot_here =
      let o = v.slot i lt in
      record {
        written = omega (arith, here);
        returned = omega (arith, o.returned);
        unread = λ m. omega (arith, here, o.returned);
        owner = ap reader_owns (put_self s.mutex i _) ∙ key-owner ∙ sym not_held;
        shown = λ h. absurd (ground (arith, not_held));
        pixels =
            put_self s.texture i content
            ∙ sym
                (ap (put s.frames p.sequence content) here ∙ put_self s.frames p.sequence content);
      }

  slot_elsewhere : (j : ℕ) → j < capture_slots → i ≢ j → SlotOk after j
  unfolding after
  slot_elsewhere j ltj ne =
      let o = v.slot j ltj in
      record {
        written = omega (arith, elsewhere j ne, o.written);
        returned = omega (arith, o.returned);
        unread =
            λ m. omega (arith, elsewhere j ne, o.unread (sym (put_other s.mutex i j _ ne) ∙ m));
        owner = ap reader_owns (put_other s.mutex i j _ ne) ∙ o.owner;
        shown = λ h. elsewhere j ne ∙ o.shown h;
        pixels =
            put_other s.texture i j content ne
            ∙ o.pixels
            ∙ sym (
                ap (put s.frames p.sequence content) (elsewhere j ne)
                ∙ put_other s.frames p.sequence (sequence_at s.channel j) content
                    (λ e. absurd (omega (arith, o.written))));
      }

  newer : (j : ℕ) → j < capture_slots → i ≢ j → sequence_at c i ≢ sequence_at c j
  newer j ltj ne e = let o = v.slot j ltj in omega (arith, here, elsewhere j ne, o.written)

  distinct :
      (a b : ℕ)
      → a < capture_slots
      → b < capture_slots
      → a ≢ b
      → sequence_at c a ≡ sequence_at c b
      → sequence_at c a ≡ 0
  distinct a b la lb ne same = elim (Bool-cases (i == a)) [
    | inl at_a ↦
        let e : i ≡ a = ground arith in
        absurd (newer b lb (λ x. ne (sym e ∙ x)) (ap (sequence_at c) e ∙ same))
    | inr not_a ↦ elim (Bool-cases (i == b)) [
      | inl at_b ↦
          let e : i ≡ b = ground arith in
          absurd (newer a la (ground arith) (ap (sequence_at c) e ∙ sym same))
      | inr not_b ↦
          let ea = elsewhere a (ground arith) in
          let eb = elsewhere b (ground arith) in ea ∙ v.apart a b la lb ne (sym ea ∙ same ∙ eb)
    ]
  ]

  written-RingOk : RingOk after
  unfolding after
  written-RingOk = record {
    entries = ap length entries ∙ length-set s.channel.meta.slots i _ ∙ v.entries;
    returns = v.returns;
    next = next;
    fits = v.fits;
    behind = omega (arith, v.behind);
    empty = v.empty;
    slot = λ j ltj. elim (Bool-cases (i == j)) [
      | inl same ↦ let e : i ≡ j = ground arith in subst (SlotOk after) e slot_here
      | inr other ↦ slot_elsewhere j ltj (ground arith)
    ];
    apart = distinct;
    latest = inr (
      i,
      record { small = lt; carries = here; kept = λ w. key-kept (sym (put_self s.mutex i _) ∙ w) },
    );
  }

-- A publication whose mutexes are honest keeps the invariant.
pub publish_in-RingOk :
    (env : PublishEnv) (content : ℕ) (s : Ring)
    → RingOk s
    → PublishHonest env s
    → suc s.publisher.sequence < 2 ^ 63
    → RingOk (publish_in env content s)
unfolding publish_in after
publish_in-RingOk env content s v honest bound =
    go (written_slot env s.publisher s.channel) (publish-Writes env s.publisher s.channel v.next)
  where
    go :
        (slot : Option ℕ)
        → Writes env s.publisher s.channel.meta slot
            (publish env s.publisher s.channel).1
            (publish env s.publisher s.channel).2.meta
        → RingOk (
            with_written env content slot (record s {
              publisher = (publish env s.publisher s.channel).1;
              channel = (publish env s.publisher s.channel).2;
            }))
    go none (same, entries) =
        subst
          (λ p.
            RingOk (record s { publisher = p; channel = (publish env s.publisher s.channel).2 }))
          (sym same) (same_entries s (publish env s.publisher s.channel).2 entries v)
    go (some i) (ok, lt, number, next, entries) =
        written-RingOk env content i s (publish env s.publisher s.channel).1
          (publish env s.publisher s.channel).2 v lt (honest.free i ok) (omega arith) next entries
          bound
