-- ===== src/Ring/Slot.antt =====
-- One slot of the ring after a round of the reader's loop.
use nyan_real_vdd.Base.{ℕ, ◌≤◌, ◌≡◌, true, false, get_or, arith, ap, ◌∙◌, sym}
use nyan_real_vdd.Probe.Reader.{Reader, is_held}
use nyan_real_vdd.Ring.{Key, writable, readable, by_reader, Ring, sequence_at}
use nyan_real_vdd.Ring.Invariant.{reader_owns, SlotOk}

-- The new state of one slot, from what the round did to it.
module _ (s : Ring) (r : Reader) (keys : ℕ → Key) (j : ℕ) (o : SlotOk s j) where
  pub kept_slot :
      keys j ≡ s.mutex j
      → get_or r.returned j 0 ≡ get_or s.reader.returned j 0
      → is_held j r.held ≡ is_held j s.reader.held
      → (is_held j r.held ≡ true → r.sequence ≡ s.reader.sequence)
      → SlotOk (record s { reader = r; mutex = keys }) j
  kept_slot key back held same = record {
    written = o.written;
    returned = omega (arith, o.returned);
    unread = λ m. omega (arith, o.unread (sym key ∙ m));
    owner = ap reader_owns key ∙ o.owner ∙ sym held;
    shown = λ h. o.shown (sym held ∙ h) ∙ sym (same h);
    pixels = o.pixels;
  }

  pub back_slot :
      keys j ≡ writable
      → get_or r.returned j 0 ≡ sequence_at s.channel j
      → is_held j r.held ≡ false
      → SlotOk (record s { reader = r; mutex = keys }) j
  back_slot key back held = record {
    written = o.written;
    returned = omega (arith, o.written);
    unread = λ m. let e : writable ≡ readable = sym key ∙ m in absurd cc;
    owner = ap reader_owns key ∙ sym held;
    shown = λ h. let e : true ≡ false = sym h ∙ held in absurd cc;
    pixels = o.pixels;
  }

  pub taken_slot :
      keys j ≡ by_reader
      → get_or r.returned j 0 ≤ s.publisher.sequence
      → is_held j r.held ≡ true
      → r.sequence ≡ sequence_at s.channel j
      → SlotOk (record s { reader = r; mutex = keys }) j
  taken_slot key back held number = record {
    written = o.written;
    returned = back;
    unread = λ m. let e : by_reader ≡ readable = sym key ∙ m in absurd cc;
    owner = ap reader_owns key ∙ sym held;
    shown = λ h. sym number;
    pixels = o.pixels;
  }
