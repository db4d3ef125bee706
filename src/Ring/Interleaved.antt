-- ===== src/Ring/Interleaved.antt =====
-- The ring in every interleaving of the publisher and the reader.
use nyan_real_vdd.Base.{
  ℕ, zero, suc, ◌<◌, ◌≡◌, ◌≢◌, refl, true, false, inl, Option, none, some, List, [], ◌∷◌, length,
  get_or, arith, ap, ◌∙◌, sym, subst,
}
use nyan_real_vdd.FrameShare.Channel.{Channel, CaptureSlot, active, stop, fail, no_capture_slot}
use nyan_real_vdd.FrameShare.Publisher.{
  Publisher, PublishEnv, sync_timeout, nothing_done, publish, capture_slots,
}
use nyan_real_vdd.FrameShare.Publisher.Laws.{publish_skips}
use nyan_real_vdd.Probe.Reader.{is_held, new_reader}
use nyan_real_vdd.Probe.Reader.Laws.{HeldFits, ReaderOk}
use nyan_real_vdd.Probe.Reader.Round.{poll_slot-ReaderOk}
use nyan_real_vdd.Ring.{
  Key, writable, readable, by_publisher, by_reader, Ring, sequence_at, new_ring, IsFresh,
  PublishHonest, publish_in, with_written, written_slot, polled_keys, Step, Reach,
}
use nyan_real_vdd.Ring.Invariant.{put_other, reader_owns, RingOk}
use nyan_real_vdd.Ring.Publish.{same_entries, publish_in-RingOk}
use nyan_real_vdd.Ring.Writes.{Writes, publish-Writes}
use nyan_real_vdd.Ring.Poll.{Keeps, poll_slot-RingOk}

empty_slot :
    (j : ℕ)
    → (get_or (no_capture_slot ∷ no_capture_slot ∷ no_capture_slot ∷ []) j no_capture_slot).sequence
      ≡ 0
empty_slot zero = refl
empty_slot (suc zero) = refl
empty_slot (suc (suc zero)) = refl
empty_slot (suc (suc (suc j))) = refl

nothing_returned : (j : ℕ) → get_or {A = ℕ} (0 ∷ 0 ∷ 0 ∷ []) j 0 ≡ 0
nothing_returned zero = refl
nothing_returned (suc zero) = refl
nothing_returned (suc (suc zero)) = refl
nothing_returned (suc (suc (suc j))) = refl

new_ring-RingOk :
    (p : Publisher) (c : Channel) (content : ℕ) → IsFresh p c → RingOk (new_ring p c content)
new_ring-RingOk p c content f =
    let none_yet : (j : ℕ) → sequence_at c j ≡ 0 = λ j.
      ap (λ (ss : List CaptureSlot). (get_or ss j no_capture_slot).sequence) f.slots
      ∙ empty_slot j in
    record {
      entries = ap length f.slots;
      returns = refl;
      next = omega (arith, f.next);
      fits = tt;
      behind = omega arith;
      empty = λ e. refl;
      slot = λ j lt. record {
        written = omega (arith, none_yet j);
        returned = omega (arith, nothing_returned j);
        unread = λ m. absurd cc;
        owner = refl;
        shown = λ h. absurd cc;
        pixels = refl;
      };
      apart = λ i j li lj ne e. none_yet i;
      latest = inl f.sequence;
    }

step-RingOk : (s s' : Ring) → Step s s' → RingOk s → RingOk s'
step-RingOk s s' (Step.publishes _ env content honest bound) v =
    publish_in-RingOk env content s v honest bound
step-RingOk s s' (Step.polls _ env i changed changed' r lt honest e) v =
    subst (Keeps s (polled_keys env i s.reader s.mutex)) e
      (poll_slot-RingOk s env i v lt honest changed)
step-RingOk s s' (Step.stops _) v = same_entries s (stop s.channel) (unfold stop in refl) v
step-RingOk s s' (Step.fails _ error) v =
    same_entries s (fail error s.channel) (unfold fail in refl) v

-- In every interleaving, of publications below number 2^63: the reader owns exactly the mutex of the slot that it
-- holds, a slot released to it carries a number that it did not give back yet, no number but 0 is in two slots, each
-- texture has the contents of the publication whose number its slot carries, and the last publication is in a slot
-- that was not given back.
pub Reach-RingOk : (s : Ring) → Reach s → RingOk s
Reach-RingOk s (Reach.starts p c content f) = new_ring-RingOk p c content f
Reach-RingOk s (Reach.steps s0 _ before step) = step-RingOk s0 s step (Reach-RingOk s0 before)

with_written-reader :
    (env : PublishEnv) (content : ℕ) (slot : Option ℕ) (s : Ring)
    → (with_written env content slot s).reader ≡ s.reader
with_written-reader env content none s = refl
with_written-reader env content (some i) s = refl

publish_in-reader :
    (env : PublishEnv) (content : ℕ) (s : Ring) → (publish_in env content s).reader ≡ s.reader
unfolding publish_in
publish_in-reader env content s =
    with_written-reader env content (written_slot env s.publisher s.channel) _

new_reader-ReaderOk : ReaderOk new_reader
new_reader-ReaderOk = record { three = refl; fits = tt; owns = λ i lt. unleased i }
  where
    unleased : (i : ℕ) → get_or (false ∷ false ∷ false ∷ []) i false ≡ false
    unleased zero = refl
    unleased (suc zero) = refl
    unleased (suc (suc zero)) = refl
    unleased (suc (suc (suc i))) = refl

step-ReaderOk : (s s' : Ring) → Step s s' → ReaderOk s.reader → ReaderOk s'.reader
step-ReaderOk s s' (Step.publishes _ env content honest bound) v =
    subst ReaderOk (sym (publish_in-reader env content s)) v
step-ReaderOk s s' (Step.polls _ env i changed changed' r lt honest e) v =
    poll_slot-ReaderOk env i changed changed' s.reader r lt v e
step-ReaderOk s s' (Step.stops _) v = v
step-ReaderOk s s' (Step.fails _ error) v = v

pub Reach-ReaderOk : (s : Ring) → Reach s → ReaderOk s.reader
Reach-ReaderOk s (Reach.starts p c content f) = new_reader-ReaderOk
Reach-ReaderOk s (Reach.steps s0 _ before step) = step-ReaderOk s0 s step (Reach-ReaderOk s0 before)

-- A slot that is not the one a publication acquired keeps its texture.
texture_kept :
    (env : PublishEnv) (content : ℕ) (slot : Option ℕ) (s : Ring) (h : ℕ)
    → slot ≢ some h
    → (with_written env content slot s).texture h ≡ s.texture h
texture_kept env content none s h ne = refl
texture_kept env content (some i) s h ne = put_other s.texture i h content (λ e. ne (ap some e))

-- In every interleaving, the slot that the reader holds has the contents of the publication whose number the reader
-- last took, and a publication leaves these contents as they are.
pub held_frame :
    (s : Ring) (h : ℕ) (env : PublishEnv) (content : ℕ)
    → Reach s
    → s.reader.held ≡ some h
    → PublishHonest env s
    → (s.texture h ≡ s.frames s.reader.sequence)
      × ((publish_in env content s).texture h ≡ s.texture h)
unfolding publish_in
held_frame s h env content reached held honest =
    let v = Reach-RingOk s reached in
    let o = v.slot h (subst HeldFits held v.fits) in
    let mine : is_held h s.reader.held ≡ true = rw held (ground arith) in
    (
      o.pixels ∙ ap s.frames (o.shown mine),
      texture_kept env content (written_slot env s.publisher s.channel) _ h (λ e.
          let w =
            subst
              (λ x.
                Writes env s.publisher s.channel.meta x (publish env s.publisher s.channel).1
                  (publish env s.publisher s.channel).2.meta)
              e (publish-Writes env s.publisher s.channel v.next) in
          let free : s.mutex h ≡ writable = honest.free h w.0 in
          let f : false ≡ true = ap reader_owns (sym free) ∙ o.owner ∙ mine in absurd cc),
    )

-- Publish finds a mutex busy only when it is not free for it.
pub record PublishPrompt (env : PublishEnv) (s : Ring) : Type 0 where
  pub busy : (i : ℕ) → i < capture_slots → env.acquire i ≡ sync_timeout → s.mutex i ≢ writable

not_writable : (k : Key) → k ≢ writable → k ≢ by_publisher → reader_owns k ≡ false → k ≡ readable
not_writable writable h k e = absurd (h refl)
not_writable readable h k e = refl
not_writable by_publisher h k e = absurd (k refl)
not_writable by_reader h k e = absurd cc

-- In every interleaving, where a mutex times out only when it is not free, a publication on the active channel is
-- skipped only if each slot other than the one the reader holds was released to the reader, with a number that it has
-- not given back; unless a failed release left the slot with the publisher.
pub skip_means_unread :
    (s : Ring) (j : ℕ) (env : PublishEnv)
    → Reach s
    → PublishPrompt env s
    → active s.channel ≡ true
    → (publish env s.publisher s.channel).0 ≡ nothing_done
    → j < capture_slots
    → is_held j s.reader.held ≡ false
    → s.mutex j ≢ by_publisher
    → (s.mutex j ≡ readable) × (get_or s.reader.returned j 0 < sequence_at s.channel j)
skip_means_unread s j env reached prompt live skipped lt other mine =
    let v = Reach-RingOk s reached in
    let o = v.slot j lt in
    let busy : env.acquire j ≡ sync_timeout =
      publish_skips env j s.publisher s.channel live v.next lt skipped in
    let r : s.mutex j ≡ readable =
      not_writable (s.mutex j) (prompt.busy j lt busy) mine (o.owner ∙ other) in
    (r, o.unread r)
