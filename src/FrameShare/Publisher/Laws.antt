-- ===== src/FrameShare/Publisher/Laws.antt =====
-- A reader's slots are never overwritten, and a frame is skipped only when no slot is free.
use nyan_real_vdd.Base.{
  ℕ, zero, suc, ◌+◌, ◌-◌, ◌%◌, ◌<◌, ◌≡◌, ◌≢◌, refl, true, List, arith, get_or, get_or-set_ne, inl,
  inr, ap, ◌∙◌, sym, ◌⊎◌,
}
use nyan_real_vdd.Base.Bits.{u64}
use nyan_real_vdd.FrameShare.Channel.{Channel, CaptureSlot, Metadata, active, no_capture_slot}
use nyan_real_vdd.FrameShare.Publisher.{
  Publisher, PublishEnv, SyncResult, sync_ok, sync_timeout, sync_failed, nothing_done, write_slot,
  publish_at, attempt, publish, capture_slots,
}

pub SyncResult-cases :
    (r : SyncResult) → (r ≡ sync_ok) ⊎ (r ≡ sync_timeout) ⊎ ((e : ℕ) × (r ≡ sync_failed e))
SyncResult-cases sync_ok = inl refl
SyncResult-cases sync_timeout = inr (inl refl)
SyncResult-cases (sync_failed e) = inr (inr (e, refl))

publish_at-slots :
    (env : PublishEnv) (i : ℕ) (p : Publisher) (m : Metadata)
    → (publish_at env i p m).2.slots ≡ (write_slot env i p m).slots
unfolding publish_at
publish_at-slots env i p m = ground arith

-- A slot that the publisher did not acquire keeps its entry.
attempt-leased :
    (env : PublishEnv) (left k j : ℕ) (p : Publisher) (m : Metadata)
    → env.acquire j ≢ sync_ok
    → get_or (attempt env left k p m).2.slots j no_capture_slot ≡ get_or m.slots j no_capture_slot
unfolding attempt
attempt-leased env zero k j p m h = refl
attempt-leased env (suc left) k j p m h =
    let i = (p.next + k) % capture_slots in
    elim (SyncResult-cases (env.acquire i)) [
      | inl ok ↦
          let other : i ≢ j = λ e. h (ap env.acquire (sym e) ∙ ok) in
          rw (ok, attempt)
            (ap (λ (ss : List CaptureSlot). get_or ss j no_capture_slot)
                (publish_at-slots env i p m)
              ∙ get_or-set_ne m.slots i j _ no_capture_slot other)
      | inr (inl busy) ↦ rw (busy, attempt) (attempt-leased env left (suc k) j p m h)
      | inr (inr (e, failed)) ↦ rw (failed, attempt) refl
    ]

-- Whatever the outcome of a publication, the entry of a slot whose mutex is not acquired, as when a
-- reader holds it, is not changed.
pub publish-leased :
    (env : PublishEnv) (j : ℕ) (p : Publisher) (c : Channel)
    → env.acquire j ≢ sync_ok
    → get_or (publish env p c).2.meta.slots j no_capture_slot
      ≡ get_or c.meta.slots j no_capture_slot
unfolding publish
publish-leased env j p c h =
    let m = record (c.meta) { frames_seen = u64 (suc c.meta.frames_seen) } in
    ground (arith, attempt-leased env capture_slots 0 j p m h)

-- The slot of this attempt and those of the later ones.
all_busy :
    (env : PublishEnv) (left k d : ℕ) (p : Publisher)
    → env.acquire ((p.next + k) % capture_slots) ≡ sync_timeout
    → ((b : ℕ) → b < left → env.acquire ((p.next + (suc k + b)) % capture_slots) ≡ sync_timeout)
    → d < suc left
    → env.acquire ((p.next + (k + d)) % capture_slots) ≡ sync_timeout
all_busy env left k zero p busy rest lt =
    ap (λ (x : ℕ). env.acquire ((p.next + x) % capture_slots)) (omega arith) ∙ busy
all_busy env left k (suc d) p busy rest lt =
    ap (λ (x : ℕ). env.acquire ((p.next + x) % capture_slots)) (omega arith) ∙ rest d (omega arith)

-- A skipped frame found every slot that it tried leased.
attempt_skips :
    (env : PublishEnv) (left k d : ℕ) (p : Publisher) (m : Metadata)
    → (attempt env left k p m).0 ≡ nothing_done
    → d < left
    → env.acquire ((p.next + (k + d)) % capture_slots) ≡ sync_timeout
unfolding attempt publish_at
attempt_skips env zero k d p m h lt = absurd (omega arith)
attempt_skips env (suc left) k d p m h lt =
    elim (SyncResult-cases (env.acquire ((p.next + k) % capture_slots))) [
      | inl ok ↦ absurd (ground arith)
      | inr (inr (e, failed)) ↦ absurd (ground arith)
      | inr (inl busy) ↦
          let rest : (attempt env left (suc k) p m).0 ≡ nothing_done = ground arith in
          all_busy env left k d p busy (λ b lt'. attempt_skips env left (suc k) b p m rest lt') lt
    ]

-- On an active channel, with the next slot in the ring, a frame is skipped only when the mutex of
-- every slot is held.
pub publish_skips :
    (env : PublishEnv) (j : ℕ) (p : Publisher) (c : Channel)
    → active c ≡ true
    → p.next < capture_slots
    → j < capture_slots
    → (publish env p c).0 ≡ nothing_done
    → env.acquire j ≡ sync_timeout
unfolding publish
publish_skips env j p c live bound lt h =
    let m = record (c.meta) { frames_seen = u64 (suc c.meta.frames_seen) } in
    let tried : (attempt env capture_slots 0 p m).0 ≡ nothing_done = ground arith in
    let d = (j + 3 - p.next) % 3 in
    let here : (p.next + (0 + d)) % capture_slots ≡ j = omega arith in
    ap env.acquire (sym here) ∙ attempt_skips env capture_slots 0 d p m tried (omega arith)
