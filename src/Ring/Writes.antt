-- ===== src/Ring/Writes.antt =====
-- What a call of Publish does to the publisher and to the entries of the metadata.
use nyan_real_vdd.Base.{
  ℕ, zero, suc, ◌+◌, ◌%◌, ◌<◌, ◌≡◌, refl, ◌&&◌, inl, inr, Option, none, some, ◌==◌, arith,
  Bool-cases,
}
use nyan_real_vdd.Base.Bits.{u64}
use nyan_real_vdd.FrameShare.Channel.{Channel, Metadata, active}
use nyan_real_vdd.FrameShare.Publisher.{
  Publisher, PublishEnv, sync_ok, publish_at, attempt, publish, capture_slots, write_slot,
}
use nyan_real_vdd.FrameShare.Publisher.Laws.{SyncResult-cases}
use nyan_real_vdd.Ring.{chosen, written_slot}

-- What the attempts do to the publisher and the entries, by the slot that they chose.
abbrev pub Writes : PublishEnv → Publisher → Metadata → Option ℕ → Publisher → Metadata → Type 0
Writes env p m none p' m' = (p' ≡ p) × (m'.slots ≡ m.slots)
Writes env p m (some i) p' m' =
    (env.acquire i ≡ sync_ok)
    × (i < capture_slots)
    × (p'.sequence ≡ u64 (suc p.sequence))
    × (p'.next < capture_slots)
    × (m'.slots ≡ (write_slot env i p m).slots)

publish_at-Writes :
    (env : PublishEnv) (i : ℕ) (p : Publisher) (m : Metadata)
    → env.acquire i ≡ sync_ok
    → i < capture_slots
    → p.next < capture_slots
    → Writes env p m (some i) (publish_at env i p m).1 (publish_at env i p m).2
unfolding publish_at
publish_at-Writes env i p m ok lt next = elim (SyncResult-cases env.release) [
  | inl e ↦ rw (e, publish_at) (ok, lt, refl, omega arith, refl)
  | inr (inl e) ↦ rw (e, publish_at) (ok, lt, refl, omega arith, refl)
  | inr (inr (k, e)) ↦ rw (e, publish_at) (ok, lt, refl, next, refl)
]

attempt-Writes :
    (env : PublishEnv) (left k : ℕ) (p : Publisher) (m : Metadata)
    → p.next < capture_slots
    → Writes env p m (chosen env left k p) (attempt env left k p m).1 (attempt env left k p m).2
unfolding attempt chosen
attempt-Writes env zero k p m next = (refl, refl)
attempt-Writes env (suc left) k p m next =
    let i = (p.next + k) % capture_slots in
    elim (SyncResult-cases (env.acquire i)) [
      | inl ok ↦ rw (ok, attempt, chosen) (publish_at-Writes env i p m ok (omega arith) next)
      | inr (inl busy) ↦ rw (busy, attempt, chosen) (attempt-Writes env left (suc k) p m next)
      | inr (inr (e, failed)) ↦ rw (failed, attempt, chosen) (refl, refl)
    ]

pub publish-Writes :
    (env : PublishEnv) (p : Publisher) (c : Channel)
    → p.next < capture_slots
    → let (result, p', c') = publish env p c in
      Writes env p c.meta (written_slot env p c) p' c'.meta
unfolding publish written_slot
publish-Writes env p c next =
    let m = record (c.meta) { frames_seen = u64 (suc c.meta.frames_seen) } in
    elim (Bool-cases (active c)) [
      | inr off ↦ simp off (refl, refl)
      | inl on ↦
          elim (Bool-cases
            (env.width == p.width && (env.height == p.height && env.format == p.format))) [
              | inr other ↦ simp (on, other) (refl, refl)
              | inl fits ↦ simp (on, fits) (attempt-Writes env capture_slots 0 p m next)
            ]
    ]
