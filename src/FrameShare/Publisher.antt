-- ===== src/FrameShare/Publisher.antt =====
-- FramePublisher::Publish (driver/src/FrameShare.cpp): the ring of three shared textures, as far as
-- the counters and the slot entries of the metadata describe it. The copy of the pixels is a call of
-- Direct3D. A LONG64 counter is kept modulo 2^64, as its bit pattern.
pub mod Laws
use nyan_real_vdd.Base.{
  ℕ, zero, suc, ◌+◌, ◌%◌, Bool, true, false, not, ◌&&◌, ◌||◌, List, [], ◌∷◌, set, get_or, ◌==◌,
  if◌then◌else◌,
}
use nyan_real_vdd.Base.Bits.{u64}
use nyan_real_vdd.FrameShare.Channel.{Channel, CaptureSlot, Metadata, active, no_capture_slot}

-- NYANVDD_CAPTURE_SLOTS
abbrev pub capture_slots : ℕ
capture_slots = 3

-- The members of FramePublisher that Publish uses; a format is a number.
pub record Publisher : Type 0 where
  pub width : ℕ
  pub height : ℕ
  pub format : ℕ
  pub next : ℕ
  pub sequence : ℕ

-- What AcquireSync and ReleaseSync answer: S_OK, WAIT_TIMEOUT, or another code.
pub data SyncResult : Type 0 where
  sync_ok sync_timeout : SyncResult
  sync_failed : ℕ → SyncResult

-- What Publish returns: S_OK, S_FALSE, DXGI_ERROR_ACCESS_LOST, or the code of a failed call.
pub data Published : Type 0 where
  published nothing_done access_lost : Published
  sync_error : ℕ → Published

-- The source texture, the presentation time, and what the system answers: the mutex of each slot,
-- the counter after the copy and how much it went up, and the release.
pub record PublishEnv : Type 0 where
  pub width : ℕ
  pub height : ℕ
  pub format : ℕ
  pub present_qpc : ℕ
  pub acquire : ℕ → SyncResult
  pub end_qpc : ℕ
  pub elapsed_qpc : ℕ
  pub release : SyncResult

-- The entry of a slot that was written, and the publisher's new sequence number.
abbrev pub write_slot : PublishEnv → ℕ → Publisher → Metadata → Metadata
write_slot env i p m = record m {
  slots = set m.slots i (record {
    sequence = u64 (suc p.sequence);
    present_qpc = env.present_qpc;
    publish_qpc = env.end_qpc;
  });
}

-- The body of the loop once slot `i` was acquired.
unfoldable pub publish_at : PublishEnv → ℕ → Publisher → Metadata → Published × Publisher × Metadata
publish_at env i p m =
    let m1 = write_slot env i p m in
    let p1 : Publisher = record p { sequence = u64 (suc p.sequence) } in
    elim env.release [
      | sync_failed e ↦ (sync_error e, p1, m1)
      | _ ↦ (
        published,
        record p1 { next = suc i % capture_slots },
        record m1 {
          frames_published = u64 (suc m.frames_published);
          submit_qpc_ticks = u64 (m.submit_qpc_ticks + env.elapsed_qpc);
        },
      )
    ]

-- The loop over the attempts, `left` of them from attempt `k` on.
unfoldable pub attempt :
    PublishEnv → ℕ → ℕ → Publisher → Metadata → Published × Publisher × Metadata
attempt env zero k p m = (nothing_done, p, record m { frames_skipped = u64 (suc m.frames_skipped) })
attempt env (suc left) k p m =
    let i = (p.next + k) % capture_slots in
    let rest = attempt env left (suc k) p m in
    elim (env.acquire i) [
      | sync_timeout ↦ rest
      | sync_failed e ↦ (sync_error e, p, m)
      | sync_ok ↦ publish_at env i p m
    ]

-- Publish
unfoldable pub publish : PublishEnv → Publisher → Channel → Published × Publisher × Channel
publish env p c =
    if not (active c)
    then (nothing_done, p, c)
    else (let m = record (c.meta) { frames_seen = u64 (suc c.meta.frames_seen) } in
        if not (env.width == p.width && (env.height == p.height && env.format == p.format))
        then (access_lost, p, record c { meta = m })
        else (let (result, p', m') = attempt env capture_slots 0 p m in
            (result, p', record c { meta = m' })))
