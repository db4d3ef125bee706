-- ===== src/Tests/RingRuns.antt =====
-- The ring of shared textures at concrete inputs.
use nyan_real_vdd.Base.{
  ◌≢◌, ℕ, ◌≡◌, refl, true, false, none, some, [], ◌∷◌, ◌==◌, arith, if◌then◌else◌,
}
use nyan_real_vdd.FrameShare.Channel.{Channel, fresh_metadata, active}
use nyan_real_vdd.FrameShare.Publisher.{
  Publisher, PublishEnv, sync_ok, sync_timeout, publish_at, attempt, publish, nothing_done,
  capture_slots,
}
use nyan_real_vdd.Probe.Reader.{
  Reader, PollEnv, poll_slot, on_answer, on_acquired, replace_held, poll,
}
use nyan_real_vdd.Ring.{
  writable, readable, by_reader, Ring, sequence_at, new_ring, chosen, written_slot, publish_in,
  polled_keys, Step, Reach,
}
use nyan_real_vdd.Ring.Interleaved.{PublishPrompt, Reach-RingOk, held_frame}
use nyan_real_vdd.Ring.Invariant.{RingOk}
use nyan_real_vdd.Ring.CatchUp.{PollExact, IsUpToDate, poll_catches_up}
use nyan_real_vdd.Ring.Progress.{after_round, PollRun, poll_then_publish}

abbrev publisher : Publisher
publisher = record { width = 32; height = 24; format = 87; next = 0; sequence = 0 }

abbrev channel : Channel
channel = record { name = []; meta = fresh_metadata 1; is_stopped = false }

abbrev start : Ring
start = new_ring publisher channel 0

-- The mutex of slot `k` is free, and no other.
abbrev env_at : ℕ → PublishEnv
env_at k = record {
  width = 32;
  height = 24;
  format = 87;
  present_qpc = 1;
  acquire = λ i. if i == k then sync_ok else sync_timeout;
  end_qpc = 3;
  elapsed_qpc = 1;
  release = sync_ok;
}

-- Three publications into the three slots, and the number and the mutex of the first slot.
abbrev first : Ring
first = publish_in (env_at 0) 7 start

abbrev second : Ring
second = publish_in (env_at 1) 8 first

abbrev third : Ring
third = publish_in (env_at 2) 9 second

first-written : sequence_at first.channel 0 ≡ 1
unfolding publish_in publish attempt publish_at written_slot chosen
first-written = refl

third-written : sequence_at third.channel 2 ≡ 3
unfolding publish_in publish attempt publish_at written_slot chosen
third-written = refl

start-Reach : Reach start
start-Reach =
    Reach.starts publisher channel 0 (record { next = refl; sequence = refl; slots = refl })

first-Reach : Reach first
first-Reach =
    Reach.steps start first start-Reach
      (Step.publishes start (env_at 0) 7 (record { free = λ i e. refl }) (omega arith))

second-Reach : Reach second
unfolding publish_in publish attempt publish_at written_slot chosen
second-Reach =
    Reach.steps first second first-Reach
      (Step.publishes first (env_at 1) 8 (record { free = λ i e. ground arith }) (omega arith))

third-Reach : Reach third
unfolding publish_in publish attempt publish_at written_slot chosen
third-Reach =
    Reach.steps second third second-Reach
      (Step.publishes second (env_at 2) 9 (record { free = λ i e. ground arith }) (omega arith))

Reach-RingOk_example : RingOk third
Reach-RingOk_example = Reach-RingOk third third-Reach

-- A poll of the first slot alone.
abbrev poll_env : Ring → PollEnv
poll_env s = record {
  seen = λ i. sequence_at s.channel i;
  acquire = λ i. if i == 0 then sync_ok else sync_timeout;
  read = λ i. sequence_at s.channel i;
  release = λ i. none;
}

abbrev taken_reader : Reader
taken_reader = record {
  held = some 0;
  sequence = 1;
  returned = 0 ∷ 0 ∷ 0 ∷ [];
  leased = true ∷ false ∷ false ∷ [];
}

abbrev taken : Ring
taken = record first {
  reader = taken_reader;
  mutex = polled_keys (poll_env first) 0 first.reader first.mutex;
}

taken-Reach : Reach taken
unfolding publish_in publish attempt publish_at written_slot chosen poll_slot on_answer on_acquired
    replace_held
taken-Reach = Reach.steps first taken first-Reach (
    Step.polls first (poll_env first) 0 false true taken_reader (omega arith)
      (record { free = λ e. refl; current = refl }) refl)

taken-key : (i : ℕ) → (i == 1) ≡ true → taken.mutex i ≡ writable
unfolding publish_in publish attempt publish_at written_slot chosen polled_keys
taken-key i e = ground arith

held_frame_example :
    (taken.texture 0 ≡ taken.frames 1)
    × ((publish_in (env_at 1) 8 taken).texture 0 ≡ taken.texture 0)
held_frame_example =
    held_frame taken 0 (env_at 1) 8 taken-Reach refl
      (record { free = λ i e. taken-key i (ground arith) })

first-key : (i : ℕ) → first.mutex i ≡ (if i == 0 then readable else writable)
unfolding publish_in publish attempt publish_at written_slot chosen
first-key i = refl

-- The rest of the poll: no other slot has a frame.
abbrev busy_env : PollEnv
busy_env = record (poll_env first) { acquire = λ i. sync_timeout }

abbrev polled_one : Ring
polled_one = after_round busy_env 1 taken_reader taken

abbrev polled_all : Ring
polled_all = after_round busy_env 2 taken_reader polled_one

taken-mutex : (i : ℕ) → taken.mutex i ≡ (if i == 0 then by_reader else writable)
unfolding publish_in publish attempt publish_at written_slot chosen polled_keys
taken-mutex i = ground arith

polled_one-mutex : (i : ℕ) → polled_one.mutex i ≡ taken.mutex i
unfolding publish_in publish attempt publish_at written_slot chosen polled_keys
polled_one-mutex i = refl

polled_all-mutex : (i : ℕ) → polled_all.mutex i ≡ taken.mutex i
unfolding publish_in publish attempt publish_at written_slot chosen polled_keys
polled_all-mutex i = refl

first-PollExact : PollExact (poll_env first) first
first-PollExact = record {
  seen = λ i. refl;
  read = λ i. refl;
  free = λ i e. ground (arith, first-key i);
  busy = λ i e. ground (arith, first-key i);
  released = λ i. refl;
}

taken-PollExact : PollExact busy_env taken
taken-PollExact = record {
  seen = λ i. refl;
  read = λ i. refl;
  free = λ i e. ground (arith, taken-mutex i);
  busy = λ i e. refl;
  released = λ i. refl;
}

polled_one-PollExact : PollExact busy_env polled_one
polled_one-PollExact = record {
  seen = λ i. refl;
  read = λ i. refl;
  free = λ i e. ground (arith, taken-mutex i, polled_one-mutex i);
  busy = λ i e. refl;
  released = λ i. refl;
}

polled : PollRun capture_slots 0 first polled_all
unfolding publish_in publish attempt publish_at written_slot chosen poll_slot on_answer on_acquired
    replace_held
polled =
    PollRun.polls_one 2 0 first polled_all (poll_env first) false true taken_reader first-PollExact
      refl
      (PollRun.polls_one 1 1 taken polled_all busy_env true true taken_reader taken-PollExact refl (
        PollRun.polls_one 0 2 polled_one polled_all busy_env true true taken_reader
          polled_one-PollExact refl (PollRun.finished 3 polled_all)))

-- The mutex of the slot that is held is the one that is not free.
abbrev one_busy : PublishEnv
one_busy = record (env_at 1) { acquire = λ i. if i == 0 then sync_timeout else sync_ok }

one_busy-Prompt : PublishPrompt one_busy polled_all
one_busy-Prompt = record {
  busy = λ i lt e w. absurd (ground (arith, taken-mutex i, polled_all-mutex i));
}

polled-active : active polled_all.channel ≡ true
unfolding publish_in publish attempt publish_at written_slot chosen
polled-active = refl

poll_then_publish_example :
    (publish one_busy polled_all.publisher polled_all.channel).0 ≢ nothing_done
poll_then_publish_example =
    poll_then_publish first polled_all one_busy first-Reach
      (λ j lt e. absurd (ground (arith, first-key j))) polled one_busy-Prompt polled-active

poll_catches_up_example : IsUpToDate first (poll (poll_env first) first.reader)
poll_catches_up_example =
    poll_catches_up first (poll_env first) first-Reach first-PollExact
      (λ i lt e. ground (arith, first-key i))
