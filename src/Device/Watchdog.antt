-- ===== src/Device/Watchdog.antt =====
-- SetWatchdog, PetWatchdog and WatchdogLoop. `now` is what UnbiasedNowMs answers at that call.
pub mod Laws
use nyan_real_vdd.Base.{
  ℕ, ◌+◌, ◌-◌, ◌/◌, ◌^◌, Bool, true, false, not, ◌&&◌, Option, none, some, List, [], ◌∷◌, ltb, leb,
  ◌==◌, if◌then◌else◌,
}
use nyan_real_vdd.Base.Bits.{u64}
use nyan_real_vdd.Device.{Device, NtStatus, success, insufficient_resources}
use nyan_real_vdd.Device.Unplug.{unplug}

-- UnbiasedNowMs, of what QueryUnbiasedInterruptTime stores.
unfoldable pub unbiased_now_ms : ℕ → ℕ
unbiased_now_ms time_100ns = time_100ns / 10000

-- Whether CreateEventW (twice) and CreateThread succeed.
pub record WatchdogEnv : Type 0 where
  pub wake_ok : Bool
  pub stop_ok : Bool
  pub thread_ok : Bool

-- The structural floor of ten seconds.
abbrev pub floored : ℕ → ℕ
floored timeout_ms = if not (timeout_ms == 0) && ltb timeout_ms 10000 then 10000 else timeout_ms

-- SetWatchdog
unfoldable pub set_watchdog : WatchdogEnv → ℕ → ℕ → Device → NtStatus × Device
set_watchdog env timeout_ms now d =
    let t = floored timeout_ms in
    let starts = not (t == 0) && not d.watchdog_thread in
    if starts && not (env.wake_ok && (env.stop_ok && env.thread_ok))
    then (insufficient_resources, d)
    else (
      success,
      record d {
        watchdog_thread = if starts then true else d.watchdog_thread;
        watchdog_timeout_ms = t;
        watchdog_deadline = if t == 0 then 0 else u64 (now + t);
      },
    )

-- PetWatchdog
unfoldable pub pet_watchdog : ℕ → Device → Device
pet_watchdog now d =
    if d.watchdog_timeout_ms == 0
    then d
    else record d { watchdog_deadline = u64 (now + d.watchdog_timeout_ms) }

-- What the locked region of WatchdogLoop decides: `none` waits for ever.
pub data Verdict : Type 0 where
  fired : Verdict
  wait : Option ℕ → Verdict

abbrev max_dword : ℕ
max_dword = 2 ^ 32 - 1

abbrev pub disarm : Device → Device
disarm d = record d { watchdog_timeout_ms = 0; watchdog_deadline = 0 }

unfoldable pub check : ℕ → Device → Verdict × Device
check now d =
    if d.watchdog_timeout_ms == 0
    then (wait none, d)
    else if leb d.watchdog_deadline now
    then (fired, disarm d)
    else (let remaining = d.watchdog_deadline - now in
        (wait (some (if leb max_dword remaining then max_dword - 1 else remaining)), d))

-- What WaitForMultipleObjects answers.
pub data WaitResult : Type 0 where
  stopped woken timed_out wait_failed : WaitResult

-- One round of the loop: the time of its check, what other threads do before it and while it waits,
-- and how the wait ends.
pub record Round : Type 0 where
  pub now : ℕ
  pub before : Device → Device
  pub meanwhile : Device → Device
  pub result : WaitResult

-- The end of a round: whether the thread goes on.
unfoldable pub after_wait : WaitResult → Device → Bool × Device
after_wait stopped d = (false, d)
after_wait woken d = (true, d)
after_wait timed_out d = (true, d)
after_wait wait_failed d = (false, disarm d)

unfoldable pub round : Round → Device → Bool × Device
round r d =
    let (verdict, d') = check r.now (r.before d) in
    elim verdict [
      | fired ↦ (true, (unplug 0 d').1)
      | wait timeout ↦ after_wait r.result (r.meanwhile d')
    ]

-- WatchdogLoop over the rounds that it makes.
unfoldable pub watchdog_loop : List Round → Device → Device
watchdog_loop [] d = d
watchdog_loop (r ∷ rs) d =
    let (goes_on, d') = round r d in elim goes_on [ true ↦ watchdog_loop rs d' | false ↦ d' ]
