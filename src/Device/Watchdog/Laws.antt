-- ===== src/Device/Watchdog/Laws.antt =====
-- When the watchdog fires, how long it sleeps, and what it leaves.
use nyan_real_vdd.Base.{
  ℕ, ◌+◌, ◌-◌, ◌^◌, ◌≤◌, ◌<◌, ◌≡◌, ◌≢◌, refl, Bool, true, false, Option, none, some, List, [], ◌∷◌,
  arith, leb, ◌==◌, inl, inr, ◌∙◌, if◌then◌else◌, ◌⊎◌,
}
use nyan_real_vdd.Base.Bits.{u64}
use nyan_real_vdd.Device.{Device, OsCall, log, success, nt_success}
use nyan_real_vdd.Device.Slots.{lookup}
use nyan_real_vdd.Device.Unplug.{unplug, sweep, depart_all}
use nyan_real_vdd.Device.Unplug.Laws.{lookup-unplug}
use nyan_real_vdd.Device.Watchdog.{
  WatchdogEnv, floored, set_watchdog, pet_watchdog, Verdict, fired, wait, check, Round, round,
  after_wait, wait_failed,
}

-- A Boolean form of the verdict.
abbrev pub has_fired : Verdict → Bool
has_fired fired = true
has_fired (wait t) = false

Verdict-cases : (v : Verdict) → (v ≡ fired) ⊎ ((t : Option ℕ) × (v ≡ wait t))
Verdict-cases fired = inl refl
Verdict-cases (wait t) = inr (t, refl)

u64_small : (x : ℕ) → x < 2 ^ 64 → u64 x ≡ x
u64_small x h = ground arith

-- A watchdog that was set successfully to a time other than 0, and not fed since, fires at a check
-- exactly when that is at least the floored time later, as long as the deadline fits 64 bits.
pub set_watchdog_fires_iff :
    (env : WatchdogEnv) (t now n : ℕ) (d : Device)
    → t ≢ 0
    → now + floored t < 2 ^ 64
    → nt_success (set_watchdog env t now d).0 ≡ true
    → has_fired (check n (set_watchdog env t now d).1).0 ≡ leb (now + floored t) n
unfolding set_watchdog check
set_watchdog_fires_iff env t now n d armed fits ok =
    ground (arith, u64_small (now + floored t) fits)

-- As long as the deadline fits 64 bits, a pet moves the deadline of an armed watchdog to a whole
-- timeout after it, whatever the deadline was before, and leaves a disarmed watchdog silent.
pub pet_watchdog_fires_iff :
    (now n : ℕ) (d : Device)
    → now + d.watchdog_timeout_ms < 2 ^ 64
    → has_fired (check n (pet_watchdog now d)).0
      ≡ (if d.watchdog_timeout_ms == 0 then false else leb (now + d.watchdog_timeout_ms) n)
unfolding pet_watchdog check
pet_watchdog_fires_iff now n d fits = ground (arith, u64_small (now + d.watchdog_timeout_ms) fits)

-- Where the check of an armed watchdog does not fire, the thread sleeps for a time that is neither
-- 0 nor INFINITE and that ends no later than the deadline.
pub check_sleeps :
    (n : ℕ) (d : Device) {w : ℕ}
    → (check n d).0 ≡ wait (some w)
    → (0 < w) × (w < 2 ^ 32 - 1) × (n + w ≤ d.watchdog_deadline)
unfolding check
check_sleeps n d {w} e = ground arith

timeout-depart_all :
    (hs : List ℕ) (d : Device) → (depart_all hs d).watchdog_timeout_ms ≡ d.watchdog_timeout_ms
unfolding depart_all
timeout-depart_all [] d = refl
timeout-depart_all (h ∷ hs) d = timeout-depart_all hs (log (OsCall.departed h) d)

pub timeout-unplug :
    (cookie : ℕ) (d : Device) → (unplug cookie d).1.watchdog_timeout_ms ≡ d.watchdog_timeout_ms
unfolding unplug
timeout-unplug cookie d =
    let w = sweep cookie d.bindings d.slots d.channels in
    ground
      (arith, timeout-depart_all w.targets (record d { slots = w.slots; channels = w.channels }))

check_fired :
    (n : ℕ) (d : Device)
    → has_fired (check n d).0 ≡ true
    → ((check n d).0 ≡ fired) × ((check n d).1.watchdog_timeout_ms ≡ 0)
unfolding check
check_fired n d h = ground arith

-- A round that fires leaves no monitor plugged and the watchdog disarmed.
pub round_fires :
    (r : Round) (d : Device)
    → has_fired (check r.now (r.before d)).0 ≡ true
    → ((round r d).0 ≡ true)
      × ((round r d).1.watchdog_timeout_ms ≡ 0)
      × ((c : ℕ) → lookup c (round r d).1.slots ≡ none)
unfolding round
round_fires r d h =
    let f = check_fired r.now (r.before d) h in
    let d' = (check r.now (r.before d)).1 in
    rw (f.0, round) (refl, timeout-unplug 0 d' ∙ f.1, λ c. lookup-unplug 0 c d')

pub check-slots : (n : ℕ) (d : Device) → (check n d).1.slots ≡ d.slots
unfolding check
check-slots n d = ground arith

-- Once a failed wait has ended the watchdog's thread, a later SetWatchdog still succeeds and arms the
-- watchdog, whether or not the system could start a thread: no thread is left to enforce it.
pub set_watchdog-after_wait :
    (env : WatchdogEnv) (t now : ℕ) (d : Device)
    → d.watchdog_thread ≡ true
    → let ended = after_wait wait_failed d in
      (ended.0 ≡ false)
      × ((set_watchdog env t now ended.1).0 ≡ success)
      × ((set_watchdog env t now ended.1).1.watchdog_timeout_ms ≡ floored t)
unfolding after_wait set_watchdog
set_watchdog-after_wait env t now d running = ground arith
