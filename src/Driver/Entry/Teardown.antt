-- ===== src/Driver/Entry/Teardown.antt =====
-- The end of a device and of a monitor (driver/src/Driver.cpp): the cleanup of the framework's wrappers, the
-- destructors of the two contexts, and the callbacks that assign and unassign a swap-chain.
use nyan_real_vdd.Base.{
  ℕ, ◌≡◌, refl, Bool, true, false, ◌⊎◌, inl, inr, Option, none, List, [], ◌∷◌, arith, leb, ◌∙◌, ap,
  ◌==◌, Bool-cases, if◌then◌else◌,
}
use nyan_real_vdd.Device.{Device, NtStatus, success}
use nyan_real_vdd.Device.Watchdog.{
  Round, round, check, after_wait, stopped, watchdog_loop, fired, wait, disarm,
}
use nyan_real_vdd.Device.Watchdog.Laws.{timeout-unplug}
use nyan_real_vdd.Driver.Assign.{StartEnv, MonitorContext, assign_locked, unassign_locked}
use nyan_real_vdd.Driver.Entry.{Driver}

-- The end of ~IndirectDeviceContext for a device with a watchdog thread: the stop event is set, and the wait for
-- the thread lasts for the rounds that it still makes.
unfoldable pub join_watchdog : List Round → Device → Device
join_watchdog rounds d = if d.watchdog_thread then watchdog_loop rounds d else d

-- ~IndirectDeviceContext and the Cleanup of its wrapper: no context is left, and the device is as the thread left it.
unfoldable pub device_cleanup : List Round → Device → Driver → Driver × Device
device_cleanup rounds d g = (record g { context = none }, join_watchdog rounds d)

-- ~IndirectMonitorContext and the Cleanup of its wrapper, under the lock; Stop and Release are steps of their own.
unfoldable pub monitor_cleanup : MonitorContext → MonitorContext
monitor_cleanup c = unassign_locked c

-- NyanVddMonitorAssignSwapChain and NyanVddMonitorUnassignSwapChain: the status that they are going to answer, and
-- the state under the lock.
unfoldable pub monitor_assign_swap_chain :
    StartEnv → Bool → MonitorContext → NtStatus × MonitorContext
monitor_assign_swap_chain env allocated c = assign_locked env allocated c

unfoldable pub monitor_unassign_swap_chain : MonitorContext → NtStatus × MonitorContext
monitor_unassign_swap_chain c = (success, unassign_locked c)

-- Whether the watchdog's thread returns within these rounds.
unfoldable pub returns_within : List Round → Device → Bool
returns_within [] d = false
returns_within (r ∷ rs) d =
    let (goes_on, d') = round r d in elim goes_on [ true ↦ returns_within rs d' | false ↦ true ]

-- A round once the stop event is set: of the events that are set, a wait answers the first, which is the stop event.
pub record IsStopping (r : Round) : Type 0 where
  pub stops : r.result ≡ stopped
  pub alone : (d : Device) → (r.before d).watchdog_timeout_ms ≡ d.watchdog_timeout_ms

check-cases :
    (n : ℕ) (d : Device)
    → (((check n d).0 ≡ fired) × ((check n d).1 ≡ disarm d))
      ⊎ ((t : Option ℕ) × ((check n d).0 ≡ wait t) × ((check n d).1 ≡ d))
unfolding check
check-cases n d = elim (Bool-cases (d.watchdog_timeout_ms == 0)) [
  | inl off ↦ simp off (inr (none, refl, refl))
  | inr on ↦ elim (Bool-cases (leb d.watchdog_deadline n)) [
    | inl due ↦ simp (on, due) (inl (refl, refl))
    | inr early ↦ simp (on, early) (inr (_, refl, refl))
  ]
]

-- A wait that finds the stop event set ends the thread.
waits :
    (r : Round) (d : Device) (t : Option ℕ)
    → IsStopping r
    → (check r.now (r.before d)).0 ≡ wait t
    → (round r d).0 ≡ false
unfolding round after_wait
waits r d t s e = rw (e, round) (rw (s.stops, after_wait) refl)

disarmed : (n : ℕ) (d : Device) → d.watchdog_timeout_ms ≡ 0 → (check n d).0 ≡ wait none
unfolding check
disarmed n d e = let z : (d.watchdog_timeout_ms == 0) ≡ true = ground arith in simp z refl

fires :
    (r : Round) (d : Device)
    → (check r.now (r.before d)).0 ≡ fired
    → (check r.now (r.before d)).1 ≡ disarm (r.before d)
    → ((round r d).0 ≡ true) × ((round r d).1.watchdog_timeout_ms ≡ 0)
unfolding round
fires r d f e =
    rw (f, round) (refl, timeout-unplug 0 _ ∙ ap (λ (x : Device). x.watchdog_timeout_ms) e)

-- Once the stop event is set, and no other thread arms the watchdog again, its thread returns in its first or its
-- second round, so that the destructor's wait for it ends: only a deadline that has passed comes before.
pub teardown_returns :
    (r r' : Round) (d : Device)
    → IsStopping r
    → IsStopping r'
    → returns_within (r ∷ r' ∷ []) d ≡ true
unfolding returns_within
teardown_returns r r' d s s' = elim (check-cases r.now (r.before d)) [
  | inr (t, e, same) ↦ let w = waits r d t s e in rw (w, returns_within) refl
  | inl (f, e) ↦
      let (on, zero_ms) = fires r d f e in
      let z : (r'.before (round r d).1).watchdog_timeout_ms ≡ 0 =
        s'.alone (round r d).1 ∙ zero_ms in
      let w = waits r' (round r d).1 none s' (disarmed r'.now (r'.before (round r d).1) z) in
      rw (on, returns_within) (rw (w, returns_within) refl)
]
