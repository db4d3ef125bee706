-- ===== src/Tests/WatchdogRuns.antt =====
-- The watchdog and the adapter's start at concrete inputs.
use nyan_real_vdd.Base.{◌≡◌, refl, true, false, some, [], ◌∷◌, arith, leb}
use nyan_real_vdd.Base.Bits.{has_bit}
use nyan_real_vdd.Protocol.{cap_hdr10_ready}
use nyan_real_vdd.Device.{Device, new_device, success, nt_success, done, failed}
use nyan_real_vdd.Device.Watchdog.{
  WatchdogEnv, floored, set_watchdog, check, Round, wait, stopped, after_wait, wait_failed,
}
use nyan_real_vdd.Device.Watchdog.Laws.{has_fired, set_watchdog_fires_iff, set_watchdog-after_wait}
use nyan_real_vdd.Driver.Entry.Teardown.{IsStopping, returns_within, teardown_returns}
use nyan_real_vdd.Device.Adapter.{AdapterEnv, init_adapter, attempts}
use nyan_real_vdd.Device.Adapter.Laws.{init_adapter_hdr, accepted_fp16, requested_fp16}

abbrev threads : WatchdogEnv
threads = record { wake_ok = true; stop_ok = true; thread_ok = true }

set_watchdog_run : nt_success (set_watchdog threads 5000 100 new_device).0 ≡ true
unfolding set_watchdog
set_watchdog_run = refl

-- Five seconds are raised to ten.
set_watchdog_fires_iff_example :
    has_fired (check 9000 (set_watchdog threads 5000 100 new_device).1).0 ≡ leb 10100 9000
set_watchdog_fires_iff_example =
    set_watchdog_fires_iff threads 5000 100 9000 new_device (omega arith) (omega arith)
      set_watchdog_run

abbrev armed : Device
armed = record new_device {
  watchdog_thread = true;
  watchdog_timeout_ms = 20000;
  watchdog_deadline = 20100;
}

check_run : (check 100 armed).0 ≡ wait (some 20000)
unfolding check
check_run = refl

-- The stop event is set while the deadline has passed: the thread fires and then returns.
abbrev stopping : Round
stopping = record { now = 30000; before = λ d. d; meanwhile = λ d. d; result = stopped }

stopping-IsStopping : IsStopping stopping
stopping-IsStopping = record { stops = refl; alone = λ d. refl }

teardown_returns_example : returns_within (stopping ∷ stopping ∷ []) armed ≡ true
teardown_returns_example =
    teardown_returns stopping stopping armed stopping-IsStopping stopping-IsStopping

-- The framework refuses FP16 and accepts the adapter without it.
abbrev reduced : AdapterEnv
reduced = record {
  version = some 0x1B01;
  enable_fp16 = 1;
  disable_flags = 0;
  fp16_disabled = false;
  first_attempt = failed 13;
  second_attempt = done;
  adapter_object = 1;
  before_request = λ d. d;
  before_conclude = λ d. d;
}

init_adapter_hdr_example :
    has_bit (init_adapter reduced new_device).cap_flags cap_hdr10_ready
    ≡ accepted_fp16 (attempts reduced (requested_fp16 reduced new_device))
init_adapter_hdr_example =
    init_adapter_hdr reduced new_device (record { started = λ d. refl; caps = λ d. refl })
      (record { started = λ d. refl; caps = λ d. refl }) refl refl refl

-- The system cannot start a thread any more.
set_watchdog-after_wait_example :
    let ended = after_wait wait_failed armed in
    let stuck : WatchdogEnv = record { wake_ok = true; stop_ok = true; thread_ok = false } in
    (ended.0 ≡ false)
    × ((set_watchdog stuck 30000 500 ended.1).0 ≡ success)
    × ((set_watchdog stuck 30000 500 ended.1).1.watchdog_timeout_ms ≡ floored 30000)
set_watchdog-after_wait_example =
    set_watchdog-after_wait (record { wake_ok = true; stop_ok = true; thread_ok = false }) 30000 500
      armed refl
