-- ===== src/Driver/Assign/Abandon.antt =====
-- AssignSwapChain (driver/src/Driver.cpp): what becomes of the new chain and of the current worker.
use nyan_real_vdd.Base.{ℕ, suc, ◌≡◌, Bool, true, false, none, some}
use nyan_real_vdd.Device.{NtStatus, success, abandon_swapchain}
use nyan_real_vdd.Driver.SwapChain.{new_processor}
use nyan_real_vdd.Driver.Assign.{
  not_started, in_run, Worker, is_finished, owe_release, MonitorContext,
}
use nyan_real_vdd.Driver.Assign.Laws.{is_current}

-- What Start leaves.
StartedFacts : Bool × Worker → Type 0
StartedFacts (true, w) = (w.refs ≡ 2) × (w.thread ≡ in_run) × (w.core ≡ new_processor)
StartedFacts (false, w) =
    (w.refs ≡ 1) × (w.to_release ≡ 0) × (w.thread ≡ not_started) × (w.core ≡ new_processor)

-- The outcomes of AssignSwapChain under the lock.
pub data AssignOutcome (c c' : MonitorContext) : NtStatus → Type 0 where
  accepts :
      (w : Worker)
      → c'.current ≡ some c.next
      → c'.committing ≡ some c.next
      → c'.workers c.next ≡ some w
      → w.refs ≡ 2
      → w.thread ≡ in_run
      → w.core ≡ new_processor
      → AssignOutcome c c' success
  gives_up :
      c'.current ≡ none
      → (w : Worker) → c'.workers c.next ≡ some w
      → w.refs ≡ 1
      → w.to_release ≡ 1
      → w.thread ≡ not_started
      → w.core ≡ new_processor
      → AssignOutcome c c' abandon_swapchain
  allocates_nothing : c'.current ≡ none → c'.next ≡ c.next → AssignOutcome c c' abandon_swapchain
  keeps_current :
      (k : ℕ) (w w' : Worker)
      → c.current ≡ some k
      → c.workers k ≡ some w
      → is_finished w ≡ false
      → c'.current ≡ some k
      → c'.workers k ≡ some w'
      → w'.core ≡ w.core
      → w'.refs ≡ suc w.refs
      → w'.to_stop ≡ suc w.to_stop
      → c'.next ≡ c.next
      → AssignOutcome c c' abandon_swapchain

-- A current worker that is finished is no longer current, and the caller is going to release it.
pub Retires : MonitorContext → MonitorContext → Type 0
Retires c c' =
    (k : ℕ) (w : Worker)
    → c.current ≡ some k
    → c.workers k ≡ some w
    → is_finished w ≡ true
    → (is_current c'.current k ≡ false) × (c'.workers k ≡ some (owe_release w))
