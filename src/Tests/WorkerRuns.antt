-- ===== src/Tests/WorkerRuns.antt =====
-- The swap-chain worker and the frame publisher at concrete inputs.
use nyan_real_vdd.Base.{◌≤◌, ◌≡◌, refl, true, false, List, [], ◌∷◌, arith}
use nyan_real_vdd.Driver.SwapChain.{
  Processor, new_processor, processing, finished, ended, running, WorkerEnv, run, run_at, run_all,
  enter, hand_over, commit, signal_terminate, commits, works, Reach, start, next,
}
use nyan_real_vdd.Driver.SwapChain.Termination.{run_all_terminates}
use nyan_real_vdd.Driver.SwapChain.Laws.{owns_chain, Reach-owned}

-- The device comes up, and RunCore ends by itself after one pass.
abbrev one_pass : WorkerEnv
one_pass = record { wait_fails = false; device_ok = true; core_ends = true }

-- One more step of the worker.
worked : {p : Processor} → Reach p → Reach (run one_pass p)
worked {p} r = next p (run one_pass p) r (works one_pass p)

abbrev six_passes : List WorkerEnv
six_passes = one_pass ∷ one_pass ∷ one_pass ∷ one_pass ∷ one_pass ∷ one_pass ∷ []

abbrev in_core : Processor
in_core = record (commit new_processor) { committed = true; position = running; phase = processing }

in_core-Reach : Reach in_core
unfolding run run_at enter hand_over
in_core-Reach = worked (
    worked (
      worked (
        worked (
          worked
            (worked (next new_processor (commit new_processor) start (commits new_processor)))))))

Reach-owned_example :
    (in_core.deletions ≤ 1) × (owns_chain in_core.position ≡ true → in_core.deletions ≡ 0)
Reach-owned_example = Reach-owned in_core-Reach

abbrev at_end : Processor
at_end = record in_core {
  swap_chain_deleted = true;
  deletions = 1;
  phase = finished;
  position = ended;
}

run_all_terminates_example : (run_all six_passes (signal_terminate new_processor)).position ≡ ended
run_all_terminates_example =
    run_all_terminates six_passes (signal_terminate new_processor) refl (omega arith)
