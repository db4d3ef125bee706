-- ===== src/Tests/ChainRuns.antt =====
-- The ownership of swap-chain workers, the passes of a worker, and the log, at
-- concrete inputs.
use nyan_real_vdd.Base.{◌≡◌, refl, true, false, some, arith}
use nyan_real_vdd.Device.{update}
use nyan_real_vdd.Driver.SwapChain.{
  run, run_at, enter, request_stop, take_deletion, take_stopped, delete_stopped, WorkerEnv,
  awaiting_commit, starting, finished,
}
use nyan_real_vdd.Driver.Assign.{
  StartEnv, Worker, MonitorContext, new_context, start, release, assign_new, assign_locked,
  commit_current, unassign_locked, signal_stop, exchange_from, exchange_phase, exchange_deleted,
  delete_chain, release_after, end_thread, in_run, WorkerStep, signals, requests, takes, deletes,
  releases, works, ends, assigns, commits, unassigns, moves, ContextReach, begins, continues,
}
use nyan_real_vdd.Driver.Assign.Context.{ContextOk}
use nyan_real_vdd.Driver.Assign.Reach.{ContextReach-ContextOk}
use nyan_real_vdd.Driver.Assign.Deleted.{destroyed-deleted}
use nyan_real_vdd.Driver.Log.{LogEnv, LogFiles, nyan_vdd_log}
use nyan_real_vdd.Driver.Log.Laws.{
  has_aborted, nyan_vdd_log_aborts_iff, BoundedAfter, nyan_vdd_log-Bounded,
}

abbrev starts : StartEnv
starts = record { commit_event = true; terminate_event = true; pins = true; thread = true }

-- The first chain of the monitor is assigned and committed.
abbrev assigned : MonitorContext
assigned = commit_current 0 (assign_locked starts true new_context).1

assigned-Reach : ContextReach assigned
unfolding assign_locked assign_new start
assigned-Reach =
    continues (assign_locked starts true new_context).1 assigned
      (continues new_context (assign_locked starts true new_context).1 begins
        (assigns starts true new_context refl))
      (commits 0 (assign_locked starts true new_context).1 refl)

ContextReach-ContextOk_example : ContextOk assigned
ContextReach-ContextOk_example = ContextReach-ContextOk assigned-Reach

-- Worker 0 takes a step.
act :
    (w w' : Worker) {c : MonitorContext}
    → ContextReach c
    → c.workers 0 ≡ some w
    → WorkerStep w w'
    → ContextReach (record c { workers = update c.workers 0 (some w') })
act w w' {c} r e s =
    continues c (record c { workers = update c.workers 0 (some w') }) r (moves 0 w w' c e s)

abbrev answers : WorkerEnv
answers = record { wait_fails = false; device_ok = true; core_ends = true }

-- The chain is unassigned; Stop takes the phase and the flag before the worker, and deletes after it has ended.
abbrev w0 : Worker
w0 = record {
  core = record {
    phase = awaiting_commit;
    commit_event = true;
    terminate_event = false;
    swap_chain_deleted = false;
    deletions = 0;
    committed = false;
    position = starting;
    stopping = 0;
    deleting = 0;
  };
  refs = 2;
  commit_handle = true;
  terminate_handle = true;
  module_member = true;
  module_pinned = true;
  thread_handle = true;
  thread = in_run;
  destroyed = false;
  to_stop = 1;
  to_request = 0;
  to_release = 0;
}

abbrev w1 : Worker
w1 = signal_stop w0

abbrev w2 : Worker
w2 = record w1 { core = run answers w1.core }

abbrev w3 : Worker
w3 = exchange_phase w2

abbrev w4 : Worker
w4 = record w3 { core = run answers w3.core }

abbrev w5 : Worker
w5 = exchange_deleted w4

abbrev w6 : Worker
w6 = record w5 { core = run answers w5.core }

abbrev w7 : Worker
w7 = record w6 { core = run answers w6.core }

abbrev w8 : Worker
w8 = end_thread w7.thread w7

abbrev w9 : Worker
w9 = end_thread w8.thread w8

abbrev w10 : Worker
w10 = delete_chain w9

abbrev w11 : Worker
w11 = release_after w10

unassigned-Reach : ContextReach (unassign_locked assigned)
unfolding assign_locked assign_new start commit_current
unassigned-Reach =
    continues assigned (unassign_locked assigned) assigned-Reach (unassigns assigned refl)

-- The context with another state of worker 0.
abbrev put : Worker → MonitorContext → MonitorContext
put w c = record c { workers = update c.workers 0 (some w) }

abbrev final : MonitorContext
final = put w11 (
    put w10 (
      put w9 (
        put w8 (
          put w7
            (put w6 (put w5 (put w4 (put w3 (put w2 (put w1 (unassign_locked assigned)))))))))))

final-Reach : ContextReach final
unfolding signal_stop exchange_from request_stop exchange_deleted take_stopped take_deletion
    delete_chain delete_stopped release_after release end_thread run run_at enter assign_locked
    assign_new start commit_current unassign_locked
final-Reach =
    act w10 w11
      (act w9 w10
        (act w8 w9
          (act w7 w8
            (act w6 w7
              (act w5 w6
                (act w4 w5
                  (act w3 w4
                    (act w2 w3
                      (act w1 w2 (act w0 w1 (unassigned-Reach) refl (signals (omega arith))) refl
                        (works answers refl))
                      refl (requests (omega arith)))
                    refl (works answers refl))
                  refl (takes (omega arith)))
                refl (works answers refl))
              refl (works answers refl))
            refl (ends refl))
          refl (ends refl))
        refl (deletes (omega arith)))
      refl (releases (omega arith))

destroyed-deleted_example : (w11.core.deletions ≡ 1) × (w11.core.phase ≡ finished)
unfolding signal_stop exchange_from request_stop exchange_deleted take_stopped take_deletion
    delete_chain delete_stopped release_after release end_thread run run_at enter assign_locked
    assign_new start commit_current unassign_locked
destroyed-deleted_example = destroyed-deleted final-Reach 0 w11 refl refl refl

abbrev log_env : LogEnv
log_env = record { opens = true; size_known = true; moves = true; reopens = true; converts = true }

abbrev full_log : LogFiles
full_log = record { log = 1048576; old = 7 }

nyan_vdd_log_aborts_iff_example : has_aborted (nyan_vdd_log log_env 501 full_log) ≡ true
nyan_vdd_log_aborts_iff_example = nyan_vdd_log_aborts_iff log_env 501 full_log

nyan_vdd_log-Bounded_example : BoundedAfter (nyan_vdd_log log_env 100 full_log)
nyan_vdd_log-Bounded_example =
    nyan_vdd_log-Bounded log_env 100 full_log refl refl
      (record { log = omega arith; old = omega arith })
