-- ===== src/Driver/Assign.antt =====
-- SwapChainProcessor::Start, AddRef, Release and the end of RunThread, and IndirectMonitorContext
-- (driver/src/Driver.h, Driver.cpp): who owns a swap-chain worker. The workers are a heap. What Assign and
-- Unassign do under `m_Lock` is one step; what they do after it, Stop and Release, is a step for each operation
-- on the worker, and the counters of a worker say how many threads stand before which of them.
pub mod Laws
pub mod Context
pub mod Reach
pub mod Abandon
pub mod Chain
pub mod Deleted
use nyan_real_vdd.Base.{
  ℕ, zero, suc, ◌+◌, ◌-◌, ◌<◌, ◌≡◌, Bool, true, false, not, ◌&&◌, ◌||◌, Option, none, some, ◌==◌,
  if◌then◌else◌,
}
use nyan_real_vdd.Device.{NtStatus, success, abandon_swapchain, update}
use nyan_real_vdd.Driver.SwapChain.{
  Phase, awaiting_commit, initializing, processing, stop_requested, finished, Processor, WorkerEnv,
  new_processor, commit, signal_terminate, request_stop, take_stopped, delete_stopped, run, ended,
}

-- Where RunThread stands: before its start, in Run, before its Release, before FreeLibraryAndExitThread, after it.
pub data ThreadAt : Type 0 where
  not_started in_run before_release before_exit exited : ThreadAt

-- SwapChainProcessor: the part of the worker, its references, its handles and the member `m_Module`; whether the
-- module is pinned for it; where its thread stands; and the calls after `m_Lock` was left: how many threads are
-- about to enter Stop, how many have set the terminate event there and not yet looked at the phase, and how many
-- are about to call Release. The threads further on in Stop are counted in the core.
pub record Worker : Type 0 where
  pub core : Processor
  pub refs : ℕ
  pub commit_handle : Bool
  pub terminate_handle : Bool
  pub module_member : Bool
  pub module_pinned : Bool
  pub thread_handle : Bool
  pub thread : ThreadAt
  pub destroyed : Bool
  pub to_stop : ℕ
  pub to_request : ℕ
  pub to_release : ℕ

-- The constructor.
abbrev pub new_worker : Worker
new_worker = record {
  core = new_processor;
  refs = 1;
  commit_handle = false;
  terminate_handle = false;
  module_member = false;
  module_pinned = false;
  thread_handle = false;
  thread = not_started;
  destroyed = false;
  to_stop = 0;
  to_request = 0;
  to_release = 0;
}

-- Which of the calls of Start succeed.
pub record StartEnv : Type 0 where
  pub commit_event : Bool
  pub terminate_event : Bool
  pub pins : Bool
  pub thread : Bool

-- AddRef
abbrev pub add_ref : Worker → Worker
add_ref w = record w { refs = suc w.refs }

-- Release, with the destructor.
unfoldable pub release : Worker → Worker
release w =
    if w.refs - 1 == 0
    then record w {
      refs = 0;
      commit_handle = false;
      terminate_handle = false;
      thread_handle = false;
      destroyed = true;
    }
    else record w { refs = w.refs - 1 }

-- Start: whether it succeeds.
unfoldable pub start : StartEnv → Worker → Bool × Worker
start env w =
    if w.thread_handle || (w.commit_handle || w.terminate_handle)
    then (false, w)
    else if not env.commit_event
    then (false, w)
    else if not env.terminate_event
    then (false, record w { commit_handle = false })
    else if not env.pins
    then (false, record w { commit_handle = false; terminate_handle = false })
    else (let owned = add_ref (record w {
      commit_handle = true;
      terminate_handle = true;
      module_member = true;
      module_pinned = true;
    }) in
        if env.thread then (true, record owned { thread_handle = true; thread = in_run }) else (
          false,
          record (release owned) {
            module_member = false;
            module_pinned = false;
            commit_handle = false;
            terminate_handle = false;
          },
        ))

-- The exchange in Stop succeeds.
abbrev pub takes_phase : Phase → Bool
takes_phase awaiting_commit = true
takes_phase initializing = true
takes_phase processing = false
takes_phase stop_requested = false
takes_phase finished = false

-- The first statement of Stop.
unfoldable pub signal_stop : Worker → Worker
signal_stop w = record w {
  to_stop = w.to_stop - 1;
  to_request = suc w.to_request;
  core = signal_terminate w.core;
}

-- The exchange in Stop, by the phase that it finds. Where it does not succeed, Stop returns.
unfoldable pub exchange_from : Phase → Worker → Worker
exchange_from found w =
    let w' = record w { to_request = w.to_request - 1; core = request_stop found w.core } in
    if takes_phase found then w' else record w' { to_release = suc w.to_release }

abbrev pub exchange_phase : Worker → Worker
exchange_phase w = exchange_from w.core.phase w

-- The exchange in DeleteSwapChainOnce. Where another thread came first, Stop returns.
unfoldable pub exchange_deleted : Worker → Worker
exchange_deleted w =
    let w' = record w { core = take_stopped w.core } in
    if w.core.swap_chain_deleted then record w' { to_release = suc w.to_release } else w'

-- The deletion of the swap-chain, at the end of Stop.
unfoldable pub delete_chain : Worker → Worker
delete_chain w = record w { core = delete_stopped w.core; to_release = suc w.to_release }

-- The Release after Stop, of a retired worker, or of one that could not be started.
unfoldable pub release_after : Worker → Worker
release_after w = release (record w { to_release = w.to_release - 1 })

-- IsFinished
abbrev is_finished_phase : Phase → Bool
is_finished_phase finished = true
is_finished_phase awaiting_commit = false
is_finished_phase initializing = false
is_finished_phase processing = false
is_finished_phase stop_requested = false

abbrev pub is_finished : Worker → Bool
is_finished w = is_finished_phase w.core.phase

-- IndirectMonitorContext: m_ProcessingThread, and the heap of workers. `committing` is the worker that an Assign,
-- which still holds `m_Lock`, is about to commit.
pub record MonitorContext : Type 0 where
  pub current : Option ℕ
  pub committing : Option ℕ
  pub next : ℕ
  pub workers : ℕ → Option Worker

abbrev pub new_context : MonitorContext
new_context = record { current = none; committing = none; next = 0; workers = λ _. none }

abbrev pub map_worker : (Worker → Worker) → Option Worker → Option Worker
map_worker f none = none
map_worker f (some w) = some (f w)

-- A change of the worker with that reference.
abbrev pub change : ℕ → (Worker → Worker) → MonitorContext → MonitorContext
change k f c = record c { workers = update c.workers k (map_worker f (c.workers k)) }

-- The worker that Assign finds is finished, so it is retired.
abbrev pub is_retired : Option Worker → Bool
is_retired none = false
is_retired (some w) = is_finished w

-- The thread that called is going to release the worker.
abbrev pub owe_release : Worker → Worker
owe_release w = record w { to_release = suc w.to_release }

-- The thread that called is going to stop the worker, and then to release it.
abbrev pub owe_stop : Worker → Worker
owe_stop w = record w { to_stop = suc w.to_stop }

-- After Start: the worker becomes current and is about to be committed, or is about to be released.
abbrev settle_start : MonitorContext → Bool × Worker → NtStatus × MonitorContext
settle_start c (true, w) = (
  success,
  record c {
    current = some c.next;
    committing = some c.next;
    next = suc c.next;
    workers = update c.workers c.next (some w);
  },
)
settle_start c (false, w) = (
  abandon_swapchain,
  record c { next = suc c.next; workers = update c.workers c.next (some (owe_release w)) },
)

-- AssignSwapChain where no worker is current; the flag says whether `new` succeeds.
unfoldable pub assign_new : StartEnv → Bool → MonitorContext → NtStatus × MonitorContext
assign_new env allocated c =
    if allocated then settle_start c (start env new_worker) else (abandon_swapchain, c)

-- AssignSwapChain where a worker is current.
unfoldable pub assign_over : StartEnv → Bool → ℕ → MonitorContext → NtStatus × MonitorContext
assign_over env allocated k c =
    if is_retired (c.workers k)
    then (let (status, c') = assign_new env allocated (record c { current = none }) in
        (status, change k owe_release c'))
    else (abandon_swapchain, change k (λ w. owe_stop (add_ref w)) c)

abbrev pub assign_to : StartEnv → Bool → Option ℕ → MonitorContext → NtStatus × MonitorContext
assign_to env allocated none c = assign_new env allocated c
assign_to env allocated (some k) c = assign_over env allocated k c

-- AssignSwapChain under `m_Lock`, up to Commit: the status that it is going to answer, and the state, in which the
-- calls that it is going to make are counted.
unfoldable pub assign_locked : StartEnv → Bool → MonitorContext → NtStatus × MonitorContext
assign_locked env allocated c = assign_to env allocated c.current c

-- The Commit of AssignSwapChain, with which it leaves `m_Lock`.
unfoldable pub commit_current : ℕ → MonitorContext → MonitorContext
commit_current k c =
    change k (λ w. record w { core = commit w.core }) (record c { committing = none })

abbrev pub unassign_from : Option ℕ → MonitorContext → MonitorContext
unassign_from none c = c
unassign_from (some k) c = change k owe_stop (record c { current = none })

-- UnassignSwapChain, which the destructor calls too, under `m_Lock`.
unfoldable pub unassign_locked : MonitorContext → MonitorContext
unassign_locked c = unassign_from c.current c

-- The statement of RunThread after Run that its thread stands at.
unfoldable pub end_thread : ThreadAt → Worker → Worker
end_thread not_started w = w
end_thread in_run w = record w { module_member = false; thread = before_release }
end_thread before_release w = release (record w { thread = before_exit })
end_thread before_exit w = record w { module_pinned = false; thread = exited }
end_thread exited w = w

-- One operation on a worker, by a thread in Stop, by one that is about to release it, or by its own thread, in
-- Run or after it.
pub data WorkerStep (w : Worker) : Worker → Type 0 where
  signals : 0 < w.to_stop → WorkerStep w (signal_stop w)
  requests : 0 < w.to_request → WorkerStep w (exchange_phase w)
  takes : 0 < w.core.stopping → WorkerStep w (exchange_deleted w)
  deletes : 0 < w.core.deleting → WorkerStep w (delete_chain w)
  releases : 0 < w.to_release → WorkerStep w (release_after w)
  works : (env : WorkerEnv) → w.thread ≡ in_run → WorkerStep w (record w { core = run env w.core })
  ends : w.core.position ≡ ended → WorkerStep w (end_thread w.thread w)

-- A step: a region of Assign or Unassign under `m_Lock`, which Assign keeps up to its Commit, or an operation on a
-- worker, which needs no lock.
pub data ContextStep : MonitorContext → MonitorContext → Type 0 where
  assigns :
      (env : StartEnv) (allocated : Bool) (c : MonitorContext)
      → c.committing ≡ none
      → ContextStep c (assign_locked env allocated c).1
  commits :
      (k : ℕ) (c : MonitorContext) → c.committing ≡ some k → ContextStep c (commit_current k c)
  unassigns : (c : MonitorContext) → c.committing ≡ none → ContextStep c (unassign_locked c)
  moves :
      (k : ℕ) (w w' : Worker) (c : MonitorContext)
      → c.workers k ≡ some w
      → WorkerStep w w'
      → ContextStep c (record c { workers = update c.workers k (some w') })

pub data ContextReach : MonitorContext → Type 0 where
  begins : ContextReach new_context
  continues : (c c' : MonitorContext) → ContextReach c → ContextStep c c' → ContextReach c'
