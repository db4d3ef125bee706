-- ===== src/Driver/SwapChain.antt =====
-- SwapChainProcessor (driver/src/Driver.h and Driver.cpp): the worker of a swap-chain, and the
-- threads that commit and stop it. Each step is one operation on the shared state, so the order of
-- the steps is the interleaving. The passes of RunCore over the frames are in Core.
pub mod Laws
pub mod Termination
pub mod Core
use nyan_real_vdd.Base.{
  ℕ, suc, ◌-◌, ◌<◌, ◌≡◌, Bool, true, false, ◌||◌, List, [], ◌∷◌, not, if◌then◌else◌,
}

-- SwapChainProcessor::Phase
pub data Phase : Type 0 where
  awaiting_commit initializing processing stop_requested finished : Phase

-- The statement of Run that the worker stands at.
pub data At : Type 0 where
  starting entering checking creating handing_over checking_again running leaving releasing storing
        ended :
      At

-- `deletions` counts the calls of WdfObjectDelete on the swap-chain, `committed` is the local variable
-- of Run, `stopping` counts the threads in Stop that took the phase and have not come to the flag of
-- DeleteSwapChainOnce yet, and `deleting` those that took the flag and have not deleted yet.
pub record Processor : Type 0 where
  pub phase : Phase
  pub commit_event : Bool
  pub terminate_event : Bool
  pub swap_chain_deleted : Bool
  pub deletions : ℕ
  pub committed : Bool
  pub position : At
  pub stopping : ℕ
  pub deleting : ℕ

-- A processor whose worker was just started.
abbrev pub new_processor : Processor
new_processor = record {
  phase = awaiting_commit;
  commit_event = false;
  terminate_event = false;
  swap_chain_deleted = false;
  deletions = 0;
  committed = false;
  position = starting;
  stopping = 0;
  deleting = 0;
}

-- The exchange of DeleteSwapChainOnce: whether this thread is the one that deletes.
unfoldable pub take_deletion : Processor → Bool × Processor
take_deletion p = (not p.swap_chain_deleted, record p { swap_chain_deleted = true })

-- The WdfObjectDelete of DeleteSwapChainOnce.
abbrev pub delete_object : Processor → Processor
delete_object p = record p { deletions = suc p.deletions }

-- Commit
abbrev pub commit : Processor → Processor
commit p = record p { commit_event = true }

-- The first statement of Stop.
abbrev pub signal_terminate : Processor → Processor
signal_terminate p = record p { terminate_event = true }

-- The loop of Stop over its compare-and-exchange, by the phase that it finds.
unfoldable pub request_stop : Phase → Processor → Processor
request_stop awaiting_commit p = record p { phase = stop_requested; stopping = suc p.stopping }
request_stop initializing p = record p { phase = stop_requested; stopping = suc p.stopping }
request_stop processing p = p
request_stop stop_requested p = p
request_stop finished p = p

-- The end of Stop where the exchange of the phase succeeded: DeleteSwapChainOnce takes the flag.
unfoldable pub take_stopped : Processor → Processor
take_stopped p =
    let (first, p') = take_deletion (record p { stopping = p.stopping - 1 }) in
    if first then record p' { deleting = suc p'.deleting } else p'

-- The thread that took the flag deletes the object.
unfoldable pub delete_stopped : Processor → Processor
delete_stopped p = delete_object (record p { deleting = p.deleting - 1 })

-- The exchange of AwaitingCommit with Initializing.
unfoldable pub enter : Phase → Processor → Processor
enter awaiting_commit p = record p { phase = initializing; position = checking }
enter initializing p = record p { position = leaving }
enter processing p = record p { position = leaving }
enter stop_requested p = record p { position = leaving }
enter finished p = record p { position = leaving }

-- The exchange of Initializing with Processing.
unfoldable pub hand_over : Phase → Processor → Processor
hand_over initializing p = record p { phase = processing; position = checking_again }
hand_over awaiting_commit p = record p { position = leaving }
hand_over processing p = record p { position = leaving }
hand_over stop_requested p = record p { position = leaving }
hand_over finished p = record p { position = leaving }

-- What the system answers to the worker: whether its first wait fails, whether the Direct3D device
-- comes up, and whether RunCore ends in its next pass for a reason other than the event.
pub record WorkerEnv : Type 0 where
  pub wait_fails : Bool
  pub device_ok : Bool
  pub core_ends : Bool

-- The statement of Run at one position. The first wait answers the commit event first; with neither
-- event set it goes on waiting. A pass of RunCore ends at the latest when the next begins with the
-- terminate event set.
unfoldable pub run_at : At → WorkerEnv → Processor → Processor
run_at starting env p =
    if env.wait_fails
    then record p { committed = false; position = leaving }
    else if p.commit_event
    then record p { committed = true; position = entering }
    else if p.terminate_event
    then record p { committed = false; position = leaving }
    else p
run_at entering env p = enter p.phase p
run_at checking env p = record p { position = if p.terminate_event then leaving else creating }
run_at creating env p = record p { position = if env.device_ok then handing_over else leaving }
run_at handing_over env p = hand_over p.phase p
run_at checking_again env p = record p { position = if p.terminate_event then leaving else running }
run_at running env p = record p {
  position = if p.terminate_event || env.core_ends then leaving else running;
}
run_at leaving env p =
    if p.committed
    then (let (first, p') = take_deletion p in
        record p' { position = if first then releasing else storing })
    else record p { position = storing }
run_at releasing env p = delete_object (record p { position = storing })
run_at storing env p = record p { phase = finished; position = ended }
run_at ended env p = p

-- One step of the worker.
unfoldable pub run : WorkerEnv → Processor → Processor
run env p = run_at p.position env p

-- The worker alone, one answer of the system for each step.
unfoldable pub run_all : List WorkerEnv → Processor → Processor
run_all [] p = p
run_all (env ∷ envs) p = run_all envs (run env p)

-- A step of any thread. A thread reaches the exchange of Stop only after it set the event.
pub data Step : Processor → Processor → Type 0 where
  commits : (p : Processor) → Step p (commit p)
  signals : (p : Processor) → Step p (signal_terminate p)
  requests : (p : Processor) → p.terminate_event ≡ true → Step p (request_stop p.phase p)
  takes : (p : Processor) → 0 < p.stopping → Step p (take_stopped p)
  deletes : (p : Processor) → 0 < p.deleting → Step p (delete_stopped p)
  works : (env : WorkerEnv) (p : Processor) → Step p (run env p)

pub data Reach : Processor → Type 0 where
  start : Reach new_processor
  next : (p q : Processor) → Reach p → Step p q → Reach q
