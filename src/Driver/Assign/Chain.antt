-- ===== src/Driver/Assign/Chain.antt =====
-- IndirectMonitorContext and SwapChainProcessor together (driver/src/Driver.cpp): each worker of the heap moves as a
-- worker with its stopping threads does, so when it is destroyed its swap-chain has been deleted.
use nyan_real_vdd.Base.{
  ◌-◌, ◌<◌, ◌≡◌, refl, Bool, true, false, inl, inr, arith, Bool-cases, sym, subst, ◌∙◌, ap,
}
use nyan_real_vdd.Driver.SwapChain.{
  Phase, awaiting_commit, initializing, processing, stop_requested, finished, At, starting,
  entering, checking, creating, handing_over, checking_again, running, leaving, releasing, storing,
  ended, Processor, new_processor, commit, take_deletion, request_stop, take_stopped,
  delete_stopped, enter, hand_over, WorkerEnv, run_at, run, Reach, next,
}
use nyan_real_vdd.Driver.SwapChain
use nyan_real_vdd.Driver.Assign.{
  ThreadAt, not_started, in_run, before_release, before_exit, exited, Worker, new_worker, StartEnv,
  release, start, signal_stop, exchange_from, exchange_deleted, delete_chain, release_after,
  end_thread, WorkerStep, takes_phase, signals, requests, takes, deletes, releases, works, ends,
}

-- Run has returned.
abbrev pub is_past_run : ThreadAt → Bool
is_past_run not_started = false
is_past_run in_run = false
is_past_run before_release = true
is_past_run before_exit = true
is_past_run exited = true

-- The core was reached by steps of the worker and its stopping threads, and stands as the thread does.
pub record WorkerReach (w : Worker) : Type 0 where
  pub reached : Reach w.core
  pub told : 0 < w.to_request → w.core.terminate_event ≡ true
  pub idle : w.thread ≡ not_started → w.core.committed ≡ false
  pub past : is_past_run w.thread ≡ true → w.core.position ≡ ended

-- What no thread but the worker's own changes.
record SameRun (p q : Processor) : Type 0 where
  pub told : p.terminate_event ≡ true → q.terminate_event ≡ true
  committed : q.committed ≡ p.committed
  position : q.position ≡ p.position

request_stop-SameRun : (f : Phase) (p : Processor) → SameRun p (request_stop f p)
unfolding request_stop
request_stop-SameRun awaiting_commit p = ground arith
request_stop-SameRun initializing p = ground arith
request_stop-SameRun processing p = ground arith
request_stop-SameRun stop_requested p = ground arith
request_stop-SameRun finished p = ground arith

take_stopped-SameRun : (p : Processor) → SameRun p (take_stopped p)
unfolding take_stopped take_deletion
take_stopped-SameRun p = ground arith

delete_stopped-SameRun : (p : Processor) → SameRun p (delete_stopped p)
unfolding delete_stopped
delete_stopped-SameRun p = ground arith

-- A step of another thread on the core.
stepped :
    (w w' : Worker)
    → Reach w'.core
    → SameRun w.core w'.core
    → (0 < w'.to_request → w'.core.terminate_event ≡ true)
    → w'.thread ≡ w.thread
    → WorkerReach w
    → WorkerReach w'
stepped w w' r s told thread v = record {
  reached = r;
  told = told;
  idle = λ e. s.committed ∙ v.idle (sym thread ∙ e);
  past = λ e. s.position ∙ v.past (ap is_past_run (sym thread) ∙ e);
}

-- What changes neither the core nor the thread, nor adds a thread before the exchange of Stop.
pub record SameCore (w w' : Worker) : Type 0 where
  pub core : w'.core ≡ w.core
  pub requests : w'.to_request ≡ w.to_request
  pub thread : w'.thread ≡ w.thread

release-SameCore : (w : Worker) → SameCore w (release w)
unfolding release
release-SameCore w = ground arith

pub same-WorkerReach : (w w' : Worker) → SameCore w w' → WorkerReach w → WorkerReach w'
same-WorkerReach w w' s v = record {
  reached = subst Reach (sym s.core) v.reached;
  told = λ h.
      ap (λ (p : Processor). p.terminate_event) s.core ∙ v.told (subst (λ n. 0 < n) s.requests h);
  idle = λ e. ap (λ (p : Processor). p.committed) s.core ∙ v.idle (sym s.thread ∙ e);
  past =
      λ e. ap (λ (p : Processor). p.position) s.core ∙ v.past (ap is_past_run (sym s.thread) ∙ e);
}

-- The exchange of Stop, after the terminate event was set.
exchange_from-core : (f : Phase) (w : Worker) → (exchange_from f w).core ≡ request_stop f w.core
unfolding exchange_from
exchange_from-core f w = ground arith

exchange_from-WorkerReach :
    (w : Worker) → 0 < w.to_request → WorkerReach w → WorkerReach (exchange_from w.core.phase w)
unfolding exchange_from
exchange_from-WorkerReach w h v =
    let p : Processor = request_stop w.core.phase w.core in
    let s = request_stop-SameRun w.core.phase w.core in
    let told = v.told h in
    let r : Reach p = next w.core p v.reached (SwapChain.requests w.core told) in
    elim (Bool-cases (takes_phase w.core.phase)) [
      | inl won ↦ simp won (stepped w _ r s (λ x. s.told told) refl v)
      | inr lost ↦ simp lost (stepped w _ r s (λ x. s.told told) refl v)
    ]

exchange_deleted-WorkerReach :
    (w : Worker) → 0 < w.core.stopping → WorkerReach w → WorkerReach (exchange_deleted w)
unfolding exchange_deleted
exchange_deleted-WorkerReach w h v =
    let p : Processor = take_stopped w.core in
    let s = take_stopped-SameRun w.core in
    let r : Reach p = next w.core p v.reached (SwapChain.takes w.core h) in
    elim (Bool-cases w.core.swap_chain_deleted) [
      | inl late ↦ simp late (stepped w _ r s (λ x. s.told (v.told x)) refl v)
      | inr first ↦ simp first (stepped w _ r s (λ x. s.told (v.told x)) refl v)
    ]

delete_chain-WorkerReach :
    (w : Worker) → 0 < w.core.deleting → WorkerReach w → WorkerReach (delete_chain w)
unfolding delete_chain
delete_chain-WorkerReach w h v =
    let s = delete_stopped-SameRun w.core in
    stepped w (delete_chain w)
      (next w.core (delete_stopped w.core) v.reached (SwapChain.deletes w.core h)) s
      (λ x. s.told (v.told x)) refl v

signal_stop-WorkerReach : (w : Worker) → WorkerReach w → WorkerReach (signal_stop w)
unfolding signal_stop
signal_stop-WorkerReach w v =
    stepped w (signal_stop w) (next w.core _ v.reached (SwapChain.signals w.core))
      (record { told = λ e. refl; committed = refl; position = refl }) (λ x. refl) refl v

release_after-WorkerReach : (w : Worker) → WorkerReach w → WorkerReach (release_after w)
unfolding release_after
release_after-WorkerReach w v =
    let w' = record w { to_release = w.to_release - 1 } in
    same-WorkerReach w' (release w') (release-SameCore w')
      (same-WorkerReach w w' (record { core = refl; requests = refl; thread = refl }) v)

pub commit-WorkerReach :
    (w : Worker) → WorkerReach w → WorkerReach (record w { core = commit w.core })
commit-WorkerReach w v =
    stepped w (record w { core = commit w.core })
      (next w.core (commit w.core) v.reached (SwapChain.commits w.core))
      (record { told = λ e. e; committed = refl; position = refl }) v.told refl v

-- The worker's own steps leave the terminate event set.
enter-told :
    (f : Phase) (p : Processor) → p.terminate_event ≡ true → (enter f p).terminate_event ≡ true
unfolding enter
enter-told awaiting_commit p e = e
enter-told initializing p e = e
enter-told processing p e = e
enter-told stop_requested p e = e
enter-told finished p e = e

hand_over-told :
    (f : Phase) (p : Processor) → p.terminate_event ≡ true → (hand_over f p).terminate_event ≡ true
unfolding hand_over
hand_over-told awaiting_commit p e = e
hand_over-told initializing p e = e
hand_over-told processing p e = e
hand_over-told stop_requested p e = e
hand_over-told finished p e = e

run_at-told :
    (a : At) (env : WorkerEnv) (p : Processor)
    → p.terminate_event ≡ true
    → (run_at a env p).terminate_event ≡ true
unfolding run_at take_deletion
run_at-told starting env p e = ground arith
run_at-told entering env p e = enter-told p.phase p e
run_at-told checking env p e = ground arith
run_at-told creating env p e = ground arith
run_at-told handing_over env p e = hand_over-told p.phase p e
run_at-told checking_again env p e = ground arith
run_at-told running env p e = ground arith
run_at-told leaving env p e = ground arith
run_at-told releasing env p e = ground arith
run_at-told storing env p e = ground arith
run_at-told ended env p e = e

works-WorkerReach :
    (env : WorkerEnv) (w : Worker)
    → w.thread ≡ in_run
    → WorkerReach w
    → WorkerReach (record w { core = run env w.core })
unfolding run
works-WorkerReach env w runs v = record {
  reached = next w.core _ v.reached (SwapChain.works env w.core);
  told = λ h. run_at-told w.core.position env w.core (v.told h);
  idle = λ e. let f : in_run ≡ not_started = sym runs ∙ e in absurd cc;
  past = λ e. let f : false ≡ true = ap is_past_run (sym runs) ∙ e in absurd cc;
}

end_thread-WorkerReach :
    (t : ThreadAt) (w : Worker)
    → w.thread ≡ t
    → w.core.position ≡ ended
    → WorkerReach w
    → WorkerReach (end_thread t w)
unfolding end_thread release
end_thread-WorkerReach not_started w e at_end v = v
end_thread-WorkerReach in_run w e at_end v = record {
  reached = v.reached;
  told = v.told;
  idle = λ f. absurd cc;
  past = λ f. at_end;
}
end_thread-WorkerReach before_release w e at_end v =
    let w' = record w { thread = before_exit } in
    same-WorkerReach w' (release w') (release-SameCore w')
      (record { reached = v.reached; told = v.told; idle = λ f. absurd cc; past = λ f. at_end })
end_thread-WorkerReach before_exit w e at_end v = record {
  reached = v.reached;
  told = v.told;
  idle = λ f. absurd cc;
  past = λ f. at_end;
}
end_thread-WorkerReach exited w e at_end v = v

pub WorkerStep-WorkerReach : {w w' : Worker} → WorkerStep w w' → WorkerReach w → WorkerReach w'
WorkerStep-WorkerReach {w} (signals h) v = signal_stop-WorkerReach w v
WorkerStep-WorkerReach {w} (requests h) v = exchange_from-WorkerReach w h v
WorkerStep-WorkerReach {w} (takes h) v = exchange_deleted-WorkerReach w h v
WorkerStep-WorkerReach {w} (deletes h) v = delete_chain-WorkerReach w h v
WorkerStep-WorkerReach {w} (releases h) v = release_after-WorkerReach w v
WorkerStep-WorkerReach {w} (works env runs) v = works-WorkerReach env w runs v
WorkerStep-WorkerReach {w} (ends at_end) v = end_thread-WorkerReach w.thread w refl at_end v

-- A worker whose thread, if any, has just entered Run.
fresh-WorkerReach :
    (w : Worker)
    → w.core ≡ new_processor
    → w.to_request ≡ 0
    → is_past_run w.thread ≡ false
    → WorkerReach w
fresh-WorkerReach w e none_there runs = record {
  reached = subst Reach (sym e) SwapChain.start;
  told = λ h. absurd (omega arith);
  idle = λ f. ap (λ (p : Processor). p.committed) e;
  past = λ f. absurd cc;
}

pub start-WorkerReach : (env : StartEnv) → WorkerReach (start env new_worker).1
unfolding start release
start-WorkerReach env = elim (Bool-cases env.commit_event) [
  | inr a ↦ simp a (fresh-WorkerReach _ refl refl refl)
  | inl a ↦ elim (Bool-cases env.terminate_event) [
    | inr b ↦ simp (a, b) (fresh-WorkerReach _ refl refl refl)
    | inl b ↦ elim (Bool-cases env.pins) [
      | inr c ↦ simp (a, b, c) (fresh-WorkerReach _ refl refl refl)
      | inl c ↦ elim (Bool-cases env.thread) [
        | inr d ↦ simp (a, b, c, d) (fresh-WorkerReach _ refl refl refl)
        | inl d ↦ simp (a, b, c, d) (fresh-WorkerReach _ refl refl refl)
      ]
    ]
  ]
]
