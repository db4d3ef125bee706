-- ===== src/Driver/Assign/Laws.antt =====
-- Each worker (SwapChainProcessor, driver/src/Driver.cpp) is destroyed exactly when nobody holds a reference:
-- neither its monitor, nor its thread, nor a thread that is going to stop or to release it.
use nyan_real_vdd.Base.{
  ℕ, ◌+◌, ◌<◌, ◌≡◌, refl, Bool, true, false, inl, inr, Option, none, some, arith, Bool-cases, ◌==◌,
}
use nyan_real_vdd.Driver.SwapChain.{
  Phase, awaiting_commit, initializing, processing, stop_requested, finished, At, starting,
  entering, checking, creating, handing_over, checking_again, running, leaving, releasing, storing,
  ended, Processor, take_deletion, request_stop, take_stopped, delete_stopped, enter, hand_over,
  WorkerEnv, run_at, run,
}
use nyan_real_vdd.Driver.Assign.{
  ThreadAt, not_started, in_run, before_release, before_exit, exited, Worker, new_worker, StartEnv,
  add_ref, release, start, signal_stop, exchange_from, exchange_deleted, delete_chain,
  release_after, owe_release, owe_stop, end_thread, WorkerStep, signals, requests, takes, deletes,
  releases, works, ends,
}

abbrev pub count : Bool → ℕ
count true = 1
count false = 0

-- RunThread has not called Release yet.
abbrev pub holds : ThreadAt → Bool
holds not_started = false
holds in_run = true
holds before_release = true
holds before_exit = false
holds exited = false

-- RunThread still executes code of the module.
abbrev pub in_module : ThreadAt → Bool
in_module not_started = false
in_module in_run = true
in_module before_release = true
in_module before_exit = true
in_module exited = false

abbrev pub is_running : ThreadAt → Bool
is_running not_started = false
is_running in_run = true
is_running before_release = false
is_running before_exit = false
is_running exited = false

-- The threads from the start of Stop to their Release.
abbrev pub callers : Worker → ℕ
callers w = w.to_stop + w.to_request + w.core.stopping + w.core.deleting + w.to_release

-- Who may still set or wait for the events: the monitor, the thread, and those about to enter Stop.
abbrev pub users : Bool → Worker → ℕ
users is_current w = count is_current + count (holds w.thread) + w.to_stop

-- The references of a worker, by whether it is the monitor's current one; and what its users need.
pub record WorkerOk (is_current : Bool) (w : Worker) : Type 0 where
  pub counted : w.refs ≡ count is_current + count (holds w.thread) + callers w
  pub gone : w.destroyed ≡ (w.refs == 0)
  pub pinned : w.module_pinned ≡ in_module w.thread
  pub member : w.module_member ≡ is_running w.thread
  pub waits : 0 < users is_current w → w.terminate_handle ≡ true
  pub commits : 0 < users is_current w → w.commit_handle ≡ true
  pub closed : w.destroyed ≡ true → w.terminate_handle ≡ false

abbrev pub WorkerAt : Bool → Option Worker → Type 0
WorkerAt is_current none = is_current ≡ false
WorkerAt is_current (some w) = WorkerOk is_current w

abbrev pub is_current : Option ℕ → ℕ → Bool
is_current none k = false
is_current (some h) k = k == h

pub owe_release-WorkerOk : (w : Worker) → WorkerOk true w → WorkerOk false (owe_release w)
owe_release-WorkerOk w v = ground arith

pub owe_stop-WorkerOk : (w : Worker) → WorkerOk true w → WorkerOk false (owe_stop w)
owe_stop-WorkerOk w v = ground arith

-- Stopping the current worker under a reference of one's own.
pub stop_over-WorkerOk : (w : Worker) → WorkerOk true w → WorkerOk true (owe_stop (add_ref w))
stop_over-WorkerOk w v = ground arith

release_after-WorkerOk :
    (b : Bool) (w : Worker) → 0 < w.to_release → WorkerOk b w → WorkerOk b (release_after w)
unfolding release_after release
release_after-WorkerOk b w h v = ground arith

signal_stop-WorkerOk :
    (b : Bool) (w : Worker) → 0 < w.to_stop → WorkerOk b w → WorkerOk b (signal_stop w)
unfolding signal_stop
signal_stop-WorkerOk b w h v = ground arith

exchange_from-WorkerOk :
    (f : Phase) (b : Bool) (w : Worker)
    → 0 < w.to_request
    → WorkerOk b w
    → WorkerOk b (exchange_from f w)
unfolding exchange_from request_stop
exchange_from-WorkerOk awaiting_commit b w h v = ground arith
exchange_from-WorkerOk initializing b w h v = ground arith
exchange_from-WorkerOk processing b w h v = ground arith
exchange_from-WorkerOk stop_requested b w h v = ground arith
exchange_from-WorkerOk finished b w h v = ground arith

exchange_deleted-WorkerOk :
    (b : Bool) (w : Worker) → 0 < w.core.stopping → WorkerOk b w → WorkerOk b (exchange_deleted w)
unfolding exchange_deleted take_stopped take_deletion
exchange_deleted-WorkerOk b w h v = ground arith

delete_chain-WorkerOk :
    (b : Bool) (w : Worker) → 0 < w.core.deleting → WorkerOk b w → WorkerOk b (delete_chain w)
unfolding delete_chain delete_stopped
delete_chain-WorkerOk b w h v = ground arith

end_thread-WorkerOk :
    (t : ThreadAt) (b : Bool) (w : Worker)
    → w.thread ≡ t
    → WorkerOk b w
    → WorkerOk b (end_thread t w)
unfolding end_thread release
end_thread-WorkerOk not_started b w e v = v
end_thread-WorkerOk in_run b w e v = ground arith
end_thread-WorkerOk before_release b w e v = ground arith
end_thread-WorkerOk before_exit b w e v = ground arith
end_thread-WorkerOk exited b w e v = v

-- The worker's own steps leave the threads in Stop alone.
record SameStops (p q : Processor) : Type 0 where
  stopping : q.stopping ≡ p.stopping
  deleting : q.deleting ≡ p.deleting

enter-SameStops : (f : Phase) (p : Processor) → SameStops p (enter f p)
unfolding enter
enter-SameStops awaiting_commit p = ground arith
enter-SameStops initializing p = ground arith
enter-SameStops processing p = ground arith
enter-SameStops stop_requested p = ground arith
enter-SameStops finished p = ground arith

hand_over-SameStops : (f : Phase) (p : Processor) → SameStops p (hand_over f p)
unfolding hand_over
hand_over-SameStops awaiting_commit p = ground arith
hand_over-SameStops initializing p = ground arith
hand_over-SameStops processing p = ground arith
hand_over-SameStops stop_requested p = ground arith
hand_over-SameStops finished p = ground arith

run_at-SameStops : (a : At) (env : WorkerEnv) (p : Processor) → SameStops p (run_at a env p)
unfolding run_at take_deletion
run_at-SameStops starting env p = ground arith
run_at-SameStops entering env p = enter-SameStops p.phase p
run_at-SameStops checking env p = ground arith
run_at-SameStops creating env p = ground arith
run_at-SameStops handing_over env p = hand_over-SameStops p.phase p
run_at-SameStops checking_again env p = ground arith
run_at-SameStops running env p = ground arith
run_at-SameStops leaving env p = ground arith
run_at-SameStops releasing env p = ground arith
run_at-SameStops storing env p = ground arith
run_at-SameStops ended env p = ground arith

with_core-WorkerOk :
    (b : Bool) (w : Worker) (p : Processor)
    → SameStops w.core p
    → WorkerOk b w
    → WorkerOk b (record w { core = p })
with_core-WorkerOk b w p s v = ground (arith, s.stopping, s.deleting)

pub WorkerStep-WorkerOk :
    {w w' : Worker} → (b : Bool) → WorkerStep w w' → WorkerOk b w → WorkerOk b w'
unfolding run
WorkerStep-WorkerOk {w} b (signals h) v = signal_stop-WorkerOk b w h v
WorkerStep-WorkerOk {w} b (requests h) v = exchange_from-WorkerOk w.core.phase b w h v
WorkerStep-WorkerOk {w} b (takes h) v = exchange_deleted-WorkerOk b w h v
WorkerStep-WorkerOk {w} b (deletes h) v = delete_chain-WorkerOk b w h v
WorkerStep-WorkerOk {w} b (releases h) v = release_after-WorkerOk b w h v
WorkerStep-WorkerOk {w} b (works env runs) v =
    with_core-WorkerOk b w (run env w.core) (run_at-SameStops w.core.position env w.core) v
WorkerStep-WorkerOk {w} b (ends at_end) v = end_thread-WorkerOk w.thread b w refl v

-- What Start leaves of a new worker.
abbrev pub StartedOk : Bool × Worker → Type 0
StartedOk (true, w) = WorkerOk true w
StartedOk (false, w) = WorkerOk false (owe_release w)

pub start-StartedOk : (env : StartEnv) → StartedOk (start env new_worker)
unfolding start release
start-StartedOk env =
    let gives_up : WorkerOk false (owe_release new_worker) = ground arith in
    elim (Bool-cases env.commit_event) [
      | inr a ↦ simp a gives_up
      | inl a ↦ elim (Bool-cases env.terminate_event) [
        | inr b ↦ simp (a, b) gives_up
        | inl b ↦ elim (Bool-cases env.pins) [
          | inr c ↦ simp (a, b, c) gives_up
          | inl c ↦ elim (Bool-cases env.thread) [
            | inr d ↦ simp (a, b, c, d) gives_up
            | inl d ↦ simp (a, b, c, d) (ground arith)
          ]
        ]
      ]
    ]
