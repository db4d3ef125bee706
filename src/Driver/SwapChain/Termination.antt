-- ===== src/Driver/SwapChain/Termination.antt =====
-- A worker that was told to stop ends.
use nyan_real_vdd.Base.{ℕ, ◌-◌, ◌≤◌, ◌≡◌, refl, true, List, [], ◌∷◌, arith, length}
use nyan_real_vdd.Driver.SwapChain.{
  Phase, awaiting_commit, initializing, processing, stop_requested, finished, At, starting,
  entering, checking, creating, handing_over, checking_again, running, leaving, releasing, storing,
  ended, Processor, take_deletion, enter, hand_over, WorkerEnv, run_at, run, run_all,
}

-- How many steps the worker takes at most once it was told to stop.
abbrev steps_left : At → ℕ
steps_left ended = 0
steps_left storing = 1
steps_left releasing = 2
steps_left leaving = 3
steps_left running = 4
steps_left checking_again = 4
steps_left handing_over = 5
steps_left creating = 6
steps_left checking = 4
steps_left entering = 5
steps_left starting = 6

ended_lem : (a : At) → steps_left a ≡ 0 → a ≡ ended
ended_lem starting h = absurd (omega arith)
ended_lem entering h = absurd (omega arith)
ended_lem checking h = absurd (omega arith)
ended_lem creating h = absurd (omega arith)
ended_lem handing_over h = absurd (omega arith)
ended_lem checking_again h = absurd (omega arith)
ended_lem running h = absurd (omega arith)
ended_lem leaving h = absurd (omega arith)
ended_lem releasing h = absurd (omega arith)
ended_lem storing h = absurd (omega arith)
ended_lem ended h = refl

steps_left_max : (a : At) → steps_left a ≤ 6
steps_left_max starting = omega arith
steps_left_max entering = omega arith
steps_left_max checking = omega arith
steps_left_max creating = omega arith
steps_left_max handing_over = omega arith
steps_left_max checking_again = omega arith
steps_left_max running = omega arith
steps_left_max leaving = omega arith
steps_left_max releasing = omega arith
steps_left_max storing = omega arith
steps_left_max ended = omega arith

-- A step keeps the terminate event and brings the worker nearer to its end.
record Nearer (a : At) (p : Processor) : Type 0 where
  told : p.terminate_event ≡ true
  nearer : steps_left p.position ≤ steps_left a - 1

enter-Nearer : (f : Phase) (p : Processor) → p.terminate_event ≡ true → Nearer entering (enter f p)
unfolding enter
enter-Nearer awaiting_commit p t = ground arith
enter-Nearer initializing p t = ground arith
enter-Nearer processing p t = ground arith
enter-Nearer stop_requested p t = ground arith
enter-Nearer finished p t = ground arith

hand_over-Nearer :
    (f : Phase) (p : Processor) → p.terminate_event ≡ true → Nearer handing_over (hand_over f p)
unfolding hand_over
hand_over-Nearer awaiting_commit p t = ground arith
hand_over-Nearer initializing p t = ground arith
hand_over-Nearer processing p t = ground arith
hand_over-Nearer stop_requested p t = ground arith
hand_over-Nearer finished p t = ground arith

run_at-Nearer :
    (a : At) (env : WorkerEnv) (p : Processor)
    → p.position ≡ a
    → p.terminate_event ≡ true
    → Nearer a (run_at a env p)
unfolding run_at take_deletion
run_at-Nearer starting env p e t = ground arith
run_at-Nearer entering env p e t = enter-Nearer p.phase p t
run_at-Nearer checking env p e t = ground arith
run_at-Nearer creating env p e t = ground arith
run_at-Nearer handing_over env p e t = hand_over-Nearer p.phase p t
run_at-Nearer checking_again env p e t = ground arith
run_at-Nearer running env p e t = ground arith
run_at-Nearer leaving env p e t = ground arith
run_at-Nearer releasing env p e t = ground arith
run_at-Nearer storing env p e t = ground arith
run_at-Nearer ended env p e t = ground arith

run_all_ends :
    (envs : List WorkerEnv) (p : Processor)
    → p.terminate_event ≡ true
    → steps_left p.position ≤ length envs
    → (run_all envs p).position ≡ ended
unfolding run_all run
run_all_ends [] p t h = ended_lem p.position (omega arith)
run_all_ends (env ∷ envs) p t h =
    let n = run_at-Nearer p.position env p refl t in
    run_all_ends envs (run env p) n.told (omega arith)

-- Once the terminate event is set, the worker has ended after any six or more of its own steps, from wherever it
-- stands and whatever the system answers.
pub run_all_terminates :
    (envs : List WorkerEnv) (p : Processor)
    → p.terminate_event ≡ true
    → 6 ≤ length envs
    → (run_all envs p).position ≡ ended
run_all_terminates envs p t h = run_all_ends envs p t (omega (arith, steps_left_max p.position))
