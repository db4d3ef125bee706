-- ===== src/Driver/SwapChain/Laws.antt =====
-- Who releases the swap-chain, and when the worker may use it.
use nyan_real_vdd.Base.{
  ℕ, ◌+◌, ◌⊎◌, inl, inr, Bool-cases, ◌==◌, ◌≤◌, ◌<◌, ◌≡◌, refl, Bool, true, false, ◌&&◌, ◌||◌,
  arith, if◌then◌else◌,
}
use nyan_real_vdd.Driver.SwapChain.{
  Phase, awaiting_commit, initializing, processing, stop_requested, finished, At, starting,
  entering, checking, creating, handing_over, checking_again, running, leaving, releasing, storing,
  ended, Processor, new_processor, take_deletion, request_stop, take_stopped, delete_stopped, enter,
  hand_over, WorkerEnv, run_at, run, Step, commits, signals, requests, takes, deletes, works, Reach,
  start, next,
}

abbrev pub is_processing : Phase → Bool
is_processing processing = true
is_processing _ = false

abbrev is_stop : Phase → Bool
is_stop stop_requested = true
is_stop _ = false

abbrev pub is_finished : Phase → Bool
is_finished finished = true
is_finished _ = false

-- The positions at which the swap-chain belongs to the worker.
abbrev pub owns_chain : At → Bool
owns_chain checking_again = true
owns_chain running = true
owns_chain _ = false

abbrev is_past : At → Bool
is_past releasing = true
is_past storing = true
is_past ended = true
is_past _ = false

-- The worker took the flag and has not deleted yet.
abbrev is_releasing : At → Bool
is_releasing releasing = true
is_releasing _ = false

abbrev pub is_ended : At → Bool
is_ended ended = true
is_ended _ = false

record Sound (p : Processor) : Type 0 where
  count :
      p.deletions + p.deleting + (if is_releasing p.position then 1 else 0)
      ≡ (if p.swap_chain_deleted then 1 else 0)
  owned : owns_chain p.position ≡ true → is_processing p.phase ≡ true
  deleted_by : p.swap_chain_deleted ≡ true → (is_stop p.phase || is_past p.position) ≡ true
  stopping_in : 0 < p.stopping → (is_stop p.phase || is_past p.position) ≡ true
  released : (is_past p.position && p.committed) ≡ true → p.swap_chain_deleted ≡ true
  stored : is_ended p.position ≡ true → is_finished p.phase ≡ true

new_processor-Sound : Sound new_processor
new_processor-Sound = ground arith

enter-Sound :
    (f : Phase) (p : Processor) → p.phase ≡ f → p.position ≡ entering → Sound p → Sound (enter f p)
unfolding enter
enter-Sound awaiting_commit p e at v = ground arith
enter-Sound initializing p e at v = ground arith
enter-Sound processing p e at v = ground arith
enter-Sound stop_requested p e at v = ground arith
enter-Sound finished p e at v = ground arith

hand_over-Sound :
    (f : Phase) (p : Processor)
    → p.phase ≡ f
    → p.position ≡ handing_over
    → Sound p
    → Sound (hand_over f p)
unfolding hand_over
hand_over-Sound awaiting_commit p e at v = ground arith
hand_over-Sound initializing p e at v = ground arith
hand_over-Sound processing p e at v = ground arith
hand_over-Sound stop_requested p e at v = ground arith
hand_over-Sound finished p e at v = ground arith

request_stop-Sound : (f : Phase) (p : Processor) → p.phase ≡ f → Sound p → Sound (request_stop f p)
unfolding request_stop
request_stop-Sound awaiting_commit p e v = ground arith
request_stop-Sound initializing p e v = ground arith
request_stop-Sound processing p e v = v
request_stop-Sound stop_requested p e v = v
request_stop-Sound finished p e v = v

take_stopped-Sound : (p : Processor) → 0 < p.stopping → Sound p → Sound (take_stopped p)
unfolding take_stopped take_deletion
take_stopped-Sound p h v = ground arith

delete_stopped-Sound : (p : Processor) → 0 < p.deleting → Sound p → Sound (delete_stopped p)
unfolding delete_stopped
delete_stopped-Sound p h v = ground arith

run_at-Sound :
    (a : At) (env : WorkerEnv) (p : Processor) → p.position ≡ a → Sound p → Sound (run_at a env p)
unfolding run_at take_deletion
run_at-Sound starting env p e v = ground arith
run_at-Sound entering env p e v = enter-Sound p.phase p refl e v
run_at-Sound checking env p e v = ground arith
run_at-Sound creating env p e v = ground arith
run_at-Sound handing_over env p e v = hand_over-Sound p.phase p refl e v
run_at-Sound checking_again env p e v = ground arith
run_at-Sound running env p e v = ground arith
run_at-Sound leaving env p e v = ground arith
run_at-Sound releasing env p e v = ground arith
run_at-Sound storing env p e v = ground arith
run_at-Sound ended env p e v = v

Step-Sound : {p q : Processor} → Step p q → Sound p → Sound q
unfolding run
Step-Sound (commits p) v = ground arith
Step-Sound (signals p) v = ground arith
Step-Sound (requests p h) v = request_stop-Sound p.phase p refl v
Step-Sound (takes p h) v = take_stopped-Sound p h v
Step-Sound (deletes p h) v = delete_stopped-Sound p h v
Step-Sound (works env p) v = run_at-Sound p.position env p refl v

Reach-Sound : {p : Processor} → Reach p → Sound p
Reach-Sound start = new_processor-Sound
Reach-Sound (next p q r s) = Step-Sound s (Reach-Sound r)

-- In every interleaving of the worker with the threads that commit and stop it, the swap-chain is
-- deleted at most once, and not while the worker may use it.
pub Reach-owned :
    {p : Processor} → Reach p → (p.deletions ≤ 1) × (owns_chain p.position ≡ true → p.deletions ≡ 0)
Reach-owned {p} r = let v = Reach-Sound r in ground arith

finished_lem : (f : Phase) → is_finished f ≡ true → f ≡ finished
finished_lem awaiting_commit h = cc
finished_lem initializing h = cc
finished_lem processing h = cc
finished_lem stop_requested h = cc
finished_lem finished h = refl

one_of : (m n : ℕ) → m + n ≡ 1 → ((m ≡ 1) × (n ≡ 0)) ⊎ ((m ≡ 0) × (n ≡ 1))
one_of m n h = elim (Bool-cases (m == 0)) [
  | inl zero_first ↦ inr (ground arith, ground arith)
  | inr some_first ↦ inl (ground arith, ground arith)
]

pub Reach-released :
    {p : Processor}
    → Reach p
    → p.position ≡ ended
    → p.committed ≡ true
    → (p.phase ≡ finished)
      × (((p.deletions ≡ 1) × (p.deleting ≡ 0)) ⊎ ((p.deletions ≡ 0) × (p.deleting ≡ 1)))
Reach-released {p} r e c =
    let v = Reach-Sound r in
    let n : p.deletions + p.deleting ≡ 1 = ground arith in
    (ground (arith, finished_lem p.phase), one_of p.deletions p.deleting n)
