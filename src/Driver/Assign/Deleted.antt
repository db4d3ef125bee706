-- ===== src/Driver/Assign/Deleted.antt =====
-- IndirectMonitorContext and SwapChainProcessor together (driver/src/Driver.cpp): the swap-chains of the workers
-- that are destroyed.
use nyan_real_vdd.Base.{
  ◌⊎◌, ℕ, ◌≡◌, refl, Bool, true, false, inl, inr, Option, none, some, arith, Bool-cases, sym, subst,
  ◌∙◌, ◌==◌,
}
use nyan_real_vdd.Device.{update}
use nyan_real_vdd.Driver.SwapChain.{commit, finished}
use nyan_real_vdd.Driver.SwapChain.Laws.{Reach-released}
use nyan_real_vdd.Driver.Assign.{
  ThreadAt, not_started, in_run, before_release, before_exit, exited, Worker, new_worker, StartEnv,
  add_ref, owe_stop, owe_release, MonitorContext, map_worker, change, settle_start, assign_new,
  assign_over, assign_to, assign_locked, commit_current, unassign_from, unassign_locked, is_retired,
  ContextStep, assigns, commits, unassigns, moves, ContextReach, begins, continues,
}
use nyan_real_vdd.Driver.Assign
use nyan_real_vdd.Driver.Assign.Laws.{WorkerAt, WorkerOk, holds, is_current}
use nyan_real_vdd.Driver.Assign.Reach.{ContextReach-ContextOk}
use nyan_real_vdd.Driver.Assign.Chain.{
  WorkerReach, is_past_run, same-WorkerReach, commit-WorkerReach, WorkerStep-WorkerReach,
  start-WorkerReach,
}

-- Every worker of the heap.
AllReach : (ℕ → Option Worker) → Type 0
AllReach workers = (k : ℕ) (w : Worker) → workers k ≡ some w → WorkerReach w

update-AllReach :
    (workers : ℕ → Option Worker) (k : ℕ) (w : Worker)
    → WorkerReach w
    → AllReach workers
    → AllReach (update workers k (some w))
unfolding AllReach
update-AllReach workers k w r v j w' e = elim (Bool-cases (j == k)) [
  | inl here ↦
      let there : update workers k (some w) j ≡ some w = simp here refl in
      let same : w ≡ w' = cc in subst WorkerReach same r
  | inr other ↦
      let there : update workers k (some w) j ≡ workers j = simp other refl in
      v j w' (sym there ∙ e)
]

map-reached :
    (f : Worker → Worker) (o : Option Worker) (w' : Worker)
    → ((w : Worker) → WorkerReach w → WorkerReach (f w))
    → ((w : Worker) → o ≡ some w → WorkerReach w)
    → map_worker f o ≡ some w'
    → WorkerReach w'
map-reached f none w' h v e = absurd cc
map-reached f (some w) w' h v e =
    let same : f w ≡ w' = cc in subst WorkerReach same (h w (v w refl))

change-AllReach :
    (k : ℕ) (f : Worker → Worker) (c : MonitorContext)
    → ((w : Worker) → WorkerReach w → WorkerReach (f w))
    → AllReach c.workers
    → AllReach (change k f c).workers
unfolding AllReach
change-AllReach k f c h v j w' e = elim (Bool-cases (j == k)) [
  | inl here ↦
      let there : (change k f c).workers j ≡ map_worker f (c.workers k) = simp here refl in
      map-reached f (c.workers k) w' h (v k) (sym there ∙ e)
  | inr other ↦
      let there : (change k f c).workers j ≡ c.workers j = simp other refl in v j w' (sym there ∙ e)
]

owe_release-WorkerReach : (w : Worker) → WorkerReach w → WorkerReach (owe_release w)
owe_release-WorkerReach w =
    same-WorkerReach w (owe_release w) (record { core = refl; requests = refl; thread = refl })

owe_stop-WorkerReach : (w : Worker) → WorkerReach w → WorkerReach (owe_stop w)
owe_stop-WorkerReach w =
    same-WorkerReach w (owe_stop w) (record { core = refl; requests = refl; thread = refl })

stop_over-WorkerReach : (w : Worker) → WorkerReach w → WorkerReach (owe_stop (add_ref w))
stop_over-WorkerReach w =
    same-WorkerReach w (owe_stop (add_ref w))
      (record { core = refl; requests = refl; thread = refl })

settle_start-AllReach :
    (x : Bool × Worker) (c : MonitorContext)
    → WorkerReach x.1
    → AllReach c.workers
    → AllReach (settle_start c x).1.workers
settle_start-AllReach (true, w) c r v = update-AllReach c.workers c.next w r v
settle_start-AllReach (false, w) c r v =
    update-AllReach c.workers c.next (owe_release w) (owe_release-WorkerReach w r) v

assign_new-AllReach :
    (env : StartEnv) (allocated : Bool) (c : MonitorContext)
    → AllReach c.workers
    → AllReach (assign_new env allocated c).1.workers
unfolding assign_new
assign_new-AllReach env true c v =
    settle_start-AllReach (Assign.start env new_worker) c (start-WorkerReach env) v
assign_new-AllReach env false c v = v

assign_to-AllReach :
    (env : StartEnv) (allocated : Bool) (o : Option ℕ) (c : MonitorContext)
    → AllReach c.workers
    → AllReach (assign_to env allocated o c).1.workers
unfolding assign_over
assign_to-AllReach env allocated none c v = assign_new-AllReach env allocated c v
assign_to-AllReach env allocated (some k) c v = elim (Bool-cases (is_retired (c.workers k))) [
  | inl retired ↦
      let idle = record c { current = none } in
      simp retired (
        change-AllReach k owe_release (assign_new env allocated idle).1 owe_release-WorkerReach
          (assign_new-AllReach env allocated idle v))
  | inr busy ↦ simp busy (change-AllReach k (λ w. owe_stop (add_ref w)) c stop_over-WorkerReach v)
]

unassign_from-AllReach :
    (o : Option ℕ) (c : MonitorContext) → AllReach c.workers → AllReach (unassign_from o c).workers
unassign_from-AllReach none c v = v
unassign_from-AllReach (some k) c v =
    change-AllReach k owe_stop (record c { current = none }) owe_stop-WorkerReach v

ContextStep-AllReach :
    {c c' : MonitorContext} → ContextStep c c' → AllReach c.workers → AllReach c'.workers
unfolding assign_locked unassign_locked commit_current AllReach
ContextStep-AllReach (assigns env allocated c free) v =
    assign_to-AllReach env allocated c.current c v
ContextStep-AllReach (commits k c e) v =
    change-AllReach k (λ w. record w { core = commit w.core }) (record c { committing = none })
      commit-WorkerReach v
ContextStep-AllReach (unassigns c free) v = unassign_from-AllReach c.current c v
ContextStep-AllReach (moves k w w' c e s) v =
    update-AllReach c.workers k w' (WorkerStep-WorkerReach s (v k w e)) v

ContextReach-AllReach : {c : MonitorContext} → ContextReach c → AllReach c.workers
unfolding AllReach
ContextReach-AllReach begins = λ k w e. absurd cc
ContextReach-AllReach (continues c c' r s) = ContextStep-AllReach s (ContextReach-AllReach r)

-- A destroyed worker has no reference left, so its thread is not in Run, and no thread is in Stop.
record IsLeft (w : Worker) : Type 0 where
  thread : (w.thread ≡ not_started) ⊎ (is_past_run w.thread ≡ true)
  stops : w.core.deleting ≡ 0

left_thread : (t : ThreadAt) → holds t ≡ false → (t ≡ not_started) ⊎ (is_past_run t ≡ true)
left_thread not_started h = inl refl
left_thread in_run h = absurd cc
left_thread before_release h = inr refl
left_thread before_exit h = inr refl
left_thread exited h = inr refl

destroyed-IsLeft : (b : Bool) (w : Worker) → WorkerOk b w → w.destroyed ≡ true → IsLeft w
destroyed-IsLeft b w v e =
    let none_left : w.refs ≡ 0 = ground (arith, v.gone) in
    record {
      thread = left_thread w.thread (ground (arith, v.counted));
      stops = omega (arith, v.counted);
    }

released_lem :
    (w : Worker)
    → WorkerReach w
    → IsLeft w
    → w.core.committed ≡ true
    → (w.core.deletions ≡ 1) × (w.core.phase ≡ finished)
released_lem w v l done = elim l.thread [
  | inl never ↦ let e = v.idle never in absurd cc
  | inr past ↦
      let r = Reach-released v.reached (v.past past) done in
      elim r.1 [ inl once ↦ (once.0, r.0) | inr late ↦ let s = l.stops in absurd (omega arith) ]
]

-- In every interleaving of Assign, Unassign and the single operations of Stop, Release, Run and RunThread, a worker
-- that is destroyed after its thread found the chain committed has deleted its swap-chain exactly once, whichever
-- thread did, and its phase is Finished.
pub destroyed-deleted :
    {c : MonitorContext}
    → ContextReach c
    → (k : ℕ) (w : Worker) → c.workers k ≡ some w
    → w.destroyed ≡ true
    → w.core.committed ≡ true
    → (w.core.deletions ≡ 1) × (w.core.phase ≡ finished)
unfolding AllReach
destroyed-deleted {c} r k w there gone done =
    let owner = is_current c.current k in
    let ok : WorkerOk owner w =
      subst (WorkerAt owner) there ((ContextReach-ContextOk r).counts.each k) in
    released_lem w (ContextReach-AllReach r k w there) (destroyed-IsLeft owner w ok gone) done
