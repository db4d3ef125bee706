-- ===== src/Driver/Assign/Reach.antt =====
-- IndirectMonitorContext (driver/src/Driver.cpp): the references of its workers in every interleaving.
use nyan_real_vdd.Base.{
  ℕ, ◌≡◌, refl, Bool, true, false, inl, inr, Option, none, some, arith, Bool-cases, sym, subst, ◌∙◌,
}
use nyan_real_vdd.Driver.SwapChain.{commit}
use nyan_real_vdd.Driver.Assign.{
  Worker, StartEnv, add_ref, start, new_worker, owe_release, owe_stop, MonitorContext, new_context,
  change, is_retired, settle_start, assign_new, assign_over, assign_locked, unassign_from,
  unassign_locked, commit_current, assign_to, ContextStep, assigns, commits, unassigns, moves,
  ContextReach, begins, continues,
}
use nyan_real_vdd.Driver.Assign.Laws.{
  WorkerOk, WorkerAt, is_current, owe_release-WorkerOk, stop_over-WorkerOk, WorkerStep-WorkerOk,
}
use nyan_real_vdd.Driver.Assign.Context.{
  Counted, ContextOk, change-Owned, set-Owned, now_owner, assign_new-Owned, owner-present,
  current_ne, unassign_from-Counted, assign_new-current,
}

-- A retired worker whose release is owed once the new one was assigned.
retire-Counted :
    (env : StartEnv) (allocated : Bool) (k : ℕ) (c : MonitorContext)
    → c.current ≡ some k
    → Counted c
    → Counted (change k owe_release (assign_new env allocated (record c { current = none })).1)
retire-Counted env allocated k c e v =
    let owner : ℕ → Bool = is_current c.current in
    let idle = record c { current = none } in
    let assigned =
      assign_new-Owned env allocated owner idle refl (owner-present owner c v)
        (record { each = v.each; fresh = v.fresh }) in
    let c' = (assign_new env allocated idle).1 in
    let gone : is_current c'.current k ≡ false =
      assign_new-current env allocated k idle refl (current_ne k c v e) in
    change-Owned k owe_release (now_owner owner c'.current) (is_current c'.current) c' assigned
      (λ w u.
        let owned : (now_owner owner c'.current k) ≡ true = ground (arith, e) in
        subst (λ b. WorkerOk b (owe_release w)) (sym gone)
          (owe_release-WorkerOk w (subst (λ b. WorkerOk b w) owned u)))
      (λ x. gone) (λ j other. ground (arith, e, other))

-- A change of the current worker, which stays current.
keep_current :
    (k : ℕ) (f : Worker → Worker) (c : MonitorContext)
    → c.current ≡ some k
    → Counted c
    → ((w : Worker) → WorkerOk true w → WorkerOk true (f w))
    → Counted (change k f c)
keep_current k f c e v h =
    change-Owned k f (is_current c.current) (is_current c.current) c v
      (λ w u.
        let owned : true ≡ is_current c.current k = ground (arith, e) in
        subst (λ b. WorkerOk b (f w)) owned (h w (subst (λ b. WorkerOk b w) (sym owned) u)))
      (λ x. x) (λ j other. refl)

-- Where a worker is current.
assign_over-Counted :
    (env : StartEnv) (allocated : Bool) (k : ℕ) (c : MonitorContext)
    → c.current ≡ some k
    → Counted c
    → Counted (assign_over env allocated k c).1
unfolding assign_over
assign_over-Counted env allocated k c e v = elim (Bool-cases (is_retired (c.workers k))) [
  | inl retired ↦ simp retired (retire-Counted env allocated k c e v)
  | inr busy ↦ simp busy (keep_current k (λ w. owe_stop (add_ref w)) c e v stop_over-WorkerOk)
]

assign_to-Counted :
    (env : StartEnv) (allocated : Bool) (o : Option ℕ) (c : MonitorContext)
    → c.current ≡ o
    → Counted c
    → Counted (assign_to env allocated o c).1
assign_to-Counted env allocated none c e v =
    let r = assign_new-Owned env allocated (is_current c.current) c e (owner-present _ c v) v in
    record {
      each = λ j.
          subst (λ b. WorkerAt b ((assign_new env allocated c).1.workers j)) (ground (arith, e))
            (r.each j);
      fresh = r.fresh;
    }
assign_to-Counted env allocated (some k) c e v = assign_over-Counted env allocated k c e v

-- The worker that is about to be committed, if any, is the current one.
CommitsCurrent : MonitorContext → Type 0
CommitsCurrent c = (k : ℕ) → c.committing ≡ some k → c.current ≡ some k

settle_start-CommitsCurrent :
    (x : Bool × Worker) (c : MonitorContext)
    → c.committing ≡ none
    → CommitsCurrent (settle_start c x).1
unfolding CommitsCurrent
settle_start-CommitsCurrent (true, w) c free k e = e
settle_start-CommitsCurrent (false, w) c free k e = absurd cc

assign_new-CommitsCurrent :
    (env : StartEnv) (allocated : Bool) (c : MonitorContext)
    → c.committing ≡ none
    → CommitsCurrent (assign_new env allocated c).1
unfolding assign_new CommitsCurrent
assign_new-CommitsCurrent env true c free k e =
    settle_start-CommitsCurrent (start env new_worker) c free k e
assign_new-CommitsCurrent env false c free k e = absurd cc

assign_to-CommitsCurrent :
    (env : StartEnv) (allocated : Bool) (o : Option ℕ) (c : MonitorContext)
    → c.committing ≡ none
    → CommitsCurrent (assign_to env allocated o c).1
unfolding assign_over CommitsCurrent
assign_to-CommitsCurrent env allocated none c free = assign_new-CommitsCurrent env allocated c free
assign_to-CommitsCurrent env allocated (some h) c free =
    elim (Bool-cases (is_retired (c.workers h))) [
      | inl retired ↦
          simp retired (assign_new-CommitsCurrent env allocated (record c { current = none }) free)
      | inr busy ↦ simp busy (λ k e. absurd cc)
    ]

unassign_from-committing :
    (o : Option ℕ) (c : MonitorContext) → (unassign_from o c).committing ≡ c.committing
unassign_from-committing none c = refl
unassign_from-committing (some k) c = refl

ContextStep-ContextOk : {c c' : MonitorContext} → ContextStep c c' → ContextOk c → ContextOk c'
unfolding assign_locked unassign_locked commit_current CommitsCurrent
ContextStep-ContextOk (assigns env allocated c free) v = record {
  counts = assign_to-Counted env allocated c.current c refl v.counts;
  commits_current = assign_to-CommitsCurrent env allocated c.current c free;
}
ContextStep-ContextOk (commits k c e) v = record {
  counts =
      keep_current k (λ w. record w { core = commit w.core }) (record c { committing = none })
        (v.commits_current k e) (record { each = v.counts.each; fresh = v.counts.fresh })
        (λ w u. ground arith);
  commits_current = λ j f. absurd cc;
}
ContextStep-ContextOk (unassigns c free) v = record {
  counts = unassign_from-Counted c.current c refl v.counts;
  commits_current = λ j f.
      let none_left : none ≡ some j = sym (unassign_from-committing c.current c ∙ free) ∙ f in
      absurd cc;
}
ContextStep-ContextOk (moves k w w' c e s) v = record {
  counts =
      set-Owned k w w' (is_current c.current) c e v.counts
        (WorkerStep-WorkerOk (is_current c.current k) s);
  commits_current = v.commits_current;
}

new_context-ContextOk : ContextOk new_context
new_context-ContextOk = record {
  counts = record { each = λ k. refl; fresh = λ k le. refl };
  commits_current = λ k e. absurd cc;
}

-- In every interleaving of the regions of Assign and Unassign under the lock with the single operations of Stop,
-- Release, Run and RunThread outside it, the references of a worker are one for the monitor whose current
-- worker it is, one for its thread until its Release, and one for each call that is going to stop or release it;
-- it is destroyed exactly when there is none; its events are open while the monitor, its thread or a call that
-- enters Stop may use them; the module is pinned for it exactly while its thread executes; and
-- Commit is called only on the current worker.
pub ContextReach-ContextOk : {c : MonitorContext} → ContextReach c → ContextOk c
ContextReach-ContextOk begins = new_context-ContextOk
ContextReach-ContextOk (continues c c' r s) = ContextStep-ContextOk s (ContextReach-ContextOk r)
