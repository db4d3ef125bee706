-- ===== src/Driver/Assign/Context.antt =====
-- IndirectMonitorContext (driver/src/Driver.cpp): the count of references over the heap of workers.
use nyan_real_vdd.Base.{
  ℕ, ◌≤◌, ◌≡◌, refl, Bool, true, false, ◌||◌, inl, inr, Option, none, some, arith, Bool-cases, ap,
  ◌∙◌, sym, subst, ◌==◌,
}
use nyan_real_vdd.Device.{update}
use nyan_real_vdd.Driver.Assign.{
  Worker, new_worker, StartEnv, start, owe_release, owe_stop, MonitorContext, map_worker, change,
  settle_start, assign_new, unassign_from,
}
use nyan_real_vdd.Driver.Assign.Laws.{
  WorkerOk, WorkerAt, is_current, owe_stop-WorkerOk, StartedOk, start-StartedOk,
}

-- Every worker is counted right for these owners, and the next reference is not taken.
pub record Owned (owner : ℕ → Bool) (c : MonitorContext) : Type 0 where
  pub each : (k : ℕ) → WorkerAt (owner k) (c.workers k)
  pub fresh : (k : ℕ) → c.next ≤ k → c.workers k ≡ none

-- The monitor owns the current worker alone.
abbrev pub Counted : MonitorContext → Type 0
Counted c = Owned (is_current c.current) c

-- The references are counted right, and the worker that is about to be committed is the current one.
pub record ContextOk (c : MonitorContext) : Type 0 where
  pub counts : Counted c
  pub commits_current : (k : ℕ) → c.committing ≡ some k → c.current ≡ some k

map-WorkerAt :
    (b b' : Bool) (f : Worker → Worker) (o : Option Worker)
    → ((w : Worker) → WorkerOk b w → WorkerOk b' (f w))
    → (b ≡ false → b' ≡ false)
    → WorkerAt b o
    → WorkerAt b' (map_worker f o)
map-WorkerAt b b' f none h k v = k v
map-WorkerAt b b' f (some w) h k v = h w v

-- A change of one worker of the heap, which may get or lose an owner.
update-each :
    (before after : ℕ → Bool) (workers : ℕ → Option Worker) (k : ℕ) (o : Option Worker)
    → ((j : ℕ) → WorkerAt (before j) (workers j))
    → WorkerAt (after k) o
    → ((j : ℕ) → (j == k) ≡ false → after j ≡ before j)
    → (j : ℕ) → WorkerAt (after j) (update workers k o j)
update-each before after workers k o each at_k others j = elim (Bool-cases (j == k)) [
  | inl here ↦
      let e : j ≡ k = ground arith in simp here (subst (λ i. WorkerAt (after i) o) (sym e) at_k)
  | inr other ↦ simp other (subst (λ b. WorkerAt b (workers j)) (sym (others j other)) (each j))
]

absent-map : (f : Worker → Worker) (o : Option Worker) → o ≡ none → map_worker f o ≡ none
absent-map f none e = refl
absent-map f (some w) e = cc

-- A change of the worker `k`.
pub change-Owned :
    (k : ℕ) (f : Worker → Worker) (before after : ℕ → Bool) (c : MonitorContext)
    → Owned before c
    → ((w : Worker) → WorkerOk (before k) w → WorkerOk (after k) (f w))
    → (before k ≡ false → after k ≡ false)
    → ((j : ℕ) → (j == k) ≡ false → after j ≡ before j)
    → Owned after (change k f c)
change-Owned k f before after c v h absent others = record {
  each =
      update-each before after c.workers k (map_worker f (c.workers k)) v.each
        (map-WorkerAt (before k) (after k) f (c.workers k) h absent (v.each k)) others;
  fresh = λ j le. elim (Bool-cases (j == k)) [
    | inl here ↦
        let e : j ≡ k = ground arith in
        simp here (absent-map f (c.workers k) (ap c.workers (sym e) ∙ v.fresh j le))
    | inr other ↦ simp other (v.fresh j le)
  ];
}

-- A worker in the heap takes another state.
pub set-Owned :
    (k : ℕ) (w w' : Worker) (owner : ℕ → Bool) (c : MonitorContext)
    → c.workers k ≡ some w
    → Owned owner c
    → (WorkerOk (owner k) w → WorkerOk (owner k) w')
    → Owned owner (record c { workers = update c.workers k (some w') })
set-Owned k w w' owner c e v h = record {
  each =
      update-each owner owner c.workers k (some w') v.each
        (h (subst (WorkerAt (owner k)) e (v.each k))) (λ j other. refl);
  fresh = λ j le. elim (Bool-cases (j == k)) [
    | inl here ↦
        let e' : j ≡ k = ground arith in
        let missing : c.workers k ≡ none = ap c.workers (sym e') ∙ v.fresh j le in cc
    | inr other ↦ simp other (v.fresh j le)
  ];
}

-- The monitor also owns the worker that an Assign made current.
abbrev pub now_owner : (ℕ → Bool) → Option ℕ → ℕ → Bool
now_owner owner current k = owner k || is_current current k

-- Where the next worker has no owner yet, the new worker is counted right once Start has answered.
settle_start-Owned :
    (x : Bool × Worker) (owner : ℕ → Bool) (c : MonitorContext)
    → StartedOk x
    → c.current ≡ none
    → owner c.next ≡ false
    → Owned owner c
    → let c' = (settle_start c x).1 in Owned (now_owner owner c'.current) c'
settle_start-Owned (true, w) owner c ok idle new v = record {
  each =
      let owned : true ≡ (owner c.next || c.next == c.next) = ground arith in
      update-each owner (λ j. owner j || j == c.next) c.workers c.next _ v.each
        (subst (λ b. WorkerOk b w) owned ok) (λ j other. ground (arith, other));
  fresh = λ j le. ground (arith, v.fresh j);
}
settle_start-Owned (false, w) owner c ok idle new v = record {
  each =
      let unowned : (j : ℕ) → owner j ≡ (owner j || is_current c.current j) =
        λ j. ground (arith, idle) in
      update-each owner (λ j. owner j || is_current c.current j) c.workers c.next _ v.each
        (subst (λ b. WorkerOk b (owe_release w)) (sym new ∙ unowned c.next) ok)
        (λ j other. sym (unowned j));
  fresh = λ j le. ground (arith, v.fresh j);
}

-- Where no worker is current and the next one has no owner, Assign keeps the count.
pub assign_new-Owned :
    (env : StartEnv) (allocated : Bool) (owner : ℕ → Bool) (c : MonitorContext)
    → c.current ≡ none
    → owner c.next ≡ false
    → Owned owner c
    → let c' = (assign_new env allocated c).1 in Owned (now_owner owner c'.current) c'
unfolding assign_new
assign_new-Owned env false owner c idle new v = record {
  each = λ j. subst (λ b. WorkerAt b (c.workers j)) (ground (arith, idle)) (v.each j);
  fresh = v.fresh;
}
assign_new-Owned env true owner c idle new v =
    settle_start-Owned (start env new_worker) owner c (start-StartedOk env) idle new v

-- Only a worker that is there is owned.
pub owner-present : (owner : ℕ → Bool) (c : MonitorContext) → Owned owner c → owner c.next ≡ false
owner-present owner c v =
    subst (WorkerAt (owner c.next)) (v.fresh c.next (omega arith)) (v.each c.next)

-- The current worker of a sound context is not the next reference.
pub current_ne :
    (k : ℕ) (c : MonitorContext) → Counted c → c.current ≡ some k → (k == c.next) ≡ false
current_ne k c v e =
    let none_there : is_current c.current c.next ≡ false =
      owner-present (is_current c.current) c v in
    ground (arith, none_there, e)

drop_current :
    (k : ℕ) (f : Worker → Worker) (c : MonitorContext)
    → c.current ≡ some k
    → Counted c
    → ((w : Worker) → WorkerOk true w → WorkerOk false (f w))
    → Counted (change k f (record c { current = none }))
drop_current k f c e v h =
    change-Owned k f (is_current c.current) (λ j. false) (record c { current = none })
      (record { each = v.each; fresh = v.fresh })
      (λ w u. h w (subst (λ b. WorkerOk b w) (ground (arith, e)) u)) (λ x. refl)
      (λ j other. ground (arith, e, other))

pub unassign_from-Counted :
    (o : Option ℕ) (c : MonitorContext) → c.current ≡ o → Counted c → Counted (unassign_from o c)
unassign_from-Counted none c e v = v
unassign_from-Counted (some k) c e v = drop_current k owe_stop c e v owe_stop-WorkerOk

settle_start-current :
    (x : Bool × Worker) (k : ℕ) (c : MonitorContext)
    → c.current ≡ none
    → (k == c.next) ≡ false
    → is_current (settle_start c x).1.current k ≡ false
settle_start-current (true, w) k c idle other = other
settle_start-current (false, w) k c idle other = ground (arith, idle)

pub assign_new-current :
    (env : StartEnv) (allocated : Bool) (k : ℕ) (c : MonitorContext)
    → c.current ≡ none
    → (k == c.next) ≡ false
    → is_current (assign_new env allocated c).1.current k ≡ false
unfolding assign_new
assign_new-current env false k c idle other = ground (arith, idle)
assign_new-current env true k c idle other =
    settle_start-current (start env new_worker) k c idle other
