-- ===== src/Probe/Reader/Newest.antt =====
-- A poll ends with the newest frame of those that it could have.
use nyan_real_vdd.Base.{
  ℕ, zero, suc, ◌+◌, ◌<◌, ◌≤◌, ◌≡◌, ◌≢◌, refl, Bool, true, false, ◌||◌, ◌⊎◌, inl, inr, Option, none,
  some, arith, Bool-cases, ◌∙◌, sym, subst, get_or, get_or-set_ne, ltb, leb, ◌==◌,
}
use nyan_real_vdd.FrameShare.Publisher.{sync_ok, sync_timeout, capture_slots}
use nyan_real_vdd.Probe.Reader.{
  Reader, PollEnv, Polled, goes_on, throws, lease, give_back, retain, replace_held, on_acquired,
  on_answer, is_held, poll_slot, and_then, poll_from, poll,
}

-- The mutexes answer without an error, and every release succeeds.
pub record IsCalm (env : PollEnv) : Type 0 where
  pub fine : (i : ℕ) → (env.acquire i ≡ sync_ok) ⊎ (env.acquire i ≡ sync_timeout)
  pub released : (i : ℕ) → env.release i ≡ none

-- The slot has a frame that the reader has not given back, and its mutex is free.
pub record IsOffered (env : PollEnv) (old : Reader) (i : ℕ) : Type 0 where
  pub free : env.acquire i ≡ sync_ok
  pub unread : get_or old.returned i 0 < env.seen i
  pub other : is_held i old.held ≡ false

-- The loop before slot `k`: the slots before it are done, and those from it on are as they were.
record Until (env : PollEnv) (old : Reader) (k : ℕ) (r : Reader) : Type 0 where
  done : (i : ℕ) → i < k → IsOffered env old i → env.read i ≤ r.sequence
  unheld : (j : ℕ) → k ≤ j → is_held j old.held ≡ false → is_held j r.held ≡ false
  same :
      (j : ℕ) → k ≤ j → is_held j old.held ≡ false → get_or r.returned j 0 ≡ get_or old.returned j 0

-- The loop goes on, and the next slot is done too.
abbrev GoesOn : PollEnv → Reader → ℕ → Polled → Type 0
GoesOn env old k (goes_on changed r) = Until env old k r
GoesOn env old k (throws e r) = ⊥

module _ (env : PollEnv) (old : Reader) (k : ℕ) (changed : Bool) (r : Reader) (calm : IsCalm env)
    (u : Until env old k r) where
  -- The slot is done where its number is not above the reader's, and the rest stays.
  next_slot :
      (r' : Reader)
      → r.sequence ≤ r'.sequence
      → (IsOffered env old k → env.read k ≤ r'.sequence)
      → ((j : ℕ)
          → suc k ≤ j
          → is_held j old.held ≡ false
          → (is_held j r'.held ≡ false) × (get_or r'.returned j 0 ≡ get_or r.returned j 0))
      → Until env old (suc k) r'
  next_slot r' grows this rest = record {
    done = λ i lt o. elim (Bool-cases (i == k)) [
      | inl here ↦
          let e : i ≡ k = ground arith in
          subst (λ x. env.read x ≤ r'.sequence) (sym e) (this (subst (IsOffered env old) e o))
      | inr before ↦
          let earlier : env.read i ≤ r.sequence = u.done i (ground arith) o in omega arith
    ];
    unheld = λ j le h. (rest j le h).0;
    same = λ j le h. (rest j le h).1 ∙ u.same j (omega arith) h;
  }

  kept :
      (j : ℕ)
      → suc k ≤ j
      → is_held j old.held ≡ false
      → (is_held j r.held ≡ false) × (get_or r.returned j 0 ≡ get_or r.returned j 0)
  kept j le h = (u.unheld j (omega arith) h, refl)

  skipped :
      (is_held k r.held || leb (env.seen k) (get_or r.returned k 0)) ≡ true
      → Until env old (suc k) r
  skipped e =
      next_slot r (omega arith)
        (λ o.
          let free : is_held k r.held ≡ false = u.unheld k (omega arith) o.other in
          let same : get_or r.returned k 0 ≡ get_or old.returned k 0 =
            u.same k (omega arith) o.other in
          let unread : get_or old.returned k 0 < env.seen k = o.unread in absurd (ground arith))
        kept

  replaced :
      (held : Option ℕ)
      → r.held ≡ held
      → ltb r.sequence (env.read k) ≡ true
      → GoesOn env old (suc k) (replace_held env k held (lease k r))
  unfolding replace_held
  replaced none e newer =
      next_slot (retain k (env.read k) (lease k r)) (ground arith) (λ o. omega arith)
        (λ j le h. (ground arith, refl))
  replaced (some h) e newer = simp (calm.released h) (
      next_slot (retain k (env.read k) (give_back h r.sequence (lease k r))) (ground arith)
        (λ o. omega arith)
        (λ j le free.
          let apart : is_held j r.held ≡ false = u.unheld j (omega arith) free in
          let ne : h ≢ j = λ x. ground (arith, e) in
          (ground arith, get_or-set_ne r.returned h j r.sequence 0 ne)))

  acquired : GoesOn env old (suc k) (on_acquired env k changed (lease k r))
  unfolding on_acquired
  acquired = elim (Bool-cases (ltb r.sequence (env.read k))) [
    | inl newer ↦ simp newer (replaced r.held refl newer)
    | inr older ↦
        simp (older, calm.released k)
          (next_slot (give_back k (env.read k) (lease k r)) (omega arith) (λ o. ground arith)
            (λ j le h. (
              u.unheld j (omega arith) h,
              get_or-set_ne r.returned k j (env.read k) 0 (λ x. absurd (omega arith)),
            )))
  ]

  slot_done : GoesOn env old (suc k) (poll_slot env k changed r)
  unfolding poll_slot on_answer
  slot_done = elim (Bool-cases (is_held k r.held || leb (env.seen k) (get_or r.returned k 0))) [
    | inl skips ↦ simp skips (skipped skips)
    | inr asks ↦ elim (calm.fine k) [
      | inl free ↦ simp (asks, free) acquired
      | inr busy ↦
          simp (asks, busy) (next_slot r (omega arith) (λ o. let f = o.free in absurd cc) kept)
    ]
  ]

module _ (env : PollEnv) (old : Reader) (calm : IsCalm env) where
  and_then-GoesOn :
      (i j : ℕ) (x : Polled) (next : Bool → Reader → Polled)
      → GoesOn env old i x
      → ((changed : Bool) (r : Reader) → Until env old i r → GoesOn env old j (next changed r))
      → GoesOn env old j (and_then x next)
  and_then-GoesOn i j (goes_on changed r) next h k = k changed r h
  and_then-GoesOn i j (throws e r) next h k = h

  poll_from-GoesOn :
      (left k : ℕ) (changed : Bool) (r : Reader)
      → Until env old k r
      → GoesOn env old (k + left) (poll_from env left k changed r)
  unfolding poll_from
  poll_from-GoesOn zero k changed r u = subst (λ n. Until env old n r) (omega arith) u
  poll_from-GoesOn (suc left) k changed r u =
      subst (λ n. GoesOn env old n (poll_from env (suc left) k changed r)) (omega arith)
        (and_then-GoesOn (suc k) (suc k + left) (poll_slot env k changed r)
          (poll_from env left (suc k)) (slot_done env old k changed r calm u)
          (λ changed' r' u'. poll_from-GoesOn left (suc k) changed' r' u'))

-- The poll ends without an error, and the reader's sequence number is not below that of any frame that was
-- offered.
unfoldable pub EndsNewest : PollEnv → Reader → Polled → Type 0
EndsNewest env old (goes_on changed r) =
    (i : ℕ) → i < capture_slots → IsOffered env old i → env.read i ≤ r.sequence
EndsNewest env old (throws e r) = ⊥

newest :
    (env : PollEnv) (old : Reader) (x : Polled)
    → GoesOn env old capture_slots x
    → EndsNewest env old x
unfolding EndsNewest
newest env old (goes_on changed r) u = u.done
newest env old (throws e r) u = u

-- Where no mutex answers with an error and every release succeeds, a poll does not throw, and it ends with a
-- frame whose sequence number is at least that of each frame that the reader could take: one in a slot that
-- it did not hold, that it had not given back yet, and whose mutex was free.
pub poll_newest : (env : PollEnv) (r : Reader) → IsCalm env → EndsNewest env r (poll env r)
unfolding poll
poll_newest env r calm = newest env r (poll_from env capture_slots 0 false r) (
    poll_from-GoesOn env r calm capture_slots 0 false r (record {
      done = λ i lt o. absurd (omega arith);
      unheld = λ j le h. h;
      same = λ j le h. refl;
    }))
