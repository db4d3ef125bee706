-- ===== src/Ring/CatchUp.antt =====
-- A whole poll shows the last publication.
use nyan_real_vdd.Base.{
  ℕ, zero, suc, ◌+◌, ◌<◌, ◌≤◌, ◌≡◌, ◌≢◌, refl, Bool, true, false, ◌||◌, ◌⊎◌, inl, inr, Option, none,
  some, get_or, ltb, leb, arith, Bool-cases, Option-cases, ap, ◌∙◌, sym,
}
use nyan_real_vdd.FrameShare.Publisher.{sync_ok, sync_timeout, capture_slots}
use nyan_real_vdd.FrameShare.Publisher.Laws.{SyncResult-cases}
use nyan_real_vdd.Probe.Reader.{
  Reader, PollEnv, Polled, goes_on, throws, lease, replace_held, on_acquired, on_answer, is_held,
  poll_slot, poll_from, poll,
}
use nyan_real_vdd.Probe.Reader.Laws.{Ends, and_then-Ends, Advances, ReaderOk, poll-Progress}
use nyan_real_vdd.Probe.Reader.Newest.{IsCalm, IsOffered, EndsNewest, poll_newest}
use nyan_real_vdd.Ring.{Key, writable, readable, by_publisher, by_reader, Ring, sequence_at, Reach}
use nyan_real_vdd.Ring.Invariant.{reader_owns, RingOk}
use nyan_real_vdd.Ring.Interleaved.{Reach-RingOk, Reach-ReaderOk}

abbrev UpTo : ℕ → Bool → Reader → Type 0
UpTo top changed r = r.sequence ≤ top

module _ (env : PollEnv) (top : ℕ) (reads : (i : ℕ) → i < capture_slots → env.read i ≤ top) where
  replaced-UpTo :
      (i : ℕ) (held : Option ℕ) (r : Reader)
      → i < capture_slots
      → Ends (UpTo top) (replace_held env i held r)
  unfolding replace_held
  replaced-UpTo i none r lt = reads i lt
  replaced-UpTo i (some h) r lt = elim (Option-cases (env.release h)) [
    | inl fine ↦ simp fine (reads i lt)
    | inr (e, fails) ↦ simp fails tt
  ]

  poll_slot-UpTo :
      (i : ℕ) (changed : Bool) (r : Reader)
      → i < capture_slots
      → r.sequence ≤ top
      → Ends (UpTo top) (poll_slot env i changed r)
  unfolding poll_slot on_answer on_acquired
  poll_slot-UpTo i changed r lt le =
      elim (Bool-cases (is_held i r.held || leb (env.seen i) (get_or r.returned i 0))) [
        | inl skipped ↦ simp skipped le
        | inr asked ↦ elim (SyncResult-cases (env.acquire i)) [
          | inr (inl busy) ↦ simp (asked, busy) le
          | inr (inr (e, failed)) ↦ simp (asked, failed) tt
          | inl ok ↦ elim (Bool-cases (ltb r.sequence (env.read i))) [
            | inr older ↦ elim (Option-cases (env.release i)) [
              | inl fine ↦ simp (asked, ok, older, fine) le
              | inr (e, fails) ↦ simp (asked, ok, older, fails) tt
            ]
            | inl newer ↦ simp (asked, ok, newer) (replaced-UpTo i r.held (lease i r) lt)
          ]
        ]
      ]

  poll_from-UpTo :
      (left i : ℕ) (changed : Bool) (r : Reader)
      → i + left ≡ capture_slots
      → r.sequence ≤ top
      → Ends (UpTo top) (poll_from env left i changed r)
  unfolding poll_from
  poll_from-UpTo zero i changed r e le = le
  poll_from-UpTo (suc left) i changed r e le =
      and_then-Ends env r (UpTo top) (poll_slot env i changed r) (poll_from env left (suc i))
        (poll_slot-UpTo i changed r (omega arith) le)
        (λ changed' r' le'. poll_from-UpTo left (suc i) changed' r' (omega arith) le')

-- The numbers of the slots do not change during the poll, a mutex is acquired when it was released with key 1 and
-- times out otherwise, and a release succeeds.
pub record PollExact (env : PollEnv) (s : Ring) : Type 0 where
  pub seen : (i : ℕ) → env.seen i ≡ sequence_at s.channel i
  pub read : (i : ℕ) → env.read i ≡ sequence_at s.channel i
  pub free : (i : ℕ) → s.mutex i ≡ readable → env.acquire i ≡ sync_ok
  pub busy : (i : ℕ) → s.mutex i ≢ readable → env.acquire i ≡ sync_timeout
  pub released : (i : ℕ) → env.release i ≡ none

-- The poll ends, and the reader has the publisher's last number.
pub IsUpToDate : Ring → Polled → Type 0
IsUpToDate s (goes_on changed r) = r.sequence ≡ s.publisher.sequence
IsUpToDate s (throws e r) = ⊥

pub readable_or_not : (k : Key) → (k ≡ readable) ⊎ (k ≢ readable)
readable_or_not readable = inl refl
readable_or_not writable = inr (λ e. absurd cc)
readable_or_not by_publisher = inr (λ e. absurd cc)
readable_or_not by_reader = inr (λ e. absurd cc)

exact-IsCalm : (env : PollEnv) (s : Ring) → PollExact env s → IsCalm env
exact-IsCalm env s x = record {
  fine = λ i. elim (readable_or_not (s.mutex i)) [
    | inl free ↦ inl (x.free i free)
    | inr other ↦ inr (x.busy i other)
  ];
  released = x.released;
}

kept_key : (k : Key) → k ≢ writable → k ≢ by_publisher → (k ≡ readable) ⊎ (reader_owns k ≡ true)
kept_key writable h p = absurd (h refl)
kept_key readable h p = inl refl
kept_key by_publisher h p = absurd (p refl)
kept_key by_reader h p = inr refl

-- The last publication is either held already, or offered.
reaches_last :
    (env : PollEnv) (s : Ring) (x : PollExact env s) (v : RingOk s) (r : Reader)
    → ((i : ℕ) → i < capture_slots → s.mutex i ≢ by_publisher)
    → s.reader.sequence ≤ r.sequence
    → ((i : ℕ) → i < capture_slots → IsOffered env s.reader i → env.read i ≤ r.sequence)
    → s.publisher.sequence ≤ r.sequence
reaches_last env s x v r mine grows newest = elim v.latest [
  | inl z ↦ omega arith
  | inr (j, w) ↦
      let o = v.slot j w.small in
      elim (kept_key (s.mutex j) w.kept (mine j w.small)) [
        | inr owned ↦ omega (arith, w.carries, o.shown (sym o.owner ∙ owned))
        | inl free ↦
            let le : env.read j ≤ r.sequence = newest j w.small (record {
              free = x.free j free;
              unread = omega (arith, x.seen j, o.unread free);
              other = sym o.owner ∙ ap reader_owns free;
            }) in
            omega (arith, w.carries, x.read j)
      ]
]

both :
    (env : PollEnv) (s : Ring) (p : Polled)
    → ((r : Reader)
        → s.reader.sequence ≤ r.sequence
        → ((i : ℕ) → i < capture_slots → IsOffered env s.reader i → env.read i ≤ r.sequence)
        → s.publisher.sequence ≤ r.sequence)
    → Ends (λ changed r. ReaderOk r × Advances s.reader changed r) p
    → Ends (UpTo s.publisher.sequence) p
    → EndsNewest env s.reader p
    → IsUpToDate s p
unfolding EndsNewest IsUpToDate
both env s (goes_on changed r) reaches progress le newest =
    let a = progress.1 in
    let ge : s.publisher.sequence ≤ r.sequence = reaches r a.grows newest in omega arith
both env s (throws e r) reaches progress le newest = newest

-- In every interleaving, a poll during which nothing is published, of mutexes none of which a failed release left
-- with the publisher, ends with the last publication of all.
pub poll_catches_up :
    (s : Ring) (env : PollEnv)
    → Reach s
    → PollExact env s
    → ((i : ℕ) → i < capture_slots → s.mutex i ≢ by_publisher)
    → IsUpToDate s (poll env s.reader)
poll_catches_up s env reached x mine =
    let v = Reach-RingOk s reached in
    both env s (poll env s.reader) (λ r grows newest. reaches_last env s x v r mine grows newest)
      (poll-Progress env s.reader (Reach-ReaderOk s reached))
      (unfold poll in
        poll_from-UpTo env s.publisher.sequence
          (λ i lt. let o = v.slot i lt in omega (arith, x.read i, o.written)) capture_slots 0 false
          s.reader refl v.behind)
      (poll_newest env s.reader (exact-IsCalm env s x))
