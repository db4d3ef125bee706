-- ===== src/Probe/Reader/Laws.antt =====
-- A poll keeps the newest frame, and owns the mutex of that slot and of no other.
use nyan_real_vdd.Base.{
  ℕ, zero, suc, ◌+◌, ◌<◌, ◌≤◌, ◌≡◌, refl, Bool, true, false, ◌||◌, inl, inr, Option, none, some,
  List, arith, Bool-cases, Option-cases, ap, ◌∙◌, sym, subst, get_or, set, length, length-set,
  get_or-set_self, get_or-set_ne, ltb, leb, ◌==◌, if◌then◌else◌,
}
use nyan_real_vdd.FrameShare.Publisher.{
  SyncResult, sync_ok, sync_timeout, sync_failed, capture_slots,
}
use nyan_real_vdd.Probe.Reader.{
  Reader, PollEnv, Polled, goes_on, throws, lease, give_back, replace_held, on_acquired, on_answer,
  is_held, poll_slot, and_then, poll_from, poll,
}

abbrev pub HeldFits : Option ℕ → Type 0
HeldFits none = Unit
HeldFits (some h) = h < capture_slots

-- The reader owns the mutex of the slot that it holds, and no other.
pub record ReaderOk (r : Reader) : Type 0 where
  pub three : length r.leased ≡ capture_slots
  pub fits : HeldFits r.held
  pub owns : (i : ℕ) → i < capture_slots → get_or r.leased i false ≡ is_held i r.held

-- A property of the reader after a poll that does not throw.
abbrev pub Ends {ℓ} : (Bool → Reader → Type ℓ) → Polled → Type ℓ
Ends P (goes_on changed r) = P changed r
Ends P (throws e r) = Unit

-- How far a poll got: `Changed` is set exactly when a newer frame was retained.
pub record Advances (old : Reader) (changed : Bool) (r : Reader) : Type 0 where
  pub grows : old.sequence ≤ r.sequence
  pub newer : changed ≡ true → old.sequence < r.sequence
  pub same : changed ≡ false → (r.sequence ≡ old.sequence) × (r.held ≡ old.held)

unfoldable pub Progress : Reader → Bool → Reader → Type 0
Progress old changed r = ReaderOk r × Advances old changed r

get_or-set :
    (bs : List Bool) (i j : ℕ) (v : Bool)
    → i < length bs
    → get_or (set bs i v) j false ≡ (if j == i then v else get_or bs j false)
get_or-set bs i j v lt = elim (Bool-cases (j == i)) [
  | inl same ↦
      let e : j ≡ i = ground arith in
      simp same (ap (λ k. get_or (set bs i v) k false) e ∙ get_or-set_self bs i v false lt)
  | inr other ↦ simp other (get_or-set_ne bs i j v false (ground arith))
]

module _ (env : PollEnv) (old r : Reader) (i : ℕ) (changed : Bool) (v : ReaderOk r)
    (a : Advances old changed r) (lt : i < capture_slots) (free : is_held i r.held ≡ false) where
  in_table : i < length r.leased
  in_table = subst (λ n. i < n) (sym v.three) lt

  advances :
      (r' : Reader)
      → r'.sequence ≡ env.read i
      → ltb r.sequence (env.read i) ≡ true
      → Advances old true r'
  advances r' e newer = record {
    grows = ground (arith, a.grows);
    newer = λ t. ground (arith, a.grows);
    same = λ f. absurd (ground arith);
  }

  stays : (r' : Reader) → r'.sequence ≡ r.sequence → r'.held ≡ r.held → Advances old changed r'
  stays r' e h = record {
    grows = ground (arith, a.grows);
    newer = λ t. ground (arith, a.newer t);
    same = λ f. (e ∙ (a.same f).0, h ∙ (a.same f).1);
  }

  given_back : Progress old changed (give_back i (env.read i) (lease i r))
  unfolding Progress
  given_back =
      let three : length (set r.leased i true) ≡ capture_slots =
        length-set r.leased i true ∙ v.three in
      (
        record {
          three = length-set (set r.leased i true) i false ∙ three;
          fits = v.fits;
          owns = λ j ltj.
              get_or-set (set r.leased i true) i j false (subst (λ n. i < n) (sym three) lt)
              ∙ ground (arith, get_or-set r.leased i j true in_table, v.owns j ltj);
        },
        stays _ refl refl,
      )

  replaced :
      (held : Option ℕ)
      → r.held ≡ held
      → HeldFits held
      → ltb r.sequence (env.read i) ≡ true
      → Ends (Progress old) (replace_held env i held (lease i r))
  unfolding replace_held Progress
  replaced none e fits newer = (
    record {
      three = length-set r.leased i true ∙ v.three;
      fits = lt;
      owns = λ j ltj. get_or-set r.leased i j true in_table ∙ ground (arith, v.owns j ltj, e);
    },
    advances _ refl newer,
  )
  replaced (some h) e fits newer = elim (Option-cases (env.release h)) [
    | inr (error, fails) ↦ simp fails tt
    | inl fine ↦
        let three : length (set r.leased i true) ≡ capture_slots =
          length-set r.leased i true ∙ v.three in
        simp fine (
          record {
            three = length-set (set r.leased i true) h false ∙ three;
            fits = lt;
            owns = λ j ltj.
                get_or-set (set r.leased i true) h j false (subst (λ n. h < n) (sym three) fits)
                ∙ ground (arith, get_or-set r.leased i j true in_table, v.owns j ltj, e, free);
          },
          advances _ refl newer,
        )
  ]

  on_acquired-Progress : Ends (Progress old) (on_acquired env i changed (lease i r))
  unfolding on_acquired
  on_acquired-Progress = elim (Bool-cases (ltb r.sequence (env.read i))) [
    | inl newer ↦ simp newer (replaced r.held refl v.fits newer)
    | inr older ↦ elim (Option-cases (env.release i)) [
      | inl fine ↦ simp (older, fine) given_back
      | inr (error, fails) ↦ simp (older, fails) tt
    ]
  ]

  on_answer-Progress : (x : SyncResult) → Ends (Progress old) (on_answer x env i changed r)
  unfolding on_answer Progress
  on_answer-Progress sync_ok = on_acquired-Progress
  on_answer-Progress sync_timeout = (v, a)
  on_answer-Progress (sync_failed e) = tt

module _ (env : PollEnv) (old : Reader) where
  pub poll_slot-Progress :
      (i : ℕ) (changed : Bool) (r : Reader)
      → i < capture_slots
      → Progress old changed r
      → Ends (Progress old) (poll_slot env i changed r)
  unfolding poll_slot Progress
  poll_slot-Progress i changed r lt (v, a) =
      elim (Bool-cases (is_held i r.held || leb (env.seen i) (get_or r.returned i 0))) [
        | inl skipped ↦ simp skipped (v, a)
        | inr asked ↦
            let free : is_held i r.held ≡ false = ground arith in
            simp asked (on_answer-Progress env old r i changed v a lt free (env.acquire i))
      ]

  pub and_then-Ends {ℓ} :
      (P : Bool → Reader → Type ℓ) (x : Polled) (next : Bool → Reader → Polled)
      → Ends P x
      → ((changed : Bool) (r : Reader) → P changed r → Ends P (next changed r))
      → Ends P (and_then x next)
  and_then-Ends P (goes_on changed r) next h k = k changed r h
  and_then-Ends P (throws e r) next h k = h

  poll_from-Progress :
      (left i : ℕ) (changed : Bool) (r : Reader)
      → i + left ≡ capture_slots
      → Progress old changed r
      → Ends (Progress old) (poll_from env left i changed r)
  unfolding poll_from
  poll_from-Progress zero i changed r e h = h
  poll_from-Progress (suc left) i changed r e h =
      and_then-Ends (Progress old) (poll_slot env i changed r) (poll_from env left (suc i))
        (poll_slot-Progress i changed r (omega arith) h)
        (λ changed' r' h'. poll_from-Progress left (suc i) changed' r' (omega arith) h')

pub start_of : (r : Reader) → Advances r false r
start_of r = record {
  grows = omega arith;
  newer = λ e. absurd (ground arith);
  same = λ e. (refl, refl);
}

-- A poll that does not throw leaves the reader with the mutex of the slot that it holds and of no other,
-- and answers true exactly when it moved to a frame with a greater sequence number; otherwise the frame
-- and the slot are those from before.
pub poll-Progress :
    (env : PollEnv) (r : Reader)
    → ReaderOk r
    → Ends (λ changed r'. ReaderOk r' × Advances r changed r') (poll env r)
unfolding poll Progress
poll-Progress env r v = poll_from-Progress env r capture_slots 0 false r refl (v, start_of r)
