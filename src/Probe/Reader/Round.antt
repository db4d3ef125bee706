-- ===== src/Probe/Reader/Round.antt =====
-- One round of Poll's loop, whatever `Changed` is.
use nyan_real_vdd.Base.{
  ℕ, ◌<◌, ◌≡◌, refl, Bool, false, ◌||◌, inl, inr, Bool-cases, Option-cases, sym, subst, get_or, ltb,
  leb,
}
use nyan_real_vdd.FrameShare.Publisher.{capture_slots}
use nyan_real_vdd.FrameShare.Publisher.Laws.{SyncResult-cases}
use nyan_real_vdd.Probe.Reader.{
  Reader, PollEnv, Polled, goes_on, throws, on_acquired, on_answer, is_held, poll_slot,
}
use nyan_real_vdd.Probe.Reader.Laws.{ReaderOk, Ends, Progress, start_of, poll_slot-Progress}

abbrev IsReader : Reader → Polled → Type 0
IsReader r' (goes_on changed r) = r ≡ r'
IsReader r' (throws e r) = ⊥

-- What a round does to the reader does not depend on `Changed`.
IsReader-flag :
    (env : PollEnv) (i : ℕ) (changed : Bool) (r r' : Reader)
    → IsReader r' (poll_slot env i changed r)
    → IsReader r' (poll_slot env i false r)
unfolding poll_slot on_answer on_acquired
IsReader-flag env i changed r r' h =
    elim (Bool-cases (is_held i r.held || leb (env.seen i) (get_or r.returned i 0))) [
      | inl skipped ↦ simp skipped (simp skipped at h)
      | inr asked ↦ elim (SyncResult-cases (env.acquire i)) [
        | inr (inl busy) ↦ simp (asked, busy) (simp (asked, busy) at h)
        | inr (inr (e, failed)) ↦ absurd (simp (asked, failed) at h)
        | inl ok ↦ elim (Bool-cases (ltb r.sequence (env.read i))) [
          | inl newer ↦ simp (asked, ok, newer) (simp (asked, ok, newer) at h)
          | inr older ↦ elim (Option-cases (env.release i)) [
            | inl fine ↦ simp (asked, ok, older, fine) (simp (asked, ok, older, fine) at h)
            | inr (e, fails) ↦ absurd (simp (asked, ok, older, fails) at h)
          ]
        ]
      ]
    ]

IsReader-ReaderOk :
    (old r' : Reader) (x : Polled) → IsReader r' x → Ends (Progress old) x → ReaderOk r'
unfolding Progress
IsReader-ReaderOk old r' (goes_on changed r) e h = subst ReaderOk e h.0
IsReader-ReaderOk old r' (throws x r) e h = absurd e

pub poll_slot-ReaderOk :
    (env : PollEnv) (i : ℕ) (changed changed' : Bool) (r r' : Reader)
    → i < capture_slots
    → ReaderOk r
    → poll_slot env i changed r ≡ goes_on changed' r'
    → ReaderOk r'
unfolding Progress
poll_slot-ReaderOk env i changed changed' r r' lt v e =
    IsReader-ReaderOk r r' (poll_slot env i false r)
      (IsReader-flag env i changed r r' (subst (IsReader r') (sym e) refl))
      (poll_slot-Progress env r i false r lt (v, start_of r))
