-- ===== src/Probe/Summary/Changed.antt =====
-- The count of the frames that changed pixels (tools/dirty-probe/dirty_probe.cpp).
use nyan_real_vdd.Base.{
  ℕ, suc, ◌+◌, ◌≤◌, ◌≡◌, ◌↔◌, refl, true, inl, inr, List, [], ◌∷◌, length, All, ◌==◌, arith,
  Bool-cases, sym, subst, if◌then◌else◌,
}
use nyan_real_vdd.Probe.Frames.{FrameRecord}
use nyan_real_vdd.Probe.Summary.{Content, no_content, see_frame, see_frames}

-- The hashes of the frames that have one.
abbrev pub hashes : List FrameRecord → List ℕ
hashes [] = []
hashes (f ∷ fs) = let rest = hashes fs in if f.hash_valid then f.hash ∷ rest else rest

abbrev pub AllSame : List ℕ → Type 0
AllSame [] = Unit
AllSame (x ∷ xs) = All (λ y. y ≡ x) xs

-- The loop once a frame had a hash.
record Follows (xs : List ℕ) (c r : Content) : Type 0 where
  hashed : r.hashed ≡ c.hashed + length xs
  grows : c.changed ≤ r.changed
  same : r.changed ≡ c.changed → All (λ y. y ≡ c.prev) xs
  none : All (λ y. y ≡ c.prev) xs → r.changed ≡ c.changed

see_frames-Follows :
    (fs : List FrameRecord) (c : Content)
    → c.have_prev ≡ true
    → Follows (hashes fs) c (see_frames fs c)
unfolding see_frames see_frame
see_frames-Follows [] c have = record {
  hashed = omega arith;
  grows = omega arith;
  same = λ e. tt;
  none = λ h. refl;
}
see_frames-Follows (f ∷ fs) c have = elim (Bool-cases f.hash_valid) [
  | inr unhashed ↦
      let rest = see_frames-Follows fs c have in
      simp unhashed
        (record { hashed = rest.hashed; grows = rest.grows; same = rest.same; none = rest.none })
  | inl valid ↦ elim (Bool-cases (f.hash == c.prev)) [
    | inl equal ↦
        let rest =
          see_frames-Follows fs
            (record { prev = f.hash; have_prev = true; hashed = suc c.hashed; changed = c.changed })
            refl in
        let e : f.hash ≡ c.prev = ground arith in
        simp (valid, have, equal)
          (record {
            hashed = omega (arith, rest.hashed);
            grows = rest.grows;
            same = λ x. (e, subst (λ p. All (λ y. y ≡ p) (hashes fs)) e (rest.same x));
            none = λ h. rest.none (subst (λ p. All (λ y. y ≡ p) (hashes fs)) (sym e) h.1);
          })
    | inr other ↦
        let rest =
          see_frames-Follows fs
            (record {
              prev = f.hash;
              have_prev = true;
              hashed = suc c.hashed;
              changed = suc c.changed;
            })
            refl in
        let g = rest.grows in
        simp (valid, have, other)
          (record {
            hashed = omega (arith, rest.hashed);
            grows = omega arith;
            same = λ x. absurd (omega arith);
            none = λ h. let e : f.hash ≡ c.prev = h.0 in absurd (ground arith);
          })
  ]
]

-- Of the frames with a hash, the loop counts all, and none as changed exactly when every hash is that of the first.
pub see_frames_unchanged_iff :
    (fs : List FrameRecord)
    → ((see_frames fs no_content).hashed ≡ length (hashes fs))
      × (((see_frames fs no_content).changed ≡ 0) ↔ AllSame (hashes fs))
unfolding see_frames see_frame
see_frames_unchanged_iff [] = (refl, ((λ e. tt), (λ h. refl)))
see_frames_unchanged_iff (f ∷ fs) = elim (Bool-cases f.hash_valid) [
  | inr unhashed ↦ simp unhashed (see_frames_unchanged_iff fs)
  | inl valid ↦
      let rest =
        see_frames-Follows fs (record { prev = f.hash; have_prev = true; hashed = 1; changed = 0 })
          refl in
      simp valid (omega (arith, rest.hashed), (rest.same, rest.none))
]
