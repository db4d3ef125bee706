-- ===== src/Edid/ModeList/Laws.antt =====
-- What BuildModeList promises: the preferred mode first, every table mode, no duplicate, no overrun.
use mathlib.Core.List.{Mem, Mem-prop, mem-cons, not-mem-nil, Nodup, Nodup-cons, Nodup-nil}
use mathlib.Core.Logic.{◌∨₁◌, ∨₁_prop}
use mathlib.Core.HLevel.{⊥_prop, ×_prop, ¬_prop}
use mathlib.Core.Logic.Or
use nyan_real_vdd.Base.{
  ◌≤◌, ◌≡◌, ◌≢◌, ◌↔◌, refl, Bool, true, false, not, ◌&&◌, ◌||◌, Option, none, some, List, [], ◌∷◌,
  arith, length, All, ap, ◌∙◌, if◌then◌else◌, Bool-cases, inl, inr,
}
use nyan_real_vdd.Edid.Mode.{NyanMode, same_mode}
use nyan_real_vdd.Edid.ModeList.{k_mode_table, k_max_modes, append_table, build_mode_list}

pub same_mode_iff : (a b : NyanMode) → (same_mode a b ≡ true) ↔ (a ≡ b)
unfolding same_mode
same_mode_iff a b = ground arith

-- A Boolean search, by which the table is checked.
contains : NyanMode → List NyanMode → Bool
contains m [] = false
contains m (t ∷ ts) = same_mode m t || contains m ts

distinct : List NyanMode → Bool
distinct [] = true
distinct (t ∷ ts) = not (contains t ts) && distinct ts

contains_complete : (m : NyanMode) (ts : List NyanMode) → contains m ts ≡ false → ¬ Mem m ts
unfolding contains
contains_complete m [] h k = not-mem-nil k
contains_complete m (t ∷ ts) h k =
    Or.elim ⊥_prop (mem-cons.0 k) (λ e. ground (arith, same_mode_iff m t))
      (contains_complete m ts (ground arith))

distinct-Nodup : (ts : List NyanMode) → distinct ts ≡ true → Nodup ts
unfolding distinct
distinct-Nodup [] h = Nodup-nil
distinct-Nodup (t ∷ ts) h =
    Nodup-cons.1 (contains_complete t ts (ground arith), distinct-Nodup ts (ground arith))

k_mode_table-distinct : distinct k_mode_table ≡ true
unfolding distinct contains same_mode
k_mode_table-distinct = refl

k_mode_table-Nodup : Nodup k_mode_table
k_mode_table-Nodup = distinct-Nodup k_mode_table k_mode_table-distinct

append_table-none : (ts : List NyanMode) → append_table none ts ≡ ts
unfolding append_table
append_table-none [] = refl
append_table-none (t ∷ ts) = ap (◌∷◌ t) (append_table-none ts)

mem-append_table_cons :
    (m p t : NyanMode) (ts rest : List NyanMode) (b : Bool)
    → same_mode t p ≡ b
    → (Mem m rest ↔ (Mem m ts × (m ≢ p)))
    → Mem m (if b then rest else t ∷ rest) ↔ (Mem m (t ∷ ts) × (m ≢ p))
mem-append_table_cons m p t ts rest true e ih = (
  λ k. (mem-cons.1 (Or.inr (ih.0 k).0), (ih.0 k).1),
  λ k.
      Or.elim Mem-prop (mem-cons.0 k.0) (λ q. absurd (k.1 (q ∙ (same_mode_iff t p).0 e)))
        (λ q. ih.1 (q, k.1)),
)
mem-append_table_cons m p t ts rest false e ih = (
  λ k.
      Or.elim (×_prop Mem-prop ¬_prop) (mem-cons.0 k)
        (λ q. (mem-cons.1 (Or.inl q), λ r. ground (arith, same_mode_iff t p, same_mode_iff m p)))
        (λ q. (mem-cons.1 (Or.inr (ih.0 q).0), (ih.0 q).1)),
  λ k.
      Or.elim Mem-prop (mem-cons.0 k.0) (λ q. mem-cons.1 (Or.inl q))
        (λ q. mem-cons.1 (Or.inr (ih.1 (q, k.1)))),
)

mem-append_table :
    (m p : NyanMode) (ts : List NyanMode) → Mem m (append_table (some p) ts) ↔ (Mem m ts × (m ≢ p))
unfolding append_table
mem-append_table m p [] = (λ k. absurd (not-mem-nil k), λ k. k.0)
mem-append_table m p (t ∷ ts) =
    mem-append_table_cons m p t ts (append_table (some p) ts) (same_mode t p) refl
      (mem-append_table m p ts)

append_table-Nodup :
    (p : NyanMode) (ts : List NyanMode) → Nodup ts → Nodup (append_table (some p) ts)
unfolding append_table
append_table-Nodup p [] h = h
append_table-Nodup p (t ∷ ts) h = elim (Bool-cases (same_mode t p)) [
  | inl same ↦ rw same (append_table-Nodup p ts (Nodup-cons.0 h).1)
  | inr new ↦ rw new (
      Nodup-cons.1 (
        λ k. (Nodup-cons.0 h).0 ((mem-append_table t p ts).0 k).0,
        append_table-Nodup p ts (Nodup-cons.0 h).1,
      ))
]

length-append_table :
    (p : NyanMode) (ts : List NyanMode) → length (append_table (some p) ts) ≤ length ts
unfolding append_table
length-append_table p [] = omega arith
length-append_table p (t ∷ ts) = ground (arith, length-append_table p ts)

-- With or without a preferred mode, the list fits the buffer of kMaxModes and has no duplicate.
pub build_mode_list-Nodup :
    (preferred : Option NyanMode)
    → Nodup (build_mode_list preferred) × (length (build_mode_list preferred) ≤ k_max_modes)
unfolding build_mode_list
build_mode_list-Nodup none = rw (append_table-none k_mode_table) (k_mode_table-Nodup, omega arith)
build_mode_list-Nodup (some p) = (
  Nodup-cons.1 (
    λ k. ((mem-append_table p p k_mode_table).0 k).1 refl,
    append_table-Nodup p k_mode_table k_mode_table-Nodup,
  ),
  omega (arith, length-append_table p k_mode_table),
)

-- With a preferred mode, a mode is offered exactly when it is that one or in the static table.
pub mem-build_mode_list :
    (p m : NyanMode) → (Mem m (build_mode_list (some p)) ↔ ((m ≡ p) ∨₁ Mem m k_mode_table))
unfolding build_mode_list
mem-build_mode_list p m = (
  λ k.
      Or.elim ∨₁_prop (mem-cons.0 k) Or.inl
        (λ q. Or.inr ((mem-append_table m p k_mode_table).0 q).0),
  λ k.
      Or.elim Mem-prop k (λ q. mem-cons.1 (Or.inl q))
        λ q. elim (Bool-cases (same_mode m p)) [
          | inl same ↦ mem-cons.1 (Or.inl ((same_mode_iff m p).0 same))
          | inr new ↦ mem-cons.1 (
              Or.inr
                ((mem-append_table m p k_mode_table).1 (q, λ e. ground (arith, same_mode_iff m p))))
        ],
)

pub All-append_table {κ} :
    (P : NyanMode → Type κ) (p : NyanMode) (ts : List NyanMode)
    → All P ts
    → All P (append_table (some p) ts)
unfolding append_table
All-append_table P p [] h = tt
All-append_table P p (t ∷ ts) h = elim (Bool-cases (same_mode t p)) [
  | inl same ↦ rw same (All-append_table P p ts h.1)
  | inr new ↦ rw new (h.0, All-append_table P p ts h.1)
]
