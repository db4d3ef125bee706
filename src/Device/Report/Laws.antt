-- ===== src/Device/Report/Laws.antt =====
-- What List and FillStatus report of a sound slot table, and what SetActiveMonitors changes in it.
use nyan_real_vdd.Base.{
  ℕ, zero, suc, ◌≤◌, ◌≡◌, refl, Bool, true, false, ◌&&◌, ◌||◌, Option, none, some, List, [], ◌∷◌,
  arith, length, ◌==◌, Bool-cases, inl, inr, if◌then◌else◌, ap, ◌∙◌, sym, All,
}
use nyan_real_vdd.Protocol.{MonitorInfo, max_monitors}
use nyan_real_vdd.Device.{Device, Slot}
use nyan_real_vdd.Device.Slots.{slot_has, has_cookie, lookup}
use nyan_real_vdd.Device.Slots.Laws.{Unique}
use nyan_real_vdd.Device.Invariant.{SlotOk, TableOk}
use nyan_real_vdd.Device.Report.{
  info_of, list_from, list, count_arrived, fill_status, is_listed, with_active, set_active,
  set_active_monitors, active_of_paths, record_committed_monitors,
}

length-list_from : (i : ℕ) (ss : List Slot) → length (list_from i ss) ≡ count_arrived ss
unfolding list_from count_arrived
length-list_from i [] = refl
length-list_from i (s ∷ ss) = ground (arith, length-list_from (suc i) ss)

count_arrived_le : (ss : List Slot) → count_arrived ss ≤ length ss
unfolding count_arrived
count_arrived_le [] = omega arith
count_arrived_le (s ∷ ss) = ground (arith, count_arrived_le ss)

-- For a sound slot table GET_STATUS and LIST agree on the number of monitors, and it is at most the four that the
-- answer of LIST has room for.
pub monitor_count_lem :
    (d : Device)
    → TableOk d.slots
    → ((fill_status d).monitor_count ≡ length (list d)) × (length (list d) ≤ max_monitors)
unfolding fill_status list
monitor_count_lem d v = ground (arith, length-list_from 0 d.slots, count_arrived_le d.slots, v.four)

-- The entries of LIST with the cookie.
unfoldable pub entries : ℕ → List MonitorInfo → List MonitorInfo
entries c [] = []
entries c (m ∷ ms) = if m.cookie == c then m ∷ entries c ms else entries c ms

-- The widths, heights and rates of the entries with a cookie, as the slot that is looked up says.
abbrev pub mode_fields : MonitorInfo → ℕ × ℕ × ℕ
mode_fields m = (m.width, m.height, m.refresh_hz)

-- Exactly one entry, with the mode that the slot was plugged with.
pub data IsEntryOf (s : Slot) : List MonitorInfo → Type 0 where
  single :
      (m : MonitorInfo)
      → mode_fields m ≡ (s.params.width, s.params.height, s.params.refresh_hz)
      → IsEntryOf s (m ∷ [])

-- What LIST must say of a cookie, given what the table holds under it.
abbrev pub Answers : Option Slot → List MonitorInfo → Type 0
Answers none ms = ms ≡ []
Answers (some s) ms = (s.arrived ≡ true → IsEntryOf s ms) × (s.arrived ≡ false → ms ≡ [])

entries_absent :
    (c i : ℕ) (ss : List Slot) → has_cookie c ss ≡ false → entries c (list_from i ss) ≡ []
unfolding has_cookie entries list_from
entries_absent c i [] h = refl
entries_absent c i (s ∷ ss) h = ground (arith, entries_absent c (suc i) ss)

entries_cons :
    (c i : ℕ) (s : Slot) (ss : List Slot)
    → entries c (list_from i (s ∷ ss)) ≡ (
        if slot_has c s && s.arrived
        then info_of i s ∷ entries c (list_from (suc i) ss)
        else entries c (list_from (suc i) ss))
unfolding entries list_from
entries_cons c i s ss = ground arith

list_from-Answers :
    (c i : ℕ) (ss : List Slot) → Unique ss → Answers (lookup c ss) (entries c (list_from i ss))
unfolding lookup entries list_from
list_from-Answers c i [] u = refl
list_from-Answers c i (s ∷ ss) u = elim (Bool-cases (slot_has c s)) [
  | inr other ↦ simp (other, entries_cons, lookup) (list_from-Answers c (suc i) ss u.1)
  | inl here ↦
      let alone : has_cookie c ss ≡ false =
        ap (λ (k : ℕ). has_cookie k ss) (ground arith) ∙ u.0 (ground arith) in
      simp (here, entries_cons, entries_absent c (suc i) ss alone, lookup)
        (λ h. simp h (single (info_of i s) refl), λ h. simp h refl)
]

-- For a sound slot table LIST has exactly one entry for a cookie whose monitor has arrived, with the mode it was plugged
-- with, and no entry for any other cookie.
pub list-Answers :
    (c : ℕ) (d : Device) → TableOk d.slots → Answers (lookup c d.slots) (entries c (list d))
unfolding list
list-Answers c d v = list_from-Answers c 0 d.slots v.unique

is_listed-active : (monitors : List ℕ) (s : Slot) → SlotOk s → SlotOk (with_active monitors s)
is_listed-active monitors s v = ground arith

set_active-has_cookie :
    (c : ℕ) (monitors : List ℕ) (ss : List Slot)
    → has_cookie c (set_active monitors ss) ≡ has_cookie c ss
unfolding has_cookie set_active
set_active-has_cookie c monitors [] = refl
set_active-has_cookie c monitors (s ∷ ss) = ground (arith, set_active-has_cookie c monitors ss)

set_active-Unique :
    (monitors : List ℕ) (ss : List Slot) → Unique ss → Unique (set_active monitors ss)
unfolding set_active
set_active-Unique monitors [] u = tt
set_active-Unique monitors (s ∷ ss) u = (
  λ h. ground (arith, set_active-has_cookie s.params.cookie monitors ss, u.0),
  set_active-Unique monitors ss u.1,
)

set_active-SlotOk :
    (monitors : List ℕ) (ss : List Slot) → All SlotOk ss → All SlotOk (set_active monitors ss)
unfolding set_active
set_active-SlotOk monitors [] v = tt
set_active-SlotOk monitors (s ∷ ss) v =
    (is_listed-active monitors s v.0, set_active-SlotOk monitors ss v.1)

length-set_active :
    (monitors : List ℕ) (ss : List Slot) → length (set_active monitors ss) ≡ length ss
unfolding set_active
length-set_active monitors [] = refl
length-set_active monitors (s ∷ ss) = ap suc (length-set_active monitors ss)

-- Recording the committed paths keeps the invariant of the slot table.
pub record_committed_monitors-TableOk :
    (paths : List (Bool × ℕ)) (d : Device)
    → TableOk d.slots
    → TableOk (record_committed_monitors paths d).slots
unfolding record_committed_monitors set_active_monitors
record_committed_monitors-TableOk paths d v =
    let ms = active_of_paths max_monitors paths in
    record {
      four = length-set_active ms d.slots ∙ v.four;
      each = set_active-SlotOk ms d.slots v.each;
      unique = set_active-Unique ms d.slots v.unique;
    }

-- Whether the path is active and drives the monitor.
abbrev pub drives : ℕ → Bool × ℕ → Bool
drives h p = p.0 && h == p.1

unfoldable pub any_drives : ℕ → List (Bool × ℕ) → Bool
any_drives h [] = false
any_drives h (p ∷ ps) = drives h p || any_drives h ps

unfoldable pub count_active : List (Bool × ℕ) → ℕ
count_active [] = 0
count_active ((true, h) ∷ ps) = suc (count_active ps)
count_active ((false, h) ∷ ps) = count_active ps

no_room : (ps : List (Bool × ℕ)) → active_of_paths 0 ps ≡ []
unfolding active_of_paths
no_room [] = refl
no_room (p ∷ ps) = refl

listed_paths :
    (room h : ℕ) (ps : List (Bool × ℕ))
    → count_active ps ≤ room
    → is_listed (some h) (active_of_paths room ps) ≡ any_drives h ps
unfolding is_listed active_of_paths any_drives count_active
listed_paths room h [] k = refl
listed_paths zero h ((true, m) ∷ ps) k = absurd (omega arith)
listed_paths zero h ((false, m) ∷ ps) k =
    ap (is_listed (some h)) (sym (no_room ps)) ∙ listed_paths zero h ps k
listed_paths (suc room) h ((true, m) ∷ ps) k = ground (arith, listed_paths room h ps (omega arith))
listed_paths (suc room) h ((false, m) ∷ ps) k = ground (arith, listed_paths (suc room) h ps k)

with_active_has :
    (c : ℕ) (monitors : List ℕ) (s : Slot) → slot_has c (with_active monitors s) ≡ slot_has c s
with_active_has c monitors s = ground arith

lookup_used : (c : ℕ) (ss : List Slot) {s : Slot} → lookup c ss ≡ some s → s.used ≡ true
unfolding lookup
lookup_used c [] h = cc
lookup_used c (t ∷ ts) {s} h = ground (arith, lookup_used c ts {s = s})

lookup-set_active :
    (c : ℕ) (monitors : List ℕ) (ss : List Slot) {s : Slot}
    → lookup c ss ≡ some s
    → lookup c (set_active monitors ss) ≡ some (with_active monitors s)
unfolding lookup set_active
lookup-set_active c monitors [] h = cc
lookup-set_active c monitors (t ∷ ts) {s} h = elim (Bool-cases (slot_has c t)) [
  | inl here ↦ ground (arith, with_active_has c monitors t, here)
  | inr other ↦
      ground (arith, with_active_has c monitors t, other, lookup-set_active c monitors ts {s = s})
]

driven :
    (ms : List ℕ) (s : Slot)
    → s.used ≡ true
    → s.arrived ≡ true
    → with_active ms s ≡ record s { active = is_listed s.monitor ms }
driven ms s u a = simp (u, a) refl

-- After a mode commit with at most four active paths, a monitor that has arrived, found by
-- its cookie, is active exactly when an active path drives it; nothing else of its slot changes.
pub record_committed_monitors_lem :
    (c h : ℕ) (paths : List (Bool × ℕ)) (d : Device) {s : Slot}
    → count_active paths ≤ max_monitors
    → lookup c d.slots ≡ some s
    → s.arrived ≡ true
    → s.monitor ≡ some h
    → lookup c (record_committed_monitors paths d).slots
      ≡ some (record s { active = any_drives h paths })
unfolding record_committed_monitors set_active_monitors
record_committed_monitors_lem c h paths d {s} k e arrived m =
    let ms = active_of_paths max_monitors paths in
    lookup-set_active c ms d.slots {s = s} e
    ∙ ap some (
        driven ms s (lookup_used c d.slots {s = s} e) arrived
        ∙ ap (λ (b : Bool). record s { active = b })
            (ap (λ (o : Option ℕ). is_listed o ms) m ∙ listed_paths max_monitors h paths k))
