-- ===== src/Device/Plug/Race.antt =====
-- Two plugs, with an unplug between their reservations (Plug and Unplug, driver/src/Driver.cpp): what the rollback
-- of the first does to the slot that the second took.
use nyan_real_vdd.Base.{
  ℕ, ◌≡◌, ◌≢◌, refl, true, false, arith, ap, ◌∙◌, sym, get_or, set, get_or-set_self, ◌<◌, length,
  length-set, subst, some,
}
use nyan_real_vdd.Protocol.{PlugIn}
use nyan_real_vdd.Device.{Device, Slot, empty_slot}
use nyan_real_vdd.Device.Invariant.{TableOk, SlotOk-get_or}
use nyan_real_vdd.Device.Unplug.{unplug}
use nyan_real_vdd.Device.Unplug.Laws.{unplug-TableOk}
use nyan_real_vdd.Device.Plug.{reserved_slot, is_pending, reserve, at_index, commit, rollback}
use nyan_real_vdd.Device.Plug.Invariant.{
  IsAcceptable, reserve-ReservedAt, reserve-TableOk, ReservedAt,
}
use nyan_real_vdd.Device.Plug.Quiet.{rollback_restores, reserved_slot_pending}

-- A rollback leaves alone a slot that does not wait for the cookie.
rollback_spares :
    (i c : ℕ) (d : Device) → is_pending c (get_or d.slots i empty_slot) ≡ false → rollback i c d ≡ d
unfolding rollback
rollback_spares i c d e = rw e refl

unused_not_pending : (c : ℕ) (s : Slot) → s.used ≡ false → is_pending c s ≡ false
unused_not_pending c s e = ground arith

other_not_pending :
    (c : ℕ) (p : PlugIn) (caps b : ℕ) → c ≢ p.cookie → is_pending c (reserved_slot p caps b) ≡ false
unfolding reserved_slot
other_not_pending c p caps b ne = ground arith

arrived_not_pending :
    (c h : ℕ) (s : Slot) → is_pending c (record s { monitor = some h; arrived = true }) ≡ false
arrived_not_pending c h s = ground arith

-- The device after the monitor arrived in the slot.
abbrev with_arrived : ℕ → ℕ → Device → Device
with_arrived i h d = record d {
  slots = set d.slots i (record (get_or d.slots i empty_slot) { monitor = some h; arrived = true });
}

commit_pending :
    (i c h : ℕ) (d : Device)
    → is_pending c (get_or d.slots i empty_slot) ≡ true
    → (commit i c h d).1 ≡ with_arrived i h d
unfolding commit
commit_pending i c h d e = rw e refl

arrived_spared :
    (i c h : ℕ) (d : Device)
    → i < length d.slots
    → rollback i c (with_arrived i h d) ≡ with_arrived i h d
arrived_spared i c h d lt =
    let s = get_or d.slots i empty_slot in
    let s' = record s { monitor = some h; arrived = true } in
    rollback_spares i c (with_arrived i h d)
      (ap (is_pending c) (get_or-set_self d.slots i s' empty_slot lt) ∙ arrived_not_pending c h s)

module _ (q : PlugIn) (b i : ℕ) (d d' : Device) (r : ReservedAt q b d i d') where
  slot_reserved : get_or d'.slots i empty_slot ≡ reserved_slot q d.cap_flags b
  slot_reserved =
      ap (λ (x : Device). get_or x.slots i empty_slot) r.after
      ∙ get_or-set_self d.slots i (reserved_slot q d.cap_flags b) empty_slot r.in_table

  still_in_table : i < length d'.slots
  still_in_table =
      let e : length d'.slots ≡ length d.slots =
        ap (λ (x : Device). length x.slots) r.after
        ∙ length-set d.slots i (reserved_slot q d.cap_flags b) in
      let lt = r.in_table in omega arith

  -- After the arrival of the monitor was committed, no rollback at the index takes effect.
  committed_spared : (c h : ℕ) → let d'' = (commit i q.cookie h d').1 in rollback i c d'' ≡ d''
  committed_spared c h =
      let pending =
        ap (is_pending q.cookie) slot_reserved ∙ reserved_slot_pending q d.cap_flags b in
      subst (λ x. rollback i c x ≡ x) (sym (commit_pending i q.cookie h d' pending))
        (arrived_spared i c h d' still_in_table)

  -- Nor does one of another cookie before it.
  other_spared : (c : ℕ) → c ≢ q.cookie → rollback i c d' ≡ d'
  other_spared c ne =
      rollback_spares i c d'
        (ap (is_pending c) slot_reserved ∙ other_not_pending c q d.cap_flags b ne)

-- A plug of an acceptable request reserves a slot of a sound table, an unplug runs, and then a second plug reserves
-- the slot of the same index. Between the two reservations the rollback of the first plug changes
-- nothing. After the second it gives up the second plug's reservation when the cookies are the same, and
-- changes nothing when they differ; and once the arrival of the second monitor was committed, it changes
-- nothing in either case.
pub rollback_after_reuse :
    (p q : PlugIn) (b b' i cookie handle : ℕ) (d reserved reused : Device)
    → TableOk d.slots
    → IsAcceptable p
    → reserve p b d ≡ at_index i reserved
    → let cleared = (unplug cookie reserved).1 in
      reserve q b' cleared ≡ at_index i reused
      → let committed = (commit i q.cookie handle reused).1 in
        (rollback i p.cookie cleared ≡ cleared)
        × (p.cookie ≡ q.cookie → (rollback i p.cookie reused).slots ≡ cleared.slots)
        × (p.cookie ≢ q.cookie → rollback i p.cookie reused ≡ reused)
        × (rollback i p.cookie committed ≡ committed)
rollback_after_reuse p q b b' i cookie handle d reserved reused v a e f =
    let cleared = (unplug cookie reserved).1 in
    let r = reserve-ReservedAt q b' cleared f in
    let ok = unplug-TableOk cookie reserved (reserve-TableOk p b d a v e) in
    (
      rollback_spares i p.cookie cleared
          (unused_not_pending p.cookie (get_or cleared.slots i empty_slot) r.free),
      λ same.
          subst (λ c. (rollback i c reused).slots ≡ cleared.slots) (sym same)
            (rollback_restores i q cleared.cap_flags b' cleared.slots reused r.in_table
              (SlotOk-get_or i cleared.slots ok.each) r.free
              (ap (λ (x : Device). x.slots) r.after)),
      other_spared q b' i cleared reused r p.cookie,
      committed_spared q b' i cleared reused r p.cookie handle,
    )
