-- ===== src/Device/Plug/Outcome.antt =====
-- What one plug does when no other thread interferes: it succeeds exactly when it is admitted and
-- the framework accepts the monitor, and otherwise leaves the slot table as it was.
use nyan_real_vdd.Base.{
  ℕ, ◌<◌, ◌^◌, ◌≡◌, refl, Bool, true, false, ◌&&◌, Option, some, List, arith, set, get_or,
  Bool-cases, inl, inr, ◌==◌, if◌then◌else◌, get_or-set_self, ap, ◌∙◌, sym,
}
use nyan_real_vdd.Protocol.{PlugIn}
use nyan_real_vdd.Edid.Block.{cookie_from_edid}
use nyan_real_vdd.Device.{Device, Slot, empty_slot, NtStatus, nt_success}
use nyan_real_vdd.Device.Slots.{has_cookie, lookup, slot_has}
use nyan_real_vdd.Device.Slots.Laws.{has_cookie-set_empty, lookup-set_self, lookup-set_ne}
use nyan_real_vdd.Device.Invariant.{TableOk, SlotOk-get_or}
use nyan_real_vdd.Device.Plug.Admission.{offers, refuses, is_admitted, plug-Course}
use nyan_real_vdd.Device.Plug.Invariant.{ReservedAt}
use nyan_real_vdd.Device.Plug.{
  reserved_slot, at_index, is_pending, with_binding, PlugEnv, create_and_arrive_monitor, arrive,
  plug,
}
use nyan_real_vdd.Device.Plug.Quiet.{
  IsQuiet, os_accepts, arrived_slot, Waits, rollback_restores, create_and_arrive_quiet, set-set,
  reserved_slot_pending, reserved_slot_described, arrived_slot_has,
}

module _ (env : PlugEnv) (p : PlugIn) (d : Device) (q : IsQuiet env)
    (fits : p.cookie < 2 ^ 32) where
  -- The slot that the plug reserves.
  abbrev reservation : Slot
  reservation = reserved_slot p d.cap_flags d.next_binding

  -- The rest of Plug from a reservation at index `i` on.
  arrive_quiet :
      (i : ℕ) (d' : Device)
      → TableOk d.slots
      → ReservedAt p d.next_binding (with_binding d) i d'
      → let r = arrive env p (at_index i d') (with_binding d) in
        (nt_success r.0 ≡ os_accepts env)
        × (r.2.slots
            ≡ (if os_accepts env then set d.slots i (arrived_slot env reservation) else d.slots))
  unfolding arrive
  arrive_quiet i d' v r =
      let e : d'.slots ≡ set d.slots i reservation = ap (λ (x : Device). x.slots) r.after in
      let at : get_or d'.slots i empty_slot ≡ reservation =
        ap (λ (ss : List Slot). get_or ss i empty_slot) e
        ∙ get_or-set_self d.slots i reservation empty_slot r.in_table in
      let w : Waits p.cookie i d' = record {
        pending = ap (is_pending p.cookie) at ∙ reserved_slot_pending p d.cap_flags d.next_binding;
        described =
            ap (λ (s : Slot). cookie_from_edid (some s.edid) 128) at
            ∙ reserved_slot_described p d.cap_flags d.next_binding fits;
      } in
      let c = create_and_arrive_quiet env p.cookie i d' q w in
      elim (Bool-cases (os_accepts env)) [
        | inl takes ↦
            let ok : nt_success (create_and_arrive_monitor env i d').0 ≡ true = c.0 ∙ takes in
            let after : (create_and_arrive_monitor env i d').1.slots
                ≡ set d.slots i (arrived_slot env reservation) =
              rw takes at c.1
              ∙ ap (λ (s : Slot). set d'.slots i (arrived_slot env s)) at
              ∙ ap (λ (ss : List Slot). set ss i (arrived_slot env reservation)) e
              ∙ set-set i reservation (arrived_slot env reservation) d.slots in
            simp (q.read, ok, takes) (refl, after)
        | inr declines ↦
            let bad : nt_success (create_and_arrive_monitor env i d').0 ≡ false = c.0 ∙ declines in
            let kept : (create_and_arrive_monitor env i d').1.slots ≡ set d.slots i reservation =
              rw declines at c.1 ∙ e in
            simp (q.read, q.rolled_back, bad, declines)
              (
                refl,
                rollback_restores i p d.cap_flags d.next_binding d.slots _ r.in_table
                    (SlotOk-get_or i d.slots v.each) r.free kept,
              )
      ]

  -- Where no other thread runs during it, the slot table is sound and the cookie has 32 bits, a plug
  -- succeeds exactly when the request passes every test and the framework takes the monitor.
  pub plug_succeeds_iff :
      TableOk d.slots → nt_success (plug env p d).0 ≡ (is_admitted env p d && os_accepts env)
  plug_succeeds_iff v = elim (plug-Course env p d) [
    | refuses turned_away fails same ↦ rw (fails, turned_away) refl
    | offers i d' admitted r e ↦ rw (e, admitted) (arrive_quiet i d' v r).0
  ]

  lookup-set :
      (c i : ℕ) (d' : Device)
      → ReservedAt p d.next_binding (with_binding d) i d'
      → lookup c (set d.slots i (arrived_slot env reservation))
        ≡ (if c == p.cookie then some (arrived_slot env reservation) else lookup c d.slots)
  lookup-set c i d' r =
      let has : slot_has c (arrived_slot env reservation) ≡ (c == p.cookie) =
        arrived_slot_has c env p d.cap_flags d.next_binding in
      elim (Bool-cases (c == p.cookie)) [
        | inl same ↦
            let here : c ≡ p.cookie = ground arith in
            rw same (
              lookup-set_self c i (arrived_slot env reservation) d.slots r.in_table (has ∙ same) (
                has_cookie-set_empty c i d.slots
                  (ap (λ (k : ℕ). has_cookie k d.slots) here ∙ r.new)))
        | inr other ↦ rw other (
            lookup-set_ne c i (arrived_slot env reservation) d.slots
              (ap (λ (u : Bool). u && (get_or d.slots i empty_slot).params.cookie == c) r.free)
              (has ∙ other))
      ]

  -- Under the same conditions (no other thread during the plug, a sound table, a 32-bit cookie), after a
  -- plug that succeeded the table answers the plugged cookie with the monitor's slot, and every other
  -- cookie as before.
  pub lookup-plug :
      (c : ℕ)
      → TableOk d.slots
      → nt_success (plug env p d).0 ≡ true
      → lookup c (plug env p d).2.slots ≡ (
          if c == p.cookie
          then some (arrived_slot env (reserved_slot p d.cap_flags d.next_binding))
          else lookup c d.slots)
  lookup-plug c v h = elim (plug-Course env p d) [
    | refuses turned_away fails same ↦ absurd (ground arith)
    | offers i d' admitted r e ↦
        let a = arrive_quiet i d' v r in
        let accepted : os_accepts env ≡ true =
          sym a.0 ∙ ap (λ (x : NtStatus × Option ℕ × Device). nt_success x.0) (sym e) ∙ h in
        ap (λ (x : NtStatus × Option ℕ × Device). lookup c x.2.slots) e
        ∙ ap (lookup c) (rw accepted at a.1)
        ∙ lookup-set c i d' r
  ]

  -- Under the same conditions (no other thread during the plug, a sound table, a 32-bit cookie), a plug
  -- that failed leaves the slot table as it was: nothing stays reserved.
  pub slots-plug_failed :
      TableOk d.slots → nt_success (plug env p d).0 ≡ false → (plug env p d).2.slots ≡ d.slots
  slots-plug_failed v h = elim (plug-Course env p d) [
    | refuses turned_away fails same ↦ same
    | offers i d' admitted r e ↦
        let a = arrive_quiet i d' v r in
        let declined : os_accepts env ≡ false =
          sym a.0 ∙ ap (λ (x : NtStatus × Option ℕ × Device). nt_success x.0) (sym e) ∙ h in
        ap (λ (x : NtStatus × Option ℕ × Device). x.2.slots) e ∙ rw declined at a.1
  ]
