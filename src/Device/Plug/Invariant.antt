-- ===== src/Device/Plug/Invariant.antt =====
-- Each locked region of Plug keeps the invariant of the slot table, and so does Plug as a whole,
-- whatever other threads do in between, if they keep it too.
use nyan_real_vdd.Base.{
  ℕ, ◌<◌, ◌≡◌, ◌≢◌, refl, true, false, not, some, arith, set, get_or, Bool-cases, inl, inr,
  Option-cases, length, ◌==◌, ◌||◌, ◌⊎◌,
}
use nyan_real_vdd.Protocol.{PlugIn}
use nyan_real_vdd.Edid.Mode.{is_supported_mode}
use nyan_real_vdd.Device.{
  Device, Slot, empty_slot, NtStatus, OsResult-cases, OsCall, log, nt_success,
}
use nyan_real_vdd.Device.Slots.{has_cookie, first_free}
use nyan_real_vdd.Device.Slots.Laws.{has_cookie-set_empty, Unique-others, first_free_lem}
use nyan_real_vdd.Device.Invariant.{
  SlotOk, TableOk, TableOk-set, SlotOk-get_or, empty_slot-SlotOk, mode_of,
}
use nyan_real_vdd.Device.Plug.{
  requested_mode, reserved_slot, Reserved, refused, at_index, reserve, is_pending, with_binding,
  commit, rollback, PlugEnv, settle, offer, create_and_arrive_monitor, arrive, plug,
}

-- A request that Plug lets through its first test.
pub record IsAcceptable (p : PlugIn) : Type 0 where
  pub cookie_ne_zero : p.cookie ≢ 0
  pub supported : is_supported_mode (requested_mode p) ≡ true

pub reserved_slot-cookie :
    (p : PlugIn) (caps b : ℕ) → (reserved_slot p caps b).params.cookie ≡ p.cookie
unfolding reserved_slot
reserved_slot-cookie p caps b = ground arith

reserved_slot-mode : (p : PlugIn) (caps b : ℕ) → mode_of (reserved_slot p caps b) ≡ requested_mode p
unfolding reserved_slot
reserved_slot-mode p caps b = ground arith

reserved_slot-SlotOk : (p : PlugIn) (caps b : ℕ) → IsAcceptable p → SlotOk (reserved_slot p caps b)
unfolding reserved_slot
reserved_slot-SlotOk p caps b v = ground arith

-- What a reservation says of the state before it, and the state after it.
pub record ReservedAt (p : PlugIn) (b : ℕ) (d : Device) (i : ℕ) (d' : Device) : Type 0 where
  pub ready : d.adapter_ready ≡ true
  pub new : has_cookie p.cookie d.slots ≡ false
  pub free : (get_or d.slots i empty_slot).used ≡ false
  pub in_table : i < length d.slots
  pub after : d' ≡ record d { slots = set d.slots i (reserved_slot p d.cap_flags b) }

pub reserve-ReservedAt :
    (p : PlugIn) (b : ℕ) (d : Device) {i : ℕ} {d' : Device}
    → reserve p b d ≡ at_index i d'
    → ReservedAt p b d i d'
unfolding reserve
reserve-ReservedAt p b d {i} {d'} e = elim (Option-cases (first_free 0 d.slots)) [
  | inl full ↦ absurd (ground arith)
  | inr (j, found) ↦
      let (k, at, lt, idle) = first_free_lem 0 d.slots {j = j} found in
      let here : k ≡ i = ground arith in
      record {
        ready = ground arith;
        new = ground arith;
        free = rw here at idle;
        in_table = omega arith;
        after = ground arith;
      }
]

-- The first region.
pub reserve-TableOk :
    (p : PlugIn) (b : ℕ) (d : Device) {i : ℕ} {d' : Device}
    → IsAcceptable p
    → TableOk d.slots
    → reserve p b d ≡ at_index i d'
    → TableOk d'.slots
reserve-TableOk p b d {i} {d'} a v e =
    let r = reserve-ReservedAt p b d e in
    rw r.after (
      TableOk-set i (reserved_slot p d.cap_flags b) d.slots v
        (reserved_slot-SlotOk p d.cap_flags b a)
        (λ u.
          rw (reserved_slot-cookie p d.cap_flags b)
            (has_cookie-set_empty p.cookie i d.slots r.new)))

pending-SlotOk :
    (c h : ℕ) (s : Slot)
    → SlotOk s
    → is_pending c s ≡ true
    → SlotOk (record s { monitor = some h; arrived = true })
pending-SlotOk c h s v e = ground arith

-- The second region, whatever the index.
pub commit-TableOk :
    (i cookie h : ℕ) (d : Device) → TableOk d.slots → TableOk (commit i cookie h d).1.slots
unfolding commit
commit-TableOk i cookie h d v =
    elim (Bool-cases (is_pending cookie (get_or d.slots i empty_slot))) [
      | inl p ↦
          let s = get_or d.slots i empty_slot in
          rw p (
            TableOk-set i _ d.slots v (pending-SlotOk cookie h s (SlotOk-get_or i d.slots v.each) p)
              (λ u. Unique-others i d.slots v.unique u))
      | inr stale ↦ rw stale v
    ]

-- The third.
pub rollback-TableOk :
    (i cookie : ℕ) (d : Device) → TableOk d.slots → TableOk (rollback i cookie d).slots
unfolding rollback
rollback-TableOk i cookie d v =
    elim (Bool-cases (is_pending cookie (get_or d.slots i empty_slot))) [
      | inl p ↦ rw p (TableOk-set i empty_slot d.slots v empty_slot-SlotOk (λ u. cc))
      | inr gone ↦ rw gone v
    ]

-- What the environment of a plug must keep: the invariant, at each point where it may run.
pub record Keeps (env : PlugEnv) : Type 0 where
  pub read : (d : Device) → TableOk d.slots → TableOk (env.before_read d).slots
  pub committed : (d : Device) → TableOk d.slots → TableOk (env.before_commit d).slots
  pub rolled_back : (d : Device) → TableOk d.slots → TableOk (env.before_rollback d).slots

settle-TableOk :
    (env : PlugEnv) (i cookie : ℕ) (d : Device)
    → Keeps env
    → TableOk d.slots
    → TableOk (settle env i cookie d).1.slots
unfolding settle
settle-TableOk env i cookie d k v =
    let d1 = env.before_commit (log (OsCall.arrived env.handle) d) in
    let kept =
      commit-TableOk i cookie env.handle d1 (k.committed (log (OsCall.arrived env.handle) d) v) in
    elim (Bool-cases (commit i cookie env.handle d1).0) [ inl e ↦ rw e kept | inr e ↦ rw e kept ]

offer-TableOk :
    (env : PlugEnv) (i cookie : ℕ) (d : Device)
    → Keeps env
    → TableOk d.slots
    → TableOk (offer env i cookie d).1.slots
unfolding offer
offer-TableOk env i cookie d k v = elim (OsResult-cases env.create) [
  | inr (status, e) ↦ rw (e, offer) v
  | inl e ↦ elim (Bool-cases env.context_ok) [
    | inr no_context ↦ rw (e, no_context, offer) v
    | inl context ↦ elim (OsResult-cases env.arrival) [
      | inr (status, e') ↦ rw (e, context, e', offer) v
      | inl e' ↦
          rw (e, context, e', offer)
            (settle-TableOk env i cookie (log (OsCall.created env.handle) d) k v)
    ]
  ]
]

create_and_arrive_monitor-TableOk :
    (env : PlugEnv) (i : ℕ) (d : Device)
    → Keeps env
    → TableOk d.slots
    → TableOk (create_and_arrive_monitor env i d).1.slots
unfolding create_and_arrive_monitor
create_and_arrive_monitor-TableOk env i d k v = offer-TableOk env i _ d k v

arrive-TableOk :
    (env : PlugEnv) (p : PlugIn) (i : ℕ) (d' d : Device)
    → Keeps env
    → TableOk d'.slots
    → TableOk (arrive env p (at_index i d') d).2.slots
unfolding arrive
arrive-TableOk env p i d' d k v =
    let r = create_and_arrive_monitor env i (env.before_read d') in
    let kept = create_and_arrive_monitor-TableOk env i (env.before_read d') k (k.read d' v) in
    elim (Bool-cases (nt_success r.0)) [
      | inl e ↦ rw e kept
      | inr e ↦
          rw e (rollback-TableOk i p.cookie (env.before_rollback r.1) (k.rolled_back r.1 kept))
    ]

arrive_refused-TableOk :
    (env : PlugEnv) (p : PlugIn) (status : NtStatus) (d : Device)
    → TableOk d.slots
    → TableOk (arrive env p (refused status) d).2.slots
unfolding arrive
arrive_refused-TableOk env p status d v = v

-- A reservation is refused, or made at some index.
pub Reserved-cases :
    (r : Reserved)
    → ((status : NtStatus) × (r ≡ refused status)) ⊎ ((i : ℕ) × (d : Device) × (r ≡ at_index i d))
Reserved-cases (refused status) = inl (status, refl)
Reserved-cases (at_index i d) = inr (i, d, refl)

-- Plug keeps the invariant of the slot table on every path, whatever the framework answers and
-- whatever other threads do between its locked regions, as long as they keep the invariant.
pub plug-TableOk :
    (env : PlugEnv) (p : PlugIn) (d : Device)
    → Keeps env
    → TableOk d.slots
    → TableOk (plug env p d).2.slots
unfolding plug
plug-TableOk env p d k v =
    elim (Bool-cases (p.cookie == 0 || not (is_supported_mode (requested_mode p)))) [
      | inl bad ↦ rw bad v
      | inr good ↦ elim (Bool-cases env.binding_ok) [
        | inr no_memory ↦ rw (good, no_memory) v
        | inl memory ↦
            let a : IsAcceptable p = ground arith in
            elim (Reserved-cases (reserve p d.next_binding (with_binding d))) [
              | inl (status, e) ↦
                  simp (good, memory, e) (arrive_refused-TableOk env p status (with_binding d) v)
              | inr (i, d', e) ↦
                  simp (good, memory, e)
                    (arrive-TableOk env p i d' (with_binding d) k
                      (reserve-TableOk p d.next_binding (with_binding d) a v e))
            ]
      ]
    ]
