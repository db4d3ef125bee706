-- ===== src/Device/Plug/Quiet.antt =====
-- CreateAndArriveMonitor and the rollback of Plug, when no other thread interferes.
use nyan_real_vdd.Base.{
  ℕ, zero, suc, ◌<◌, ◌^◌, ◌≡◌, refl, Bool, true, false, ◌&&◌, some, List, [], ◌∷◌, arith, set,
  get_or, length, ◌==◌, if◌then◌else◌, get_or-set_self, ap, ◌∙◌, sym,
}
use nyan_real_vdd.Protocol.{PlugIn}
use nyan_real_vdd.Edid.Block.{cookie_from_edid}
use nyan_real_vdd.Edid.Block.Laws.{cookie_from_edid-build_edid}
use nyan_real_vdd.Device.{
  Device, Slot, empty_slot, success, OsResult, done, failed, OsCall, log, nt_success,
}
use nyan_real_vdd.Device.Slots.{slot_has}
use nyan_real_vdd.Device.Invariant.{SlotOk}
use nyan_real_vdd.Device.Plug.{
  requested_mode, reserved_slot, is_pending, commit, rollback, PlugEnv, settle, offer,
  create_and_arrive_monitor,
}

-- No other thread touches the device during the plug.
pub record IsQuiet (env : PlugEnv) : Type 0 where
  pub read : (d : Device) → env.before_read d ≡ d
  pub committed : (d : Device) → env.before_commit d ≡ d
  pub rolled_back : (d : Device) → env.before_rollback d ≡ d

abbrev pub is_done : OsResult → Bool
is_done done = true
is_done (failed status) = false

-- The framework makes the monitor object, its context and its arrival.
abbrev pub os_accepts : PlugEnv → Bool
os_accepts env = is_done env.create && (env.context_ok && is_done env.arrival)

-- The slot of a monitor that has arrived.
abbrev pub arrived_slot : PlugEnv → Slot → Slot
arrived_slot env s = record s { monitor = some env.handle; arrived = true }

-- The slot of index `i` waits for the arrival of the monitor with the cookie.
pub record Waits (c i : ℕ) (d : Device) : Type 0 where
  pub pending : is_pending c (get_or d.slots i empty_slot) ≡ true
  pub described : cookie_from_edid (some (get_or d.slots i empty_slot).edid) 128 ≡ c

settle_quiet :
    (env : PlugEnv) (c i : ℕ) (d : Device)
    → IsQuiet env
    → is_pending c (get_or d.slots i empty_slot) ≡ true
    → ((settle env i c d).0 ≡ success)
      × ((settle env i c d).1.slots
          ≡ set d.slots i (arrived_slot env (get_or d.slots i empty_slot)))
unfolding settle commit
settle_quiet env c i d q p = rw (q.committed, p) (refl, refl)

offer_quiet :
    (env : PlugEnv) (c i : ℕ) (d : Device)
    → IsQuiet env
    → is_pending c (get_or d.slots i empty_slot) ≡ true
    → (nt_success (offer env i c d).0 ≡ os_accepts env)
      × ((offer env i c d).1.slots ≡ (
          if os_accepts env
          then set d.slots i (arrived_slot env (get_or d.slots i empty_slot))
          else d.slots))
unfolding offer
offer_quiet env c i d q p =
    ground (arith, settle_quiet env c i (log (OsCall.created env.handle) d) q p)

-- With a waiting slot the status tells whether the framework accepts, and the table changes only
-- then.
pub create_and_arrive_quiet :
    (env : PlugEnv) (c i : ℕ) (d : Device)
    → IsQuiet env
    → Waits c i d
    → (nt_success (create_and_arrive_monitor env i d).0 ≡ os_accepts env)
      × ((create_and_arrive_monitor env i d).1.slots ≡ (
          if os_accepts env
          then set d.slots i (arrived_slot env (get_or d.slots i empty_slot))
          else d.slots))
unfolding create_and_arrive_monitor
create_and_arrive_quiet env c i d q w = rw w.described (offer_quiet env c i d q w.pending)

pub set-set : (i : ℕ) (s t : Slot) (ss : List Slot) → set (set ss i s) i t ≡ set ss i t
set-set i s t [] = refl
set-set zero s t (x ∷ ss) = refl
set-set (suc i) s t (x ∷ ss) = ap (◌∷◌ x) (set-set i s t ss)

set-get_or : (i : ℕ) (ss : List Slot) → set ss i (get_or ss i empty_slot) ≡ ss
set-get_or i [] = refl
set-get_or zero (x ∷ ss) = refl
set-get_or (suc i) (x ∷ ss) = ap (◌∷◌ x) (set-get_or i ss)

-- The table after a reservation that is given up is the table before it.
free_restored :
    (i : ℕ) (s : Slot) (ss : List Slot)
    → SlotOk (get_or ss i empty_slot)
    → (get_or ss i empty_slot).used ≡ false
    → set (set ss i s) i empty_slot ≡ ss
free_restored i s ss v free =
    set-set i s empty_slot ss ∙ ap (set ss i) (sym (v.empty_unless_used free)) ∙ set-get_or i ss

pub reserved_slot_pending :
    (p : PlugIn) (caps b : ℕ) → is_pending p.cookie (reserved_slot p caps b) ≡ true
unfolding reserved_slot
reserved_slot_pending p caps b = ground arith

pub reserved_slot_described :
    (p : PlugIn) (caps b : ℕ)
    → p.cookie < 2 ^ 32
    → cookie_from_edid (some (reserved_slot p caps b).edid) 128 ≡ p.cookie
unfolding reserved_slot
reserved_slot_described p caps b fits = cookie_from_edid-build_edid p.cookie (requested_mode p) fits

-- Giving the reservation up after a refused arrival.
pub rollback_restores :
    (i : ℕ) (p : PlugIn) (caps b : ℕ) (ss : List Slot) (d : Device)
    → i < length ss
    → SlotOk (get_or ss i empty_slot)
    → (get_or ss i empty_slot).used ≡ false
    → d.slots ≡ set ss i (reserved_slot p caps b)
    → (rollback i p.cookie d).slots ≡ ss
unfolding rollback
rollback_restores i p caps b ss d lt v free e =
    rw
      (
        e,
        get_or-set_self ss i (reserved_slot p caps b) empty_slot lt,
        reserved_slot_pending p caps b,
      )
      (free_restored i (reserved_slot p caps b) ss v free)

-- Which cookie the monitor's slot answers to.
pub arrived_slot_has :
    (c : ℕ) (env : PlugEnv) (p : PlugIn) (caps b : ℕ)
    → slot_has c (arrived_slot env (reserved_slot p caps b)) ≡ (c == p.cookie)
unfolding reserved_slot
arrived_slot_has c env p caps b = ground arith
