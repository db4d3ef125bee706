-- ===== src/Device/System.antt =====
-- The device as a transition system: what its threads do in the regions that the lock makes atomic,
-- in any interleaving. A Plug takes three steps, between which any other thread may run, and InitAdapter takes one
-- for each region under the lock and one for each of its writes between them.
use nyan_real_vdd.Base.{ℕ, ◌≡◌, Bool, false, Option, List, arith, sym, subst}
use nyan_real_vdd.Protocol.{PlugIn}
use nyan_real_vdd.FrameShare.Channel.{CreateEnv}
use nyan_real_vdd.Device.{Device, Slot, new_device, OsResult, OsCall, log}
use nyan_real_vdd.Device.Invariant.{TableOk, new_device-TableOk}
use nyan_real_vdd.Device.Plug.{with_binding, reserve, at_index, commit, rollback}
use nyan_real_vdd.Device.Plug.Invariant.{
  IsAcceptable, reserve-TableOk, commit-TableOk, rollback-TableOk,
}
use nyan_real_vdd.Device.Unplug.{unplug}
use nyan_real_vdd.Device.Unplug.Laws.{unplug-TableOk}
use nyan_real_vdd.Device.Report.{record_committed_monitors}
use nyan_real_vdd.Device.Report.Laws.{record_committed_monitors-TableOk}
use nyan_real_vdd.Device.Capture.{open_capture, close_capture}
use nyan_real_vdd.Device.Capture.Laws.{open_capture-TableOk}
use nyan_real_vdd.Device.Capture.Close.{close_capture-TableOk}
use nyan_real_vdd.Device.Watchdog.{WatchdogEnv, set_watchdog, pet_watchdog, check, disarm}
use nyan_real_vdd.Device.Watchdog.Laws.{check-slots}
use nyan_real_vdd.Device.Adapter.{
  AdapterEnv, begin_adapter, set_version, set_caps, conclude, on_adapter_init_finished,
}
use nyan_real_vdd.Device.Adapter.Laws.{
  slots-conclude, slots-set_version, slots-on_adapter_init_finished,
}

pub data Step : Device → Device → Type 0 where
  begins_adapter : (d : Device) → d.adapter_init_started ≡ false → Step d (begin_adapter d)
  sets_version : (v : Option ℕ) (d : Device) → Step d (set_version v d)
  sets_caps : (caps : ℕ) (d : Device) → Step d (set_caps caps d)
  concludes_adapter :
      (env : AdapterEnv) (accepted : Option Bool) (d : Device) → Step d (conclude env accepted d)
  finishes_adapter : (r : OsResult) (d : Device) → Step d (on_adapter_init_finished r d)
  plug_reserves :
      (p : PlugIn) (i : ℕ) (d d' : Device)
      → IsAcceptable p
      → reserve p d.next_binding (with_binding d) ≡ at_index i d'
      → Step d d'
  calls_framework : (c : OsCall) (d : Device) → Step d (log c d)
  plug_commits : (i cookie handle : ℕ) (d : Device) → Step d (commit i cookie handle d).1
  plug_rolls_back : (i cookie : ℕ) (d : Device) → Step d (rollback i cookie d)
  unplugs : (cookie : ℕ) (d : Device) → Step d (unplug cookie d).1
  commits_modes :
      (paths : List (Bool × ℕ)) (d : Device) → Step d (record_committed_monitors paths d)
  opens_capture :
      (cookie : ℕ) (owner : Option ℕ) (closing : Bool) (env : CreateEnv) (d : Device)
      → Step d (open_capture cookie owner closing env d).2
  closes_capture : (owner : ℕ) (d : Device) → Step d (close_capture owner d)
  sets_watchdog : (env : WatchdogEnv) (t now : ℕ) (d : Device) → Step d (set_watchdog env t now d).1
  pets_watchdog : (now : ℕ) (d : Device) → Step d (pet_watchdog now d)
  checks_watchdog : (now : ℕ) (d : Device) → Step d (check now d).1
  disarms_watchdog : (d : Device) → Step d (disarm d)

-- The states that a device reaches after its construction.
pub data Reach : Device → Type 0 where
  start : Reach new_device
  next : (d d' : Device) → Reach d → Step d d' → Reach d'

pub slots-set_watchdog :
    (env : WatchdogEnv) (t now : ℕ) (d : Device) → (set_watchdog env t now d).1.slots ≡ d.slots
unfolding set_watchdog
slots-set_watchdog env t now d = ground arith

pub slots-pet_watchdog : (now : ℕ) (d : Device) → (pet_watchdog now d).slots ≡ d.slots
unfolding pet_watchdog
slots-pet_watchdog now d = ground arith

same_slots : {ss ss' : List Slot} → ss' ≡ ss → TableOk ss → TableOk ss'
same_slots e v = subst TableOk (sym e) v

Step-TableOk : {d d' : Device} → Step d d' → TableOk d.slots → TableOk d'.slots
Step-TableOk (begins_adapter d first) v = v
Step-TableOk (sets_version x d) v = same_slots (slots-set_version x d) v
Step-TableOk (sets_caps caps d) v = v
Step-TableOk (concludes_adapter env accepted d) v = same_slots (slots-conclude env accepted d) v
Step-TableOk (finishes_adapter r d) v = same_slots (slots-on_adapter_init_finished r d) v
Step-TableOk (plug_reserves p i d d' a e) v =
    reserve-TableOk p d.next_binding (with_binding d) a v e
Step-TableOk (calls_framework c d) v = v
Step-TableOk (plug_commits i cookie handle d) v = commit-TableOk i cookie handle d v
Step-TableOk (plug_rolls_back i cookie d) v = rollback-TableOk i cookie d v
Step-TableOk (unplugs cookie d) v = unplug-TableOk cookie d v
Step-TableOk (commits_modes paths d) v = record_committed_monitors-TableOk paths d v
Step-TableOk (opens_capture cookie owner closing env d) v =
    open_capture-TableOk cookie owner closing env d v
Step-TableOk (closes_capture owner d) v = close_capture-TableOk owner d v
Step-TableOk (sets_watchdog env t now d) v = same_slots (slots-set_watchdog env t now d) v
Step-TableOk (pets_watchdog now d) v = same_slots (slots-pet_watchdog now d) v
Step-TableOk (checks_watchdog now d) v = same_slots (check-slots now d) v
Step-TableOk (disarms_watchdog d) v = v

-- In every interleaving of the device's threads the slot table has four slots, no two used slots
-- share a cookie, and each used slot has a non-zero cookie, a supported mode, the EDID made of
-- both, a capture binding, and a monitor exactly when it has arrived; only an arrived slot is
-- active or captured, and a slot that is not used is empty.
pub Reach-TableOk : {d : Device} → Reach d → TableOk d.slots
Reach-TableOk start = new_device-TableOk
Reach-TableOk (next d d' r s) = Step-TableOk s (Reach-TableOk r)
