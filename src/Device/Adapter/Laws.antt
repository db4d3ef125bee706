-- ===== src/Device/Adapter/Laws.antt =====
-- Starting the adapter happens once, and what the device reports of it agrees with how it ended.
use nyan_real_vdd.Base.{
  ℕ, ◌≡◌, refl, Bool, true, false, Option, none, some, arith, Bool-cases, inl, inr, if◌then◌else◌,
  ◌∙◌,
}
use nyan_real_vdd.Base.Bits.{has_bit, set_bit}
use nyan_real_vdd.Protocol.{cap_hdr10_ready}
use nyan_real_vdd.Device.{Device, OsResult, done, failed}
use nyan_real_vdd.Device.Adapter.{
  AdapterEnv, request, attempts, conclude, begin_adapter, set_version, set_caps, init_adapter,
  on_adapter_init_finished,
}

-- Other threads leave alone what InitAdapter alone writes.
pub record LeavesAdapter (f : Device → Device) : Type 0 where
  pub started : (d : Device) → (f d).adapter_init_started ≡ d.adapter_init_started
  pub caps : (d : Device) → (f d).cap_flags ≡ d.cap_flags

conclude_started :
    (env : AdapterEnv) (accepted : Option Bool) (d : Device)
    → (conclude env accepted d).adapter_init_started ≡ d.adapter_init_started
unfolding conclude
conclude_started env none d = refl
conclude_started env (some fp16) d = refl

set_version_started :
    (v : Option ℕ) (d : Device) → (set_version v d).adapter_init_started ≡ d.adapter_init_started
set_version_started none d = refl
set_version_started (some v) d = refl

set_version_caps : (v : Option ℕ) (d : Device) → (set_version v d).cap_flags ≡ d.cap_flags
set_version_caps none d = refl
set_version_caps (some v) d = refl

init_adapter_started :
    (env : AdapterEnv) (d : Device)
    → LeavesAdapter env.before_request
    → LeavesAdapter env.before_conclude
    → (init_adapter env d).adapter_init_started ≡ true
unfolding init_adapter
init_adapter_started env d v w = elim (Bool-cases d.adapter_init_started) [
  | inl again ↦ simp (again, init_adapter) refl
  | inr first ↦ simp (first, conclude_started, set_version_started, v.started, w.started) refl
]

skips : (env : AdapterEnv) (d : Device) → d.adapter_init_started ≡ true → init_adapter env d ≡ d
unfolding init_adapter
skips env d h = simp (h, init_adapter) refl

-- A second start of the adapter changes nothing, whatever the framework would answer to it.
pub init_adapter_once :
    (env env' : AdapterEnv) (d : Device)
    → LeavesAdapter env.before_request
    → LeavesAdapter env.before_conclude
    → init_adapter env' (init_adapter env d) ≡ init_adapter env d
init_adapter_once env env' d v w = skips env' (init_adapter env d) (init_adapter_started env d v w)

-- Whether the adapter came up with FP16 processing.
abbrev pub accepted_fp16 : Option Bool → Bool
accepted_fp16 none = false
accepted_fp16 (some fp16) = fp16

-- The device when the flags are chosen in its first start.
abbrev pub versioned : AdapterEnv → Device → Device
versioned env d = set_version env.version (env.before_request (begin_adapter d))

-- The flags that the first start asks for.
abbrev pub requested_fp16 : AdapterEnv → Device → Bool
requested_fp16 env d = (request env (versioned env d)).0

request_caps :
    (env : AdapterEnv) (d : Device)
    → d.cap_flags ≡ 0
    → env.fp16_disabled ≡ has_bit env.disable_flags 6
    → (request env d).1 ≡ (if (request env d).0 then set_bit 0 cap_hdr10_ready else 0)
unfolding request
request_caps env d clean bit6 = ground arith

-- The accepted flags are among the requested ones.
attempts_accepted :
    (env : AdapterEnv) (requested : Bool)
    → accepted_fp16 (attempts env requested) ≡ true
    → requested ≡ true
unfolding attempts
attempts_accepted env requested h = ground arith

conclude_hdr :
    (env : AdapterEnv) (requested : Bool) (accepted : Option Bool) (d : Device)
    → (accepted_fp16 accepted ≡ true → requested ≡ true)
    → d.cap_flags ≡ (if requested then set_bit 0 cap_hdr10_ready else 0)
    → has_bit (conclude env accepted d).cap_flags cap_hdr10_ready ≡ accepted_fp16 accepted
unfolding conclude
conclude_hdr env requested none d h e = refl
conclude_hdr env true (some true) d h e = rw e refl
conclude_hdr env true (some false) d h e = rw e refl
conclude_hdr env false (some true) d h e = absurd (ground (arith, h refl))
conclude_hdr env false (some false) d h e = rw e refl

-- After the first start of a device that reported no capability yet, it reports the HDR capability
-- exactly when the framework accepted an adapter that can process FP16, where bit 6 of
-- DisableAdapterFlags is the framework's flag for FP16, and what other threads do between the two locked regions
-- leaves the capabilities alone.
pub init_adapter_hdr :
    (env : AdapterEnv) (d : Device)
    → LeavesAdapter env.before_request
    → LeavesAdapter env.before_conclude
    → d.adapter_init_started ≡ false
    → d.cap_flags ≡ 0
    → env.fp16_disabled ≡ has_bit env.disable_flags 6
    → has_bit (init_adapter env d).cap_flags cap_hdr10_ready
      ≡ accepted_fp16 (attempts env (requested_fp16 env d))
unfolding init_adapter
init_adapter_hdr env d v w first clean bit6 =
    let d' = versioned env d in
    let none_yet : d'.cap_flags ≡ 0 =
      set_version_caps env.version _ ∙ v.caps (begin_adapter d) ∙ clean in
    let r = request env d' in
    simp first (
      conclude_hdr env r.0 (attempts env r.0) (env.before_conclude (set_caps r.1 d'))
        (attempts_accepted env r.0) (w.caps (set_caps r.1 d') ∙ request_caps env d' none_yet bit6))

pub slots-conclude :
    (env : AdapterEnv) (accepted : Option Bool) (d : Device)
    → (conclude env accepted d).slots ≡ d.slots
unfolding conclude
slots-conclude env none d = refl
slots-conclude env (some fp16) d = refl

pub slots-set_version : (v : Option ℕ) (d : Device) → (set_version v d).slots ≡ d.slots
slots-set_version none d = refl
slots-set_version (some v) d = refl

pub slots-on_adapter_init_finished :
    (r : OsResult) (d : Device) → (on_adapter_init_finished r d).slots ≡ d.slots
unfolding on_adapter_init_finished
slots-on_adapter_init_finished done d = refl
slots-on_adapter_init_finished (failed status) d = refl
