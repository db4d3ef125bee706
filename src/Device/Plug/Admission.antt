-- ===== src/Device/Plug/Admission.antt =====
-- Which requests Plug lets through to the framework.
use nyan_real_vdd.Base.{
  ℕ, suc, ◌≡◌, refl, Bool, true, false, not, ◌&&◌, ◌||◌, none, some, List, [], ◌∷◌, arith, set,
  Bool-cases, inl, inr, ◌==◌,
}
use nyan_real_vdd.Protocol.{PlugIn}
use nyan_real_vdd.Edid.Mode.{is_supported_mode}
use nyan_real_vdd.Device.{
  Device, Slot, NtStatus, device_not_ready, object_name_collision, insufficient_resources,
  nt_success,
}
use nyan_real_vdd.Device.Slots.{has_cookie, first_free}
use nyan_real_vdd.Device.Plug.Invariant.{ReservedAt, reserve-ReservedAt}
use nyan_real_vdd.Device.Plug.{
  requested_mode, reserved_slot, refused, at_index, reserve, with_binding, PlugEnv, arrive, plug,
}

-- Whether some slot is not used.
unfoldable pub has_free : List Slot → Bool
has_free [] = false
has_free (s ∷ ss) = not s.used || has_free ss

first_free-has_free : (i : ℕ) (ss : List Slot) → has_free ss ≡ false → first_free i ss ≡ none
unfolding has_free first_free
first_free-has_free i [] h = refl
first_free-has_free i (s ∷ ss) h = ground (arith, first_free-has_free (suc i) ss)

has_free-first_free :
    (i : ℕ) (ss : List Slot) → has_free ss ≡ true → (j : ℕ) × (first_free i ss ≡ some j)
unfolding has_free first_free
has_free-first_free i [] h = cc
has_free-first_free i (s ∷ ss) h = elim (Bool-cases s.used) [
  | inl busy ↦ let (j, e) = has_free-first_free (suc i) ss (ground arith) in (j, rw busy e)
  | inr idle ↦ (i, rw idle refl)
]

-- The request passes every test that Plug makes before it calls the framework.
abbrev pub is_admitted : PlugEnv → PlugIn → Device → Bool
is_admitted env p d =
    not (p.cookie == 0)
    && (is_supported_mode (requested_mode p)
        && (env.binding_ok
            && (d.adapter_ready && (not (has_cookie p.cookie d.slots) && has_free d.slots))))

-- Either a slot is reserved and the monitor offered, or nothing changes.
pub data Course (env : PlugEnv) (p : PlugIn) (d : Device) : Type 0 where
  offers :
      (i : ℕ) (d' : Device)
      → is_admitted env p d ≡ true
      → ReservedAt p d.next_binding (with_binding d) i d'
      → plug env p d ≡ arrive env p (at_index i d') (with_binding d)
      → Course env p d
  refuses :
      is_admitted env p d ≡ false
      → nt_success (plug env p d).0 ≡ false
      → (plug env p d).2.slots ≡ d.slots
      → Course env p d

reserve_admitted :
    (p : PlugIn) (b : ℕ) (d : Device)
    → d.adapter_ready ≡ true
    → has_cookie p.cookie d.slots ≡ false
    → has_free d.slots ≡ true
    → (i : ℕ) × (d' : Device) × (reserve p b d ≡ at_index i d')
unfolding reserve
reserve_admitted p b d ready new free =
    let (j, e) = has_free-first_free 0 d.slots free in
    (
      j,
      record d { slots = set d.slots j (reserved_slot p d.cap_flags b) },
      simp (ready, new, e) refl,
    )

reserve_refused :
    (p : PlugIn) (b : ℕ) (d : Device)
    → d.adapter_ready && (not (has_cookie p.cookie d.slots) && has_free d.slots) ≡ false
    → (status : NtStatus) × (reserve p b d ≡ refused status) × (nt_success status ≡ false)
unfolding reserve
reserve_refused p b d h = elim (Bool-cases d.adapter_ready) [
  | inr early ↦ (device_not_ready, rw early refl, refl)
  | inl ready ↦ elim (Bool-cases (has_cookie p.cookie d.slots)) [
    | inl taken ↦ (object_name_collision, rw (ready, taken) refl, refl)
    | inr new ↦ (
      insufficient_resources,
      rw (ready, new, first_free-has_free 0 d.slots (ground arith)) refl,
      refl,
    )
  ]
]

pub plug-Course : (env : PlugEnv) (p : PlugIn) (d : Device) → Course env p d
unfolding plug arrive
plug-Course env p d =
    elim (Bool-cases (p.cookie == 0 || not (is_supported_mode (requested_mode p)))) [
      | inl bad ↦ refuses (ground arith) (rw bad refl) (rw bad refl)
      | inr good ↦ elim (Bool-cases env.binding_ok) [
        | inr no_memory ↦
            refuses (ground arith) (rw (good, no_memory) refl) (rw (good, no_memory) refl)
        | inl memory ↦
            elim (Bool-cases
              (d.adapter_ready && (not (has_cookie p.cookie d.slots) && has_free d.slots))) [
                | inl room ↦
                    let (i, d', e) =
                      reserve_admitted p d.next_binding (with_binding d) (ground arith)
                        (ground arith) (ground arith) in
                    offers i d' (ground arith)
                      (reserve-ReservedAt p d.next_binding (with_binding d) e)
                      (simp (good, memory, e) refl)
                | inr no_room ↦
                    let (status, e, k) =
                      reserve_refused p d.next_binding (with_binding d) no_room in
                    refuses (ground arith) (simp (good, memory, e) k) (simp (good, memory, e) refl)
              ]
      ]
    ]
