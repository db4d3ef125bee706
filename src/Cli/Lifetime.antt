-- ===== src/Cli/Lifetime.antt =====
-- SetDeviceLifetime and OpenDevice (cli/nyanvddctl.cpp): the device node, and the handle of the
-- driver's interface.
use nyan_real_vdd.Base.{ℕ, Bool, not, Option, none, some, List, [], ◌∷◌, ◌==◌, leb, if◌then◌else◌}
use nyan_real_vdd.Cli.{
  Message, create_failed, creation_failed, lifetime_failed, creation_timeout, no_device,
  list_interfaces_failed, open_failed,
}

-- SW_DEVICE_LIFETIME
pub data SwLifetime : Type 0 where
  while_handle_open while_parent_present : SwLifetime

-- What the software device API answers: a failing HRESULT, or success; whether the callback came in
-- time, and its result.
pub record SwDevice : Type 0 where
  pub create : Option ℕ
  pub signalled : Bool
  pub creation : Option ℕ
  pub set_lifetime : SwLifetime → Option ℕ

-- The calls of the API that change a device node.
pub data SwCall : Type 0 where
  sw_create sw_close : SwCall
  sw_set_lifetime : SwLifetime → SwCall

-- SetDeviceLifetime: the exit code, the calls that were made, and what it says.
unfoldable pub set_device_lifetime : SwDevice → SwLifetime → ℕ × List SwCall × List Message
set_device_lifetime w lifetime = elim w.create [
  | some hr ↦ (1, sw_create ∷ [], create_failed hr ∷ [])
  | none ↦
      if not w.signalled
      then (1, sw_create ∷ sw_close ∷ [], creation_timeout ∷ [])
      else elim w.creation [
        | some hr ↦ (1, sw_create ∷ sw_close ∷ [], creation_failed hr ∷ [])
        | none ↦ elim (w.set_lifetime lifetime) [
          | some hr ↦
              (1, sw_create ∷ sw_set_lifetime lifetime ∷ sw_close ∷ [], lifetime_failed hr ∷ [])
          | none ↦ (0, sw_create ∷ sw_set_lifetime lifetime ∷ sw_close ∷ [], [])
        ]
      ]
]

-- What the configuration manager and CreateFile answer: the length of the list; its failure, or its
-- first character; the failure of the open, or the handle.
pub record Interfaces : Type 0 where
  pub length : Option ℕ
  pub list_error : ℕ
  pub first : Option ℕ
  pub last_error : ℕ
  pub handle : Option ℕ

-- OpenDevice: `none` for INVALID_HANDLE_VALUE.
unfoldable pub open_device : Interfaces → Option ℕ × List Message
open_device w = elim w.length [
  | none ↦ (none, no_device ∷ [])
  | some n ↦ if leb n 1 then (none, no_device ∷ []) else elim w.first [
    | none ↦ (none, list_interfaces_failed w.list_error ∷ [])
    | some c ↦
        if c == 0
        then (none, list_interfaces_failed w.list_error ∷ [])
        else elim w.handle [ none ↦ (none, open_failed w.last_error ∷ []) | some h ↦ (some h, []) ]
  ]
]
