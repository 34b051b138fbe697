-- ===== src/Registry/Add.antt =====
-- `oddjob_dbus_listeners_add_method`.
pub mod Laws
pub mod Shape
pub mod Whole
pub mod Returned
use oddjob_gpupdate.Prelude.{
  ℕ, ◌+◌, Bool, true, false, List, [], ◌∷◌, Option, none, some, Bytes, length, get_elem?, Run, ok,
  ◌>>=◌, or_fault, store, ℤ,
}
use oddjob_gpupdate.Util.Resize.{resize_array}
use oddjob_gpupdate.Registry.Table.{index_of, enter}
use oddjob_gpupdate.Registry.Bus.{Bus, Effect, service_connect}
use oddjob_gpupdate.Registry.Types.{
  Method, Interface, Object, Service, Context, Reply, blank_method, blank_interface, blank_object,
  blank_service, method_name, interface_name, object_path, service_name, sizeof_method,
  sizeof_interface, sizeof_object, sizeof_service,
}

module _ (fits : ℕ → Bool) where
  module _ (n_arguments : ℤ) (handler : Option ℕ) (user_data : ℕ) where
    -- "set the method's pointers"
    unfoldable pub set_method : Method → Run Method
    set_method m =
        ok (record m { n_arguments = n_arguments; handler = handler; user_data = user_data })

    -- "find the method, creating it if it doesn't already exist"
    unfoldable pub add_to_interface : Bytes → Interface → Run Interface
    add_to_interface method i =
        enter method_name fits sizeof_method (blank_method method) method i.methods set_method
        >>= λ methods. ok (record i { methods = methods })

    unfoldable pub add_to_object : Bytes → Bytes → Object → Run Object
    add_to_object interface method o =
        enter interface_name fits sizeof_interface (blank_interface interface) interface
          o.interfaces (add_to_interface method)
        >>= λ interfaces. ok (record o { interfaces = interfaces })

    unfoldable pub add_to_service : Bytes → Bytes → Bytes → Service → Run Service
    add_to_service path interface method s =
        enter object_path fits sizeof_object (blank_object path) path s.objects
          (add_to_object interface method)
        >>= λ objects. ok (record s { objects = objects })

  -- "find the service, creating it if it doesn't already exist": its index and the array that has
  -- it, or none where the connection fails. Then `n_services` stays as it is.
  unfoldable pub service_slot :
      Context → Bytes → Bus → Run (Option (ℕ × List Service) × List Effect)
  service_slot ctx s bus = elim (index_of service_name s ctx.services) [
    | some i ↦ ok (some (i, ctx.services), [])
    | none ↦ do
      let n = length ctx.services
      grown ← resize_array fits (blank_service s) ctx.services sizeof_service n (n + 1)
      (conn, log) ← service_connect ctx.reconnect_timeout s bus
      (elim conn [
        | none ↦ ok (none, log)
        | some c ↦ store grown n (record (blank_service s) { conn = some c } ∷ []) >>= λ connected.
            ok (some (n, connected), log)
      ])
  ]

  unfoldable pub add_method :
      Context → Bytes → Bytes → Bytes → Bytes → ℤ → Option ℕ → ℕ → Bus → Run Reply
  add_method ctx s path interface method n_arguments handler user_data bus = do
    (slot, log) ← service_slot ctx s bus
    (elim slot [
      | none ↦ ok (record { returned = false; ctx = ctx; log = log })
      | some (i, services) ↦ do
        srv ← or_fault (get_elem? services i)
        srv' ← add_to_service n_arguments handler user_data path interface method srv
        services' ← store services i (srv' ∷ [])
        ok (record { returned = true; ctx = record ctx { services = services' }; log = log })
    ])
