-- ===== src/Registry/Remove.antt =====
-- `oddjob_dbus_listeners_remove_method`.
pub mod Levels
pub mod Whole
pub mod Law
pub mod Returned
use oddjob_gpupdate.Prelude.{
  ℕ, zero, suc, ◌+◌, ◌-◌, ◌%◌, ◌^◌, Bool, true, false, List, [], ◌∷◌, Option, none, some, Bytes,
  ltb, if◌then◌else◌, length, get_elem?, drop, Run, ok, fault, ◌>>=◌, or_fault, store, ℤ,
}
use oddjob_gpupdate.Util.Resize.{resize_array}
use oddjob_gpupdate.Registry.Table.{index_of, remove_at}
use oddjob_gpupdate.Registry.Bus.{Effect, service_disconnect}
use oddjob_gpupdate.Registry.Types.{
  Method, Interface, Object, Service, Context, Reply, blank_method, blank_interface, blank_object,
  blank_service, method_name, interface_name, object_path, service_name, sizeof_method,
  sizeof_interface, sizeof_object, sizeof_service,
}

-- Where the search for the method ends: its indices, if all four levels are there.
pub record Found : Type 0 where
  pub srv_at : ℕ
  pub srv : Service
  pub obj_at : ℕ
  pub obj : Object
  pub interf_at : ℕ
  pub interf : Interface
  pub meth_at : ℕ

module _ {A : Type 0} (name : A → Bytes) where
  -- One search loop: the index and the element.
  unfoldable pub locate_in : Bytes → List A → Option (ℕ × A)
  locate_in k xs = elim (index_of name k xs) [
    | none ↦ none
    | some i ↦ elim (get_elem? xs i) [ none ↦ none | some x ↦ some (i, x) ]
  ]

unfoldable pub find_method : Context → Bytes → Bytes → Bytes → Bytes → Option Found
find_method ctx s path interface method = elim (locate_in service_name s ctx.services) [
  | none ↦ none
  | some (i, srv) ↦ elim (locate_in object_path path srv.objects) [
    | none ↦ none
    | some (j, obj) ↦ elim (locate_in interface_name interface obj.interfaces) [
      | none ↦ none
      | some (k, interf) ↦ elim (index_of method_name method interf.methods) [
        | none ↦ none
        | some l ↦ some (record {
          srv_at = i;
          srv = srv;
          obj_at = j;
          obj = obj;
          interf_at = k;
          interf = interf;
          meth_at = l;
        })
      ]
    ]
  ]
]

-- `n - 1` for an `int` n, as a `size_t`
abbrev pub pred_size : ℕ → ℕ
pred_size n = (n + 2 ^ 64 - 1) % 2 ^ 64

module _ (fits : ℕ → Bool) where
  -- "if the listener has exactly one service, free it, else just remove this service from its list".
  -- `srv` is element `i` of the array. Behind the `memmove` it is what has moved there, and it is
  -- its objects that are counted. Then the array is freed, and `srv->n_objects--` writes into it.
  unfoldable pub drop_service : ℕ → List Service → Run (List Service)
  drop_service i services =
      if ltb 1 (length services)
      then (store services i (drop (suc i) services) >>= λ moved.
          or_fault (get_elem? moved i) >>= λ srv.
          resize_array fits (blank_service []) moved sizeof_service (length srv.objects)
            (pred_size (length srv.objects))
          >>= λ _. fault)
      else resize_array fits (blank_service []) services sizeof_service 0 0

  abbrev set_srv : Context → Found → Service → Run Reply
  set_srv ctx f srv = store ctx.services f.srv_at (srv ∷ []) >>= λ services.
      ok (record { returned = true; ctx = record ctx { services = services }; log = [] })

  -- The service has lost its last object.
  unfoldable pub stop_service : Context → Found → Run Reply
  stop_service ctx f =
      store ctx.services f.srv_at (record f.srv { conn = none; objects = [] } ∷ []) >>= λ stopped.
      drop_service f.srv_at stopped >>= λ services. ok (record {
        returned = true;
        ctx = record ctx { services = services };
        log = service_disconnect f.srv.conn f.srv.name;
      })

  -- The object has lost its last interface.
  unfoldable pub drop_object : Context → Found → Run Reply
  unfolding stop_service
  drop_object ctx f =
      remove_at object_path fits sizeof_object (blank_object []) f.obj_at f.srv.objects
      >>= λ objects.
          if ltb 0 (length objects)
          then set_srv ctx f (record f.srv { objects = objects })
          else stop_service ctx f

  -- The interface has lost its last method.
  unfoldable pub drop_interface : Context → Found → Run Reply
  unfolding drop_object
  drop_interface ctx f =
      remove_at interface_name fits sizeof_interface (blank_interface []) f.interf_at
        f.obj.interfaces
      >>= λ interfaces.
          if ltb 0 (length interfaces)
          then (store f.srv.objects f.obj_at (record f.obj { interfaces = interfaces } ∷ [])
              >>= λ objects. set_srv ctx f (record f.srv { objects = objects }))
          else drop_object ctx f

  unfoldable pub drop_method : Context → Found → Run Reply
  unfolding drop_interface
  drop_method ctx f =
      remove_at method_name fits sizeof_method (blank_method []) f.meth_at f.interf.methods
      >>= λ methods.
          if ltb 0 (length methods)
          then (store f.obj.interfaces f.interf_at (record f.interf { methods = methods } ∷ [])
              >>= λ interfaces.
                  store f.srv.objects f.obj_at (record f.obj { interfaces = interfaces } ∷ [])
                  >>= λ objects. set_srv ctx f (record f.srv { objects = objects }))
          else drop_interface ctx f

  -- TRUE in every case: also where there is no such method.
  unfoldable pub remove_method : Context → Bytes → Bytes → Bytes → Bytes → Run Reply
  remove_method ctx s path interface method = elim (find_method ctx s path interface method) [
    | none ↦ ok (record { returned = true; ctx = ctx; log = [] })
    | some f ↦ drop_method ctx f
  ]
