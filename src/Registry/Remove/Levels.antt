-- ===== src/Registry/Remove/Levels.antt =====
-- What `oddjob_dbus_listeners_remove_method` leaves at each level of the tree, once the method is
-- found.
use oddjob_gpupdate.Prelude.{
  ℕ, ◌≡◌, refl, inl, inr, arith, Bool, true, List, [], some, Bytes, ltb, lt→ltb, if◌then◌else◌,
  Bool-cases, length, Run, ok,
}
use oddjob_gpupdate.Util.Memory.{Ample}
use oddjob_gpupdate.Registry.Table.{find, put, remove}
use oddjob_gpupdate.Registry.Table.Below.{shrink, find-All}
use oddjob_gpupdate.Registry.Table.Found.{Stops, find-Stops}
use oddjob_gpupdate.Registry.Table.Arrays.{remove_at_lem}
use oddjob_gpupdate.Registry.Table.Laws.{put-ne-nil}
use oddjob_gpupdate.Registry.Types.{
  Method, Interface, Object, Service, Context, Reply, blank_method, blank_interface, blank_object,
  method_name, interface_name, object_path, service_name, sizeof_method, sizeof_interface,
  sizeof_object,
}
use oddjob_gpupdate.Registry.Remove.{
  Found, locate_in, find_method, set_srv, stop_service, drop_object, drop_interface, drop_method,
}
use oddjob_gpupdate.Registry.Lookup.{IsRoomy, RoomyService, RoomyObject, RoomyInterface}

module _ (m : Bytes) (x : Interface) where
  abbrev pub methods_left : List Method
  methods_left = remove method_name m x.methods

  abbrev pub interface_left : Interface
  interface_left = record x { methods = methods_left }

module _ (i m : Bytes) (x : Interface) (o : Object) where
  abbrev pub interfaces_left : List Interface
  interfaces_left =
      shrink interface_name i (interface_left m x) (ltb 0 (length (methods_left m x))) o.interfaces

  abbrev pub object_left : Object
  object_left = record o { interfaces = interfaces_left }

module _ (p i m : Bytes) (x : Interface) (o : Object) (s : Service) where
  abbrev pub objects_left : List Object
  objects_left =
      shrink object_path p (object_left i m x o) (ltb 0 (length (interfaces_left i m x o)))
        s.objects

  abbrev pub service_left : Service
  service_left = record s { objects = objects_left }

-- The four names lead to a method, by way of these.
pub record Leads (ctx : Context) (s p i m : Bytes) : Type 0 where
  pub srv : Service
  pub obj : Object
  pub interf : Interface
  pub meth : Method
  pub srv_found : find service_name s ctx.services ≡ some srv
  pub obj_found : find object_path p srv.objects ≡ some obj
  pub interf_found : find interface_name i obj.interfaces ≡ some interf
  pub meth_found : find method_name m interf.methods ≡ some meth

module _ (ctx : Context) (s p i m : Bytes) (l : Leads ctx s p i m) where
  pub srv-Stops : Stops service_name s ctx.services l.srv
  srv-Stops = find-Stops service_name s ctx.services l.srv_found

  pub obj-Stops : Stops object_path p l.srv.objects l.obj
  obj-Stops = find-Stops object_path p l.srv.objects l.obj_found

  pub interf-Stops : Stops interface_name i l.obj.interfaces l.interf
  interf-Stops = find-Stops interface_name i l.obj.interfaces l.interf_found

  pub meth-Stops : Stops method_name m l.interf.methods l.meth
  meth-Stops = find-Stops method_name m l.interf.methods l.meth_found

  abbrev pub found : Found
  found = record {
    srv_at = srv-Stops.at;
    srv = l.srv;
    obj_at = obj-Stops.at;
    obj = l.obj;
    interf_at = interf-Stops.at;
    interf = l.interf;
    meth_at = meth-Stops.at;
  }

  pub find_method-Leads : find_method ctx s p i m ≡ some found
  unfolding find_method locate_in
  find_method-Leads =
      rw (srv-Stops.index, find_method, locate_in)
        (rw (srv-Stops.elem) (
          rw (obj-Stops.index) (
            rw (obj-Stops.elem)
              (rw (interf-Stops.index) (rw (interf-Stops.elem) (rw (meth-Stops.index) refl))))))

  module _ (fits : ℕ → Bool) (ample : Ample fits) (h : IsRoomy ctx) where
    abbrev done : Reply
    done = record {
      returned = true;
      ctx = record ctx {
        services = put service_name s (service_left p i m l.interf l.obj l.srv) ctx.services;
      };
      log = [];
    }

    abbrev outcome : List Object → Run Reply
    outcome objects =
        if ltb 0 (length objects)
        then ok (record {
          returned = true;
          ctx = record ctx {
            services = put service_name s (record l.srv { objects = objects }) ctx.services;
          };
          log = [];
        })
        else stop_service fits ctx found

    ltb-put :
        {A : Type 0} (name : A → Bytes) (k : Bytes) (y : A) (xs : List A)
        → ltb 0 (length (put name k y xs)) ≡ true
    ltb-put name k y xs = lt→ltb 0 _ (put-ne-nil name k y xs)

    set_srv_lem :
        (y : Service)
        → set_srv fits ctx found y
          ≡ ok (record {
            returned = true;
            ctx = record ctx { services = put service_name s y ctx.services };
            log = [];
          })
    set_srv_lem y = rw (srv-Stops.stores y)

    roomy_srv : RoomyService l.srv
    roomy_srv = find-All service_name RoomyService s ctx.services h.1 l.srv_found

    roomy_obj : RoomyObject l.obj
    roomy_obj = find-All object_path RoomyObject p l.srv.objects roomy_srv.1 l.obj_found

    roomy_interf : RoomyInterface l.interf
    roomy_interf =
        find-All interface_name RoomyInterface i l.obj.interfaces roomy_obj.1 l.interf_found

    drop_object_lem : drop_object fits ctx found ≡ outcome (remove object_path p l.srv.objects)
    unfolding drop_object
    drop_object_lem =
        rw
          (remove_at_lem object_path fits ample sizeof_object (blank_object []) (omega arith)
            (omega arith) p l.srv.objects obj-Stops.at (omega (arith, roomy_srv.0)) obj-Stops.index)
          (elim (Bool-cases (ltb 0 (length (remove object_path p l.srv.objects)))) [
            | inl t ↦
                rw t (set_srv_lem (record l.srv { objects = remove object_path p l.srv.objects }))
            | inr t ↦ rw t refl
          ])

    drop_interface_lem :
        drop_interface fits ctx found
        ≡ outcome (
            shrink object_path p
              (record l.obj { interfaces = remove interface_name i l.obj.interfaces })
              (ltb 0 (length (remove interface_name i l.obj.interfaces)))
              l.srv.objects)
    unfolding drop_interface
    drop_interface_lem =
        rw
          (remove_at_lem interface_name fits ample sizeof_interface (blank_interface [])
            (omega arith) (omega arith) i l.obj.interfaces interf-Stops.at
            (omega (arith, roomy_obj.0)) interf-Stops.index)
          (elim (Bool-cases (ltb 0 (length (remove interface_name i l.obj.interfaces)))) [
            | inl t ↦ rw t (
                rw
                  (obj-Stops.stores
                    (record l.obj { interfaces = remove interface_name i l.obj.interfaces }))
                  (rw ltb-put (set_srv_lem _)))
            | inr t ↦ rw t drop_object_lem
          ])

    pub drop_method-left :
        drop_method fits ctx found ≡ outcome (objects_left p i m l.interf l.obj l.srv)
    unfolding drop_method
    drop_method-left =
        rw
          (remove_at_lem method_name fits ample sizeof_method (blank_method []) (omega arith)
            (omega arith) m l.interf.methods meth-Stops.at (omega (arith, roomy_interf))
            meth-Stops.index)
          (elim (Bool-cases (ltb 0 (length (methods_left m l.interf)))) [
            | inl t ↦ rw t (
                rw (interf-Stops.stores (interface_left m l.interf))
                  (rw (obj-Stops.stores _, ltb-put, ltb-put) (set_srv_lem _)))
            | inr t ↦ rw t drop_interface_lem
          ])
