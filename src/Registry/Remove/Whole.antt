-- ===== src/Registry/Remove/Whole.antt =====
-- `oddjob_dbus_listeners_remove_method` as a whole: what the tree offers afterwards, and what
-- happens when a service loses its last method.
use oddjob_gpupdate.Prelude.{
  ℕ, ◌<◌, ◌≡◌, refl, arith, Bool, true, false, ◌&&◌, List, [], none, some, Bytes, str_eq,
  str_eq_iff, nil_of_length, ltb, ltb→lt, lt→ltb, le→not-ltb, if◌then◌else◌, length, get_elem?,
  drop, suc, or_fault, Breaks-then, ok, Breaks, Breaks-bind, store-Tame, or_fault-Tame, store,
}
use oddjob_gpupdate.Util.Resize.{resize_array, resize_array-nothing, resize_array-Tame}
use oddjob_gpupdate.Registry.Table.{find, put, remove, IsDistinct}
use oddjob_gpupdate.Registry.Table.Below.{
  shrink, find-All, through-shrink, shrink-IsDistinct, shrink-All, put-All, through,
}
use oddjob_gpupdate.Registry.Table.Found.{find-name}
use oddjob_gpupdate.Registry.Table.Laws.{
  find-remove, length-put, length-remove, remove-IsDistinct, put-IsDistinct, find_of_empty,
}
use oddjob_gpupdate.Registry.Bus.{service_disconnect}
use oddjob_gpupdate.Registry.Types.{
  Interface, Object, Service, Context, Reply, blank_service, method_name, interface_name,
  object_path, service_name, sizeof_service,
}
use oddjob_gpupdate.Registry.Remove.{pred_size, drop_service, stop_service}
use oddjob_gpupdate.Registry.Remove.Levels.{
  Leads, methods_left, interface_left, interfaces_left, object_left, objects_left, service_left,
  found, srv-Stops,
}
use oddjob_gpupdate.Registry.Lookup.{
  IsTree, TreeService, TreeObject, TreeInterface, in_interface, in_object, in_service, lookup,
}

module _ (p i m : Bytes) (x : Interface) (o : Object) (s : Service) where
  in_interface-left :
      (n : Bytes)
      → IsDistinct method_name x.methods
      → in_interface n (interface_left m x) ≡ (if str_eq n m then none else in_interface n x)
  in_interface-left n d = find-remove method_name m n x.methods d

  in_object-left :
      (j n : Bytes)
      → find interface_name i o.interfaces ≡ some x
      → TreeObject o
      → TreeInterface x
      → in_object j n (object_left i m x o)
        ≡ (if str_eq j i && str_eq n m then none else in_object j n o)
  in_object-left j n e t u =
      through-shrink interface_name (in_interface n) x (interface_left m x) i j
        (ltb 0 (length (methods_left m x))) o.interfaces (str_eq n m)
        (find-name interface_name i o.interfaces e) e t.0 (in_interface-left n u.0)
        (find_of_empty method_name n (methods_left m x))

  in_service-left :
      (q j n : Bytes)
      → find object_path p s.objects ≡ some o
      → find interface_name i o.interfaces ≡ some x
      → TreeService s
      → TreeObject o
      → TreeInterface x
      → in_service q j n (service_left p i m x o s)
        ≡ (if str_eq q p && (str_eq j i && str_eq n m) then none else in_service q j n s)
  in_service-left q j n f e v t u =
      through-shrink object_path (in_object j n) o (object_left i m x o) p q
        (ltb 0 (length (interfaces_left i m x o))) s.objects (str_eq j i && str_eq n m)
        (find-name object_path p s.objects f) f v.0 (in_object-left j n e t u)
        (λ z. rw (find_of_empty interface_name j (interfaces_left i m x o) z, in_object))

  object_left-Tree :
      find interface_name i o.interfaces ≡ some x
      → TreeObject o
      → TreeInterface x
      → ltb 0 (length (interfaces_left i m x o)) ≡ true
      → TreeObject (object_left i m x o)
  object_left-Tree e t u z = (
    shrink-IsDistinct interface_name i (interface_left m x) _ o.interfaces
        (find-name interface_name i o.interfaces e) t.0,
    ltb→lt 0 _ z,
    shrink-All interface_name TreeInterface i (interface_left m x) _ o.interfaces
        (λ w. (remove-IsDistinct method_name m x.methods u.0, ltb→lt 0 _ w)) t.2,
  )

  service_left-Tree :
      find object_path p s.objects ≡ some o
      → find interface_name i o.interfaces ≡ some x
      → TreeService s
      → TreeObject o
      → TreeInterface x
      → ltb 0 (length (objects_left p i m x o s)) ≡ true
      → TreeService (service_left p i m x o s)
  service_left-Tree f e v t u z = (
    shrink-IsDistinct object_path p (object_left i m x o) _ s.objects
        (find-name object_path p s.objects f) v.0,
    ltb→lt 0 _ z,
    shrink-All object_path TreeObject p (object_left i m x o) _ s.objects (object_left-Tree e t u)
        v.2,
  )

module _ (ctx : Context) (s p i m : Bytes) (l : Leads ctx s p i m) (fits : ℕ → Bool) where
  -- The service without its objects.
  abbrev emptied : Service
  emptied = record l.srv { conn = none; objects = [] }

  length-stopped : length (put service_name s emptied ctx.services) ≡ length ctx.services
  length-stopped = length-put service_name s emptied ctx.services l.srv_found

  -- The last service goes with its last method.
  pub stop_service-only :
      length ctx.services ≡ 1
      → stop_service fits ctx (found ctx s p i m l)
        ≡ ok (record {
          returned = true;
          ctx = record ctx { services = [] };
          log = service_disconnect l.srv.conn l.srv.name;
        })
  unfolding stop_service drop_service
  stop_service-only e =
      let one : ltb 1 (length (put service_name s emptied ctx.services)) ≡ false =
        le→not-ltb 1 _ (omega (arith, length-stopped)) in
      rw ((srv-Stops ctx s p i m l).stores emptied, one)
        (rw (
          resize_array-nothing fits (blank_service []) (put service_name s emptied ctx.services)
            sizeof_service (omega arith)))

  -- Any other service cannot go: the process ends, or writes into memory that it has freed.
  pub stop_service-Breaks :
      1 < length ctx.services → Breaks (stop_service fits ctx (found ctx s p i m l))
  unfolding stop_service drop_service
  stop_service-Breaks h =
      let many : ltb 1 (length (put service_name s emptied ctx.services)) ≡ true =
        lt→ltb 1 _ (omega (arith, length-stopped)) in
      let at = (srv-Stops ctx s p i m l).at in
      let stopped : List Service = put service_name s emptied ctx.services in
      rw ((srv-Stops ctx s p i m l).stores emptied, many)
        (Breaks-then _ _ (
          Breaks-bind (store stopped at (drop (suc at) stopped)) _ (store-Tame stopped at _)
            (λ moved.
              Breaks-bind (or_fault (get_elem? moved at)) _ (or_fault-Tame (get_elem? moved at))
                (λ srv.
                  Breaks-bind
                    (resize_array fits (blank_service []) moved sizeof_service (length srv.objects)
                      (pred_size (length srv.objects)))
                    _ (resize_array-Tame fits (blank_service []) moved sizeof_service _ _)
                    (λ _. tt)))))

-- What the call leaves where it returns.
pub record Removed (ctx : Context) (s p i m : Bytes) (r : Reply) : Type 0 where
  pub returned : r.returned ≡ true
  pub lookups :
      (t q j n : Bytes)
      → lookup r.ctx t q j n ≡ (
          if str_eq t s && (str_eq q p && (str_eq j i && str_eq n m))
          then none
          else lookup ctx t q j n)
  pub tree : IsTree r.ctx

module _ (ctx : Context) (s p i m : Bytes) (tree : IsTree ctx) where
  pub unknown-Removed :
      lookup ctx s p i m ≡ none
      → Removed ctx s p i m (record { returned = true; ctx = ctx; log = [] })
  unknown-Removed e = record {
    returned = refl;
    lookups = λ t q j n.
        ground (arith, str_eq_iff t s, str_eq_iff q p, str_eq_iff j i, str_eq_iff n m, e);
    tree = tree;
  }

  module _ (l : Leads ctx s p i m) where
    tree_srv : TreeService l.srv
    tree_srv = find-All service_name TreeService s ctx.services tree.1 l.srv_found

    tree_obj : TreeObject l.obj
    tree_obj = find-All object_path TreeObject p l.srv.objects tree_srv.2 l.obj_found

    tree_interf : TreeInterface l.interf
    tree_interf = find-All interface_name TreeInterface i l.obj.interfaces tree_obj.2 l.interf_found

    abbrev keeps : Bool
    keeps = ltb 0 (length (objects_left p i m l.interf l.obj l.srv))

    lookup-left :
        (t q j n : Bytes)
        → through service_name
            (in_service q j n)
            t
            (shrink service_name s (service_left p i m l.interf l.obj l.srv) keeps ctx.services)
          ≡ (if str_eq t s && (str_eq q p && (str_eq j i && str_eq n m))
              then none
              else lookup ctx t q j n)
    lookup-left t q j n =
        through-shrink service_name (in_service q j n) l.srv
          (service_left p i m l.interf l.obj l.srv) s t keeps ctx.services
          (str_eq q p && (str_eq j i && str_eq n m))
          (find-name service_name s ctx.services l.srv_found) l.srv_found tree.0
          (in_service-left p i m l.interf l.obj l.srv q j n l.obj_found l.interf_found tree_srv
            tree_obj tree_interf)
          (λ z.
            rw
              (find_of_empty object_path q (objects_left p i m l.interf l.obj l.srv) z, in_service))

    pub kept-Removed :
        keeps ≡ true
        → Removed ctx s p i m (record {
          returned = true;
          ctx = record ctx {
            services = put service_name s (service_left p i m l.interf l.obj l.srv) ctx.services;
          };
          log = [];
        })
    kept-Removed k = record {
      returned = refl;
      lookups = λ t q j n. rw k at (lookup-left t q j n);
      tree = (
        put-IsDistinct service_name s _ ctx.services
            (find-name service_name s ctx.services l.srv_found) tree.0,
        put-All service_name TreeService s _ ctx.services
            (service_left-Tree p i m l.interf l.obj l.srv l.obj_found l.interf_found tree_srv
              tree_obj tree_interf k)
            tree.1,
      );
    }

    pub only-Removed :
        keeps ≡ false
        → length ctx.services ≡ 1
        → Removed ctx s p i m (record {
          returned = true;
          ctx = record ctx { services = [] };
          log = service_disconnect l.srv.conn l.srv.name;
        })
    only-Removed k e =
        let gone : remove service_name s ctx.services ≡ [] =
          nil_of_length (remove service_name s ctx.services)
            (omega (arith, length-remove service_name s ctx.services l.srv_found)) in
        record {
          returned = refl;
          lookups = λ t q j n. rw (k, gone) at (lookup-left t q j n);
          tree = (tt, tt);
        }
