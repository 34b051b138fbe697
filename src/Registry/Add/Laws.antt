-- ===== src/Registry/Add/Laws.antt =====
-- What `oddjob_dbus_listeners_add_method` leaves at each level of the tree.
use oddjob_gpupdate.Prelude.{
  ℕ, ◌≡◌, refl, arith, Bool, ◌&&◌, Option, some, Bytes, str_eq, if◌then◌else◌, ok, ℤ,
}
use oddjob_gpupdate.Util.Memory.{Ample}
use oddjob_gpupdate.Registry.Table.{put}
use oddjob_gpupdate.Registry.Table.Below.{found_or, found_or-All, found_or-name, through-put}
use oddjob_gpupdate.Registry.Table.Arrays.{enter_lem}
use oddjob_gpupdate.Registry.Table.Laws.{find-put, find-nil}
use oddjob_gpupdate.Registry.Types.{
  Method, Interface, Object, Service, blank_method, blank_interface, blank_object, method_name,
  interface_name, object_path, sizeof_method, sizeof_interface, sizeof_object,
}
use oddjob_gpupdate.Registry.Add.{set_method, add_to_interface, add_to_object, add_to_service}
use oddjob_gpupdate.Registry.Lookup.{
  RoomyInterface, RoomyObject, RoomyService, in_interface, in_object, in_service,
}

module _ (fits : ℕ → Bool) (ample : Ample fits) (n_arguments : ℤ) (handler : Option ℕ)
    (user_data : ℕ) where
  abbrev pub new_method : Bytes → Method
  new_method m = record {
    method = m;
    n_arguments = n_arguments;
    handler = handler;
    user_data = user_data;
  }

  abbrev pub added_interface : Bytes → Interface → Interface
  added_interface m i = record i { methods = put method_name m (new_method m) i.methods }

  abbrev pub added_object : Bytes → Bytes → Object → Object
  added_object i m o = record o {
    interfaces =
        put interface_name i
          (added_interface m (found_or interface_name (blank_interface i) i o.interfaces))
          o.interfaces;
  }

  abbrev pub added_service : Bytes → Bytes → Bytes → Service → Service
  added_service p i m s = record s {
    objects =
        put object_path p (added_object i m (found_or object_path (blank_object p) p s.objects))
          s.objects;
  }

  add_to_interface_lem :
      (m : Bytes) (i : Interface)
      → RoomyInterface i
      → add_to_interface fits n_arguments handler user_data m i ≡ ok (added_interface m i)
  unfolding add_to_interface set_method
  add_to_interface_lem m i h =
      let old = found_or method_name (blank_method m) m i.methods in
      let same : old.method ≡ m = found_or-name method_name (blank_method m) m i.methods refl in
      rw
        (enter_lem method_name fits ample sizeof_method (blank_method m) (omega arith) (omega arith)
          m i.methods (set_method fits n_arguments handler user_data) h)
        (rw same)

  add_to_object_lem :
      (i m : Bytes) (o : Object)
      → RoomyObject o
      → add_to_object fits n_arguments handler user_data i m o ≡ ok (added_object i m o)
  unfolding add_to_object
  add_to_object_lem i m o h =
      let old = found_or interface_name (blank_interface i) i o.interfaces in
      let room : RoomyInterface old =
        found_or-All interface_name RoomyInterface (blank_interface i) i o.interfaces (omega arith)
          h.1 in
      rw (
        enter_lem interface_name fits ample sizeof_interface (blank_interface i) (omega arith)
            (omega arith) i o.interfaces (add_to_interface fits n_arguments handler user_data m)
            h.0,
        add_to_interface_lem m old room,
      )

  pub add_to_service_lem :
      (p i m : Bytes) (s : Service)
      → RoomyService s
      → add_to_service fits n_arguments handler user_data p i m s ≡ ok (added_service p i m s)
  unfolding add_to_service
  add_to_service_lem p i m s h =
      let old = found_or object_path (blank_object p) p s.objects in
      let room : RoomyObject old =
        found_or-All object_path RoomyObject (blank_object p) p s.objects (omega arith, tt) h.1 in
      rw (
        enter_lem object_path fits ample sizeof_object (blank_object p) (omega arith) (omega arith)
            p s.objects (add_to_object fits n_arguments handler user_data i m) h.0,
        add_to_object_lem i m old room,
      )

  in_interface-added :
      (m n : Bytes) (i : Interface)
      → in_interface n (added_interface m i)
        ≡ (if str_eq n m then some (new_method m) else in_interface n i)
  in_interface-added m n i = find-put method_name m n (new_method m) i.methods refl

  in_object-added :
      (i m j n : Bytes) (o : Object)
      → in_object j n (added_object i m o)
        ≡ (if str_eq j i && str_eq n m then some (new_method m) else in_object j n o)
  in_object-added i m j n o =
      let old = found_or interface_name (blank_interface i) i o.interfaces in
      through-put interface_name (in_interface n) (blank_interface i) (added_interface m old) i j
        o.interfaces (str_eq n m) (new_method m)
        (found_or-name interface_name (blank_interface i) i o.interfaces refl)
        (find-nil method_name n) (in_interface-added m n old)

  pub in_service-added :
      (p i m q j n : Bytes) (s : Service)
      → in_service q j n (added_service p i m s) ≡ (
          if str_eq q p && (str_eq j i && str_eq n m)
          then some (new_method m)
          else in_service q j n s)
  in_service-added p i m q j n s =
      let old = found_or object_path (blank_object p) p s.objects in
      through-put object_path (in_object j n) (blank_object p) (added_object i m old) p q s.objects
        (str_eq j i && str_eq n m) (new_method m)
        (found_or-name object_path (blank_object p) p s.objects refl)
        (rw (find-nil interface_name j, in_object)) (in_object-added i m j n old)
