-- ===== src/Registry/Add/Shape.antt =====
-- `oddjob_dbus_listeners_add_method` keeps names unique, and leaves nothing empty.
use oddjob_gpupdate.Prelude.{Bool, ℕ, ◌≡◌, refl, inl, inr, Option, Bytes, Option-cases, ℤ}
use oddjob_gpupdate.Registry.Table.{find, IsDistinct}
use oddjob_gpupdate.Registry.Table.Below.{found_or, found_or-name, put-All, find-All, All}
use oddjob_gpupdate.Registry.Table.Laws.{put-IsDistinct, put-ne-nil}
use oddjob_gpupdate.Registry.Types.{
  Interface, Object, Service, blank_interface, blank_object, method_name, interface_name,
  object_path,
}
use oddjob_gpupdate.Registry.Add.Laws.{new_method, added_interface, added_object, added_service}
use oddjob_gpupdate.Registry.Lookup.{TreeInterface, TreeObject, TreeService}
use oddjob_gpupdate.Util.Memory.{Ample}

-- What holds of the lists of a tree, empty or not.
abbrev DistinctObject : Object → Type 0
DistinctObject o =
    IsDistinct interface_name o.interfaces × All interface_name TreeInterface o.interfaces

abbrev pub DistinctService : Service → Type 0
DistinctService s = IsDistinct object_path s.objects × All object_path TreeObject s.objects

module _ (fits : ℕ → Bool) (ample : Ample fits) (n_arguments : ℤ) (handler : Option ℕ)
    (user_data : ℕ) where
  added_interface-Tree :
      (m : Bytes) (i : Interface)
      → IsDistinct method_name i.methods
      → TreeInterface (added_interface fits ample n_arguments handler user_data m i)
  added_interface-Tree m i d =
      let new = new_method fits ample n_arguments handler user_data m in
      (put-IsDistinct method_name m new i.methods refl d, put-ne-nil method_name m new i.methods)

  added_object-Tree :
      (i m : Bytes) (o : Object)
      → DistinctObject o
      → TreeObject (added_object fits ample n_arguments handler user_data i m o)
  added_object-Tree i m o d =
      let old = found_or interface_name (blank_interface i) i o.interfaces in
      let new = added_interface fits ample n_arguments handler user_data m old in
      let named : old.interface ≡ i =
        found_or-name interface_name (blank_interface i) i o.interfaces refl in
      let distinct : IsDistinct method_name old.methods =
        elim (Option-cases (find interface_name i o.interfaces)) [
          | inl n ↦ rw (n, found_or) tt
          | inr (x, n) ↦
              rw (n, found_or) (find-All interface_name TreeInterface i o.interfaces d.1 n).0
        ] in
      (
        put-IsDistinct interface_name i new o.interfaces named d.0,
        put-ne-nil interface_name i new o.interfaces,
        put-All interface_name TreeInterface i new o.interfaces
            (added_interface-Tree m old distinct) d.1,
      )

  pub added_service-Tree :
      (p i m : Bytes) (s : Service)
      → DistinctService s
      → TreeService (added_service fits ample n_arguments handler user_data p i m s)
  added_service-Tree p i m s d =
      let old = found_or object_path (blank_object p) p s.objects in
      let new = added_object fits ample n_arguments handler user_data i m old in
      let named : old.path ≡ p = found_or-name object_path (blank_object p) p s.objects refl in
      let distinct : DistinctObject old = elim (Option-cases (find object_path p s.objects)) [
        | inl n ↦ rw (n, found_or) (tt, tt)
        | inr (x, n) ↦
            let t = find-All object_path TreeObject p s.objects d.1 n in rw (n, found_or) (t.0, t.2)
      ] in
      (
        put-IsDistinct object_path p new s.objects named d.0,
        put-ne-nil object_path p new s.objects,
        put-All object_path TreeObject p new s.objects (added_object-Tree i m old distinct) d.1,
      )
