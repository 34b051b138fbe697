-- ===== src/Registry/Lookup.antt =====
-- What the tree offers: the method that four names lead to, and the shape that the operations keep.
use oddjob_gpupdate.Prelude.{ℕ, ◌<◌, Option, none, some, Bytes, length}
use oddjob_gpupdate.Registry.Table.{find, IsDistinct}
use oddjob_gpupdate.Registry.Table.Below.{All}
use oddjob_gpupdate.Registry.Types.{
  Method, Interface, Object, Service, Context, method_name, interface_name, object_path,
  service_name,
}

abbrev pub in_interface : Bytes → Interface → Option Method
in_interface m i = find method_name m i.methods

abbrev pub in_object : Bytes → Bytes → Object → Option Method
in_object i m o = elim (find interface_name i o.interfaces) [
  | none ↦ none
  | some x ↦ in_interface m x
]

abbrev pub in_service : Bytes → Bytes → Bytes → Service → Option Method
in_service p i m s = elim (find object_path p s.objects) [ none ↦ none | some x ↦ in_object i m x ]

abbrev pub lookup : Context → Bytes → Bytes → Bytes → Bytes → Option Method
lookup ctx s p i m = elim (find service_name s ctx.services) [
  | none ↦ none
  | some x ↦ in_service p i m x
]

-- `oddjob_resize_array` grants at most 65535 elements: there is room for one more everywhere.
abbrev pub limit : ℕ
limit = 0xffff

abbrev pub RoomyInterface : Interface → Type 0
RoomyInterface i = length i.methods < limit

abbrev pub RoomyObject : Object → Type 0
RoomyObject o = (length o.interfaces < limit) × All interface_name RoomyInterface o.interfaces

abbrev pub RoomyService : Service → Type 0
RoomyService s = (length s.objects < limit) × All object_path RoomyObject s.objects

abbrev pub IsRoomy : Context → Type 0
IsRoomy ctx = (length ctx.services < limit) × All service_name RoomyService ctx.services

-- Names are unique at each level, and nothing is empty.
abbrev pub TreeInterface : Interface → Type 0
TreeInterface i = IsDistinct method_name i.methods × (0 < length i.methods)

abbrev pub TreeObject : Object → Type 0
TreeObject o =
    IsDistinct interface_name o.interfaces
    × (0 < length o.interfaces)
    × All interface_name TreeInterface o.interfaces

abbrev pub TreeService : Service → Type 0
TreeService s =
    IsDistinct object_path s.objects × (0 < length s.objects) × All object_path TreeObject s.objects

abbrev pub IsTree : Context → Type 0
IsTree ctx = IsDistinct service_name ctx.services × All service_name TreeService ctx.services
