-- ===== src/Registry/Types.antt =====
-- `struct oddjob_dbus_context` and the structures in it.
--
-- `n_services`, `n_objects`, `n_interfaces` and `n_methods` are the lengths of the lists. Names are
-- copies that `oddjob_strdup` made, so the tests of a name against NULL always pass. A handler is
-- NULL or the address of a function, `user_data` an address. The pointer from a service to its
-- context is left out: there is one context.
use oddjob_gpupdate.Prelude.{ℕ, Bool, List, [], Option, none, Bytes, ℤ, pos}
use oddjob_gpupdate.Registry.Bus.{Effect}

pub record Method : Type 0 where
  pub method : Bytes
  pub n_arguments : ℤ
  pub handler : Option ℕ
  pub user_data : ℕ

pub record Interface : Type 0 where
  pub interface : Bytes
  pub methods : List Method

pub record Object : Type 0 where
  pub path : Bytes
  pub interfaces : List Interface

pub record Service : Type 0 where
  pub conn : Option ℕ
  pub name : Bytes
  pub objects : List Object

pub record Context : Type 0 where
  pub bustype : ℕ
  pub reconnect_timeout : ℤ
  pub selinux_enabled : Bool
  pub services : List Service

-- What an operation returns, and what it leaves behind.
pub record Reply : Type 0 where
  pub returned : Bool
  pub ctx : Context
  pub log : List Effect

-- Structures of zero bytes, with a name.
abbrev pub blank_method : Bytes → Method
blank_method m = record { method = m; n_arguments = pos 0; handler = none; user_data = 0 }

abbrev pub blank_interface : Bytes → Interface
blank_interface i = record { interface = i; methods = [] }

abbrev pub blank_object : Bytes → Object
blank_object p = record { path = p; interfaces = [] }

abbrev pub blank_service : Bytes → Service
blank_service s = record { conn = none; name = s; objects = [] }

abbrev pub method_name : Method → Bytes
method_name m = m.method

abbrev pub interface_name : Interface → Bytes
interface_name i = i.interface

abbrev pub object_path : Object → Bytes
object_path o = o.path

abbrev pub service_name : Service → Bytes
service_name s = s.name

-- `sizeof` of each structure
abbrev pub sizeof_method : ℕ
sizeof_method = 32

abbrev pub sizeof_interface : ℕ
sizeof_interface = 24

abbrev pub sizeof_object : ℕ
sizeof_object = 24

abbrev pub sizeof_service : ℕ
sizeof_service = 40
