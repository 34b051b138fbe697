-- ===== src/Registry/Tests.antt =====
-- Runs of the registry.
use Prim.Native.String.{String}
use oddjob_gpupdate.Prelude.{
  codes, ℕ, ◌≡◌, refl, inl, arith, Bool, true, false, List, [], ◌∷◌, some, str_eq, ok, exit,
  Returns, Breaks, pos,
}
use oddjob_gpupdate.Util.Memory.{Ample, oddjob_malloc}
use oddjob_gpupdate.Util.Resize.{resize_array}
use oddjob_gpupdate.Registry.Table.{index_of, find, enter, remove_at}
use oddjob_gpupdate.Registry.Bus.{
  Bus, Effect, exit_on_disconnect, add_filter, request_name, attach, sleep, refused, live,
  service_connect,
}
use oddjob_gpupdate.Registry.Types.{Method, Service, Context}
use oddjob_gpupdate.Registry.Add.{
  set_method, add_to_interface, add_to_object, add_to_service, service_slot, add_method,
}
use oddjob_gpupdate.Registry.Add.Whole.{Added, add_method-Added}
use oddjob_gpupdate.Registry.Remove.{
  find_method, locate_in, drop_method, drop_service, remove_method,
}
use oddjob_gpupdate.Registry.Remove.Levels.{Leads}
use oddjob_gpupdate.Registry.Remove.Whole.{Removed}
use oddjob_gpupdate.Registry.Remove.Law.{remove_method-Removed, remove_method_last}
use oddjob_gpupdate.Registry.Lookup.{IsTree}

abbrev ample : ℕ → Bool
ample n = true

ample-Ample : Ample ample
ample-Ample n = refl

abbrev call_of : String → Method
call_of m = record { method = codes m; n_arguments = pos 1; handler = some 7; user_data = 0 }

abbrev offering : String → Service
offering s = record {
  conn = some 3;
  name = codes s;
  objects =
      record {
        path = codes "/";
        interfaces = record { interface = codes "i"; methods = call_of "m" ∷ [] } ∷ [];
      }
      ∷ [];
}

abbrev with_services : List Service → Context
with_services l = record {
  bustype = 1;
  reconnect_timeout = pos 0;
  selinux_enabled = false;
  services = l;
}

abbrev empty_ctx : Context
empty_ctx = with_services []

abbrev one : Context
one = with_services (offering "a" ∷ [])

abbrev two : Context
two = with_services (offering "a" ∷ offering "b" ∷ [])

-- One attempt is refused, the next one succeeds.
abbrev slow_bus : Bus
slow_bus = record { answers = refused ∷ live 3 ∷ []; accepts_filter = true; grants_name = true }

abbrev slow_log : List Effect
slow_log =
    sleep (pos 0)
    ∷ exit_on_disconnect (some 3) true
    ∷ add_filter 3
    ∷ request_name 3 (codes "a")
    ∷ attach 3
    ∷ []

add_first :
    add_method ample empty_ctx
      (codes "a")
      (codes "/")
      (codes "i")
      (codes "m")
      (pos 1)
      (some 7)
      0
      slow_bus
    ≡ ok (record { returned = true; ctx = one; log = slow_log })
unfolding add_method service_slot add_to_service add_to_object add_to_interface set_method enter
    index_of resize_array oddjob_malloc service_connect str_eq
add_first = refl

remove_of_two : remove_method ample two (codes "b") (codes "/") (codes "i") (codes "m") ≡ exit 1
unfolding remove_method find_method locate_in index_of drop_method remove_at drop_service
    resize_array oddjob_malloc str_eq
remove_of_two = refl

connected : service_connect (pos 0) (codes "a") slow_bus ≡ ok (some 3, slow_log)
unfolding service_connect
connected = refl

add_method-Added_example :
    Returns
      (Added (pos 1) (some 7) 0 one (codes "a") (codes "/") (codes "i") (codes "n") (some 3))
      (add_method ample one
        (codes "a")
        (codes "/")
        (codes "i")
        (codes "n")
        (pos 1)
        (some 7)
        0
        slow_bus)
add_method-Added_example =
    add_method-Added ample ample-Ample (pos 1) (some 7) 0 one (codes "a") (codes "/") (codes "i")
      (codes "n") slow_bus (some 3) slow_log (omega arith) connected

one-IsTree : IsTree one
unfolding find
one-IsTree = ground arith

remove_method-Removed_example :
    Returns
      (Removed one (codes "a") (codes "/") (codes "i") (codes "m"))
      (remove_method ample one (codes "a") (codes "/") (codes "i") (codes "m"))
remove_method-Removed_example =
    remove_method-Removed one (codes "a") (codes "/") (codes "i") (codes "m") ample ample-Ample
      (omega arith) one-IsTree (λ l. inl refl)

two_leads : Leads two (codes "b") (codes "/") (codes "i") (codes "m")
unfolding find str_eq
two_leads = record {
  srv = offering "b";
  obj = record {
    path = codes "/";
    interfaces = record { interface = codes "i"; methods = call_of "m" ∷ [] } ∷ [];
  };
  interf = record { interface = codes "i"; methods = call_of "m" ∷ [] };
  meth = call_of "m";
  srv_found = refl;
  obj_found = refl;
  interf_found = refl;
  meth_found = refl;
}

remove_method_last_example :
    Breaks (remove_method ample two (codes "b") (codes "/") (codes "i") (codes "m"))
unfolding two_leads
remove_method_last_example =
    remove_method_last two (codes "b") (codes "/") (codes "i") (codes "m") ample ample-Ample
      (omega arith) two_leads (omega arith) refl refl refl
