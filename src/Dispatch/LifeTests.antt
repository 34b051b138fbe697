-- ===== src/Dispatch/LifeTests.antt =====
-- A daemon that offers one method, from the creation of its context on.
use oddjob_gpupdate.Prelude.{
  codes, ℕ, ◌≡◌, refl, arith, Bool, true, false, List, [], ◌∷◌, ◌++◌, Option, none, some, Bytes,
  str_eq, str_eq_comm, ◌==◌, if◌then◌else◌, ok, Returns, pos,
}
use oddjob_gpupdate.Util.Memory.{Ample, oddjob_malloc, malloc0}
use oddjob_gpupdate.Util.Resize.{resize_array}
use oddjob_gpupdate.Registry.Table.{index_of, find, enter}
use oddjob_gpupdate.Registry.Bus.{
  Bus, Effect, exit_on_disconnect, add_filter, request_name, attach, refused, live, service_connect,
}
use oddjob_gpupdate.Registry.Types.{Method, Service, Context, Reply}
use oddjob_gpupdate.Registry.Add.{
  set_method, add_to_interface, add_to_object, add_to_service, service_slot, add_method,
}
use oddjob_gpupdate.Registry.Listeners.{listeners_new, reconnect_if_needed, listeners_free}
use oddjob_gpupdate.Registry.Listeners.Refresh.{Reconnected, reconnect_if_needed-Reconnected}
use oddjob_gpupdate.Registry.Attached.{attaches, detaches}
use oddjob_gpupdate.Registry.Life.{Offers, no_offers, enter_offer, Life, created, added, IsSound}
use oddjob_gpupdate.Registry.Life.Sound.{Life-IsSound, listeners_free-attached}
use oddjob_gpupdate.Dispatch.Message.{string, int32, Incoming}
use oddjob_gpupdate.Dispatch.Filter.{World, Passwd, call_header, is_disconnect, filter}
use oddjob_gpupdate.Dispatch.Reach.{Deliverable, Calls}
use oddjob_gpupdate.Dispatch.Offered.{Listens, IsOffered, filter-offered, filter-IsOffered}

abbrev ample : ℕ → Bool
ample n = true

ample-Ample : Ample ample
ample-Ample n = refl

abbrev update : Method
update = record { method = codes "m"; n_arguments = pos 1; handler = some 7; user_data = 0 }

abbrev service : Service
service = record {
  conn = some 3;
  name = codes "a";
  objects =
      record {
        path = codes "/";
        interfaces = record { interface = codes "i"; methods = update ∷ [] } ∷ [];
      }
      ∷ [];
}

abbrev with_services : List Service → Context
with_services l = record {
  bustype = 1;
  reconnect_timeout = pos 0;
  selinux_enabled = false;
  services = l;
}

abbrev context : Context
context = with_services (service ∷ [])

-- The first attempt succeeds.
abbrev ready_bus : Bus
ready_bus = record { answers = live 3 ∷ []; accepts_filter = true; grants_name = true }

abbrev ready_log : List Effect
ready_log =
    exit_on_disconnect (some 3) true ∷ add_filter 3 ∷ request_name 3 (codes "a") ∷ attach 3 ∷ []

abbrev reply : Reply
reply = record { returned = true; ctx = context; log = ready_log }

add_update :
    add_method ample
      (with_services [])
      (codes "a")
      (codes "/")
      (codes "i")
      (codes "m")
      (pos 1)
      (some 7)
      0
      ready_bus
    ≡ ok reply
unfolding add_method service_slot add_to_service add_to_object add_to_interface set_method enter
    index_of resize_array oddjob_malloc service_connect str_eq
add_update = refl

new_context : listeners_new ample 1 false ≡ ok (with_services [])
unfolding listeners_new malloc0
new_context = refl

abbrev table : Offers
table = enter_offer true (codes "a") (codes "/") (codes "i") (codes "m") update no_offers

-- The context after the method has been added.
life : Life ample context table ready_log
life =
    added (codes "a") (codes "/") (codes "i") (codes "m") (pos 1) (some 7) 0 ready_bus reply
      (created 1 false new_context) (omega arith, tt) add_update

Life-IsSound_example : IsSound context table ready_log
Life-IsSound_example = Life-IsSound ample ample-Ample life

listeners_free-attached_example :
    attaches 3 (ready_log ++ listeners_free (some context))
    ≡ detaches 3 (ready_log ++ listeners_free (some context))
listeners_free-attached_example = listeners_free-attached ample ample-Ample life 3

-- The connection is lost, and a new one is made.
abbrev is_lost : ℕ → Bool
is_lost c = false

abbrev new_bus : Bytes → Bus
new_bus name = record { answers = refused ∷ live 4 ∷ []; accepts_filter = true; grants_name = true }

reconnect_if_needed-Reconnected_example :
    Returns
      (λ r. Reconnected is_lost new_bus context r.0)
      (reconnect_if_needed is_lost new_bus context)
unfolding service_connect
reconnect_if_needed-Reconnected_example =
    reconnect_if_needed-Reconnected is_lost new_bus context ((λ t. tt), tt)

abbrev no_reply : Bytes → Option Bytes
no_reply sender = none

abbrev root : Passwd
root = record { pw_name = codes "root"; pw_uid = 0 }

abbrev world : World
world = record {
  fits = ample;
  fnmatch = str_eq;
  get_unix_user = λ sender. 0;
  getpwuid = λ uid. if uid == 0 then some root else none;
  selinux = false;
  context_reply = no_reply;
}

abbrev call : Incoming
call = record {
  sender = some (codes ":1");
  destination = some (codes "a");
  path = some (codes "/");
  interface = some (codes "i");
  member = some (codes "m");
  is_call = true;
  from_bus = false;
  at_bus = false;
  at_local = false;
  bus_signal = false;
  local_signal = false;
  serial = 1;
  arguments = int32 (pos 4) ∷ string (117 ∷ []) ∷ [];
}

service-Listens : Listens world context ready_log (codes "a") 3
unfolding find str_eq attaches detaches
service-Listens = record {
  srv = service;
  srv_found = refl;
  holds = refl;
  alone = refl;
  literal = ((λ path. str_eq_comm (codes "/") path), tt);
}

call-Deliverable :
    Deliverable world ample-Ample context 3 call
      (codes "/")
      (codes "i")
      (codes "m")
      (codes ":1")
      service
      update
      7
      root
unfolding call_header is_disconnect
call-Deliverable = record {
  comes_from = refl;
  header = refl;
  names_interface = refl;
  is_a_call = refl;
  few = omega arith;
  no_nul = ((λ e. omega arith, tt), tt);
  clean = ((λ e. omega arith, λ e. omega arith, tt), tt);
  count = refl;
  handles = refl;
  user = (refl, refl);
}

filter-offered_example : Returns (Calls 7 (codes "root")) (filter world context 3 call)
unfolding service-Listens str_eq
filter-offered_example =
    filter-offered world ample-Ample life (codes "a") 3 service-Listens call (codes "/") (codes "i")
      (codes "m") (codes ":1") update 7 root refl call-Deliverable

filter-IsOffered_example : Returns (IsOffered table 1) (filter world context 3 call)
filter-IsOffered_example =
    filter-IsOffered world ample-Ample life (codes "a") 3 service-Listens call (codes ":1") refl
      (omega arith) ((λ e. omega arith, tt), tt)
