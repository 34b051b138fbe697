-- ===== src/Dispatch/Tests.antt =====
-- Messages to a service that offers one method.
use oddjob_gpupdate.Prelude.{
  codes, ℕ, ◌≡◌, refl, arith, Bool, true, false, [], ◌∷◌, Option, none, some, Bytes, str_eq, ◌==◌,
  if◌then◌else◌, Returns, pos,
}
use oddjob_gpupdate.Util.Memory.{Ample}
use oddjob_gpupdate.Registry.Types.{Method, Interface, Object, Service, Context}
use oddjob_gpupdate.Dispatch.Message.{string, int32, Incoming, message_from_message}
use oddjob_gpupdate.Dispatch.Copied.{Copied, message_from_message-Copied}
use oddjob_gpupdate.Dispatch.Guess.{guess_interface, guess_interface-sole, sole, providers}
use oddjob_gpupdate.Dispatch.Filter.{World, Passwd, serving, filter}
use oddjob_gpupdate.Dispatch.Judged.{FilterJudged, filter-Judged}
use oddjob_gpupdate.Dispatch.Serving.{owner, last, serving-owner}

abbrev root : Passwd
root = record { pw_name = codes "root"; pw_uid = 0 }

abbrev ample : ℕ → Bool
ample n = true

ample-Ample : Ample ample
ample-Ample n = refl

abbrev no_reply : Bytes → Option Bytes
no_reply sender = none

abbrev world : World
world = record {
  fits = ample;
  fnmatch = str_eq;
  get_unix_user = λ sender. 0;
  getpwuid = λ uid. if uid == 0 then some root else none;
  selinux = false;
  context_reply = no_reply;
}

abbrev update : Method
update = record { method = codes "m"; n_arguments = pos 1; handler = some 7; user_data = 0 }

abbrev interface : Interface
interface = record { interface = codes "i"; methods = update ∷ [] }

abbrev object : Object
object = record { path = codes "/"; interfaces = interface ∷ [] }

abbrev service : Service
service = record { conn = some 3; name = codes "a"; objects = object ∷ [] }

abbrev context : Context
context = record {
  bustype = 1;
  reconnect_timeout = pos 0;
  selinux_enabled = false;
  services = service ∷ [];
}

abbrev call : Incoming
call = record {
  sender = some (codes ":1");
  destination = some (codes "a");
  path = some (codes "/");
  interface = none;
  member = some (codes "m");
  is_call = true;
  from_bus = false;
  at_bus = false;
  at_local = false;
  bus_signal = false;
  local_signal = false;
  serial = 1;
  arguments = int32 (pos 4) ∷ string (117 ∷ []) ∷ [];
}

filter-Judged_example :
    Returns
      (FilterJudged world ample-Ample context 3 call (codes ":1") service)
      (filter world context 3 call)
unfolding serving
filter-Judged_example =
    filter-Judged world ample-Ample context 3 call (codes ":1") service refl refl (omega arith)
      ((λ e. omega arith, tt), tt)

message_from_message-Copied_example :
    Returns
      (Copied ample ample-Ample false no_reply 3 call)
      (message_from_message ample false no_reply 3 (some call) true false)
message_from_message-Copied_example =
    message_from_message-Copied ample ample-Ample false no_reply 3 call true false (omega arith)
      ((λ e. omega arith, tt), tt)

guess_interface-sole_example :
    guess_interface object (codes "m") ≡ sole (providers (codes "m") object.interfaces)
guess_interface-sole_example = guess_interface-sole object (codes "m")

serving-owner_example :
    serving 4 none (service ∷ [])
    ≡ (elim (owner 4 (service ∷ [])) [ none ↦ last none (service ∷ []) | some s ↦ some s ])
serving-owner_example = serving-owner 4 none (service ∷ [])
