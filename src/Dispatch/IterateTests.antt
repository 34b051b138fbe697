-- ===== src/Dispatch/IterateTests.antt =====
-- An iteration of the main loop after a connection was lost.
use oddjob_gpupdate.Prelude.{
  codes, ℕ, ◌≡◌, refl, Bool, true, false, List, [], ◌∷◌, Option, none, some, Bytes, ◌==◌,
  if◌then◌else◌, ok, fault, pos,
}
use oddjob_gpupdate.Registry.Bus.{
  Bus, Effect, exit_on_disconnect, add_filter, request_name, remove_filter, release_name, detach,
  close, live, service_connect, service_disconnect,
}
use oddjob_gpupdate.Registry.Types.{Service, Context}
use oddjob_gpupdate.Registry.Listeners.{reconnect_if_needed}
use oddjob_gpupdate.Mainloop.Lists.{Flags, Loop}
use oddjob_gpupdate.Mainloop.Linked.{walk}
use oddjob_gpupdate.Mainloop.Time.{Timeval}
use oddjob_gpupdate.Mainloop.Prepare.{Sets, no_sets}
use oddjob_gpupdate.Mainloop.Handle.{World, Selected, selected, mainloop_iterate}
use oddjob_gpupdate.Dispatch.Iterate.{Libdbus, main_iterate}
use oddjob_gpupdate.Dispatch.Iterate.Unconnected.{main_iterate-unconnected}

-- A call that waits for connection 3, and the reply to it.
record Queue : Type 0 where
  call : Bool
  reply : Bool

abbrev on_three : ℕ → Bool → Bool
on_three c b = if c == 3 then b else false

abbrev lib : Libdbus Queue
lib = record {
  data_remains = λ c q. on_three c q.call;
  dispatch =
      λ c st. if c == 3 then record st { bus = record { call = false; reply = true } } else st;
  has_messages_to_send = λ c q. on_three c q.reply;
  flush = λ c q. if c == 3 then record q { reply = false } else q;
}

abbrev service : Service
service = record { conn = some 3; name = codes "a"; objects = [] }

abbrev context : Context
context = record {
  bustype = 1;
  reconnect_timeout = pos 0;
  selinux_enabled = false;
  services = service ∷ [];
}

abbrev no_flags : Flags
no_flags = record { readable = false; writable = false; error = false; hangup = false }

abbrev world : World
world = record {
  fits = λ n. true;
  dbus_watch = λ d. record { enabled = false; fd = none; flags = no_flags };
  dbus_timeout = λ t. record { enabled = false; interval = 0 };
  watch_fn = λ o flags s. (s, false);
  watch_handle = λ d flags s. s;
  timeout_handle = λ t s. s;
  pid_fn = λ p status s. s;
  waitpid = λ pid. none;
}

abbrev select : ℕ → Sets → Option Timeval → Selected
select nfds sets tv = selected 0 no_sets

abbrev idle : Loop
idle = record { watches = []; timeouts = []; pids = [] }

idle_round : mainloop_iterate world select [] idle ≡ ok (pos 0, idle, [])
unfolding mainloop_iterate walk
idle_round = refl

-- A bus that gives a connection, but not the name.
abbrev refusing : Bytes → Bus
refusing name = record { answers = live 4 ∷ []; accepts_filter = true; grants_name = false }

abbrev is_lost : ℕ → Bool
is_lost c = false

abbrev refused_log : List Effect
refused_log =
    exit_on_disconnect (some 4) true ∷ add_filter 4 ∷ request_name 4 (codes "a") ∷ close 4 ∷ []

abbrev lost_log : List Effect
lost_log = detach 3 ∷ remove_filter 3 ∷ release_name 3 (codes "a") ∷ close 3 ∷ refused_log

abbrev lost : Context
lost = record context { services = record service { conn = none } ∷ [] }

main_iterate-unconnected_example :
    main_iterate lib world select 1 1 [] idle
      (record { ctx = lost; array = 100; bus = record { call = false; reply = false } })
    ≡ fault
unfolding reconnect_if_needed service_connect service_disconnect
main_iterate-unconnected_example =
    main_iterate-unconnected lib world select is_lost refusing context service [] refused_log
      (lost, lost_log) 0 0 100 (record { call = false; reply = false }) [] idle idle (pos 0) [] refl
      refl refl refl idle_round
