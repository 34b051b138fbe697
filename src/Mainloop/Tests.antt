-- ===== src/Mainloop/Tests.antt =====
-- Small lists of watches, timeouts and child processes.
use oddjob_gpupdate.Prelude.{
  ℕ, ◌≡◌, refl, arith, Bool, true, false, ◌||◌, [], ◌∷◌, Option, none, some, ok, fault, Returns,
  negsuc, if◌then◌else◌,
}
use oddjob_gpupdate.Util.Memory.{Ample}
use oddjob_gpupdate.Mainloop.Linked.{has, at, Stands-next}
use oddjob_gpupdate.Mainloop.Lists.{
  Flags, OddjobWatch, watch_oddjob, watch_dbus, WatchItem, TimeoutItem, Loop, pid_add, watch_node,
}
use oddjob_gpupdate.Mainloop.Registered.{
  Reach, here, next, add_pid, at_start, IsRegistered, Reach-IsRegistered,
}
use oddjob_gpupdate.Mainloop.Prepare.{Sets, no_sets, DbusWatch, prepare_watches}
use oddjob_gpupdate.Mainloop.Prepared.{Prepares, any_asks, prepare_watches-Prepares}
use oddjob_gpupdate.Mainloop.Time.{Timeval}
use oddjob_gpupdate.Mainloop.Handle.{
  World, Selected, ready, failed, selected, handle_watches, mainloop_iterate,
}
use oddjob_gpupdate.Mainloop.Visited.{Spares, Served, handle_watches-Served}
use oddjob_gpupdate.Mainloop.Freed.{handle_watches-fault}
use oddjob_gpupdate.Mainloop.Expired.{
  is_negative, RefusesNegative, StartsOverdue, mainloop_iterate-StartsOverdue,
}

abbrev ample : ℕ → Bool
ample n = true

ample-Ample : Ample ample
ample-Ample n = refl

abbrev reading : Flags
reading = record { readable = true; writable = false; error = false; hangup = false }

abbrev with_pid : Loop
with_pid = (pid_add (some 8) 40 1 0 at_start).0

with_pid-Reach : Reach at_start with_pid
unfolding has
with_pid-Reach = next here (add_pid (some 8) 40 1 0 (refl, refl, refl))

Reach-IsRegistered_example : IsRegistered with_pid
Reach-IsRegistered_example = Reach-IsRegistered with_pid-Reach

abbrev own : OddjobWatch
own = record { fd = 5; flags = reading; fn = 1; user_data = 0 }

abbrev own_item : WatchItem
own_item = record { node = 8; watch = watch_oddjob own }

abbrev bus_item : WatchItem
bus_item = record { node = 9; watch = watch_dbus 6 }

abbrev old_timeout : TimeoutItem
old_timeout = record { node = 10; dtimeout = 2; start = 10 }

abbrev two_watches : Loop
two_watches = record { watches = own_item ∷ bus_item ∷ []; timeouts = old_timeout ∷ []; pids = [] }

two_watches-IsRegistered : IsRegistered two_watches
unfolding has
two_watches-IsRegistered = record {
  watches_once = (refl, (refl, tt));
  timeouts_once = (refl, tt);
  pids_once = tt;
  watch_nodes = (refl, (refl, tt));
  timeout_nodes = (refl, tt);
  pid_nodes = tt;
}

-- The descriptor of a D-Bus watch is its own number.
abbrev bus_watch : ℕ → DbusWatch
bus_watch d = record { enabled = true; fd = some d; flags = reading }

abbrev world : World
world = record {
  fits = ample;
  dbus_watch = bus_watch;
  dbus_timeout = λ t. record { enabled = true; interval = 1000 };
  watch_fn = λ o flags s. (s, false);
  watch_handle = λ d flags s. s;
  timeout_handle = λ t s. s;
  pid_fn = λ p status s. s;
  waitpid = λ pid. none;
}

-- The function of each watch clears the list.
abbrev clearing : World
clearing = record world { watch_fn = λ o flags s. (record s { watches = [] }, false) }

abbrev both_ready : Sets
both_ready = record { nfds = 7; rfds = 5 ∷ 6 ∷ []; wfds = []; efds = [] }

prepare_watches-Prepares_example :
    Returns
      (Prepares bus_watch (λ sel fd. any_asks bus_watch sel fd two_watches.watches) no_sets)
      (prepare_watches bus_watch two_watches.watches no_sets)
prepare_watches-Prepares_example =
    prepare_watches-Prepares bus_watch two_watches.watches no_sets
      (omega arith, ((λ t. (6, refl, omega arith)), tt))

world-Spares : Spares world both_ready
world-Spares = record {
  spares = λ x o rest s e st. Stands-next watch_node x rest s.watches st;
  stays = λ x o rest s e t st. st;
}

handle_watches-Served_example :
    Returns
      (Served world both_ready ample-Ample two_watches)
      (handle_watches world both_ready two_watches)
handle_watches-Served_example =
    handle_watches-Served world both_ready ample-Ample world-Spares two_watches
      two_watches-IsRegistered (omega arith, ((λ t. (6, refl, omega arith)), tt)) (omega arith)

handle_watches-fault_example : handle_watches clearing both_ready two_watches ≡ fault
unfolding at ready
handle_watches-fault_example =
    handle_watches-fault clearing both_ready two_watches own_item bus_item own reading [] refl refl
      refl refl refl refl

abbrev select : ℕ → Sets → Option Timeval → Selected
select nfds sets none = selected 0 no_sets
select nfds sets (some tv) =
    if is_negative tv.tv_sec || is_negative tv.tv_usec then failed else selected 0 no_sets

select-RefusesNegative : RefusesNegative select
select-RefusesNegative nfds sets tv e = rw e refl

old_timeout-StartsOverdue : StartsOverdue world 20 two_watches.timeouts
old_timeout-StartsOverdue = record {
  timeout = old_timeout;
  others = [];
  starts = refl;
  enabled = refl;
  overdue = (omega arith, omega arith);
}

mainloop_iterate-StartsOverdue_example :
    mainloop_iterate world select (some 20 ∷ []) two_watches ≡ ok (negsuc 0, two_watches, [])
mainloop_iterate-StartsOverdue_example =
    mainloop_iterate-StartsOverdue world select select-RefusesNegative two_watches 20 []
      (omega arith, ((λ t. (6, refl, omega arith)), tt)) old_timeout-StartsOverdue (omega arith)
