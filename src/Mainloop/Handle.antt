-- ===== src/Mainloop/Handle.antt =====
-- `handle` and `mainloop_iterate`.
--
-- The functions that the loop calls are parameters: each may change the lists in any way. What
-- `wlnext`, `tlnext` and `plnext` point to may be freed by then: `fault`. A descriptor set of
-- `select` is the list of the descriptors in it.
use oddjob_gpupdate.Prelude.{
  ℕ, ◌+◌, Bool, true, false, ◌||◌, List, [], ◌∷◌, ◌++◌, Option, none, some, ◌==◌, if◌then◌else◌,
  length, Run, ok, fault, ◌>>=◌, store, ℤ, pos, negsuc,
}
use oddjob_gpupdate.Util.Resize.{resize_array}
use oddjob_gpupdate.Mainloop.Linked.{first, at, walk}
use oddjob_gpupdate.Mainloop.Lists.{
  Flags, OddjobWatch, watch_dbus, watch_oddjob, WatchItem, TimeoutItem, PidItem, Loop, watch_node,
  timeout_node, pid_node, oddjob_watch_remove, pid_remove,
}
use oddjob_gpupdate.Mainloop.Time.{Timeval}
use oddjob_gpupdate.Mainloop.Prepare.{
  DbusWatch, DbusTimeout, Sets, no_sets, fd_isset, prepare_watches, start_until, prepare_timeouts,
}

pub record World : Type 0 where
  pub fits : ℕ → Bool
  pub dbus_watch : ℕ → DbusWatch
  pub dbus_timeout : ℕ → DbusTimeout
  -- `OddjobWatchFn`, `dbus_watch_handle`, `dbus_timeout_handle` and `OddjobPidFn`
  pub watch_fn : OddjobWatch → Flags → Loop → Loop × Bool
  pub watch_handle : ℕ → Flags → Loop → Loop
  pub timeout_handle : ℕ → Loop → Loop
  pub pid_fn : PidItem → ℕ → Loop → Loop
  -- `waitpid(pid, &status, WNOHANG) == pid`, with the status
  pub waitpid : ℕ → Option ℕ

-- A call of one of these functions.
pub data Called : Type 0 where
  watch_called : OddjobWatch → Flags → Called
  dwatch_called : ℕ → Flags → Called
  timeout_called : ℕ → Called
  pid_called : PidItem → ℕ → Called

pub record Dwatch : Type 0 where
  pub watch : ℕ
  pub flags : Flags

abbrev pub no_flags : Flags
no_flags = record { readable = false; writable = false; error = false; hangup = false }

abbrev pub null_dwatch : Dwatch
null_dwatch = record { watch = 0; flags = no_flags }

-- The variables of `handle`; `fd` is none for -1.
pub record Handling : Type 0 where
  pub loop : Loop
  pub fd : Option ℕ
  pub dwatches : List Dwatch
  pub calls : List Called

-- What the three tests of `FD_ISSET` put into `flags`.
unfoldable pub ready : ℕ → Sets → Run Flags
ready fd sets = do
  readable ← fd_isset fd sets.rfds
  writable ← fd_isset fd sets.wfds
  error ← fd_isset fd sets.efds
  ok (record { readable = readable; writable = writable; error = error; hangup = false })

-- `flags != 0`
abbrev pub any_flag : Flags → Bool
any_flag f = f.readable || f.writable || f.error

abbrev pub join_flags : Flags → Flags → Flags
join_flags f g = record {
  readable = f.readable || g.readable;
  writable = f.writable || g.writable;
  error = f.error || g.error;
  hangup = f.hangup || g.hangup;
}

module _ (w : World) where
  -- The search for the watch in `dwatches`: none where it is not there.
  unfoldable pub merge_ready : ℕ → Flags → List Dwatch → Option (List Dwatch)
  merge_ready d flags [] = none
  merge_ready d flags (x ∷ xs) =
      let rest = merge_ready d flags xs in
      if x.watch == d
      then some (record x { flags = join_flags x.flags flags } ∷ xs)
      else elim rest [ none ↦ none | some ys ↦ some (x ∷ ys) ]

  unfoldable pub add_ready : ℕ → Flags → List Dwatch → Run (List Dwatch)
  unfolding merge_ready
  add_ready d flags xs = elim (merge_ready d flags xs) [
    | some ys ↦ ok ys
    | none ↦ do
      let n = length xs
      grown ← resize_array w.fits null_dwatch xs 16 n (n + 1)
      store grown n (record { watch = d; flags = flags } ∷ [])
  ]

  -- The call of a watch's function, and the removal that it may ask for. `wl` is read again for it.
  unfoldable pub call_watch : ℕ → OddjobWatch → Flags → Handling → Run Handling
  unfolding oddjob_watch_remove
  call_watch node o flags s =
      let (loop, done) = w.watch_fn o flags s.loop in
      let s' : Handling = record s { loop = loop; calls = s.calls ++ watch_called o flags ∷ [] } in
      if done
      then elim (at watch_node node loop.watches) [
        | none ↦ fault
        | some _ ↦ ok (record s' { loop = oddjob_watch_remove o.fd loop })
      ]
      else ok s'

  module _ (sets : Sets) where
    -- The `switch` of the first loop.
    unfoldable pub visit_watch : WatchItem → Handling → Run Handling
    unfolding ready add_ready call_watch
    visit_watch x s = elim x.watch [
      | watch_dbus d ↦
          if (w.dbus_watch d).enabled
          then elim (w.dbus_watch d).fd [
            | none ↦ fault
            | some fd ↦ ready fd sets >>= λ flags.
                if any_flag flags
                then (add_ready d flags s.dwatches >>= λ dwatches.
                    ok (record s { fd = some fd; dwatches = dwatches }))
                else ok (record s { fd = some fd })
          ]
          else ok s
      | watch_oddjob o ↦
          ready o.fd sets >>= λ flags. if any_flag flags then call_watch x.node o flags s else ok s
    ]

    unfoldable pub handle_watches : Loop → Run Handling
    unfolding visit_watch
    handle_watches loop =
        walk watch_node (λ s. s.loop.watches) visit_watch (length loop.watches)
          (first watch_node loop.watches)
          (record { loop = loop; fd = none; dwatches = []; calls = [] })

  -- The loop over `dwatches`.
  unfoldable pub handle_dwatches : List Dwatch → Handling → Handling
  handle_dwatches [] s = s
  handle_dwatches (x ∷ xs) s = handle_dwatches xs (record s {
    loop = w.watch_handle x.watch x.flags s.loop;
    calls = s.calls ++ dwatch_called x.watch x.flags ∷ [];
  })

  unfoldable pub visit_timeout : TimeoutItem → Handling → Run Handling
  visit_timeout x s = ok (
      if (w.dbus_timeout x.dtimeout).enabled
      then record s {
        loop = w.timeout_handle x.dtimeout s.loop;
        calls = s.calls ++ timeout_called x.dtimeout ∷ [];
      }
      else s)

  -- `pl` is read again behind the call of its function.
  unfoldable pub visit_pid : PidItem → Handling → Run Handling
  unfolding pid_remove
  visit_pid x s = elim (w.waitpid x.pid) [
    | none ↦ ok s
    | some status ↦
        let loop = w.pid_fn x status s.loop in
        (elim (at pid_node x.node loop.pids) [
          | none ↦ fault
          | some _ ↦ ok (record s {
            loop = pid_remove x.pid loop;
            calls = s.calls ++ pid_called x status ∷ [];
          })
        ])
  ]

  unfoldable pub handle_timeouts : Handling → Run Handling
  unfolding visit_timeout
  handle_timeouts s = elim s.fd [
    | none ↦ ok s
    | some _ ↦
        walk timeout_node (λ t. t.loop.timeouts) visit_timeout (length s.loop.timeouts)
          (first timeout_node s.loop.timeouts) s
  ]

  unfoldable pub handle_pids : Handling → Run Handling
  unfolding visit_pid
  handle_pids s =
      walk pid_node (λ t. t.loop.pids) visit_pid (length s.loop.pids) (first pid_node s.loop.pids) s

  unfoldable pub handle : Sets → Loop → Run Handling
  unfolding handle_watches handle_dwatches handle_timeouts handle_pids
  handle sets loop = do
    s ← handle_watches sets loop
    let t = handle_dwatches s.dwatches s
    u ← handle_timeouts t
    handle_pids u

-- What `select` answers: -1, or how many descriptors are ready, and the sets.
pub data Selected : Type 0 where
  failed : Selected
  selected : ℕ → Sets → Selected

module _ (w : World) (select : ℕ → Sets → Option Timeval → Selected) where
  -- What `select` is called with.
  unfoldable pub prepare : List (Option ℕ) → Loop → Run (Sets × Option Timeval)
  unfolding prepare_watches prepare_timeouts start_until
  prepare clock loop = do
    sets ← prepare_watches w.dbus_watch loop.watches no_sets
    until ← prepare_timeouts w.dbus_timeout clock true loop.timeouts (start_until loop.pids)
    ok (sets, (if until.use_tv then some until.tv else none))

  -- The result, the lists, and the calls that were made.
  unfoldable pub mainloop_iterate : List (Option ℕ) → Loop → Run (ℤ × Loop × List Called)
  unfolding prepare handle
  mainloop_iterate clock loop = do
    (sets, tv) ← prepare clock loop
    (elim (select sets.nfds sets tv) [
      | failed ↦ ok (negsuc 0, loop, [])
      | selected n chosen ↦ handle w chosen loop >>= λ s. ok (pos n, s.loop, s.calls)
    ])
