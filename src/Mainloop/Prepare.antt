-- ===== src/Mainloop/Prepare.antt =====
-- `prepare`: the arguments of `select`.
--
-- An `fd_set` is the list of the descriptors that were put into it; `FD_SET` writes behind it for one
-- of 1024 or more, and in front of it for -1. `nfds` is `*maxfd + 1`. What libdbus tells about its
-- watches and timeouts stays the same during one iteration.
use oddjob_gpupdate.Prelude.{
  ℕ, ◌+◌, Bool, true, false, ◌||◌, List, [], ◌∷◌, Option, none, some, ltb, ◌==◌, if◌then◌else◌, Run,
  ok, fault, waiting, ◌>>=◌, or_fault, pos, ltz,
}
use oddjob_gpupdate.Mainloop.Lists.{
  Flags, Watch, watch_dbus, watch_oddjob, WatchItem, TimeoutItem, PidItem,
}
use oddjob_gpupdate.Mainloop.Time.{Timeval, zero_time, timeval_of, current_interval, this_interval}

-- `dbus_watch_get_enabled`, `..._get_unix_fd` (none is -1) and `..._get_flags`
pub record DbusWatch : Type 0 where
  pub enabled : Bool
  pub fd : Option ℕ
  pub flags : Flags

-- `dbus_timeout_get_enabled` and `..._get_interval`
pub record DbusTimeout : Type 0 where
  pub enabled : Bool
  pub interval : ℕ

pub record Sets : Type 0 where
  pub nfds : ℕ
  pub rfds : List ℕ
  pub wfds : List ℕ
  pub efds : List ℕ

abbrev pub no_sets : Sets
no_sets = record { nfds = 0; rfds = []; wfds = []; efds = [] }

-- Whether a descriptor is in a set.
abbrev pub is_set : ℕ → List ℕ → Bool
is_set fd [] = false
is_set fd (x ∷ xs) = x == fd || is_set fd xs

-- `FD_ISSET`, which reads behind the set for a descriptor of 1024 or more.
abbrev pub fd_isset : ℕ → List ℕ → Run Bool
fd_isset fd set = if ltb fd 1024 then ok (is_set fd set) else fault

-- `FD_SET`
abbrev pub fd_set : ℕ → List ℕ → Run (List ℕ)
fd_set fd set = if ltb fd 1024 then ok (fd ∷ set) else fault

abbrev pub raise : ℕ → ℕ → ℕ
raise nfds fd = if ltb nfds (fd + 1) then fd + 1 else nfds

-- The three tests of the flags.
unfoldable pub want : ℕ → Flags → Sets → Run Sets
want fd flags s = do
  s1 ←
      (if flags.readable || flags.hangup
        then (fd_set fd s.rfds >>= λ set. ok (record s { rfds = set; nfds = raise s.nfds fd }))
        else ok s)
  s2 ←
      (if flags.writable
        then (fd_set fd s1.wfds >>= λ set. ok (record s1 { wfds = set; nfds = raise s1.nfds fd }))
        else ok s1)
  (if flags.error
      then (fd_set fd s2.efds >>= λ set. ok (record s2 { efds = set; nfds = raise s2.nfds fd }))
      else ok s2)

-- Whether one of the tests holds.
abbrev pub wants_any : Flags → Bool
wants_any flags = flags.readable || flags.hangup || flags.writable || flags.error

module _ (dbus_watch : ℕ → DbusWatch) where
  unfoldable pub want_item : Watch → Sets → Run Sets
  unfolding want
  want_item (watch_oddjob o) s = want o.fd o.flags s
  want_item (watch_dbus d) s =
      if (dbus_watch d).enabled
      then elim (dbus_watch d).fd [
        | none ↦ if wants_any (dbus_watch d).flags then fault else ok s
        | some fd ↦ want fd (dbus_watch d).flags s
      ]
      else ok s

  unfoldable pub prepare_watches : List WatchItem → Sets → Run Sets
  unfolding want_item
  prepare_watches [] s = ok s
  prepare_watches (x ∷ xs) s = want_item x.watch s >>= λ t. prepare_watches xs t

-- `use_tv` and `tv`, and `now`: what `gettimeofday` last wrote, if it ever did.
pub record Until : Type 0 where
  pub use_tv : Bool
  pub tv : Timeval
  pub now : Option ℕ

-- `pid_list != NULL`
unfoldable pub start_until : List PidItem → Until
start_until [] = record { use_tv = false; tv = zero_time; now = none }
start_until (p ∷ more) = record {
  use_tv = true;
  tv = record { tv_sec = pos 1; tv_usec = pos 0 };
  now = none;
}

module _ (dbus_timeout : ℕ → DbusTimeout) where
  -- One timeout. `first` is `tl == timeout_list`.
  unfoldable pub shorten : Bool → TimeoutItem → Until → Run Until
  shorten first t u =
      if (dbus_timeout t.dtimeout).enabled
      then (or_fault u.now >>= λ now.
          let left = this_interval (dbus_timeout t.dtimeout).interval t.start now in
          ok (
            if first || ltz left (current_interval u.tv)
            then record u { tv = timeval_of left }
            else u))
      else ok u

  -- The calls of `gettimeofday`: seconds, or none where the call fails. `waiting` lacks an answer.
  unfoldable pub prepare_timeouts : List (Option ℕ) → Bool → List TimeoutItem → Until → Run Until
  unfolding shorten
  prepare_timeouts clock first [] u = ok u
  prepare_timeouts [] first (t ∷ more) u = waiting
  prepare_timeouts (none ∷ clock) first (t ∷ more) u =
      let rest = shorten first t u >>= λ v. prepare_timeouts clock false more v in
      if u.use_tv then rest else ok u
  prepare_timeouts (some now ∷ clock) first (t ∷ more) u = do
    v ← shorten first t (record u { use_tv = true; now = some now })
    prepare_timeouts clock false more v
