-- ===== src/Mainloop/Lists.antt =====
-- `watch_list`, `timeout_list` and `pid_list`, and the functions that add to them and take from them.
--
-- A D-Bus watch or timeout, a function and a `void *` are their addresses. `malloc` is the address of
-- the new node, or none. Of the time at which a timeout was added only the seconds are ever read.
use oddjob_gpupdate.Prelude.{ℕ, Bool, false, List, Option, none, some, ◌==◌}
use oddjob_gpupdate.Mainloop.Linked.{link, unlink}

-- `DBusWatchFlags`
pub record Flags : Type 0 where
  pub readable : Bool
  pub writable : Bool
  pub error : Bool
  pub hangup : Bool

pub record OddjobWatch : Type 0 where
  pub fd : ℕ
  pub flags : Flags
  pub fn : ℕ
  pub user_data : ℕ

pub data Watch : Type 0 where
  watch_dbus : ℕ → Watch
  watch_oddjob : OddjobWatch → Watch

pub record WatchItem : Type 0 where
  pub node : ℕ
  pub watch : Watch

pub record TimeoutItem : Type 0 where
  pub node : ℕ
  pub dtimeout : ℕ
  pub start : ℕ

pub record PidItem : Type 0 where
  pub node : ℕ
  pub pid : ℕ
  pub fn : ℕ
  pub user_data : ℕ

pub record Loop : Type 0 where
  pub watches : List WatchItem
  pub timeouts : List TimeoutItem
  pub pids : List PidItem

abbrev pub watch_node : WatchItem → ℕ
watch_node x = x.node

abbrev pub timeout_node : TimeoutItem → ℕ
timeout_node x = x.node

abbrev pub pid_node : PidItem → ℕ
pid_node x = x.node

-- The test of each search.
abbrev pub is_pid : ℕ → PidItem → Bool
is_pid pid l = l.pid == pid

abbrev pub is_fd : ℕ → Watch → Bool
is_fd fd (watch_oddjob w) = w.fd == fd
is_fd fd (watch_dbus _) = false

abbrev pub is_dwatch : ℕ → Watch → Bool
is_dwatch d (watch_oddjob _) = false
is_dwatch d (watch_dbus e) = e == d

abbrev pub on_fd : ℕ → WatchItem → Bool
on_fd fd l = is_fd fd l.watch

abbrev pub on_dwatch : ℕ → WatchItem → Bool
on_dwatch d l = is_dwatch d l.watch

abbrev pub is_timeout : ℕ → TimeoutItem → Bool
is_timeout t l = l.dtimeout == t

-- A new node around these values.
abbrev pub made {ℓ} : {A : Type ℓ} → Option ℕ → (ℕ → A) → Option A
made none item = none
made (some node) item = some (item node)

unfoldable pub pid_add : Option ℕ → ℕ → ℕ → ℕ → Loop → Loop × Bool
pid_add malloc pid fn user_data s =
    let (pids, added) =
      link (is_pid pid)
        (made malloc (λ node. record { node = node; pid = pid; fn = fn; user_data = user_data }))
        s.pids in
    (record s { pids = pids }, added)

unfoldable pub pid_remove : ℕ → Loop → Loop
pid_remove pid s = record s { pids = unlink (is_pid pid) s.pids }

unfoldable pub oddjob_watch_add : Option ℕ → ℕ → Flags → ℕ → ℕ → Loop → Loop × Bool
oddjob_watch_add malloc fd flags fn user_data s =
    let (watches, added) =
      link (on_fd fd)
        (made malloc (λ node. record {
          node = node;
          watch = watch_oddjob (record { fd = fd; flags = flags; fn = fn; user_data = user_data });
        }))
        s.watches in
    (record s { watches = watches }, added)

unfoldable pub oddjob_watch_remove : ℕ → Loop → Loop
oddjob_watch_remove fd s = record s { watches = unlink (on_fd fd) s.watches }

unfoldable pub watch_dbus_add : Option ℕ → ℕ → Loop → Loop × Bool
watch_dbus_add malloc d s =
    let (watches, added) =
      link (on_dwatch d) (made malloc (λ node. record { node = node; watch = watch_dbus d }))
        s.watches in
    (record s { watches = watches }, added)

unfoldable pub watch_dbus_remove : ℕ → Loop → Loop
watch_dbus_remove d s = record s { watches = unlink (on_dwatch d) s.watches }

-- `now` are the seconds of `gettimeofday`, none where it fails: then there is no call of `malloc`.
unfoldable pub timeout_dbus_add : Option ℕ → Option ℕ → ℕ → Loop → Loop × Bool
timeout_dbus_add malloc now t s =
    let new : Option TimeoutItem = elim now [
      | none ↦ none
      | some start ↦ made malloc (λ node. record { node = node; dtimeout = t; start = start })
    ] in
    let (timeouts, added) = link (is_timeout t) new s.timeouts in
    (record s { timeouts = timeouts }, added)

unfoldable pub timeout_dbus_remove : ℕ → Loop → Loop
timeout_dbus_remove t s = record s { timeouts = unlink (is_timeout t) s.timeouts }
