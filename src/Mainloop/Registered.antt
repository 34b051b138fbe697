-- ===== src/Mainloop/Registered.antt =====
-- What holds of the three lists however the functions on them are called.
use oddjob_gpupdate.Prelude.{
  ℕ, ◌≡◌, refl, ap, inl, inr, arith, Bool, true, false, List, [], ◌∷◌, Option, none, some, ◌==◌,
  Bool-cases,
}
use oddjob_gpupdate.Mainloop.Linked.{has, link, unlink, IsFree, AreDistinct}
use oddjob_gpupdate.Mainloop.Lists.{
  Flags, Watch, watch_dbus, watch_oddjob, WatchItem, TimeoutItem, PidItem, Loop, watch_node,
  timeout_node, pid_node, is_pid, is_fd, is_dwatch, on_fd, on_dwatch, is_timeout, pid_add,
  pid_remove, oddjob_watch_add, oddjob_watch_remove, watch_dbus_add, watch_dbus_remove,
  timeout_dbus_add, timeout_dbus_remove,
}

module _ {A : Type 0} where
  -- No item is related to one behind it.
  abbrev pub OneEach : (A → A → Bool) → List A → Type 0
  OneEach r [] = Unit
  OneEach r (x ∷ xs) = (has (r x) xs ≡ false) × OneEach r xs

  pub has-unlink :
      (same q : A → Bool) (xs : List A) → has q xs ≡ false → has q (unlink same xs) ≡ false
  unfolding has unlink
  has-unlink same q [] h = refl
  has-unlink same q (x ∷ xs) h = ground (arith, has-unlink same q xs)

  pub unlink-OneEach :
      (r : A → A → Bool) (same : A → Bool) (xs : List A) → OneEach r xs → OneEach r (unlink same xs)
  unfolding unlink
  unlink-OneEach r same [] h = tt
  unlink-OneEach r same (x ∷ xs) h = elim (Bool-cases (same x)) [
    | inl t ↦ rw t h.1
    | inr f ↦ rw f (has-unlink same (r x) xs h.0, unlink-OneEach r same xs h.1)
  ]

  -- Of an item, if there is one.
  abbrev pub IfNew : Option A → (A → Type 0) → Type 0
  IfNew none P = Unit
  IfNew (some x) P = P x

  -- A list that has got one more item, or none.
  pub link-OneEach :
      (r : A → A → Bool) (same : A → Bool) (new : Option A) (xs : List A)
      → IfNew new (λ x. has same xs ≡ false → has (r x) xs ≡ false)
      → OneEach r xs
      → OneEach r (link same new xs).0
  unfolding link
  link-OneEach r same none xs k h = elim (Bool-cases (has same xs)) [
    | inl t ↦ rw t h
    | inr f ↦ rw f h
  ]
  link-OneEach r same (some x) xs k h = elim (Bool-cases (has same xs)) [
    | inl t ↦ rw t h
    | inr f ↦ rw f (k f, h)
  ]

  -- Taking away what was added restores the list.
  pub unlink-link :
      (same : A → Bool) (x : A) (xs : List A)
      → same x ≡ true
      → has same xs ≡ false
      → unlink same (link same (some x) xs).0 ≡ xs
  unfolding link unlink
  unlink-link same x xs e f = rw (f, link) (rw e)

IsFree-has :
    {A : Type 0} (node : A → ℕ) (p : ℕ) (xs : List A)
    → has (λ y. node y == p) xs ≡ false
    → IsFree node p xs
unfolding has
IsFree-has node p [] h = tt
IsFree-has node p (x ∷ xs) h = (ground arith, IsFree-has node p xs (ground arith))

-- The nodes of a list are different, as the loops over it need them.
pub AreDistinct-nodes :
    {A : Type 0} (node : A → ℕ) (xs : List A)
    → OneEach (λ x y. node y == node x) xs
    → AreDistinct node xs
AreDistinct-nodes node [] h = tt
AreDistinct-nodes node (x ∷ xs) h = (IsFree-has node (node x) xs h.0, AreDistinct-nodes node xs h.1)

-- Two items for one watch.
abbrev pub same_as : Watch → Watch → Bool
same_as (watch_dbus d) v = is_dwatch d v
same_as (watch_oddjob o) v = is_fd o.fd v

abbrev pub same_watch : WatchItem → WatchItem → Bool
same_watch x y = same_as x.watch y.watch

abbrev pub same_timeout : TimeoutItem → TimeoutItem → Bool
same_timeout x y = is_timeout x.dtimeout y

abbrev pub same_pid : PidItem → PidItem → Bool
same_pid x y = is_pid x.pid y

-- Each watch, timeout and child process is there once, and each node is that of one item.
pub record IsRegistered (s : Loop) : Type 0 where
  pub watches_once : OneEach same_watch s.watches
  pub timeouts_once : OneEach same_timeout s.timeouts
  pub pids_once : OneEach same_pid s.pids
  pub watch_nodes : OneEach (λ x y. watch_node y == watch_node x) s.watches
  pub timeout_nodes : OneEach (λ x y. timeout_node y == timeout_node x) s.timeouts
  pub pid_nodes : OneEach (λ x y. pid_node y == pid_node x) s.pids

-- A node from `malloc` is that of no item.
abbrev pub IsNew : Option ℕ → Loop → Type 0
IsNew none s = Unit
IsNew (some p) s =
    (has (λ x. watch_node x == p) s.watches ≡ false)
    × (has (λ x. timeout_node x == p) s.timeouts ≡ false)
    × (has (λ x. pid_node x == p) s.pids ≡ false)

-- One call, by the daemon, by libdbus or by a callback.
pub data Step (s : Loop) : Loop → Type 0 where
  add_pid :
      (malloc : Option ℕ) (pid fn user_data : ℕ)
      → IsNew malloc s
      → Step s (pid_add malloc pid fn user_data s).0
  remove_pid : (pid : ℕ) → Step s (pid_remove pid s)
  add_fd :
      (malloc : Option ℕ) (fd : ℕ) (flags : Flags) (fn user_data : ℕ)
      → IsNew malloc s
      → Step s (oddjob_watch_add malloc fd flags fn user_data s).0
  remove_fd : (fd : ℕ) → Step s (oddjob_watch_remove fd s)
  add_watch : (malloc : Option ℕ) (d : ℕ) → IsNew malloc s → Step s (watch_dbus_add malloc d s).0
  remove_watch : (d : ℕ) → Step s (watch_dbus_remove d s)
  add_timeout :
      (malloc now : Option ℕ) (t : ℕ) → IsNew malloc s → Step s (timeout_dbus_add malloc now t s).0
  remove_timeout : (t : ℕ) → Step s (timeout_dbus_remove t s)

pub data Reach (s : Loop) : Loop → Type 0 where
  here : Reach s s
  next : {t u : Loop} → Reach s t → Step t u → Reach s u

abbrev pub at_start : Loop
at_start = record { watches = []; timeouts = []; pids = [] }

watches-IsRegistered :
    (s : Loop) (l : List WatchItem)
    → IsRegistered s
    → OneEach same_watch l
    → OneEach (λ x y. watch_node y == watch_node x) l
    → IsRegistered (record s { watches = l })
watches-IsRegistered s l h o n = record {
  watches_once = o;
  watch_nodes = n;
  timeouts_once = h.timeouts_once;
  timeout_nodes = h.timeout_nodes;
  pids_once = h.pids_once;
  pid_nodes = h.pid_nodes;
}

timeouts-IsRegistered :
    (s : Loop) (l : List TimeoutItem)
    → IsRegistered s
    → OneEach same_timeout l
    → OneEach (λ x y. timeout_node y == timeout_node x) l
    → IsRegistered (record s { timeouts = l })
timeouts-IsRegistered s l h o n = record {
  watches_once = h.watches_once;
  watch_nodes = h.watch_nodes;
  timeouts_once = o;
  timeout_nodes = n;
  pids_once = h.pids_once;
  pid_nodes = h.pid_nodes;
}

pids-IsRegistered :
    (s : Loop) (l : List PidItem)
    → IsRegistered s
    → OneEach same_pid l
    → OneEach (λ x y. pid_node y == pid_node x) l
    → IsRegistered (record s { pids = l })
pids-IsRegistered s l h o n = record {
  watches_once = h.watches_once;
  watch_nodes = h.watch_nodes;
  timeouts_once = h.timeouts_once;
  timeout_nodes = h.timeout_nodes;
  pids_once = o;
  pid_nodes = n;
}

pub Step-IsRegistered : {s t : Loop} → Step s t → IsRegistered s → IsRegistered t
unfolding pid_add pid_remove oddjob_watch_add oddjob_watch_remove watch_dbus_add watch_dbus_remove
    timeout_dbus_add timeout_dbus_remove
Step-IsRegistered {s} (add_pid none pid fn user_data n) h =
    pids-IsRegistered s _ h (link-OneEach same_pid (is_pid pid) none s.pids tt h.pids_once)
      (link-OneEach _ (is_pid pid) none s.pids tt h.pid_nodes)
Step-IsRegistered {s} (add_pid (some p) pid fn user_data n) h =
    pids-IsRegistered s _ h
      (link-OneEach same_pid (is_pid pid) (some _) s.pids (λ e. e) h.pids_once)
      (link-OneEach _ (is_pid pid) (some _) s.pids (λ e. n.2) h.pid_nodes)
Step-IsRegistered {s} (remove_pid pid) h =
    pids-IsRegistered s _ h (unlink-OneEach same_pid (is_pid pid) s.pids h.pids_once)
      (unlink-OneEach _ (is_pid pid) s.pids h.pid_nodes)
Step-IsRegistered {s} (add_fd none fd flags fn user_data n) h =
    watches-IsRegistered s _ h (link-OneEach same_watch (on_fd fd) none s.watches tt h.watches_once)
      (link-OneEach _ (on_fd fd) none s.watches tt h.watch_nodes)
Step-IsRegistered {s} (add_fd (some p) fd flags fn user_data n) h =
    watches-IsRegistered s _ h
      (link-OneEach same_watch (on_fd fd) (some _) s.watches (λ e. e) h.watches_once)
      (link-OneEach _ (on_fd fd) (some _) s.watches (λ e. n.0) h.watch_nodes)
Step-IsRegistered {s} (remove_fd fd) h =
    watches-IsRegistered s _ h (unlink-OneEach same_watch (on_fd fd) s.watches h.watches_once)
      (unlink-OneEach _ (on_fd fd) s.watches h.watch_nodes)
Step-IsRegistered {s} (add_watch none d n) h =
    watches-IsRegistered s _ h
      (link-OneEach same_watch (on_dwatch d) none s.watches tt h.watches_once)
      (link-OneEach _ (on_dwatch d) none s.watches tt h.watch_nodes)
Step-IsRegistered {s} (add_watch (some p) d n) h =
    watches-IsRegistered s _ h
      (link-OneEach same_watch (on_dwatch d) (some _) s.watches (λ e. e) h.watches_once)
      (link-OneEach _ (on_dwatch d) (some _) s.watches (λ e. n.0) h.watch_nodes)
Step-IsRegistered {s} (remove_watch d) h =
    watches-IsRegistered s _ h (unlink-OneEach same_watch (on_dwatch d) s.watches h.watches_once)
      (unlink-OneEach _ (on_dwatch d) s.watches h.watch_nodes)
Step-IsRegistered {s} (add_timeout malloc none t n) h =
    timeouts-IsRegistered s _ h
      (link-OneEach same_timeout (is_timeout t) none s.timeouts tt h.timeouts_once)
      (link-OneEach _ (is_timeout t) none s.timeouts tt h.timeout_nodes)
Step-IsRegistered {s} (add_timeout none (some t0) t n) h =
    timeouts-IsRegistered s _ h
      (link-OneEach same_timeout (is_timeout t) none s.timeouts tt h.timeouts_once)
      (link-OneEach _ (is_timeout t) none s.timeouts tt h.timeout_nodes)
Step-IsRegistered {s} (add_timeout (some p) (some t0) t n) h =
    timeouts-IsRegistered s _ h
      (link-OneEach same_timeout (is_timeout t) (some _) s.timeouts (λ e. e) h.timeouts_once)
      (link-OneEach _ (is_timeout t) (some _) s.timeouts (λ e. n.1) h.timeout_nodes)
Step-IsRegistered {s} (remove_timeout t) h =
    timeouts-IsRegistered s _ h
      (unlink-OneEach same_timeout (is_timeout t) s.timeouts h.timeouts_once)
      (unlink-OneEach _ (is_timeout t) s.timeouts h.timeout_nodes)

-- Whatever additions and removals of watches, timeouts and child processes are made from the
-- empty lists, with or without memory and time, where each malloc gives a node that is in none
-- of the lists: no two items of a list are for the same descriptor, D-Bus watch, D-Bus timeout
-- or process, and no two are the same node.
pub Reach-IsRegistered : {t : Loop} → Reach at_start t → IsRegistered t
Reach-IsRegistered here = record {
  watches_once = tt;
  timeouts_once = tt;
  pids_once = tt;
  watch_nodes = tt;
  timeout_nodes = tt;
  pid_nodes = tt;
}
Reach-IsRegistered (next r st) = Step-IsRegistered st (Reach-IsRegistered r)

-- Where there is memory, and time for a timeout, the removal of a child process, a watch of the
-- daemon, a D-Bus watch or a D-Bus timeout behind its addition restores the lists, if there was
-- no item for it before.
pub remove-add :
    (node key fn user_data now : ℕ) (flags : Flags) (s : Loop)
    → has (is_pid key) s.pids ≡ false
    → has (on_fd key) s.watches ≡ false
    → has (on_dwatch key) s.watches ≡ false
    → has (is_timeout key) s.timeouts ≡ false
    → (pid_remove key (pid_add (some node) key fn user_data s).0 ≡ s)
      × (oddjob_watch_remove key (oddjob_watch_add (some node) key flags fn user_data s).0 ≡ s)
      × (watch_dbus_remove key (watch_dbus_add (some node) key s).0 ≡ s)
      × (timeout_dbus_remove key (timeout_dbus_add (some node) (some now) key s).0 ≡ s)
unfolding pid_add pid_remove oddjob_watch_add oddjob_watch_remove watch_dbus_add watch_dbus_remove
    timeout_dbus_add timeout_dbus_remove
remove-add node key fn user_data now flags s a b c d =
    let self : (key == key) ≡ true = ground arith in
    (
      ap (λ l. record s { pids = l }) (unlink-link (is_pid key) _ s.pids self a),
      ap (λ l. record s { watches = l }) (unlink-link (on_fd key) _ s.watches self b),
      ap (λ l. record s { watches = l }) (unlink-link (on_dwatch key) _ s.watches self c),
      ap (λ l. record s { timeouts = l }) (unlink-link (is_timeout key) _ s.timeouts self d),
    )
