-- ===== src/Mainloop/Expired.antt =====
-- A timeout that has expired, and what `select` makes of it.
use oddjob_gpupdate.Prelude.{
  ℕ, ◌+◌, ◌-◌, ◌*◌, ◌%◌, ◌^◌, ◌≤◌, ◌<◌, ◌≡◌, refl, sym, subst, ◌∙◌, ap, inl, inr, arith, Bool, true,
  false, ◌||◌, List, [], ◌∷◌, Option, none, some, ltb, if◌then◌else◌, Bool-cases, length, ok,
  Returns, Returns-ok, Returns-bind, Returns-then, ℤ, pos, negsuc, ltz, sub_ℕ, of_bits, to_int,
}
use oddjob_gpupdate.Mainloop.Lists.{TimeoutItem, Loop}
use oddjob_gpupdate.Mainloop.Time.{
  Timeval, timeval_of, current_interval, this_interval, IsInt, to_int_lem,
  current_interval-timeval_of,
}
use oddjob_gpupdate.Mainloop.Prepare.{
  DbusTimeout, Sets, no_sets, prepare_watches, Until, start_until, shorten, prepare_timeouts,
}
use oddjob_gpupdate.Mainloop.Prepared.{AllInRange, prepare_watches-Prepares}
use oddjob_gpupdate.Mainloop.Handle.{World, Selected, failed, prepare, mainloop_iterate}

abbrev pub is_negative : ℤ → Bool
is_negative (pos n) = false
is_negative (negsuc n) = true

-- `select` refuses a negative time (EINVAL).
abbrev pub RefusesNegative : (ℕ → Sets → Option Timeval → Selected) → Type 0
RefusesNegative select =
    (nfds : ℕ) (sets : Sets) (tv : Timeval)
    → (is_negative tv.tv_sec || is_negative tv.tv_usec) ≡ true
    → select nfds sets (some tv) ≡ failed

of_bits-IsInt : (n : ℕ) → n < 2 ^ 32 → IsInt (of_bits n)
of_bits-IsInt n h = elim (Bool-cases (ltb n (2 ^ 31))) [
  | inl t ↦ rw t (ground arith)
  | inr f ↦ rw f (ground arith)
]

to_int-IsInt : (i : ℤ) → IsInt (to_int i)
to_int-IsInt (pos n) = of_bits-IsInt (n % 2 ^ 32) (omega arith)
to_int-IsInt (negsuc n) = of_bits-IsInt (2 ^ 32 - 1 - n % 2 ^ 32) (omega arith)

timeval_of-negative :
    (n : ℕ)
    → (is_negative (timeval_of (negsuc n)).tv_sec || is_negative (timeval_of (negsuc n)).tv_usec)
      ≡ true
unfolding timeval_of
timeval_of-negative n = ground arith

-- A timeout has been waited for too long, by less than 2^31 milliseconds.
abbrev pub IsOverdue : ℕ → ℕ → ℕ → Type 0
IsOverdue interval start now =
    (interval + 1000 * start < 1000 * now) × (1000 * now ≤ interval + 1000 * start + 2 ^ 31)

this_interval-IsOverdue :
    (interval start now : ℕ)
    → IsOverdue interval start now
    → (n : ℕ) × (this_interval interval start now ≡ negsuc n) × (n < 2 ^ 31)
unfolding this_interval
this_interval-IsOverdue interval start now (h, k) =
    let n = 1000 * now - (interval + 1000 * start) - 1 in
    let e : sub_ℕ (interval + 1000 * start) (1000 * now) ≡ negsuc n = ground arith in
    (n, ap to_int e ∙ to_int_lem (negsuc n) (omega arith), omega arith)

this_interval-IsInt : (interval start now : ℕ) → IsInt (this_interval interval start now)
unfolding this_interval
this_interval-IsInt interval start now = to_int-IsInt (sub_ℕ (interval + 1000 * start) (1000 * now))

-- The time for `select` is negative by now.
record Late (u : Until) : Type 0 where
  by : ℕ
  used : u.use_tv ≡ true
  tv : u.tv ≡ timeval_of (negsuc by)
  small : by < 2 ^ 31
  at : ℕ
  now : u.now ≡ some at

less-negative : (i : ℤ) (n : ℕ) → ltz i (negsuc n) ≡ true → (m : ℕ) × (i ≡ negsuc m)
less-negative (pos i) n h = cc
less-negative (negsuc m) n h = (m, refl)

module _ (dbus_timeout : ℕ → DbusTimeout) where
  -- Whatever timeouts follow, it stays so.
  shorten-Late :
      (t : TimeoutItem) (u : Until) → Late u → Returns Late (shorten dbus_timeout false t u)
  unfolding shorten
  shorten-Late t u l = elim (Bool-cases (dbus_timeout t.dtimeout).enabled) [
    | inr f ↦ rw f l
    | inl e ↦
        let left = this_interval (dbus_timeout t.dtimeout).interval t.start l.at in
        let before : current_interval u.tv ≡ negsuc l.by =
          ap current_interval l.tv ∙ current_interval-timeval_of (negsuc l.by) l.small in
        (elim (Bool-cases (ltz left (negsuc l.by))) [
          | inl s ↦
              let (m, p) = less-negative left l.by s in
              rw (e, l.now, before, s)
                (record {
                  by = m;
                  used = l.used;
                  tv = ap timeval_of p;
                  small =
                      subst IsInt p
                        (this_interval-IsInt (dbus_timeout t.dtimeout).interval t.start l.at);
                  at = l.at;
                  now = refl;
                })
          | inr s ↦
              rw (e, l.now, before, s)
                (record {
                  by = l.by;
                  used = l.used;
                  tv = l.tv;
                  small = l.small;
                  at = l.at;
                  now = refl;
                })
        ])
  ]

  shorten_first :
      (t : TimeoutItem) (u : Until) (now : ℕ)
      → (dbus_timeout t.dtimeout).enabled ≡ true
      → u.use_tv ≡ true
      → u.now ≡ some now
      → IsOverdue (dbus_timeout t.dtimeout).interval t.start now
      → Returns Late (shorten dbus_timeout true t u)
  unfolding shorten
  shorten_first t u now e f g o =
      let (n, p, small) =
        this_interval-IsOverdue (dbus_timeout t.dtimeout).interval t.start now o in
      rw (e, g)
        (record { by = n; used = f; tv = ap timeval_of p; small = small; at = now; now = refl })

  prepare_timeouts-Late :
      (clock : List (Option ℕ)) (ts : List TimeoutItem) (u : Until)
      → length ts ≤ length clock
      → Late u
      → Returns Late (prepare_timeouts dbus_timeout clock false ts u)
  unfolding prepare_timeouts
  prepare_timeouts-Late clock [] u n l = l
  prepare_timeouts-Late [] (t ∷ ts) u n l = absurd (omega arith)
  prepare_timeouts-Late (none ∷ clock) (t ∷ ts) u n l = Returns-then Late u.use_tv _ (ok u) l.used (
      Returns-bind Late Late (shorten dbus_timeout false t u) _ (shorten-Late t u l)
        (λ v k. prepare_timeouts-Late clock ts v (omega arith) k))
  prepare_timeouts-Late (some now ∷ clock) (t ∷ ts) u n l =
      let v : Until = record u { use_tv = true; now = some now } in
      Returns-bind Late Late (shorten dbus_timeout false t v) _
        (shorten-Late t v
          (record { by = l.by; used = refl; tv = l.tv; small = l.small; at = now; now = refl }))
        (λ v k. prepare_timeouts-Late clock ts v (omega arith) k)

-- The first timeout is one that is overdue at this time.
pub record StartsOverdue (w : World) (now : ℕ) (ts : List TimeoutItem) : Type 0 where
  pub timeout : TimeoutItem
  pub others : List TimeoutItem
  pub starts : ts ≡ timeout ∷ others
  pub enabled : (w.dbus_timeout timeout.dtimeout).enabled ≡ true
  pub overdue : IsOverdue (w.dbus_timeout timeout.dtimeout).interval timeout.start now

module _ (w : World) (select : ℕ → Sets → Option Timeval → Selected)
    (refuses : RefusesNegative select) (loop : Loop) (now : ℕ) (clock : List (Option ℕ)) where
  timeouts-Late :
      (u : Until)
      → StartsOverdue w now loop.timeouts
      → length loop.timeouts ≤ length clock + 1
      → Returns Late (prepare_timeouts w.dbus_timeout (some now ∷ clock) true loop.timeouts u)
  unfolding prepare_timeouts
  timeouts-Late u d n =
      let v : Until = record u { use_tv = true; now = some now } in
      subst (λ ts. Returns Late (prepare_timeouts w.dbus_timeout (some now ∷ clock) true ts u))
        (sym d.starts)
        (Returns-bind Late Late (shorten w.dbus_timeout true d.timeout v) _
          (shorten_first w.dbus_timeout d.timeout v now d.enabled refl refl d.overdue)
          (λ z k.
            prepare_timeouts-Late w.dbus_timeout clock d.others z
              (omega (arith, ap (length {A = TimeoutItem}) d.starts)) k))

  prepare_lem :
      (given : List (Option ℕ)) (sets : Sets) (u : Until)
      → prepare_watches w.dbus_watch loop.watches no_sets ≡ ok sets
      → prepare_timeouts w.dbus_timeout given true loop.timeouts (start_until loop.pids) ≡ ok u
      → u.use_tv ≡ true
      → prepare w select given loop ≡ ok (sets, some u.tv)
  unfolding prepare
  prepare_lem given sets u e f t =
      rw e (rw f (ap (λ b. ok (sets, (if b then some u.tv else none))) t))

  mainloop_iterate-failed :
      (given : List (Option ℕ)) (sets : Sets) (tv : Option Timeval)
      → prepare w select given loop ≡ ok (sets, tv)
      → select sets.nfds sets tv ≡ failed
      → mainloop_iterate w select given loop ≡ ok (negsuc 0, loop, [])
  unfolding mainloop_iterate
  mainloop_iterate-failed given sets tv e f = rw e (rw f)

  -- With a select that refuses a negative time, a descriptor below 1024 for each watch of the
  -- daemon and each enabled D-Bus watch, an answer of the clock for each timeout, and a first
  -- timeout that is enabled and whose interval had passed, by at most 2^31 milliseconds, at the
  -- first of these answers, mainloop_iterate returns -1, calls nothing, and leaves the lists as
  -- they are.
  pub mainloop_iterate-StartsOverdue :
      AllInRange w.dbus_watch loop.watches
      → StartsOverdue w now loop.timeouts
      → length loop.timeouts ≤ length clock + 1
      → mainloop_iterate w select (some now ∷ clock) loop ≡ ok (negsuc 0, loop, [])
  mainloop_iterate-StartsOverdue r d n =
      let (sets, e, _) =
        Returns-ok _ (prepare_watches w.dbus_watch loop.watches no_sets)
          (prepare_watches-Prepares w.dbus_watch loop.watches no_sets r) in
      let (u, f, l) = Returns-ok Late _ (timeouts-Late (start_until loop.pids) d n) in
      let refused : select sets.nfds sets (some u.tv) ≡ failed = refuses sets.nfds sets u.tv (
        ap (λ tv. is_negative tv.tv_sec || is_negative tv.tv_usec) l.tv
        ∙ timeval_of-negative l.by) in
      mainloop_iterate-failed (some now ∷ clock) sets (some u.tv)
        (prepare_lem (some now ∷ clock) sets u e f l.used) refused
