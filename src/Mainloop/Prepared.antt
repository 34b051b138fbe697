-- ===== src/Mainloop/Prepared.antt =====
-- What the descriptor sets hold when `prepare` has gone through the watches.
use oddjob_gpupdate.Prelude.{
  ℕ, ◌≤◌, ◌<◌, ◌≡◌, refl, inl, inr, arith, Bool, true, false, ◌&&◌, ◌||◌, List, [], ◌∷◌, none, some,
  ltb, lt→ltb, ◌==◌, if◌then◌else◌, Bool-cases, ok, Returns, Returns-bind, Returns-map,
}
use oddjob_gpupdate.Mainloop.Lists.{Flags, Watch, watch_dbus, watch_oddjob, WatchItem}
use oddjob_gpupdate.Mainloop.Prepare.{
  DbusWatch, Sets, is_set, raise, want, wants_any, want_item, prepare_watches,
}

abbrev pub wants_read : Flags → Bool
wants_read f = f.readable || f.hangup

abbrev pub wants_write : Flags → Bool
wants_write f = f.writable

abbrev pub wants_error : Flags → Bool
wants_error f = f.error

module _ (dbus_watch : ℕ → DbusWatch) where
  -- Whether a watch asks for this descriptor in one of the sets.
  abbrev pub asks : (Flags → Bool) → ℕ → Watch → Bool
  asks sel fd (watch_oddjob o) = sel o.flags && o.fd == fd
  asks sel fd (watch_dbus d) =
      (dbus_watch d).enabled
      && (elim (dbus_watch d).fd [ none ↦ false | some e ↦ sel (dbus_watch d).flags && e == fd ])

  abbrev pub any_asks : (Flags → Bool) → ℕ → List WatchItem → Bool
  any_asks sel fd [] = false
  any_asks sel fd (x ∷ xs) = asks sel fd x.watch || any_asks sel fd xs

  -- The descriptor is one that fits an `fd_set`.
  abbrev pub InRange : Watch → Type 0
  InRange (watch_oddjob o) = o.fd < 1024
  InRange (watch_dbus d) =
      (dbus_watch d).enabled ≡ true → (fd : ℕ) × ((dbus_watch d).fd ≡ some fd) × (fd < 1024)

  abbrev pub AllInRange : List WatchItem → Type 0
  AllInRange [] = Unit
  AllInRange (x ∷ xs) = InRange x.watch × AllInRange xs

  -- What has been put into the sets, and the number of descriptors that covers them.
  pub record Adds (asked : (Flags → Bool) → ℕ → Bool) (s t : Sets) : Type 0 where
    pub reads : (fd : ℕ) → is_set fd t.rfds ≡ (is_set fd s.rfds || asked wants_read fd)
    pub writes : (fd : ℕ) → is_set fd t.wfds ≡ (is_set fd s.wfds || asked wants_write fd)
    pub errors : (fd : ℕ) → is_set fd t.efds ≡ (is_set fd s.efds || asked wants_error fd)

  -- All descriptors of the sets are below `nfds`.
  pub record Covers (s : Sets) : Type 0 where
    pub reads_below : (fd : ℕ) → is_set fd s.rfds ≡ true → fd < s.nfds
    pub writes_below : (fd : ℕ) → is_set fd s.wfds ≡ true → fd < s.nfds
    pub errors_below : (fd : ℕ) → is_set fd s.efds ≡ true → fd < s.nfds
    pub within : s.nfds ≤ 1024

  -- The sets behind the three tests, for a descriptor that fits them.
  abbrev wanted : ℕ → Flags → Sets → Sets
  wanted fd f s = record {
    nfds = if wants_any f then raise s.nfds fd else s.nfds;
    rfds = if wants_read f then fd ∷ s.rfds else s.rfds;
    wfds = if wants_write f then fd ∷ s.wfds else s.wfds;
    efds = if wants_error f then fd ∷ s.efds else s.efds;
  }

  want_lem : (fd : ℕ) (f : Flags) (s : Sets) → fd < 1024 → want fd f s ≡ ok (wanted fd f s)
  unfolding want
  want_lem fd f s h = let e : ltb fd 1024 ≡ true = lt→ltb _ _ h in ground arith

  is_set-if :
      (b : Bool) (fd e : ℕ) (set : List ℕ)
      → is_set e (if b then fd ∷ set else set) ≡ (is_set e set || (b && fd == e))
  is_set-if b fd e set = ground arith

  wanted-Adds : (fd : ℕ) (f : Flags) (s : Sets) → Adds (λ sel e. sel f && fd == e) s (wanted fd f s)
  wanted-Adds fd f s = record {
    reads = λ e. is_set-if (wants_read f) fd e s.rfds;
    writes = λ e. is_set-if (wants_write f) fd e s.wfds;
    errors = λ e. is_set-if (wants_error f) fd e s.efds;
  }

  below-if :
      (b c : Bool) (fd e n : ℕ) (set : List ℕ)
      → (c ≡ true → b ≡ true)
      → (is_set e set ≡ true → e < n)
      → is_set e (if c then fd ∷ set else set) ≡ true
      → e < (if b then raise n fd else n)
  below-if b c fd e n set i h k = ground arith

  wanted-Covers : (fd : ℕ) (f : Flags) (s : Sets) → fd < 1024 → Covers s → Covers (wanted fd f s)
  wanted-Covers fd f s h c = record {
    reads_below = λ e.
        below-if (wants_any f) (wants_read f) fd e s.nfds s.rfds (λ t. ground arith)
          (c.reads_below e);
    writes_below = λ e.
        below-if (wants_any f) (wants_write f) fd e s.nfds s.wfds (λ t. ground arith)
          (c.writes_below e);
    errors_below = λ e.
        below-if (wants_any f) (wants_error f) fd e s.nfds s.efds (λ t. ground arith)
          (c.errors_below e);
    within = let w = c.within in ground arith;
  }

  -- Both, for one watch or for several.
  abbrev pub Prepares : ((Flags → Bool) → ℕ → Bool) → Sets → Sets → Type 0
  Prepares asked s t = Adds asked s t × (Covers s → Covers t)

  nothing-Prepares :
      (asked : (Flags → Bool) → ℕ → Bool) (s : Sets)
      → ((sel : Flags → Bool) (fd : ℕ) → asked sel fd ≡ false)
      → Prepares asked s s
  nothing-Prepares asked s h = (
    record {
      reads = λ fd. let e = h wants_read fd in ground arith;
      writes = λ fd. let e = h wants_write fd in ground arith;
      errors = λ fd. let e = h wants_error fd in ground arith;
    },
    λ c. c,
  )

  want_item-Prepares :
      (x : Watch) (s : Sets)
      → InRange x
      → Returns (Prepares (λ sel fd. asks sel fd x) s) (want_item dbus_watch x s)
  unfolding want_item
  want_item-Prepares (watch_oddjob o) s h =
      rw (want_lem o.fd o.flags s h) (wanted-Adds o.fd o.flags s, wanted-Covers o.fd o.flags s h)
  want_item-Prepares (watch_dbus d) s h = elim (Bool-cases (dbus_watch d).enabled) [
    | inl t ↦
        let (fd, e, k) = h t in
        rw (t, e, want_item)
          (rw (want_lem fd (dbus_watch d).flags s k)
            (wanted-Adds fd (dbus_watch d).flags s, wanted-Covers fd (dbus_watch d).flags s k))
    | inr f ↦ rw (f, want_item) (nothing-Prepares _ s (λ sel fd. refl))
  ]

  Prepares-then :
      (a b : (Flags → Bool) → ℕ → Bool) (s t u : Sets)
      → Prepares a s t
      → Prepares b t u
      → Prepares (λ sel fd. a sel fd || b sel fd) s u
  Prepares-then a b s t u (p, k) (q, l) = (
    record {
      reads = λ fd. let e = p.reads fd in let f = q.reads fd in ground arith;
      writes = λ fd. let e = p.writes fd in let f = q.writes fd in ground arith;
      errors = λ fd. let e = p.errors fd in let f = q.errors fd in ground arith;
    },
    λ c. l (k c),
  )

  -- Where each watch of the daemon and each enabled D-Bus watch has a descriptor below 1024, the
  -- loop of prepare over the watches returns, with no access outside the descriptor sets; a
  -- descriptor is in a set afterwards exactly if it was before or an enabled watch of the list
  -- asks for it, for reading also if the watch waits for a hangup; and where all descriptors of
  -- the sets were below the number that select is given, which was at most 1024, they are so
  -- afterwards.
  pub prepare_watches-Prepares :
      (xs : List WatchItem) (s : Sets)
      → AllInRange xs
      → Returns (Prepares (λ sel fd. any_asks sel fd xs) s) (prepare_watches dbus_watch xs s)
  unfolding prepare_watches
  prepare_watches-Prepares [] s h = nothing-Prepares _ s (λ sel fd. refl)
  prepare_watches-Prepares (x ∷ xs) s h =
      Returns-bind (Prepares (λ sel fd. asks sel fd x.watch) s) _ (want_item dbus_watch x.watch s)
        (λ t. prepare_watches dbus_watch xs t) (want_item-Prepares x.watch s h.0)
        (λ t p.
          Returns-map (Prepares (λ sel fd. any_asks sel fd xs) t)
            (Prepares (λ sel fd. any_asks sel fd (x ∷ xs)) s) (prepare_watches dbus_watch xs t)
            (prepare_watches-Prepares xs t h.1) (λ u q. Prepares-then _ _ s t u p q))
