-- ===== src/Mainloop/Visited.antt =====
-- Which watches the first loop of `handle` serves.
use oddjob_gpupdate.Prelude.{
  ℕ, ◌+◌, ◌≤◌, ◌<◌, lt→ltb, ◌≡◌, refl, sym, ◌∙◌, ap, subst, inl, inr, arith, true, false, List, [],
  ◌∷◌, ◌++◌, Option, none, some, ◌==◌, if◌then◌else◌, Bool-cases, length, length-append,
  store_within, splice-middle, ok, Returns, Returns-map,
}
use mathlib.Core.List.{append-nil, append_assoc}
use oddjob_gpupdate.Util.Memory.{Ample}
use oddjob_gpupdate.Util.Resize.{resize_array-grow}
use oddjob_gpupdate.Mainloop.Linked.{
  has, Stands, Stands-self, Stands-next, at-Stands, unlink-Stands, walk-Returns,
}
use oddjob_gpupdate.Mainloop.Lists.{
  Flags, OddjobWatch, Watch, watch_dbus, watch_oddjob, WatchItem, Loop, watch_node, is_fd, on_fd,
  is_dwatch, oddjob_watch_remove,
}
use oddjob_gpupdate.Mainloop.Registered.{
  OneEach, same_as, same_watch, IsRegistered, AreDistinct-nodes,
}
use oddjob_gpupdate.Mainloop.Prepare.{Sets, is_set}
use oddjob_gpupdate.Mainloop.Prepared.{InRange, AllInRange}
use oddjob_gpupdate.Mainloop.Handle.{
  World, Called, watch_called, Dwatch, Handling, ready, any_flag, null_dwatch, add_ready,
  call_watch, visit_watch, handle_watches,
}
use oddjob_gpupdate.Mainloop.Entries.{NotIn, Unmet, Unmet-snoc, Unmet-nil, merge_ready-none}

-- What the descriptor sets say of a descriptor.
abbrev pub reported : ℕ → Sets → Flags
reported fd sets = record {
  readable = is_set fd sets.rfds;
  writable = is_set fd sets.wfds;
  error = is_set fd sets.efds;
  hangup = false;
}

ready-reported : (fd : ℕ) (sets : Sets) → fd < 1024 → ready fd sets ≡ ok (reported fd sets)
unfolding ready
ready-reported fd sets h = rw (lt→ltb fd 1024 h) refl

module _ (w : World) (sets : Sets) where
  -- The calls that a watch of the daemon's own gets, and the entry that a D-Bus watch gets.
  abbrev pub calls_for : Watch → List Called
  calls_for (watch_dbus d) = []
  calls_for (watch_oddjob o) =
      if any_flag (reported o.fd sets) then watch_called o (reported o.fd sets) ∷ [] else []

  abbrev entry : ℕ → Option ℕ → List Dwatch
  entry d none = []
  entry d (some fd) =
      if any_flag (reported fd sets)
      then record { watch = d; flags = reported fd sets } ∷ []
      else []

  abbrev pub dwatches_for : Watch → List Dwatch
  dwatches_for (watch_oddjob o) = []
  dwatches_for (watch_dbus d) = if (w.dbus_watch d).enabled then entry d (w.dbus_watch d).fd else []

  abbrev pub all_calls : List WatchItem → List Called
  all_calls [] = []
  all_calls (x ∷ xs) = calls_for x.watch ++ all_calls xs

  abbrev pub all_dwatches : List WatchItem → List Dwatch
  all_dwatches [] = []
  all_dwatches (x ∷ xs) = dwatches_for x.watch ++ all_dwatches xs

  -- A watch's function may add watches, and take out those that the loop has passed, its own
  -- included, but not if it asks for that by its result.
  pub record Spares : Type 0 where
    pub spares :
        (x : WatchItem) (o : OddjobWatch) (rest : List WatchItem) (s : Loop)
        → x.watch ≡ watch_oddjob o
        → Stands watch_node (x ∷ rest) s.watches
        → Stands watch_node rest (w.watch_fn o (reported o.fd sets) s).0.watches
    pub stays :
        (x : WatchItem) (o : OddjobWatch) (rest : List WatchItem) (s : Loop)
        → x.watch ≡ watch_oddjob o
        → (w.watch_fn o (reported o.fd sets) s).1 ≡ true
        → Stands watch_node (x ∷ rest) s.watches
        → Stands watch_node (x ∷ rest) (w.watch_fn o (reported o.fd sets) s).0.watches

  call_watch-Stands :
      Spares
      → (x : WatchItem) (o : OddjobWatch) (rest : List WatchItem) (s : Handling)
      → x.watch ≡ watch_oddjob o
      → Stands watch_node (x ∷ rest) s.loop.watches
      → Returns
          (λ t.
            Stands watch_node rest t.loop.watches
            × (t.calls ≡ s.calls ++ watch_called o (reported o.fd sets) ∷ [])
            × (t.dwatches ≡ s.dwatches))
          (call_watch w x.node o (reported o.fd sets) s)
  unfolding call_watch oddjob_watch_remove
  call_watch-Stands h x o rest s e st =
      elim (Bool-cases (w.watch_fn o (reported o.fd sets) s.loop).1) [
        | inl t ↦
            let here = h.stays x o rest s.loop e t st in
            let on : on_fd o.fd x ≡ true =
              ap (is_fd o.fd) e ∙ (let self : (o.fd == o.fd) ≡ true = ground arith in self) in
            rw (t, at-Stands watch_node x rest _ here, call_watch)
              (unlink-Stands watch_node (on_fd o.fd) x rest _ on here, refl, refl)
        | inr f ↦ rw (f, call_watch) (h.spares x o rest s.loop e st, refl, refl)
      ]

  module _ (ample : Ample w.fits) where
    add_ready-new :
        (d : ℕ) (flags : Flags) (ds : List Dwatch)
        → has (λ y. y.watch == d) ds ≡ false
        → length ds + 1 ≤ 0xffff
        → add_ready w d flags ds ≡ ok (ds ++ record { watch = d; flags = flags } ∷ [])
    unfolding add_ready
    add_ready-new d flags ds h n =
        rw (merge_ready-none w d flags ds h, add_ready)
          (rw (resize_array-grow w.fits null_dwatch ample ds 16 (omega arith) (omega arith) n) (
            store_within (ds ++ null_dwatch ∷ []) (length ds) _
              (omega (arith, length-append ds (null_dwatch ∷ [])))
            ∙ ap ok (splice-middle ds [] null_dwatch _)))

    module _ (spares : Spares) (calls : List Called) (dwatches : List Dwatch) where
      -- In front of the watches that are left.
      record Halfway (rest : List WatchItem) (s : Handling) : Type 0 where
        stands : Stands watch_node rest s.loop.watches
        once : OneEach same_watch rest
        fds : AllInRange w.dbus_watch rest
        unmet : Unmet rest s.dwatches
        room : length s.dwatches + length rest ≤ 0xffff
        called : s.calls ++ all_calls rest ≡ calls
        entered : s.dwatches ++ all_dwatches rest ≡ dwatches

      -- Past a watch, with these calls and entries for it.
      past :
          (x : WatchItem) (rest : List WatchItem) (s t : Handling) (cs : List Called)
          (ds : List Dwatch)
          → Halfway (x ∷ rest) s
          → calls_for x.watch ≡ cs
          → dwatches_for x.watch ≡ ds
          → Stands watch_node rest t.loop.watches
          → t.calls ≡ s.calls ++ cs
          → t.dwatches ≡ s.dwatches ++ ds
          → length ds ≤ 1
          → Unmet rest t.dwatches
          → Halfway rest t
      past x rest s t cs ds h c d st e f n u = record {
        stands = st;
        once = h.once.1;
        fds = h.fds.1;
        unmet = u;
        room =
            let r = h.room in
            omega (arith, ap (length {A = Dwatch}) f, length-append s.dwatches ds);
        called =
            ap (λ l. l ++ all_calls rest) e
            ∙ append_assoc s.calls cs (all_calls rest)
            ∙ ap (λ l. s.calls ++ (l ++ all_calls rest)) (sym c)
            ∙ h.called;
        entered =
            ap (λ l. l ++ all_dwatches rest) f
            ∙ append_assoc s.dwatches ds (all_dwatches rest)
            ∙ ap (λ l. s.dwatches ++ (l ++ all_dwatches rest)) (sym d)
            ∙ h.entered;
      }

      -- A watch with nothing to do.
      passed :
          (x : WatchItem) (rest : List WatchItem) (s t : Handling)
          → Halfway (x ∷ rest) s
          → calls_for x.watch ≡ []
          → dwatches_for x.watch ≡ []
          → t.loop ≡ s.loop
          → t.calls ≡ s.calls
          → t.dwatches ≡ s.dwatches
          → Halfway rest t
      passed x rest s t h c d l e f =
          past x rest s t [] [] h c d
            (subst (λ z. Stands watch_node rest z.watches) (sym l)
              (Stands-next watch_node x rest s.loop.watches h.stands))
            (e ∙ sym (append-nil s.calls)) (f ∙ sym (append-nil s.dwatches)) (omega arith)
            (subst (Unmet rest) (sym f) h.unmet.1)

      visit-Halfway :
          (x : WatchItem) (rest : List WatchItem) (s : Handling) (v : Watch)
          → x.watch ≡ v
          → Halfway (x ∷ rest) s
          → Returns (Halfway rest) (visit_watch w sets x s)
      unfolding visit_watch
      visit-Halfway x rest s (watch_oddjob o) e h =
          let r : ready o.fd sets ≡ ok (reported o.fd sets) =
            ready-reported o.fd sets (subst (InRange w.dbus_watch) e h.fds.0) in
          elim (Bool-cases (any_flag (reported o.fd sets))) [
            | inl t ↦
                rw (e, visit_watch)
                  (rw r (
                    rw t (
                      Returns-map _ (Halfway rest) (call_watch w x.node o (reported o.fd sets) s)
                        (call_watch-Stands spares x o rest s e h.stands)
                        (λ u q.
                          past x rest s u (watch_called o (reported o.fd sets) ∷ []) [] h
                            (ap calls_for e ∙ rw t refl) (ap dwatches_for e) q.0 q.1
                            (q.2 ∙ sym (append-nil s.dwatches)) (omega arith)
                            (subst (Unmet rest) (sym q.2) h.unmet.1)))))
            | inr f ↦
                rw (e, visit_watch)
                  (rw r (
                    rw f (
                      passed x rest s s h (ap calls_for e ∙ rw f refl) (ap dwatches_for e) refl refl
                        refl)))
          ]
      visit-Halfway x rest s (watch_dbus d) e h = elim (Bool-cases (w.dbus_watch d).enabled) [
        | inr f ↦
            rw (e, f, visit_watch)
              (passed x rest s s h (ap calls_for e) (ap dwatches_for e ∙ rw f refl) refl refl refl)
        | inl t ↦
            let (fd, g, small) = subst (InRange w.dbus_watch) e h.fds.0 t in
            let v : ready fd sets ≡ ok (reported fd sets) = ready-reported fd sets small in
            elim (Bool-cases (any_flag (reported fd sets))) [
              | inr f ↦
                  rw (e, t, g, visit_watch)
                    (rw v (
                      rw f (
                        passed x rest s (record s { fd = some fd }) h (ap calls_for e)
                          (ap dwatches_for e ∙ rw (t, g, f) refl) refl refl refl)))
              | inl r ↦
                  let new : Dwatch = record { watch = d; flags = reported fd sets } in
                  let other : has (λ y. is_dwatch d y.watch) rest ≡ false =
                    subst (λ v. has (λ y. same_as v y.watch) rest ≡ false) e h.once.0 in
                  rw (e, t, g, visit_watch)
                    (rw v (
                      rw r (
                        rw
                          (add_ready-new d (reported fd sets) s.dwatches
                            (subst (NotIn s.dwatches) e h.unmet.0) (omega (arith, h.room)))
                          (past x rest s
                            (record s { fd = some fd; dwatches = s.dwatches ++ new ∷ [] }) []
                            (new ∷ []) h (ap calls_for e) (ap dwatches_for e ∙ rw (t, g, r) refl)
                            (Stands-next watch_node x rest s.loop.watches h.stands)
                            (sym (append-nil s.calls)) refl (omega arith)
                            (Unmet-snoc rest s.dwatches new other h.unmet.1)))))
            ]
      ]

    -- What the first loop has done.
    abbrev pub Served : Loop → Handling → Type 0
    Served loop s = (s.calls ≡ all_calls loop.watches) × (s.dwatches ≡ all_dwatches loop.watches)

    -- With memory for every request, no item twice in the lists, a descriptor below 1024 for
    -- each watch of the daemon and each enabled D-Bus watch, at most 65535 watches, and watch
    -- functions that leave in place the watches that the loop has still to visit, and their own
    -- watch if they ask for its removal: the first loop of handle returns, with no access
    -- outside the descriptor sets, has called the function of exactly the watches of the daemon
    -- of which select reports the descriptor, each once, in the order of the list and with the
    -- flags reported, and has collected the D-Bus watches of which it does so, each once and
    -- with its flags.
    pub handle_watches-Served :
        Spares
        → (loop : Loop) → IsRegistered loop
        → AllInRange w.dbus_watch loop.watches
        → length loop.watches ≤ 0xffff
        → Returns (Served loop) (handle_watches w sets loop)
    unfolding handle_watches
    handle_watches-Served spares loop r fds n =
        let c = all_calls loop.watches in
        let d = all_dwatches loop.watches in
        Returns-map (Halfway spares c d []) (Served loop) _
          (walk-Returns watch_node (λ s. s.loop.watches) (visit_watch w sets) (Halfway spares c d)
            (λ xs s h. h.stands) (λ x rest s h. visit-Halfway spares c d x rest s x.watch refl h)
            (length loop.watches) loop.watches
            (record { loop = loop; fd = none; dwatches = []; calls = [] }) (omega arith)
            (record {
              stands =
                  Stands-self watch_node loop.watches
                    (AreDistinct-nodes watch_node loop.watches r.watch_nodes);
              once = r.watches_once;
              fds = fds;
              unmet = Unmet-nil loop.watches;
              room = omega arith;
              called = refl;
              entered = refl;
            }))
          (λ s h. (sym (append-nil s.calls) ∙ h.called, sym (append-nil s.dwatches) ∙ h.entered))
