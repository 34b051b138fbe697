-- ===== src/Mainloop/Freed.antt =====
-- A watch that the function of another one frees.
use oddjob_gpupdate.Prelude.{
  ◌≡◌, ◌∙◌, ap, true, false, List, [], ◌∷◌, ◌++◌, none, length, ok, fault,
}
use oddjob_gpupdate.Mainloop.Linked.{at, first, walk, walk-fault}
use oddjob_gpupdate.Mainloop.Lists.{Flags, OddjobWatch, watch_oddjob, WatchItem, Loop, watch_node}
use oddjob_gpupdate.Mainloop.Prepare.{Sets}
use oddjob_gpupdate.Mainloop.Handle.{
  World, watch_called, Handling, ready, any_flag, call_watch, visit_watch, handle_watches,
}

module _ (w : World) (sets : Sets) where
  visit_watch-call :
      (x : WatchItem) (o : OddjobWatch) (flags : Flags) (s : Handling)
      → x.watch ≡ watch_oddjob o
      → ready o.fd sets ≡ ok flags
      → any_flag flags ≡ true
      → (w.watch_fn o flags s.loop).1 ≡ false
      → visit_watch w sets x s
        ≡ ok (record s {
          loop = (w.watch_fn o flags s.loop).0;
          calls = s.calls ++ watch_called o flags ∷ [];
        })
  unfolding visit_watch call_watch
  visit_watch-call x o flags s f g t r =
      rw (f, visit_watch) (rw g (rw (t, visit_watch) (rw (r, call_watch))))

  -- Where the function of the first watch, on a descriptor that the tests of FD_ISSET find in
  -- one of the sets, takes the second watch out of the list and frees it, and does not ask for
  -- its own removal, the first loop of handle goes on at the freed node.
  pub handle_watches-fault :
      (loop : Loop) (x y : WatchItem) (o : OddjobWatch) (flags : Flags) (rest : List WatchItem)
      → loop.watches ≡ x ∷ y ∷ rest
      → x.watch ≡ watch_oddjob o
      → ready o.fd sets ≡ ok flags
      → any_flag flags ≡ true
      → (w.watch_fn o flags loop).1 ≡ false
      → at watch_node y.node (w.watch_fn o flags loop).0.watches ≡ none
      → handle_watches w sets loop ≡ fault
  unfolding handle_watches
  handle_watches-fault loop x y o flags rest e f g t r n =
      let s : Handling = record { loop = loop; fd = none; dwatches = []; calls = [] } in
      ap
        (λ l.
          walk watch_node (λ z. z.loop.watches) (visit_watch w sets) (length l) (first watch_node l)
            s)
        e
      ∙ walk-fault watch_node (λ z. z.loop.watches) (visit_watch w sets) (length rest) x y rest s _
          e (visit_watch-call x o flags s f g t r) n
