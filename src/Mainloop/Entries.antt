-- ===== src/Mainloop/Entries.antt =====
-- The entries for D-Bus watches that the first loop of `handle` has collected.
use oddjob_gpupdate.Prelude.{ℕ, ◌≡◌, refl, arith, false, List, [], ◌∷◌, ◌++◌, none, ◌==◌}
use oddjob_gpupdate.Mainloop.Linked.{has}
use oddjob_gpupdate.Mainloop.Lists.{Flags, Watch, watch_dbus, watch_oddjob, WatchItem, is_dwatch}
use oddjob_gpupdate.Mainloop.Handle.{World, Dwatch, merge_ready}

-- None of these watches is among the entries.
abbrev pub NotIn : List Dwatch → Watch → Type 0
NotIn ds (watch_oddjob o) = Unit
NotIn ds (watch_dbus d) = has (λ y. y.watch == d) ds ≡ false

abbrev pub Unmet : List WatchItem → List Dwatch → Type 0
Unmet [] ds = Unit
Unmet (x ∷ xs) ds = NotIn ds x.watch × Unmet xs ds

pub has-snoc :
    (e : ℕ) (ds : List Dwatch) (n : Dwatch)
    → has (λ y. y.watch == e) ds ≡ false
    → (n.watch == e) ≡ false
    → has (λ y. y.watch == e) (ds ++ n ∷ []) ≡ false
unfolding has
has-snoc e [] n h k = ground arith
has-snoc e (x ∷ ds) n h k = ground (arith, has-snoc e ds n)

pub NotIn-snoc :
    (v : Watch) (ds : List Dwatch) (n : Dwatch)
    → is_dwatch n.watch v ≡ false
    → NotIn ds v
    → NotIn (ds ++ n ∷ []) v
NotIn-snoc (watch_oddjob o) ds n h k = tt
NotIn-snoc (watch_dbus e) ds n h k = has-snoc e ds n k (ground arith)

pub Unmet-snoc :
    (xs : List WatchItem) (ds : List Dwatch) (n : Dwatch)
    → has (λ y. is_dwatch n.watch y.watch) xs ≡ false
    → Unmet xs ds
    → Unmet xs (ds ++ n ∷ [])
unfolding has
Unmet-snoc [] ds n h k = tt
Unmet-snoc (x ∷ xs) ds n h k =
    (NotIn-snoc x.watch ds n (ground arith) k.0, Unmet-snoc xs ds n (ground arith) k.1)

pub Unmet-nil : (xs : List WatchItem) → Unmet xs []
unfolding has
Unmet-nil [] = tt
Unmet-nil (x ∷ xs) = (NotIn-nil x.watch, Unmet-nil xs)
  where
    NotIn-nil : (v : Watch) → NotIn [] v
    NotIn-nil (watch_oddjob o) = tt
    NotIn-nil (watch_dbus d) = refl

pub merge_ready-none :
    (w : World) (d : ℕ) (flags : Flags) (ds : List Dwatch)
    → has (λ y. y.watch == d) ds ≡ false
    → merge_ready w d flags ds ≡ none
unfolding merge_ready has
merge_ready-none w d flags [] h = refl
merge_ready-none w d flags (x ∷ ds) h = ground (arith, merge_ready-none w d flags ds)
