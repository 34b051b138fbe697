-- ===== src/Registry/Life/Sound.antt =====
-- What holds throughout the life of a context.
use oddjob_gpupdate.Prelude.{
  ℕ, ◌+◌, ◌≡◌, refl, ◌∙◌, ap, subst, arith, inl, inr, Bool, Bool-cases, not, above, ◌&&◌, List, [],
  ◌++◌, Option, none, some, Bytes, str_eq, if◌then◌else◌, ok, ok-injective, bind-returned, ℤ,
}
use oddjob_gpupdate.Util.Memory.{Ample, malloc0}
use oddjob_gpupdate.Registry.Bus.{Bus, Effect}
use oddjob_gpupdate.Registry.Types.{Method, Context, Reply}
use oddjob_gpupdate.Registry.Table.{find}
use oddjob_gpupdate.Registry.Lookup.{IsRoomy, lookup}
use oddjob_gpupdate.Registry.Add.{add_method}
use oddjob_gpupdate.Registry.Add.Returned as Adding
use oddjob_gpupdate.Registry.Remove.{remove_method}
use oddjob_gpupdate.Registry.Remove.Returned as Removing
use oddjob_gpupdate.Registry.Listeners.{
  listeners_new, disconnect_all, set_policies, set_reconnect_timeout, refresh_all,
  reconnect_if_needed, listeners_free,
}
use oddjob_gpupdate.Registry.Listeners.Refresh.{reconnected_lem}
use oddjob_gpupdate.Registry.Attached.{
  attaches, detaches, holders, Balances, Balances-append, refresh_all-Balances,
  set_policies-Balances, disconnect_all-Balances,
}
use oddjob_gpupdate.Registry.Life.{
  Offers, no_offers, change, enter_offer, Life, created, added, removed, timed, reconnected,
  IsSound,
}

module _ (fits : ℕ → Bool) (ample : Ample fits) where
  -- The log goes on with calls that account for the change of holders.
  attached-next :
      (c : ℕ) (log more : List Effect) (ctx after : Context)
      → attaches c log ≡ detaches c log + holders c ctx.services
      → Balances c more (holders c ctx.services) (holders c after.services)
      → attaches c (log ++ more) ≡ detaches c (log ++ more) + holders c after.services
  attached-next c log more ctx after h k = omega (
    arith,
    Balances-append c log more 0 (holders c ctx.services) (holders c after.services) (omega arith)
        k,
  )

  reconnect-Balances :
      (c : ℕ) (is_connected : ℕ → Bool) (bus : Bytes → Bus) (ctx : Context)
      (r : Context × List Effect)
      → reconnect_if_needed is_connected bus ctx ≡ ok r
      → Balances c r.1 (holders c ctx.services) (holders c r.0.services)
  unfolding reconnect_if_needed
  reconnect-Balances c is_connected bus ctx r e =
      let (all, f, g) =
        bind-returned (refresh_all is_connected bus ctx.reconnect_timeout ctx.services) _ e in
      subst (λ z. Balances c z.1 (holders c ctx.services) (holders c z.0.services)) (ok-injective g)
        (refresh_all-Balances is_connected bus ctx.reconnect_timeout c ctx.services all f)

  created-IsSound :
      (bustype : ℕ) (selinux : Bool) (ctx : Context)
      → listeners_new fits bustype selinux ≡ ok ctx
      → IsSound ctx no_offers []
  unfolding listeners_new find attaches detaches holders
  created-IsSound bustype selinux ctx e =
      let (_, _, f) = bind-returned (malloc0 fits 32) _ e in
      subst (λ z. IsSound z no_offers []) (ok-injective f)
        (record { tree = (tt, tt); offered = λ t q j n. refl; attached = λ c. refl })

  module _ {ctx : Context} {offers : Offers} {log : List Effect} (k : IsSound ctx offers log) where
    added-IsSound :
        (s p i m : Bytes) (n_arguments : ℤ) (handler : Option ℕ) (user_data : ℕ) (bus : Bus)
        (r : Reply)
        → IsRoomy ctx
        → add_method fits ctx s p i m n_arguments handler user_data bus ≡ ok r
        → IsSound r.ctx
            (enter_offer r.returned s p i m
              (record {
                method = m;
                n_arguments = n_arguments;
                handler = handler;
                user_data = user_data;
              })
              offers)
            (log ++ r.log)
    added-IsSound s p i m n_arguments handler user_data bus r h e =
        let kept =
          Adding.add_method-Kept fits ample n_arguments handler user_data ctx s p i m bus r h e in
        let method : Method = record {
          method = m;
          n_arguments = n_arguments;
          handler = handler;
          user_data = user_data;
        } in
        record {
          tree = kept.added.tree k.tree;
          offered = λ t q j n. (elim (Bool-cases r.returned) [
            | inl u ↦ rw u (
                kept.added.lookups u t q j n
                ∙ ap
                    (λ z.
                      if str_eq t s && (str_eq q p && (str_eq j i && str_eq n m))
                      then some method
                      else z)
                    (k.offered t q j n))
            | inr u ↦ rw u (ap (λ z. lookup z t q j n) (kept.added.refuses u).0 ∙ k.offered t q j n)
          ]);
          attached = λ c. attached-next c log r.log ctx r.ctx (k.attached c) (kept.balances c);
        }

    removed-IsSound :
        (s p i m : Bytes) (r : Reply)
        → IsRoomy ctx
        → remove_method fits ctx s p i m ≡ ok r
        → IsSound r.ctx (change s p i m none offers) (log ++ r.log)
    removed-IsSound s p i m r h e =
        let kept = Removing.remove_method-Kept fits ample ctx s p i m k.tree h r e in
        record {
          tree = kept.removed.tree;
          offered = λ t q j n.
              kept.removed.lookups t q j n
              ∙ ap
                  (λ z.
                    if str_eq t s && (str_eq q p && (str_eq j i && str_eq n m)) then none else z)
                  (k.offered t q j n);
          attached = λ c. attached-next c log r.log ctx r.ctx (k.attached c) (kept.balances c);
        }

    timed-IsSound :
        (timeout : ℤ) (r : Context × List Effect)
        → set_reconnect_timeout timeout ctx ≡ ok r
        → IsSound r.0 offers (log ++ r.1)
    unfolding set_reconnect_timeout
    timed-IsSound timeout r e =
        let (policies, f, g) =
          bind-returned (set_policies (not (above timeout 0)) ctx.services) _ e in
        subst (λ z. IsSound z.0 offers (log ++ z.1)) (ok-injective g)
          (record {
            tree = k.tree;
            offered = k.offered;
            attached = λ c.
                attached-next c log policies ctx ctx (k.attached c)
                  (set_policies-Balances c (holders c ctx.services) _ ctx.services policies f);
          })

    reconnected-IsSound :
        (is_connected : ℕ → Bool) (bus : Bytes → Bus) (r : Context × List Effect)
        → reconnect_if_needed is_connected bus ctx ≡ ok r
        → IsSound r.0 offers (log ++ r.1)
    reconnected-IsSound is_connected bus r e =
        let new = reconnected_lem is_connected bus ctx r e in
        record {
          tree = new.tree k.tree;
          offered = λ t q j n. new.lookups t q j n ∙ k.offered t q j n;
          attached = λ c.
              attached-next c log r.1 ctx r.0 (k.attached c)
                (reconnect-Balances c is_connected bus ctx r e);
        }

  -- With memory for every request, a context that oddjob_dbus_listeners_new has made, and that
  -- any calls of oddjob_dbus_listeners_add_method and oddjob_dbus_listeners_remove_method on
  -- arrays that are not full, of oddjob_dbus_listeners_set_reconnect_timeout and of
  -- oddjob_dbus_listeners_reconnect_if_needed have changed since, each of which returned, has
  -- these properties: it is well-formed (names unique, nothing empty); any four names lead in it
  -- to what a table says, which started empty, and to which each addition that returned TRUE and
  -- each removal has made its one change; and every connection has been attached to the main
  -- loop as often as detached from it, and once more for each service that holds it.
  pub Life-IsSound :
      {ctx : Context} {offers : Offers} {log : List Effect}
      → Life fits ctx offers log
      → IsSound ctx offers log
  Life-IsSound (created bustype selinux e) = created-IsSound bustype selinux _ e
  Life-IsSound (added s p i m n_arguments handler user_data bus r l h e) =
      added-IsSound (Life-IsSound l) s p i m n_arguments handler user_data bus r h e
  Life-IsSound (removed s p i m r l h e) = removed-IsSound (Life-IsSound l) s p i m r h e
  Life-IsSound (timed timeout r l e) = timed-IsSound (Life-IsSound l) timeout r e
  Life-IsSound (reconnected is_connected bus r l e) =
      reconnected-IsSound (Life-IsSound l) is_connected bus r e

  -- With memory for every request, after any calls since oddjob_dbus_listeners_new, as in the
  -- life of a context, oddjob_dbus_listeners_free leaves each connection detached from the main
  -- loop exactly as often as it has been attached.
  pub listeners_free-attached :
      {ctx : Context} {offers : Offers} {log : List Effect}
      → Life fits ctx offers log
      → (c : ℕ)
      → attaches c (log ++ listeners_free (some ctx))
        ≡ detaches c (log ++ listeners_free (some ctx))
  unfolding listeners_free
  listeners_free-attached {ctx} {offers} {log} l c =
      let k = Life-IsSound l in
      let all = disconnect_all-Balances c ctx.services in
      omega (
        arith,
        k.attached c,
        Balances-append c log (disconnect_all ctx.services) 0 (holders c ctx.services) 0
            (omega (arith, k.attached c)) all,
      )
