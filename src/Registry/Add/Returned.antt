-- ===== src/Registry/Add/Returned.antt =====
-- `oddjob_dbus_listeners_add_method`, where it returns: what the tree offers, and which connections
-- the services hold.
use oddjob_gpupdate.Prelude.{
  ℕ, ◌+◌, ◌<◌, ◌≡◌, refl, sym, ◌∙◌, subst, inl, inr, arith, Bool, length, Option, none, some,
  Option-cases, Bytes, ok, bind-returned, ok-injective, List, [], ℤ,
}
use oddjob_gpupdate.Util.Memory.{Ample}
use oddjob_gpupdate.Util.Resize.{resize_array}
use oddjob_gpupdate.Registry.Table.{find}
use oddjob_gpupdate.Registry.Table.Found.{find-none, find-name}
use oddjob_gpupdate.Registry.Table.Below.{find-All, found_or}
use oddjob_gpupdate.Registry.Bus.{Bus, Effect, service_connect}
use oddjob_gpupdate.Registry.Types.{Context, Reply, blank_service, service_name, sizeof_service}
use oddjob_gpupdate.Registry.Add.{service_slot, add_method}
use oddjob_gpupdate.Registry.Add.Laws.{added_service}
use oddjob_gpupdate.Registry.Add.Whole.{
  connected, add_method-known, add_method-unconnected, add_method-connected, with_service-Added,
  Added,
}
use oddjob_gpupdate.Registry.Attached.{
  Balances, Balances-nil, Balances-grown, holders, holders-put, service_connect-Balances,
}
use oddjob_gpupdate.Registry.Lookup.{IsRoomy, RoomyService, TreeService, limit}

-- What a call leaves that returned.
pub record Kept (n_arguments : ℤ) (handler : Option ℕ) (user_data : ℕ) (ctx : Context)
    (s p i m : Bytes) (r : Reply) : Type 0 where
  pub connects : Option ℕ
  pub added : Added n_arguments handler user_data ctx s p i m connects r
  pub balances : (c : ℕ) → Balances c r.log (holders c ctx.services) (holders c r.ctx.services)

module _ (fits : ℕ → Bool) (ample : Ample fits) (n_arguments : ℤ) (handler : Option ℕ)
    (user_data : ℕ) (ctx : Context) (s p i m : Bytes) (bus : Bus) where
  -- An unknown service has been asked for on the bus.
  asked :
      (r : Reply)
      → length ctx.services < limit
      → find service_name s ctx.services ≡ none
      → add_method fits ctx s p i m n_arguments handler user_data bus ≡ ok r
      → (found : Option ℕ × List Effect) × (service_connect ctx.reconnect_timeout s bus ≡ ok found)
  unfolding add_method service_slot
  asked r h e k =
      let (slot, f, _) = bind-returned (service_slot fits ctx s bus) _ k in
      let g = rw ((find-none service_name s ctx.services e).0, service_slot) at f in
      let (_, _, u) =
        bind-returned
          (resize_array fits (blank_service s) ctx.services sizeof_service (length ctx.services)
            (length ctx.services + 1))
          _ g in
      let (found, v, _) = bind-returned (service_connect ctx.reconnect_timeout s bus) _ u in
      (found, v)

  pub add_method-Kept :
      (r : Reply)
      → IsRoomy ctx
      → add_method fits ctx s p i m n_arguments handler user_data bus ≡ ok r
      → Kept n_arguments handler user_data ctx s p i m r
  add_method-Kept r h k = elim (Option-cases (find service_name s ctx.services)) [
    | inr (srv, e) ↦
        subst (Kept n_arguments handler user_data ctx s p i m)
          (ok-injective (
            sym (
              add_method-known fits ample n_arguments handler user_data ctx s p i m bus srv
                (find-All service_name RoomyService s ctx.services h.1 e) e)
            ∙ k))
          (record {
            connects = none;
            added =
                with_service-Added fits ample n_arguments handler user_data ctx s p i m srv none []
                  (find-name service_name s ctx.services e)
                  (λ g.
                    let t = find-All service_name TreeService s ctx.services g.1 e in (t.0, t.2))
                  (λ q j n. rw (e, found_or));
            balances = λ c. Balances-nil c _ _ (
                holders-put c s (added_service fits ample n_arguments handler user_data p i m srv)
                  srv ctx.services e refl);
          })
    | inl e ↦ let (found, f) = asked r h.0 e k in new_service found.0 found.1 e f
  ]
    where
      new_service :
          (conn : Option ℕ) (log : List Effect)
          → find service_name s ctx.services ≡ none
          → service_connect ctx.reconnect_timeout s bus ≡ ok (conn, log)
          → Kept n_arguments handler user_data ctx s p i m r
      new_service none log e f =
          subst (Kept n_arguments handler user_data ctx s p i m)
            (ok-injective (
              sym (
                add_method-unconnected fits ample n_arguments handler user_data ctx s p i m bus log
                  h.0 e f)
              ∙ k))
            (record {
              connects = none;
              added = record { lookups = λ t. cc t; refuses = λ _. (refl, refl, e); tree = λ g. g };
              balances = λ c.
                  omega
                    (arith, service_connect-Balances c ctx.reconnect_timeout s bus (none, log) f);
            })
      new_service (some d) log e f =
          let new = added_service fits ample n_arguments handler user_data p i m (connected s d) in
          subst (Kept n_arguments handler user_data ctx s p i m)
            (ok-injective (
              sym (
                add_method-connected fits ample n_arguments handler user_data ctx s p i m bus log
                  h.0 e d f)
              ∙ k))
            (record {
              connects = some d;
              added =
                  with_service-Added fits ample n_arguments handler user_data ctx s p i m
                    (connected s d) (some d) log refl (λ g. (tt, tt)) (λ q j n. rw (e, found_or));
              balances = λ c.
                  subst (λ l. Balances c log (holders c ctx.services) (holders c l))
                    (sym ((find-none service_name s ctx.services e).1 new))
                    (Balances-grown c log ctx.services new
                      (service_connect-Balances c ctx.reconnect_timeout s bus (some d, log) f));
            })
