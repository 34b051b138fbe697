-- ===== src/Registry/Remove/Returned.antt =====
-- `oddjob_dbus_listeners_remove_method`, where it returns: what the tree offers, and which
-- connections the services hold.
use oddjob_gpupdate.Prelude.{
  ℕ, ◌≡◌, refl, sym, ◌∙◌, subst, inl, inr, arith, Bool, false, Bool-cases, Bytes, ltb, ltb→lt,
  not-ltb→le, length, Run, ok, ok-injective, Breaks,
}
use oddjob_gpupdate.Util.Memory.{Ample}
use oddjob_gpupdate.Registry.Table.Laws.{length-remove}
use oddjob_gpupdate.Registry.Bus.{service_disconnect}
use oddjob_gpupdate.Registry.Types.{Context, Reply, service_name}
use oddjob_gpupdate.Registry.Remove.{remove_method, stop_service}
use oddjob_gpupdate.Registry.Remove.Levels.{
  Leads, found, objects_left, service_left, find_method-Leads, drop_method-left,
}
use oddjob_gpupdate.Registry.Remove.Whole.{
  Removed, stop_service-only, stop_service-Breaks, unknown-Removed, kept-Removed, only-Removed,
}
use oddjob_gpupdate.Registry.Remove.Law.{Leads-cases}
use oddjob_gpupdate.Registry.Attached.{
  Balances, Balances-nil, holders, holders-put, holders_only, service_disconnect-Balances,
}
use oddjob_gpupdate.Registry.Lookup.{IsTree, IsRoomy}

-- What a call leaves that returned.
pub record Kept (ctx : Context) (s p i m : Bytes) (r : Reply) : Type 0 where
  pub removed : Removed ctx s p i m r
  pub balances : (c : ℕ) → Balances c r.log (holders c ctx.services) (holders c r.ctx.services)

Breaks-ok : {A : Type 0} {m : Run A} {a : A} → Breaks m → m ≡ ok a → ⊥
Breaks-ok b e = subst Breaks e b

module _ (fits : ℕ → Bool) (ample : Ample fits) (ctx : Context) (s p i m : Bytes)
    (tree : IsTree ctx) (h : IsRoomy ctx) where
  -- The service lost its last object.
  stopped-Kept :
      (r : Reply) (l : Leads ctx s p i m)
      → ltb 0 (length (objects_left p i m l.interf l.obj l.srv)) ≡ false
      → stop_service fits ctx (found ctx s p i m l) ≡ ok r
      → Kept ctx s p i m r
  unfolding holders
  stopped-Kept r l t e = elim (Bool-cases (ltb 1 (length ctx.services))) [
    | inl u ↦ absurd (Breaks-ok (stop_service-Breaks ctx s p i m l fits (ltb→lt 1 _ u)) e)
    | inr u ↦
        let one : length ctx.services ≡ 1 =
          omega (arith, not-ltb→le 1 _ u, length-remove service_name s ctx.services l.srv_found) in
        subst (Kept ctx s p i m) (ok-injective (sym (stop_service-only ctx s p i m l fits one) ∙ e))
          (record {
            removed = only-Removed ctx s p i m tree l t one;
            balances = λ c.
                subst (λ n. Balances c (service_disconnect l.srv.conn l.srv.name) n 0)
                  (sym (holders_only c s l.srv ctx.services l.srv_found one))
                  (service_disconnect-Balances c l.srv.conn l.srv.name);
          })
  ]

  pub remove_method-Kept : (r : Reply) → remove_method fits ctx s p i m ≡ ok r → Kept ctx s p i m r
  unfolding remove_method holders
  remove_method-Kept r k = elim (Leads-cases ctx s p i m) [
    | inr (e, f) ↦ subst (Kept ctx s p i m) (ok-injective (rw (e, remove_method) at k)) (record {
      removed = unknown-Removed ctx s p i m tree f;
      balances = λ c. Balances-nil c _ _ refl;
    })
    | inl l ↦
        let left = rw (find_method-Leads ctx s p i m l, remove_method) at k in
        let done = sym (drop_method-left ctx s p i m l fits ample h) ∙ left in
        (elim (Bool-cases (ltb 0 (length (objects_left p i m l.interf l.obj l.srv)))) [
          | inr t ↦ stopped-Kept r l t (rw t at done)
          | inl t ↦ subst (Kept ctx s p i m) (ok-injective (rw t at done)) (record {
            removed = kept-Removed ctx s p i m tree l t;
            balances = λ c. Balances-nil c _ _ (
                holders-put c s (service_left p i m l.interf l.obj l.srv) l.srv ctx.services
                  l.srv_found refl);
          })
        ])
  ]
