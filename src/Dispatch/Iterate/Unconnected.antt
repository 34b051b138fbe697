-- ===== src/Dispatch/Iterate/Unconnected.antt =====
-- A service that could not be connected again, and the next iteration.
use oddjob_gpupdate.Prelude.{
  ℕ, suc, ◌≡◌, refl, sym, ◌∙◌, ap, subst, arith, Bool, true, false, List, [], ◌∷◌, Option, none,
  ◌==◌, ltb, length, get_elem?, Bytes, ok, ok-injective, fault, ◌>>=◌, or_fault, ℤ,
}
use oddjob_gpupdate.Registry.Bus.{Bus, Effect, service_connect}
use oddjob_gpupdate.Registry.Types.{Context, Service}
use oddjob_gpupdate.Registry.Listeners.{is_up, reconnect_if_needed}
use oddjob_gpupdate.Registry.Listeners.Refresh.{AreAlike, AreRefreshed, reconnected_lem}
use oddjob_gpupdate.Mainloop.Lists.{Loop}
use oddjob_gpupdate.Mainloop.Time.{Timeval}
use oddjob_gpupdate.Mainloop.Prepare.{Sets}
use oddjob_gpupdate.Mainloop.Handle.{World, Selected, Called, mainloop_iterate}
use oddjob_gpupdate.Dispatch.Iterate.{
  State, Libdbus, conn_at, dispatch_all, serve, serve_all, main_iterate,
}

-- The first service has no connection.
abbrev StartsUnconnected : List Service → Type 0
StartsUnconnected [] = ⊥
StartsUnconnected (y ∷ _) = y.conn ≡ none

module _ {B : Type 0} (lib : Libdbus B) where
  conn_at-unconnected :
      (st : State B) → StartsUnconnected st.ctx.services → conn_at lib st.array 0 st ≡ fault
  unfolding conn_at
  conn_at-unconnected st h =
      let here : (st.array == st.array) ≡ true = ground arith in rw here (first st.ctx.services h)
    where
      first :
          (xs : List Service)
          → StartsUnconnected xs
          → (or_fault (get_elem? xs 0) >>= λ srv. or_fault srv.conn) ≡ fault
      first [] h = absurd h
      first (y ∷ ys) h = ap (λ o. or_fault o) h

  serve_all-unconnected :
      (n fuel : ℕ) (st : State B)
      → StartsUnconnected st.ctx.services
      → serve_all lib (suc n) (suc fuel) 0 st ≡ fault
  unfolding serve_all serve dispatch_all
  serve_all-unconnected n fuel st h =
      let some_there : ltb 0 (length st.ctx.services) ≡ true = there st.ctx.services h in
      rw some_there (rw (conn_at-unconnected st h) refl)
    where
      there : (xs : List Service) → StartsUnconnected xs → ltb 0 (length xs) ≡ true
      there [] h = absurd h
      there (y ∷ ys) h = ground arith

  module _ (w : World) (select : ℕ → Sets → Option Timeval → Selected) (is_connected : ℕ → Bool)
      (bus : Bytes → Bus) where
    -- What `service_connect` could not connect is left without a connection.
    refreshed-unconnected :
        (timeout : ℤ) (srv : Service) (more ys : List Service) (log : List Effect)
        → AreAlike (srv ∷ more) ys
        → AreRefreshed is_connected bus timeout (srv ∷ more) ys
        → is_up is_connected bus srv.conn ≡ false
        → service_connect timeout srv.name (bus srv.name) ≡ ok (none, log)
        → StartsUnconnected ys
    refreshed-unconnected timeout srv more [] log a r d e = absurd a
    refreshed-unconnected timeout srv more (y ∷ ys) log a r d e =
        let (_, f) = r.1 d in ap (λ p. p.0) (ok-injective (sym f ∙ e))

    -- Where the connection of the first service is not up and service_connect gives it no new
    -- one, oddjob_dbus_main_iterate after oddjob_dbus_listeners_reconnect_if_needed hands the
    -- NULL that is left to dbus_connection_get_dispatch_status.
    pub main_iterate-unconnected :
        (ctx : Context) (srv : Service) (more : List Service) (log : List Effect)
        (r : Context × List Effect) (n fuel array : ℕ) (b : B) (clock : List (Option ℕ))
        (loop after : Loop) (ret : ℤ) (calls : List Called)
        → ctx.services ≡ srv ∷ more
        → is_up is_connected bus srv.conn ≡ false
        → service_connect ctx.reconnect_timeout srv.name (bus srv.name) ≡ ok (none, log)
        → reconnect_if_needed is_connected bus ctx ≡ ok r
        → mainloop_iterate w select clock loop ≡ ok (ret, after, calls)
        → main_iterate lib w select
            (suc n)
            (suc fuel)
            clock
            loop
            (record { ctx = r.0; array = array; bus = b })
          ≡ fault
    unfolding main_iterate
    main_iterate-unconnected ctx srv more log r n fuel array b clock loop after ret calls s d e f
          g =
        let new = reconnected_lem is_connected bus ctx r f in
        let first =
          refreshed-unconnected ctx.reconnect_timeout srv more r.0.services log
            (subst (λ l. AreAlike l r.0.services) s new.alike)
            (subst (λ l. AreRefreshed is_connected bus ctx.reconnect_timeout l r.0.services) s
              new.connections)
            d e in
        rw g (
          rw (serve_all-unconnected n fuel (record { ctx = r.0; array = array; bus = b }) first)
            refl)
