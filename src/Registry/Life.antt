-- ===== src/Registry/Life.antt =====
-- The life of a context, from `oddjob_dbus_listeners_new` on: a table from four names to methods
-- says all that the daemon offers, and a log has the calls made for their effect.
pub mod Sound
use oddjob_gpupdate.Prelude.{
  ℕ, ◌+◌, ◌≡◌, refl, ◌∙◌, ap, subst, arith, inl, inr, Bool, Bool-cases, true, false, not, above,
  ◌&&◌, List, [], ◌++◌, Option, none, some, Bytes, str_eq, if◌then◌else◌, ok, ok-injective,
  bind-returned, ℤ,
}
use oddjob_gpupdate.Util.Memory.{Ample, malloc0}
use oddjob_gpupdate.Registry.Bus.{Bus, Effect}
use oddjob_gpupdate.Registry.Types.{Method, Context, Reply}
use oddjob_gpupdate.Registry.Table.{find}
use oddjob_gpupdate.Registry.Lookup.{IsTree, IsRoomy, lookup}
use oddjob_gpupdate.Registry.Add.{add_method}
use oddjob_gpupdate.Registry.Add.Returned as Adding
use oddjob_gpupdate.Registry.Remove.{remove_method}
use oddjob_gpupdate.Registry.Remove.Returned as Removing
use oddjob_gpupdate.Registry.Listeners.{
  listeners_new, disconnect_all, set_policies, set_reconnect_timeout, refresh_all,
  reconnect_if_needed, listeners_free,
}
use oddjob_gpupdate.Registry.Listeners.Refresh.{reconnected_lem}
use oddjob_gpupdate.Registry.Attached.{
  attaches, detaches, holders, Balances, Balances-append, refresh_all-Balances,
  set_policies-Balances, disconnect_all-Balances,
}

-- The table.
abbrev pub Offers : Type 0
Offers = Bytes → Bytes → Bytes → Bytes → Option Method

abbrev pub no_offers : Offers
no_offers t q j n = none

-- The table with another entry for four names.
abbrev pub change : Bytes → Bytes → Bytes → Bytes → Option Method → Offers → Offers
change s p i m entry offers t q j n =
    if str_eq t s && (str_eq q p && (str_eq j i && str_eq n m)) then entry else offers t q j n

-- A method is entered where the call returns TRUE.
abbrev pub enter_offer : Bool → Bytes → Bytes → Bytes → Bytes → Method → Offers → Offers
enter_offer true s p i m method offers = change s p i m (some method) offers
enter_offer false s p i m method offers = offers

-- Each call that returns, on arrays that are not full.
pub data Life (fits : ℕ → Bool) : Context → Offers → List Effect → Type 0 where
  created :
      (bustype : ℕ) (selinux : Bool) {ctx : Context}
      → listeners_new fits bustype selinux ≡ ok ctx
      → Life fits ctx no_offers []
  added :
      (s p i m : Bytes) (n_arguments : ℤ) (handler : Option ℕ) (user_data : ℕ) (bus : Bus)
      {ctx : Context} {offers : Offers} {log : List Effect} (r : Reply)
      → Life fits ctx offers log
      → IsRoomy ctx
      → add_method fits ctx s p i m n_arguments handler user_data bus ≡ ok r
      → Life fits r.ctx
          (enter_offer r.returned s p i m
            (record {
              method = m;
              n_arguments = n_arguments;
              handler = handler;
              user_data = user_data;
            })
            offers)
          (log ++ r.log)
  removed :
      (s p i m : Bytes) {ctx : Context} {offers : Offers} {log : List Effect} (r : Reply)
      → Life fits ctx offers log
      → IsRoomy ctx
      → remove_method fits ctx s p i m ≡ ok r
      → Life fits r.ctx (change s p i m none offers) (log ++ r.log)
  timed :
      (timeout : ℤ) {ctx : Context} {offers : Offers} {log : List Effect}
      (r : Context × List Effect)
      → Life fits ctx offers log
      → set_reconnect_timeout timeout ctx ≡ ok r
      → Life fits r.0 offers (log ++ r.1)
  reconnected :
      (is_connected : ℕ → Bool) (bus : Bytes → Bus) {ctx : Context} {offers : Offers}
      {log : List Effect} (r : Context × List Effect)
      → Life fits ctx offers log
      → reconnect_if_needed is_connected bus ctx ≡ ok r
      → Life fits r.0 offers (log ++ r.1)

-- What holds throughout: the tree is well-formed, it offers what the table says, and a connection
-- has been attached to the main loop once more for each service that holds it than it has been
-- detached.
pub record IsSound (ctx : Context) (offers : Offers) (log : List Effect) : Type 0 where
  pub tree : IsTree ctx
  pub offered : (t q j n : Bytes) → lookup ctx t q j n ≡ offers t q j n
  pub attached : (c : ℕ) → attaches c log ≡ detaches c log + holders c ctx.services
