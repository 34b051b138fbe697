-- ===== src/Registry/Listeners.antt =====
-- The functions of src/oddjob_dbus.c on a whole context: `oddjob_dbus_listeners_new`,
-- `..._set_reconnect_timeout`, `..._reconnect_if_needed` and `..._free`.
--
-- libdbus accepts no NULL for a connection: `fault`. Freeing memory leaves no trace.
pub mod Refresh
use oddjob_gpupdate.Prelude.{
  ℕ, Bool, true, false, not, List, [], ◌∷◌, ◌++◌, Option, none, some, Bytes, if◌then◌else◌, Run, ok,
  ◌>>=◌, or_fault, ℤ, pos, above,
}
use oddjob_gpupdate.Util.Memory.{malloc0}
use oddjob_gpupdate.Registry.Bus.{
  Bus, Effect, exit_on_disconnect, service_connect, service_disconnect,
}
use oddjob_gpupdate.Registry.Types.{Service, Context}

-- `sizeof(struct oddjob_dbus_context)`
abbrev sizeof_context : ℕ
sizeof_context = 32

-- `oddjob_malloc0` ends the process where there is no memory, so that its result is never NULL.
unfoldable pub listeners_new : (ℕ → Bool) → ℕ → Bool → Run Context
listeners_new fits bustype selinux_enabled = malloc0 fits sizeof_context >>= λ _. ok (record {
  bustype = bustype;
  reconnect_timeout = pos 0;
  selinux_enabled = selinux_enabled;
  services = [];
})

-- The loop of `..._set_reconnect_timeout`.
unfoldable pub set_policies : Bool → List Service → Run (List Effect)
set_policies exits [] = ok []
set_policies exits (srv ∷ more) = do
  conn ← or_fault srv.conn
  log ← set_policies exits more
  ok (exit_on_disconnect (some conn) exits ∷ log)

unfoldable pub set_reconnect_timeout : ℤ → Context → Run (Context × List Effect)
unfolding set_policies
set_reconnect_timeout timeout ctx = set_policies (not (above timeout 0)) ctx.services >>= λ log.
    ok (record ctx { reconnect_timeout = timeout }, log)

-- `is_connected` is `dbus_connection_get_is_connected`, and `bus` what libdbus answers to
-- `service_connect` for the service of a name.
module _ (is_connected : ℕ → Bool) (bus : Bytes → Bus) where
  abbrev pub is_up : Option ℕ → Bool
  is_up none = false
  is_up (some conn) = is_connected conn

  -- One round of the loop. The result of `service_connect` is ignored.
  unfoldable pub refresh : ℤ → Service → Run (Service × List Effect)
  refresh timeout srv =
      if is_up srv.conn
      then ok (srv, [])
      else (service_connect timeout srv.name (bus srv.name) >>= λ found.
          ok (record srv { conn = found.0 }, service_disconnect srv.conn srv.name ++ found.1))

  unfoldable pub refresh_all : ℤ → List Service → Run (List Service × List Effect)
  unfolding refresh
  refresh_all timeout [] = ok ([], [])
  refresh_all timeout (srv ∷ more) = do
    one ← refresh timeout srv
    rest ← refresh_all timeout more
    ok (one.0 ∷ rest.0, one.1 ++ rest.1)

  unfoldable pub reconnect_if_needed : Context → Run (Context × List Effect)
  unfolding refresh_all
  reconnect_if_needed ctx = refresh_all ctx.reconnect_timeout ctx.services >>= λ r.
      ok (record ctx { services = r.0 }, r.1)

-- What is left of the loops over the services when memory is left out.
unfoldable pub disconnect_all : List Service → List Effect
disconnect_all [] = []
disconnect_all (srv ∷ more) = service_disconnect srv.conn srv.name ++ disconnect_all more

-- A NULL context is none.
unfoldable pub listeners_free : Option Context → List Effect
unfolding disconnect_all
listeners_free none = []
listeners_free (some ctx) = disconnect_all ctx.services
