-- ===== src/Registry/Bus.antt =====
-- `service_connect`, `service_disconnect` and what they ask of libdbus.
--
-- A `DBusConnection *` is its address, and what libdbus does is a parameter: the answers of the
-- successive calls of `dbus_bus_get_private`, and whether the filter and the name are granted. The
-- calls made for their effect are written to a log, in their order.
use oddjob_gpupdate.Prelude.{
  ℕ, ◌+◌, Bool, not, ◌&&◌, List, [], ◌∷◌, ◌++◌, Option, none, some, Bytes, ltb, if◌then◌else◌, Run,
  ok, waiting, ◌>>=◌, ℤ, pos, above,
}

pub data Effect : Type 0 where
  -- `dbus_connection_set_exit_on_disconnect`
  exit_on_disconnect : Option ℕ → Bool → Effect
  -- `dbus_connection_add_filter` and `..._remove_filter`, of `oddjob_dbus_filter`
  add_filter : ℕ → Effect
  remove_filter : ℕ → Effect
  -- `dbus_bus_request_name` and `dbus_bus_release_name`
  request_name : ℕ → Bytes → Effect
  release_name : ℕ → Bytes → Effect
  -- `mainloop_connect` and `mainloop_disconnect`
  attach : ℕ → Effect
  detach : ℕ → Effect
  -- `oddjob_dbus_connection_close`
  close : ℕ → Effect
  sleep : ℤ → Effect

-- `dbus_bus_get_private`: NULL, a connection that is down, or one that is up.
pub data Attempt : Type 0 where
  refused : Attempt
  dead : ℕ → Attempt
  live : ℕ → Attempt

pub record Bus : Type 0 where
  pub answers : List Attempt
  pub accepts_filter : Bool
  pub grants_name : Bool

-- of configure.ac
abbrev pub fast_reconnect_attempts : ℕ
fast_reconnect_attempts = 10

abbrev pub fast_reconnect_timeout : ℕ
fast_reconnect_timeout = 5

-- How long `service_connect` sleeps after attempt number `attempt`.
unfoldable pub pause : ℤ → ℕ → ℤ
pause timeout attempt =
    if ltb attempt fast_reconnect_attempts && above timeout fast_reconnect_timeout
    then pos fast_reconnect_timeout
    else timeout

-- The `do` loop. It goes on for as long as there is no connection: `waiting`.
unfoldable pub connect_loop : ℤ → ℕ → List Attempt → Run (ℕ × List Effect)
unfolding pause
connect_loop timeout attempt [] = waiting
connect_loop timeout attempt (live c ∷ _) = ok (c, [])
connect_loop timeout attempt (refused ∷ more) = connect_loop timeout (attempt + 1) more >>= λ found.
    ok (found.0, sleep (pause timeout attempt) ∷ found.1)
connect_loop timeout attempt (dead c ∷ more) = connect_loop timeout (attempt + 1) more >>= λ found.
    ok (found.0, close c ∷ sleep (pause timeout attempt) ∷ found.1)

-- Behind the loop: the connection, or none where the service could not be offered on it.
unfoldable pub offer : ℤ → Bytes → Bus → ℕ → List Effect → Option ℕ × List Effect
offer timeout name bus conn log =
    let opened = log ++ exit_on_disconnect (some conn) (not (above timeout 0)) ∷ [] in
    if not bus.accepts_filter
    then (none, opened ++ close conn ∷ [])
    else if not bus.grants_name
    then (none, opened ++ add_filter conn ∷ request_name conn name ∷ close conn ∷ [])
    else (some conn, opened ++ add_filter conn ∷ request_name conn name ∷ attach conn ∷ [])

unfoldable pub service_connect : ℤ → Bytes → Bus → Run (Option ℕ × List Effect)
unfolding connect_loop offer
service_connect timeout name bus =
    connect_loop timeout 0 bus.answers >>= λ found. ok (offer timeout name bus found.0 found.1)

-- `srv->conn` is NULL behind it.
unfoldable pub service_disconnect : Option ℕ → Bytes → List Effect
service_disconnect none name = []
service_disconnect (some conn) name =
    detach conn ∷ remove_filter conn ∷ release_name conn name ∷ close conn ∷ []
