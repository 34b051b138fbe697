-- ===== src/Dispatch/Iterate.antt =====
-- `oddjob_dbus_main_iterate` of src/oddjob_dbus.c: one iteration of the main loop, and then the
-- messages of each service.
--
-- The state of libdbus is of a type that is a parameter. `dbus_connection_dispatch` comes to the
-- filter and its handlers, which may change the context: `srv` points into `ctx->services`, and is
-- read again before each call, a fault once the array is at another address or has no such element.
-- The fuel counts the calls for one service; libdbus accepts no NULL for a connection.
pub mod Unconnected
use oddjob_gpupdate.Prelude.{
  ℕ, zero, suc, ◌+◌, Bool, true, false, List, [], ◌∷◌, Option, none, some, ltb, ◌==◌, if◌then◌else◌,
  length, get_elem?, Run, ok, fault, waiting, ◌>>=◌, or_fault, ℤ,
}
use oddjob_gpupdate.Registry.Types.{Context}
use oddjob_gpupdate.Mainloop.Lists.{Loop}
use oddjob_gpupdate.Mainloop.Time.{Timeval}
use oddjob_gpupdate.Mainloop.Prepare.{Sets}
use oddjob_gpupdate.Mainloop.Handle.{World, Selected, Called, mainloop_iterate}
use oddjob_gpupdate.Mainloop.Setup.{Disposition, reset_signal_handlers}

pub record State (B : Type 0) : Type 0 where
  pub ctx : Context
  -- the address of `ctx->services`
  pub array : ℕ
  pub bus : B

-- libdbus: whether `dbus_connection_get_dispatch_status` is DBUS_DISPATCH_DATA_REMAINS,
-- `dbus_connection_dispatch`, `..._has_messages_to_send` and `..._flush`
pub record Libdbus (B : Type 0) : Type 0 where
  pub data_remains : ℕ → B → Bool
  pub dispatch : ℕ → State B → State B
  pub has_messages_to_send : ℕ → B → Bool
  pub flush : ℕ → B → B

module _ {B : Type 0} (lib : Libdbus B) where
  -- `srv->conn`, for the element `i` of the array at this address.
  unfoldable pub conn_at : ℕ → ℕ → State B → Run ℕ
  conn_at array i st =
      if st.array == array
      then (or_fault (get_elem? st.ctx.services i) >>= λ srv. or_fault srv.conn)
      else fault

  unfoldable pub dispatch_all : ℕ → ℕ → ℕ → State B → Run (State B)
  unfolding conn_at
  dispatch_all zero array i st = waiting
  dispatch_all (suc fuel) array i st = conn_at array i st >>= λ conn.
      let more = dispatch_all fuel array i (lib.dispatch conn st) in
      if lib.data_remains conn st.bus then more else ok st

  unfoldable pub flush_all : ℕ → ℕ → ℕ → State B → Run (State B)
  unfolding conn_at
  flush_all zero array i st = waiting
  flush_all (suc fuel) array i st = conn_at array i st >>= λ conn.
      let more = flush_all fuel array i (record st { bus = lib.flush conn st.bus }) in
      if lib.has_messages_to_send conn st.bus then more else ok st

  -- The body of the loop over the services.
  unfoldable pub serve : ℕ → ℕ → State B → Run (State B)
  unfolding dispatch_all flush_all
  serve fuel i st =
      dispatch_all fuel st.array i st >>= λ dispatched. flush_all fuel st.array i dispatched

  -- The loop. Its own fuel is a bound on the number of services.
  unfoldable pub serve_all : ℕ → ℕ → ℕ → State B → Run (State B)
  unfolding serve
  serve_all zero fuel i st = if ltb i (length st.ctx.services) then waiting else ok st
  serve_all (suc n) fuel i st =
      let more = serve fuel i st >>= λ served. serve_all n fuel (i + 1) served in
      if ltb i (length st.ctx.services) then more else ok st

  module _ (w : World) (select : ℕ → Sets → Option Timeval → Selected) where
    -- What one iteration returns, and what it leaves.
    pub record Iterated : Type 0 where
      pub returned : ℤ
      pub signals : List Disposition
      pub loop : Loop
      pub calls : List Called
      pub state : State B

    unfoldable pub main_iterate : ℕ → ℕ → List (Option ℕ) → Loop → State B → Run Iterated
    unfolding serve_all
    main_iterate n fuel clock loop st = do
      (ret, after, calls) ← mainloop_iterate w select clock loop
      served ← serve_all n fuel 0 st
      ok (record {
        returned = ret;
        signals = reset_signal_handlers;
        loop = after;
        calls = calls;
        state = served;
      })
