-- ===== src/Mainloop/Setup.antt =====
-- The functions of src/mainloop.c that hand its callbacks to libdbus, and that reset the signals.
use oddjob_gpupdate.Prelude.{ℕ, List, [], ◌∷◌, Option, none, some}
use oddjob_gpupdate.Mainloop.Lists.{Loop}

-- The functions that libdbus calls: `watch_dbus_add` and its like.
pub data Callback : Type 0 where
  watch_adder : Callback
  watch_remover : Callback
  watch_toggler : Callback
  timeout_adder : Callback
  timeout_remover : Callback
  timeout_toggler : Callback

-- The three functions for a connection; none is NULL. No data goes with them.
pub record Callbacks : Type 0 where
  pub add : Option Callback
  pub remove : Option Callback
  pub toggle : Option Callback

-- `dbus_connection_set_watch_functions` and `..._set_timeout_functions`
pub data Setting : Type 0 where
  set_watch_functions : ℕ → Callbacks → Setting
  set_timeout_functions : ℕ → Callbacks → Setting

-- The two toggles do nothing.
unfoldable pub watch_dbus_toggle : ℕ → Loop → Loop
watch_dbus_toggle d s = s

unfoldable pub timeout_dbus_toggle : ℕ → Loop → Loop
timeout_dbus_toggle t s = s

unfoldable pub mainloop_connect : ℕ → List Setting
mainloop_connect conn =
    set_watch_functions conn
      (record { add = some watch_adder; remove = some watch_remover; toggle = some watch_toggler })
    ∷ set_timeout_functions conn (record {
      add = some timeout_adder;
      remove = some timeout_remover;
      toggle = some timeout_toggler;
    })
    ∷ []

abbrev no_callbacks : Callbacks
no_callbacks = record { add = none; remove = none; toggle = none }

unfoldable pub mainloop_disconnect : ℕ → List Setting
mainloop_disconnect conn =
    set_watch_functions conn no_callbacks ∷ set_timeout_functions conn no_callbacks ∷ []

pub data Signal : Type 0 where
  sigalrm sigint sigquit sigill sigabrt sigkill sigsegv sigpipe sigterm sigchld sigcont sigstop :
      Signal

-- A call of `signal`, for SIG_DFL or SIG_IGN.
pub data Disposition : Type 0 where
  sig_dfl : Signal → Disposition
  sig_ign : Signal → Disposition

-- All of these signals are defined.
unfoldable pub reset_signal_handlers : List Disposition
reset_signal_handlers =
    sig_dfl sigalrm
    ∷ sig_dfl sigint
    ∷ sig_dfl sigquit
    ∷ sig_dfl sigill
    ∷ sig_dfl sigabrt
    ∷ sig_dfl sigkill
    ∷ sig_dfl sigsegv
    ∷ sig_ign sigpipe
    ∷ sig_dfl sigterm
    ∷ sig_dfl sigchld
    ∷ sig_dfl sigcont
    ∷ sig_dfl sigstop
    ∷ []
