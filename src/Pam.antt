-- ===== src/Pam.antt =====
-- src/pam_oddjob_gpupdate.c: the PAM module, which has the daemon apply a user's policies when the
-- user logs in.
--
-- PAM, the C library and the bus are parameters. A text for the user is named by its occasion; the
-- code cuts it to 127 bytes. `waiting` is a search for the account that the fuel does not end.
pub mod Search
pub mod Session
mod Tests
use oddjob_gpupdate.Prelude.{
  ℕ, zero, suc, ◌+◌, ◌*◌, ◌%◌, ◌^◌, Bool, true, false, not, ◌&&◌, ◌||◌, List, [], ◌∷◌, ◌++◌, Option,
  none, some, Bytes, codes, ltb, leb, ◌==◌, str_eq, if◌then◌else◌, length, Run, ok, fault, waiting,
  ◌>>=◌, ℤ, pos, negsuc, neg,
}
use oddjob_gpupdate.Dispatch.Client.{Slot, Results, Target, Bus, call_method}

-- The texts that `conv_text_info` is called with.
pub data Info : Type 0 where
  bad_timeout : Bytes → Info
  unknown_option : Bytes → Info
  timeout_is : ℤ → Info
  own_user : Bytes → ℕ → Info
  reply_text : Bytes → Info

-- `struct passwd`
pub record Passwd : Type 0 where
  pub pw_name : Bytes
  pub pw_uid : ℕ

-- `getpwnam_r`: no room for the entry, no entry or another error, or the entry.
pub data Lookup : Type 0 where
  erange : Lookup
  absent : Lookup
  present : Passwd → Lookup

pub record Pam : Type 0 where
  pub fits : ℕ → Bool
  -- whether there is a conversation with a function
  pub conversation : Bool
  -- `sscanf(str, "%d", &intarg)`
  pub sscanf : Bytes → Option ℤ
  pub get_user : Option Bytes
  pub getpwnam_r : Bytes → ℕ → Lookup
  pub uid : ℕ
  pub euid : ℕ

-- `optmask`, `dbus_timeout`, and the texts shown.
pub record Options : Type 0 where
  pub debug : Bool
  pub dbus_timeout_given : Bool
  pub dbus_timeout : ℤ
  pub shown : List Info

abbrev pub no_options : Options
no_options = record {
  debug = false;
  dbus_timeout_given = false;
  dbus_timeout = negsuc 0;
  shown = [];
}

pub data PamResult : Type 0 where
  pam_ignore : PamResult

-- `_pam_str_skip_prefix_len`
unfoldable pub skip_prefix : Bytes → Bytes → Option Bytes
skip_prefix [] str = some str
skip_prefix (c ∷ prefix) [] = none
skip_prefix (c ∷ prefix) (d ∷ str) =
    let rest = skip_prefix prefix str in if c == d then rest else none

-- `intarg * 1000`, which overflows an `int`.
unfoldable pub times_1000 : ℤ → Run ℤ
times_1000 (pos n) = if ltb (n * 1000) (2 ^ 31) then ok (pos (n * 1000)) else fault
times_1000 (negsuc n) = if leb ((n + 1) * 1000) (2 ^ 31) then ok (neg ((n + 1) * 1000)) else fault

module _ (pam : Pam) where
  unfoldable pub conv_text_info : Info → List Info
  conv_text_info info = if pam.conversation then info ∷ [] else []

  -- `if (optmask & PAM_DEBUG_ARG)` around a text.
  unfoldable pub when_debug : Info → Options → Options
  unfolding conv_text_info
  when_debug info o = if o.debug then record o { shown = o.shown ++ conv_text_info info } else o

  -- The option "dbus_timeout=", with what follows it.
  unfoldable pub take_timeout : Bytes → Options → Run Options
  unfolding when_debug times_1000
  take_timeout str o = elim (pam.sscanf str) [
    | none ↦ ok (when_debug (bad_timeout str) o)
    | some intarg ↦
        times_1000 intarg >>= λ t. ok (record o { dbus_timeout_given = true; dbus_timeout = t })
  ]

  unfoldable pub take_option : Bytes → Options → Run Options
  unfolding take_timeout skip_prefix
  take_option arg o =
      if str_eq arg (codes "debug")
      then ok (record o { debug = true })
      else elim (skip_prefix (codes "dbus_timeout=") arg) [
        | some str ↦ take_timeout str o
        | none ↦ ok (when_debug (unknown_option arg) o)
      ]

  unfoldable pub parse_args : List Bytes → Options → Run Options
  unfolding take_option
  parse_args [] o = ok o
  parse_args (arg ∷ argv) o = take_option arg o >>= λ p. parse_args argv p

  -- The loop around `getpwnam_r`. Its fuel is a number of rounds.
  unfoldable pub look_up : ℕ → Bytes → ℕ → Run (Option Passwd)
  look_up zero user bufsize = waiting
  look_up (suc fuel) user bufsize =
      let again = look_up fuel user ((bufsize + 4) % 2 ^ 64) in
      if pam.fits bufsize
      then elim (pam.getpwnam_r user bufsize) [
        | erange ↦ again
        | absent ↦ ok none
        | present pw ↦ ok (some pw)
      ]
      else ok none

  module _ (selinux : Bool) (context_reply : Bytes → Option Bytes) (bus : Bus) where
    -- The method of the daemon.
    abbrev pub gpupdatefor : ℤ → Target
    gpupdatefor dbus_timeout = record {
      service = some (codes "ru.basealt.oddjob_gpupdate");
      object_path = codes "/";
      interface = some (codes "ru.basealt.oddjob_gpupdate");
      method = codes "gpupdatefor";
      timeout_milliseconds = dbus_timeout;
    }

    -- `&result`, `&reply`, `&reply_size`, and no place for an error. `reply_size` starts at -1; it is
    -- written with `reply`, so that it is not positive while `reply` is NULL.
    abbrev pub nothing_yet : Results
    nothing_yet = record {
      result = some (pos 0);
      output = record { wanted = true; text = none; text_length = 0 };
      error = record { wanted = false; text = none; text_length = 0 };
    }

    -- `if ((reply_size > 0) && (reply != NULL))`
    unfoldable pub show_reply : Slot → List Info
    unfolding conv_text_info
    show_reply output = elim output.text [
      | none ↦ []
      | some reply ↦ if ltb 0 output.text_length then conv_text_info (reply_text reply) else []
    ]

    -- For an account that was found.
    unfoldable pub ask_daemon : Bytes → Passwd → Options → Run (List Info)
    unfolding when_debug show_reply
    ask_daemon user pw o =
        if not (pam.uid == pw.pw_uid) || not (pam.euid == pw.pw_uid)
        then (call_method pam.fits selinux context_reply bus (gpupdatefor o.dbus_timeout)
              (user ∷ []) nothing_yet
            >>= λ called. ok (o.shown ++ show_reply called.0.output))
        else ok (when_debug (own_user pw.pw_name pw.pw_uid) o).shown

    unfoldable pub look_and_ask : ℕ → Bytes → Options → Run (List Info)
    unfolding look_up ask_daemon
    look_and_ask fuel user o = look_up fuel user 8192 >>= λ found. elim found [
      | none ↦ ok o.shown
      | some pw ↦ ask_daemon user pw o
    ]

    -- The texts shown.
    unfoldable pub send_request : ℕ → List Bytes → Run (List Info)
    unfolding parse_args look_and_ask
    send_request fuel argv = do
      parsed ← parse_args argv no_options
      let o = when_debug (timeout_is parsed.dbus_timeout) parsed
      (elim pam.get_user [
        | none ↦ ok o.shown
        | some user ↦ if ltb 0 (length user) then look_and_ask fuel user o else ok o.shown
      ])

    unfoldable pub pam_sm_open_session : ℕ → List Bytes → Run (PamResult × List Info)
    unfolding send_request
    pam_sm_open_session fuel argv = send_request fuel argv >>= λ shown. ok (pam_ignore, shown)

    unfoldable pub pam_sm_acct_mgmt : ℕ → List Bytes → Run (PamResult × List Info)
    unfolding send_request
    pam_sm_acct_mgmt fuel argv = send_request fuel argv >>= λ shown. ok (pam_ignore, shown)

unfoldable pub pam_sm_close_session : List Bytes → PamResult
pam_sm_close_session argv = pam_ignore
