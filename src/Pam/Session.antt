-- ===== src/Pam/Session.antt =====
-- A login: what the module asks of the daemon, and what the user is shown.
use oddjob_gpupdate.Prelude.{
  ℕ, suc, ◌+◌, ◌*◌, ◌≤◌, ◌≡◌, refl, arith, Bool, true, false, not, ◌&&◌, ◌||◌, List, [], ◌∷◌, ◌++◌,
  Option, none, some, Bytes, NoNul, ltb, ◌==◌, length, if◌then◌else◌, ok, ℤ,
}
use oddjob_gpupdate.Util.Memory.{Ample}
use oddjob_gpupdate.Dispatch.Message.{Incoming}
use oddjob_gpupdate.Dispatch.Client.{connected, Bus}
use oddjob_gpupdate.Dispatch.Relay.{Appends, triple}
use oddjob_gpupdate.Dispatch.Called.{as_arguments, call_method-answered}
use oddjob_gpupdate.Pam.{
  Info, timeout_is, own_user, reply_text, Passwd, Pam, Options, no_options, pam_ignore,
  conv_text_info, when_debug, parse_args, show_reply, gpupdatefor, nothing_yet, ask_daemon,
  look_and_ask, send_request, pam_sm_open_session,
}
use oddjob_gpupdate.Pam.Search.{Needs, look_up-Needs}

module _ (pam : Pam) (ample : Ample pam.fits) where
  -- A user who has an account, of which the entry fits 8192 bytes and what the fuel adds.
  pub record Login (argv : List Bytes) (fuel : ℕ) : Type 0 where
    pub options : Options
    pub user : Bytes
    pub pw : Passwd
    pub need : ℕ
    pub parses : parse_args pam argv no_options ≡ ok options
    pub named : pam.get_user ≡ some user
    pub not_empty : ltb 0 (length user) ≡ true
    pub entry : Needs pam user need (some pw)
    pub rounds : need ≤ 8192 + 4 * fuel

  -- The options, and the texts shown before the account is looked up.
  abbrev pub begun : Options → Options
  begun o = when_debug pam (timeout_is o.dbus_timeout) o

  -- Whether the process has the user's IDs.
  abbrev pub is_own : Passwd → Bool
  is_own pw = pam.uid == pw.pw_uid && pam.euid == pw.pw_uid

  module _ (selinux : Bool) (context_reply : Bytes → Option Bytes) where
    look_and_ask_lem :
        (bus : Bus) (argv : List Bytes) (fuel : ℕ) (l : Login argv fuel)
        → look_and_ask pam selinux context_reply bus (suc fuel) l.user (begun l.options)
          ≡ ask_daemon pam selinux context_reply bus l.user l.pw (begun l.options)
    unfolding look_and_ask
    look_and_ask_lem bus argv fuel l =
        rw
          (look_up-Needs pam l.user ample l.need 8192 fuel (some l.pw) l.entry (omega arith)
            l.rounds)
          refl

    open_session_lem :
        (bus : Bus) (argv : List Bytes) (fuel : ℕ) (l : Login argv fuel) (shown : List Info)
        → ask_daemon pam selinux context_reply bus l.user l.pw (begun l.options) ≡ ok shown
        → pam_sm_open_session pam selinux context_reply bus (suc fuel) argv ≡ ok (pam_ignore, shown)
    unfolding pam_sm_open_session send_request
    open_session_lem bus argv fuel l shown e =
        rw l.parses
          (rw l.named (rw l.not_empty (rw (look_and_ask_lem bus argv fuel l) (rw e refl))))

    -- With memory for every request, for options that parse_args reads without overflow, and a
    -- user with a name that is not empty and an account that getpwnam_r finds in a buffer within
    -- the fuel, in a process with the real and effective ID of this user, be it the superuser or
    -- not: whatever the bus would answer, pam_sm_open_session returns PAM_IGNORE, and shows only
    -- the texts of the options and, with "debug", that the user is ignored.
    pub open_session-own :
        (bus : Bus) (argv : List Bytes) (fuel : ℕ) (l : Login argv fuel)
        → is_own l.pw ≡ true
        → pam_sm_open_session pam selinux context_reply bus (suc fuel) argv
          ≡ ok (
            pam_ignore,
            (when_debug pam (own_user l.pw.pw_name l.pw.pw_uid) (begun l.options)).shown,
          )
    unfolding ask_daemon
    open_session-own bus argv fuel l t =
        let own : (not (pam.uid == l.pw.pw_uid) || not (pam.euid == l.pw.pw_uid)) ≡ false =
          ground arith in
        open_session_lem bus argv fuel l _ (rw own refl)

    -- With memory for every request, for options that parse_args reads without overflow, and a
    -- user with a name that is not empty and an account that getpwnam_r finds in a buffer within
    -- the fuel, in a process that does not have both IDs of this user, with superuser privileges
    -- or without: where the bus answers the call of gpupdatefor, with the name of the user as
    -- its one argument and the timeout of the options, by a result and two texts without a NUL,
    -- pam_sm_open_session returns PAM_IGNORE; the user has been shown the texts of the options
    -- and then the first text of the answer, if it is not empty.
    pub open_session-answered :
        (bus : Bus) (argv : List Bytes) (fuel : ℕ) (l : Login argv fuel)
        → (conn : ℕ) (reply : Incoming) (result : ℤ) (out err : Bytes) → is_own l.pw ≡ false
        → Appends bus.append_args
        → bus.connection ≡ connected conn
        → bus.makes_call ≡ true
        → bus.send conn
            (gpupdatefor pam selinux context_reply bus (begun l.options).dbus_timeout)
            (as_arguments (l.user ∷ []))
          ≡ record { reply = some reply; err = none }
        → reply.arguments ≡ triple result out err
        → NoNul out
        → NoNul err
        → pam_sm_open_session pam selinux context_reply bus (suc fuel) argv
          ≡ ok (
            pam_ignore,
            (begun l.options).shown
                ++ (if ltb 0 (length out) then conv_text_info pam (reply_text out) else []),
          )
    unfolding ask_daemon show_reply
    open_session-answered bus argv fuel l conn reply result out err t appends c m s a h k =
        let other : (not (pam.uid == l.pw.pw_uid) || not (pam.euid == l.pw.pw_uid)) ≡ true =
          ground arith in
        let called =
          call_method-answered pam.fits ample selinux context_reply bus appends conn
            (gpupdatefor pam selinux context_reply bus (begun l.options).dbus_timeout) (l.user ∷ [])
            (nothing_yet pam selinux context_reply bus) reply result out err (omega arith) c m s a h
            k in
        open_session_lem bus argv fuel l _ (rw other (rw called refl))
