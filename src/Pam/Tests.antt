-- ===== src/Pam/Tests.antt =====
-- Logins of a user with an account, with and without options.
use oddjob_gpupdate.Prelude.{
  ℕ, ◌≡◌, refl, arith, Bool, true, false, List, [], ◌∷◌, ◌++◌, Option, none, some, Bytes, codes,
  ltb, if◌then◌else◌, ok, fault, str_eq, pos, le→not-ltb, lt→ltb,
}
use oddjob_gpupdate.Util.Memory.{Ample}
use oddjob_gpupdate.Dispatch.Message.{Incoming}
use oddjob_gpupdate.Dispatch.Client.{Bus, connected}
use oddjob_gpupdate.Dispatch.Relay.{Appends, triple}
use oddjob_gpupdate.Pam.{
  erange, present, Passwd, Pam, pam_ignore, timeout_is, own_user, reply_text, no_options,
  parse_args, look_up, conv_text_info, when_debug, take_option, take_timeout, times_1000,
  pam_sm_open_session,
}
use oddjob_gpupdate.Pam.Search.{Needs, look_up-Needs}
use oddjob_gpupdate.Pam.Session.{Login, open_session-own, open_session-answered}

abbrev ample : ℕ → Bool
ample n = true

ample-Ample : Ample ample
ample-Ample n = refl

abbrev ann : Passwd
ann = record { pw_name = codes "ann"; pw_uid = 7 }

-- The module in a process of this user, where "2" is the one number, and entries take 8196 bytes.
abbrev as_user : ℕ → Pam
as_user uid = record {
  fits = ample;
  conversation = true;
  sscanf = λ str. some (pos 2);
  get_user = some (codes "ann");
  getpwnam_r = λ user n. if ltb n 8196 then erange else present ann;
  uid = uid;
  euid = uid;
}

ann-Needs : (uid : ℕ) → Needs (as_user uid) (codes "ann") 8196 (some ann)
ann-Needs uid = record {
  small = omega arith;
  short = λ n h. rw (lt→ltb n 8196 h) refl;
  enough = λ n h. rw (le→not-ltb n 8196 h) refl;
}

look_up-Needs_example : look_up (as_user 0) 2 (codes "ann") 8192 ≡ ok (some ann)
look_up-Needs_example =
    look_up-Needs (as_user 0) (codes "ann") ample-Ample 8196 8192 1 (some ann) (ann-Needs 0)
      (omega arith) (omega arith)

abbrev options : List Bytes
options = codes "debug" ∷ codes "dbus_timeout=2" ∷ []

parsed :
    (uid : ℕ)
    → parse_args (as_user uid) options no_options
      ≡ ok (record { debug = true; dbus_timeout_given = true; dbus_timeout = pos 2000; shown = [] })
unfolding parse_args str_eq
parsed uid = refl

abbrev ann_login : (uid : ℕ) → Login (as_user uid) ample-Ample options 1
ann_login uid = record {
  options = record { debug = true; dbus_timeout_given = true; dbus_timeout = pos 2000; shown = [] };
  user = codes "ann";
  pw = ann;
  need = 8196;
  parses = parsed uid;
  named = refl;
  not_empty = refl;
  entry = ann-Needs uid;
  rounds = omega arith;
}

abbrev context_reply : Bytes → Option Bytes
context_reply sender = none

abbrev reply : Incoming
reply = record {
  sender = some (codes ":1.7");
  destination = none;
  path = none;
  interface = none;
  member = none;
  is_call = false;
  from_bus = false;
  at_bus = false;
  at_local = false;
  bus_signal = false;
  local_signal = false;
  serial = 4;
  arguments = triple (pos 0) (codes "done") [];
}

abbrev bus : Bus
bus = record {
  connection = connected 3;
  makes_call = true;
  append_args = λ given a. given ++ a ∷ [];
  send = λ conn target arguments. record { reply = some reply; err = none };
}

bus-Appends : Appends bus.append_args
bus-Appends given a = refl

open_session-own_example :
    pam_sm_open_session (as_user 7) false context_reply bus 2 options
    ≡ ok (pam_ignore, timeout_is (pos 2000) ∷ own_user (codes "ann") 7 ∷ [])
unfolding conv_text_info when_debug
open_session-own_example =
    open_session-own (as_user 7) ample-Ample false context_reply bus options 1 (ann_login 7) refl

open_session-answered_example :
    pam_sm_open_session (as_user 0) false context_reply bus 2 options
    ≡ ok (pam_ignore, timeout_is (pos 2000) ∷ reply_text (codes "done") ∷ [])
unfolding conv_text_info when_debug
open_session-answered_example =
    open_session-answered (as_user 0) ample-Ample false context_reply bus options 1 (ann_login 0) 3
      reply (pos 0) (codes "done") [] refl bus-Appends refl refl refl refl
      (omega arith, (omega arith, (omega arith, (omega arith, tt)))) tt

-- A timeout of 2147484 seconds is no `int` in milliseconds.
abbrev long_timeout : Pam
long_timeout = record (as_user 0) { sscanf = λ str. some (pos 2147484) }

timeout_overflows : parse_args long_timeout (codes "dbus_timeout=2147484" ∷ []) no_options ≡ fault
unfolding parse_args take_option take_timeout times_1000 str_eq
timeout_overflows = refl
