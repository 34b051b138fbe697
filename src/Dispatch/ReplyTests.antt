-- ===== src/Dispatch/ReplyTests.antt =====
-- A reply, the signal next to it, and a caller that gets the reply or an error.
use oddjob_gpupdate.Prelude.{
  codes, ℕ, ◌≡◌, refl, arith, Bool, true, false, List, [], ◌∷◌, ◌++◌, Option, none, some, Bytes, ok,
  fault, ◌>>=◌, pos, negsuc,
}
use oddjob_gpupdate.Util.Memory.{Ample}
use oddjob_gpupdate.Buffer.{Buffer}
use oddjob_gpupdate.Buffer.Contents.{contents}
use oddjob_gpupdate.Dispatch.Message.{Incoming, Message}
use oddjob_gpupdate.Dispatch.Reply.{Libdbus, method_return, response_text, response_success}
use oddjob_gpupdate.Dispatch.Client.{DbusError, Slot, Results, Target, Bus, connected, call_method}
use oddjob_gpupdate.Dispatch.Relay.{
  Appends, HoldsText, Named, triple, sent, response_success-sent, response-unnamed,
}
use oddjob_gpupdate.Dispatch.Called.{answered, all_holding, no_reply, call_method-Fails}
use oddjob_gpupdate.Dispatch.Exchange.{bus_of, response_success-call_method}

abbrev ample : ℕ → Bool
ample n = true

ample-Ample : Ample ample
ample-Ample n = refl

abbrev lib : Libdbus
lib = record {
  makes_return = true;
  makes_signal = true;
  makes_error = true;
  takes_destination = true;
  append_args = λ given a. given ++ a ∷ [];
}

lib-Appends : Appends lib.append_args
lib-Appends given a = refl

abbrev call : Incoming
call = record {
  sender = some (codes ":1.7");
  destination = some (codes "a");
  path = some (codes "/");
  interface = some (codes "i");
  member = some (codes "m");
  is_call = true;
  from_bus = false;
  at_bus = false;
  at_local = false;
  bus_signal = false;
  local_signal = false;
  serial = 4;
  arguments = [];
}

abbrev message_of : Incoming → Message
message_of m = record {
  conn = 3;
  msg = some m;
  result = pos 0;
  n_args = 0;
  args = [];
  selinux_context = none;
}

abbrev unnamed : Incoming
unnamed = record call { interface = none }

call-Named : Named lib lib-Appends (message_of call)
call-Named = record {
  call = call;
  path = codes "/";
  interface = codes "i";
  member = codes "m";
  sender = codes ":1.7";
  has_call = refl;
  has_path = refl;
  has_interface = refl;
  has_member = refl;
  has_sender = refl;
}

-- One spare byte, "ok" and "" with their NULs.
abbrev out : Buffer
out = record { bytes = 9 ∷ b'o' ∷ b'k' ∷ 0 ∷ 7 ∷ []; size = 5; spare = 1; used = 2 }

abbrev err : Buffer
err = record { bytes = 0 ∷ 7 ∷ []; size = 2; spare = 0; used = 0 }

out-HoldsText : HoldsText out
out-HoldsText = record { terminated = refl; no_nul = (omega arith, (omega arith, tt)) }

err-HoldsText : HoldsText err
err-HoldsText = record { terminated = refl; no_nul = tt }

response_success-sent_example :
    response_success lib (message_of call) (pos 0) out err true
    ≡ ok (sent lib lib-Appends call-Named true (triple (pos 0) (contents out) (contents err)))
response_success-sent_example =
    response_success-sent lib lib-Appends (message_of call) call-Named (pos 0) out err true
      out-HoldsText err-HoldsText

response-unnamed_example :
    (response_text lib (message_of unnamed) (pos 0) none false ≡ fault)
    × (response_success lib (message_of unnamed) (pos 0) out err false ≡ fault)
response-unnamed_example =
    response-unnamed lib lib-Appends (message_of unnamed) unnamed (pos 0) none out err false refl
      refl out-HoldsText err-HoldsText

text_reply :
    response_text lib (message_of call) (negsuc 0) none false
    ≡ ok (record { header = method_return call; arguments = triple (negsuc 0) [] [] } ∷ [])
unfolding response_text
text_reply = refl

abbrev target : Target
target = record {
  service = some (codes "a");
  object_path = codes "/";
  interface = some (codes "i");
  method = codes "m";
  timeout_milliseconds = negsuc 0;
}

abbrev empty_slot : Slot
empty_slot = record { wanted = true; text = none; text_length = 0 }

-- A caller that wants no error text.
abbrev asked : Results
asked = record {
  result = some (pos 9);
  output = empty_slot;
  error = record empty_slot { wanted = false };
}

abbrev context_reply : Bytes → Option Bytes
context_reply sender = none

abbrev args : List Bytes
args = codes "x" ∷ codes "y" ∷ []

response_success-call_method_example :
    (response_success lib (message_of call) (pos 0) out err false >>= λ messages.
    call_method ample false context_reply (bus_of lib call messages) target args asked)
    ≡ ok (answered (pos 0) (contents out) (contents err) asked, pos 0)
response_success-call_method_example =
    response_success-call_method ample ample-Ample lib lib-Appends false context_reply call
      (message_of call) (pos 0) out err false target args asked call-Named refl out-HoldsText
      err-HoldsText (omega arith)

abbrev busy : DbusError
busy = record { name = codes "N"; message = codes "busy" }

-- A bus on which nothing replies.
abbrev silent : Bus
silent = record {
  connection = connected 3;
  makes_call = true;
  append_args = lib.append_args;
  send = λ conn target arguments. record { reply = none; err = some busy };
}

call_method-Fails_example :
    call_method ample false context_reply silent target args asked
    ≡ ok (all_holding (codes "N: busy") (record asked { result = some (pos 0) }), negsuc 0)
call_method-Fails_example =
    call_method-Fails ample ample-Ample false context_reply silent lib-Appends target args asked
      busy (negsuc 0) (some (pos 0)) (omega arith) (no_reply 3 refl refl refl)
