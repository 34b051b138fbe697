-- ===== src/Dispatch/Exchange.antt =====
-- A handler's reply, carried over the bus to the caller.
use oddjob_gpupdate.Prelude.{
  ℕ, ◌+◌, ◌≤◌, ◌≡◌, refl, Bool, true, List, [], ◌∷◌, ◌++◌, Option, none, some, Bytes, length, ok,
  ◌>>=◌, ℤ, pos, if◌then◌else◌,
}
use oddjob_gpupdate.Util.Memory.{Ample}
use oddjob_gpupdate.Buffer.{Buffer}
use oddjob_gpupdate.Buffer.Contents.{contents}
use oddjob_gpupdate.Dispatch.Message.{Argument, Incoming, Message}
use oddjob_gpupdate.Dispatch.Reply.{Libdbus, Outgoing, response_success}
use oddjob_gpupdate.Dispatch.Client.{connected, Results, Answer, Target, Bus, call_method}
use oddjob_gpupdate.Dispatch.Relay.{Appends, HoldsText, Named, triple, sent, response_success-sent}
use oddjob_gpupdate.Dispatch.Called.{answered, call_method-answered}

-- The first of the messages sent is the answer, with the header that the bus gives it.
abbrev pub relay : Incoming → List Outgoing → Answer
relay header [] = record { reply = none; err = none }
relay header (x ∷ _) = record {
  reply = some (record header { arguments = x.arguments });
  err = none;
}

abbrev pub bus_of : Libdbus → Incoming → List Outgoing → Bus
bus_of lib header messages = record {
  connection = connected 0;
  makes_call = true;
  append_args = lib.append_args;
  send = λ conn target arguments. relay header messages;
}

module _ (fits : ℕ → Bool) (ample : Ample fits) (lib : Libdbus) (appends : Appends lib.append_args)
    (selinux : Bool) (context_reply : Bytes → Option Bytes) where
  relay-sent :
      (header : Incoming) (msg : Message) (n : Named lib appends msg) (also_signal : Bool)
      (a : List Argument)
      → lib.makes_return ≡ true
      → relay header (sent lib appends n also_signal a)
        ≡ record { reply = some (record header { arguments = a }); err = none }
  relay-sent header msg n also_signal a t = first_sent _ _ t
    where
      first_sent :
          (x : Outgoing) (more : List Outgoing) {b : Bool}
          → b ≡ true
          → relay header ((if b then x ∷ [] else []) ++ more)
            ≡ record { reply = some (record header { arguments = x.arguments }); err = none }
      first_sent x more e = rw e refl

  -- With memory for the caller's requests and for the reply and its arguments, where a handler
  -- answers a call that names its path, interface, member and sender by
  -- oddjob_dbus_send_message_response_success with two buffers that hold texts, each ended by a
  -- NUL and with no other, and the bus gives the arguments of the first message sent, which is
  -- the reply, to oddjob_dbus_call_method of at most 65534 arguments: that returns 0 and the
  -- result of the handler, and, where the caller wants them, the texts of the two buffers and
  -- their lengths.
  pub response_success-call_method :
      (header : Incoming) (msg : Message) (result : ℤ) (outc errc : Buffer) (also_signal : Bool)
      → (target : Target) (args : List Bytes) (r : Results) → Named lib appends msg
      → lib.makes_return ≡ true
      → HoldsText outc
      → HoldsText errc
      → length args + 1 ≤ 0xffff
      → (response_success lib msg result outc errc also_signal >>= λ messages.
          call_method fits selinux context_reply (bus_of lib header messages) target args r)
        ≡ ok (answered result (contents outc) (contents errc) r, pos 0)
  response_success-call_method header msg result outc errc also_signal target args r n t h k l =
      let a = triple result (contents outc) (contents errc) in
      rw (response_success-sent lib appends msg n result outc errc also_signal h k) (
        call_method-answered fits ample selinux context_reply
          (bus_of lib header (sent lib appends n also_signal a)) appends 0 target args r
          (record header { arguments = a }) result (contents outc) (contents errc) l refl refl
          (relay-sent header msg n also_signal a t) refl h.no_nul k.no_nul)
