-- ===== src/Dispatch/Relay.antt =====
-- What the replies carry, and what the caller of the method gets.
use oddjob_gpupdate.Prelude.{
  ◌≡◌, refl, sym, ◌∙◌, ap, arith, inl, inr, Bool, Bool-cases, true, false, not, ◌&&◌, List, [], ◌∷◌,
  ◌++◌, Option, Option-cases, none, some, Bytes, NoNul, ltb, if◌then◌else◌, drop, get_elem?,
  get_elem?-drop, Run, ok, fault, ℤ,
}
use mathlib.Core.List.{append-nil}
use oddjob_gpupdate.Buffer.{Buffer, strlen, buffer_length, data_at, clear}
use oddjob_gpupdate.Buffer.Contents.{contents, IsTerminated}
use oddjob_gpupdate.Buffer.Text.{strlen-data_at}
use oddjob_gpupdate.Dispatch.Message.{Argument, string, int32, Incoming, Message}
use oddjob_gpupdate.Dispatch.Reply.{
  Libdbus, method_return, signal, Outgoing, c_string, success_texts, response_success_int,
  send_signal, send_return, is_some, send_response, response_success, response_text,
}

-- An argument is appended where there is memory for it.
abbrev pub Appends : (List Argument → Argument → List Argument) → Type 0
Appends append_args = (given : List Argument) (a : Argument) → append_args given a ≡ given ++ a ∷ []

-- A NUL behind the string of the buffer, and none in it.
pub record HoldsText (b : Buffer) : Type 0 where
  pub terminated : IsTerminated b
  pub no_nul : NoNul (contents b)

abbrev pub triple : ℤ → Bytes → Bytes → List Argument
triple result out err = int32 result ∷ string out ∷ string err ∷ []

if_ok : {A : Type 0} (b : Bool) (x y : A) → (if b then ok x else ok y) ≡ ok (if b then x else y)
if_ok true x y = refl
if_ok false x y = refl

c_string-data_at : (b : Buffer) → HoldsText b → c_string (data_at b) ≡ ok (contents b)
unfolding c_string data_at buffer_length
c_string-data_at b h =
    let e : strlen (drop b.spare b.bytes) ≡ some b.used =
      unfold data_at buffer_length in strlen-data_at b h.terminated h.no_nul in
    rw e refl

c_string-emptied : (b : Buffer) → HoldsText b → c_string (data_at (clear b)) ≡ ok (contents b)
unfolding data_at clear
c_string-emptied b h = unfold data_at in c_string-data_at b h

module _ (lib : Libdbus) (appends : Appends lib.append_args) where
  success_texts_lem :
      (result : ℤ) (outc errc : Buffer) (out err : Bytes)
      → c_string (data_at outc) ≡ ok out
      → c_string (data_at errc) ≡ ok err
      → success_texts lib result outc errc ≡ ok (triple result out err)
  unfolding success_texts
  success_texts_lem result outc errc out err e f = rw e (
      rw f (
        rw (appends [] (int32 result)) (
          rw (appends (int32 result ∷ []) (string out))
            (rw (appends (int32 result ∷ string out ∷ []) (string err)) refl))))

  response_success_int_lem :
      (result : ℤ) (outc errc : Buffer)
      → HoldsText outc
      → HoldsText errc
      → response_success_int lib result outc errc
        ≡ ok (triple result (contents outc) (contents errc))
  unfolding response_success_int
  response_success_int_lem result outc errc h k =
      let texts =
        success_texts_lem result outc errc _ _ (c_string-data_at outc h)
          (c_string-data_at errc k) in
      let nul : get_elem? (data_at outc) (buffer_length outc) ≡ some 0 =
        unfold data_at buffer_length in
        get_elem?-drop outc.spare outc.used outc.bytes ∙ h.terminated in
      elim (Bool-cases (ltb 0 (buffer_length outc))) [
        | inl t ↦ rw t (rw nul texts)
        | inr f ↦ rw f texts
      ]

  -- An emptied buffer is read like one that still holds its text.
  response_success_int_emptied :
      (result : ℤ) (outc errc : Buffer)
      → HoldsText outc
      → HoldsText errc
      → response_success_int lib result (clear outc) errc
        ≡ ok (triple result (contents outc) (contents errc))
  unfolding response_success_int
  response_success_int_emptied result outc errc h k =
      let none_used : ltb 0 (buffer_length (clear outc)) ≡ false =
        unfold buffer_length clear in refl in
      rw none_used (
        success_texts_lem result (clear outc) errc _ _ (c_string-emptied outc h)
          (c_string-data_at errc k))

  -- A method call that names its interface, from a sender.
  pub record Named (msg : Message) : Type 0 where
    pub call : Incoming
    pub path : Bytes
    pub interface : Bytes
    pub member : Bytes
    pub sender : Bytes
    pub has_call : msg.msg ≡ some call
    pub has_path : call.path ≡ some path
    pub has_interface : call.interface ≡ some interface
    pub has_member : call.member ≡ some member
    pub has_sender : call.sender ≡ some sender

  -- The reply and the signal that are sent with the arguments.
  abbrev pub returned : {msg : Message} → Named msg → List Argument → List Outgoing
  returned n a =
      if lib.makes_return then record { header = method_return n.call; arguments = a } ∷ [] else []

  abbrev pub signalled : {msg : Message} → Named msg → List Argument → List Outgoing
  signalled n a =
      if lib.makes_signal && lib.takes_destination
      then record {
        header = signal n.path n.interface n.member n.call.serial n.sender;
        arguments = a;
      }
        ∷ []
      else []

  abbrev pub sent : {msg : Message} → Named msg → Bool → List Argument → List Outgoing
  sent n also_signal a = returned n a ++ (if also_signal then signalled n a else [])

  send_return_lem :
      (call : Incoming) (arguments : Run (List Argument)) (a : List Argument)
      → arguments ≡ ok a
      → send_return lib arguments call
        ≡ ok (
            if lib.makes_return
            then record { header = method_return call; arguments = a } ∷ []
            else [])
  unfolding send_return
  send_return_lem call arguments a e = rw e (if_ok lib.makes_return _ _)

  send_signal_lem :
      (msg : Message) (n : Named msg) (arguments : Run (List Argument)) (a : List Argument)
      → arguments ≡ ok a
      → send_signal lib arguments n.call ≡ ok (signalled n a)
  unfolding send_signal
  send_signal_lem msg n arguments a e =
      rw (n.has_path, n.has_interface, n.has_member, n.has_sender)
        (rw e (if_ok (lib.makes_signal && lib.takes_destination) _ _))

  send_response_lem :
      (msg : Message) (n : Named msg) (also_signal : Bool) (arguments : Run (List Argument))
      (a : List Argument)
      → arguments ≡ ok a
      → send_response lib arguments msg also_signal ≡ ok (sent n also_signal a)
  unfolding send_response
  send_response_lem msg n true arguments a e =
      rw n.has_call
        (rw (send_return_lem n.call arguments a e) (rw (send_signal_lem msg n arguments a e) refl))
  send_response_lem msg n false arguments a e =
      rw n.has_call (
        rw (send_return_lem n.call arguments a e) (rw n.has_interface (ap ok (sym (append-nil _)))))

  -- Where the arguments of messages can be appended, for a call that names its path, interface,
  -- member and sender, and two buffers that hold texts, each ended by a NUL and with no other,
  -- oddjob_dbus_send_message_response_success sends a reply, if libdbus makes one, and, if a
  -- signal is asked for and libdbus makes it and takes its destination, a signal of the same
  -- path, interface and member with the serial of the call to its sender; each has the result
  -- and the two texts as its arguments.
  pub response_success-sent :
      (msg : Message) (n : Named msg) (result : ℤ) (outc errc : Buffer) (also_signal : Bool)
      → HoldsText outc
      → HoldsText errc
      → response_success lib msg result outc errc also_signal
        ≡ ok (sent n also_signal (triple result (contents outc) (contents errc)))
  unfolding response_success
  response_success-sent msg n result outc errc also_signal h k =
      send_response_lem msg n also_signal _ _ (response_success_int_lem result outc errc h k)

  -- Where the arguments of messages can be appended, for a call that names its path, interface,
  -- member and sender, and two buffers that hold texts, each ended by a NUL and with no other,
  -- oddjob_dbus_send_message_response_success sends the same whether or not oddjob_buffer_clear
  -- has been called for the first buffer.
  pub response_success-emptied :
      (msg : Message) (n : Named msg) (result : ℤ) (outc errc : Buffer) (also_signal : Bool)
      → HoldsText outc
      → HoldsText errc
      → response_success lib msg result (clear outc) errc also_signal
        ≡ response_success lib msg result outc errc also_signal
  unfolding response_success
  response_success-emptied msg n result outc errc also_signal h k =
      ap (λ arguments. send_response lib arguments msg also_signal)
        (response_success_int_emptied result outc errc h k
          ∙ sym (response_success_int_lem result outc errc h k))

  send_signal-unnamed :
      (call : Incoming) (arguments : Run (List Argument))
      → call.interface ≡ none
      → send_signal lib arguments call ≡ fault
  unfolding send_signal
  send_signal-unnamed call arguments i = elim (Option-cases call.path) [
    | inl e ↦ rw e refl
    | inr (path, e) ↦ rw e (rw i refl)
  ]

  send_response-unnamed :
      (msg : Message) (call : Incoming) (also_signal : Bool) (arguments : Run (List Argument))
      (a : List Argument)
      → msg.msg ≡ some call
      → call.interface ≡ none
      → arguments ≡ ok a
      → send_response lib arguments msg also_signal ≡ fault
  unfolding send_response
  send_response-unnamed msg call also_signal arguments a e i f =
      let signals = send_signal-unnamed call arguments i in
      let named : (not also_signal && is_some call.interface) ≡ false = rw i (ground arith) in
      rw e (rw (send_return_lem call arguments a f) (rw named (rw signals refl)))

  -- Where the arguments of messages can be appended, for a call that does not name its
  -- interface, oddjob_dbus_send_message_response_text, and
  -- oddjob_dbus_send_message_response_success with two buffers that hold texts, each ended by a
  -- NUL and with no other, give a NULL interface to dbus_message_new_signal, whether or not a
  -- signal is asked for.
  pub response-unnamed :
      (msg : Message) (call : Incoming) (result : ℤ) (text : Option Bytes) (outc errc : Buffer)
      (also_signal : Bool)
      → msg.msg ≡ some call
      → call.interface ≡ none
      → HoldsText outc
      → HoldsText errc
      → (response_text lib msg result text also_signal ≡ fault)
        × (response_success lib msg result outc errc also_signal ≡ fault)
  unfolding response_success response_text
  response-unnamed msg call result text outc errc also_signal e i h k = (
    send_response-unnamed msg call also_signal _ _ e i refl,
    send_response-unnamed msg call also_signal _ _ e i
        (response_success_int_lem result outc errc h k),
  )
