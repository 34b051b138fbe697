-- ===== src/Dispatch/Client.antt =====
-- The callers' side of src/oddjob_dbus.c: `oddjob_dbus_call_bus_methodv`, which calls a method and
-- waits for its reply, and `oddjob_dbus_call_method`.
--
-- `output` and `output_length` are one slot, as are `error` and `error_length`; a caller that passes
-- NULL for one of them wants no text there. libdbus's answers are parameters: the connection to the
-- bus or an error, and the reply or an error. Its strings are far shorter than 2^31 bytes, so that
-- the lengths, which are `int`, do not wrap.
use oddjob_gpupdate.Prelude.{
  ℕ, ◌+◌, get_elem?, ◌&&◌, Bool, true, false, List, [], ◌∷◌, ◌++◌, Option, none, some, Bytes, ltb,
  if◌then◌else◌, length, Run, ok, ◌>>=◌, or_fault, ℤ, pos, negsuc,
}
use oddjob_gpupdate.Util.Memory.{Pointers, set_pointer}
use oddjob_gpupdate.Util.Resize.{resize_array}
use oddjob_gpupdate.Dispatch.Message.{Argument, string, Incoming, Message, message_from_message}

pub record DbusError : Type 0 where
  pub name : Bytes
  pub message : Bytes

-- What the caller passes, and finds afterwards; a `result` that is NULL is none.
pub record Slot : Type 0 where
  pub wanted : Bool
  pub text : Option Bytes
  pub text_length : ℕ

pub record Results : Type 0 where
  pub result : Option ℤ
  pub output : Slot
  pub error : Slot

-- `dbus_bus_get`
pub data Connection : Type 0 where
  connected : ℕ → Connection
  refused : DbusError → Connection

-- `dbus_connection_send_with_reply_and_block`: the reply, if there is one, and the error, if it is
-- set.
pub record Answer : Type 0 where
  pub reply : Option Incoming
  pub err : Option DbusError

-- The method that is called, and how long to wait for its reply.
pub record Target : Type 0 where
  pub service : Option Bytes
  pub object_path : Bytes
  pub interface : Option Bytes
  pub method : Bytes
  pub timeout_milliseconds : ℤ

-- Besides the two, whether there is memory for the call, and the arguments of a message behind
-- `dbus_message_append_args`.
pub record Bus : Type 0 where
  pub connection : Connection
  pub makes_call : Bool
  pub append_args : List Argument → Argument → List Argument
  pub send : ℕ → Target → List Argument → Answer

-- "%s: %s"
abbrev pub error_text : DbusError → Bytes
error_text e = e.name ++ b':' ∷ b' ' ∷ e.message

-- `args[i]`, which must be a string.
abbrev load_pointer : Pointers → ℕ → Run Bytes
load_pointer args i = or_fault (get_elem? args i) >>= λ p. or_fault p

module _ (fits : ℕ → Bool) where
  -- A copy of a text, in a block for it and its NUL.
  unfoldable pub capture : Bytes → Slot → Slot
  capture text slot =
      if slot.wanted
      then if fits (length text + 1)
        then record slot { text = some text; text_length = length text }
        else record slot { text = none }
      else slot

  -- The error's text in both slots.
  unfoldable pub capture_error : DbusError → Results → Results
  unfolding capture
  capture_error e r = record r {
    output = capture (error_text e) r.output;
    error = capture (error_text e) r.error;
  }

  -- An argument of the reply, where there are more than `i` of them.
  unfoldable pub capture_arg : Message → ℕ → Slot → Run Slot
  unfolding capture
  capture_arg msg i slot =
      if slot.wanted && ltb i msg.n_args
      then (load_pointer msg.args i >>= λ text. ok (capture text slot))
      else ok slot

  module _ (selinux : Bool) (context_reply : Bytes → Option Bytes) (bus : Bus) where
    -- The loop over `argv`, up to its NULL.
    unfoldable pub append_argv : Pointers → List Argument → Run (List Argument)
    append_argv [] arguments = or_fault none
    append_argv (none ∷ _) arguments = ok arguments
    append_argv (some p ∷ more) arguments = append_argv more (bus.append_args arguments (string p))

    unfoldable pub given_arguments : Option Pointers → Run (List Argument)
    unfolding append_argv
    given_arguments none = ok []
    given_arguments (some argv) = append_argv argv []

    -- What the caller gets of a reply that has been read, and of the error.
    unfoldable pub hand_over : Message → Option DbusError → Results → Run (Results × ℤ)
    unfolding capture_arg capture_error
    hand_over msg err r = do
      output ← capture_arg msg 0 r.output
      error ← capture_arg msg 1 r.error
      let s : Results = record {
        result = elim r.result [ none ↦ none | some _ ↦ some msg.result ];
        output = output;
        error = error;
      }
      (elim err [ none ↦ ok (s, pos 0) | some e ↦ ok (capture_error e s, negsuc 0) ])

    unfoldable pub take_reply : ℕ → Answer → Results → Run (Results × ℤ)
    unfolding hand_over
    take_reply conn answer r =
        message_from_message fits selinux context_reply conn answer.reply true false >>= λ msg.
        hand_over msg answer.err r

    unfoldable pub call_bus_methodv : Target → Option Pointers → Results → Run (Results × ℤ)
    unfolding given_arguments take_reply
    call_bus_methodv target argv r = elim bus.connection [
      | refused e ↦ ok (capture_error e r, negsuc 1)
      | connected conn ↦
          if bus.makes_call
          then (given_arguments argv >>= λ arguments.
              take_reply conn (bus.send conn target arguments) r)
          else or_fault none
    ]

    -- The loop over the variable arguments, up to their NULL.
    unfoldable pub gather : List Bytes → Pointers → ℕ → Run Pointers
    gather [] argv i = ok argv
    gather (p ∷ more) argv i = do
      grown ← resize_array fits none argv 8 i (i + 2)
      filled ← set_pointer grown i p
      gather more filled (i + 1)

    -- `argv` is NULL where there is none.
    abbrev pub or_null : Pointers → Option Pointers
    or_null [] = none
    or_null (p ∷ more) = some (p ∷ more)

    unfoldable pub call_method : Target → List Bytes → Results → Run (Results × ℤ)
    unfolding call_bus_methodv gather
    call_method target arguments r =
        gather arguments [] 0 >>= λ argv. call_bus_methodv target (or_null argv) r
