-- ===== src/Dispatch/Reply.antt =====
-- The replies of src/oddjob_dbus.c, which the handlers of methods send.
--
-- What is given to `dbus_connection_send` is a list of messages. A `const char *` that a message is
-- given is read up to its NUL. libdbus accepts no NULL for a message, and none for the path, the
-- interface or the member of a signal: `fault`.
use oddjob_gpupdate.Prelude.{
  ℕ, Bool, true, false, not, ◌&&◌, List, [], ◌∷◌, ◌++◌, Option, none, some, Bytes, ltb, ◌==◌,
  if◌then◌else◌, take, get_elem?, Run, ok, aborted, ◌>>=◌, or_fault, ℤ,
}
use oddjob_gpupdate.Buffer.{Buffer, strlen, buffer_length, data_at}
use oddjob_gpupdate.Dispatch.Message.{Argument, string, int32, Incoming, Message}

-- The answers of libdbus: whether there is memory for a new message or for its destination, and the
-- arguments of a message behind `dbus_message_append_args`, of which the code ignores the result.
pub record Libdbus : Type 0 where
  pub makes_return : Bool
  pub makes_signal : Bool
  pub makes_error : Bool
  pub takes_destination : Bool
  pub append_args : List Argument → Argument → List Argument

-- `dbus_message_new_method_return`, `..._new_signal` with its reply serial and destination, and
-- `..._new_error`
pub data Header : Type 0 where
  method_return : Incoming → Header
  signal : Bytes → Bytes → Bytes → ℕ → Bytes → Header
  error : Incoming → Bytes → Option Bytes → Header

pub record Outgoing : Type 0 where
  pub header : Header
  pub arguments : List Argument

-- `text ? &text : &empty`
abbrev pub text_or_empty : Option Bytes → Bytes
text_or_empty none = []
text_or_empty (some text) = text

abbrev pub is_some : Option Bytes → Bool
is_some none = false
is_some (some _) = true

-- The string at a pointer.
unfoldable pub c_string : Bytes → Run Bytes
c_string p = or_fault (strlen p) >>= λ n. ok (take n p)

module _ (lib : Libdbus) where
  unfoldable pub send_introspection_text : Message → Option Bytes → Run (List Outgoing)
  send_introspection_text msg text = do
    m ← or_fault msg.msg
    (if lib.makes_return
        then ok (
            record {
              header = method_return m;
              arguments = lib.append_args [] (string (text_or_empty text));
            }
            ∷ [])
        else or_fault none)

  -- The arguments that `oddjob_dbus_send_message_response_text_int` appends.
  unfoldable pub response_text_int : ℤ → Option Bytes → List Argument
  response_text_int result text =
      lib.append_args
        (lib.append_args (lib.append_args [] (int32 result)) (string (text_or_empty text)))
        (string [])

  -- Those of `oddjob_dbus_send_message_response_success_int`, behind its check.
  unfoldable pub success_texts : ℤ → Buffer → Buffer → Run (List Argument)
  unfolding c_string
  success_texts result outc errc = do
    out ← c_string (data_at outc)
    err ← c_string (data_at errc)
    ok (
        lib.append_args (lib.append_args (lib.append_args [] (int32 result)) (string out))
          (string err))

  unfoldable pub response_success_int : ℤ → Buffer → Buffer → Run (List Argument)
  unfolding success_texts
  response_success_int result outc errc =
      if ltb 0 (buffer_length outc)
      then (or_fault (get_elem? (data_at outc) (buffer_length outc)) >>= λ c.
          if c == 0 then success_texts result outc errc else aborted)
      else success_texts result outc errc

  -- What the two functions that follow do with the arguments: the signal,
  module _ (arguments : Run (List Argument)) where
    unfoldable pub send_signal : Incoming → Run (List Outgoing)
    send_signal m = do
      path ← or_fault m.path
      interface ← or_fault m.interface
      member ← or_fault m.member
      (elim m.sender [
        | none ↦ ok []
        | some sender ↦
            if lib.makes_signal && lib.takes_destination
            then (arguments >>= λ a. ok (
                record { header = signal path interface member m.serial sender; arguments = a }
                ∷ []))
            else ok []
      ])

    -- the reply,
    unfoldable pub send_return : Incoming → Run (List Outgoing)
    send_return m =
        if lib.makes_return
        then (arguments >>= λ a. ok (record { header = method_return m; arguments = a } ∷ []))
        else ok []

    -- and both.
    unfoldable pub send_response : Message → Bool → Run (List Outgoing)
    unfolding send_signal send_return
    send_response msg also_signal = do
      m ← or_fault msg.msg
      replies ← send_return m
      (if not also_signal && is_some m.interface
          then ok replies
          else (send_signal m >>= λ signals. ok (replies ++ signals)))

  unfoldable pub response_text : Message → ℤ → Option Bytes → Bool → Run (List Outgoing)
  unfolding send_response response_text_int
  response_text msg result_code text also_signal =
      send_response (ok (response_text_int result_code text)) msg also_signal

  unfoldable pub response_success : Message → ℤ → Buffer → Buffer → Bool → Run (List Outgoing)
  unfolding send_response response_success_int
  response_success msg result_code outc errc also_signal =
      send_response (response_success_int result_code outc errc) msg also_signal

  unfoldable pub response_error : Message → Bytes → Option Bytes → Run (List Outgoing)
  response_error msg name text = do
    m ← or_fault msg.msg
    (if lib.makes_error
        then ok (record { header = error m name text; arguments = [] } ∷ [])
        else or_fault none)
