-- ===== src/Dispatch/Filter.antt =====
-- `oddjob_dbus_filter`.
--
-- What the filter asks of libdbus and of the C library is a `World`. The text of a reply is what
-- `snprintf` is given to print, or a string as it stands.
use oddjob_gpupdate.Prelude.{
  ℕ, Bool, true, false, ◌&&◌, ◌||◌, List, [], ◌∷◌, Option, none, some, Bytes, ◌==◌, if◌then◌else◌,
  Run, ok, fault, ◌>>=◌, or_fault, ℤ, above, equals,
}
use oddjob_gpupdate.Util.Memory.{Pointers}
use oddjob_gpupdate.Registry.Types.{Method, Interface, Object, Service, Context, method_name}
use oddjob_gpupdate.Registry.Table.{find}
use oddjob_gpupdate.Registry.Types.{interface_name}
use oddjob_gpupdate.Dispatch.Message.{Incoming, Message, message_from_message}
use oddjob_gpupdate.Dispatch.Guess.{guess_interface}

-- `struct passwd`
pub record Passwd : Type 0 where
  pub pw_name : Bytes
  pub pw_uid : ℕ

pub record World : Type 0 where
  pub fits : ℕ → Bool
  -- `fnmatch(pattern, string, ODDJOB_OBJECT_FNMATCH_FLAGS) == 0`
  pub fnmatch : Bytes → Bytes → Bool
  -- `dbus_bus_get_unix_user`, on failure `(unsigned long) -1`
  pub get_unix_user : Bytes → ℕ
  pub getpwuid : ℕ → Option Passwd
  pub selinux : Bool
  pub context_reply : Bytes → Option Bytes

-- the `ODDJOB_ERROR_...` names
pub data ErrorName : Type 0 where
  no_object no_interface no_method unimplemented_method unknown_user invalid_call : ErrorName

pub data Text : Type 0 where
  plain : Bytes → Text
  uid_is : ℕ → Text
  invalid_invocation : Text
  wrong_number : ℤ → ℕ → Text

-- What a handler is called with, but for the context.
pub record Call : Type 0 where
  pub handler : ℕ
  pub msg : Message
  pub service : Bytes
  pub path : Bytes
  pub interface : Bytes
  pub member : Bytes
  pub user : Bytes
  pub uid : ℕ
  pub user_data : ℕ

pub data Verdict : Type 0 where
  not_yet_handled : Verdict
  answered : ErrorName → Text → Verdict
  called : Call → Verdict

-- "Figure out which connection received the request": `srv` behind the loop. No service's
-- connection: `srv` is the last service, since `i > ctx->n_services` is false even then.
unfoldable pub serving : ℕ → Option Service → List Service → Option Service
serving conn srv [] = srv
serving conn srv (s ∷ more) =
    let rest = serving conn (some s) more in
    elim s.conn [ none ↦ rest | some c ↦ if c == conn then some s else rest ]

-- "If it's a global signal, check for disconnect."
unfoldable pub is_disconnect : ℤ → Incoming → Bool
is_disconnect timeout m =
    above timeout 0 && (m.from_bus && m.at_bus && m.bus_signal || m.at_local && m.local_signal)

-- The path and the member of a method call, if the message is one.
unfoldable pub call_header : Incoming → Option (Bytes × Bytes)
call_header m = elim m.destination [
  | none ↦ none
  | some service ↦ elim m.path [
    | none ↦ none
    | some path ↦ elim m.member [
      | none ↦ none
      | some member ↦ elim m.interface [
        | none ↦ some (path, member)
        | some interface ↦ if m.is_call then some (path, member) else none
      ]
    ]
  ]
]

-- `strpbrk(s, "\r\n") != NULL`
unfoldable pub has_line_end : Bytes → Bool
has_line_end [] = false
has_line_end (c ∷ cs) = (c == b'\r' || c == b'\n') || has_line_end cs

-- "Check the arguments for verboten chars."
unfoldable pub any_line_end : Pointers → Run Bool
unfolding has_line_end
any_line_end [] = ok false
any_line_end (none ∷ more) = fault
any_line_end (some s ∷ more) =
    let rest = any_line_end more in if has_line_end s then ok true else rest

module _ (w : World) where
  -- The first object whose path, as a pattern, matches.
  unfoldable pub find_object : Bytes → List Object → Option Object
  find_object path [] = none
  find_object path (o ∷ more) = if w.fnmatch o.path path then some o else find_object path more

  -- "Get the called interface, if there is one, and find the right interface."
  unfoldable pub find_interface : Object → Option Bytes → Bytes → Option Interface
  find_interface obj none member = guess_interface obj member
  find_interface obj (some name) member = find interface_name name obj.interfaces

  -- The checks of the user and of the arguments, and the call.
  unfoldable pub invoke : Message → Bytes → Bytes → Bytes → Bytes → Bytes → Method → ℕ → Run Verdict
  unfolding any_line_end
  invoke m sender service path interface member method handler =
      let uid = w.get_unix_user sender in
      elim (w.getpwuid uid) [
        | none ↦ ok (answered unknown_user (uid_is uid))
        | some pwd ↦
            if pwd.pw_uid == uid
            then (any_line_end m.args >>= λ verboten.
                if verboten
                then ok (answered invalid_call invalid_invocation)
                else if equals m.n_args method.n_arguments
                then ok (
                    called (record {
                      handler = handler;
                      msg = m;
                      service = service;
                      path = path;
                      interface = interface;
                      member = member;
                      user = pwd.pw_name;
                      uid = uid;
                      user_data = method.user_data;
                    }))
                else ok (answered invalid_call (wrong_number method.n_arguments m.n_args)))
            else ok (answered unknown_user (uid_is uid))
      ]

  -- The search for the object, the interface and the method, and for its handler.
  unfoldable pub deliver : Message → Bytes → Service → Bytes → Option Bytes → Bytes → Run Verdict
  unfolding find_object find_interface
  deliver m sender srv path called_interface member = elim (find_object path srv.objects) [
    | none ↦ ok (answered no_object (plain path))
    | some obj ↦ elim (find_interface obj called_interface member) [
      | none ↦ ok (answered no_interface (plain (elim called_interface [ none ↦ [] | some i ↦ i ])))
      | some interface ↦ elim (find method_name member interface.methods) [
        | none ↦ ok (answered no_method (plain member))
        | some method ↦ elim method.handler [
          | none ↦ ok (answered unimplemented_method (plain member))
          | some handler ↦ invoke m sender srv.name path interface.interface member method handler
        ]
      ]
    ]
  ]

  -- A message without a sender is answered with a text that nothing has written: `fault`. So is
  -- the search in the objects of no service.
  unfoldable pub filter : Context → ℕ → Incoming → Run Verdict
  unfolding serving is_disconnect call_header deliver
  filter ctx conn message =
      if is_disconnect ctx.reconnect_timeout message
      then ok not_yet_handled
      else elim (call_header message) [
        | none ↦ ok not_yet_handled
        | some (path, member) ↦ do
          m ←
              message_from_message w.fits w.selinux w.context_reply conn (some message) false
                ctx.selinux_enabled
          sender ← or_fault message.sender
          srv ← or_fault (serving conn none ctx.services)
          deliver m sender srv path message.interface member
      ]
