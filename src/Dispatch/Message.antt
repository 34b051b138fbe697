-- ===== src/Dispatch/Message.antt =====
-- `struct oddjob_dbus_message`, and how it is read from a `DBusMessage`.
--
-- A `DBusMessage` is what libdbus tells about it: the four header fields, its arguments, and the
-- answers of the tests that the filter makes. A string is the bytes in front of its NUL.
use oddjob_gpupdate.Prelude.{
  ℕ, ◌+◌, Bool, true, false, List, [], ◌∷◌, ◌++◌, Option, none, some, Bytes, ltb, if◌then◌else◌,
  length, get_elem?, Run, ok, ◌>>=◌, or_fault, load, ℤ, pos, negsuc,
}
use oddjob_gpupdate.Util.Memory.{Pointers, malloc0, strdup, set_pointer}
use oddjob_gpupdate.Util.Resize.{resize_array}
use oddjob_gpupdate.Util.Strings.{strndup}

pub data Argument : Type 0 where
  string : Bytes → Argument
  int32 : ℤ → Argument
  other : Argument

pub record Incoming : Type 0 where
  pub sender : Option Bytes
  pub destination : Option Bytes
  pub path : Option Bytes
  pub interface : Option Bytes
  pub member : Option Bytes
  -- `dbus_message_is_method_call` for its own interface and member
  pub is_call : Bool
  -- `dbus_message_has_sender` for the bus, `dbus_message_has_path` for its two paths, and
  -- `dbus_message_is_signal` for "Disconnected" of its two interfaces
  pub from_bus : Bool
  pub at_bus : Bool
  pub at_local : Bool
  pub bus_signal : Bool
  pub local_signal : Bool
  pub serial : ℕ
  pub arguments : List Argument

pub record Message : Type 0 where
  pub conn : ℕ
  pub msg : Option Incoming
  pub result : ℤ
  pub n_args : ℕ
  pub args : Pointers
  pub selinux_context : Option Bytes

-- `sizeof(struct oddjob_dbus_message)`
abbrev pub sizeof_message : ℕ
sizeof_message = 40

module _ (fits : ℕ → Bool) where
  -- The body of `case DBUS_TYPE_STRING`.
  unfoldable pub push_arg : Bytes → Message → Run Message
  push_arg s m = do
    grown ← resize_array fits none m.args 8 m.n_args (m.n_args + 1)
    copy ← strdup fits s
    args ← set_pointer grown m.n_args copy
    ok (record m { args = args; n_args = m.n_args + 1 })

  -- The `while (more)` loop.
  unfoldable pub read_args : List Argument → Message → Run Message
  unfolding push_arg
  read_args [] m = ok m
  read_args (string s ∷ more) m = push_arg s m >>= λ m'. read_args more m'
  read_args (int32 i ∷ more) m = read_args more m
  read_args (other ∷ more) m = read_args more m

  -- `if (expect_an_int)`, for a message that has arguments.
  unfoldable pub read_result : Bool → List Argument → Message → Message
  read_result expect_an_int [] m = m
  read_result false (a ∷ more) m = m
  read_result true (int32 i ∷ more) m = record m { result = i }
  read_result true (string s ∷ more) m = record m { result = negsuc 0 }
  read_result true (other ∷ more) m = record m { result = negsuc 0 }

  -- `oddjob_dbus_message_set_selinux_context`
  unfoldable pub set_selinux_context : Option Bytes → Message → Run Message
  set_selinux_context none m = ok (record m { selinux_context = none })
  set_selinux_context (some c) m =
      strdup fits c >>= λ copy. ok (record m { selinux_context = some copy })

  -- `oddjob_dbus_get_selinux_context`, built with SELINUX_ACLS: whether SELinux is enabled, and the
  -- array of bytes in the bus's reply, if there is one.
  unfoldable pub get_selinux_context : Bool → Option Bytes → Run (Option Bytes)
  get_selinux_context false reply = ok none
  get_selinux_context true none = ok none
  get_selinux_context true (some array) = strndup fits array (length array) >>= λ c. ok (some c)

  module _ (selinux : Bool) (context_reply : Bytes → Option Bytes) where
    -- The lines behind the loop: the sender's SELinux context.
    unfoldable pub read_context : Bool → Option Bytes → Message → Run Message
    unfolding get_selinux_context set_selinux_context
    read_context wanted none m = ok m
    read_context false (some sender) m = set_selinux_context none m
    read_context true (some sender) m =
        get_selinux_context selinux (context_reply sender) >>= λ c. set_selinux_context c m

    abbrev pub blank_message : ℕ → Option Incoming → Message
    blank_message conn msg = record {
      conn = conn;
      msg = msg;
      result = pos 0;
      n_args = 0;
      args = [];
      selinux_context = none;
    }

    unfoldable pub message_from_message : ℕ → Option Incoming → Bool → Bool → Run Message
    unfolding read_args read_result read_context
    message_from_message conn none expect_an_int get_context =
        malloc0 fits sizeof_message >>= λ _. ok (blank_message conn none)
    message_from_message conn (some msg) expect_an_int get_context = do
      _ ← malloc0 fits sizeof_message
      let blank = read_result expect_an_int msg.arguments (blank_message conn (some msg))
      m ← read_args msg.arguments blank
      read_context get_context msg.sender m

  -- The loop of `oddjob_dbus_message_dup`: the copies, for arguments that are not NULL.
  unfoldable pub dup_args : Pointers → ℕ → Pointers → Run Pointers
  dup_args [] i args = ok args
  dup_args (none ∷ more) i args = or_fault none
  dup_args (some s ∷ more) i args = do
    copy ← strdup fits s
    filled ← set_pointer args i copy
    dup_args more (i + 1) filled

  unfoldable pub message_dup : Message → Run Message
  unfolding dup_args set_selinux_context
  message_dup input = do
    _ ← malloc0 fits sizeof_message
    array ← resize_array fits none [] 8 0 input.n_args
    inputs ← load input.args input.n_args
    args ← dup_args inputs 0 array
    let m = record input { args = args; selinux_context = none }
    (elim input.selinux_context [ none ↦ ok m | some c ↦ set_selinux_context (some c) m ])

unfoldable pub get_n_args : Message → ℕ
get_n_args m = m.n_args

-- `oddjob_dbus_message_get_arg`: NULL behind the last argument, and in front of the first one what
-- lies there in memory.
unfoldable pub get_arg : Message → ℤ → Run (Option Bytes)
get_arg m (pos n) = if ltb n m.n_args then or_fault (get_elem? m.args n) else ok none
get_arg m (negsuc n) = or_fault none

-- What `oddjob_dbus_message_free` gives back: the blocks that hold these texts, the array of the
-- arguments, the references to the message of libdbus and to the connection, and the block of the
-- message itself.
pub data Released : Type 0 where
  freed_context : Bytes → Released
  freed_argument : Bytes → Released
  freed_array : Released
  unref_message : Incoming → Released
  unref_connection : ℕ → Released
  freed_message : Released

abbrev pub context_of : Option Bytes → List Released
context_of none = []
context_of (some c) = freed_context c ∷ []

-- The loop. `free` of a NULL does nothing.
unfoldable pub free_each_arg : Pointers → List Released
free_each_arg [] = []
free_each_arg (none ∷ more) = free_each_arg more
free_each_arg (some s ∷ more) = freed_argument s ∷ free_each_arg more

-- `if (msg->args != NULL)`
unfoldable pub free_message_args : Pointers → ℕ → Run (List Released)
unfolding free_each_arg
free_message_args [] n = ok []
free_message_args (p ∷ more) n =
    load (p ∷ more) n >>= λ args. ok (free_each_arg args ++ freed_array ∷ [])

abbrev pub reference_of : Option Incoming → List Released
reference_of none = []
reference_of (some i) = unref_message i ∷ []

unfoldable pub message_free : Option Message → Run (List Released)
unfolding free_message_args
message_free none = ok []
message_free (some m) = free_message_args m.args m.n_args >>= λ args. ok (
    context_of m.selinux_context
    ++ args
    ++ reference_of m.msg
    ++ unref_connection m.conn ∷ freed_message ∷ [])
