-- ===== src/Dispatch/Arguments.antt =====
-- What `oddjob_dbus_message_from_message` reads: the arguments that are strings, in their order.
use oddjob_gpupdate.Prelude.{
  ℕ, suc, ℤ, ◌+◌, ◌≤◌, ◌≡◌, refl, sym, ◌∙◌, ap, inl, inr, Option-cases, Returns-map, arith, Bool,
  true, false, List, [], ◌∷◌, ◌++◌, Option, none, some, Bytes, NoNul, length, length-append, ok,
  Returns,
}
use mathlib.Core.List.{append-nil}
use oddjob_gpupdate.Util.Memory.{Ample, Pointers, strdup, oddjob_malloc, until_nul}
use oddjob_gpupdate.Util.Copying.{malloc0_lem, push_pointer, strndup_lem}
use oddjob_gpupdate.Dispatch.Message.{
  Argument, string, int32, other, Incoming, Message, push_arg, read_args, read_result,
  get_selinux_context, set_selinux_context, read_context, message_from_message, blank_message,
  sizeof_message,
}

-- The arguments that are strings.
abbrev pub strings : List Argument → List Bytes
strings [] = []
strings (string s ∷ more) = s ∷ strings more
strings (int32 _ ∷ more) = strings more
strings (other ∷ more) = strings more

-- No string of a message holds a NUL.
abbrev pub AreStrings : List Bytes → Type 0
AreStrings [] = Unit
AreStrings (s ∷ more) = NoNul s × AreStrings more

abbrev pub pointers : List Bytes → Pointers
pointers [] = []
pointers (s ∷ more) = some s ∷ pointers more

pub length-pointers : (ss : List Bytes) → length (pointers ss) ≡ length ss
length-pointers [] = refl
length-pointers (s ∷ ss) = ap suc (length-pointers ss)

pub pointers-next :
    (xs : Pointers) (s : Bytes) (ss : List Bytes)
    → (xs ++ some s ∷ []) ++ pointers ss ≡ xs ++ pointers (s ∷ ss)
pointers-next [] s ss = refl
pointers-next (x ∷ xs) s ss = ap (◌∷◌ x) (pointers-next xs s ss)

-- The message with what has been read.
abbrev pub with_args : Message → List Bytes → Message
with_args m ss = record m { args = m.args ++ pointers ss; n_args = length (m.args ++ pointers ss) }

module _ (fits : ℕ → Bool) (ample : Ample fits) where
  push_arg_lem :
      (s : Bytes) (m : Message)
      → m.n_args ≡ length m.args
      → length m.args + 1 ≤ 0xffff
      → NoNul s
      → push_arg fits s m ≡ ok (with_args m (s ∷ []))
  unfolding push_arg
  push_arg_lem s m e l h = rw e (
      push_pointer fits ample m.args s
        (λ args. ok (record m { args = args; n_args = length m.args + 1 })) l h
      ∙ ap (λ n. ok (record m { args = m.args ++ some s ∷ []; n_args = n }))
          (omega (arith, length-append m.args (some s ∷ []))))

  pub read_args_lem :
      (given : List Argument) (m : Message)
      → m.n_args ≡ length m.args
      → length m.args + length (strings given) ≤ 0xffff
      → AreStrings (strings given)
      → read_args fits given m ≡ ok (with_args m (strings given))
  unfolding read_args
  read_args_lem [] m e l h = rw (append-nil, ← e)
  read_args_lem (string s ∷ more) m e l h = rw (push_arg_lem s m e (omega arith) h.0) (
      read_args_lem more (with_args m (s ∷ [])) refl
        (omega (arith, length-append m.args (some s ∷ []))) h.1
      ∙ ap (λ args. ok (record m { args = args; n_args = length args }))
          (pointers-next m.args s (strings more)))
  read_args_lem (int32 i ∷ more) m e l h = read_args_lem more m e l h
  read_args_lem (other ∷ more) m e l h = read_args_lem more m e l h

  -- The context is stored next to the arguments.
  read_context-Returns :
      (selinux wanted : Bool) (reply : Bytes → Option Bytes) (sender : Option Bytes) (m : Message)
      → Returns
          (λ m'.
            (m'.args ≡ m.args) × (m'.n_args ≡ m.n_args) × (m'.msg ≡ m.msg) × (m'.result ≡ m.result))
          (read_context fits selinux reply wanted sender m)
  unfolding read_context get_selinux_context set_selinux_context strdup oddjob_malloc
  read_context-Returns selinux wanted reply none m = (refl, refl, refl, refl)
  read_context-Returns selinux false reply (some sender) m = (refl, refl, refl, refl)
  read_context-Returns false true reply (some sender) m = (refl, refl, refl, refl)
  read_context-Returns true true reply (some sender) m = elim (Option-cases (reply sender)) [
    | inl e ↦ rw (e, read_context) (refl, refl, refl, refl)
    | inr (array, e) ↦
        let (r, copied) = strndup_lem fits ample array in
        rw (e, copied, ample (length (until_nul r) + 1), read_context) (refl, refl, refl, refl)
  ]

  pub read_result_lem :
      (b : Bool) (given : List Argument) (m : Message)
      → ((read_result fits b given m).args ≡ m.args)
        × ((read_result fits b given m).n_args ≡ m.n_args)
        × ((read_result fits b given m).msg ≡ m.msg)
  unfolding read_result
  read_result_lem b [] m = (refl, refl, refl)
  read_result_lem false (a ∷ more) m = (refl, refl, refl)
  read_result_lem true (int32 i ∷ more) m = (refl, refl, refl)
  read_result_lem true (string s ∷ more) m = (refl, refl, refl)
  read_result_lem true (other ∷ more) m = (refl, refl, refl)

  module _ (selinux wanted : Bool) (reply : Bytes → Option Bytes) (conn : ℕ) (msg : Incoming) where
    abbrev pub Read : Message → Type 0
    Read m =
        (m.args ≡ pointers (strings msg.arguments))
        × (m.n_args ≡ length (strings msg.arguments))
        × (m.msg ≡ some msg)

    -- The first argument of the message, where it is an integer that is asked for.
    abbrev pub result_of : Bool → ℤ
    result_of expect_an_int =
        (read_result fits expect_an_int msg.arguments
          (blank_message fits selinux reply conn (some msg))).result

    pub message_from_message-result :
        length (strings msg.arguments) ≤ 0xffff
        → AreStrings (strings msg.arguments)
        → (expect_an_int : Bool)
        → Returns
            (λ m. Read m × (m.result ≡ result_of expect_an_int))
            (message_from_message fits selinux reply conn (some msg) expect_an_int wanted)
    unfolding message_from_message
    message_from_message-result l h expect_an_int =
        let blank = blank_message fits selinux reply conn (some msg) in
        let (e, f, g) = read_result_lem expect_an_int msg.arguments blank in
        let start = read_result fits expect_an_int msg.arguments blank in
        rw (malloc0_lem fits ample sizeof_message) (
          rw
            (read_args_lem msg.arguments start (f ∙ ap (length {A = Option Bytes}) (sym e))
              (rw e (omega arith)) h)
            (Returns-map _ (λ m. Read m × (m.result ≡ result_of expect_an_int))
              (read_context fits selinux reply wanted msg.sender
                (with_args start (strings msg.arguments)))
              (read_context-Returns selinux wanted reply msg.sender
                (with_args start (strings msg.arguments)))
              (λ m q.
                let args = q.0 ∙ rw e refl in
                ((args, q.1 ∙ rw e (length-pointers _), q.2 ∙ g), q.3))))

    -- With memory for every request, for a message with at most 65535 string arguments, none
    -- with a NUL, oddjob_dbus_message_from_message returns, and the arguments of the result are
    -- the strings of the message in their order, whatever other arguments stand between them,
    -- and whether or not an integer or an SELinux context is asked for.
    pub message_from_message-Read :
        length (strings msg.arguments) ≤ 0xffff
        → AreStrings (strings msg.arguments)
        → (expect_an_int : Bool)
        → Returns Read
            (message_from_message fits selinux reply conn (some msg) expect_an_int wanted)
    message_from_message-Read l h expect_an_int =
        Returns-map _ Read _ (message_from_message-result l h expect_an_int) (λ m q. q.0)
