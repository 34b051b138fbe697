-- ===== src/Dispatch/Copied.antt =====
-- `oddjob_dbus_message_dup` and `oddjob_dbus_message_free` of what
-- `oddjob_dbus_message_from_message` reads.
use oddjob_gpupdate.Prelude.{
  ℕ, ◌+◌, ◌≤◌, ◌≡◌, refl, sym, ◌∙◌, ap, subst, inl, inr, arith, Bool, Bool-cases, true, false, List,
  [], ◌∷◌, ◌++◌, Option, Option-cases, none, some, Bytes, length, ok, Returns, Returns-ok,
  Returns-map,
}
use oddjob_gpupdate.Util.Memory.{Ample, until_nul, strdup, oddjob_malloc}
use oddjob_gpupdate.Util.Copying.{malloc0_lem, strndup_lem, until_nul-NoNul}
use oddjob_gpupdate.Dispatch.Message.{
  Argument, string, int32, other, Incoming, Message, read_result, get_selinux_context,
  set_selinux_context, read_context, message_from_message, blank_message, sizeof_message,
  message_dup, unref_message, unref_connection, freed_message, context_of, reference_of,
  message_free,
}
use oddjob_gpupdate.Dispatch.Arguments.{
  strings, AreStrings, with_args, read_args_lem, read_result_lem, Read, message_from_message-Read,
}
use oddjob_gpupdate.Dispatch.Duplicate.{IsText, freed_all, message_dup_lem, message_free_lem}

module _ (fits : ℕ → Bool) (ample : Ample fits) where
  module _ (selinux : Bool) (reply : Bytes → Option Bytes) where
    read_result-context :
        (b : Bool) (given : List Argument) (m : Message)
        → ((read_result fits b given m).selinux_context ≡ m.selinux_context)
          × ((read_result fits b given m).conn ≡ m.conn)
    unfolding read_result
    read_result-context b [] m = (refl, refl)
    read_result-context false (a ∷ more) m = (refl, refl)
    read_result-context true (int32 i ∷ more) m = (refl, refl)
    read_result-context true (string s ∷ more) m = (refl, refl)
    read_result-context true (other ∷ more) m = (refl, refl)

    read_context-IsText :
        (wanted : Bool) (sender : Option Bytes) (m : Message)
        → m.selinux_context ≡ none
        → Returns
            (λ m'. IsText m'.selinux_context × (m'.conn ≡ m.conn))
            (read_context fits selinux reply wanted sender m)
    unfolding read_context get_selinux_context set_selinux_context strdup oddjob_malloc
    read_context-IsText wanted none m e = (subst IsText (sym e) tt, refl)
    read_context-IsText false (some sender) m e = (tt, refl)
    read_context-IsText true (some sender) m e = elim (Bool-cases selinux) [
      | inr t ↦ rw t (tt, refl)
      | inl t ↦ elim (Option-cases (reply sender)) [
        | inl f ↦ rw (t, f) (tt, refl)
        | inr (array, f) ↦
            let (r, copied) = strndup_lem fits ample array in
            rw (t, f) (rw copied (rw (ample (length (until_nul r) + 1)) (until_nul-NoNul r, refl)))
      ]
    ]

    read_message-IsText :
        (conn : ℕ) (msg : Incoming) (b wanted : Bool)
        → length (strings msg.arguments) ≤ 0xffff
        → AreStrings (strings msg.arguments)
        → Returns
            (λ m. IsText m.selinux_context × (m.conn ≡ conn))
            (message_from_message fits selinux reply conn (some msg) b wanted)
    unfolding message_from_message
    read_message-IsText conn msg b wanted l h =
        let blank = blank_message fits selinux reply conn (some msg) in
        let (e, f, g) = read_result_lem fits ample b msg.arguments blank in
        let start = read_result fits b msg.arguments blank in
        rw (malloc0_lem fits ample sizeof_message) (
          rw
            (read_args_lem fits ample msg.arguments start
              (f ∙ ap (length {A = Option Bytes}) (sym e)) (rw e (omega arith)) h)
            (Returns-map (λ m. IsText m.selinux_context × (m.conn ≡ start.conn))
              (λ m. IsText m.selinux_context × (m.conn ≡ conn))
              (read_context fits selinux reply wanted msg.sender
                (with_args start (strings msg.arguments)))
              (read_context-IsText wanted msg.sender (with_args start (strings msg.arguments))
                (read_result-context b msg.arguments blank).0)
              (λ m q. (q.0, q.1 ∙ (read_result-context b msg.arguments blank).1))))

    -- What the message is read as, and what becomes of it.
    pub record Copied (conn : ℕ) (msg : Incoming) (m : Message) : Type 0 where
      pub read : Read fits ample selinux false reply conn msg m
      pub copy : message_dup fits m ≡ ok m
      pub released :
          message_free (some m)
          ≡ ok (
              context_of m.selinux_context
              ++ freed_all (strings msg.arguments)
              ++ (unref_message msg ∷ [])
              ++ unref_connection conn ∷ freed_message ∷ [])

    -- With memory for every request, for a message with at most 65535 string arguments, none
    -- with a NUL, oddjob_dbus_message_from_message returns: the arguments of the result are the
    -- strings of the message in their order, whatever other arguments stand between them, and
    -- whether or not an integer or an SELinux context is asked for; oddjob_dbus_message_dup of
    -- the result gives the same again; and oddjob_dbus_message_free of it gives back the
    -- context, if there is one, each of these strings once, their array, if there is one, the
    -- message of libdbus, the connection and the block of the message itself.
    pub message_from_message-Copied :
        (conn : ℕ) (msg : Incoming) (expect_an_int wanted : Bool)
        → length (strings msg.arguments) ≤ 0xffff
        → AreStrings (strings msg.arguments)
        → Returns
            (Copied conn msg)
            (message_from_message fits selinux reply conn (some msg) expect_an_int wanted)
    message_from_message-Copied conn msg expect_an_int wanted l h =
        let given = strings msg.arguments in
        let (m, e, r) =
          Returns-ok (Read fits ample selinux wanted reply conn msg)
            (message_from_message fits selinux reply conn (some msg) expect_an_int wanted)
            (message_from_message-Read fits ample selinux wanted reply conn msg l h
              expect_an_int) in
        let (text, on) : IsText m.selinux_context × (m.conn ≡ conn) =
          subst (Returns (λ m. IsText m.selinux_context × (m.conn ≡ conn))) e
            (read_message-IsText conn msg expect_an_int wanted l h) in
        let few : length given ≤ 0xffff = l in
        rw e (record {
          read = r;
          copy = message_dup_lem fits ample given m r.0 r.1 few h text;
          released =
              message_free_lem fits ample given m r.0 r.1
              ∙ ap
                  (λ i. ok (
                    context_of m.selinux_context
                    ++ freed_all given
                    ++ reference_of i
                    ++ unref_connection m.conn ∷ freed_message ∷ []))
                  r.2
              ∙ ap
                  (λ c. ok (
                    context_of m.selinux_context
                    ++ freed_all given
                    ++ (unref_message msg ∷ [])
                    ++ unref_connection c ∷ freed_message ∷ []))
                  on;
        })
