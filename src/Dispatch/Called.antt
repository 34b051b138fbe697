-- ===== src/Dispatch/Called.antt =====
-- What `oddjob_dbus_call_method` sends, and what it makes of the answer.
use mathlib.Core.List.{append_assoc, append-nil}
use oddjob_gpupdate.Prelude.{
  ℕ, ◌+◌, ◌≤◌, ◌≡◌, refl, sym, ◌∙◌, ap, arith, inl, inr, Bool, Bool-cases, true, false, ◌&&◌, List,
  [], ◌∷◌, ◌++◌, Option, none, some, Bytes, NoNul, ltb, if◌then◌else◌, length, length-append,
  get_elem?, ok, Returns, Returns-map, Returns-ok, subst, ℤ, pos, negsuc,
}
use oddjob_gpupdate.Util.Memory.{Ample, argv_of}
use oddjob_gpupdate.Util.Collect.Steps.{block, grow_block_then}
use oddjob_gpupdate.Util.Copying.{malloc0_lem}
use oddjob_gpupdate.Dispatch.Message.{
  sizeof_message, Argument, string, Incoming, Message, message_from_message, read_result,
  blank_message,
}
use oddjob_gpupdate.Dispatch.Arguments.{
  strings, pointers, AreStrings, result_of, message_from_message-result,
}
use oddjob_gpupdate.Dispatch.Relay.{Appends, triple}
use oddjob_gpupdate.Dispatch.Client.{
  DbusError, error_text, Slot, Results, connected, refused, Target, Bus, capture, capture_error,
  capture_arg, append_argv, given_arguments, hand_over, take_reply, call_bus_methodv, gather,
  or_null, call_method,
}

-- The slot with a text, if the caller wants one.
abbrev pub holding : Bytes → Slot → Slot
holding text slot =
    if slot.wanted then record slot { text = some text; text_length = length text } else slot

abbrev pub all_holding : Bytes → Results → Results
all_holding text r = record r { output = holding text r.output; error = holding text r.error }

-- What the caller finds behind a reply of an integer and two texts.
abbrev pub answered : ℤ → Bytes → Bytes → Results → Results
answered result out err r = record {
  result = elim r.result [ none ↦ none | some _ ↦ some result ];
  output = holding out r.output;
  error = holding err r.error;
}

-- The strings as arguments of a message.
abbrev pub as_arguments : List Bytes → List Argument
as_arguments [] = []
as_arguments (s ∷ more) = string s ∷ as_arguments more

module _ (fits : ℕ → Bool) (ample : Ample fits) where
  capture_lem : (text : Bytes) (slot : Slot) → capture fits text slot ≡ holding text slot
  unfolding capture
  capture_lem text slot = rw (ample (length text + 1)) refl

  capture_error_lem :
      (e : DbusError) (r : Results) → capture_error fits e r ≡ all_holding (error_text e) r
  unfolding capture_error
  capture_error_lem e r =
      rw (capture_lem (error_text e) r.output, capture_lem (error_text e) r.error) refl

  capture_arg_lem :
      (msg : Message) (i : ℕ) (text : Bytes) (slot : Slot)
      → get_elem? msg.args i ≡ some (some text)
      → ltb i msg.n_args ≡ true
      → capture_arg fits msg i slot ≡ ok (holding text slot)
  unfolding capture_arg
  capture_arg_lem msg i text slot e t = elim (Bool-cases slot.wanted) [
    | inl w ↦ rw t (rw w (rw e (rw (ample (length text + 1)) refl)))
    | inr w ↦ rw t (rw w refl)
  ]

  module _ (selinux : Bool) (context_reply : Bytes → Option Bytes) (bus : Bus) where
    gather_lem :
        (done more : List Bytes)
        → length done + length more + 1 ≤ 0xffff
        → gather fits selinux context_reply bus more (block done) (length done)
          ≡ ok (block (done ++ more))
    unfolding gather
    gather_lem done [] h = ap (λ l. ok (block l)) (sym (append-nil done))
    gather_lem done (p ∷ more) h =
        let n : length done + 1 ≡ length (done ++ p ∷ []) =
          omega (arith, length-append done (p ∷ [])) in
        grow_block_then fits ample done p
          (λ filled. gather fits selinux context_reply bus more filled (length done + 1))
          (omega arith)
        ∙ ap (λ k. gather fits selinux context_reply bus more (block (done ++ p ∷ [])) k) n
        ∙ gather_lem (done ++ p ∷ []) more (omega (arith, length-append done (p ∷ [])))
        ∙ ap (λ l. ok (block l)) (append_assoc done (p ∷ []) more)

    append_argv_lem :
        Appends bus.append_args
        → (args : List Bytes) (given : List Argument)
        → append_argv fits selinux context_reply bus (argv_of args) given
          ≡ ok (given ++ as_arguments args)
    unfolding append_argv
    append_argv_lem appends [] given = ap ok (sym (append-nil given))
    append_argv_lem appends (s ∷ more) given =
        ap (append_argv fits selinux context_reply bus (argv_of more)) (appends given (string s))
        ∙ (append_argv_lem appends more (given ++ string s ∷ [])
            ∙ ap ok (append_assoc given (string s ∷ []) (as_arguments more)))

    given_arguments_lem :
        Appends bus.append_args
        → (args : List Bytes)
        → given_arguments fits selinux context_reply bus
            (or_null fits selinux context_reply bus (block args))
          ≡ ok (as_arguments args)
    unfolding given_arguments
    given_arguments_lem appends [] = refl
    given_arguments_lem appends (s ∷ more) = append_argv_lem appends (s ∷ more) []

    read_triple :
        (reply : Incoming) (result : ℤ) (out err : Bytes) (conn : ℕ)
        → reply.arguments ≡ triple result out err
        → result_of fits ample selinux false context_reply conn reply true ≡ result
    unfolding read_result
    read_triple reply result out err conn e =
        ap
          (λ l.
            (read_result fits true l
              (blank_message fits selinux context_reply conn (some reply))).result)
          e

    -- A message that was read from an integer and two texts.
    abbrev Tells : ℤ → Bytes → Bytes → Message → Type 0
    Tells result out err m =
        (m.args ≡ some out ∷ some err ∷ []) × (m.n_args ≡ 2) × (m.result ≡ result)

    hand_over_lem :
        (result : ℤ) (out err : Bytes) (r : Results) (m : Message)
        → Tells result out err m
        → hand_over fits selinux context_reply bus m none r ≡ ok (answered result out err r, pos 0)
    unfolding hand_over
    hand_over_lem result out err r m (a, n, i) =
        let two = capture_arg_lem m 1 err r.error (ap (λ l. get_elem? l 1) a) (ap (ltb 1) n) in
        rw (capture_arg_lem m 0 out r.output (ap (λ l. get_elem? l 0) a) (ap (ltb 0) n))
          (rw two (ap (λ k. ok (answered k out err r, pos 0)) i))

    read-Tells :
        (conn : ℕ) (reply : Incoming) (result : ℤ) (out err : Bytes)
        → reply.arguments ≡ triple result out err
        → NoNul out
        → NoNul err
        → Returns
            (Tells result out err)
            (message_from_message fits selinux context_reply conn (some reply) true false)
    read-Tells conn reply result out err e h k =
        let given : strings reply.arguments ≡ out ∷ err ∷ [] = ap strings e in
        Returns-map _ (Tells result out err)
          (message_from_message fits selinux context_reply conn (some reply) true false)
          (message_from_message-result fits ample selinux false context_reply conn reply
            (omega (arith, ap (length {A = Bytes}) given))
            (subst AreStrings (sym given) (h, (k, tt))) true)
          (λ m ((a, n, _), i). (
            a ∙ ap pointers given,
            n ∙ ap (length {A = Bytes}) given,
            i ∙ read_triple reply result out err conn e,
          ))

    -- A reply of an integer and two texts.
    take_reply_lem :
        (conn : ℕ) (reply : Incoming) (result : ℤ) (out err : Bytes) (r : Results)
        → reply.arguments ≡ triple result out err
        → NoNul out
        → NoNul err
        → take_reply fits selinux context_reply bus conn
            (record { reply = some reply; err = none })
            r
          ≡ ok (answered result out err r, pos 0)
    unfolding take_reply
    take_reply_lem conn reply result out err r e h k =
        let (m, read, t) =
          Returns-ok (Tells result out err) _ (read-Tells conn reply result out err e h k) in
        rw read (hand_over_lem result out err r m t)

    -- The call with its arguments, once there are a connection and memory for it.
    call_method_lem :
        Appends bus.append_args
        → (target : Target) (args : List Bytes) (r : Results) → length args + 1 ≤ 0xffff
        → call_method fits selinux context_reply bus target args r
          ≡ call_bus_methodv fits selinux context_reply bus target
              (or_null fits selinux context_reply bus (block args))
              r
    unfolding call_method
    call_method_lem appends target args r l = rw (gather_lem [] args (omega arith)) refl

    call_bus_methodv-connected :
        Appends bus.append_args
        → (conn : ℕ) (target : Target) (args : List Bytes) (r : Results)
        → bus.connection ≡ connected conn
        → bus.makes_call ≡ true
        → call_bus_methodv fits selinux context_reply bus target
            (or_null fits selinux context_reply bus (block args))
            r
          ≡ take_reply fits selinux context_reply bus conn
              (bus.send conn target (as_arguments args))
              r
    unfolding call_bus_methodv
    call_bus_methodv-connected appends conn target args r e t =
        rw e (rw t (rw (given_arguments_lem appends args) refl))

    -- With a connection and memory for the call, the caller takes from a reply with an integer and two
    -- texts these three, in its result, its output and its error.
    pub call_method-answered :
        Appends bus.append_args
        → (conn : ℕ) (target : Target) (args : List Bytes) (r : Results)
        → (reply : Incoming) (result : ℤ) (out err : Bytes) → length args + 1 ≤ 0xffff
        → bus.connection ≡ connected conn
        → bus.makes_call ≡ true
        → bus.send conn target (as_arguments args) ≡ record { reply = some reply; err = none }
        → reply.arguments ≡ triple result out err
        → NoNul out
        → NoNul err
        → call_method fits selinux context_reply bus target args r
          ≡ ok (answered result out err r, pos 0)
    call_method-answered appends conn target args r reply result out err l e t s a h k =
        call_method_lem appends target args r l
        ∙ call_bus_methodv-connected appends conn target args r e t
        ∙ ap (λ x. take_reply fits selinux context_reply bus conn x r) s
        ∙ take_reply_lem conn reply result out err r a h k

    -- There is no connection, or no reply but an error: what is returned, and what `*result` is then.
    pub data Fails (target : Target) (args : List Bytes) (r : Results) (e : DbusError)
        : ℤ → Option ℤ → Type 0 where
      no_connection : bus.connection ≡ refused e → Fails target args r e (negsuc 1) r.result
      no_reply :
          (conn : ℕ)
          → bus.connection ≡ connected conn
          → bus.makes_call ≡ true
          → bus.send conn target (as_arguments args) ≡ record { reply = none; err = some e }
          → Fails target args r e (negsuc 0) (elim r.result [ none ↦ none | some _ ↦ some (pos 0) ])

    capture_arg-beyond :
        (conn i : ℕ) (slot : Slot)
        → capture_arg fits (blank_message fits selinux context_reply conn none) i slot ≡ ok slot
    unfolding capture_arg
    capture_arg-beyond conn i slot =
        let not_there : (slot.wanted && ltb i 0) ≡ false = ground arith in rw not_there refl

    take_reply-none :
        (conn : ℕ) (e : DbusError) (r : Results)
        → take_reply fits selinux context_reply bus conn (record { reply = none; err = some e }) r
          ≡ ok (
            all_holding
                (error_text e)
                (record r { result = elim r.result [ none ↦ none | some _ ↦ some (pos 0) ] }),
            negsuc 0,
          )
    unfolding take_reply hand_over message_from_message
    take_reply-none conn e r = rw (malloc0_lem fits ample sizeof_message) (
        rw (capture_arg-beyond conn 0 r.output) (
          rw (capture_arg-beyond conn 1 r.error) (
            ap (λ s. ok (s, negsuc 0))
              (capture_error_lem e
                (record r { result = elim r.result [ none ↦ none | some _ ↦ some (pos 0) ] })))))

    -- With memory for the caller's requests and at most 65534 arguments, where there is no
    -- connection to the bus, or a connection, memory for the call, no reply and an error,
    -- oddjob_dbus_call_method returns -2 or -1; the caller finds name and message of the error,
    -- with a colon and a space between, in each of the texts it wants, with the length; its
    -- result is left as it was in the first case, and 0, like that of a call that succeeded, in
    -- the second.
    pub call_method-Fails :
        Appends bus.append_args
        → (target : Target) (args : List Bytes) (r : Results) (e : DbusError) (code : ℤ)
          (left : Option ℤ)
        → length args + 1 ≤ 0xffff
        → Fails target args r e code left
        → call_method fits selinux context_reply bus target args r
          ≡ ok (all_holding (error_text e) (record r { result = left }), code)
    unfolding call_bus_methodv
    call_method-Fails appends target args r e code left l (no_connection c) =
        call_method_lem appends target args r l
        ∙ rw c (ap (λ s. ok (s, negsuc 1)) (capture_error_lem e r))
    call_method-Fails appends target args r e code left l (no_reply conn c t s) =
        call_method_lem appends target args r l
        ∙ call_bus_methodv-connected appends conn target args r c t
        ∙ ap (λ x. take_reply fits selinux context_reply bus conn x r) s
        ∙ take_reply-none conn e r
