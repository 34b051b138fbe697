-- ===== src/Dispatch/Duplicate.antt =====
-- `oddjob_dbus_message_dup` and `oddjob_dbus_message_free` of a message whose arguments are strings.
use oddjob_gpupdate.Prelude.{
  ℕ, ◌+◌, ◌≤◌, ◌≡◌, refl, sym, ◌∙◌, ap, arith, Bool, List, [], ◌∷◌, ◌++◌, Option, none, some, Bytes,
  NoNul, length, length-append, take_all, replicate, splice-middle, ok, ◌>>=◌, store_within,
  load_within,
}
use mathlib.Core.List.{append_assoc}
use oddjob_gpupdate.Util.Memory.{Ample, Pointers, set_pointer}
use oddjob_gpupdate.Util.Copying.{malloc0_lem, strdup_lem}
use oddjob_gpupdate.Util.Resize.{resize_array-keep}
use oddjob_gpupdate.Dispatch.Message.{
  sizeof_message, Message, set_selinux_context, dup_args, message_dup, Released, freed_argument,
  freed_array, unref_connection, freed_message, context_of, reference_of, free_each_arg,
  free_message_args, message_free,
}
use oddjob_gpupdate.Dispatch.Arguments.{AreStrings, pointers, length-pointers, pointers-next}

-- A context that is stored is a C string.
abbrev pub IsText : Option Bytes → Type 0
IsText none = Unit
IsText (some c) = NoNul c

-- What is given back for arguments: each of them, and their array if there is one.
abbrev pub freed_arguments : List Bytes → List Released
freed_arguments [] = freed_array ∷ []
freed_arguments (s ∷ more) = freed_argument s ∷ freed_arguments more

abbrev pub freed_all : List Bytes → List Released
freed_all [] = []
freed_all (s ∷ more) = freed_arguments (s ∷ more)

free_each_arg-pointers :
    (ss : List Bytes) → free_each_arg (pointers ss) ++ freed_array ∷ [] ≡ freed_arguments ss
unfolding free_each_arg
free_each_arg-pointers [] = refl
free_each_arg-pointers (s ∷ ss) = ap (◌∷◌ (freed_argument s)) (free_each_arg-pointers ss)

free_message_args-pointers :
    (ss : List Bytes) → free_message_args (pointers ss) (length ss) ≡ ok (freed_all ss)
unfolding free_message_args
free_message_args-pointers [] = refl
free_message_args-pointers (s ∷ ss) =
    let all = pointers (s ∷ ss) in
    rw (load_within all (length (s ∷ ss)) (omega (arith, length-pointers (s ∷ ss)))) (
      ap (λ given. ok (free_each_arg given ++ freed_array ∷ []))
        (take_all (length (s ∷ ss)) all (omega (arith, length-pointers (s ∷ ss))))
      ∙ ap ok (free_each_arg-pointers (s ∷ ss)))

module _ (fits : ℕ → Bool) (ample : Ample fits) where
  -- The loop fills the array from its start on.
  dup_args_lem :
      (done : Pointers) (ss : List Bytes)
      → AreStrings ss
      → dup_args fits (pointers ss) (length done) (done ++ replicate (length ss) none)
        ≡ ok (done ++ pointers ss)
  unfolding dup_args set_pointer
  dup_args_lem done [] h = refl
  dup_args_lem done (s ∷ ss) h =
      let rest : Pointers = replicate (length ss) none in
      let next : length done + 1 ≡ length (done ++ some s ∷ []) =
        omega (arith, length-append done (some s ∷ [])) in
      let room : length done + 1 ≤ length (done ++ none ∷ rest) =
        omega (arith, length-append done (none ∷ rest)) in
      rw (strdup_lem fits ample s h.0) (
        rw (store_within (done ++ none ∷ rest) (length done) (some s ∷ []) room) (
          rw (splice-middle done rest none (some s)) (
            ap (λ a. dup_args fits (pointers ss) (length done + 1) a)
              (sym (append_assoc done (some s ∷ []) rest))
            ∙ ap (λ n. dup_args fits (pointers ss) n ((done ++ some s ∷ []) ++ rest)) next
            ∙ dup_args_lem (done ++ some s ∷ []) ss h.1
            ∙ ap ok (pointers-next done s ss))))

  abbrev holding : Message → List Bytes → Message
  holding m ss = record m { args = pointers ss; n_args = length ss }

  context_lem :
      (m : Message) (args : Pointers) (c : Option Bytes)
      → IsText c
      → (elim c [
        | none ↦ ok (record m { args = args; selinux_context = none })
        | some t ↦
            set_selinux_context fits (some t) (record m { args = args; selinux_context = none })
      ])
        ≡ ok (record m { args = args; selinux_context = c })
  unfolding set_selinux_context
  context_lem m args none h = refl
  context_lem m args (some t) h = rw (strdup_lem fits ample t h) refl

  holding-dup :
      (ss : List Bytes) (m : Message)
      → length ss ≤ 0xffff
      → AreStrings ss
      → IsText m.selinux_context
      → message_dup fits (holding m ss) ≡ ok (holding m ss)
  unfolding message_dup
  holding-dup ss m l h t =
      let all = pointers ss in
      rw (malloc0_lem fits ample sizeof_message) (
        rw
          (resize_array-keep fits {A = Option Bytes} none ample [] 8 (omega arith) (omega arith) 0
            (length ss) l (omega arith) (omega arith))
          (rw (load_within all (length ss) (omega (arith, length-pointers ss))) (
            rw (take_all (length ss) all (omega (arith, length-pointers ss)))
              (rw (dup_args_lem [] ss h) (context_lem (holding m ss) all m.selinux_context t)))))

  pub message_dup_lem :
      (ss : List Bytes) (m : Message)
      → m.args ≡ pointers ss
      → m.n_args ≡ length ss
      → length ss ≤ 0xffff
      → AreStrings ss
      → IsText m.selinux_context
      → message_dup fits m ≡ ok m
  message_dup_lem ss m e f l h t =
      let same : m ≡ holding m ss =
        ap (λ a. record m { args = a }) e
        ∙ ap (λ n. record m { args = pointers ss; n_args = n }) f in
      ap (message_dup fits) same ∙ holding-dup ss m l h t ∙ ap ok (sym same)

  pub message_free_lem :
      (ss : List Bytes) (m : Message)
      → m.args ≡ pointers ss
      → m.n_args ≡ length ss
      → message_free (some m)
        ≡ ok (
            context_of m.selinux_context
            ++ freed_all ss
            ++ reference_of m.msg
            ++ unref_connection m.conn ∷ freed_message ∷ [])
  unfolding message_free
  message_free_lem ss m e f =
      ap
        (λ a. free_message_args a m.n_args >>= λ args. ok (
          context_of m.selinux_context
          ++ args
          ++ reference_of m.msg
          ++ unref_connection m.conn ∷ freed_message ∷ []))
        e
      ∙ ap
          (λ n. free_message_args (pointers ss) n >>= λ args. ok (
            context_of m.selinux_context
            ++ args
            ++ reference_of m.msg
            ++ unref_connection m.conn ∷ freed_message ∷ []))
          f
      ∙ rw (free_message_args-pointers ss) refl
