-- ===== src/Dispatch/Judged.antt =====
-- The reasons for what `oddjob_dbus_filter` does with a message.
use oddjob_gpupdate.Prelude.{
  ℕ, ◌≤◌, ◌≡◌, ◌⊎◌, sym, ◌∙◌, inl, inr, true, false, Option, none, some, Bytes, Bool-cases,
  Option-cases, length, Run, ◌>>=◌, Returns, Returns-bind, Returns-map, or_fault, subst,
}
use oddjob_gpupdate.Util.Memory.{Ample}
use oddjob_gpupdate.Registry.Types.{Service, Context}
use oddjob_gpupdate.Dispatch.Message.{Incoming, message_from_message}
use oddjob_gpupdate.Dispatch.Arguments.{strings, AreStrings, Read, message_from_message-Read}
use oddjob_gpupdate.Dispatch.Filter.{
  World, Verdict, not_yet_handled, answered, called, serving, is_disconnect, call_header, deliver,
  filter,
}
use oddjob_gpupdate.Dispatch.Resolve.{Judged, Refused, Granted, deliver-Judged}

or_fault-bind :
    {A B : Type 0} (o : Option A) (a : A) → o ≡ some a → (f : A → Run B) → (or_fault o >>= f) ≡ f a
or_fault-bind o a e f = rw e

-- The service that a message is for.
abbrev pub Serves : Context → ℕ → Service → Type 0
Serves ctx conn srv = serving conn none ctx.services ≡ some srv

module _ (w : World) (ample : Ample w.fits) (ctx : Context) (conn : ℕ) (message : Incoming) where
  -- Why a verdict on a message is what it is.
  abbrev pub FilterJudged : Bytes → Service → Verdict → Type 0
  FilterJudged sender srv not_yet_handled =
      (is_disconnect ctx.reconnect_timeout message ≡ true) ⊎ (call_header message ≡ none)
  FilterJudged sender srv (answered e t) =
      (path member : Bytes) × (is_disconnect ctx.reconnect_timeout message ≡ false)
      × (call_header message ≡ some (path, member))
      × Refused w srv path message.interface member sender (strings message.arguments) e t
  FilterJudged sender srv (called c) =
      (path member : Bytes) × (is_disconnect ctx.reconnect_timeout message ≡ false)
      × (call_header message ≡ some (path, member))
      × Granted w srv path message.interface member sender (strings message.arguments) c

  Judged-FilterJudged :
      (sender : Bytes) (srv : Service) (path member : Bytes)
      → is_disconnect ctx.reconnect_timeout message ≡ false
      → call_header message ≡ some (path, member)
      → (v : Verdict)
      → Judged w srv path message.interface member sender (strings message.arguments) v
      → FilterJudged sender srv v
  Judged-FilterJudged sender srv path member f e not_yet_handled j = absurd j
  Judged-FilterJudged sender srv path member f e (answered n t) j = (path, member, f, e, j)
  Judged-FilterJudged sender srv path member f e (called c) j = (path, member, f, e, j)

  -- With memory for every request, for a message with a sender, on a connection that
  -- oddjob_dbus_filter takes to be that of some service, and with at most 65535 string
  -- arguments, none with a NUL, the filter returns, and its verdict has its reason: it passes on
  -- a message only if it is a disconnect signal to watch for or no method call; each error reply
  -- names what the search, the user lookup or the checks of the arguments came to; a handler is
  -- called only with the method that object path, interface and member lead to, for a sender
  -- whose UID leads to a user, with arguments that are the strings of the message, as many as
  -- the method declares, none with a carriage return or a line feed.
  pub filter-Judged :
      (sender : Bytes) (srv : Service)
      → message.sender ≡ some sender
      → Serves ctx conn srv
      → length (strings message.arguments) ≤ 0xffff
      → AreStrings (strings message.arguments)
      → Returns (FilterJudged sender srv) (filter w ctx conn message)
  unfolding filter
  filter-Judged sender srv s k l a =
      elim (Bool-cases (is_disconnect ctx.reconnect_timeout message)) [
        | inl t ↦ rw (t, filter) (inl t)
        | inr f ↦ elim (Option-cases (call_header message)) [
          | inl e ↦ rw (f, e, filter) (inr e)
          | inr ((path, member), e) ↦
              rw (f, e, filter)
                (Returns-bind
                  (Read w.fits ample w.selinux ctx.selinux_enabled w.context_reply conn message)
                  (FilterJudged sender srv)
                  (message_from_message w.fits w.selinux w.context_reply conn (some message) false
                    ctx.selinux_enabled)
                  _
                  (message_from_message-Read w.fits ample w.selinux ctx.selinux_enabled
                    w.context_reply conn message l a false)
                  (λ m r.
                    subst (Returns (FilterJudged sender srv))
                      (sym (
                        or_fault-bind message.sender sender s _
                        ∙ or_fault-bind (serving conn none ctx.services) srv k _))
                      (Returns-map
                        (Judged w srv path message.interface member sender
                          (strings message.arguments))
                        (FilterJudged sender srv)
                        (deliver w m sender srv path message.interface member)
                        (deliver-Judged w srv path message.interface member sender
                          (strings message.arguments) m r.0 r.1)
                        (Judged-FilterJudged sender srv path member f e))))
        ]
      ]
