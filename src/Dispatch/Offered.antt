-- ===== src/Dispatch/Offered.antt =====
-- The registry and the filter together: what is called is what the table of the context's life
-- offers.
use mathlib.Core.Option.{some-injective}
use oddjob_gpupdate.Prelude.{
  ℕ, ◌+◌, ◌≤◌, ◌<◌, ◌≡◌, ◌⊎◌, refl, sym, ◌∙◌, ap, inl, inr, arith, Bool-cases, true, List, [], ◌∷◌,
  ◌++◌, Option, Option-cases, none, some, Bytes, str_eq, str_eq_refl, str_eq_iff, ◌==◌, length,
  Returns, Returns-map, equals,
}
use oddjob_gpupdate.Util.Memory.{Ample}
use oddjob_gpupdate.Registry.Table.{find, IsDistinct}
use oddjob_gpupdate.Registry.Table.Below.{find-All, All}
use oddjob_gpupdate.Registry.Table.Found.{find-name}
use oddjob_gpupdate.Registry.Bus.{Effect}
use oddjob_gpupdate.Registry.Types.{
  Method, Interface, Object, Service, Context, object_path, interface_name, service_name,
}
use oddjob_gpupdate.Registry.Lookup.{TreeService, TreeObject, lookup, in_service, in_object}
use oddjob_gpupdate.Registry.Attached.{one_if, attaches, detaches, held, holders}
use oddjob_gpupdate.Registry.Life.{Life, Offers, IsSound}
use oddjob_gpupdate.Registry.Life.Sound.{Life-IsSound}
use oddjob_gpupdate.Dispatch.Message.{Incoming}
use oddjob_gpupdate.Dispatch.Arguments.{strings, AreStrings}
use oddjob_gpupdate.Dispatch.Guess.{guess_interface-sole, offers as ways, providers, sole}
use oddjob_gpupdate.Dispatch.Filter.{
  World, Passwd, Verdict, not_yet_handled, answered, called, find_interface, filter,
}
use oddjob_gpupdate.Dispatch.Serving.{owner, serving-owner}
use oddjob_gpupdate.Dispatch.Resolve.{Reaches}
use oddjob_gpupdate.Dispatch.Judged.{Serves, FilterJudged, filter-Judged}
use oddjob_gpupdate.Dispatch.Reach.{IsLiteral, Calls, Deliverable, find_object-find, filter-Calls}

-- A service that is there holds its connection.
holders_pos :
    (c : ℕ) (k : Bytes) (x : Service) (xs : List Service)
    → find service_name k xs ≡ some x
    → x.conn ≡ some c
    → 0 < holders c xs
unfolding find holders
holders_pos c k x [] e f = cc
holders_pos c k x (z ∷ xs) e f = elim (Bool-cases (str_eq k z.name)) [
  | inl t ↦
      let same : z ≡ x = some-injective _ _ (sym (rw t) ∙ e) in
      let holds : z.conn ≡ some c = ap (λ s. s.conn) same ∙ f in
      let here : (c == c) ≡ true = ground arith in
      let one : held c z.conn ≡ 1 = ap (held c) holds ∙ ap one_if here in omega (arith, one)
  | inr t ↦ omega (arith, holders_pos c k x xs (sym (rw t) ∙ e) f)
]

-- Where one service holds a connection, its messages are for this service.
owner_of :
    (c : ℕ) (k : Bytes) (x : Service) (xs : List Service)
    → find service_name k xs ≡ some x
    → x.conn ≡ some c
    → holders c xs ≡ 1
    → owner c xs ≡ some x
unfolding find holders
owner_of c k x [] e f n = cc
owner_of c k x (z ∷ xs) e f n = elim (Bool-cases (str_eq k z.name)) [
  | inl t ↦
      let same : z ≡ x = some-injective _ _ (sym (rw t) ∙ e) in
      let holds : z.conn ≡ some c = ap (λ s. s.conn) same ∙ f in
      let here : (c == c) ≡ true = ground arith in rw (holds, here, owner) (ap some same)
  | inr t ↦
      let rest = holders_pos c k x xs (sym (rw t) ∙ e) f in
      let ih = owner_of c k x xs (sym (rw t) ∙ e) f (omega arith) in
      elim (Option-cases z.conn) [
        | inl g ↦ rw (g, owner) ih
        | inr (d, g) ↦ elim (Bool-cases (d == c)) [
          | inr u ↦ rw (g, u, owner) ih
          | inl u ↦
              let one : held c z.conn ≡ 1 = ap (held c) g ∙ ap one_if u in
              absurd (omega (arith, one))
        ]
      ]
]

-- One of a list of interfaces.
abbrev IsAmong : Interface → List Interface → Type 0
IsAmong i [] = ⊥
IsAmong i (x ∷ xs) = (i ≡ x) ⊎ IsAmong i xs

sole-IsAmong : (i : Interface) (xs : List Interface) → sole xs ≡ some i → IsAmong i xs
sole-IsAmong i [] e = cc
sole-IsAmong i (x ∷ []) e = inl (some-injective _ _ (sym e))
sole-IsAmong i (x ∷ y ∷ xs) e = cc

ways-IsAmong :
    (i iface : Interface) (member : Bytes) (ms : List Method)
    → IsAmong i (ways member iface ms)
    → i ≡ iface
ways-IsAmong i iface member [] h = absurd h
ways-IsAmong i iface member (m ∷ ms) h = elim (Bool-cases (str_eq m.method member)) [
  | inl t ↦ elim (rw t at h) [ inl e ↦ e | inr k ↦ ways-IsAmong i iface member ms k ]
  | inr t ↦ ways-IsAmong i iface member ms (rw t at h)
]

append-IsAmong :
    (i : Interface) (xs ys : List Interface) → IsAmong i (xs ++ ys) → IsAmong i xs ⊎ IsAmong i ys
append-IsAmong i [] ys h = inr h
append-IsAmong i (x ∷ xs) ys (inl e) = inl (inl e)
append-IsAmong i (x ∷ xs) ys (inr h) = elim (append-IsAmong i xs ys h) [
  | inl k ↦ inl (inr k)
  | inr k ↦ inr k
]

providers-IsAmong :
    (i : Interface) (member : Bytes) (is : List Interface)
    → IsAmong i (providers member is)
    → IsAmong i is
providers-IsAmong i member [] h = absurd h
providers-IsAmong i member (x ∷ xs) h =
    elim (append-IsAmong i (ways member x x.methods) (providers member xs) h) [
      | inl k ↦ inl (ways-IsAmong i x member x.methods k)
      | inr k ↦ inr (providers-IsAmong i member xs k)
    ]

-- With distinct names it is found by its own.
find-IsAmong :
    (i : Interface) (is : List Interface)
    → IsDistinct interface_name is
    → IsAmong i is
    → find interface_name i.interface is ≡ some i
unfolding find
find-IsAmong i [] d h = absurd h
find-IsAmong i (x ∷ xs) d (inl e) =
    let t : str_eq i.interface x.interface ≡ true =
      ap (λ z. str_eq i.interface z.interface) (sym e) ∙ str_eq_refl i.interface in
    rw t (ap some (sym e))
find-IsAmong i (x ∷ xs) d (inr h) = elim (Bool-cases (str_eq i.interface x.interface)) [
  | inr t ↦ rw t (find-IsAmong i xs d.1 h)
  | inl t ↦
      let same : i.interface ≡ x.interface = (str_eq_iff i.interface x.interface).0 t in
      let there = find-IsAmong i xs d.1 h in
      let not_there : find interface_name i.interface xs ≡ none =
        ap (λ k. find interface_name k xs) same ∙ d.0 in
      absurd (cc)
]

-- The call is of a method that the table has.
abbrev pub IsOffered : Offers → ℕ → Verdict → Type 0
IsOffered offers count (called c) =
    (method : Method) × (offers c.service c.path c.interface c.member ≡ some method)
    × (method.handler ≡ some c.handler)
    × (equals count method.n_arguments ≡ true)
IsOffered offers count _ = Unit

module _ (w : World) (srv : Service) (literal : All object_path (IsLiteral w) srv.objects)
    (tree : TreeService srv) where
  -- The interface that the filter's search comes to stands under its name.
  interface_named :
      (obj : Object) (name : Option Bytes) (member : Bytes) (i : Interface)
      → TreeObject obj
      → find_interface w obj name member ≡ some i
      → find interface_name i.interface obj.interfaces ≡ some i
  unfolding find_interface
  interface_named obj (some name) member i t e =
      ap (λ k. find interface_name k obj.interfaces)
        (find-name interface_name name obj.interfaces e)
      ∙ e
  interface_named obj none member i t e = find-IsAmong i obj.interfaces t.0 (
      providers-IsAmong i member obj.interfaces (
        sole-IsAmong i (providers member obj.interfaces)
          (sym (guess_interface-sole obj member) ∙ e)))

  Reaches-in_service :
      (path : Bytes) (name : Option Bytes) (member : Bytes) (i : Interface) (m : Method)
      → Reaches w srv path name member i m
      → in_service path i.interface member srv ≡ some m
  Reaches-in_service path name member i m r =
      let found : find object_path path srv.objects ≡ some r.obj =
        sym (find_object-find w path srv.objects literal) ∙ r.obj_found in
      let named =
        interface_named r.obj name member i
          (find-All object_path TreeObject path srv.objects tree.2 found) r.interface_found in
      rw (found, in_service) (rw (named, in_object) r.method_found)

-- A service that listens on a connection of its own: it holds it, and the connection has been
-- attached to the main loop once more than detached; its object paths match only themselves.
pub record Listens (w : World) (ctx : Context) (log : List Effect) (s : Bytes) (conn : ℕ)
    : Type 0 where
  pub srv : Service
  pub srv_found : find service_name s ctx.services ≡ some srv
  pub holds : srv.conn ≡ some conn
  pub alone : attaches conn log ≡ detaches conn log + 1
  pub literal : All object_path (IsLiteral w) srv.objects

module _ (w : World) (ample : Ample w.fits) {ctx : Context} {offers : Offers} {log : List Effect}
    (life : Life w.fits ctx offers log) (s : Bytes) (conn : ℕ) (l : Listens w ctx log s conn) where
  sound : IsSound ctx offers log
  sound = Life-IsSound w.fits ample life

  listens-Serves : Serves ctx conn l.srv
  listens-Serves =
      let one : holders conn ctx.services ≡ 1 = omega (arith, sound.attached conn, l.alone) in
      let mine = owner_of conn s l.srv ctx.services l.srv_found l.holds one in
      serving-owner conn none ctx.services ∙ rw mine refl

  -- What the service offers stands in the table.
  table-in_service : (q j n : Bytes) → in_service q j n l.srv ≡ offers s q j n
  table-in_service q j n =
      let here : lookup ctx s q j n ≡ in_service q j n l.srv = rw (l.srv_found, lookup) refl in
      sym here ∙ sound.offered s q j n

  -- With memory for every request, in a context that any calls since oddjob_dbus_listeners_new
  -- have led to, as in the life of a context, on a connection that a service of it holds and
  -- that has been attached to the main loop once more than detached: where the object paths of
  -- the service match only themselves, a method call with a sender, which names its interface,
  -- for a method that is offered for this service under its path, interface and member, and that
  -- has a handler, is delivered: oddjob_dbus_filter calls this handler with the name of the
  -- account of the sender. The call has as many arguments as the method takes, at most 65535,
  -- none with a NUL, a carriage return or a line feed, and the account is one that getpwuid
  -- finds.
  pub filter-offered :
      (message : Incoming) (path interface member sender : Bytes) (method : Method) (handler : ℕ)
      (pwd : Passwd)
      → offers s path interface member ≡ some method
      → Deliverable w ample ctx conn message path interface member sender l.srv method handler pwd
      → Returns (Calls handler pwd.pw_name) (filter w ctx conn message)
  filter-offered message path interface member sender method handler pwd e d =
      filter-Calls w ample ctx conn message path interface member sender l.srv method handler pwd d
        listens-Serves l.literal (table-in_service path interface member ∙ e)

  FilterJudged-IsOffered :
      (message : Incoming) (sender : Bytes) (v : Verdict)
      → FilterJudged w ample ctx conn message sender l.srv v
      → IsOffered offers (length (strings message.arguments)) v
  FilterJudged-IsOffered message sender not_yet_handled j = tt
  FilterJudged-IsOffered message sender (answered n t) j = tt
  FilterJudged-IsOffered message sender (called c) (path, member, _, _, g) =
      let tree = find-All service_name TreeService s ctx.services sound.tree.1 l.srv_found in
      let found =
        Reaches-in_service w l.srv l.literal tree path message.interface member g.interf g.meth
          g.reaches in
      let entry : offers s path g.interf.interface member ≡ some g.meth =
        sym (table-in_service path g.interf.interface member) ∙ found in
      let service : c.service ≡ s = g.names.0 ∙ find-name service_name s ctx.services l.srv_found in
      (g.meth, rw (service, g.names.1, g.names.2, g.names.3) entry, g.handler, g.count)

  -- With memory for every request, in a context that any calls since oddjob_dbus_listeners_new
  -- have led to, as in the life of a context, on a connection that a service of it holds and
  -- that has been attached to the main loop once more than detached, for a message with a sender
  -- and with at most 65535 string arguments, none with a NUL: where the object paths of the
  -- service match only themselves, oddjob_dbus_filter returns, and if it calls a handler, it is
  -- that of a method that is offered for this service, the path, the interface and the member of
  -- the call, and the message has as many arguments as this method takes.
  pub filter-IsOffered :
      (message : Incoming) (sender : Bytes)
      → message.sender ≡ some sender
      → length (strings message.arguments) ≤ 0xffff
      → AreStrings (strings message.arguments)
      → Returns (IsOffered offers (length (strings message.arguments))) (filter w ctx conn message)
  filter-IsOffered message sender e few no_nul =
      Returns-map (FilterJudged w ample ctx conn message sender l.srv)
        (IsOffered offers (length (strings message.arguments))) (filter w ctx conn message)
        (filter-Judged w ample ctx conn message sender l.srv e listens-Serves few no_nul)
        (FilterJudged-IsOffered message sender)
