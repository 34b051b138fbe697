-- ===== src/Dispatch/Reach.antt =====
-- A method that the tree of the registry has is called.
use oddjob_gpupdate.Prelude.{
  ℕ, ◌≤◌, ◌≡◌, refl, sym, ◌∙◌, ap, subst, inl, inr, true, false, List, [], ◌∷◌, Option, none, some,
  Bytes, str_eq, if◌then◌else◌, Option-cases, length, Returns, Returns-map, equals,
}
use mathlib.Core.Option.{some-injective}
use oddjob_gpupdate.Util.Memory.{Ample}
use oddjob_gpupdate.Registry.Table.{find}
use oddjob_gpupdate.Registry.Table.Below.{All}
use oddjob_gpupdate.Registry.Types.{
  Method, Interface, Object, Service, Context, object_path, interface_name, method_name,
}
use oddjob_gpupdate.Registry.Lookup.{in_interface, in_object, in_service}
use oddjob_gpupdate.Dispatch.Message.{Incoming}
use oddjob_gpupdate.Dispatch.Arguments.{strings, AreStrings}
use oddjob_gpupdate.Dispatch.Filter.{
  World, Passwd, Verdict, not_yet_handled, answered, called, no_object, no_interface, no_method,
  unimplemented_method, unknown_user, invalid_call, is_disconnect, call_header, find_object,
  find_interface, filter,
}
use oddjob_gpupdate.Dispatch.Resolve.{AreClean, Reaches, Judged, IsUser}
use oddjob_gpupdate.Dispatch.Judged.{Serves, FilterJudged, filter-Judged}

module _ (w : World) where
  -- As a pattern this path matches only itself.
  abbrev pub IsLiteral : Object → Type 0
  IsLiteral o = (path : Bytes) → w.fnmatch o.path path ≡ str_eq path o.path

  pub find_object-find :
      (path : Bytes) (os : List Object)
      → All object_path IsLiteral os
      → find_object w path os ≡ find object_path path os
  unfolding find_object find
  find_object-find path [] h = refl
  find_object-find path (o ∷ os) h =
      rw (h.0 path)
        (ap (λ r. if str_eq path o.path then some o else r) (find_object-find path os h.1))

  -- What the registry's lookup finds is what the filter's search finds.
  pub in_service-Reaches :
      (srv : Service) (path interface member : Bytes) (method : Method)
      → All object_path IsLiteral srv.objects
      → in_service path interface member srv ≡ some method
      → (i : Interface) × Reaches w srv path (some interface) member i method
  unfolding find_interface
  in_service-Reaches srv path interface member method l e =
      elim (Option-cases (find object_path path srv.objects)) [
        | inl f ↦ let h : in_service path interface member srv ≡ none = rw (f, in_service) in cc
        | inr (obj, f) ↦ elim (Option-cases (find interface_name interface obj.interfaces)) [
          | inl g ↦
              let h : in_service path interface member srv ≡ none =
                rw (f, g, in_service, in_object) in
              cc
          | inr (i, g) ↦
              let h : in_service path interface member srv ≡ in_interface member i =
                rw (f, g, in_service, in_object) in
              (
                i,
                record {
                  obj = obj;
                  obj_found = find_object-find path srv.objects l ∙ f;
                  interface_found = g;
                  method_found = sym h ∙ e;
                },
              )
        ]
      ]

-- The verdict is a call of this handler for this user.
abbrev pub Calls : ℕ → Bytes → Verdict → Type 0
Calls handler user (called c) = (c.handler ≡ handler) × (c.user ≡ user)
Calls handler user _ = ⊥

module _ (w : World) (srv : Service) (path : Bytes) (called_interface : Option Bytes)
    (member sender : Bytes) (ss : List Bytes) (i : Interface) (method : Method) (handler : ℕ)
    (pwd : Passwd) where
  -- Nothing stands against the call.
  pub record Clear : Type 0 where
    pub reaches : Reaches w srv path called_interface member i method
    pub handles : method.handler ≡ some handler
    pub user : IsUser w srv path called_interface member (w.get_unix_user sender) pwd
    pub clean : AreClean ss
    pub count : equals (length ss) method.n_arguments ≡ true

  -- Two searches end at one method.
  one_method :
      (j : Interface) (m : Method)
      → Reaches w srv path called_interface member i method
      → Reaches w srv path called_interface member j m
      → m ≡ method
  one_method j m r q =
      let obj : q.obj ≡ r.obj = some-injective _ _ (sym q.obj_found ∙ r.obj_found) in
      let interf : j ≡ i = some-injective _ _ (
        sym q.interface_found
        ∙ ap (λ o. find_interface w o called_interface member) obj
        ∙ r.interface_found) in
      some-injective _ _
        (sym q.method_found ∙ ap (λ x. find method_name member x.methods) interf ∙ r.method_found)

  Judged-Calls :
      Clear
      → (v : Verdict) → Judged w srv path called_interface member sender ss v
      → Calls handler pwd.pw_name v
  Judged-Calls k not_yet_handled j = j
  Judged-Calls k (answered no_object t) (e, _) = cc (k.reaches.obj_found)
  Judged-Calls k (answered no_interface t) (o, e, f) =
      let obj : o ≡ k.reaches.obj = some-injective _ _ (sym e ∙ k.reaches.obj_found) in
      let there : find_interface w o called_interface member ≡ some i =
        ap (λ x. find_interface w x called_interface member) obj ∙ k.reaches.interface_found in
      cc
  Judged-Calls k (answered no_method t) (o, x, e, f, g, _) =
      let obj : o ≡ k.reaches.obj = some-injective _ _ (sym e ∙ k.reaches.obj_found) in
      let interf : x ≡ i = some-injective _ _ (
        sym f
        ∙ ap (λ y. find_interface w y called_interface member) obj
        ∙ k.reaches.interface_found) in
      let there : find method_name member x.methods ≡ some method =
        ap (λ y. find method_name member y.methods) interf ∙ k.reaches.method_found in
      cc
  Judged-Calls k (answered unimplemented_method t) (x, m, r, e, _) =
      let there : m.handler ≡ some handler =
        ap (λ y. y.handler) (one_method x m k.reaches r) ∙ k.handles in
      cc
  Judged-Calls k (answered unknown_user t) (x, m, r, e, f, _) = f pwd k.user
  Judged-Calls k (answered invalid_call t) (x, m, r, e, p, u, inl (bad, _)) = bad k.clean
  Judged-Calls k (answered invalid_call t) (x, m, r, e, p, u, inr (_, bad, _)) =
      let good : equals (length ss) m.n_arguments ≡ true =
        ap (λ y. equals (length ss) y.n_arguments) (one_method x m k.reaches r) ∙ k.count in
      cc
  Judged-Calls k (called c) g =
      let same : g.meth ≡ method = one_method g.interf g.meth k.reaches g.reaches in
      (
        some-injective _ _ (sym g.handler ∙ ap (λ y. y.handler) same ∙ k.handles),
        g.names.4 ∙ ap (λ y. y.pw_name) (some-injective _ _ (sym g.user.0 ∙ k.user.0)),
      )

module _ (w : World) (ample : Ample w.fits) (ctx : Context) (conn : ℕ) (message : Incoming)
    (path interface member sender : Bytes) (srv : Service) (method : Method) (handler : ℕ)
    (pwd : Passwd) where
  -- A call that a client makes, and that the daemon has to deliver.
  pub record Deliverable : Type 0 where
    pub comes_from : message.sender ≡ some sender
    pub header : call_header message ≡ some (path, member)
    pub names_interface : message.interface ≡ some interface
    pub is_a_call : is_disconnect ctx.reconnect_timeout message ≡ false
    pub few : length (strings message.arguments) ≤ 0xffff
    pub no_nul : AreStrings (strings message.arguments)
    pub clean : AreClean (strings message.arguments)
    pub count : equals (length (strings message.arguments)) method.n_arguments ≡ true
    pub handles : method.handler ≡ some handler
    pub user :
        (w.getpwuid (w.get_unix_user sender) ≡ some pwd) × (pwd.pw_uid ≡ w.get_unix_user sender)

  FilterJudged-Calls :
      (i : Interface)
      → Clear w srv path message.interface member sender
          (strings message.arguments)
          i
          method
          handler
          pwd
      → Deliverable
      → (v : Verdict) → FilterJudged w ample ctx conn message sender srv v
      → Calls handler pwd.pw_name v
  FilterJudged-Calls i k d not_yet_handled (inl e) = cc (d.is_a_call)
  FilterJudged-Calls i k d not_yet_handled (inr e) = cc (d.header)
  FilterJudged-Calls i k d (answered n t) (p, q, e, f, j) =
      Judged-Calls w srv path message.interface member sender (strings message.arguments) i method
        handler pwd k (answered n t)
        (subst
          (λ h.
            Judged w srv h.0 message.interface h.1 sender (strings message.arguments)
              (answered n t))
          (some-injective (p, q) (path, member) (sym f ∙ d.header)) j)
  FilterJudged-Calls i k d (called c) (p, q, e, f, j) =
      Judged-Calls w srv path message.interface member sender (strings message.arguments) i method
        handler pwd k (called c)
        (subst
          (λ h.
            Judged w srv h.0 message.interface h.1 sender (strings message.arguments) (called c))
          (some-injective (p, q) (path, member) (sym f ∙ d.header)) j)

  -- With memory for every request, a method call that has a sender and names an interface is
  -- delivered: where its connection is taken to be that of a service, the paths of whose objects
  -- match only themselves, and where the lookup in the tree of this service leads path,
  -- interface and member to a method with a handler, the filter returns, and the verdict is a
  -- call of this handler for the user that the UID of the sender leads to; the message is no
  -- disconnect signal to watch for, and its string arguments are as many as the method declares,
  -- at most 65535, none with a NUL, a carriage return or a line feed.
  pub filter-Calls :
      Deliverable
      → Serves ctx conn srv
      → All object_path (IsLiteral w) srv.objects
      → in_service path interface member srv ≡ some method
      → Returns (Calls handler pwd.pw_name) (filter w ctx conn message)
  filter-Calls d s l e =
      let (i, r) = in_service-Reaches w srv path interface member method l e in
      Returns-map (FilterJudged w ample ctx conn message sender srv) (Calls handler pwd.pw_name)
        (filter w ctx conn message)
        (filter-Judged w ample ctx conn message sender srv d.comes_from s d.few d.no_nul)
        (FilterJudged-Calls i
          (record {
            reaches = subst (λ o. Reaches w srv path o member i method) (sym d.names_interface) r;
            handles = d.handles;
            user = d.user;
            clean = d.clean;
            count = d.count;
          })
          d)
