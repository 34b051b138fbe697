-- ===== src/Dispatch/Resolve.antt =====
-- What `oddjob_dbus_filter` decides, and why.
use oddjob_gpupdate.Prelude.{
  ℕ, ◌≡◌, ◌≢◌, ◌⊎◌, refl, sym, ◌∙◌, ap, inl, inr, arith, true, false, ◌||◌, List, [], ◌∷◌, Option,
  none, some, Bytes, ◌==◌, Bool-cases, Option-cases, length, ok, Returns, IsClean, equals,
}
use mathlib.Core.Option.{some-injective}
use oddjob_gpupdate.Registry.Table.{find}
use oddjob_gpupdate.Registry.Types.{Method, Interface, Object, Service, method_name}
use oddjob_gpupdate.Dispatch.Message.{Message}
use oddjob_gpupdate.Dispatch.Arguments.{pointers}
use oddjob_gpupdate.Dispatch.Filter.{
  World, Passwd, Verdict, not_yet_handled, answered, called, no_object, no_interface, no_method,
  unimplemented_method, unknown_user, invalid_call, Text, plain, uid_is, invalid_invocation,
  wrong_number, Call, ErrorName, has_line_end, any_line_end, find_object, find_interface, invoke,
  deliver,
}

-- No carriage return and no line feed in any of them.
abbrev pub AreClean : List Bytes → Type 0
AreClean [] = Unit
AreClean (s ∷ more) = IsClean s × AreClean more

has_line_end-cases :
    (s : Bytes) → ((has_line_end s ≡ true) × ¬ IsClean s) ⊎ ((has_line_end s ≡ false) × IsClean s)
unfolding has_line_end
has_line_end-cases [] = inr (refl, tt)
has_line_end-cases (c ∷ cs) = elim (Bool-cases (c == b'\r' || c == b'\n')) [
  | inl t ↦ inl (rw t refl, λ q. ground arith)
  | inr f ↦ elim (has_line_end-cases cs) [
    | inl p ↦ inl (rw (f, p.0) refl, λ q. p.1 q.2)
    | inr p ↦ inr (rw (f, p.0) refl, (ground arith, ground arith, p.1))
  ]
]

any_line_end-cases :
    (ss : List Bytes)
    → ((any_line_end (pointers ss) ≡ ok true) × ¬ AreClean ss)
      ⊎ ((any_line_end (pointers ss) ≡ ok false) × AreClean ss)
unfolding any_line_end
any_line_end-cases [] = inr (refl, tt)
any_line_end-cases (s ∷ ss) = elim (has_line_end-cases s) [
  | inl p ↦ inl (rw (p.0) refl, λ q. p.1 q.0)
  | inr p ↦ elim (any_line_end-cases ss) [
    | inl q ↦ inl (rw (p.0, q.0) refl, λ r. q.1 r.1)
    | inr q ↦ inr (rw (p.0, q.0) refl, (p.1, q.1))
  ]
]

module _ (w : World) (srv : Service) (path : Bytes) (called_interface : Option Bytes)
    (member : Bytes) where
  -- The search ends at this method.
  pub record Reaches (interface : Interface) (method : Method) : Type 0 where
    pub obj : Object
    pub obj_found : find_object w path srv.objects ≡ some obj
    pub interface_found : find_interface w obj called_interface member ≡ some interface
    pub method_found : find method_name member interface.methods ≡ some method

  -- The sender's UID leads to a user.
  abbrev pub IsUser : ℕ → Passwd → Type 0
  IsUser uid pwd = (w.getpwuid uid ≡ some pwd) × (pwd.pw_uid ≡ uid)

  module _ (sender : Bytes) (ss : List Bytes) where
    -- What must hold for each answer.
    abbrev pub Refused : ErrorName → Text → Type 0
    Refused no_object t = (find_object w path srv.objects ≡ none) × (t ≡ plain path)
    Refused no_interface t =
        (obj : Object) × (find_object w path srv.objects ≡ some obj)
        × (find_interface w obj called_interface member ≡ none)
    Refused no_method t =
        (obj : Object) × (i : Interface) × (find_object w path srv.objects ≡ some obj)
        × (find_interface w obj called_interface member ≡ some i)
        × (find method_name member i.methods ≡ none)
        × (t ≡ plain member)
    Refused unimplemented_method t =
        (i : Interface) × (m : Method) × Reaches i m × (m.handler ≡ none) × (t ≡ plain member)
    Refused unknown_user t =
        (i : Interface) × (m : Method) × Reaches i m
        × (m.handler ≢ none)
        × ((pwd : Passwd) → ¬ IsUser (w.get_unix_user sender) pwd)
        × (t ≡ uid_is (w.get_unix_user sender))
    Refused invalid_call t =
        (i : Interface) × (m : Method) × Reaches i m
        × (m.handler ≢ none)
        × (pwd : Passwd) × IsUser (w.get_unix_user sender) pwd
        × (((¬ AreClean ss) × (t ≡ invalid_invocation))
            ⊎ (AreClean ss
                × (equals (length ss) m.n_arguments ≡ false)
                × (t ≡ wrong_number m.n_arguments (length ss))))

    -- What must hold for a call of a handler.
    pub record Granted (c : Call) : Type 0 where
      pub interf : Interface
      pub meth : Method
      pub reaches : Reaches interf meth
      pub pwd : Passwd
      pub user : IsUser (w.get_unix_user sender) pwd
      pub clean : AreClean ss
      pub count : equals (length ss) meth.n_arguments ≡ true
      pub handler : meth.handler ≡ some c.handler
      pub user_data : c.user_data ≡ meth.user_data
      pub msg : (c.msg.args ≡ pointers ss) × (c.msg.n_args ≡ length ss)
      pub names :
          (c.service ≡ srv.name)
          × (c.path ≡ path)
          × (c.interface ≡ interf.interface)
          × (c.member ≡ member)
          × (c.user ≡ pwd.pw_name)
          × (c.uid ≡ w.get_unix_user sender)

    abbrev pub Judged : Verdict → Type 0
    Judged not_yet_handled = ⊥
    Judged (answered e t) = Refused e t
    Judged (called c) = Granted c

    module _ (m : Message) (args : m.args ≡ pointers ss) (count : m.n_args ≡ length ss) where
      another_user :
          (p pwd : Passwd)
          → IsUser (w.get_unix_user sender) p
          → w.getpwuid (w.get_unix_user sender) ≡ some pwd
          → (pwd.pw_uid == w.get_unix_user sender) ≡ false
          → ⊥
      another_user p pwd u e f =
          let same : p ≡ pwd = some-injective _ _ (sym u.0 ∙ e) in
          let uid : pwd.pw_uid ≡ w.get_unix_user sender = ap (λ q. q.pw_uid) (sym same) ∙ u.1 in
          ground arith

      pub invoke-Judged :
          (i : Interface) (method : Method) (handler : ℕ)
          → Reaches i method
          → method.handler ≡ some handler
          → Returns Judged (invoke w m sender srv.name path i.interface member method handler)
      unfolding invoke
      invoke-Judged i method handler r h =
          let there : method.handler ≢ none = λ e. cc in
          let a : any_line_end m.args ≡ any_line_end (pointers ss) = ap any_line_end args in
          elim (Option-cases (w.getpwuid (w.get_unix_user sender))) [
            | inl e ↦ rw (e, invoke) (i, method, r, there, λ pwd u. cc (u.0), refl)
            | inr (pwd, e) ↦ elim (Bool-cases (pwd.pw_uid == w.get_unix_user sender)) [
              | inl t ↦
                  let u : IsUser (w.get_unix_user sender) pwd = (e, ground arith) in
                  (elim (any_line_end-cases ss) [
                    | inl p ↦
                        rw (e, t, a ∙ p.0, invoke) (i, method, r, there, pwd, u, inl (p.1, refl))
                    | inr p ↦ elim (Bool-cases (equals (length ss) method.n_arguments)) [
                      | inl q ↦
                          rw
                            (e, t, a ∙ p.0, ap (λ n. equals n method.n_arguments) count ∙ q, invoke)
                            (record {
                              interf = i;
                              meth = method;
                              reaches = r;
                              pwd = pwd;
                              user = u;
                              clean = p.1;
                              count = q;
                              handler = h;
                              user_data = refl;
                              msg = (args, count);
                              names = (refl, refl, refl, refl, refl, refl);
                            })
                      | inr q ↦
                          rw
                            (e, t, a ∙ p.0, ap (λ n. equals n method.n_arguments) count ∙ q, invoke)
                            (
                              i,
                              method,
                              r,
                              there,
                              pwd,
                              u,
                              inr (p.1, q, ap (wrong_number method.n_arguments) count),
                            )
                    ]
                  ])
              | inr f ↦
                  rw (e, f, invoke) (i, method, r, there, λ p u. another_user p pwd u e f, refl)
            ]
          ]

      pub deliver-Judged : Returns Judged (deliver w m sender srv path called_interface member)
      unfolding deliver
      deliver-Judged = elim (Option-cases (find_object w path srv.objects)) [
        | inl e ↦ rw (e, deliver) (e, refl)
        | inr (obj, e) ↦ elim (Option-cases (find_interface w obj called_interface member)) [
          | inl f ↦ rw (e, f, deliver) (obj, e, f)
          | inr (i, f) ↦ elim (Option-cases (find method_name member i.methods)) [
            | inl g ↦ rw (e, f, g, deliver) (obj, i, e, f, g, refl)
            | inr (method, g) ↦
                let r : Reaches i method = record {
                  obj = obj;
                  obj_found = e;
                  interface_found = f;
                  method_found = g;
                } in
                (elim (Option-cases method.handler) [
                  | inl h ↦ rw (e, f, g, h, deliver) (i, method, r, h, refl)
                  | inr (handler, h) ↦ rw (e, f, g, h, deliver) (invoke-Judged i method handler r h)
                ])
          ]
        ]
      ]
