-- ===== src/Registry/Attached.antt =====
-- Which connections are attached to the main loop, by the calls in a log, and which the services
-- hold.
use oddjob_gpupdate.Prelude.{
  ℕ, ◌+◌, ◌≡◌, refl, sym, ◌∙◌, subst, ap, arith, inl, inr, Bool, Bool-cases, true, false, not, List,
  [], ◌∷◌, ◌++◌, Option, none, some, Bytes, str_eq, ◌==◌, length, ok, bind-returned, ok-injective,
  or_fault, ℤ, above,
}
use mathlib.Core.Option.{some-injective}
use oddjob_gpupdate.Registry.Table.{find, put}
use oddjob_gpupdate.Registry.Bus.{
  Bus, Effect, Attempt, attach, detach, exit_on_disconnect, refused, dead, live, connect_loop,
  offer, service_connect, service_disconnect,
}
use oddjob_gpupdate.Registry.Types.{Service, service_name}
use oddjob_gpupdate.Registry.Listeners.{is_up, set_policies, refresh, refresh_all, disconnect_all}

abbrev pub one_if : Bool → ℕ
one_if true = 1
one_if false = 0

-- Whether a call is that of `mainloop_connect` for a connection, or of `mainloop_disconnect`.
abbrev pub attaching : ℕ → Effect → ℕ
attaching c (attach d) = one_if (d == c)
attaching c _ = 0

abbrev pub detaching : ℕ → Effect → ℕ
detaching c (detach d) = one_if (d == c)
detaching c _ = 0

unfoldable pub attaches : ℕ → List Effect → ℕ
attaches c [] = 0
attaches c (e ∷ log) = attaching c e + attaches c log

unfoldable pub detaches : ℕ → List Effect → ℕ
detaches c [] = 0
detaches c (e ∷ log) = detaching c e + detaches c log

-- Whether this is the connection, and the services that hold it.
abbrev pub held : ℕ → Option ℕ → ℕ
held c none = 0
held c (some d) = one_if (d == c)

unfoldable pub holders : ℕ → List Service → ℕ
holders c [] = 0
holders c (s ∷ more) = held c s.conn + holders c more

-- The log accounts for the change from `before` holders to `after`.
abbrev pub Balances : ℕ → List Effect → ℕ → ℕ → Type 0
Balances c log before after = attaches c log + before ≡ detaches c log + after

attaches-append :
    (c : ℕ) (xs ys : List Effect) → attaches c (xs ++ ys) ≡ attaches c xs + attaches c ys
unfolding attaches
attaches-append c [] ys = omega arith
attaches-append c (x ∷ xs) ys = omega (arith, attaches-append c xs ys)

detaches-append :
    (c : ℕ) (xs ys : List Effect) → detaches c (xs ++ ys) ≡ detaches c xs + detaches c ys
unfolding detaches
detaches-append c [] ys = omega arith
detaches-append c (x ∷ xs) ys = omega (arith, detaches-append c xs ys)

pub Balances-append :
    (c : ℕ) (xs ys : List Effect) (a b d : ℕ)
    → Balances c xs a b
    → Balances c ys b d
    → Balances c (xs ++ ys) a d
Balances-append c xs ys a b d h k = omega (arith, attaches-append c xs ys, detaches-append c xs ys)

-- Two logs of different services.
Balances-beside :
    (c : ℕ) (xs ys : List Effect) (a b d e : ℕ)
    → Balances c xs a b
    → Balances c ys d e
    → Balances c (xs ++ ys) (a + d) (b + e)
Balances-beside c xs ys a b d e h k =
    omega (arith, attaches-append c xs ys, detaches-append c xs ys)

connect_loop-Balances :
    (c : ℕ) (timeout : ℤ) (attempt : ℕ) (answers : List Attempt) (found : ℕ × List Effect)
    → connect_loop timeout attempt answers ≡ ok found
    → Balances c found.1 0 0
unfolding connect_loop attaches detaches
connect_loop-Balances c timeout attempt [] found e = cc
connect_loop-Balances c timeout attempt (live d ∷ _) found e =
    subst (λ r. Balances c r.1 0 0) (ok-injective e) refl
connect_loop-Balances c timeout attempt (refused ∷ more) found e =
    let (r, f, g) = bind-returned (connect_loop timeout (attempt + 1) more) _ e in
    let ih = connect_loop-Balances c timeout (attempt + 1) more r f in
    subst (λ z. Balances c z.1 0 0) (ok-injective g) (omega arith)
connect_loop-Balances c timeout attempt (dead d ∷ more) found e =
    let (r, f, g) = bind-returned (connect_loop timeout (attempt + 1) more) _ e in
    let ih = connect_loop-Balances c timeout (attempt + 1) more r f in
    subst (λ z. Balances c z.1 0 0) (ok-injective g) (omega arith)

offer-Balances :
    (c : ℕ) (timeout : ℤ) (name : Bytes) (bus : Bus) (conn : ℕ) (log : List Effect)
    → Balances c log 0 0
    → Balances c (offer timeout name bus conn log).1 0 (held c (offer timeout name bus conn log).0)
unfolding offer attaches detaches
offer-Balances c timeout name bus conn log h =
    let opened = log ++ exit_on_disconnect (some conn) (not (above timeout 0)) ∷ [] in
    let quiet : Balances c opened 0 0 = Balances-append c log _ 0 0 0 h refl in
    elim (Bool-cases bus.accepts_filter) [
      | inr t ↦ rw t (Balances-append c opened _ 0 0 0 quiet refl)
      | inl t ↦ elim (Bool-cases bus.grants_name) [
        | inr u ↦ rw (t, u) (Balances-append c opened _ 0 0 0 quiet refl)
        | inl u ↦
            rw (t, u) (Balances-append c opened _ 0 0 (one_if (conn == c)) quiet (omega arith))
      ]
    ]

pub service_connect-Balances :
    (c : ℕ) (timeout : ℤ) (name : Bytes) (bus : Bus) (found : Option ℕ × List Effect)
    → service_connect timeout name bus ≡ ok found
    → Balances c found.1 0 (held c found.0)
unfolding service_connect
service_connect-Balances c timeout name bus found e =
    let (r, f, g) = bind-returned (connect_loop timeout 0 bus.answers) _ e in
    subst (λ z. Balances c z.1 0 (held c z.0)) (ok-injective g)
      (offer-Balances c timeout name bus r.0 r.1
        (connect_loop-Balances c timeout 0 bus.answers r f))

pub service_disconnect-Balances :
    (c : ℕ) (conn : Option ℕ) (name : Bytes)
    → Balances c (service_disconnect conn name) (held c conn) 0
unfolding service_disconnect attaches detaches
service_disconnect-Balances c none name = refl
service_disconnect-Balances c (some d) name = omega arith

pub disconnect_all-Balances :
    (c : ℕ) (xs : List Service) → Balances c (disconnect_all xs) (holders c xs) 0
unfolding disconnect_all holders attaches detaches
disconnect_all-Balances c [] = refl
disconnect_all-Balances c (s ∷ more) =
    Balances-beside c (service_disconnect s.conn s.name) (disconnect_all more) (held c s.conn) 0
      (holders c more) 0 (service_disconnect-Balances c s.conn s.name)
      (disconnect_all-Balances c more)

-- A change of policy attaches nothing.
pub set_policies-Balances :
    (c n : ℕ) (exits : Bool) (xs : List Service) (log : List Effect)
    → set_policies exits xs ≡ ok log
    → Balances c log n n
unfolding set_policies attaches detaches
set_policies-Balances c n exits [] log e = subst (λ l. Balances c l n n) (ok-injective e) refl
set_policies-Balances c n exits (s ∷ more) log e =
    let (conn, _, f) = bind-returned (or_fault s.conn) _ e in
    let (rest, g, h) = bind-returned (set_policies exits more) _ f in
    let ih = set_policies-Balances c n exits more rest g in
    subst (λ l. Balances c l n n) (ok-injective h) (omega arith)

module _ (is_connected : ℕ → Bool) (bus : Bytes → Bus) (timeout : ℤ) where
  refresh-Balances :
      (c : ℕ) (s : Service) (r : Service × List Effect)
      → refresh is_connected bus timeout s ≡ ok r
      → Balances c r.1 (held c s.conn) (held c r.0.conn)
  unfolding refresh attaches detaches
  refresh-Balances c s r e = elim (Bool-cases (is_up is_connected bus s.conn)) [
    | inl t ↦
        subst (λ z. Balances c z.1 (held c s.conn) (held c z.0.conn)) (ok-injective (rw t at e))
          refl
    | inr t ↦
        let (found, f, g) =
          bind-returned (service_connect timeout s.name (bus s.name)) _ (rw t at e) in
        subst (λ z. Balances c z.1 (held c s.conn) (held c z.0.conn)) (ok-injective g)
          (Balances-append c (service_disconnect s.conn s.name) found.1 (held c s.conn) 0
            (held c found.0) (service_disconnect-Balances c s.conn s.name)
            (service_connect-Balances c timeout s.name (bus s.name) found f))
  ]

  pub refresh_all-Balances :
      (c : ℕ) (xs : List Service) (r : List Service × List Effect)
      → refresh_all is_connected bus timeout xs ≡ ok r
      → Balances c r.1 (holders c xs) (holders c r.0)
  unfolding refresh_all holders attaches detaches
  refresh_all-Balances c [] r e =
      subst (λ z. Balances c z.1 0 (holders c z.0)) (ok-injective e) refl
  refresh_all-Balances c (s ∷ more) r e =
      let (one, f, g) = bind-returned (refresh is_connected bus timeout s) _ e in
      let (rest, k, h) = bind-returned (refresh_all is_connected bus timeout more) _ g in
      subst (λ z. Balances c z.1 (held c s.conn + holders c more) (holders c z.0)) (ok-injective h)
        (Balances-beside c one.1 rest.1 (held c s.conn) (held c one.0.conn) (holders c more)
          (holders c rest.0) (refresh-Balances c s one f) (refresh_all-Balances c more rest k))

-- A service in the place of one on the same connection, and one more at the end.
pub holders-put :
    (c : ℕ) (k : Bytes) (y x : Service) (xs : List Service)
    → find service_name k xs ≡ some x
    → y.conn ≡ x.conn
    → holders c (put service_name k y xs) ≡ holders c xs
unfolding holders put find
holders-put c k y x [] e f = cc
holders-put c k y x (z ∷ xs) e f = elim (Bool-cases (str_eq k z.name)) [
  | inl t ↦
      let same : z ≡ x = some-injective _ _ (sym (rw t) ∙ e) in
      rw t (ap (λ o. held c o + holders c xs) (f ∙ ap (λ s. s.conn) (sym same)))
  | inr t ↦
      let ih = holders-put c k y x xs (sym (rw t) ∙ e) f in rw t (ap (λ n. held c z.conn + n) ih)
]

pub holders-append :
    (c : ℕ) (xs ys : List Service) → holders c (xs ++ ys) ≡ holders c xs + holders c ys
unfolding holders
holders-append c [] ys = omega arith
holders-append c (x ∷ xs) ys = omega (arith, holders-append c xs ys)

-- The holders where there is one service.
pub holders_only :
    (c : ℕ) (k : Bytes) (x : Service) (xs : List Service)
    → find service_name k xs ≡ some x
    → length xs ≡ 1
    → holders c xs ≡ held c x.conn
unfolding holders find
holders_only c k x [] e n = cc
holders_only c k x (y ∷ []) e n = elim (Bool-cases (str_eq k y.name)) [
  | inl t ↦
      let same : y ≡ x = some-injective _ _ (sym (rw t) ∙ e) in
      omega (arith, ap (λ s. held c s.conn) same)
  | inr t ↦ let w : find service_name k [] ≡ some x = sym (rw t) ∙ e in cc
]
holders_only c k x (y ∷ z ∷ xs) e n = absurd (omega arith)

pub Balances-nil : (c a b : ℕ) → b ≡ a → Balances c [] a b
unfolding attaches detaches
Balances-nil c a b e = omega (arith, e)

-- One service more.
pub Balances-grown :
    (c : ℕ) (log : List Effect) (xs : List Service) (y : Service)
    → Balances c log 0 (held c y.conn)
    → Balances c log (holders c xs) (holders c (xs ++ y ∷ []))
unfolding holders
Balances-grown c log xs y h = omega (arith, holders-append c xs (y ∷ []), h)
