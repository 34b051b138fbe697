-- ===== src/Registry/Listeners/Refresh.antt =====
-- What a reconnection leaves as it is: all that the services offer, and the connections that are up.
use oddjob_gpupdate.Prelude.{
  ◌<◌, length, subst, Returns-ok, bind-returned, ℕ, ◌≡◌, refl, sym, ◌∙◌, ap, inl, inr, Bool,
  Bool-cases, true, false, List, [], ◌∷◌, none, Bytes, str_eq, ok, Returns, ℤ,
}
use oddjob_gpupdate.Registry.Table.{find, IsDistinct}
use oddjob_gpupdate.Registry.Table.Below.{All, through}
use oddjob_gpupdate.Registry.Bus.{Bus, Effect, service_connect}
use oddjob_gpupdate.Registry.Types.{Service, Context, service_name, object_path}
use oddjob_gpupdate.Registry.Lookup.{IsTree, TreeService, TreeObject, lookup, in_service, in_object}
use oddjob_gpupdate.Registry.Listeners.{is_up, refresh, refresh_all, reconnect_if_needed}

-- The same services, apart from their connections.
abbrev pub AreAlike : List Service → List Service → Type 0
AreAlike [] [] = Unit
AreAlike (x ∷ xs) (y ∷ ys) = (y.name ≡ x.name) × (y.objects ≡ x.objects) × AreAlike xs ys
AreAlike _ _ = ⊥

lookup-AreAlike :
    (xs ys : List Service) (t q j n : Bytes)
    → AreAlike xs ys
    → through service_name (in_service q j n) t ys ≡ through service_name (in_service q j n) t xs
unfolding find
lookup-AreAlike [] [] t q j n h = refl
lookup-AreAlike (x ∷ xs) (y ∷ ys) t q j n (e, f, h) = elim (Bool-cases (str_eq t x.name)) [
  | inl u ↦
      let v : str_eq t y.name ≡ true = ap (str_eq t) e ∙ u in
      rw (u, v, through) (ap (through object_path (in_object j n) q) f)
  | inr u ↦
      let v : str_eq t y.name ≡ false = ap (str_eq t) e ∙ u in
      rw (u, v, through) (lookup-AreAlike xs ys t q j n h)
]
lookup-AreAlike [] (y ∷ ys) t q j n h = absurd h
lookup-AreAlike (x ∷ xs) [] t q j n h = absurd h

find-AreAlike :
    (xs ys : List Service) (t : Bytes)
    → AreAlike xs ys
    → find service_name t xs ≡ none
    → find service_name t ys ≡ none
unfolding find
find-AreAlike [] [] t h g = refl
find-AreAlike (x ∷ xs) (y ∷ ys) t (e, f, h) g = elim (Bool-cases (str_eq t x.name)) [
  | inl u ↦ absurd (let w = rw u at g in cc)
  | inr u ↦
      let v : str_eq t y.name ≡ false = ap (str_eq t) e ∙ u in
      rw v (find-AreAlike xs ys t h (rw u at g))
]
find-AreAlike [] (y ∷ ys) t h g = absurd h
find-AreAlike (x ∷ xs) [] t h g = absurd h

IsDistinct-AreAlike :
    (xs ys : List Service)
    → AreAlike xs ys
    → IsDistinct service_name xs
    → IsDistinct service_name ys
IsDistinct-AreAlike [] [] h d = tt
IsDistinct-AreAlike (x ∷ xs) (y ∷ ys) (e, f, h) d = (
  ap (λ t. find service_name t ys) e ∙ find-AreAlike xs ys x.name h d.0,
  IsDistinct-AreAlike xs ys h d.1,
)
IsDistinct-AreAlike [] (y ∷ ys) h d = absurd h
IsDistinct-AreAlike (x ∷ xs) [] h d = absurd h

TreeService-objects : (x y : Service) → y.objects ≡ x.objects → TreeService x → TreeService y
TreeService-objects x y f t =
    subst (λ os. IsDistinct object_path os × (0 < length os) × All object_path TreeObject os)
      (sym f) t

All-AreAlike :
    (xs ys : List Service)
    → AreAlike xs ys
    → All service_name TreeService xs
    → All service_name TreeService ys
All-AreAlike [] [] h a = tt
All-AreAlike (x ∷ xs) (y ∷ ys) (e, f, h) a =
    (TreeService-objects x y f a.0, All-AreAlike xs ys h a.1)
All-AreAlike [] (y ∷ ys) h a = absurd h
All-AreAlike (x ∷ xs) [] h a = absurd h

module _ (is_connected : ℕ → Bool) (bus : Bytes → Bus) (timeout : ℤ) where
  -- The attempts to connect a service that is not up come to an end.
  abbrev pub AllEnd : List Service → Type 0
  AllEnd [] = Unit
  AllEnd (x ∷ xs) =
      (is_up is_connected bus x.conn ≡ false
        → Returns (λ _. Unit) (service_connect timeout x.name (bus x.name)))
      × AllEnd xs

  -- A service that was up has its connection, any other the one that it was given, if any.
  abbrev pub AreRefreshed : List Service → List Service → Type 0
  AreRefreshed (x ∷ xs) (y ∷ ys) =
      (is_up is_connected bus x.conn ≡ true → y.conn ≡ x.conn)
      × (is_up is_connected bus x.conn ≡ false
          → (log : List Effect) × (service_connect timeout x.name (bus x.name) ≡ ok (y.conn, log)))
      × AreRefreshed xs ys
  AreRefreshed _ _ = Unit

  abbrev Refreshes : List Service → List Service × List Effect → Type 0
  Refreshes xs r = AreAlike xs r.0 × AreRefreshed xs r.0

  abbrev RefreshesOne : Service → Service × List Effect → Type 0
  RefreshesOne x r = AreAlike (x ∷ []) (r.0 ∷ []) × AreRefreshed (x ∷ []) (r.0 ∷ [])

  refresh-Returns :
      (x : Service)
      → (is_up is_connected bus x.conn ≡ false
          → Returns (λ _. Unit) (service_connect timeout x.name (bus x.name)))
      → Returns (RefreshesOne x) (refresh is_connected bus timeout x)
  unfolding refresh
  refresh-Returns x h = elim (Bool-cases (is_up is_connected bus x.conn)) [
    | inl t ↦ rw t ((refl, refl, tt), ((λ _. refl), (λ f. cc), tt))
    | inr t ↦
        let (found, e, _) =
          Returns-ok (λ _. Unit) (service_connect timeout x.name (bus x.name)) (h t) in
        rw (t, e) ((refl, refl, tt), ((λ f. cc), (λ _. (found.1, e)), tt))
  ]

  pub refresh_all-Returns :
      (xs : List Service)
      → AllEnd xs
      → Returns (Refreshes xs) (refresh_all is_connected bus timeout xs)
  unfolding refresh_all
  refresh_all-Returns [] h = (tt, tt)
  refresh_all-Returns (x ∷ xs) h =
      let (one, e, a) =
        Returns-ok (RefreshesOne x) (refresh is_connected bus timeout x) (refresh-Returns x h.0) in
      let (rest, f, b) =
        Returns-ok (Refreshes xs) (refresh_all is_connected bus timeout xs)
          (refresh_all-Returns xs h.1) in
      rw (e, f) ((a.0.0, a.0.1, b.0), (a.1.0, a.1.1, b.1))

  refresh_all-AllEnd :
      (xs : List Service) (r : List Service × List Effect)
      → refresh_all is_connected bus timeout xs ≡ ok r
      → AllEnd xs
  unfolding refresh_all refresh
  refresh_all-AllEnd [] r e = tt
  refresh_all-AllEnd (x ∷ xs) r e =
      let (one, f, g) = bind-returned (refresh is_connected bus timeout x) _ e in
      let (rest, k, _) = bind-returned (refresh_all is_connected bus timeout xs) _ g in
      (
        (λ t.
            let (found, h, _) =
              bind-returned (service_connect timeout x.name (bus x.name)) _ (rw t at f) in
            rw h tt),
        refresh_all-AllEnd xs rest k,
      )

-- What `oddjob_dbus_listeners_reconnect_if_needed` leaves.
pub record Reconnected (is_connected : ℕ → Bool) (bus : Bytes → Bus) (ctx after : Context)
    : Type 0 where
  pub lookups : (t q j n : Bytes) → lookup after t q j n ≡ lookup ctx t q j n
  pub tree : IsTree ctx → IsTree after
  pub alike : AreAlike ctx.services after.services
  pub connections : AreRefreshed is_connected bus ctx.reconnect_timeout ctx.services after.services
  pub policy : after.reconnect_timeout ≡ ctx.reconnect_timeout

-- Where the attempts to connect each service that is not up come to an end,
-- oddjob_dbus_listeners_reconnect_if_needed returns: any four names lead to what they led to
-- before, a well-formed tree stays one, the timeout is the same, a service whose connection is
-- up keeps it, and any other has the one that service_connect gave it, or none.
pub reconnect_if_needed-Reconnected :
    (is_connected : ℕ → Bool) (bus : Bytes → Bus) (ctx : Context)
    → AllEnd is_connected bus ctx.reconnect_timeout ctx.services
    → Returns (λ r. Reconnected is_connected bus ctx r.0) (reconnect_if_needed is_connected bus ctx)
unfolding reconnect_if_needed
reconnect_if_needed-Reconnected is_connected bus ctx h =
    let (r, e, (alike, refreshed)) =
      Returns-ok (Refreshes is_connected bus ctx.reconnect_timeout ctx.services)
        (refresh_all is_connected bus ctx.reconnect_timeout ctx.services)
        (refresh_all-Returns is_connected bus ctx.reconnect_timeout ctx.services h) in
    rw e (record {
      lookups = λ t q j n. lookup-AreAlike ctx.services r.0 t q j n alike;
      tree = λ t.
          (IsDistinct-AreAlike ctx.services r.0 alike t.0, All-AreAlike ctx.services r.0 alike t.1);
      alike = alike;
      connections = refreshed;
      policy = refl;
    })

-- The same, where it is known to return.
pub reconnected_lem :
    (is_connected : ℕ → Bool) (bus : Bytes → Bus) (ctx : Context) (r : Context × List Effect)
    → reconnect_if_needed is_connected bus ctx ≡ ok r
    → Reconnected is_connected bus ctx r.0
unfolding reconnect_if_needed
reconnected_lem is_connected bus ctx r e =
    let (all, f, _) =
      bind-returned (refresh_all is_connected bus ctx.reconnect_timeout ctx.services) _ e in
    subst (Returns (λ a. Reconnected is_connected bus ctx a.0)) e (
      reconnect_if_needed-Reconnected is_connected bus ctx
        (refresh_all-AllEnd is_connected bus ctx.reconnect_timeout ctx.services all f))
