-- ===== src/Dispatch/Serving.antt =====
-- Which service `oddjob_dbus_filter` takes a message to be for.
use oddjob_gpupdate.Prelude.{
  ℕ, ◌≡◌, refl, inl, inr, List, [], ◌∷◌, Option, none, some, ◌==◌, if◌then◌else◌, Bool-cases,
  Option-cases,
}
use oddjob_gpupdate.Registry.Types.{Service}
use oddjob_gpupdate.Dispatch.Filter.{serving}

-- The first service on this connection.
abbrev pub owner : ℕ → List Service → Option Service
owner conn [] = none
owner conn (s ∷ more) = elim s.conn [
  | none ↦ owner conn more
  | some c ↦ if c == conn then some s else owner conn more
]

-- The last service, or `srv` where there is none.
abbrev pub last : Option Service → List Service → Option Service
last srv [] = srv
last srv (s ∷ more) = last (some s) more

-- The search for the connection in oddjob_dbus_filter ends at the first service on this
-- connection, and, where there is none, at the last service of all, or at srv as it was where
-- there is no service.
pub serving-owner :
    (conn : ℕ) (srv : Option Service) (services : List Service)
    → serving conn srv services
      ≡ (elim (owner conn services) [ none ↦ last srv services | some s ↦ some s ])
unfolding serving
serving-owner conn srv [] = refl
serving-owner conn srv (s ∷ more) = elim (Option-cases s.conn) [
  | inl e ↦ rw (e, serving, owner) (serving-owner conn (some s) more)
  | inr (c, e) ↦ elim (Bool-cases (c == conn)) [
    | inl t ↦ rw (e, t, serving, owner) refl
    | inr f ↦ rw (e, f, serving, owner) (serving-owner conn (some s) more)
  ]
]
