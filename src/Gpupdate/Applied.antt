-- ===== src/Gpupdate/Applied.antt =====
-- What `gpupdate` of src/gpupdate.c does for a user or for the computer.
use oddjob_gpupdate.Prelude.{
  ℕ, ◌≡◌, ◌≢◌, ◌⊎◌, refl, inl, inr, Bool, true, false, not, List, [], ◌∷◌, Option, none, some,
  Bytes, ◌==◌, if◌then◌else◌, Bool-cases, Option-cases, ok, fault, Returns,
}
use oddjob_gpupdate.Gpupdate.{
  Settings, force_flag, Account, Mode, World, Role, unforked, parent, child_runs, child_cannot_run,
  Notice, unknown_user, weird_home, Ended, returned, became, get_gpo_exe, apply_gpo, check_user,
  report, gpupdate, handler_invalid_invocation,
}

-- The exit code, or the program that the process has become and its arguments.
abbrev pub End : Type 0
End = ℕ ⊎ Bytes × List Bytes

abbrev pub seen : Ended → End
seen (returned code _) = inl code
seen (became exe args _) = inr (exe, args)

-- The arguments of the applier behind its name.
abbrev pub user_args : Option Bytes → List Bytes
user_args none = []
user_args (some user) = user ∷ []

-- What is to become of each process. The status of the applier plays no part.
abbrev pub expected : Role → Bytes → Option Bytes → Bool → End
expected unforked exe user forced = inl 1
expected (parent none) exe user forced = inl 1
expected (parent (some status)) exe user forced = inl 0
expected child_cannot_run exe user forced = inl 1
expected child_runs exe user true = inr (exe, exe ∷ force_flag ∷ user_args user)
expected child_runs exe user false = inr (exe, exe ∷ user_args user)

-- A user's account, if there is one, has a home directory.
abbrev pub HasHome : World → Option Bytes → Type 0
HasHome w none = Unit
HasHome w (some user) = (a : Account) → w.getpwnam user ≡ some a → a.pw_dir ≢ none

-- The applier is a file or a link.
abbrev pub IsApplier : World → Bytes → Type 0
IsApplier w exe =
    (mode : Mode) × (w.stat exe ≡ some mode) × ((mode.is_regular ≡ true) ⊎ (mode.is_link ≡ true))

-- It is not there, or is something else.
abbrev pub IsNoApplier : World → Bytes → Type 0
IsNoApplier w exe =
    (mode : Mode) → w.stat exe ≡ some mode → (mode.is_regular ≡ false) × (mode.is_link ≡ false)

module _ (w : World) where
  check_user-Returns :
      (user : Option Bytes)
      → HasHome w user
      → (notes : List Notice) × (check_user w user ≡ ok notes)
  unfolding check_user
  check_user-Returns none h = ([], refl)
  check_user-Returns (some user) h = elim (Option-cases (w.getpwnam user)) [
    | inl e ↦ (unknown_user user ∷ [], rw (e, check_user))
    | inr (account, e) ↦ elim (Option-cases account.pw_dir) [
      | inl f ↦ absurd (h account e f)
      | inr ([], f) ↦ (weird_home user [] ∷ [], rw (e, f, check_user))
      | inr (c ∷ dir, f) ↦
          (if not (c == b'/') then weird_home user (c ∷ dir) ∷ [] else [], rw (e, f, check_user))
    ]
  ]

  report-seen :
      (role : Role) (exe : Bytes) (user : Option Bytes) (forced : Bool) (notes : List Notice)
      → seen (report w user notes (apply_gpo role exe user forced)) ≡ expected role exe user forced
  unfolding report apply_gpo
  report-seen unforked exe user forced notes = refl
  report-seen (parent none) exe user forced notes = refl
  report-seen (parent (some status)) exe user forced notes = refl
  report-seen child_cannot_run exe user forced notes = refl
  report-seen child_runs exe none true notes = refl
  report-seen child_runs exe (some user) true notes = refl
  report-seen child_runs exe none false notes = refl
  report-seen child_runs exe (some user) false notes = refl

  module _ (role : Role) (s : Settings) (user : Option Bytes) (h : HasHome w user) where
    pub gpupdate-seen :
        IsApplier w (get_gpo_exe s)
        → Returns
            (λ e. seen e ≡ expected role (get_gpo_exe s) user s.is_forced)
            (gpupdate w role s user)
    unfolding gpupdate
    gpupdate-seen (mode, e, k) =
        let (notes, checked) = check_user-Returns user h in
        elim k [
          | inl r ↦
              rw (checked, e, r, gpupdate) (report-seen role (get_gpo_exe s) user s.is_forced _)
          | inr l ↦ elim (Bool-cases mode.is_regular) [
            | inl r ↦
                rw (checked, e, r, gpupdate) (report-seen role (get_gpo_exe s) user s.is_forced _)
            | inr r ↦
                rw (checked, e, r, l, gpupdate)
                  (report-seen role (get_gpo_exe s) user s.is_forced _)
          ]
        ]

    pub gpupdate-IsNoApplier :
        IsNoApplier w (get_gpo_exe s)
        → Returns (λ e. seen e ≡ inl handler_invalid_invocation) (gpupdate w role s user)
    unfolding gpupdate
    gpupdate-IsNoApplier n =
        let (notes, checked) = check_user-Returns user h in
        elim (Option-cases (w.stat (get_gpo_exe s))) [
          | inl e ↦ rw (checked, e, gpupdate) refl
          | inr (mode, e) ↦ rw (checked, e, (n mode e).0, (n mode e).1, gpupdate) refl
        ]

  check_user-fault :
      (user : Bytes) (a : Account)
      → w.getpwnam user ≡ some a
      → a.pw_dir ≡ none
      → check_user w (some user) ≡ fault
  unfolding check_user
  check_user-fault user a e f = rw (e, f, check_user)

  pub gpupdate-fault :
      (role : Role) (s : Settings) (user : Bytes) (a : Account)
      → w.getpwnam user ≡ some a
      → a.pw_dir ≡ none
      → gpupdate w role s (some user) ≡ fault
  unfolding gpupdate
  gpupdate-fault role s user a e f = rw (check_user-fault user a e f)
