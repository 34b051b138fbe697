-- ===== src/Selinux/Leading.antt =====
-- After a success of `oddjob_selinux_mkdir` the directory is there, and so are those that lead to it.
use Prim.Native.Nat.{bit_or}
use oddjob_gpupdate.Prelude.{
  Option, none, ℕ, ◌-◌, ◌^◌, ◌≡◌, refl, sym, subst, ◌∙◌, ap, arith, inl, inr, Bool-cases,
  Option-cases, true, false, not, ◌&&◌, [], ◌∷◌, ◌++◌, some, Bytes, codes, str_eq, ltb, ◌==◌,
  length,
}
use oddjob_gpupdate.Selinux.{
  unset_context, set_context, Files, s_ifdir, path_size, collapse, is_empty, is_failed, is_there,
  make_leading, lead_on, walk_path, give, make_last, make_path, oddjob_selinux_mkdir,
}

module _ {F : Type 0} (files : Files F) (has : F → Bytes → Type 0) where
  -- What `stat` and `mkdir` tell of a path, and that only `rmdir` takes one away.
  pub record Lasts : Type 0 where
    pub stat_has : (f : F) (p : Bytes) (mode : ℕ) → files.stat f p ≡ some mode → has f p
    pub mkdir_has :
        (f : F) (p : Bytes) (mode : ℕ)
        → is_failed (files.mkdir p mode f).1 ≡ false
        → has (files.mkdir p mode f).0 p
    pub label_keeps :
        (f : F) (label : Option Bytes) (q : Bytes) → has f q → has (files.setfscreatecon label f) q
    pub umask_keeps : (f : F) (m : ℕ) (q : Bytes) → has f q → has (files.umask m f).0 q
    pub mkdir_keeps : (f : F) (p q : Bytes) (mode : ℕ) → has f q → has (files.mkdir p mode f).0 q
    pub chown_keeps : (f : F) (p q : Bytes) (u g : ℕ) → has f q → has (files.chown p u g f).0 q

  -- Each part of the path that is not empty and stands in front of a "/", from here on.
  abbrev pub Leads : F → Bytes → Bytes → Type 0
  Leads f seen [] = Unit
  Leads f seen (c ∷ more) =
      ((not (is_empty seen) && c == b'/') ≡ true → has f seen) × Leads f (seen ++ c ∷ []) more

  module _ (l : Lasts) where
    unset_context-keeps : (f : F) (q : Bytes) → has f q → has (unset_context files f) q
    unfolding unset_context
    unset_context-keeps f q h = elim (Bool-cases files.selinux_enabled) [
      | inl t ↦ rw t (l.label_keeps f none q h)
      | inr t ↦ rw t h
    ]

    set_context-keeps :
        (f : F) (p q : Bytes) (mode : ℕ) → has f q → has (set_context files p mode f) q
    unfolding set_context
    set_context-keeps f p q mode h =
        let unset = unset_context-keeps f q h in
        elim (Bool-cases files.selinux_enabled) [
          | inr t ↦ rw t h
          | inl t ↦ rw t (elim (Option-cases (files.matchpathcon p mode)) [
            | inl e ↦ rw e h
            | inr (found, e) ↦ rw e (elim (Option-cases found) [
              | inl d ↦ rw d unset
              | inr (context, d) ↦ rw d (elim (Bool-cases (str_eq context (codes "<<none>>"))) [
                | inl u ↦ rw u unset
                | inr u ↦ rw u (l.label_keeps f (some context) q h)
              ])
            ])
          ])
        ]

    make_leading-keeps : (p q : Bytes) (f : F) → has f q → has (make_leading files p f).0 q
    unfolding make_leading
    make_leading-keeps p q f h = unset_context-keeps _ q (
        l.umask_keeps _ _ q
          (l.mkdir_keeps _ p q _ (l.umask_keeps _ _ q (set_context-keeps f p q _ h))))

    make_leading-has :
        (p : Bytes) (f : F)
        → is_failed (make_leading files p f).1 ≡ false
        → has (make_leading files p f).0 p
    unfolding make_leading
    make_leading-has p f e = unset_context-keeps _ p (l.umask_keeps _ _ p (l.mkdir_has _ p _ e))

    is_there-has : (p : Bytes) (f : F) → is_there files p f ≡ true → has f p
    unfolding is_there
    is_there-has p f t = elim (Option-cases (files.stat f p)) [
      | inl e ↦ absurd (ground (arith, rw (e, is_there) at t))
      | inr (mode, e) ↦ l.stat_has f p mode e
    ]

    lead_on-keeps : (p q : Bytes) (c : ℕ) (f : F) → has f q → has (lead_on files p c f).0 q
    unfolding lead_on
    lead_on-keeps p q c f h = elim (Bool-cases (not (is_empty p) && c == b'/')) [
      | inr t ↦ rw t h
      | inl t ↦ rw t (elim (Bool-cases (is_there files p f)) [
        | inl u ↦ rw u h
        | inr u ↦ rw u (make_leading-keeps p q f h)
      ])
    ]

    lead_on-has :
        (p : Bytes) (c : ℕ) (f : F)
        → (not (is_empty p) && c == b'/') ≡ true
        → (lead_on files p c f).1 ≡ true
        → has (lead_on files p c f).0 p
    unfolding lead_on
    lead_on-has p c f t e = rw t (elim (Bool-cases (is_there files p f)) [
      | inl u ↦ rw u (is_there-has p f u)
      | inr u ↦ rw u (make_leading-has p f (let w = rw (t, u) at e in ground arith))
    ])

    walk_path-keeps : (p more q : Bytes) (f : F) → has f q → has (walk_path files p more f).0 q
    unfolding walk_path
    walk_path-keeps p [] q f h = h
    walk_path-keeps p (c ∷ more) q f h =
        let entered = lead_on-keeps p q c f h in
        elim (Bool-cases (lead_on files p c f).1) [
          | inl t ↦ rw t (walk_path-keeps (p ++ c ∷ []) more q (lead_on files p c f).0 entered)
          | inr t ↦ rw t entered
        ]

    walk_path-next :
        (p : Bytes) (c : ℕ) (more : Bytes) (f : F)
        → (lead_on files p c f).1 ≡ true
        → walk_path files p (c ∷ more) f
          ≡ walk_path files (p ++ c ∷ []) more (lead_on files p c f).0
    unfolding walk_path
    walk_path-next p c more f t = rw t refl

    walk_path-stop :
        (p : Bytes) (c : ℕ) (more : Bytes) (f : F)
        → (lead_on files p c f).1 ≡ false
        → (walk_path files p (c ∷ more) f).1 ≡ false
    unfolding walk_path
    walk_path-stop p c more f t = rw t refl

    walk_path-Leads :
        (p more : Bytes) (f : F)
        → (walk_path files p more f).1 ≡ true
        → Leads (walk_path files p more f).0 p more
    walk_path-Leads p [] f e = tt
    walk_path-Leads p (c ∷ more) f e = elim (Bool-cases (lead_on files p c f).1) [
      | inr t ↦ absurd (let stopped = walk_path-stop p c more f t in ground arith)
      | inl t ↦
          let step = walk_path-next p c more f t in
          subst (λ r. Leads r.0 p (c ∷ more)) (sym step)
            (
              (λ s.
                  walk_path-keeps (p ++ c ∷ []) more p (lead_on files p c f).0
                    (lead_on-has p c f s t)),
              walk_path-Leads (p ++ c ∷ []) more (lead_on files p c f).0
                  (ap (λ r. r.1) (sym step) ∙ e),
            )
    ]

    Leads-keeps :
        (f g : F) (p more : Bytes)
        → ((q : Bytes) → has f q → has g q)
        → Leads f p more
        → Leads g p more
    Leads-keeps f g p [] k h = tt
    Leads-keeps f g p (c ∷ more) k h =
        ((λ s. k p (h.0 s)), Leads-keeps f g (p ++ c ∷ []) more k h.1)

    -- A success of the last steps.
    abbrev Last : Bytes → F → F × ℕ → Type 0
    Last path f (g, code) = code ≡ 0 → has g path × ((q : Bytes) → has f q → has g q)

    give-Last :
        (path : Bytes) (uid gid : ℕ) (f : F) → has f path → Last path f (give files path uid gid f)
    unfolding give
    give-Last path uid gid f h =
        elim (Bool-cases (not (uid == 2 ^ 32 - 1) && not (gid == 2 ^ 32 - 1))) [
          | inr t ↦ rw t (λ _. (h, λ q k. k))
          | inl t ↦ rw t (elim (Bool-cases (files.chown path uid gid f).1) [
            | inl u ↦ rw u (λ _.
                (l.chown_keeps f path path uid gid h, λ q k. l.chown_keeps f path q uid gid k))
            | inr u ↦ rw u (λ e. absurd (omega (arith, e)))
          ])
        ]

    make_last-Last :
        (path : Bytes) (mode uid gid : ℕ) (f : F)
        → Last path f (make_last files path mode uid gid f)
    unfolding make_last
    make_last-Last path mode uid gid f =
        let labelled = set_context files path (bit_or mode s_ifdir) f in
        elim (Bool-cases (is_failed (files.mkdir path mode labelled).1)) [
          | inl t ↦ rw t (λ e. absurd (omega (arith, e)))
          | inr t ↦
              let made = unset_context files (files.mkdir path mode labelled).0 in
              let there : has made path =
                unset_context-keeps _ path (l.mkdir_has labelled path mode t) in
              rw t (λ e.
                let (a, k) = give-Last path uid gid made there e in
                (
                  a,
                  λ q h. k q (
                      unset_context-keeps _ q
                        (l.mkdir_keeps _ path q mode (set_context-keeps f path q _ h))),
                ))
        ]

    make_path-Leads :
        (path : Bytes) (mode uid gid : ℕ) (f : F)
        → (make_path files path mode uid gid f).1 ≡ 0
        → Leads (make_path files path mode uid gid f).0 [] path
          × has (make_path files path mode uid gid f).0 path
    unfolding make_path
    make_path-Leads path mode uid gid f e = elim (Bool-cases (walk_path files [] path f).1) [
      | inr t ↦ absurd (let w = rw t at e in omega (arith, w))
      | inl t ↦
          let walked = (walk_path files [] path f).0 in
          let (a, k) = make_last-Last path mode uid gid walked (rw t at e) in
          rw t (Leads-keeps walked _ [] path k (walk_path-Leads [] path f t), a)
    ]

    -- On a file system where stat and mkdir succeed, or mkdir fails with EEXIST, only for a path
    -- that is there then, and neither mkdir, chown, umask nor setfscreatecon takes a path away:
    -- where oddjob_selinux_mkdir returns 0, the path without its superfluous slashes is there
    -- afterwards, and so is each part of it that is not empty and stands in front of a slash.
    pub oddjob_selinux_mkdir-Leads :
        (newpath : Bytes) (mode uid gid : ℕ) (f : F)
        → (oddjob_selinux_mkdir files newpath mode uid gid f).1 ≡ 0
        → Leads (oddjob_selinux_mkdir files newpath mode uid gid f).0 [] (collapse newpath)
          × has (oddjob_selinux_mkdir files newpath mode uid gid f).0 (collapse newpath)
    unfolding oddjob_selinux_mkdir
    oddjob_selinux_mkdir-Leads newpath mode uid gid f e =
        elim (Bool-cases (ltb (length newpath) path_size)) [
          | inr t ↦ absurd (let w = rw (t, t) at e in omega (arith, w))
          | inl t ↦ elim (Bool-cases (ltb (length (collapse newpath)) path_size)) [
            | inl u ↦ rw (t, u) (make_path-Leads (collapse newpath) mode uid gid f (rw (t, u) at e))
            | inr u ↦ absurd (let w = rw (t, u) at e in omega (arith, w))
          ]
        ]
