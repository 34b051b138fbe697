-- ===== src/Selinux/Tests.antt =====
-- Directories on a file system that is the list of what there is.
use oddjob_gpupdate.Prelude.{
  ◌≡◌, refl, ap, arith, inl, inr, Bool, Bool-cases, true, false, ◌||◌, List, [], ◌∷◌, none, some,
  Bytes, codes, str_eq, str_eq_refl, if◌then◌else◌,
}
use oddjob_gpupdate.Selinux.{
  set_context, Files, Made, created, exists, collapse, oddjob_selinux_mkdir,
}
use oddjob_gpupdate.Selinux.Leading.{Lasts, Leads, oddjob_selinux_mkdir-Leads}

abbrev Tree : Type 0
Tree = List Bytes

abbrev is_in : Bytes → Tree → Bool
is_in p [] = false
is_in p (q ∷ t) = str_eq q p || is_in p t

abbrev made_in : Bytes → Tree → Tree × Made
made_in p t = if is_in p t then (t, exists) else (p ∷ t, created)

abbrev tree_files : Files Tree
tree_files = record {
  stat = λ t p. if is_in p t then some 0x41ed else none;
  selinux_enabled = true;
  matchpathcon = λ p mode. some (some (codes "l"));
  setfscreatecon = λ label t. t;
  umask = λ m t. (t, 18);
  mkdir = λ p mode t. made_in p t;
  chown = λ p u g t. (t, true);
  rmdir = λ p t. t;
}

made_in-has : (t : Tree) (p : Bytes) → is_in p (made_in p t).0 ≡ true
made_in-has t p = elim (Bool-cases (is_in p t)) [
  | inl e ↦ rw (e, e) refl
  | inr e ↦ rw e (let same = str_eq_refl p in ground arith)
]

made_in-keeps : (t : Tree) (p q : Bytes) → is_in q t ≡ true → is_in q (made_in p t).0 ≡ true
made_in-keeps t p q h = elim (Bool-cases (is_in p t)) [
  | inl e ↦ rw e h
  | inr e ↦ rw e (ground arith)
]

tree-Lasts : Lasts tree_files (λ t p. is_in p t ≡ true)
tree-Lasts = record {
  stat_has = λ t p mode e. (elim (Bool-cases (is_in p t)) [
    | inl h ↦ h
    | inr h ↦ absurd (let w = rw h at e in ground arith)
  ]);
  mkdir_has = λ t p mode e. made_in-has t p;
  label_keeps = λ t label q h. h;
  umask_keeps = λ t m q h. h;
  mkdir_keeps = λ t p q mode h. made_in-keeps t p q h;
  chown_keeps = λ t p q u g h. h;
}

collapses : collapse (codes "//a///b//") ≡ codes "/a/b"
unfolding collapse
collapses = refl

makes_b :
    oddjob_selinux_mkdir tree_files (codes "/a//b/") 493 5 5 []
    ≡ (codes "/a/b" ∷ codes "/a" ∷ [], 0)
unfolding oddjob_selinux_mkdir str_eq set_context
makes_b = refl

oddjob_selinux_mkdir-Leads_example :
    Leads tree_files
      (λ t p. is_in p t ≡ true)
      (oddjob_selinux_mkdir tree_files (codes "/a//b/") 493 5 5 []).0
      []
      (collapse (codes "/a//b/"))
    × (is_in
          (collapse (codes "/a//b/"))
          (oddjob_selinux_mkdir tree_files (codes "/a//b/") 493 5 5 []).0
        ≡ true)
oddjob_selinux_mkdir-Leads_example =
    oddjob_selinux_mkdir-Leads tree_files (λ t p. is_in p t ≡ true) tree-Lasts (codes "/a//b/") 493
      5 5 [] (ap (λ r. r.1) makes_b)
