-- ===== src/Selinux.antt =====
-- src/selinux.c: `oddjob_selinux_mkdir`, which creates a directory and those that lead to it, with
-- SELinux labels.
--
-- The file system and what a process keeps for its calls (its mask and its label for new files) are
-- one state of a type that is a parameter, and the calls are functions on it. `errno` is that of
-- `mkdir` until it is tested.
pub mod Leading
mod Tests
use Prim.Native.Nat.{bit_and, bit_or}
use oddjob_gpupdate.Prelude.{
  ℕ, ◌-◌, ◌^◌, Bool, true, false, not, ◌&&◌, ◌||◌, codes, str_eq, List, [], ◌∷◌, ◌++◌, Option, none,
  some, Bytes, ltb, ◌==◌, if◌then◌else◌, length,
}
use oddjob_gpupdate.Gpupdate.{handler_failure, handler_invalid_invocation}

-- `mkdir`: 0, or -1 with EEXIST or another error.
pub data Made : Type 0 where
  created : Made
  exists : Made
  failed : Made

pub record Files (F : Type 0) : Type 0 where
  -- `st_mode`
  pub stat : F → Bytes → Option ℕ
  -- what `oddjob_check_selinux_enabled` answers, which is always the same where `is_selinux_enabled`
  -- does not fail
  pub selinux_enabled : Bool
  -- `matchpathcon`: a label, or NULL, where it succeeds
  pub matchpathcon : Bytes → ℕ → Option (Option Bytes)
  -- the label for new files, or none
  pub setfscreatecon : Option Bytes → F → F
  -- the mask, and the one before
  pub umask : ℕ → F → F × ℕ
  pub mkdir : Bytes → ℕ → F → F × Made
  pub chown : Bytes → ℕ → ℕ → F → F × Bool
  pub rmdir : Bytes → F → F

-- `S_IFDIR`, and `S_IRWXU | S_IXGRP | S_IXOTH`
abbrev pub s_ifdir : ℕ
s_ifdir = 0x4000

abbrev pub perms : ℕ
perms = 0x1c9

-- `PATH_MAX + 1`
abbrev pub path_size : ℕ
path_size = 4097

-- Whether the path ends here or goes on with a "/".
abbrev pub at_separator : Bytes → Bool
at_separator [] = true
at_separator (c ∷ _) = c == b'/'

-- A "/" in front of another one, or of the end, is taken out.
unfoldable pub collapse : Bytes → Bytes
collapse [] = []
collapse (c ∷ cs) =
    let rest = collapse cs in if c == b'/' && at_separator cs then rest else c ∷ rest

abbrev pub is_empty : Bytes → Bool
is_empty [] = true
is_empty (_ ∷ _) = false

abbrev pub is_failed : Made → Bool
is_failed failed = true
is_failed _ = false

-- `oddjob_check_selinux_enabled`, for the answer of `is_selinux_enabled`, `none` for -1, and what is
-- kept of an earlier one: what is kept then, and the result. `matchpathcon_init` prepares
-- `matchpathcon`, which is a parameter.
unfoldable pub check_selinux_enabled : Option Bool → Option Bool → Option Bool × Bool
check_selinux_enabled none none = (none, false)
check_selinux_enabled (some answer) none = (some answer, answer)
check_selinux_enabled answer (some kept) = (some kept, kept)

module _ {F : Type 0} (files : Files F) where
  unfoldable pub unset_context : F → F
  unset_context f = if files.selinux_enabled then files.setfscreatecon none f else f

  unfoldable pub set_context : Bytes → ℕ → F → F
  unfolding unset_context
  set_context path mode f =
      if files.selinux_enabled
      then elim (files.matchpathcon path mode) [
        | none ↦ f
        | some found ↦ elim found [
          | none ↦ unset_context f
          | some context ↦
              if str_eq context (codes "<<none>>")
              then unset_context f
              else files.setfscreatecon (some context) f
        ]
      ]
      else f

  -- `(stat(path, &st) == 0) && (st.st_mode & S_IFDIR)`
  unfoldable pub is_there : Bytes → F → Bool
  is_there path f = elim (files.stat f path) [
    | none ↦ false
    | some mode ↦ not (bit_and mode s_ifdir == 0)
  ]

  -- The creation of a leading directory.
  unfoldable pub make_leading : Bytes → F → F × Made
  make_leading path f =
      let (masked, stored) =
        files.umask (2 ^ 32 - 1 - perms) (set_context path (bit_or perms s_ifdir) f) in
      let (made, i) = files.mkdir path perms masked in
      (unset_context (files.umask stored made).0, i)

  -- One round of the loop, with the path so far: whether the loop goes on.
  unfoldable pub lead_on : Bytes → ℕ → F → F × Bool
  unfolding is_there make_leading
  lead_on path c f =
      if not (is_empty path) && c == b'/'
      then (if is_there path f
          then (f, true)
          else (let (made, i) = make_leading path f in (made, not (is_failed i))))
      else (f, true)

  unfoldable pub walk_path : Bytes → Bytes → F → F × Bool
  unfolding lead_on
  walk_path path [] f = (f, true)
  walk_path path (c ∷ more) f =
      let (entered, goes_on) = lead_on path c f in
      let rest = walk_path (path ++ c ∷ []) more entered in
      if goes_on then rest else (entered, false)

  -- The owner of the directory, unless one of the two is -1.
  unfoldable pub give : Bytes → ℕ → ℕ → F → F × ℕ
  give path uid gid f =
      if not (uid == 2 ^ 32 - 1) && not (gid == 2 ^ 32 - 1)
      then (let (given, done) = files.chown path uid gid f in
          if done then (given, 0) else (files.rmdir path given, handler_failure))
      else (f, 0)

  -- Behind the loop: the directory itself.
  unfoldable pub make_last : Bytes → ℕ → ℕ → ℕ → F → F × ℕ
  unfolding give
  make_last path mode uid gid f =
      let (made, i) = files.mkdir path mode (set_context path (bit_or mode s_ifdir) f) in
      if is_failed i
      then (unset_context made, handler_failure)
      else give path uid gid (unset_context made)

  unfoldable pub make_path : Bytes → ℕ → ℕ → ℕ → F → F × ℕ
  unfolding walk_path make_last
  make_path path mode uid gid f =
      let (walked, goes_on) = walk_path [] path f in
      if goes_on then make_last path mode uid gid walked else (walked, handler_failure)

  unfoldable pub oddjob_selinux_mkdir : Bytes → ℕ → ℕ → ℕ → F → F × ℕ
  unfolding collapse make_path
  oddjob_selinux_mkdir newpath mode uid gid f =
      let path = if ltb (length newpath) path_size then collapse newpath else newpath in
      if ltb (length path) path_size
      then make_path path mode uid gid f
      else (f, handler_invalid_invocation)
