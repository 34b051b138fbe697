-- ===== src/Gpupdate.antt =====
-- src/gpupdate.c: the program that the daemon starts to apply the group policies of a user, named on
-- its standard input, or of the computer.
--
-- What the C library answers is a parameter: `getpwnam`, `stat`, `getopt`, `fgets` (as in
-- Util/Collect), `fork`, `waitpid` and `execl`. Since `fork` returns twice, a run is that of one
-- process: `Role` says which, and how its calls end.
pub mod Applied
pub mod Count
pub mod Whole
mod Tests
use oddjob_gpupdate.Prelude.{
  ℕ, zero, suc, ◌+◌, Bool, true, false, not, ◌&&◌, List, [], ◌∷◌, ◌++◌, Option, none, some, Bytes,
  ltb, ◌==◌, if◌then◌else◌, Run, ok, fault, ◌>>=◌, or_fault,
}
use oddjob_gpupdate.Util.Memory.{Pointers}
use oddjob_gpupdate.Util.Collect.{collect_args, free_args}

-- The exit codes of src/handlers.h.
abbrev pub handler_failure : ℕ
handler_failure = 1

abbrev pub handler_invalid_invocation : ℕ
handler_invalid_invocation = 2

-- What `getopt` returns for "qfp:".
pub data Flag : Type 0 where
  quiet : Flag
  force : Flag
  applier : Bytes → Flag
  invalid : Flag

-- The bits of `flags`, and `gpo_exe`.
pub record Settings : Type 0 where
  pub is_quiet : Bool
  pub is_forced : Bool
  pub gpo_exe : Option Bytes

-- "/usr/sbin/gpoa"
abbrev pub default_applier : Bytes
default_applier =
    b'/' ∷ b'u' ∷ b's' ∷ b'r' ∷ b'/' ∷ b's' ∷ b'b' ∷ b'i' ∷ b'n' ∷ b'/' ∷ b'g' ∷ b'p' ∷ b'o' ∷ b'a'
    ∷ []

-- "--force"
abbrev pub force_flag : Bytes
force_flag = b'-' ∷ b'-' ∷ b'f' ∷ b'o' ∷ b'r' ∷ b'c' ∷ b'e' ∷ []

-- `pw_dir` of a `struct passwd`, NULL or a string.
pub record Account : Type 0 where
  pub pw_dir : Option Bytes

-- `S_ISREG` and `S_ISLNK` of `st_mode`
pub record Mode : Type 0 where
  pub is_regular : Bool
  pub is_link : Bool

pub record World : Type 0 where
  pub fits : ℕ → Bool
  pub getpwnam : Bytes → Option Account
  pub stat : Bytes → Option Mode

-- `waited` is the status that `waitpid` gives, none where it fails.
pub data Role : Type 0 where
  unforked : Role
  parent : Option ℕ → Role
  child_runs : Role
  child_cannot_run : Role

-- The messages, by their occasion; `none` is the computer.
pub data Notice : Type 0 where
  unknown_user : Bytes → Notice
  weird_home : Bytes → Bytes → Notice
  printed_apply : Option Bytes → Notice
  logged_apply : Option Bytes → Notice
  no_applier : Bytes → Notice
  odd_applier : Bytes → Notice
  apply_failed : Option Bytes → ℕ → Notice
  wrong_arguments : Notice

-- How a function ends: it returns, or the process has become another program.
pub data Ended : Type 0 where
  returned : ℕ → List Notice → Ended
  became : Bytes → List Bytes → List Notice → Ended

unfoldable pub get_gpo_exe : Settings → Bytes
get_gpo_exe s = elim s.gpo_exe [ none ↦ default_applier | some path ↦ path ]

-- The strings that `execl` is given, up to the first NULL.
abbrev pub given_args : List (Option Bytes) → List Bytes
given_args [] = []
given_args (none ∷ _) = []
given_args (some a ∷ more) = a ∷ given_args more

-- `returned` carries what `apply_gpo` returns.
unfoldable pub apply_gpo : Role → Bytes → Option Bytes → Bool → Ended
apply_gpo unforked exe user forced = returned 1 []
apply_gpo child_runs exe user forced =
    if forced
    then became exe (given_args (some exe ∷ some force_flag ∷ user ∷ [])) []
    else became exe (given_args (some exe ∷ user ∷ [])) []
apply_gpo child_cannot_run exe user forced = returned 3 []
apply_gpo (parent none) exe user forced = returned 2 []
apply_gpo (parent (some status)) exe user forced = returned 0 []

module _ (w : World) where
  -- The checks of the user. Of a NULL `pw_dir` it is `strlen` that is taken.
  unfoldable pub check_user : Option Bytes → Run (List Notice)
  check_user none = ok []
  check_user (some user) = elim (w.getpwnam user) [
    | none ↦ ok (unknown_user user ∷ [])
    | some account ↦ elim account.pw_dir [
      | none ↦ fault
      | some [] ↦ ok (weird_home user [] ∷ [])
      | some (c ∷ dir) ↦ ok (if not (c == b'/') then weird_home user (c ∷ dir) ∷ [] else [])
    ]
  ]

  -- The lines behind `apply_gpo`.
  unfoldable pub report : Option Bytes → List Notice → Ended → Ended
  report user notes (became exe args _) = became exe args notes
  report user notes (returned code _) =
      if code == 0
      then returned 0 notes
      else returned handler_failure (notes ++ apply_failed user code ∷ [])

  unfoldable pub gpupdate : Role → Settings → Option Bytes → Run Ended
  unfolding check_user get_gpo_exe apply_gpo report
  gpupdate role s user = do
    checked ← check_user user
    let exe = get_gpo_exe s
    let printed = if s.is_quiet then checked else checked ++ printed_apply user ∷ []
    let notes = printed ++ logged_apply user ∷ []
    ok (elim (w.stat exe) [
      | none ↦ returned handler_invalid_invocation (notes ++ no_applier exe ∷ [])
      | some mode ↦
          if not mode.is_regular && not mode.is_link
          then returned handler_invalid_invocation (notes ++ odd_applier exe ∷ [])
          else report user notes (apply_gpo role exe user s.is_forced)
    ])

-- The `getopt` loop: none where `main` returns 1 from it.
unfoldable pub read_flags : List Flag → Settings → Option Settings
read_flags [] s = some s
read_flags (quiet ∷ more) s = read_flags more (record s { is_quiet = true })
read_flags (force ∷ more) s = read_flags more (record s { is_forced = true })
read_flags (applier path ∷ more) s = read_flags more (record s { gpo_exe = some path })
read_flags (invalid ∷ more) s = none

abbrev pub at_start : Settings
at_start = record { is_quiet = false; is_forced = false; gpo_exe = some default_applier }

-- The `for` loop that counts, from `oddjob_argc` on: the pointers from there on are read.
unfoldable pub count_from : ℕ → Pointers → Run ℕ
count_from argc [] = fault
count_from argc (none ∷ _) = ok argc
count_from argc (some _ ∷ more) =
    let rest = count_from (argc + 1) more in if ltb 1 argc then ok argc else rest

unfoldable pub count_args : Pointers → Run ℕ
unfolding count_from
count_args [] = ok 0
count_args (p ∷ more) = count_from 0 (p ∷ more)

module _ (w : World) where
  -- The `switch`.
  unfoldable pub choose : Role → Settings → Pointers → ℕ → Run Ended
  unfolding gpupdate
  choose role s argv zero = gpupdate w role s none
  choose role s [] (suc zero) = fault
  choose role s (none ∷ _) (suc zero) = fault
  choose role s (some [] ∷ _) (suc zero) = ok (returned handler_invalid_invocation [])
  choose role s (some (c ∷ user) ∷ _) (suc zero) = gpupdate w role s (some (c ∷ user))
  choose role s argv (suc (suc _)) = ok (returned handler_invalid_invocation (wrong_arguments ∷ []))

  -- Where the process has become another program, nothing is freed any more.
  unfoldable pub wind_up : Pointers → Ended → Run Ended
  wind_up argv (became exe args notes) = ok (became exe args notes)
  wind_up argv (returned code notes) = free_args argv >>= λ _. ok (returned code notes)

  unfoldable pub main : Role → List Flag → List Bytes → Run Ended
  unfolding read_flags count_args choose wind_up
  main role flags chunks = elim (read_flags flags at_start) [
    | none ↦ ok (returned 1 [])
    | some s ↦ do
      argv ← collect_args w.fits chunks
      argc ← count_args argv
      ended ← choose role s argv argc
      wind_up argv ended
  ]
