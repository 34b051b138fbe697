-- ===== src/Gpupdate/Tests.antt =====
-- Runs of the updater for a user "u" and for the computer.
use oddjob_gpupdate.Prelude.{
  ℕ, ◌<◌, ◌≡◌, refl, inl, arith, Bool, true, false, List, [], ◌∷◌, none, some, fault, Returns,
}
use oddjob_gpupdate.Util.Memory.{Ample}
use oddjob_gpupdate.Util.Collect.Lines.{Line, IsText, AreLines, chunks_of}
use oddjob_gpupdate.Gpupdate.{
  Settings, Account, Mode, World, parent, child_runs, Flag, force, applier, get_gpo_exe, read_flags,
  at_start, main, handler_invalid_invocation,
}
use oddjob_gpupdate.Gpupdate.Applied.{seen, expected, IsApplier}
use oddjob_gpupdate.Gpupdate.Whole.{
  main-user, main-IsNoApplier, main-fault, main-computer, main-many,
}

abbrev ample : ℕ → Bool
ample n = true

ample-Ample : Ample ample
ample-Ample n = refl

abbrev file : Mode
file = record { is_regular = true; is_link = false }

-- No user has an account, and every path is a file.
abbrev world : World
world = record { fits = ample; getpwnam = λ user. none; stat = λ path. some file }

-- Nothing is there, and every account has a NULL home directory.
abbrev bare : World
bare = record {
  fits = ample;
  getpwnam = λ user. some (record { pw_dir = none });
  stat = λ path. none;
}

abbrev homeless : Account
homeless = record { pw_dir = none }

-- "-f -p x"
abbrev flags : List Flag
flags = force ∷ applier (120 ∷ []) ∷ []

abbrev settings : Settings
settings = record { is_quiet = false; is_forced = true; gpo_exe = some (120 ∷ []) }

settings_read : read_flags flags at_start ≡ some settings
unfolding read_flags
settings_read = refl

abbrev user : List Line
user = ([], 117 ∷ []) ∷ []

IsText-letter : (n : ℕ) → 32 < n → IsText (n ∷ [])
IsText-letter n h = ((λ e. omega arith, tt), (λ e. omega arith, λ e. omega arith, tt))

user-AreLines : AreLines user
user-AreLines = (tt, IsText-letter 117 (omega arith), tt)

IsApplier-x : IsApplier world (get_gpo_exe settings)
IsApplier-x = (file, refl, inl refl)

main-user_example :
    Returns
      (λ e. seen e ≡ expected child_runs (get_gpo_exe settings) (some (117 ∷ [])) true)
      (main world child_runs flags (chunks_of user []))
main-user_example =
    main-user world ample-Ample child_runs flags settings settings_read [] (117 ∷ []) user-AreLines
      117 [] refl (λ a e. λ f. cc) IsApplier-x

main-IsNoApplier_example :
    Returns
      (λ e. seen e ≡ inl handler_invalid_invocation)
      (main (record world { stat = λ path. none }) child_runs flags (chunks_of user []))
main-IsNoApplier_example =
    main-IsNoApplier (record world { stat = λ path. none }) ample-Ample child_runs flags settings
      settings_read [] (117 ∷ []) user-AreLines 117 [] refl (λ a e. λ f. cc) (λ mode e. cc)

main-fault_example : main bare child_runs flags (chunks_of user []) ≡ fault
main-fault_example =
    main-fault bare ample-Ample child_runs flags settings settings_read [] (117 ∷ []) user-AreLines
      117 [] refl homeless refl refl

main-computer_example :
    Returns
      (λ e. seen e ≡ expected (parent (some 1)) (get_gpo_exe settings) none true)
      (main world (parent (some 1)) flags [])
main-computer_example =
    main-computer world ample-Ample (parent (some 1)) flags settings settings_read IsApplier-x

main-many_example :
    Returns
      (λ e. seen e ≡ inl handler_invalid_invocation)
      (main world child_runs flags (chunks_of (([], []) ∷ user) []))
main-many_example =
    main-many world ample-Ample child_runs flags settings settings_read (([], []) ∷ user)
      (tt, (tt, tt), user-AreLines) (omega arith) (omega arith)
