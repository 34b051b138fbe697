-- ===== src/Gpupdate/Whole.antt =====
-- `main` of src/gpupdate.c, for what its standard input holds.
use oddjob_gpupdate.Prelude.{
  ℕ, ◌+◌, ◌≤◌, ◌<◌, ◌≡◌, refl, ◌∙◌, ap, inl, arith, List, [], ◌∷◌, none, some, Bytes, length, Run,
  fault, ◌>>=◌, Returns, Returns-bind,
}
use oddjob_gpupdate.Util.Memory.{Ample}
use oddjob_gpupdate.Util.Collect.Steps.{block}
use oddjob_gpupdate.Util.Collect.Lines.{
  Line, IsText, AreTexts, AreLines, line_of, lines_of, chunks_of, then_chunks, collect_args-lines,
  collect_args-rest, free_args-block,
}
use oddjob_gpupdate.Gpupdate.{
  Settings, Account, World, Role, Flag, Ended, returned, became, get_gpo_exe, gpupdate, read_flags,
  at_start, choose, wind_up, main, handler_invalid_invocation,
}
use oddjob_gpupdate.Gpupdate.Applied.{
  End, seen, expected, HasHome, IsApplier, IsNoApplier, gpupdate-seen, gpupdate-IsNoApplier,
  gpupdate-fault,
}
use oddjob_gpupdate.Gpupdate.Count.{up_to_two, count_args-block}

module _ (w : World) (ample : Ample w.fits) (role : Role) (flags : List Flag) (s : Settings)
    (options : read_flags flags at_start ≡ some s) where
  -- What `main` does once it has read these lines.
  after : List Bytes → Run Ended
  after ls = choose w role s (block ls) (up_to_two ls) >>= wind_up w (block ls)

  main-lines :
      (text : List Line)
      → AreLines text
      → length text + 1 ≤ 0xffff
      → main w role flags (chunks_of text []) ≡ after (lines_of text)
  unfolding main after
  main-lines text h n =
      rw (options, main)
        (rw (collect_args-lines w.fits ample text h n) (rw (count_args-block (lines_of text)) refl))

  -- Freeing the arguments does not change how the program ends.
  wind_up-seen :
      (ls : List Bytes) (e : Ended) (end : End)
      → seen e ≡ end
      → Returns (λ e. seen e ≡ end) (wind_up w (block ls) e)
  unfolding wind_up
  wind_up-seen ls (returned code notes) end h = rw (free_args-block ls) h
  wind_up-seen ls (became exe args notes) end h = h

  after-seen :
      (ls : List Bytes) (end : End)
      → Returns (λ e. seen e ≡ end) (choose w role s (block ls) (up_to_two ls))
      → Returns (λ e. seen e ≡ end) (after ls)
  unfolding after
  after-seen ls end r =
      Returns-bind (λ e. seen e ≡ end) (λ e. seen e ≡ end)
        (choose w role s (block ls) (up_to_two ls)) (wind_up w (block ls)) r
        (λ e h. wind_up-seen ls e end h)

  choose-user :
      (c : ℕ) (cs : Bytes)
      → choose w role s (block ((c ∷ cs) ∷ [])) 1 ≡ gpupdate w role s (some (c ∷ cs))
  unfolding choose
  choose-user c cs = refl

  module _ (ps : List Bytes) (l : Bytes) (h : AreLines ((ps, l) ∷ [])) where
    main-one :
        (user : Bytes)
        → line_of [] ps l ≡ user
        → main w role flags (chunks_of ((ps, l) ∷ []) []) ≡ after (user ∷ [])
    main-one user e = main-lines ((ps, l) ∷ []) h (omega arith) ∙ ap (λ u. after (u ∷ [])) e

    module _ (c : ℕ) (cs : Bytes) (e : line_of [] ps l ≡ c ∷ cs) where
      -- With memory for every request, options that main accepts, a standard input of one line,
      -- not empty, ended by a line feed, with no NUL, carriage return or other line feed, where
      -- the user it names has no account or one whose home directory is not NULL, and where the
      -- applier is a file or a link, main of the updater ends so: the child process becomes the
      -- applier, with --force if that was asked for and the name of the user; the parent exits
      -- with 0 whatever the status of the applier is; where fork, execl or waitpid fails the
      -- process exits with 1.
      pub main-user :
          HasHome w (some (c ∷ cs))
          → IsApplier w (get_gpo_exe s)
          → Returns
              (λ e. seen e ≡ expected role (get_gpo_exe s) (some (c ∷ cs)) s.is_forced)
              (main w role flags (chunks_of ((ps, l) ∷ []) []))
      main-user home a = rw (main-one (c ∷ cs) e) (
          after-seen ((c ∷ cs) ∷ []) _
            (rw (choose-user c cs) (gpupdate-seen w role s (some (c ∷ cs)) home a)))

      -- With memory for every request, options that main accepts, a standard input of one line,
      -- not empty, ended by a line feed, with no NUL, carriage return or other line feed, where
      -- the user it names has no account or one whose home directory is not NULL, and where the
      -- applier is not there or is neither a file nor a link, main of the updater exits with 2
      -- in every process, and none becomes the applier.
      pub main-IsNoApplier :
          HasHome w (some (c ∷ cs))
          → IsNoApplier w (get_gpo_exe s)
          → Returns
              (λ e. seen e ≡ inl handler_invalid_invocation)
              (main w role flags (chunks_of ((ps, l) ∷ []) []))
      main-IsNoApplier home a = rw (main-one (c ∷ cs) e) (
          after-seen ((c ∷ cs) ∷ []) _
            (rw (choose-user c cs) (gpupdate-IsNoApplier w role s (some (c ∷ cs)) home a)))

      -- With memory for every request, options that main accepts, and a standard input of one
      -- line, not empty, ended by a line feed, with no NUL, carriage return or other line feed,
      -- where the account of the user it names has a NULL home directory, main of the updater
      -- takes the length of a NULL pointer, in every process.
      pub main-fault :
          (a : Account)
          → w.getpwnam (c ∷ cs) ≡ some a
          → a.pw_dir ≡ none
          → main w role flags (chunks_of ((ps, l) ∷ []) []) ≡ fault
      unfolding after
      main-fault a f g =
          main-one (c ∷ cs) e ∙ rw (choose-user c cs) (rw (gpupdate-fault w role s (c ∷ cs) a f g))

  -- With memory for every request, options that main accepts, nothing on its standard input, and
  -- an applier that is a file or a link, main of the updater ends so: the child process becomes
  -- the applier, with --force if that was asked for and no other argument; the parent exits with
  -- 0 whatever the status of the applier is; where fork, execl or waitpid fails the process
  -- exits with 1.
  pub main-computer :
      IsApplier w (get_gpo_exe s)
      → Returns
          (λ e. seen e ≡ expected role (get_gpo_exe s) none s.is_forced)
          (main w role flags [])
  unfolding choose
  main-computer a =
      rw (main-lines [] tt (omega arith)) (after-seen [] _ (gpupdate-seen w role s none tt a))

  -- Two lines and more.
  after-many :
      (a b : Bytes) (ls : List Bytes)
      → Returns (λ e. seen e ≡ inl handler_invalid_invocation) (after (a ∷ b ∷ ls))
  unfolding choose
  after-many a b ls = after-seen (a ∷ b ∷ ls) _ refl

  -- With memory for every request and options that main accepts, for two or more lines on its
  -- standard input, fewer than 65535, each ended by a line feed, with no NUL, carriage return or
  -- other line feed, main of the updater exits with 2, and no process becomes the applier.
  pub main-many :
      (text : List Line)
      → AreLines text
      → 1 < length text
      → length text + 1 ≤ 0xffff
      → Returns
          (λ e. seen e ≡ inl handler_invalid_invocation)
          (main w role flags (chunks_of text []))
  main-many [] h k n = absurd (omega arith)
  main-many (a ∷ []) h k n = absurd (omega arith)
  main-many ((ps, l) ∷ (qs, m) ∷ text) h k n =
      rw (main-lines ((ps, l) ∷ (qs, m) ∷ text) h n)
        (after-many (line_of [] ps l) (line_of [] qs m) (lines_of text))

  -- With memory for every request and options that main accepts, for a standard input of one
  -- line that a line feed ends and one that none ends, both without NUL, carriage return or
  -- other line feed, main of the updater reads beyond the array that oddjob_collect_args
  -- returns.
  pub main-rest :
      (ps qs : List Bytes) (l m : Bytes)
      → AreLines ((ps, l) ∷ [])
      → AreTexts qs
      → IsText m
      → main w role flags (chunks_of ((ps, l) ∷ []) (then_chunks qs m [])) ≡ fault
  unfolding main
  main-rest ps qs l m h i j =
      rw (options, main)
        (rw (collect_args-rest w.fits ample ((ps, l) ∷ []) qs m h i j (omega arith) (omega arith)))
