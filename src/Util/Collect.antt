-- ===== src/Util/Collect.antt =====
-- `oddjob_collect_args` and `oddjob_free_args` of src/util.c.
--
-- `fgets` is a parameter: the C strings that its successive calls put into `buf`, up to the one that
-- answers NULL. `thisline` is NULL or a C string; `ret` is the block that it points to.
pub mod Lines
pub mod Steps
mod Tests
use oddjob_gpupdate.Prelude.{
  ℕ, ◌+◌, Bool, true, false, ◌||◌, List, [], ◌∷◌, ◌++◌, Option, none, some, Bytes, ltb, ◌==◌,
  if◌then◌else◌, length, Run, ok, fault, ◌>>=◌, store,
}
use oddjob_gpupdate.Util.Memory.{Pointers, malloc0, set_pointer, until_nul}
use oddjob_gpupdate.Util.Resize.{resize_array}

pub record Collected : Type 0 where
  pub ret : Pointers
  pub thisline : Option Bytes
  pub arraysize : ℕ

-- What is left of a line when `strpbrk(thisline, "\r\n")` finds something, and a NUL is put there.
unfoldable pub cut_line : Bytes → Option Bytes
cut_line [] = none
cut_line (c ∷ cs) =
    let rest = cut_line cs in
    if c == b'\r' || c == b'\n' then some [] else elim rest [ none ↦ none | some l ↦ some (c ∷ l) ]

module _ (fits : ℕ → Bool) where
  -- `tmp`: the line so far, and what `buf` adds to it.
  unfoldable pub join_line : Option Bytes → Bytes → Run Bytes
  unfolding malloc0 until_nul
  join_line thisline buf = do
    let line : Bytes = elim thisline [ none ↦ [] | some l ↦ l ]
    tmp ← malloc0 fits (length line + length buf + 1)
    copied ← (if ltb 0 (length line) then store tmp 0 (line ++ 0 ∷ []) else ok tmp)
    joined ← store copied (length line) buf
    ok (until_nul joined)

  -- What follows `strpbrk`, which has found the end of the line `l`, or nothing.
  unfoldable pub close_line : Collected → Bytes → Option Bytes → Run Collected
  unfolding set_pointer
  close_line s line none = ok (record s { thisline = some line })
  close_line s line (some l) = do
    grown ← resize_array fits none s.ret 8 s.arraysize (s.arraysize + 2)
    ret ← set_pointer grown s.arraysize l
    ok (record { ret = ret; thisline = none; arraysize = s.arraysize + 1 })

  -- The body of the loop.
  unfoldable pub take_chunk : Collected → Bytes → Run Collected
  unfolding join_line close_line cut_line
  take_chunk s buf = do line ← join_line s.thisline buf; close_line s line (cut_line line)

  unfoldable pub take_chunks : Collected → List Bytes → Run Collected
  unfolding take_chunk
  take_chunks s [] = ok s
  take_chunks s (buf ∷ more) = take_chunk s buf >>= λ t. take_chunks t more

  -- "if (thisline != NULL)", behind the loop.
  unfoldable pub finish : Collected → Run Pointers
  unfolding set_pointer
  finish s = elim s.thisline [
    | none ↦ ok s.ret
    | some l ↦
        resize_array fits none s.ret 8 s.arraysize
          (if s.arraysize == 0 then s.arraysize + 2 else s.arraysize + 1)
        >>= λ grown. set_pointer grown s.arraysize l
  ]

  unfoldable pub collect_args : List Bytes → Run Pointers
  unfolding take_chunks finish
  collect_args chunks =
      take_chunks (record { ret = []; thisline = none; arraysize = 0 }) chunks >>= finish

-- The loop of `oddjob_free_args`: it stops at the first NULL.
unfoldable pub free_each : Pointers → Run (Unit {0})
free_each [] = fault
free_each (none ∷ _) = ok tt
free_each (some _ ∷ more) = free_each more

unfoldable pub free_args : Pointers → Run (Unit {0})
unfolding free_each
free_args [] = ok tt
free_args (p ∷ more) = free_each (p ∷ more)

-- `oddjob_freev`: the same walk, as a loop whose test looks at `p` too.
unfoldable pub freev : Pointers → Run (Unit {0})
unfolding free_each
freev [] = ok tt
freev (p ∷ more) = free_each (p ∷ more)
