-- ===== src/Util/Strings.antt =====
-- `oddjob_strndup`, `oddjob_strdup_printf` and `retry_write` of src/util.c.
use oddjob_gpupdate.Prelude.{
  ℕ, zero, suc, ◌+◌, Bool, List, [], ◌∷◌, ◌++◌, Option, none, some, Bytes, ltb, if◌then◌else◌,
  length, take, Run, ok, waiting, ◌>>=◌, load, store,
}
use oddjob_gpupdate.Util.Memory.{until_nul, malloc0}

module _ (fits : ℕ → Bool) where
  -- `memchr` looks at `n` bytes of `s`; the copy ends in front of a NUL among them.
  unfoldable pub strndup : Bytes → ℕ → Run Bytes
  unfolding until_nul malloc0
  strndup s n = do
    seen ← load s n
    let len = length (until_nul seen)
    zeros ← malloc0 fits (len + 1)
    copied ← load s len
    r ← store zeros 0 copied
    ok (until_nul r)

  -- `oddjob_strdup_printf`, for the text that `vsnprintf` makes of the format and its arguments:
  -- `none` where it fails with -1, so that the second call is given no room. The result is the block.
  unfoldable pub strdup_printf : Option Bytes → Run Bytes
  unfolding malloc0
  strdup_printf none = malloc0 fits 0
  strdup_printf (some text) = malloc0 fits (length text + 1) >>= λ r. store r 0 (text ++ 0 ∷ [])

-- What `write` answers: the number of bytes it took, or -1 with EAGAIN or another error.
pub data Written : Type 0 where
  took : ℕ → Written
  again : Written
  failed : Written

-- The bytes that have reached the file, and the result: `none` is -1. `answers` are those of the
-- successive calls of `write`.
module _ (buf : Bytes) where
  -- `return start`
  abbrev pub done : ℕ → Run (Bytes × Option ℕ)
  done start = ok (take start buf, some start)

  unfoldable pub retry_write : List Written → ℕ → Run (Bytes × Option ℕ)
  retry_write [] start = if ltb start (length buf) then waiting else done start
  retry_write (failed ∷ _) start =
      if ltb start (length buf) then ok (take start buf, none) else done start
  retry_write (again ∷ more) start =
      let rest = retry_write more start in if ltb start (length buf) then rest else done start
  retry_write (took zero ∷ _) start = done start
  retry_write (took (suc k) ∷ more) start =
      let rest = retry_write more (start + suc k) in
      if ltb start (length buf) then rest else done start
