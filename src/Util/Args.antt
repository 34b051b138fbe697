-- ===== src/Util/Args.antt =====
-- `oddjob_parse_args` of src/util.c: a command line into an argument vector.
--
-- The command line is the bytes before its NUL. `Scan` holds the loop's variables: `out` are the
-- bytes that `q` has written to `bigbuf`, and `p` is the rest of the input. An iteration that moves
-- neither `p` nor any variable is `waiting`, a write behind `bigbuf` a `fault`.
pub mod Scanning
pub mod Words
pub mod Total
pub mod Quoting
mod Tests
use oddjob_gpupdate.Prelude.{
  ℕ, zero, suc, ◌+◌, ◌-◌, ◌*◌, ◌%◌, ◌^◌, Bool, true, false, not, ◌&&◌, ◌||◌, List, [], ◌∷◌, ◌++◌,
  Option, none, some, Bytes, ltb, ◌==◌, if◌then◌else◌, length, replicate, Run, ok, exit, fault,
  waiting, ◌>>=◌, store, ◌⊎◌, inl, inr,
}
use oddjob_gpupdate.Util.Memory.{Pointers, malloc0, malloc0_pointers, strdup, set_pointer}

pub record Scan : Type 0 where
  pub sqlevel : ℕ
  pub dqlevel : ℕ
  pub escape : ℕ
  pub out : Bytes

-- What `*error` is set to.
pub data ArgsError : Type 0 where
  unmatched_double unmatched_single unfinished_escape : ArgsError

abbrev pub ArgsResult : Type 0
ArgsResult = ArgsError ⊎ Pointers

abbrev pub start : Scan
start = record { sqlevel = 0; dqlevel = 0; escape = 0; out = [] }

module _ (buffersize : ℕ) where
  -- `*q++ = c`
  pub put : Scan → ℕ → Run Scan
  put s c = if ltb (length s.out) buffersize then ok (record s { out = s.out ++ c ∷ [] }) else fault

  -- `*q++ = *p++; escape = 0;`
  pub put_escaped : Scan → ℕ → Run Scan
  unfolding put
  put_escaped s c = put s c >>= λ t. ok (record t { escape = 0 })

  pub on_backslash : Scan → ℕ → Run Scan
  unfolding put_escaped
  on_backslash s c =
      if not (s.dqlevel == 0) || not (s.sqlevel == 0) || not (s.escape == 0)
      then put_escaped s c
      else ok (record s { escape = 1 })

  pub on_single : Scan → ℕ → Run Scan
  unfolding put_escaped
  on_single s c =
      if s.sqlevel == 0
      then if not (s.escape == 0) || ltb 0 s.dqlevel
        then put_escaped s c
        else ok (record s { sqlevel = 1 })
      else if s.sqlevel == 1
      then ok (record s { sqlevel = 0 })
      else waiting

  pub on_double : Scan → ℕ → Run Scan
  unfolding put_escaped
  on_double s c =
      if s.dqlevel == 0
      then if not (s.escape == 0) || ltb 0 s.sqlevel
        then put_escaped s c
        else ok (record s { dqlevel = 1 })
      else if s.dqlevel == 1
      then ok (record s { dqlevel = 0 })
      else waiting

  pub on_space : Scan → ℕ → Run Scan
  unfolding put
  on_space s c =
      if not (s.escape == 0) || ltb 0 s.dqlevel || ltb 0 s.sqlevel then put s c else put s 0

  -- One round of the `while` loop.
  pub step : Scan → ℕ → Run Scan
  unfolding put on_backslash on_single on_double on_space
  step s c =
      if c == b'\\'
      then on_backslash s c
      else if c == b'\''
      then on_single s c
      else if c == b'"'
      then on_double s c
      else if c == b'\r' || c == b'\n' || c == b'\t' || c == b' '
      then on_space s c
      else put s c

  pub scan : Scan → Bytes → Run Scan
  unfolding step
  scan s [] = ok s
  scan s (c ∷ cs) = step s c >>= λ t. scan t cs

-- The checks behind the loop.
pub check : Scan → Option ArgsError
check s =
    if ltb 0 s.dqlevel
    then some unmatched_double
    else if ltb 0 s.sqlevel
    then some unmatched_single
    else if not (s.escape == 0)
    then some unfinished_escape
    else none

-- The first pass over `bigbuf`; the flag is `p != NULL`.
pub count_words : Bool → Bytes → ℕ
count_words inside [] = 0
count_words inside (c ∷ cs) =
    if not (c == 0)
    then count_words true cs
    else (if inside then suc (count_words false cs) else count_words false cs)

module _ (fits : ℕ → Bool) where
  -- The second pass: `p` is NULL or what can be read from there on.
  pub collect : Pointers → ℕ → Option Bytes → Bytes → Run Pointers
  unfolding strdup set_pointer
  collect argv words p [] = ok argv
  collect argv words p (c ∷ cs) = elim (c == 0) [
    | false ↦ collect argv words (elim p [ none ↦ some (c ∷ cs) | some b ↦ some b ]) cs
    | true ↦ elim p [
      | none ↦ collect argv words none cs
      | some b ↦ strdup fits b >>= λ w.
          set_pointer argv words w >>= λ filled. collect filled (words + 1) none cs
    ]
  ]

  pub split : Bytes → Run Pointers
  unfolding count_words malloc0_pointers collect
  split bigbuf =
      malloc0_pointers fits (count_words false bigbuf + 1) >>= λ argv. collect argv 0 none bigbuf

  -- `bigbuf` after the loop: what was written, and the zeros of `oddjob_malloc0` behind.
  pub parse_args : Bytes → Run ArgsResult
  parse_args cmdline = do
    let buffersize = length cmdline * 3 % 2 ^ 64
    zeros ← malloc0 fits buffersize
    s ← scan buffersize start cmdline
    bigbuf ← store zeros 0 s.out
    (elim (check s) [ some e ↦ ok (inl e) | none ↦ split bigbuf >>= λ argv. ok (inr argv) ])
