-- ===== src/Util/Memory.antt =====
-- The allocation helpers of src/util.c, on which the rest of the program stands.
use oddjob_gpupdate.Prelude.{
  ◌≡◌, ℕ, ◌+◌, ◌*◌, Bool, true, List, [], ◌∷◌, Option, none, some, Bytes, ◌==◌, if◌then◌else◌,
  length, replicate, Run, ok, exit, ◌>>=◌, store,
}

-- A block of pointers: NULL, or the C string that the pointer leads to.
abbrev pub Pointers : Type 0
Pointers = List (Option Bytes)

-- The bytes of a C string in a stretch of memory: all before the first NUL.
unfoldable pub until_nul : Bytes → Bytes
until_nul [] = []
until_nul (c ∷ cs) = if c == 0 then [] else c ∷ until_nul cs

-- The C library has memory for every request.
abbrev pub Ample : (ℕ → Bool) → Type 0
Ample fits = (n : ℕ) → fits n ≡ true

-- `malloc` itself is a parameter: `fits n` says whether it has a block of `n` bytes.
module _ (fits : ℕ → Bool) where
  -- `oddjob_malloc`: the process ends where `malloc` fails.
  unfoldable pub oddjob_malloc : ℕ → Run (Unit {0})
  oddjob_malloc n = if fits n then ok tt else exit 1

  -- `oddjob_malloc0`, for a block of bytes.
  unfoldable pub malloc0 : ℕ → Run Bytes
  unfolding oddjob_malloc
  malloc0 n = oddjob_malloc n >>= λ _. ok (replicate n 0)

  -- `oddjob_malloc0(sizeof(char*) * n)`: a block of `n` NULL pointers.
  unfoldable pub malloc0_pointers : ℕ → Run Pointers
  unfolding oddjob_malloc
  malloc0_pointers n = oddjob_malloc (8 * n) >>= λ _. ok (replicate n none)

  unfoldable pub strdup : Bytes → Run Bytes
  unfolding oddjob_malloc until_nul
  strdup s = oddjob_malloc (length (until_nul s) + 1) >>= λ _. ok (until_nul s)

-- `array[i] = p` for a pointer that is not NULL.
unfoldable pub set_pointer : Pointers → ℕ → Bytes → Run Pointers
set_pointer array i p = store array i (some p ∷ [])

-- A block of pointers that ends with a NULL: an argument vector.
abbrev pub argv_of : List Bytes → Pointers
argv_of [] = none ∷ []
argv_of (w ∷ ws) = some w ∷ argv_of ws
