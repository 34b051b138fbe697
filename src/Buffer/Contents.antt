-- ===== src/Buffer/Contents.antt =====
-- A valid buffer stands for the string of its used bytes.
use oddjob_gpupdate.Prelude.{
  ℕ, ◌+◌, ◌^◌, ◌≤◌, ◌<◌, some, ◌≡◌, arith, Bytes, ne→not-==, length, take, drop, get_elem?,
  length-take, length-drop, Run, ok, exit, aborted, fault, waiting, ◌>>=◌,
}
use oddjob_gpupdate.Buffer.{Buffer, minus_one, given_length}
use oddjob_gpupdate.Buffer.Inv.{IsValid, OkOrExit}

-- The string that the buffer holds.
abbrev pub contents : Buffer → Bytes
contents b = take b.used (drop b.spare b.bytes)

-- A NUL stands behind the used bytes.
abbrev pub IsTerminated : Buffer → Type 0
IsTerminated b = get_elem? b.bytes (b.spare + b.used) ≡ some 0

pub length-contents : (b : Buffer) → IsValid b → length (contents b) ≡ b.used
length-contents b v =
    omega (arith, length-take b.used (drop b.spare b.bytes), length-drop b.spare b.bytes)

-- The first `n` of the bytes at `src` are what the caller passes, and their number is no
-- `(size_t) -1`.
abbrev pub Passes : Buffer → Bytes → ℕ → Type 0
Passes b src n = (n ≤ length src) × (b.size + n + 1 < 2 ^ 63)

pub given_length-given : (src : Bytes) (n : ℕ) → n < 2 ^ 63 → given_length src n ≡ ok n
unfolding given_length
given_length-given src n h = rw (ne→not-== n minus_one (omega arith))

-- A bind whose first part returns or exits.
pub OkOrExit-bind :
    {A B : Type 0} (m : Run A) (f : A → Run B) (P : A → Type 0) (Q : B → Type 0) (E : Type 0)
    → OkOrExit m P E
    → ((a : A) → P a → OkOrExit (f a) Q E)
    → OkOrExit (m >>= f) Q E
OkOrExit-bind (ok a) f P Q E h k = k a h
OkOrExit-bind (exit c) f P Q E h k = h
OkOrExit-bind aborted f P Q E h k = h
OkOrExit-bind fault f P Q E h k = h
OkOrExit-bind waiting f P Q E h k = h
