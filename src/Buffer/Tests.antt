-- ===== src/Buffer/Tests.antt =====
-- Runs of buffer.c on small inputs.
use oddjob_gpupdate.Prelude.{
  ℕ, ◌≡◌, refl, arith, [], ◌∷◌, Option, none, some, Bytes, Run, ok, if◌then◌else◌, ltb, replicate,
  length-replicate,
}
use oddjob_gpupdate.Buffer.{
  Buffer, strlen, append, prepend, prepend_room, prepend_shift, consume, clear, assure_avail, grow,
  would_be_nice, given_length, buffer_length, data_at, minus_one,
}
use oddjob_gpupdate.Buffer.Inv.{IsValid, IsMalloc, OkOrExit, Refused}
use oddjob_gpupdate.Buffer.Contents.{contents}
use oddjob_gpupdate.Buffer.Append.{Appended, append_lem}
use oddjob_gpupdate.Buffer.Prepend.{NoRoom, Prepended, prepend_lem}
use oddjob_gpupdate.Buffer.Text.{strlen-data_at_emptied}

-- A heap that hands out zeroed blocks of at most 4096 bytes.
abbrev heap : ℕ → Option Bytes
heap n = if ltb 4096 n then none else some (replicate n 0)

heap-IsMalloc : IsMalloc heap
heap-IsMalloc n block e = ground (arith, length-replicate {A = ℕ} n 0)

-- Two spare bytes, "ab", its NUL and two bytes of rest.
abbrev ab : Buffer
ab = record { bytes = 9 ∷ 9 ∷ b'a' ∷ b'b' ∷ 0 ∷ 7 ∷ 7 ∷ []; size = 7; spare = 2; used = 2 }

ab-IsValid : IsValid ab
ab-IsValid = record { block = refl; fits = omega arith; small = omega arith }

abbrev xyz : Bytes
xyz = b'x' ∷ b'y' ∷ b'z' ∷ 0 ∷ []

contents_of : Run Buffer → Option Bytes
contents_of (ok b) = some (contents b)
contents_of _ = none

append_grows :
    contents_of (append heap ab xyz minus_one) ≡ some (b'a' ∷ b'b' ∷ b'x' ∷ b'y' ∷ b'z' ∷ [])
unfolding contents_of append assure_avail grow would_be_nice given_length
append_grows = refl

prepend_without_room : contents_of (prepend heap ab xyz 2) ≡ some (b'x' ∷ b'y' ∷ b'a' ∷ b'b' ∷ [])
unfolding contents_of prepend prepend_shift assure_avail grow would_be_nice given_length
prepend_without_room = refl

-- With room for the one byte in front, the last byte of the string is lost.
prepend_with_room : contents_of (prepend heap ab xyz 1) ≡ some (b'x' ∷ b'a' ∷ [])
unfolding contents_of prepend prepend_room given_length
prepend_with_room = refl

append_lem_example : OkOrExit (append heap ab xyz 3) (Appended ab xyz 3) (Refused heap ab 4)
append_lem_example = append_lem heap-IsMalloc ab xyz 3 ab-IsValid (omega arith)

prepend_lem_example : OkOrExit (prepend heap ab xyz 1) (Prepended ab xyz 1) (NoRoom heap ab 1)
prepend_lem_example = prepend_lem heap-IsMalloc ab xyz 1 ab-IsValid (omega arith)

strlen-data_at_emptied_example :
    (consume ab 5 ≡ clear ab)
    × (buffer_length (clear ab) ≡ 0)
    × (strlen (data_at (clear ab)) ≡ some (buffer_length ab))
strlen-data_at_emptied_example = strlen-data_at_emptied ab 5 refl (omega arith) (omega arith)
