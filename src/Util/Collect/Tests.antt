-- ===== src/Util/Collect/Tests.antt =====
-- A text of one line in two pieces, with and without a line that does not end behind it.
use oddjob_gpupdate.Prelude.{ℕ, ◌<◌, ◌≡◌, refl, arith, Bool, true, List, [], ◌∷◌, some, ok, fault}
use oddjob_gpupdate.Util.Memory.{Ample}
use oddjob_gpupdate.Util.Collect.{collect_args, free_args}
use oddjob_gpupdate.Util.Collect.Steps.{block}
use oddjob_gpupdate.Util.Collect.Lines.{
  Line, IsText, AreLines, lines_of, chunks_of, then_chunks, collect_args-lines, free_args-rest,
}

abbrev ample : ℕ → Bool
ample n = true

ample-Ample : Ample ample
ample-Ample n = refl

abbrev one_line : List Line
one_line = ((97 ∷ []) ∷ [], 98 ∷ []) ∷ []

IsText-letter : (n : ℕ) → 32 < n → IsText (n ∷ [])
IsText-letter n h = ((λ e. omega arith, tt), (λ e. omega arith, λ e. omega arith, tt))

one_line-AreLines : AreLines one_line
one_line-AreLines = ((IsText-letter 97 (omega arith), tt), IsText-letter 98 (omega arith), tt)

collect_args-lines_example :
    collect_args ample (chunks_of one_line []) ≡ ok (block (lines_of one_line))
collect_args-lines_example =
    collect_args-lines ample ample-Ample one_line one_line-AreLines (omega arith)

free_args-rest_example :
    (collect_args ample (chunks_of one_line (then_chunks [] (99 ∷ []) []))
      ≡ ok (some (97 ∷ 98 ∷ []) ∷ some (99 ∷ []) ∷ []))
    × (free_args (some (97 ∷ 98 ∷ []) ∷ some (99 ∷ []) ∷ []) ≡ fault)
free_args-rest_example =
    free_args-rest ample ample-Ample one_line [] (99 ∷ []) one_line-AreLines tt
      (IsText-letter 99 (omega arith)) (omega arith) (omega arith)
