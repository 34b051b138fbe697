-- ===== src/Util/Args/Scanning.antt =====
-- The `while` loop of `oddjob_parse_args`: its quoting state, and how much it writes.
use oddjob_gpupdate.Prelude.{
  ℕ, ◌+◌, ◌≤◌, ◌<◌, arith, [], ◌∷◌, Bytes, length, length-append, Returns, Returns-bind,
  Returns-map,
}
use oddjob_gpupdate.Util.Args.{Scan, step, scan}

-- At most one of the two quotes is open, and a pending backslash stands outside both.
pub record IsQuoting (s : Scan) : Type 0 where
  pub one_quote : s.sqlevel + s.dqlevel ≤ 1
  pub escape_bit : s.escape ≤ 1
  pub escape_outside : s.escape + s.sqlevel + s.dqlevel ≤ 1

-- The quoting state is sound, and at most `n` bytes are written.
abbrev pub Scanned : ℕ → Scan → Type 0
Scanned n t = IsQuoting t × (length t.out ≤ n)

module _ (size : ℕ) where
  step-Scanned :
      (s : Scan) (c : ℕ)
      → IsQuoting s
      → length s.out < size
      → Returns (Scanned (length s.out + 1)) (step size s c)
  unfolding step
  step-Scanned s c q h = ground (arith, length-append s.out (c ∷ []), length-append s.out (0 ∷ []))

  -- The loop ends, never writes behind `bigbuf`, and writes no more bytes than it reads.
  pub scan-Scanned :
      (s : Scan) (cs : Bytes)
      → IsQuoting s
      → length s.out + length cs ≤ size
      → Returns (Scanned (length s.out + length cs)) (scan size s cs)
  unfolding scan
  scan-Scanned s [] q h = (q, omega arith)
  scan-Scanned s (c ∷ cs) q h =
      Returns-bind (Scanned (length s.out + 1)) _ (step size s c) (λ t. scan size t cs)
        (step-Scanned s c q (omega arith))
        (λ t r.
          Returns-map (Scanned (length t.out + length cs)) _ (scan size t cs)
            (scan-Scanned t cs r.0 (omega arith)) (λ u l. (l.0, omega arith)))
