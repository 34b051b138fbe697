-- ===== src/Util/Args/Tests.antt =====
-- Runs of `oddjob_parse_args`.
use oddjob_gpupdate.Prelude.{
  codes, arith, Returns, ℕ, ◌≡◌, refl, Bool, true, List, [], ◌∷◌, Bytes, ok, inl, inr,
}
use oddjob_gpupdate.Util.Args.Total.{Parsed, parse_args-Parsed}
use oddjob_gpupdate.Util.Args.Quoting.{parse_args-render, parse_args_escape}
use oddjob_gpupdate.Util.Memory.{Ample, argv_of, malloc0}
use oddjob_gpupdate.Util.Args.{
  scan, check, split, parse_args, unmatched_double, unmatched_single, unfinished_escape,
}

-- The bytes of an ASCII text.
abbrev ample : ℕ → Bool
ample n = true

words :
    parse_args ample (codes "ab  'c d' \"e'\"f")
    ≡ ok (inr (argv_of (codes "ab" ∷ codes "c d" ∷ codes "e'f" ∷ [])))
unfolding parse_args malloc0 scan check split
words = refl

errors :
    (parse_args ample (codes "a\"b") ≡ ok (inl unmatched_double))
    × (parse_args ample (codes "a'b") ≡ ok (inl unmatched_single))
    × (parse_args ample (codes "a\\") ≡ ok (inl unfinished_escape))
    × (parse_args ample (codes "a\\ b") ≡ ok (inl unfinished_escape))
unfolding parse_args malloc0 scan check split
errors = (refl, refl, refl, refl)

ample-Ample : Ample ample
ample-Ample n = refl

parse_args-Parsed_example : Returns Parsed (parse_args ample (codes "a 'b"))
parse_args-Parsed_example = parse_args-Parsed ample ample-Ample (codes "a 'b") (omega arith)

abbrev two : List Bytes
two = codes "a\"b" ∷ codes "c \\d" ∷ []

parse_args-render_example : parse_args ample (codes "'a\"b' 'c \\d' ") ≡ ok (inr (argv_of two))
parse_args-render_example = parse_args-render ample ample-Ample two (ground arith) (omega arith)

parse_args_escape_example : parse_args ample (codes "a\\ b") ≡ ok (inl unfinished_escape)
parse_args_escape_example =
    parse_args_escape ample ample-Ample (codes "a") (codes " b") (omega arith) (omega arith)
      (omega arith)
