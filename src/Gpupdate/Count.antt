-- ===== src/Gpupdate/Count.antt =====
-- How many arguments `main` counts on its standard input: none, one, or two and more.
use oddjob_gpupdate.Prelude.{ℕ, ◌≡◌, refl, List, [], ◌∷◌, Bytes, ok}
use oddjob_gpupdate.Util.Collect.Steps.{block}
use oddjob_gpupdate.Gpupdate.{count_from, count_args}

-- The count stops at two.
abbrev pub up_to_two : List Bytes → ℕ
up_to_two [] = 0
up_to_two (_ ∷ []) = 1
up_to_two (_ ∷ _ ∷ _) = 2

pub count_args-block : (ls : List Bytes) → count_args (block ls) ≡ ok (up_to_two ls)
unfolding count_args count_from
count_args-block [] = refl
count_args-block (a ∷ []) = refl
count_args-block (a ∷ b ∷ []) = refl
count_args-block (a ∷ b ∷ c ∷ ls) = refl
