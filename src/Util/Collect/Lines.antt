-- ===== src/Util/Collect/Lines.antt =====
-- What `oddjob_collect_args` makes of a text, and what `oddjob_free_args` then does.
use oddjob_gpupdate.Prelude.{
  ℕ, suc, ◌+◌, ◌≤◌, ◌<◌, ◌≡◌, refl, sym, subst, ◌∙◌, ap, arith, Bool, List, [], ◌∷◌, ◌++◌, Option,
  none, some, Bytes, NoNul, IsClean, ne→not-==, length, length-append, ok, fault, ◌>>=◌,
}
use mathlib.Core.List.{append-nil}
use oddjob_gpupdate.Util.Memory.{Ample, argv_of}
use oddjob_gpupdate.Util.Collect.{
  cut_line, join_line, close_line, take_chunk, take_chunks, finish, collect_args, free_each,
  free_args,
}
use oddjob_gpupdate.Util.Collect.Steps.{
  cut_line-clean, cut_line-ended, filled, block, so_far, state, join_line_lem, grow_block,
  grow_block_then,
}

-- No NUL, no carriage return and no line feed.
abbrev pub IsText : Bytes → Type 0
IsText s = NoNul s × IsClean s

NoNul-append : (xs ys : Bytes) → NoNul xs → NoNul ys → NoNul (xs ++ ys)
NoNul-append [] ys h k = k
NoNul-append (x ∷ xs) ys h k = (h.0, NoNul-append xs ys h.1 k)

IsClean-append : (xs ys : Bytes) → IsClean xs → IsClean ys → IsClean (xs ++ ys)
IsClean-append [] ys h k = k
IsClean-append (x ∷ xs) ys h k = (h.0, h.1, IsClean-append xs ys h.2 k)

IsText-append : (xs ys : Bytes) → IsText xs → IsText ys → IsText (xs ++ ys)
IsText-append xs ys h k = (NoNul-append xs ys h.0 k.0, IsClean-append xs ys h.1 k.1)

-- A line as `fgets` gives it: pieces, and what comes last.
abbrev pub Line : Type 0
Line = List Bytes × Bytes

abbrev pub AreTexts : List Bytes → Type 0
AreTexts [] = Unit
AreTexts (p ∷ ps) = IsText p × AreTexts ps

abbrev pub AreLines : List Line → Type 0
AreLines [] = Unit
AreLines ((ps, l) ∷ more) = AreTexts ps × IsText l × AreLines more

-- The bytes of a line of which `begun` is there already.
abbrev pub line_of : Bytes → List Bytes → Bytes → Bytes
line_of begun [] l = begun ++ l
line_of begun (p ∷ ps) l = line_of (begun ++ p) ps l

abbrev pub lines_of : List Line → List Bytes
lines_of [] = []
lines_of ((ps, l) ∷ more) = line_of [] ps l ∷ lines_of more

-- The chunks of these lines, each with its line feed, and then others.
abbrev pub then_chunks : List Bytes → Bytes → List Bytes → List Bytes
then_chunks [] c rest = c ∷ rest
then_chunks (p ∷ ps) c rest = p ∷ then_chunks ps c rest

abbrev pub chunks_of : List Line → List Bytes → List Bytes
chunks_of [] rest = rest
chunks_of ((ps, l) ∷ more) rest = then_chunks ps (l ++ b'\n' ∷ []) (chunks_of more rest)

append_assoc : (xs ys zs : Bytes) → (xs ++ ys) ++ zs ≡ xs ++ (ys ++ zs)
append_assoc [] ys zs = refl
append_assoc (x ∷ xs) ys zs = ap (◌∷◌ x) (append_assoc xs ys zs)

append_one : (xs : List Bytes) (y : Bytes) (ys : List Bytes) → (xs ++ y ∷ []) ++ ys ≡ xs ++ y ∷ ys
append_one [] y ys = refl
append_one (x ∷ xs) y ys = ap (◌∷◌ x) (append_one xs y ys)

module _ (fits : ℕ → Bool) (ample : Ample fits) where
  take_chunk-uncut :
      (ls : List Bytes) (t : Option Bytes) (c line : Bytes)
      → join_line fits t c ≡ ok line
      → cut_line line ≡ none
      → take_chunk fits (state ls t) c ≡ ok (state ls (some line))
  unfolding take_chunk close_line
  take_chunk-uncut ls t c line j e = rw j (ap (close_line fits (state ls t) line) e)

  take_chunk-cut :
      (ls : List Bytes) (t : Option Bytes) (c line l : Bytes)
      → join_line fits t c ≡ ok line
      → cut_line line ≡ some l
      → length ls + 2 ≤ 0xffff
      → take_chunk fits (state ls t) c ≡ ok (state (ls ++ l ∷ []) none)
  unfolding take_chunk close_line
  take_chunk-cut ls t c line l j e k = rw j (
      ap (close_line fits (state ls t) line) e
      ∙ grow_block_then fits ample ls l
          (λ ret. ok (record { ret = ret; thisline = none; arraysize = length ls + 1 })) k
      ∙ ap (λ n. ok (record { ret = block (ls ++ l ∷ []); thisline = none; arraysize = n }))
          (sym (length-append ls (l ∷ []))))

  take_chunk-piece :
      (ls : List Bytes) (t : Option Bytes) (c : Bytes)
      → IsText (so_far t ++ c)
      → take_chunk fits (state ls t) c ≡ ok (state ls (some (so_far t ++ c)))
  take_chunk-piece ls t c h =
      take_chunk-uncut ls t c (so_far t ++ c) (join_line_lem fits ample t c h.0)
        (cut_line-clean (so_far t ++ c) h.1)

  take_chunk-end :
      (ls : List Bytes) (t : Option Bytes) (l : Bytes)
      → IsText (so_far t ++ l)
      → length ls + 2 ≤ 0xffff
      → take_chunk fits (state ls t) (l ++ b'\n' ∷ [])
        ≡ ok (state (ls ++ (so_far t ++ l) ∷ []) none)
  take_chunk-end ls t l h k =
      let whole : (so_far t ++ l) ++ b'\n' ∷ [] ≡ so_far t ++ (l ++ b'\n' ∷ []) =
        append_assoc (so_far t) l (b'\n' ∷ []) in
      let nul : NoNul (so_far t ++ (l ++ b'\n' ∷ [])) =
        subst NoNul whole (NoNul-append (so_far t ++ l) (b'\n' ∷ []) h.0 (λ e. omega arith, tt)) in
      let cut : cut_line (so_far t ++ (l ++ b'\n' ∷ [])) ≡ some (so_far t ++ l) =
        ap cut_line (sym whole) ∙ cut_line-ended (so_far t ++ l) h.1 in
      take_chunk-cut ls t (l ++ b'\n' ∷ []) (so_far t ++ (l ++ b'\n' ∷ [])) (so_far t ++ l)
        (join_line_lem fits ample t (l ++ b'\n' ∷ []) nul) cut k

  finish_lem : (ls : List Bytes) → finish fits (state ls none) ≡ ok (block ls)
  unfolding finish
  finish_lem ls = refl

  -- The pieces of one line, whose beginning is `t`, and the chunk that ends it.
  take_chunks-line :
      (ls : List Bytes) (t : Option Bytes) (ps : List Bytes) (l : Bytes) (rest : List Bytes)
      → IsText (so_far t)
      → AreTexts ps
      → IsText l
      → length ls + 2 ≤ 0xffff
      → take_chunks fits (state ls t) (then_chunks ps (l ++ b'\n' ∷ []) rest)
        ≡ take_chunks fits (state (ls ++ line_of (so_far t) ps l ∷ []) none) rest
  unfolding take_chunks
  take_chunks-line ls t [] l rest b h k n =
      rw (take_chunk-end ls t l (IsText-append (so_far t) l b k) n) refl
  take_chunks-line ls t (p ∷ ps) l rest b h k n =
      let more : IsText (so_far t ++ p) = IsText-append (so_far t) p b h.0 in
      rw (take_chunk-piece ls t p more)
        (take_chunks-line ls (some (so_far t ++ p)) ps l rest more h.1 k n)

  -- The pieces of a line that does not end.
  take_chunks-rest :
      (ls : List Bytes) (t : Option Bytes) (ps : List Bytes) (l : Bytes)
      → IsText (so_far t)
      → AreTexts ps
      → IsText l
      → take_chunks fits (state ls t) (then_chunks ps l [])
        ≡ ok (state ls (some (line_of (so_far t) ps l)))
  unfolding take_chunks
  take_chunks-rest ls t [] l b h k =
      rw (take_chunk-piece ls t l (IsText-append (so_far t) l b k)) refl
  take_chunks-rest ls t (p ∷ ps) l b h k =
      let more : IsText (so_far t ++ p) = IsText-append (so_far t) p b h.0 in
      rw (take_chunk-piece ls t p more) (take_chunks-rest ls (some (so_far t ++ p)) ps l more h.1 k)

  take_chunks-lines :
      (ls : List Bytes) (text : List Line) (rest : List Bytes)
      → AreLines text
      → length ls + length text + 1 ≤ 0xffff
      → take_chunks fits (state ls none) (chunks_of text rest)
        ≡ take_chunks fits (state (ls ++ lines_of text) none) rest
  take_chunks-lines ls [] rest h n =
      ap (λ t. take_chunks fits (state t none) rest) (sym (append-nil ls))
  take_chunks-lines ls ((ps, l) ∷ text) rest h n =
      take_chunks-line ls none ps l (chunks_of text rest) (tt, tt) h.0 h.1 (omega arith)
      ∙ take_chunks-lines (ls ++ line_of [] ps l ∷ []) text rest h.2
          (omega (arith, length-append ls (line_of [] ps l ∷ [])))
      ∙ ap (λ t. take_chunks fits (state t none) rest)
          (append_one ls (line_of [] ps l) (lines_of text))

  -- With memory for every request, oddjob_collect_args of a text of lines gives these lines, in
  -- an array that ends with NULL (or NULL for no line); each line ends with a line feed, holds
  -- no NUL, carriage return or other line feed, may come from fgets in any number of pieces, and
  -- there are fewer than 65535.
  pub collect_args-lines :
      (text : List Line)
      → AreLines text
      → length text + 1 ≤ 0xffff
      → collect_args fits (chunks_of text []) ≡ ok (block (lines_of text))
  unfolding collect_args take_chunks finish
  collect_args-lines text h n = rw (take_chunks-lines [] text [] h (omega arith)) refl

  length-lines_of : (text : List Line) → length (lines_of text) ≡ length text
  length-lines_of [] = refl
  length-lines_of ((ps, l) ∷ text) = ap suc (length-lines_of text)

  -- Behind at least one line there is no room for a NULL.
  finish-rest :
      (ls : List Bytes) (l : Bytes)
      → 0 < length ls
      → length ls + 1 ≤ 0xffff
      → finish fits (state ls (some l)) ≡ ok (filled ls ++ some l ∷ [])
  unfolding finish
  finish-rest ls l p n =
      rw (ne→not-== (length ls) 0 (λ e. omega arith)) (grow_block fits ample ls l 0 n)

  pub collect_args-rest :
      (text : List Line) (ps : List Bytes) (l : Bytes)
      → AreLines text
      → AreTexts ps
      → IsText l
      → 0 < length text
      → length text + 1 ≤ 0xffff
      → collect_args fits (chunks_of text (then_chunks ps l []))
        ≡ ok (filled (lines_of text) ++ some (line_of [] ps l) ∷ [])
  unfolding collect_args
  collect_args-rest text ps l h i j p n =
      rw
        (take_chunks-lines [] text (then_chunks ps l []) h (omega arith)
          ∙ take_chunks-rest (lines_of text) none ps l (tt, tt) i j)
        (finish-rest (lines_of text) (line_of [] ps l) (omega (arith, length-lines_of text))
          (omega (arith, length-lines_of text)))

free_each-argv : (ls : List Bytes) → free_each (argv_of ls) ≡ ok tt
unfolding free_each
free_each-argv [] = refl
free_each-argv (l ∷ ls) = free_each-argv ls

pub free_args-block : (ls : List Bytes) → free_args (block ls) ≡ ok tt
unfolding free_args
free_args-block [] = refl
free_args-block (l ∷ ls) = free_each-argv (l ∷ ls)

free_each-filled : (ls : List Bytes) (l : Bytes) → free_each (filled ls ++ some l ∷ []) ≡ fault
unfolding free_each
free_each-filled [] l = refl
free_each-filled (x ∷ ls) l = free_each-filled ls l

free_args-filled : (ls : List Bytes) (l : Bytes) → free_args (filled ls ++ some l ∷ []) ≡ fault
unfolding free_args
free_args-filled [] l = free_each-filled [] l
free_args-filled (x ∷ ls) l = free_each-filled (x ∷ ls) l

module _ (fits : ℕ → Bool) (ample : Ample fits) where
  -- With memory for every request, oddjob_free_args returns, with no access outside the array,
  -- for what oddjob_collect_args gives for a text of fewer than 65535 lines, each ended by a
  -- line feed and with no NUL, carriage return or other line feed.
  pub free_args-lines :
      (text : List Line)
      → AreLines text
      → length text + 1 ≤ 0xffff
      → (collect_args fits (chunks_of text []) >>= free_args) ≡ ok tt
  free_args-lines text h n =
      rw (collect_args-lines fits ample text h n) (free_args-block (lines_of text))

  -- With memory for every request, where at least one line, and fewer than 65535, each ended by
  -- a line feed, is followed by a line that is not, none with a NUL, a carriage return or
  -- another line feed, oddjob_collect_args returns an array of exactly these lines, the last one
  -- included, with no NULL behind them, and oddjob_free_args of this array reads beyond its end.
  pub free_args-rest :
      (text : List Line) (ps : List Bytes) (l : Bytes)
      → AreLines text
      → AreTexts ps
      → IsText l
      → 0 < length text
      → length text + 1 ≤ 0xffff
      → (collect_args fits (chunks_of text (then_chunks ps l []))
          ≡ ok (filled (lines_of text) ++ some (line_of [] ps l) ∷ []))
        × (free_args (filled (lines_of text) ++ some (line_of [] ps l) ∷ []) ≡ fault)
  free_args-rest text ps l h i j p n = (
    collect_args-rest fits ample text ps l h i j p n,
    free_args-filled (lines_of text) (line_of [] ps l),
  )
