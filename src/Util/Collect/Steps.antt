-- ===== src/Util/Collect/Steps.antt =====
-- One round of the loop of `oddjob_collect_args`.
use oddjob_gpupdate.Prelude.{
  ℕ, suc, ◌+◌, ◌≤◌, ◌≡◌, refl, sym, ◌∙◌, ap, inl, inr, arith, Bool, List, [], ◌∷◌, ◌++◌, Option,
  none, some, Bytes, NoNul, IsClean, ltb, ne→not-==, not-ltb→le, nil_of_length, if◌then◌else◌,
  Bool-cases, length, take, drop, replicate, length-append, length-replicate, splice,
  drop-replicate, Run, ok, exit, aborted, fault, waiting, ◌>>=◌, store, store_within,
}
use oddjob_gpupdate.Util.Memory.{
  Ample, Pointers, argv_of, malloc0, oddjob_malloc, set_pointer, until_nul,
}
use oddjob_gpupdate.Util.Resize.{resize_array, resize_array-keep}
use oddjob_gpupdate.Util.Args.Words.{set_pointer-next}
use oddjob_gpupdate.Util.Collect.{Collected, cut_line, join_line}

-- A clean line is not cut, and one that ends with a line feed is cut there.
pub cut_line-clean : (l : Bytes) → IsClean l → cut_line l ≡ none
unfolding cut_line
cut_line-clean [] h = refl
cut_line-clean (c ∷ cs) h = let e = cut_line-clean cs h.2 in ground arith

pub cut_line-ended : (l : Bytes) → IsClean l → cut_line (l ++ b'\n' ∷ []) ≡ some l
unfolding cut_line
cut_line-ended [] h = refl
cut_line-ended (c ∷ cs) h = let e = cut_line-ended cs h.2 in ground arith

-- Pointers to these lines.
abbrev pub filled : List Bytes → Pointers
filled [] = []
filled (l ∷ ls) = some l ∷ filled ls

-- The block with these lines: none at all, or one that ends with a NULL.
abbrev pub block : List Bytes → Pointers
block [] = []
block (l ∷ ls) = argv_of (l ∷ ls)

pub length-filled : (ls : List Bytes) → length (filled ls) ≡ length ls
length-filled [] = refl
length-filled (l ∷ ls) = ap suc (length-filled ls)

take-argv_of : (ls : List Bytes) → take (length ls) (argv_of ls) ≡ filled ls
take-argv_of [] = refl
take-argv_of (l ∷ ls) = ap (◌∷◌ (some l)) (take-argv_of ls)

length-argv_of : (ls : List Bytes) → length (argv_of ls) ≡ suc (length ls)
length-argv_of [] = refl
length-argv_of (l ∷ ls) = ap suc (length-argv_of ls)

pub take-block : (ls : List Bytes) → take (length ls) (block ls) ≡ filled ls
take-block [] = refl
take-block (l ∷ ls) = take-argv_of (l ∷ ls)

pub length-block : (ls : List Bytes) → length ls ≤ length (block ls)
length-block [] = omega arith
length-block (l ∷ ls) = omega (arith, length-argv_of (l ∷ ls))

pub block-next :
    (ls : List Bytes) (l : Bytes) → filled ls ++ some l ∷ none ∷ [] ≡ block (ls ++ l ∷ [])
block-next [] l = refl
block-next (x ∷ ls) l = ap (◌∷◌ (some x)) (argv_of-next ls l)
  where
    argv_of-next :
        (ls : List Bytes) (l : Bytes) → filled ls ++ some l ∷ none ∷ [] ≡ argv_of (ls ++ l ∷ [])
    argv_of-next [] l = refl
    argv_of-next (x ∷ ls) l = ap (◌∷◌ (some x)) (argv_of-next ls l)

pub until_nul-before : (s after : Bytes) → NoNul s → until_nul (s ++ 0 ∷ after) ≡ s
unfolding until_nul
until_nul-before [] after h = refl
until_nul-before (c ∷ cs) after h =
    rw (ne→not-== c 0 h.0) (ap (◌∷◌ c) (until_nul-before cs after h.1))

append_zero : (xs ys : Bytes) → (xs ++ 0 ∷ []) ++ ys ≡ xs ++ 0 ∷ ys
append_zero [] ys = refl
append_zero (x ∷ xs) ys = ap (◌∷◌ x) (append_zero xs ys)

append_append : (xs ys zs : Bytes) → (xs ++ ys) ++ zs ≡ xs ++ ys ++ zs
append_append [] ys zs = refl
append_append (x ∷ xs) ys zs = ap (◌∷◌ x) (append_append xs ys zs)

-- `strcpy` of the line into the zeros, and `memmove` of the bytes behind it.
copied_line :
    (line : Bytes) (m : ℕ)
    → splice (replicate (length line + m + 1) 0) 0 (line ++ 0 ∷ []) ≡ line ++ replicate (suc m) 0
copied_line line m =
    let n : length (line ++ 0 ∷ []) ≡ length line + 1 = length-append line (0 ∷ []) in
    let room : length line + m + 1 ≡ length line + 1 + m = omega arith in
    rw (n, room, drop-replicate {A = ℕ} (length line + 1) m 0) (append_zero line (replicate m 0))

joined_line :
    (line buf : Bytes)
    → splice (line ++ replicate (suc (length buf)) 0) (length line) buf ≡ line ++ buf ++ 0 ∷ []
joined_line [] buf =
    let one : suc (length buf) ≡ length buf + 1 = omega arith in
    ap (◌++◌ buf)
      (ap (λ k. drop (length buf) (replicate k 0)) one ∙ drop-replicate {A = ℕ} (length buf) 1 0)
joined_line (c ∷ line) buf = ap (◌∷◌ c) (joined_line line buf)

drop-nulls :
    (n k : ℕ) → drop n (replicate (n + k) (let e : Option Bytes = none in e)) ≡ replicate k none
drop-nulls n k = drop-replicate n k none

abbrev pub so_far : Option Bytes → Bytes
so_far none = []
so_far (some l) = l

-- The state with these lines, and this one begun.
abbrev pub state : List Bytes → Option Bytes → Collected
state ls t = record { ret = block ls; thisline = t; arraysize = length ls }

bind_assoc :
    {A B C : Type 0} (m : Run A) (f : A → Run B) (g : B → Run C)
    → (m >>= λ a. f a >>= g) ≡ (m >>= f >>= g)
bind_assoc (ok a) f g = refl
bind_assoc (exit _) f g = refl
bind_assoc aborted f g = refl
bind_assoc fault f g = refl
bind_assoc waiting f g = refl

module _ (fits : ℕ → Bool) (ample : Ample fits) where
  copy :
      (line : Bytes) (m : ℕ)
      → (if ltb 0 (length line)
          then store (replicate (length line + m + 1) 0) 0 (line ++ 0 ∷ [])
          else ok (replicate (length line + m + 1) 0))
        ≡ ok (line ++ replicate (suc m) 0)
  copy line m = elim (Bool-cases (ltb 0 (length line))) [
    | inl t ↦
        let n : length (line ++ 0 ∷ []) ≡ length line + 1 = length-append line (0 ∷ []) in
        rw
          (
            t,
            store_within (replicate (length line + m + 1) 0) 0 (line ++ 0 ∷ [])
                (omega (arith, length-replicate {A = ℕ} (length line + m + 1) 0)),
          )
          (ap ok (copied_line line m))
    | inr f ↦
        let none_there : line ≡ [] =
          nil_of_length line (omega (arith, not-ltb→le 0 (length line) f)) in
        let size : length line + m + 1 ≡ suc m =
          ap (λ l. length l + m + 1) none_there ∙ omega arith in
        rw (f, size) (ap ok (ap (λ l. l ++ replicate (suc m) 0) (sym none_there)))
  ]

  pub join_line_lem :
      (t : Option Bytes) (buf : Bytes)
      → NoNul (so_far t ++ buf)
      → join_line fits t buf ≡ ok (so_far t ++ buf)
  unfolding join_line malloc0 oddjob_malloc
  join_line_lem t buf h =
      let line = so_far t in
      let n = length (so_far t) in
      let room : length (so_far t ++ replicate (suc (length buf)) 0)
          ≡ length (so_far t) + suc (length buf) =
        omega (
          arith,
          length-append (so_far t) (replicate (suc (length buf)) 0),
          length-replicate {A = ℕ} (suc (length buf)) 0,
        ) in
      rw (ample (length (so_far t) + length buf + 1), copy (so_far t) (length buf))
        (rw
          (
            store_within (line ++ replicate (suc (length buf)) 0) n buf (omega arith),
            joined_line (so_far t) buf,
          )
          (ap ok (
            ap until_nul (sym (append_append (so_far t) buf (0 ∷ [])))
            ∙ until_nul-before (so_far t ++ buf) [] h)))

  -- Room for a line and the NULL behind it, and the line in it.
  pub grow_block :
      (ls : List Bytes) (l : Bytes) (k : ℕ)
      → length ls + suc k ≤ 0xffff
      → (resize_array fits none (block ls) 8 (length ls) (length ls + suc k) >>= λ grown.
          set_pointer grown (length ls) l)
        ≡ ok (filled ls ++ some l ∷ replicate k none)
  grow_block ls l k h =
      let kept : length (take (length ls) (block ls)) ≡ length ls =
        ap (length {A = Option Bytes}) (take-block ls) ∙ length-filled ls in
      rw
        (
          resize_array-keep fits none ample (block ls) 8 (omega arith) (omega arith) (length ls)
              (length ls + suc k) h (length-block ls) (omega arith),
          kept,
          take-block ls,
          drop-nulls (length ls) (suc k),
          ← length-filled ls,
        )
        (set_pointer-next (filled ls) (replicate k none) l)

  -- The same inside a block of statements, with the NULL behind the line.
  pub grow_block_then :
      {B : Type 0} (ls : List Bytes) (l : Bytes) (f : Pointers → Run B)
      → length ls + 2 ≤ 0xffff
      → (resize_array fits none (block ls) 8 (length ls) (length ls + 2) >>= λ grown.
          set_pointer grown (length ls) l >>= f)
        ≡ f (block (ls ++ l ∷ []))
  grow_block_then ls l f h =
      bind_assoc (resize_array fits none (block ls) 8 (length ls) (length ls + 2))
        (λ grown. set_pointer grown (length ls) l) f
      ∙ ap (λ r. r >>= f) (grow_block ls l 1 h ∙ ap ok (block-next ls l))
