-- ===== src/Util/Args/Words.antt =====
-- The two passes over `bigbuf`: the words between the NULs.
use oddjob_gpupdate.Prelude.{
  ℕ, zero, suc, ◌+◌, ◌*◌, ◌≡◌, refl, ap, ◌∙◌, arith, Bool, true, false, List, [], ◌∷◌, ◌++◌, none,
  some, Bytes, ◌==◌, length, replicate, length-append, ok, store_within, splice,
}
use oddjob_gpupdate.Util.Memory.{
  Ample, Pointers, argv_of, until_nul, oddjob_malloc, malloc0_pointers, strdup, set_pointer,
}
use oddjob_gpupdate.Util.Args.{count_words, collect, split}
use mathlib.Core.List.{append_assoc, append-nil}

-- The words of a stretch of memory, each ended by a NUL, behind the start `word` of the first.
unfoldable pub tokens : Bytes → Bytes → List Bytes
tokens word [] = []
tokens [] (zero ∷ cs) = tokens [] cs
tokens (w ∷ ws) (zero ∷ cs) = (w ∷ ws) ∷ tokens [] cs
tokens word (suc c ∷ cs) = tokens (word ++ suc c ∷ []) cs

count_words-tokens :
    (word : Bytes) (w : ℕ) (bs : Bytes)
    → (count_words false bs ≡ length (tokens [] bs))
      × (count_words true bs ≡ length (tokens (w ∷ word) bs))
unfolding count_words tokens
count_words-tokens word w [] = (refl, refl)
count_words-tokens word w (zero ∷ cs) =
    ((count_words-tokens word w cs).0, ap suc (count_words-tokens word w cs).0)
count_words-tokens word w (suc c ∷ cs) =
    let e : ((suc c == 0) ≡ false) = ground arith in
    (
      rw e (count_words-tokens [] (suc c) cs).1,
      rw e (count_words-tokens (word ++ suc c ∷ []) w cs).1,
    )

-- Storing behind the pointers that are filled already.
pub set_pointer-next :
    (filled rest : Pointers) (w : Bytes)
    → set_pointer (filled ++ none ∷ rest) (length filled) w ≡ ok (filled ++ some w ∷ rest)
unfolding set_pointer
set_pointer-next filled rest w =
    rw
      (store_within (filled ++ none ∷ rest) (length filled) (some w ∷ [])
        (omega (arith, length-append filled (none ∷ rest))))
      (ap ok (splice_next filled))
  where
    splice_next :
        (xs : Pointers) → splice (xs ++ none ∷ rest) (length xs) (some w ∷ []) ≡ xs ++ some w ∷ rest
    splice_next [] = refl
    splice_next (x ∷ xs) = ap (◌∷◌ x) (splice_next xs)

module _ (fits : ℕ → Bool) (ample : Ample fits) where
  strdup-until_nul : (s : Bytes) → strdup fits s ≡ ok (until_nul s)
  unfolding strdup oddjob_malloc
  strdup-until_nul s = rw (ample (length (until_nul s) + 1))

  -- Room for the words that are left, and for the NULL behind them.
  abbrev room : List Bytes → Pointers
  room ws = none ∷ replicate (length ws) none

  until_nul-suc : (c : ℕ) (cs : Bytes) → until_nul (suc c ∷ cs) ≡ suc c ∷ until_nul cs
  unfolding until_nul
  until_nul-suc c cs = let e : ((suc c == 0) ≡ false) = ground arith in rw e

  until_nul-zero : (cs : Bytes) → until_nul (zero ∷ cs) ≡ []
  unfolding until_nul
  until_nul-zero cs = refl

  collect-step :
      (filled : Pointers) (b v cs : Bytes) (vs : List Bytes)
      → until_nul b ≡ v
      → collect fits ((filled ++ some v ∷ []) ++ room vs) (length (filled ++ some v ∷ [])) none cs
        ≡ ok ((filled ++ some v ∷ []) ++ argv_of vs)
      → collect fits (filled ++ none ∷ room vs) (length filled) (some b) (zero ∷ cs)
        ≡ ok (filled ++ some v ∷ argv_of vs)
  unfolding collect
  collect-step filled b v cs vs e ih =
      let n : length (filled ++ some v ∷ []) ≡ length filled + 1 =
        length-append filled (some v ∷ []) in
      rw (strdup-until_nul b, e, set_pointer-next filled (room vs) v)
        (rw
          (
            n,
            append_assoc filled (some v ∷ []) (room vs),
            append_assoc filled (some v ∷ []) (argv_of vs),
          )
          at ih)

  collect-tokens :
      (filled : Pointers) (w : ℕ) (word b bs : Bytes)
      → (until_nul b ≡ (w ∷ word) ++ until_nul bs
          → collect fits (filled ++ room (tokens (w ∷ word) bs)) (length filled) (some b) bs
            ≡ ok (filled ++ argv_of (tokens (w ∷ word) bs)))
        × (collect fits (filled ++ room (tokens [] bs)) (length filled) none bs
            ≡ ok (filled ++ argv_of (tokens [] bs)))
  unfolding collect tokens
  collect-tokens filled w word b [] = (λ _. refl, refl)
  collect-tokens filled w word b (zero ∷ cs) = (
    λ h.
        collect-step filled b (w ∷ word) cs (tokens [] cs) (h ∙ rw (until_nul-zero cs, append-nil))
          (collect-tokens (filled ++ some (w ∷ word) ∷ []) w word b cs).1,
    (collect-tokens filled w word b cs).1,
  )
  collect-tokens filled w word b (suc c ∷ cs) =
      let e : ((suc c == 0) ≡ false) = ground arith in
      (
        λ h.
            rw (e, collect)
              ((collect-tokens filled w (word ++ suc c ∷ []) b cs).0
                (h ∙ rw (until_nul-suc c cs, append_assoc))),
        rw (e, collect) ((collect-tokens filled (suc c) [] (suc c ∷ cs) cs).0 (until_nul-suc c cs)),
      )

  -- The two passes give the words, and the vector ends with NULL.
  pub split-tokens : (bigbuf : Bytes) → split fits bigbuf ≡ ok (argv_of (tokens [] bigbuf))
  unfolding split malloc0_pointers oddjob_malloc
  split-tokens bigbuf =
      let k = length (tokens [] bigbuf) in
      let n : count_words false bigbuf + 1 ≡ suc k =
        omega (arith, (count_words-tokens [] 0 bigbuf).0) in
      rw (ample (8 * (count_words false bigbuf + 1)), n) (collect-tokens [] 0 [] [] bigbuf).1
