-- ===== src/Util/Resize.antt =====
-- `oddjob_resize_array` of src/util.c.
--
-- An array is the list of the elements in its block, `null` the element of zero bytes, and the
-- list with no element is also the NULL pointer. Clearing and freeing the old block leave no trace.
use oddjob_gpupdate.Prelude.{
  ℕ, zero, suc, ◌+◌, ◌*◌, ◌≤◌, ◌<◌, ◌≡◌, refl, ◌∙◌, Bool, true, ◌&&◌, List, [], ◌∷◌, ◌++◌, arith,
  inl, inr, ltb, le→not-ltb, lt→ltb, Bool-cases, if◌then◌else◌, length, take, drop, replicate,
  length-replicate, length-take, take_all, drop-replicate, drop_past, splice, Tame, Tame-if,
  Tame-bind, load-Tame, store-Tame, Run, ok, exit, ◌>>=◌, store, store_within, load, load_within,
}
use mathlib.Core.List.{append-nil}
use oddjob_gpupdate.Util.Memory.{oddjob_malloc, Ample}

module _ (fits : ℕ → Bool) {A : Type 0} (null : A) where
  -- The new block: `p` before the copy.
  fresh_array : ℕ → ℕ → Run (List A)
  unfolding oddjob_malloc
  fresh_array element_size want =
      if ltb 0 element_size && ltb 0 want
      then (oddjob_malloc fits (element_size * want) >>= λ _. ok (replicate want null))
      else ok []

  -- `memmove` of the elements that are kept.
  move_elements : List A → ℕ → List A → Run (List A)
  move_elements array save p =
      if ltb 0 save then (load array save >>= λ kept. store p 0 kept) else ok p

  unfoldable pub resize_array : List A → ℕ → ℕ → ℕ → Run (List A)
  unfolding fresh_array move_elements
  resize_array array element_size current want =
      if ltb 0xffff want
      then exit 1
      else if ltb 0xffff element_size
      then exit 1
      else fresh_array element_size want >>= λ p.
          move_elements array (if ltb current want then current else want) p

  move_elements_lem :
      (array : List A) (save : ℕ) (p : List A)
      → save ≤ length array
      → save ≤ length p
      → move_elements array save p ≡ ok (splice p 0 (take save array))
  unfolding move_elements
  move_elements_lem array zero p h k = refl
  move_elements_lem array (suc save) p h k =
      let e : ltb 0 (suc save) ≡ true = ground arith in
      let n : length (take (suc save) array) ≡ suc save =
        omega (arith, length-take (suc save) array) in
      rw (e, load_within array (suc save) h, store_within p 0 (take (suc save) array) (omega arith))

  module _ (ample : Ample fits) (array : List A) (size : ℕ) (h : 0 < size) (k : size ≤ 0xffff) where
    fresh_array_lem : (n : ℕ) → fresh_array size n ≡ ok (replicate n null)
    unfolding fresh_array oddjob_malloc
    fresh_array_lem zero = rw (lt→ltb 0 size h)
    fresh_array_lem (suc n) =
        let e : ltb 0 (suc n) ≡ true = ground arith in rw (lt→ltb 0 size h, e, ample (size * suc n))

    resize_array_lem :
        (n save : ℕ)
        → n ≤ 0xffff
        → save ≡ (if ltb (length array) n then length array else n)
        → save ≤ length array
        → save ≤ n
        → resize_array array size (length array) n
          ≡ ok (take save array ++ drop (length (take save array)) (replicate n null))
    unfolding resize_array
    resize_array_lem n save m e i j = rw (
      le→not-ltb 0xffff n m,
      le→not-ltb 0xffff size k,
      ← e,
      fresh_array_lem n,
      move_elements_lem array save (replicate n null) i (omega (arith, length-replicate n null)),
    )

    -- The first `current` elements are kept, and elements of zero bytes come behind them.
    pub resize_array-keep :
        (current n : ℕ)
        → n ≤ 0xffff
        → current ≤ length array
        → current ≤ n
        → resize_array array size current n
          ≡ ok (take current array ++ drop (length (take current array)) (replicate n null))
    unfolding resize_array
    resize_array-keep current n m i j =
        let save : (if ltb current n then current else n) ≡ current = ground arith in
        rw (
          le→not-ltb 0xffff n m,
          le→not-ltb 0xffff size k,
          save,
          fresh_array_lem n,
          move_elements_lem array current (replicate n null) i
              (omega (arith, length-replicate n null)),
        )

    -- One element more: the old ones, and one of zero bytes behind them.
    pub resize_array-grow :
        length array + 1 ≤ 0xffff
        → resize_array array size (length array) (length array + 1) ≡ ok (array ++ null ∷ [])
    resize_array-grow l =
        resize_array_lem (length array + 1) (length array) l (ground arith) (omega arith)
          (omega arith)
        ∙ rw (take_all (length array) array (omega arith), drop-replicate (length array) 1 null)

    -- Fewer elements: the first ones.
    pub resize_array-shrink :
        (n : ℕ)
        → n ≤ length array
        → n ≤ 0xffff
        → resize_array array size (length array) n ≡ ok (take n array)
    resize_array-shrink n l m =
        resize_array_lem n n m (ground arith) l (omega arith)
        ∙ rw (
          drop_past (length (take n array)) (replicate n null)
              (omega (arith, length-take n array, length-replicate n null)),
          append-nil,
        )

  -- Beyond 65535 elements the process ends.
  pub resize_array-exit :
      (array : List A) (size current want : ℕ)
      → 0xffff < want
      → resize_array array size current want ≡ exit 1
  unfolding resize_array
  resize_array-exit array size current want h = rw (lt→ltb 0xffff want h)

  -- Nothing wanted of nothing: the array is gone.
  pub resize_array-nothing :
      (array : List A) (size : ℕ) → size ≤ 0xffff → resize_array array size 0 0 ≡ ok []
  unfolding resize_array
  resize_array-nothing array size h = elim (Bool-cases (ltb 0 size)) [
    | inl t ↦ rw (le→not-ltb 0xffff size h, t, resize_array)
    | inr t ↦ rw (le→not-ltb 0xffff size h, t, resize_array)
  ]

  -- Whatever is asked for, the call returns, faults, or ends the process with status 1.
  pub resize_array-Tame :
      (array : List A) (size current want : ℕ) → Tame (resize_array array size current want)
  unfolding resize_array fresh_array move_elements oddjob_malloc
  resize_array-Tame array size current want = Tame-if (ltb 0xffff want) _ _ refl (
      Tame-if (ltb 0xffff size) _ _ refl (
        Tame-bind (fresh_array size want)
          (move_elements array (if ltb current want then current else want))
          (Tame-if (ltb 0 size && ltb 0 want) _ _
            (Tame-bind (oddjob_malloc fits (size * want)) _
              (Tame-if (fits (size * want)) _ _ tt refl) (λ _. tt))
            tt)
          (λ p.
            Tame-if (ltb 0 (if ltb current want then current else want)) _ _
              (Tame-bind (load array (if ltb current want then current else want))
                (λ kept. store p 0 kept) (load-Tame array _) (λ kept. store-Tame p 0 kept))
              tt)))
