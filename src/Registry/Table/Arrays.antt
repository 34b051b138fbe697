-- ===== src/Registry/Table/Arrays.antt =====
-- The operations on arrays in memory do what `put` and `remove` do.
use oddjob_gpupdate.Prelude.{
  ℕ, suc, ◌+◌, ◌-◌, ◌≤◌, ◌<◌, ◌≡◌, refl, sym, ap, ◌∙◌, inl, inr, arith, Bool, List, [], ◌∷◌, ◌++◌,
  some, Bytes, ltb, Bool-cases, length, take, drop, splice, get_elem?, get_elem?-middle,
  splice-middle, drop-middle, length-append, nil_of_length, not-ltb→le, length-splice,
  take-append_length, take-splice_end, bind_cong, Run, ok, ◌>>=◌, store_within,
}
use mathlib.Core.Option.{some-injective}
use oddjob_gpupdate.Util.Memory.{Ample}
use oddjob_gpupdate.Util.Resize.{resize_array-grow, resize_array-shrink}
use oddjob_gpupdate.Registry.Table.{index_of, slot, enter, remove_at, put, remove}
use oddjob_gpupdate.Registry.Table.Found.{Present, Absent, locate}
use oddjob_gpupdate.Registry.Table.Below.{found_or}

module _ {A : Type 0} (name : A → Bytes) where
  module _ (fits : ℕ → Bool) (ample : Ample fits) (size : ℕ) (blank : A) (h : 0 < size)
      (g : size ≤ 0xffff) where
    slot-Present :
        (k : Bytes) (xs : List A) (p : Present name k xs)
        → slot name fits size blank k xs ≡ ok (length p.before, xs)
    unfolding slot
    slot-Present k xs p = rw (p.index, slot)

    slot-Absent :
        (k : Bytes) (xs : List A)
        → length xs < 0xffff
        → Absent name k xs
        → slot name fits size blank k xs ≡ ok (length xs, xs ++ blank ∷ [])
    unfolding slot
    slot-Absent k xs l p =
        rw (p.index, slot) (rw (resize_array-grow fits blank ample xs size h g (omega arith)))

    enter-Present :
        (k : Bytes) (xs : List A) (f : A → Run A)
        → Present name k xs
        → enter name fits size blank k xs f
          ≡ (f (found_or name blank k xs) >>= λ y. ok (put name k y xs))
    unfolding enter
    enter-Present k xs f p =
        let n = length p.before in
        let at : get_elem? xs n ≡ some p.it =
          ap (λ t. get_elem? t n) p.splits ∙ get_elem?-middle p.before p.after p.it in
        let bound : length p.before + 1 ≤ length xs =
          omega (arith, ap (length {A = A}) p.splits, length-append p.before (p.it ∷ p.after)) in
        rw (slot-Present k xs p, at, p.found, found_or)
          (bind_cong (f p.it) _ _ (λ y.
            store_within xs n (y ∷ []) bound
            ∙ ap ok (
                ap (λ t. splice t n (y ∷ [])) p.splits
                ∙ splice-middle p.before p.after p.it y
                ∙ sym (p.puts y))))

    enter-Absent :
        (k : Bytes) (xs : List A) (f : A → Run A)
        → length xs < 0xffff
        → Absent name k xs
        → enter name fits size blank k xs f
          ≡ (f (found_or name blank k xs) >>= λ y. ok (put name k y xs))
    unfolding enter
    enter-Absent k xs f l p =
        let n = length xs in
        let ys : List A = xs ++ blank ∷ [] in
        rw (slot-Absent k xs l p, get_elem?-middle xs [] blank, p.found, found_or)
          (bind_cong (f blank) _ _ (λ y.
            store_within ys n (y ∷ []) (omega (arith, length-append xs (blank ∷ [])))
            ∙ ap ok (splice-middle xs [] blank y ∙ sym (p.puts y))))

    -- With room for one more, the array ends up with `f` of the element found or created.
    pub enter_lem :
        (k : Bytes) (xs : List A) (f : A → Run A)
        → length xs < 0xffff
        → enter name fits size blank k xs f
          ≡ (f (found_or name blank k xs) >>= λ y. ok (put name k y xs))
    enter_lem k xs f l = elim (locate name k xs) [
      | inl a ↦ enter-Absent k xs f l a
      | inr p ↦ enter-Present k xs f p
    ]

    remove_at-Present :
        (k : Bytes) (xs : List A) (i : ℕ)
        → length xs ≤ 0xffff
        → index_of name k xs ≡ some i
        → Present name k xs
        → remove_at name fits size blank i xs ≡ ok (remove name k xs)
    unfolding remove_at
    remove_at-Present k xs i l e p =
        let n = length p.before in
        let m = length p.after in
        let here : i ≡ length p.before = some-injective _ _ (sym e ∙ p.index) in
        let rest : drop (suc i) xs ≡ p.after =
          ap (λ t. drop (suc t) xs) here
          ∙ ap (drop (suc (length p.before))) p.splits
          ∙ drop-middle p.before p.after p.it in
        let len : length xs ≡ length p.before + suc (length p.after) =
          ap (length {A = A}) p.splits ∙ length-append p.before (p.it ∷ p.after) in
        let front : take (length p.before) xs ≡ p.before =
          ap (take (length p.before)) p.splits
          ∙ take-append_length p.before (p.it ∷ p.after) (length p.before) refl in
        let moved : List A = splice xs (length p.before) p.after in
        let k1 : length moved ≡ length xs =
          length-splice xs (length p.before) p.after (omega arith) in
        let back : length moved - 1 ≡ length p.before + length p.after = omega arith in
        elim (Bool-cases (ltb 1 (length xs))) [
          | inl t ↦
              rw (t, rest, here, store_within xs n p.after (omega arith), ← k1)
                (resize_array-shrink fits blank ample moved size h g (length moved - 1)
                    (omega arith) (omega arith)
                  ∙ ap ok (
                      ap (λ t. take t moved) back
                      ∙ take-splice_end xs n p.after (omega arith)
                      ∙ ap (λ t. t ++ p.after) front
                      ∙ sym p.removes))
          | inr f ↦ rw f (
              resize_array-shrink fits blank ample xs size h g 0 (omega arith) (omega arith)
              ∙ ap ok (
                  sym (
                    nil_of_length (p.before ++ p.after)
                      (omega (arith, length-append p.before p.after, not-ltb→le 1 (length xs) f)))
                  ∙ sym p.removes))
        ]

    pub remove_at_lem :
        (k : Bytes) (xs : List A) (i : ℕ)
        → length xs ≤ 0xffff
        → index_of name k xs ≡ some i
        → remove_at name fits size blank i xs ≡ ok (remove name k xs)
    unfolding remove_at
    remove_at_lem k xs i l e = elim (locate name k xs) [
      | inl a ↦ cc (a.index)
      | inr p ↦ remove_at-Present k xs i l e p
    ]
