-- ===== src/Registry/Table/Laws.antt =====
-- What a search finds in an array after an element has been put in or taken out.
use oddjob_gpupdate.Prelude.{
  suc, ◌<◌, ◌≡◌, refl, sym, ap, ◌∙◌, inl, inr, arith, false, List, [], ◌∷◌, none, some, Bytes,
  str_eq, str_eq_iff, str_eq_comm, ltb, if◌then◌else◌, Bool-cases, length, not-ltb→le,
}
use oddjob_gpupdate.Registry.Table.{find, put, remove, IsDistinct}

module _ {A : Type 0} (name : A → Bytes) where
  pub find-nil : (k : Bytes) → find name k [] ≡ none
  unfolding find
  find-nil k = refl

  pub find_of_empty : (k : Bytes) (xs : List A) → ltb 0 (length xs) ≡ false → find name k xs ≡ none
  unfolding find
  find_of_empty k [] e = refl
  find_of_empty k (x ∷ xs) e = absurd (omega (arith, not-ltb→le 0 (suc (length xs)) e))

  pub find-put :
      (k j : Bytes) (y : A) (xs : List A)
      → name y ≡ k
      → find name j (put name k y xs) ≡ (if str_eq j k then some y else find name j xs)
  unfolding find put
  find-put k j y [] e = rw e
  find-put k j y (x ∷ xs) e =
      ground
        (arith, str_eq_iff j k, str_eq_iff k (name x), str_eq_iff j (name x), find-put k j y xs e)

  pub find-remove :
      (k j : Bytes) (xs : List A)
      → IsDistinct name xs
      → find name j (remove name k xs) ≡ (if str_eq j k then none else find name j xs)
  unfolding find remove
  find-remove k j [] d = ground arith
  find-remove k j (x ∷ xs) d = ground (
    arith,
    str_eq_iff j k,
    str_eq_iff k (name x),
    str_eq_iff j (name x),
    ap (λ t. find name t xs) {x = j} {y = name x},
    d.0,
    find-remove k j xs d.1,
  )

  pub put-IsDistinct :
      (k : Bytes) (y : A) (xs : List A)
      → name y ≡ k
      → IsDistinct name xs
      → IsDistinct name (put name k y xs)
  unfolding find put
  put-IsDistinct k y [] e d = ground arith
  put-IsDistinct k y (x ∷ xs) e d = elim (Bool-cases (str_eq k (name x))) [
    | inl t ↦
        let same : name y ≡ name x = e ∙ (str_eq_iff k (name x)).0 t in
        rw t (ap (λ j. find name j xs) same ∙ d.0, d.1)
    | inr f ↦ rw f (
      find-put k (name x) y xs e ∙ rw (str_eq_comm (name x) k ∙ f) d.0,
      put-IsDistinct k y xs e d.1,
    )
  ]

  pub remove-IsDistinct :
      (k : Bytes) (xs : List A) → IsDistinct name xs → IsDistinct name (remove name k xs)
  unfolding find remove
  remove-IsDistinct k [] d = tt
  remove-IsDistinct k (x ∷ xs) d = elim (Bool-cases (str_eq k (name x))) [
    | inl t ↦ rw t d.1
    | inr f ↦ rw f (
      find-remove k (name x) xs d.1 ∙ rw (str_eq_comm (name x) k ∙ f) d.0,
      remove-IsDistinct k xs d.1,
    )
  ]

  pub put-ne-nil : (k : Bytes) (y : A) (xs : List A) → 0 < length (put name k y xs)
  unfolding put
  put-ne-nil k y [] = omega arith
  put-ne-nil k y (x ∷ xs) = ground arith

  pub length-put :
      (k : Bytes) (y : A) (xs : List A) {x : A}
      → find name k xs ≡ some x
      → length (put name k y xs) ≡ length xs
  unfolding put find
  length-put k y [] e = cc
  length-put k y (z ∷ xs) {x} e = elim (Bool-cases (str_eq k (name z))) [
    | inl t ↦ rw t refl
    | inr f ↦ rw f (ap suc (length-put k y xs (sym (rw f) ∙ e)))
  ]

  pub length-remove :
      (k : Bytes) (xs : List A) {x : A}
      → find name k xs ≡ some x
      → suc (length (remove name k xs)) ≡ length xs
  unfolding remove find
  length-remove k [] e = cc
  length-remove k (z ∷ xs) {x} e = elim (Bool-cases (str_eq k (name z))) [
    | inl t ↦ rw t refl
    | inr f ↦ rw f (ap suc (length-remove k xs (sym (rw f) ∙ e)))
  ]
