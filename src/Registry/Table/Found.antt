-- ===== src/Registry/Table/Found.antt =====
-- Where a search loop stops.
use oddjob_gpupdate.Prelude.{
  ℕ, ◌+◌, ◌≤◌, ◌≡◌, ◌⊎◌, refl, sym, ap, subst, ◌∙◌, inl, inr, arith, List, [], ◌∷◌, ◌++◌, none,
  some, Bytes, str_eq, str_eq_iff, Bool-cases, length, splice, get_elem?, get_elem?-middle,
  splice-middle, length-append, ok, store, store_within,
}
use mathlib.Core.Option.{some-injective}
use oddjob_gpupdate.Registry.Table.{index_of, find, put, remove}

module _ {A : Type 0} (name : A → Bytes) where
  -- Where the search loop stops, or that it stops nowhere.
  pub record Present (k : Bytes) (xs : List A) : Type 0 where
    pub before : List A
    pub it : A
    pub after : List A
    pub splits : xs ≡ before ++ it ∷ after
    pub index : index_of name k xs ≡ some (length before)
    pub found : find name k xs ≡ some it
    pub puts : (y : A) → put name k y xs ≡ before ++ y ∷ after
    pub removes : remove name k xs ≡ before ++ after

  pub record Absent (k : Bytes) (xs : List A) : Type 0 where
    pub index : index_of name k xs ≡ none
    pub found : find name k xs ≡ none
    pub puts : (y : A) → put name k y xs ≡ xs ++ y ∷ []

  pub locate : (k : Bytes) (xs : List A) → Absent k xs ⊎ Present k xs
  unfolding index_of find put remove
  locate k [] = inl (record { index = refl; found = refl; puts = λ y. refl })
  locate k (x ∷ xs) = elim (Bool-cases (str_eq k (name x))) [
    | inl t ↦ inr (record {
      before = [];
      it = x;
      after = xs;
      splits = refl;
      index = rw t;
      found = rw t;
      puts = λ y. rw t;
      removes = rw t;
    })
    | inr f ↦ elim (locate k xs) [
      | inl a ↦ inl (record {
        index = rw f (rw (a.index));
        found = rw f a.found;
        puts = λ y. rw f (ap (◌∷◌ x) (a.puts y));
      })
      | inr p ↦ inr (record {
        before = x ∷ p.before;
        it = p.it;
        after = p.after;
        splits = ap (◌∷◌ x) p.splits;
        index = rw f (rw (p.index));
        found = rw f p.found;
        puts = λ y. rw f (ap (◌∷◌ x) (p.puts y));
        removes = rw f (ap (◌∷◌ x) p.removes);
      })
    ]
  ]

  pub record Stops (k : Bytes) (xs : List A) (x : A) : Type 0 where
    pub at : ℕ
    pub index : index_of name k xs ≡ some at
    pub elem : get_elem? xs at ≡ some x
    pub stores : (y : A) → store xs at (y ∷ []) ≡ ok (put name k y xs)

  pub Present-Stops : (k : Bytes) (xs : List A) (p : Present k xs) → Stops k xs p.it
  Present-Stops k xs p =
      let bound : length p.before + 1 ≤ length xs =
        omega (arith, ap (length {A = A}) p.splits, length-append p.before (p.it ∷ p.after)) in
      record {
        at = length p.before;
        index = p.index;
        elem =
            ap (λ t. get_elem? t (length p.before)) p.splits
            ∙ get_elem?-middle p.before p.after p.it;
        stores = λ y.
            store_within xs (length p.before) (y ∷ []) bound
            ∙ ap ok (
                ap (λ t. splice t (length p.before) (y ∷ [])) p.splits
                ∙ splice-middle p.before p.after p.it y
                ∙ sym (p.puts y));
      }

  pub find-Stops : (k : Bytes) (xs : List A) {x : A} → find name k xs ≡ some x → Stops k xs x
  find-Stops k xs {x} e = elim (locate k xs) [
    | inl a ↦ cc (a.found)
    | inr p ↦
        let same : p.it ≡ x = some-injective _ _ (sym p.found ∙ e) in
        subst (λ t. Stops k xs t) same (Present-Stops k xs p)
  ]

  pub find-none :
      (k : Bytes) (xs : List A)
      → find name k xs ≡ none
      → (index_of name k xs ≡ none) × ((y : A) → put name k y xs ≡ xs ++ y ∷ [])
  find-none k xs e = elim (locate k xs) [ inl a ↦ (a.index, a.puts) | inr p ↦ cc (p.found) ]

  pub find-name : (k : Bytes) (xs : List A) {x : A} → find name k xs ≡ some x → name x ≡ k
  unfolding find
  find-name k [] e = cc
  find-name k (y ∷ ys) {x} e = elim (Bool-cases (str_eq k (name y))) [
    | inl t ↦
        subst (λ z. name z ≡ k) (some-injective _ _ (sym (rw t) ∙ e))
          (sym ((str_eq_iff k (name y)).0 t))
    | inr f ↦ find-name k ys (sym (rw f) ∙ e)
  ]
