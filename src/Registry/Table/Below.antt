-- ===== src/Registry/Table/Below.antt =====
-- What the elements of an array hold: what is found below the one of a name, and what all have.
use oddjob_gpupdate.Prelude.{
  ◌≡◌, refl, sym, ap, subst, ◌∙◌, inl, inr, Bool, true, false, ◌&&◌, List, [], ◌∷◌, Option, none,
  some, Bytes, str_eq, str_eq_iff, if◌then◌else◌, Bool-cases, Option-cases,
}
use mathlib.Core.Option.{some-injective}
use oddjob_gpupdate.Registry.Table.{find, put, remove, IsDistinct}
use oddjob_gpupdate.Registry.Table.Laws.{find-put, find-remove, put-IsDistinct, remove-IsDistinct}
use oddjob_gpupdate.Registry.Table.Found.{find-name}

module _ {A : Type 0} (name : A → Bytes) where
  -- The element that `enter` works on.
  abbrev pub found_or : A → Bytes → List A → A
  found_or blank k xs = elim (find name k xs) [ none ↦ blank | some x ↦ x ]

  pub found_or-name :
      (blank : A) (k : Bytes) (xs : List A) → name blank ≡ k → name (found_or blank k xs) ≡ k
  found_or-name blank k xs e = elim (Option-cases (find name k xs)) [
    | inl n ↦ rw (n, found_or) e
    | inr (x, n) ↦ rw (n, found_or) (find-name name k xs n)
  ]

  -- What `g` finds below the element of a name.
  abbrev pub through : {B : Type 0} → (A → Option B) → Bytes → List A → Option B
  through g k xs = elim (find name k xs) [ none ↦ none | some x ↦ g x ]

  pub found_or-through :
      {B : Type 0} (g : A → Option B) (blank : A) (k : Bytes) (xs : List A)
      → g blank ≡ none
      → g (found_or blank k xs) ≡ through g k xs
  found_or-through g blank k xs e = elim (Option-cases (find name k xs)) [
    | inl n ↦ rw (n, found_or, through) e
    | inr (x, n) ↦ rw (n, found_or, through)
  ]

  -- A new value below the element of one name, and all else as it was.
  pub through-put :
      {B : Type 0} (g : A → Option B) (blank y : A) (k j : Bytes) (xs : List A) (c : Bool) (b : B)
      → name y ≡ k
      → g blank ≡ none
      → g y ≡ (if c then some b else g (found_or blank k xs))
      → through g j (put name k y xs) ≡ (if str_eq j k && c then some b else through g j xs)
  through-put g blank y k j xs c b e n h = elim (Bool-cases (str_eq j k)) [
    | inl t ↦
        let same : j ≡ k = (str_eq_iff j k).0 t in
        rw (find-put name k j y xs e, t, through)
          (h
            ∙ ap (λ z. if c then some b else z)
                (found_or-through g blank k xs n ∙ ap (λ z. through g z xs) (sym same)))
    | inr f ↦ rw (find-put name k j y xs e, f, through)
  ]

  -- The element of a name shrunk to `y`, or taken out where nothing is left of it.
  abbrev pub shrink : Bytes → A → Bool → List A → List A
  shrink k y keep xs = if keep then put name k y xs else remove name k xs

  -- One value gone from below the element of one name, and all else as it was.
  pub through-shrink :
      {B : Type 0} (g : A → Option B) (x y : A) (k j : Bytes) (keep : Bool) (xs : List A) (c : Bool)
      → name y ≡ k
      → find name k xs ≡ some x
      → IsDistinct name xs
      → g y ≡ (if c then none else g x)
      → (keep ≡ false → g y ≡ none)
      → through g j (shrink k y keep xs) ≡ (if str_eq j k && c then none else through g j xs)
  through-shrink g x y k j keep xs c e f d h n = elim (Bool-cases (str_eq j k)) [
    | inl t ↦
        let same : j ≡ k = (str_eq_iff j k).0 t in
        let here : through g j xs ≡ g x = rw (same, f, through) in
        (elim (Bool-cases keep) [
          | inl u ↦
              rw (u, find-put name k j y xs e, t, through)
                (h ∙ ap (λ z. if c then none else z) (sym here))
          | inr u ↦
              rw (u, find-remove name k j xs d, t, through)
                (sym (n u) ∙ h ∙ ap (λ z. if c then none else z) (sym here))
        ])
    | inr t ↦ (elim (Bool-cases keep) [
      | inl u ↦ rw (u, find-put name k j y xs e, t, through)
      | inr u ↦ rw (u, find-remove name k j xs d, t, through)
    ])
  ]

  pub shrink-IsDistinct :
      (k : Bytes) (y : A) (keep : Bool) (xs : List A)
      → name y ≡ k
      → IsDistinct name xs
      → IsDistinct name (shrink k y keep xs)
  shrink-IsDistinct k y true xs e d = put-IsDistinct name k y xs e d
  shrink-IsDistinct k y false xs e d = remove-IsDistinct name k xs d

  -- Each element has `P`.
  abbrev pub All : (A → Type 0) → List A → Type 0
  All P [] = Unit
  All P (x ∷ xs) = P x × All P xs

  pub find-All :
      (P : A → Type 0) (k : Bytes) (xs : List A) {x : A} → All P xs → find name k xs ≡ some x → P x
  unfolding find
  find-All P k [] h e = cc
  find-All P k (y ∷ ys) {x} h e = elim (Bool-cases (str_eq k (name y))) [
    | inl t ↦ subst P (some-injective _ _ (sym (rw t) ∙ e)) h.0
    | inr f ↦ find-All P k ys h.1 (sym (rw f) ∙ e)
  ]

  pub found_or-All :
      (P : A → Type 0) (blank : A) (k : Bytes) (xs : List A)
      → P blank
      → All P xs
      → P (found_or blank k xs)
  found_or-All P blank k xs b h = elim (Option-cases (find name k xs)) [
    | inl n ↦ rw (n, found_or) b
    | inr (x, n) ↦ rw (n, found_or) (find-All P k xs h n)
  ]

  pub put-All :
      (P : A → Type 0) (k : Bytes) (y : A) (xs : List A) → P y → All P xs → All P (put name k y xs)
  unfolding put
  put-All P k y [] p h = (p, tt)
  put-All P k y (x ∷ xs) p h = elim (Bool-cases (str_eq k (name x))) [
    | inl t ↦ rw t (p, h.1)
    | inr f ↦ rw f (h.0, put-All P k y xs p h.1)
  ]

  pub remove-All : (P : A → Type 0) (k : Bytes) (xs : List A) → All P xs → All P (remove name k xs)
  unfolding remove
  remove-All P k [] h = tt
  remove-All P k (x ∷ xs) h = elim (Bool-cases (str_eq k (name x))) [
    | inl t ↦ rw t h.1
    | inr f ↦ rw f (h.0, remove-All P k xs h.1)
  ]

  pub shrink-All :
      (P : A → Type 0) (k : Bytes) (y : A) (keep : Bool) (xs : List A)
      → (keep ≡ true → P y)
      → All P xs
      → All P (shrink k y keep xs)
  shrink-All P k y true xs p h = put-All P k y xs (p refl) h
  shrink-All P k y false xs p h = remove-All P k xs h
