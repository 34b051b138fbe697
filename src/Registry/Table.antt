-- ===== src/Registry/Table.antt =====
-- The arrays of named structures of src/oddjob_dbus.c: the search loops, the growth by one element,
-- and the removal of one, which `oddjob_dbus_listeners_add_method` and `..._remove_method` repeat
-- for services, objects, interfaces and methods.
pub mod Laws
pub mod Found
pub mod Below
pub mod Arrays
use oddjob_gpupdate.Prelude.{
  ℕ, suc, ◌+◌, ◌-◌, ◌≤◌, ◌<◌, ◌≡◌, ◌⊎◌, refl, sym, ap, subst, ◌∙◌, inl, inr, arith, Bool, true,
  false, ◌&&◌, List, [], ◌∷◌, ◌++◌, Option, none, some, Bytes, str_eq, str_eq_iff, str_eq_comm, ltb,
  if◌then◌else◌, Bool-cases, Option-cases, length, take, drop, splice, get_elem?, get_elem?-middle,
  splice-middle, drop-middle, length-append, nil_of_length, not-ltb→le, length-splice,
  take-append_length, take-splice_end, bind_cong, Run, ok, ◌>>=◌, or_fault, store, store_within,
}
use mathlib.Core.Option.{some-injective}
use oddjob_gpupdate.Util.Memory.{Ample}
use oddjob_gpupdate.Util.Resize.{resize_array, resize_array-grow, resize_array-shrink}

module _ {A : Type 0} (name : A → Bytes) where
  -- The index at which the search loop stops at an element of this name.
  unfoldable pub index_of : Bytes → List A → Option ℕ
  index_of k [] = none
  index_of k (x ∷ xs) =
      if str_eq k (name x)
      then some 0
      else elim (index_of k xs) [ none ↦ none | some i ↦ some (suc i) ]

  -- The element at which it stops.
  unfoldable pub find : Bytes → List A → Option A
  find k [] = none
  find k (x ∷ xs) = if str_eq k (name x) then some x else find k xs

  module _ (fits : ℕ → Bool) (size : ℕ) (blank : A) where
    -- The element's index, in an array that has one more element if there was none of this name.
    unfoldable pub slot : Bytes → List A → Run (ℕ × List A)
    slot k xs = elim (index_of k xs) [
      | some i ↦ ok (i, xs)
      | none ↦ resize_array fits blank xs size (length xs) (length xs + 1) >>= λ grown.
          ok (length xs, grown)
    ]

    -- Find or create, and work on the element in place.
    unfoldable pub enter : Bytes → List A → (A → Run A) → Run (List A)
    unfolding slot
    enter k xs f = do
      (i, ys) ← slot k xs
      x ← or_fault (get_elem? ys i)
      y ← f x
      store ys i (y ∷ [])

    -- `memmove` of the elements behind, and one element less; or no array any more.
    unfoldable pub remove_at : ℕ → List A → Run (List A)
    remove_at i xs =
        if ltb 1 (length xs)
        then (store xs i (drop (suc i) xs) >>= λ moved.
            resize_array fits blank moved size (length xs) (length xs - 1))
        else resize_array fits blank xs size (length xs) 0

  -- What these do, with no indices.
  unfoldable pub put : Bytes → A → List A → List A
  put k y [] = y ∷ []
  put k y (x ∷ xs) = if str_eq k (name x) then y ∷ xs else x ∷ put k y xs

  unfoldable pub remove : Bytes → List A → List A
  remove k [] = []
  remove k (x ∷ xs) = if str_eq k (name x) then xs else x ∷ remove k xs

  -- No two elements have one name.
  abbrev pub IsDistinct : List A → Type 0
  IsDistinct [] = Unit
  IsDistinct (x ∷ xs) = (find (name x) xs ≡ none) × IsDistinct xs
