-- ===== src/Dispatch/Guess.antt =====
-- `guess_interface`, for a call that names no interface.
use oddjob_gpupdate.Prelude.{
  ◌≡◌, refl, ◌∙◌, inl, inr, List, [], ◌∷◌, ◌++◌, Option, none, some, Bytes, str_eq, if◌then◌else◌,
  Bool-cases,
}
use oddjob_gpupdate.Registry.Types.{Method, Interface, Object, method_name}

-- What `match` is behind a loop, or that the function has returned NULL from inside of it.
pub data Guess : Type 0 where
  ambiguous : Guess
  matched : Option Interface → Guess

-- The inner loop, over the methods of `iface`.
unfoldable pub guess_methods : Bytes → Interface → List Method → Option Interface → Guess
guess_methods method iface [] match = matched match
guess_methods method iface (m ∷ ms) none =
    if str_eq (method_name m) method
    then guess_methods method iface ms (some iface)
    else guess_methods method iface ms none
guess_methods method iface (m ∷ ms) (some other) =
    let rest = guess_methods method iface ms (some other) in
    if str_eq (method_name m) method then ambiguous else rest

-- The outer loop.
unfoldable pub guess_interfaces : Bytes → List Interface → Option Interface → Guess
unfolding guess_methods
guess_interfaces method [] match = matched match
guess_interfaces method (iface ∷ more) match =
    elim (guess_methods method iface iface.methods match) [
      | ambiguous ↦ ambiguous
      | matched match' ↦ guess_interfaces method more match'
    ]

unfoldable pub guess_interface : Object → Bytes → Option Interface
unfolding guess_interfaces
guess_interface obj method = elim (guess_interfaces method obj.interfaces none) [
  | ambiguous ↦ none
  | matched match ↦ match
]

-- The interfaces with a method of this name, each as often as it has one.
abbrev pub offers : Bytes → Interface → List Method → List Interface
offers method iface [] = []
offers method iface (m ∷ ms) =
    if str_eq (method_name m) method then iface ∷ offers method iface ms else offers method iface ms

abbrev pub providers : Bytes → List Interface → List Interface
providers method [] = []
providers method (iface ∷ more) = offers method iface iface.methods ++ providers method more

-- The only element of a list.
abbrev pub sole : List Interface → Option Interface
sole (i ∷ []) = some i
sole _ = none

-- What is found is `match` and then these.
abbrev tally : Option Interface → List Interface → Guess
tally none [] = matched none
tally none (i ∷ []) = matched (some i)
tally (some i) [] = matched (some i)
tally none (i ∷ j ∷ _) = ambiguous
tally (some i) (j ∷ _) = ambiguous

-- To go on from what has been found.
abbrev resume : Guess → List Interface → Guess
resume ambiguous more = ambiguous
resume (matched match) more = tally match more

tally-append :
    (match : Option Interface) (xs ys : List Interface)
    → tally match (xs ++ ys) ≡ resume (tally match xs) ys
tally-append none [] ys = refl
tally-append (some i) [] ys = refl
tally-append none (x ∷ []) [] = refl
tally-append none (x ∷ []) (y ∷ ys) = refl
tally-append none (x ∷ x' ∷ xs) ys = refl
tally-append (some i) (x ∷ xs) ys = refl

tally-some : (i : Interface) (xs : List Interface) → tally (some i) xs ≡ tally none (i ∷ xs)
tally-some i [] = refl
tally-some i (x ∷ xs) = refl

guess_methods-tally :
    (method : Bytes) (iface : Interface) (ms : List Method) (match : Option Interface)
    → guess_methods method iface ms match ≡ tally match (offers method iface ms)
unfolding guess_methods
guess_methods-tally method iface [] none = refl
guess_methods-tally method iface [] (some i) = refl
guess_methods-tally method iface (m ∷ ms) none = elim (Bool-cases (str_eq (method_name m) method)) [
  | inl t ↦
      rw t (
        guess_methods-tally method iface ms (some iface)
        ∙ tally-some iface (offers method iface ms))
  | inr f ↦ rw f (guess_methods-tally method iface ms none)
]
guess_methods-tally method iface (m ∷ ms) (some i) =
    elim (Bool-cases (str_eq (method_name m) method)) [
      | inl t ↦ rw t refl
      | inr f ↦ rw f (guess_methods-tally method iface ms (some i))
    ]

resume-elim :
    (f : Option Interface → Guess) (more : List Interface)
    → ((match : Option Interface) → f match ≡ tally match more)
    → (g : Guess) → (elim g [ ambiguous ↦ ambiguous | matched match ↦ f match ]) ≡ resume g more
resume-elim f more h ambiguous = refl
resume-elim f more h (matched match) = h match

guess_interfaces-tally :
    (method : Bytes) (is : List Interface) (match : Option Interface)
    → guess_interfaces method is match ≡ tally match (providers method is)
unfolding guess_interfaces
guess_interfaces-tally method [] none = refl
guess_interfaces-tally method [] (some i) = refl
guess_interfaces-tally method (i ∷ is) match =
    rw (guess_methods-tally method i i.methods match, tally-append match, guess_interfaces)
      (resume-elim (guess_interfaces method is) (providers method is)
        (guess_interfaces-tally method is) (tally match (offers method i i.methods)))

tally-sole :
    (xs : List Interface)
    → (elim (tally none xs) [ ambiguous ↦ none | matched match ↦ match ]) ≡ sole xs
tally-sole [] = refl
tally-sole (x ∷ []) = refl
tally-sole (x ∷ y ∷ xs) = refl

-- guess_interface of an object and a method name is the interface that has a method of this
-- name, where the object has exactly one method of this name, and NULL otherwise.
pub guess_interface-sole :
    (obj : Object) (method : Bytes)
    → guess_interface obj method ≡ sole (providers method obj.interfaces)
unfolding guess_interface
guess_interface-sole obj method =
    rw (guess_interfaces-tally method obj.interfaces none, guess_interface)
      (tally-sole (providers method obj.interfaces))
