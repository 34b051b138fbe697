-- ===== src/Prelude/Outcome.antt =====
-- What a C function does besides returning, as a value: it may end the process by `_exit` or
-- `abort`, or touch memory that it does not own.
use Prim.Native.Nat.{ℕ, ◌+◌, ◌≤◌}
use mathlib.Core.Path.{◌≡◌, refl, ap}
use mathlib.Core.List.{List}
use mathlib.Core.Option.{Option, none, some}
use mathlib.Core.Bool.{Bool, true, false}
use oddjob_gpupdate.Prelude.Tests.{leb, le→leb, if◌then◌else◌}
use oddjob_gpupdate.Prelude.Lists.{length, splice, take}

-- `fault` is undefined behaviour (an access outside an object), `aborted` the call of `abort()`,
-- and `waiting` a loop that has used up the answers given for its environment.
pub data Run {ℓ} (A : Type ℓ) : Type ℓ where
  fault aborted waiting : Run A
  exit : ℕ → Run A
  ok : A → Run A

module _ {ℓ κ} {B : Type κ} where
  infixl 5 ◌>>=◌
  abbrev pub ◌>>=◌ : {A : Type ℓ} (code : Run A) (rest : A → Run B) → Run B
  fault >>= rest = fault
  aborted >>= rest = aborted
  waiting >>= rest = waiting
  exit status >>= rest = exit status
  ok value >>= rest = rest value

-- What a pointer or a read must deliver.
abbrev pub or_fault {ℓ} : {A : Type ℓ} → Option A → Run A
or_fault none = fault
or_fault (some a) = ok a

module _ {ℓ} {A : Type ℓ} where
  -- `memmove(xs + at, src, length src)`: a fault where the object is too short.
  abbrev pub store : List A → ℕ → List A → Run (List A)
  store xs at src = if leb (at + length src) (length xs) then ok (splice xs at src) else fault

  -- The `n` items that `memcpy` reads at `xs`.
  abbrev pub load : List A → ℕ → Run (List A)
  load xs n = if leb n (length xs) then ok (take n xs) else fault

  pub store_within :
      (xs : List A) (at : ℕ) (src : List A)
      → at + length src ≤ length xs
      → store xs at src ≡ ok (splice xs at src)
  store_within xs at src h = rw (le→leb _ _ h)

  pub load_within : (xs : List A) (n : ℕ) → n ≤ length xs → load xs n ≡ ok (take n xs)
  load_within xs n h = rw (le→leb _ _ h)

-- The code returns, with a result that has `P`.
abbrev pub Returns : {A : Type 0} → (A → Type 0) → Run A → Type 0
Returns P (ok a) = P a
Returns P _ = ⊥

pub Returns-bind :
    {A B : Type 0} (P : A → Type 0) (Q : B → Type 0) (m : Run A) (f : A → Run B)
    → Returns P m
    → ((a : A) → P a → Returns Q (f a))
    → Returns Q (m >>= f)
Returns-bind P Q (ok a) f h k = k a h
Returns-bind P Q (exit _) f h k = h
Returns-bind P Q aborted f h k = h
Returns-bind P Q fault f h k = h
Returns-bind P Q waiting f h k = h

pub Returns-map :
    {A : Type 0} (P Q : A → Type 0) (m : Run A) → Returns P m → ((a : A) → P a → Q a) → Returns Q m
Returns-map P Q (ok a) h k = k a h
Returns-map P Q (exit _) h k = h
Returns-map P Q aborted h k = h
Returns-map P Q fault h k = h
Returns-map P Q waiting h k = h

-- To use what is returned.
pub Returns-ok :
    {A : Type 0} (P : A → Type 0) (m : Run A) → Returns P m → (a : A) × (m ≡ ok a) × P a
Returns-ok P (ok a) h = (a, refl, h)
Returns-ok P (exit _) h = absurd h
Returns-ok P aborted h = absurd h
Returns-ok P fault h = absurd h
Returns-ok P waiting h = absurd h

pub bind_cong :
    {A B : Type 0} (m : Run A) (f g : A → Run B) → ((a : A) → f a ≡ g a) → (m >>= f) ≡ (m >>= g)
bind_cong (ok a) f g h = h a
bind_cong (exit _) f g h = refl
bind_cong aborted f g h = refl
bind_cong fault f g h = refl
bind_cong waiting f g h = refl

-- The code does not return: it ends the process with status 1, or faults.
abbrev pub Breaks : {A : Type 0} → Run A → Type 0
Breaks (ok _) = ⊥
Breaks (exit c) = c ≡ 1
Breaks aborted = ⊥
Breaks fault = Unit
Breaks waiting = ⊥

-- The code returns, faults, or ends the process with status 1.
abbrev pub Tame : {A : Type 0} → Run A → Type 0
Tame (ok _) = Unit
Tame (exit c) = c ≡ 1
Tame aborted = ⊥
Tame fault = Unit
Tame waiting = ⊥

pub Tame-if : {A : Type 0} (b : Bool) (m n : Run A) → Tame m → Tame n → Tame (if b then m else n)
Tame-if true m n h k = h
Tame-if false m n h k = k

pub Tame-bind :
    {A B : Type 0} (m : Run A) (f : A → Run B) → Tame m → ((a : A) → Tame (f a)) → Tame (m >>= f)
Tame-bind (ok a) f h k = k a
Tame-bind (exit _) f h k = h
Tame-bind aborted f h k = h
Tame-bind fault f h k = tt
Tame-bind waiting f h k = h

pub Breaks-bind :
    {A B : Type 0} (m : Run A) (f : A → Run B)
    → Tame m
    → ((a : A) → Breaks (f a))
    → Breaks (m >>= f)
Breaks-bind (ok a) f h k = k a
Breaks-bind (exit _) f h k = h
Breaks-bind aborted f h k = h
Breaks-bind fault f h k = tt
Breaks-bind waiting f h k = h

pub store-Tame : {A : Type 0} (xs : List A) (at : ℕ) (src : List A) → Tame (store xs at src)
store-Tame xs at src = Tame-if (leb (at + length src) (length xs)) _ _ tt tt

pub load-Tame : {A : Type 0} (xs : List A) (n : ℕ) → Tame (load xs n)
load-Tame xs n = Tame-if (leb n (length xs)) _ _ tt tt

pub or_fault-Tame : {A : Type 0} (o : Option A) → Tame (or_fault o)
or_fault-Tame none = tt
or_fault-Tame (some a) = tt

pub Breaks-then : {A B : Type 0} (m : Run A) (f : A → Run B) → Breaks m → Breaks (m >>= f)
Breaks-then (ok a) f h = absurd h
Breaks-then (exit _) f h = h
Breaks-then aborted f h = h
Breaks-then fault f h = tt
Breaks-then waiting f h = h

pub Returns-then :
    {A : Type 0} (P : A → Type 0) (b : Bool) (x y : Run A)
    → b ≡ true
    → Returns P x
    → Returns P (if b then x else y)
Returns-then P b x y e h = rw e h

pub ok-injective : {A : Type 0} {a b : A} → ok a ≡ ok b → a ≡ b
ok-injective {A} {a} {b} e = ap (λ m. returned_or a m) e
  where
    returned_or : A → Run A → A
    returned_or d (ok x) = x
    returned_or d _ = d

-- A bind that returns has a first part that does.
pub bind-returned :
    {A B : Type 0} (m : Run A) (f : A → Run B) {b : B}
    → (m >>= f) ≡ ok b
    → (a : A) × (m ≡ ok a) × (f a ≡ ok b)
bind-returned (ok a) f e = (a, refl, e)
bind-returned (exit _) f e = cc
bind-returned aborted f e = cc
bind-returned fault f e = cc
bind-returned waiting f e = cc
