-- ===== src/Prelude/Lists.antt =====
-- Lists measured and indexed by native numbers, and stretches of memory written in place.
use Prim.Native.Nat.{ℕ, zero, suc, ◌+◌, ◌-◌, ◌≤◌, ◌<◌, min}
use mathlib.Core.Path.{◌≡◌, refl, sym, ap, ◌∙◌}
use mathlib.Core.List.{List, [], ◌∷◌, ◌++◌}
use mathlib.Core.Option.{Option, none, some}
use native.Mathlib.Omega.{arith}

module _ {ℓ} {A : Type ℓ} where
  abbrev pub length : List A → ℕ
  length [] = 0
  length (x ∷ xs) = suc (length xs)

  abbrev pub get_elem? : List A → ℕ → Option A
  get_elem? [] i = none
  get_elem? (x ∷ xs) zero = some x
  get_elem? (x ∷ xs) (suc i) = get_elem? xs i

  abbrev pub take : ℕ → List A → List A
  take zero xs = []
  take (suc n) [] = []
  take (suc n) (x ∷ xs) = x ∷ take n xs

  abbrev pub drop : ℕ → List A → List A
  drop zero xs = xs
  drop (suc n) [] = []
  drop (suc n) (x ∷ xs) = drop n xs

  abbrev pub replicate : ℕ → A → List A
  replicate zero a = []
  replicate (suc n) a = a ∷ replicate n a

  pub length-append : (xs ys : List A) → length (xs ++ ys) ≡ length xs + length ys
  length-append [] ys = omega arith
  length-append (x ∷ xs) ys = omega (arith, length-append xs ys)

  pub length-take : (n : ℕ) (xs : List A) → length (take n xs) ≡ min n (length xs)
  length-take zero xs = omega arith
  length-take (suc n) [] = omega arith
  length-take (suc n) (x ∷ xs) = omega (arith, length-take n xs)

  pub length-drop : (n : ℕ) (xs : List A) → length (drop n xs) ≡ length xs - n
  length-drop zero xs = omega arith
  length-drop (suc n) [] = omega arith
  length-drop (suc n) (x ∷ xs) = omega (arith, length-drop n xs)

  pub length-replicate : (n : ℕ) (a : A) → length (replicate n a) ≡ n
  length-replicate zero a = refl
  length-replicate (suc n) a = ap suc (length-replicate n a)

  pub take_nil : (n : ℕ) → take n (let e : List A = [] in e) ≡ []
  take_nil zero = refl
  take_nil (suc n) = refl

  pub drop_nil : (n : ℕ) → drop n (let e : List A = [] in e) ≡ []
  drop_nil zero = refl
  drop_nil (suc n) = refl

  -- `memmove(xs + at, src, length src)`; see `store` for the bound that the code must keep.
  abbrev pub splice : List A → ℕ → List A → List A
  splice xs zero src = src ++ drop (length src) xs
  splice [] (suc at) src = []
  splice (x ∷ xs) (suc at) src = x ∷ splice xs at src

  pub take-append_length : (xs ys : List A) (n : ℕ) → n ≡ length xs → take n (xs ++ ys) ≡ xs
  take-append_length [] ys zero e = refl
  take-append_length [] ys (suc n) e = absurd (omega arith)
  take-append_length (x ∷ xs) ys zero e = absurd (omega arith)
  take-append_length (x ∷ xs) ys (suc n) e = ap (◌∷◌ x) (take-append_length xs ys n (omega arith))

  pub take-append_add :
      (xs ys : List A) (n k : ℕ) → n ≡ length xs + k → take n (xs ++ ys) ≡ xs ++ take k ys
  take-append_add [] ys n k e = ap (λ t. take t ys) (omega arith)
  take-append_add (x ∷ xs) ys zero k e = absurd (omega arith)
  take-append_add (x ∷ xs) ys (suc n) k e = ap (◌∷◌ x) (take-append_add xs ys n k (omega arith))

  pub take_all : (n : ℕ) (xs : List A) → length xs ≤ n → take n xs ≡ xs
  take_all zero [] h = refl
  take_all (suc n) [] h = refl
  take_all zero (x ∷ xs) h = absurd (omega arith)
  take_all (suc n) (x ∷ xs) h = ap (◌∷◌ x) (take_all n xs (omega arith))

  pub length-splice :
      (xs : List A) (at : ℕ) (src : List A)
      → at + length src ≤ length xs
      → length (splice xs at src) ≡ length xs
  length-splice xs zero src h =
      omega (arith, length-append src (drop (length src) xs), length-drop (length src) xs)
  length-splice [] (suc at) src h = refl
  length-splice (x ∷ xs) (suc at) src h = ap suc (length-splice xs at src (omega arith))

  pub drop-splice_self :
      (xs : List A) (at : ℕ) (src : List A)
      → at ≤ length xs
      → drop at (splice xs at src) ≡ src ++ drop (length src) (drop at xs)
  drop-splice_self xs zero src h = refl
  drop-splice_self [] (suc at) src h = absurd (omega arith)
  drop-splice_self (x ∷ xs) (suc at) src h = drop-splice_self xs at src (omega arith)

  -- Writing just behind a window extends the window by what is written.
  pub take-splice_end :
      (xs : List A) (n : ℕ) (src : List A)
      → n + length src ≤ length xs
      → take (n + length src) (splice xs n src) ≡ take n xs ++ src
  take-splice_end xs zero src h =
      take-append_length src (drop (length src) xs) (0 + length src) (omega arith)
  take-splice_end [] (suc n) src h = absurd (omega arith)
  take-splice_end (x ∷ xs) (suc n) src h =
      let e : suc n + length src ≡ suc (n + length src) = omega arith in
      rw e (ap (◌∷◌ x) (take-splice_end xs n src (omega arith)))

  pub drop-splice_add :
      (xs : List A) (s n : ℕ) (src : List A)
      → s ≤ length xs
      → drop s (splice xs (s + n) src) ≡ splice (drop s xs) n src
  drop-splice_add xs zero n src h = ap (λ t. splice xs t src) (omega arith)
  drop-splice_add [] (suc s) n src h = absurd (omega arith)
  drop-splice_add (x ∷ xs) (suc s) n src h =
      let e : suc s + n ≡ suc (s + n) = omega arith in
      rw e (drop-splice_add xs s n src (omega arith))

  pub get_elem?-splice_at :
      (xs : List A) (at : ℕ) (a : A)
      → at < length xs
      → get_elem? (splice xs at (a ∷ [])) at ≡ some a
  get_elem?-splice_at [] at a h = absurd (omega arith)
  get_elem?-splice_at (x ∷ xs) zero a h = refl
  get_elem?-splice_at (x ∷ xs) (suc at) a h = get_elem?-splice_at xs at a (omega arith)

  pub take-splice_before :
      (xs : List A) (at n : ℕ) (src : List A)
      → n ≤ at
      → at ≤ length xs
      → take n (splice xs at src) ≡ take n xs
  take-splice_before xs at zero src h k = refl
  take-splice_before xs zero (suc n) src h k = absurd (omega arith)
  take-splice_before [] (suc at) (suc n) src h k = refl
  take-splice_before (x ∷ xs) (suc at) (suc n) src h k =
      ap (◌∷◌ x) (take-splice_before xs at n src (omega arith) (omega arith))

  pub drop_add : (n k : ℕ) (xs : List A) → drop n (drop k xs) ≡ drop (k + n) xs
  drop_add n zero xs = ap (λ t. drop t xs) (omega arith)
  drop_add n (suc k) [] = drop_nil n ∙ sym (drop_nil (suc k + n))
  drop_add n (suc k) (x ∷ xs) =
      let e : suc k + n ≡ suc (k + n) = omega arith in rw e (drop_add n k xs)

  pub take-drop : (s u : ℕ) (xs : List A) → take u (drop s xs) ≡ drop s (take (s + u) xs)
  take-drop zero u xs = ap (λ t. take t xs) (omega arith)
  take-drop (suc s) u [] = take_nil u ∙ sym (ap (drop (suc s)) (take_nil (suc s + u)))
  take-drop (suc s) u (x ∷ xs) =
      let e : suc s + u ≡ suc (s + u) = omega arith in rw e (take-drop s u xs)

  pub drop-append : (n : ℕ) (xs ys : List A) → n ≤ length xs → drop n (xs ++ ys) ≡ drop n xs ++ ys
  drop-append zero xs ys h = refl
  drop-append (suc n) [] ys h = absurd (omega arith)
  drop-append (suc n) (x ∷ xs) ys h = drop-append n xs ys (omega arith)

  pub take-append_take :
      (u v : ℕ) (xs ys : List A) → u ≤ v → take u (xs ++ take v ys) ≡ take u (xs ++ ys)
  take-append_take zero v xs ys h = refl
  take-append_take (suc u) zero xs ys h = absurd (omega arith)
  take-append_take (suc u) (suc v) [] [] h = refl
  take-append_take (suc u) (suc v) [] (y ∷ ys) h =
      ap (◌∷◌ y) (take-append_take u v [] ys (omega arith))
  take-append_take (suc u) (suc v) (x ∷ xs) ys h =
      ap (◌∷◌ x) (take-append_take u (suc v) xs ys (omega arith))

  pub drop_past : (n : ℕ) (xs : List A) → length xs ≤ n → drop n xs ≡ []
  drop_past n [] h = drop_nil n
  drop_past zero (x ∷ xs) h = absurd (omega arith)
  drop_past (suc n) (x ∷ xs) h = drop_past n xs (omega arith)

  pub get_elem?-drop : (s n : ℕ) (xs : List A) → get_elem? (drop s xs) n ≡ get_elem? xs (s + n)
  get_elem?-drop zero n xs = ap (get_elem? xs) (omega arith)
  get_elem?-drop (suc s) n [] = refl
  get_elem?-drop (suc s) n (x ∷ xs) =
      let e : suc s + n ≡ suc (s + n) = omega arith in rw e (get_elem?-drop s n xs)

  pub drop-replicate : (n k : ℕ) (a : A) → drop n (replicate (n + k) a) ≡ replicate k a
  drop-replicate zero k a = ap (λ t. replicate t a) (omega arith)
  drop-replicate (suc n) k a =
      let e : suc n + k ≡ suc (n + k) = omega arith in rw e (drop-replicate n k a)

  pub get_elem?-middle : (xs ys : List A) (a : A) → get_elem? (xs ++ a ∷ ys) (length xs) ≡ some a
  get_elem?-middle [] ys a = refl
  get_elem?-middle (x ∷ xs) ys a = get_elem?-middle xs ys a

  pub splice-middle :
      (xs ys : List A) (a b : A) → splice (xs ++ a ∷ ys) (length xs) (b ∷ []) ≡ xs ++ b ∷ ys
  splice-middle [] ys a b = refl
  splice-middle (x ∷ xs) ys a b = ap (◌∷◌ x) (splice-middle xs ys a b)

  pub drop-middle : (xs ys : List A) (a : A) → drop (suc (length xs)) (xs ++ a ∷ ys) ≡ ys
  drop-middle [] ys a = refl
  drop-middle (x ∷ xs) ys a = drop-middle xs ys a

  pub nil_of_length : (xs : List A) → length xs ≡ 0 → xs ≡ []
  nil_of_length [] e = refl
  nil_of_length (x ∷ xs) e = absurd (omega arith)
