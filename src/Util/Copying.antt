-- ===== src/Util/Copying.antt =====
-- What the copying helpers of src/util.c give where there is memory for every request.
use oddjob_gpupdate.Prelude.{
  ℕ, Bool-cases, inl, inr, ◌==◌, ◌+◌, ◌≤◌, ◌≡◌, refl, ap, arith, Bool, [], ◌∷◌, ◌++◌, none, some,
  Bytes, NoNul, ne→not-==, length, take, take_all, replicate, length-replicate, splice,
  splice-middle, Run, ok, ◌>>=◌, store_within, load_within, length-append, length-take,
}
use oddjob_gpupdate.Util.Memory.{
  Ample, Pointers, until_nul, oddjob_malloc, strdup, malloc0, set_pointer,
}
use oddjob_gpupdate.Util.Strings.{strndup}
use oddjob_gpupdate.Util.Resize.{resize_array, resize_array-grow}

pub until_nul_lem : (s : Bytes) → NoNul s → until_nul s ≡ s
unfolding until_nul
until_nul_lem [] h = refl
until_nul_lem (c ∷ cs) h = rw (ne→not-== c 0 h.0) (ap (◌∷◌ c) (until_nul_lem cs h.1))

length-until_nul : (s : Bytes) → length (until_nul s) ≤ length s
unfolding until_nul
length-until_nul [] = omega arith
length-until_nul (c ∷ cs) = ground (arith, length-until_nul cs)

-- What stands in front of the first NUL has none.
pub until_nul-NoNul : (s : Bytes) → NoNul (until_nul s)
unfolding until_nul
until_nul-NoNul [] = tt
until_nul-NoNul (c ∷ cs) = elim (Bool-cases (c == 0)) [
  | inl t ↦ rw t tt
  | inr t ↦ rw t (ground arith, until_nul-NoNul cs)
]

module _ (fits : ℕ → Bool) (ample : Ample fits) where
  pub malloc0_lem : (n : ℕ) → malloc0 fits n ≡ ok (replicate n 0)
  unfolding malloc0 oddjob_malloc
  malloc0_lem n = rw (ample n)

  -- A whole array of bytes can be copied, up to its first NUL.
  pub strndup_lem : (s : Bytes) → (r : Bytes) × (strndup fits s (length s) ≡ ok r)
  unfolding strndup malloc0 oddjob_malloc
  strndup_lem s =
      let n = length (until_nul s) in
      let kept : Bytes = take n s in
      let zeros : Bytes = replicate (n + 1) 0 in
      (
        until_nul (splice zeros 0 kept),
        rw (
          load_within s (length s) (omega arith),
          take_all (length s) s (omega arith),
          ample (length (until_nul s) + 1),
          load_within s n (length-until_nul s),
          store_within zeros 0 kept
              (omega (arith, length-take n s, length-replicate {A = ℕ} (n + 1) 0)),
        ),
      )

  -- A C string is copied as it is.
  pub strdup_lem : (s : Bytes) → NoNul s → strdup fits s ≡ ok s
  unfolding strdup oddjob_malloc
  strdup_lem s h = rw (ample (length (until_nul s) + 1), until_nul_lem s h)

  -- One pointer more, at the end.
  pub push_pointer :
      {B : Type 0} (array : Pointers) (s : Bytes) (f : Pointers → Run B)
      → length array + 1 ≤ 0xffff
      → NoNul s
      → (resize_array fits none array 8 (length array) (length array + 1) >>= λ grown.
          strdup fits s >>= λ copy. set_pointer grown (length array) copy >>= f)
        ≡ f (array ++ some s ∷ [])
  unfolding set_pointer
  push_pointer array s f l h =
      let bound : length array + 1 ≤ length (array ++ none ∷ []) =
        omega (arith, length-append array (none ∷ [])) in
      rw (
        resize_array-grow fits none ample array 8 (omega arith) (omega arith) l,
        strdup_lem s h,
        store_within (array ++ none ∷ []) (length array) (some s ∷ []) bound,
        splice-middle array [] none (some s),
      )
