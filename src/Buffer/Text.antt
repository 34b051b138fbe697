-- ===== src/Buffer/Text.antt =====
-- What `oddjob_buffer_consume` and `oddjob_buffer_clear` leave of the string, and of the text that a
-- reader of `oddjob_buffer_data` sees.
use oddjob_gpupdate.Prelude.{
  NoNul, drop_past, get_elem?-drop, ℕ, zero, suc, ◌+◌, ◌-◌, ◌≤◌, ◌<◌, [], ◌∷◌, some, ◌≡◌, refl, sym,
  ap, ◌∙◌, inl, inr, arith, Bytes, ltb, lt→ltb, le→not-ltb, ne→not-==, Bool-cases, take, drop,
  get_elem?, drop_add, take-drop,
}
use oddjob_gpupdate.Buffer.{Buffer, strlen, add_size, consume, clear, buffer_length, data_at}
use oddjob_gpupdate.Buffer.Inv.{IsValid}
use oddjob_gpupdate.Buffer.Contents.{contents, IsTerminated, length-contents}

-- oddjob_buffer_consume of n bytes of a valid buffer leaves its string without the first n
-- bytes, and the empty string where it has no more than n.
pub contents-consume :
    (b : Buffer) (n : ℕ) → IsValid b → contents (consume b n) ≡ drop n (contents b)
unfolding consume
contents-consume b n v = elim (Bool-cases (ltb n b.used)) [
  | inl t ↦
      let lt : n < b.used = ground arith in
      let e : add_size b.spare n ≡ b.spare + n = omega arith in
      let back : n + (b.used - n) ≡ b.used = omega arith in
      rw (t, e)
        (ap (take (b.used - n)) (sym (drop_add n b.spare b.bytes))
          ∙ take-drop n (b.used - n) (drop b.spare b.bytes)
          ∙ ap (λ k. drop n (take k (drop b.spare b.bytes))) back)
  | inr f ↦
      let ge : b.used ≤ n = ground arith in
      rw f (sym (drop_past n (contents b) (omega (arith, length-contents b v))))
]

-- The terminating NUL stays where it is when part of the string is dropped.
pub consume-IsTerminated :
    (b : Buffer) (n : ℕ) → IsValid b → n < b.used → IsTerminated b → IsTerminated (consume b n)
unfolding consume
consume-IsTerminated b n v h t =
    let e : add_size b.spare n + (b.used - n) ≡ b.spare + b.used = omega arith in
    rw (lt→ltb n b.used h, e) t

strlen_at : (xs : Bytes) (n : ℕ) → get_elem? xs n ≡ some 0 → NoNul (take n xs) → strlen xs ≡ some n
unfolding strlen
strlen_at [] n e h = cc
strlen_at (x ∷ xs) zero e h = ground arith
strlen_at (x ∷ xs) (suc n) e h = rw (ne→not-== x 0 h.0, strlen) (rw (strlen_at xs n e h.1))

-- For a terminated buffer whose string holds no NUL, strlen of oddjob_buffer_data is
-- oddjob_buffer_length.
pub strlen-data_at :
    (b : Buffer) → IsTerminated b → NoNul (contents b) → strlen (data_at b) ≡ some (buffer_length b)
unfolding data_at buffer_length
strlen-data_at b t h =
    strlen_at (drop b.spare b.bytes) b.used (get_elem?-drop b.spare b.used b.bytes ∙ t) h

-- For a terminated buffer whose string holds no NUL, consuming at least all of it does what
-- oddjob_buffer_clear does: the length is 0 afterwards, and strlen of oddjob_buffer_data is
-- still the old length.
pub strlen-data_at_emptied :
    (b : Buffer) (n : ℕ)
    → IsTerminated b
    → NoNul (contents b)
    → b.used ≤ n
    → (consume b n ≡ clear b)
      × (buffer_length (clear b) ≡ 0)
      × (strlen (data_at (clear b)) ≡ some (buffer_length b))
unfolding consume clear buffer_length data_at
strlen-data_at_emptied b n t h k =
    (rw (le→not-ltb n b.used k), refl, unfold data_at buffer_length in strlen-data_at b t h)
