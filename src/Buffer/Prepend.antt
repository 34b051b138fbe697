-- ===== src/Buffer/Prepend.antt =====
-- `oddjob_buffer_prepend`, with room in front of the used bytes and without.
use oddjob_gpupdate.Prelude.{
  ℕ, ◌+◌, ◌-◌, ◌≤◌, ◌<◌, ◌++◌, Option, ◌≡◌, refl, sym, ap, ◌∙◌, inl, inr, arith, Bytes, ltb,
  Bool-cases, length, take, drop, splice, length-take, length-drop, length-splice,
  take-append_length, take-append_add, take-append_take, drop-splice_self, drop_add, take-drop,
  load_within, store_within, Run, ok, exit, aborted, fault, waiting,
}
use oddjob_gpupdate.Buffer.{Buffer, add_size, assure_avail, prepend_room, prepend_shift, prepend}
use oddjob_gpupdate.Buffer.Inv.{IsValid, IsMalloc, OkOrExit, Refused, Assured, assure_avail-Assured}
use oddjob_gpupdate.Buffer.Contents.{contents, Passes, given_length-given, OkOrExit-bind}

-- There is no room in front, nor behind, and `malloc` refuses a larger block.
pub record NoRoom (malloc : ℕ → Option Bytes) (b : Buffer) (n : ℕ) : Type 0 where
  pub no_spare : b.spare ≤ n
  pub refused : Refused malloc b (n + 1)

OkOrExit-because :
    {A : Type 0} (m : Run A) (P : A → Type 0) (E F : Type 0)
    → OkOrExit m P E
    → (E → F)
    → OkOrExit m P F
OkOrExit-because (ok a) P E F h k = h
OkOrExit-because (exit c) P E F h k = (h.0, k h.1)
OkOrExit-because aborted P E F h k = h
OkOrExit-because fault P E F h k = h
OkOrExit-because waiting P E F h k = h

-- What `oddjob_buffer_prepend` leaves. With room in front, `used` does not count the new bytes:
-- the string keeps its length, and loses its end.
pub record Prepended (b : Buffer) (src : Bytes) (n : ℕ) (c : Buffer) : Type 0 where
  pub valid : IsValid c
  pub shifted : b.spare ≤ n → contents c ≡ take n src ++ contents b
  pub cut : n < b.spare → contents c ≡ take b.used (take n src ++ contents b)

prepend_room-Prepended :
    (malloc : ℕ → Option Bytes) (b : Buffer) (src new : Bytes) (n : ℕ)
    → IsValid b
    → length new ≡ n
    → take n src ≡ new
    → n < b.spare
    → OkOrExit (prepend_room malloc b new) (Prepended b src n) (NoRoom malloc b n)
unfolding prepend_room
prepend_room-Prepended malloc b src new n v k e h =
    let at : b.spare - length new ≤ length b.bytes = omega arith in
    let X : Bytes = splice b.bytes (b.spare - length new) new in
    let back : b.spare - length new + length new ≡ b.spare = omega arith in
    rw (store_within b.bytes (b.spare - length new) new (omega arith)) (record {
      valid = omega (arith, length-splice b.bytes (b.spare - length new) new);
      shifted = λ g. absurd (omega arith);
      cut = λ _.
          ap (take b.used) (
            drop-splice_self b.bytes (b.spare - length new) new at
            ∙ ap (λ t. new ++ t)
                (drop_add (length new) (b.spare - length new) b.bytes
                  ∙ ap (λ t. drop t b.bytes) back))
          ∙ sym (take-append_take b.used b.used new (drop b.spare b.bytes) (omega arith))
          ∙ ap (λ t. take b.used (t ++ contents b)) (sym e);
    })

module _ (b c : Buffer) (src new : Bytes) (n : ℕ) where
  abbrev old : Bytes
  old = take c.used (drop c.spare c.bytes)

  abbrev moved : Bytes
  moved = splice c.bytes (c.spare + n) old

  module _ (v : IsValid b) (a : Assured b (n + 1) c) (k : length new ≡ n) where
    length-old : length old ≡ c.used
    length-old =
        omega (arith, length-take c.used (drop c.spare c.bytes), length-drop c.spare c.bytes)

    length-moved : length moved ≡ length c.bytes
    length-moved = length-splice c.bytes (c.spare + n) old (omega (arith, length-old))

    old-eq-contents : old ≡ contents b
    old-eq-contents =
        take-drop c.spare c.used c.bytes
        ∙ ap (λ t. drop t (take (t + c.used) c.bytes)) a.same_spare
        ∙ ap (λ t. drop b.spare (take (b.spare + t) c.bytes)) a.same_used
        ∙ ap (drop b.spare) a.same_bytes
        ∙ sym (take-drop b.spare b.used b.bytes)

    take-moved : take c.used (drop n (drop c.spare moved)) ≡ old
    take-moved =
        ap (take c.used)
          (drop_add n c.spare moved ∙ drop-splice_self c.bytes (c.spare + n) old (omega arith))
        ∙ take-append_length old _ c.used (omega (arith, length-old))

    contents-shifted :
        take (c.used + n) (drop c.spare (splice moved c.spare new)) ≡ new ++ contents b
    contents-shifted =
        ap (take (c.used + n)) (drop-splice_self moved c.spare new (omega (arith, length-moved)))
        ∙ take-append_add new _ (c.used + n) c.used (omega arith)
        ∙ ap (λ t. new ++ t)
            (ap (λ t. take c.used (drop t (drop c.spare moved))) k ∙ take-moved ∙ old-eq-contents)

    Prepended-shifted :
        take n src ≡ new
        → b.spare ≤ n
        → Prepended b src n (record c { bytes = splice moved c.spare new; used = c.used + n })
    Prepended-shifted e h = record {
      valid = omega (arith, length-moved, length-splice moved c.spare new);
      shifted = λ _. contents-shifted ∙ ap (λ t. t ++ contents b) (sym e);
      cut = λ g. absurd (omega arith);
    }

module _ {malloc : ℕ → Option Bytes} (heap : IsMalloc malloc) where
  prepend_shift-Prepended :
      (b : Buffer) (src new : Bytes) (n : ℕ)
      → IsValid b
      → Passes b src n
      → length new ≡ n
      → take n src ≡ new
      → b.spare ≤ n
      → OkOrExit (prepend_shift malloc b new) (Prepended b src n) (NoRoom malloc b n)
  unfolding prepend_shift
  prepend_shift-Prepended b src new n v p k e h =
      let len : add_size (length new) 1 ≡ n + 1 = omega arith in
      rw len (
        OkOrExit-bind (assure_avail malloc b (n + 1)) _ (Assured b (n + 1)) (Prepended b src n)
          (NoRoom malloc b n)
          (OkOrExit-because (assure_avail malloc b (n + 1)) (Assured b (n + 1))
            (Refused malloc b (n + 1)) (NoRoom malloc b n)
            (assure_avail-Assured heap b (n + 1) v (omega arith))
            (λ r. record { no_spare = h; refused = r }))
          (λ c a.
            let e1 : add_size c.spare (length new) ≡ c.spare + n = omega arith in
            let e2 : add_size c.used (length new) ≡ c.used + n = omega arith in
            rw
              (
                load_within (drop c.spare c.bytes) c.used
                    (omega (arith, length-drop c.spare c.bytes)),
                e1,
                e2,
                store_within c.bytes (c.spare + n) (old b c src new n)
                    (omega (arith, length-old b c src new n v a k)),
                store_within (moved b c src new n) c.spare new
                    (omega (arith, length-moved b c src new n v a k)),
              )
              (Prepended-shifted b c src new n v a k e h)))

  -- On a valid buffer, with a malloc that hands out blocks of the length asked for,
  -- oddjob_buffer_prepend of the first n bytes of a source either leaves a valid buffer: with
  -- fewer than or exactly n spare bytes its string is the new bytes followed by the old string,
  -- and with more than n spare bytes it is only the first part of that, as long as the old
  -- string was; or it ends the process with status 1: then there are no more than n spare bytes,
  -- the block has no room for n bytes and a NUL behind the used ones, and malloc has no block of
  -- the multiple of 1024 that is larger than what is needed by 1024 to 2047 bytes; the source
  -- has n bytes, and the size of the block plus n plus 1 is below 2^63.
  pub prepend_lem :
      (b : Buffer) (src : Bytes) (n : ℕ)
      → IsValid b
      → Passes b src n
      → OkOrExit (prepend malloc b src n) (Prepended b src n) (NoRoom malloc b n)
  unfolding prepend
  prepend_lem b src n v p =
      let k : length (take n src) ≡ n = omega (arith, length-take n src) in
      elim (Bool-cases (ltb n b.spare)) [
        | inl t ↦
            rw (given_length-given src n (omega arith), load_within src n p.0, t)
              (prepend_room-Prepended malloc b src (take n src) n v k refl (ground arith))
        | inr t ↦
            rw (given_length-given src n (omega arith), load_within src n p.0, t)
              (prepend_shift-Prepended b src (take n src) n v p k refl (ground arith))
      ]
