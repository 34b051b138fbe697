-- ===== src/Buffer/Append.antt =====
-- `oddjob_buffer_append`.
use oddjob_gpupdate.Prelude.{
  ℕ, ◌+◌, [], ◌∷◌, ◌++◌, Option, ◌≡◌, refl, sym, ap, ◌∙◌, arith, Bytes, length, take, drop, splice,
  length-take, length-splice, take-splice_end, take-splice_before, drop-append, take-drop,
  get_elem?-splice_at, load_within, store_within,
}
use oddjob_gpupdate.Buffer.{Buffer, add_size, assure_avail, append}
use oddjob_gpupdate.Buffer.Inv.{IsValid, IsMalloc, OkOrExit, Refused, Assured, assure_avail-Assured}
use oddjob_gpupdate.Buffer.Contents.{
  contents, IsTerminated, Passes, given_length-given, OkOrExit-bind,
}

-- What `oddjob_buffer_append` leaves.
pub record Appended (b : Buffer) (src : Bytes) (n : ℕ) (c : Buffer) : Type 0 where
  pub valid : IsValid c
  pub holds : contents c ≡ contents b ++ take n src
  pub terminated : IsTerminated c

module _ (b c : Buffer) (src : Bytes) (n : ℕ) (v : IsValid b) (a : Assured b (n + 1) c) where
  abbrev at_end : ℕ
  at_end = b.spare + b.used

  module _ (new : Bytes) (k : length new ≡ n) where
    abbrev written : Bytes
    written = splice c.bytes at_end new

    length-written : length written ≡ length c.bytes
    length-written = length-splice c.bytes at_end new (omega arith)

    take-written : take (at_end + n) written ≡ take at_end b.bytes ++ new
    take-written =
        ap (λ t. take (at_end + t) written) (sym k)
        ∙ take-splice_end c.bytes at_end new (omega arith)
        ∙ ap (λ t. t ++ new) a.same_bytes

    contents-written :
        take (b.used + n) (drop c.spare (splice written (at_end + n) (0 ∷ []))) ≡ contents b ++ new
    contents-written =
        let X : Bytes = splice written (at_end + n) (0 ∷ []) in
        let e : b.spare + (b.used + n) ≡ at_end + n = omega arith in
        ap (λ t. take (b.used + n) (drop t X)) a.same_spare
        ∙ take-drop b.spare (b.used + n) X
        ∙ ap (λ t. drop b.spare (take t X)) e
        ∙ ap (drop b.spare) (
            take-splice_before written (at_end + n) (at_end + n) (0 ∷ []) (omega arith)
              (omega (arith, length-written))
            ∙ take-written)
        ∙ drop-append b.spare (take at_end b.bytes) new (omega (arith, length-take at_end b.bytes))
        ∙ ap (λ t. t ++ new) (sym (take-drop b.spare b.used b.bytes))

    Appended-written :
        take n src ≡ new
        → Appended b src n
            (record c { bytes = splice written (at_end + n) (0 ∷ []); used = b.used + n })
    Appended-written e =
        let l : length (splice written (at_end + n) (0 ∷ [])) ≡ length c.bytes =
          omega (arith, length-written, length-splice written (at_end + n) (0 ∷ [])) in
        let at : c.spare + (b.used + n) ≡ at_end + n = omega arith in
        record {
          valid = omega arith;
          holds = contents-written ∙ ap (λ t. contents b ++ t) (sym e);
          terminated =
              rw at (get_elem?-splice_at written (at_end + n) 0 (omega (arith, length-written)));
        }

module _ {malloc : ℕ → Option Bytes} (heap : IsMalloc malloc) where
  -- On a valid buffer, with a malloc that hands out blocks of the length asked for,
  -- oddjob_buffer_append of the first n bytes of a source either leaves a valid buffer whose
  -- string is the old one followed by these bytes, with a NUL behind it, or ends the process
  -- with status 1: then the block has no room for these bytes and a NUL behind the used ones,
  -- and malloc has no block of the multiple of 1024 that is larger than what is needed by 1024
  -- to 2047 bytes; the source has n bytes, and the size of the block plus n plus 1 is below
  -- 2^63.
  pub append_lem :
      (b : Buffer) (src : Bytes) (n : ℕ)
      → IsValid b
      → Passes b src n
      → OkOrExit (append malloc b src n) (Appended b src n) (Refused malloc b (n + 1))
  unfolding append
  append_lem b src n v p =
      let len : add_size n 1 ≡ n + 1 = omega arith in
      rw (given_length-given src n (omega arith), len)
        (OkOrExit-bind (assure_avail malloc b (n + 1)) _ (Assured b (n + 1)) (Appended b src n)
          (Refused malloc b (n + 1)) (assure_avail-Assured heap b (n + 1) v (omega arith))
          (λ c a.
            let k : length (take n src) ≡ n = omega (arith, length-take n src) in
            let e1 : add_size c.spare c.used ≡ b.spare + b.used = omega arith in
            let e2 : add_size c.used n ≡ b.used + n = omega arith in
            let e3 : add_size c.spare (b.used + n) ≡ b.spare + b.used + n = omega arith in
            rw
              (
                load_within src n p.0,
                e1,
                e2,
                e3,
                store_within c.bytes (b.spare + b.used) (take n src) (omega arith),
                store_within (splice c.bytes (b.spare + b.used) (take n src)) (b.spare + b.used + n)
                    (0 ∷ []) (omega (arith, length-splice c.bytes (b.spare + b.used) (take n src))),
              )
              (Appended-written b c src n v a (take n src) k refl)))
