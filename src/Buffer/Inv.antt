-- ===== src/Buffer/Inv.antt =====
-- The representation invariant of `struct oddjob_buffer`, and `oddjob_buffer_assure_avail`.
use oddjob_gpupdate.Prelude.{
  ℕ, ◌+◌, ◌^◌, ◌≤◌, ◌<◌, Bool, true, false, [], ◌∷◌, Option, none, some, ◌≡◌, refl, sym, ap, ◌∙◌,
  ◌*◌, ◌/◌, ltb→lt, inl, inr, arith, Bytes, ltb, if◌then◌else◌, Bool-cases, Option-cases, length,
  take, length-take, length-splice, take-append_length, load_within, store_within, Run, ok, exit,
  aborted, fault, waiting,
}
use oddjob_gpupdate.Buffer.{
  Buffer, add_size, would_be_nice, new, grow, assure_avail, consume, clear,
}

-- The block has `size` bytes, and one behind the used ones for the NUL. No object of the C
-- library has 2^63 bytes or more.
pub record IsValid (b : Buffer) : Type 0 where
  pub block : length b.bytes ≡ b.size
  pub fits : b.spare + b.used < b.size
  pub small : b.size < 2 ^ 63

-- What the code relies on: `malloc` hands out a block of the length asked for, if any, and
-- refuses lengths that no object can have.
abbrev pub IsMalloc : (ℕ → Option Bytes) → Type 0
IsMalloc malloc =
    (n : ℕ) (block : Bytes) → malloc n ≡ some block → (length block ≡ n) × (n < 2 ^ 63)

-- The call returns with `P`, or ends the process with status 1, with `E` for its reason.
abbrev pub OkOrExit {ℓ} : {A : Type ℓ} → Run A → (A → Type 0) → Type 0 → Type 0
OkOrExit (ok a) P E = P a
OkOrExit (exit c) P E = (c ≡ 1) × E
OkOrExit aborted P E = ⊥
OkOrExit fault P E = ⊥
OkOrExit waiting P E = ⊥

-- The multiple of 1024 that is asked for where `n` bytes do not fit.
abbrev pub enlarged : ℕ → ℕ
enlarged n = ((n + 1023) / 1024 + 1) * 1024

-- `n` bytes more do not fit the block, and `malloc` refuses the larger one.
pub record Refused (malloc : ℕ → Option Bytes) (b : Buffer) (n : ℕ) : Type 0 where
  pub full : b.size < b.spare + b.used + n
  pub refuses : malloc (enlarged (b.spare + b.used + n)) ≡ none

would_be_nice_lem : (n : ℕ) → n < 2 ^ 63 → would_be_nice n ≡ enlarged n
unfolding would_be_nice
would_be_nice_lem n h = omega arith

pub would_be_nice_bounds :
    (n : ℕ) → n < 2 ^ 63 → (n + 1024 ≤ would_be_nice n) × (would_be_nice n ≤ n + 2048)
unfolding would_be_nice
would_be_nice_bounds n h = omega arith

-- `c` is `b` in a block with room for `n` bytes more.
pub record Assured (b : Buffer) (n : ℕ) (c : Buffer) : Type 0 where
  pub block : length c.bytes ≡ c.size
  pub small : c.size < 2 ^ 63
  pub same_spare : c.spare ≡ b.spare
  pub same_used : c.used ≡ b.used
  pub room : b.spare + b.used + n ≤ c.size
  pub same_bytes : take (b.spare + b.used) c.bytes ≡ take (b.spare + b.used) b.bytes

module _ {malloc : ℕ → Option Bytes} (heap : IsMalloc malloc) where
  grow-Assured :
      (b : Buffer) (n : ℕ)
      → IsValid b
      → b.spare + b.used + n < 2 ^ 63
      → b.size < b.spare + b.used + n
      → OkOrExit (grow malloc b (b.spare + b.used + n)) (Assured b n) (Refused malloc b n)
  unfolding grow
  grow-Assured b n v h full = elim (Option-cases (malloc (would_be_nice (b.spare + b.used + n)))) [
    | inl e ↦
        rw (e, grow)
          (
            refl,
            record {
              full = full;
              refuses = ap malloc (sym (would_be_nice_lem (b.spare + b.used + n) h)) ∙ e;
            },
          )
    | inr (block, e) ↦
        let m = heap (would_be_nice (b.spare + b.used + n)) block e in
        let w = would_be_nice_bounds (b.spare + b.used + n) h in
        let u : add_size b.spare b.used ≡ b.spare + b.used = omega arith in
        let old : Bytes = take (b.spare + b.used) b.bytes in
        let k : length old ≡ b.spare + b.used =
          omega (arith, length-take (b.spare + b.used) b.bytes) in
        rw
          (
            e,
            u,
            load_within b.bytes (b.spare + b.used) (omega arith),
            grow,
            store_within block 0 old (omega arith),
          )
          (record {
            block = omega (arith, length-splice block 0 old);
            small = m.1;
            same_spare = refl;
            same_used = refl;
            room = omega arith;
            same_bytes = take-append_length old _ (b.spare + b.used) (omega arith);
          })
  ]

  pub assure_avail-Assured :
      (b : Buffer) (n : ℕ)
      → IsValid b
      → b.spare + b.used + n < 2 ^ 63
      → OkOrExit (assure_avail malloc b n) (Assured b n) (Refused malloc b n)
  unfolding assure_avail
  assure_avail-Assured b n v h =
      let e : add_size (add_size b.spare b.used) n ≡ b.spare + b.used + n = omega arith in
      elim (Bool-cases (ltb b.size (b.spare + b.used + n))) [
        | inl t ↦ rw (e, t) (grow-Assured b n v h (ltb→lt b.size (b.spare + b.used + n) t))
        | inr t ↦
            rw (e, t)
              (record {
                block = v.block;
                small = v.small;
                same_spare = refl;
                same_used = refl;
                room = ground arith;
                same_bytes = refl;
              })
      ]

-- `oddjob_buffer_new` returns a valid empty buffer, or NULL.
abbrev pub NewResult : Run (Option Buffer) → Type 0
NewResult (ok none) = Unit
NewResult (ok (some b)) = IsValid b × (b.spare ≡ 0) × (b.used ≡ 0)
NewResult _ = ⊥

module _ {malloc : ℕ → Option Bytes} (heap : IsMalloc malloc) where
  -- With a malloc that hands out blocks of the length asked for, oddjob_buffer_new returns NULL
  -- or a valid buffer with no spare and no used bytes, whatever initial size is asked for.
  pub new-IsValid : (fits : Bool) (n : ℕ) → NewResult (new malloc fits n)
  unfolding new
  new-IsValid false n = tt
  new-IsValid true n =
      let size : ℕ = if ltb n 1024 then 1024 else n in
      elim (Option-cases (malloc size)) [
        | inl e ↦ rw (e, new) tt
        | inr (block, e) ↦
            let m = heap size block e in
            let big : 1024 ≤ size = ground arith in
            rw (e, new, store_within block 0 (0 ∷ []) (omega arith))
              (
                record {
                  block = omega (arith, length-splice block 0 (0 ∷ []));
                  fits = omega arith;
                  small = m.1;
                },
                refl,
                refl,
              )
      ]

pub consume-IsValid : (b : Buffer) (n : ℕ) → IsValid b → IsValid (consume b n)
unfolding consume
consume-IsValid b n v = ground arith

pub clear-IsValid : (b : Buffer) → IsValid b → IsValid (clear b)
unfolding clear
clear-IsValid b v = ground arith
