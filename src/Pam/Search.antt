-- ===== src/Pam/Search.antt =====
-- The search for the account ends.
use oddjob_gpupdate.Prelude.{
  ℕ, zero, suc, ◌+◌, ◌*◌, ◌%◌, ◌^◌, ◌≤◌, ◌<◌, ◌≡◌, refl, ◌∙◌, ap, arith, inl, inr, Bool-cases,
  Option, none, some, Bytes, ltb, ok, not-ltb→le,
}
use oddjob_gpupdate.Util.Memory.{Ample}
use oddjob_gpupdate.Pam.{Lookup, erange, absent, present, Passwd, Pam, look_up}

abbrev pub answer_of : Option Passwd → Lookup
answer_of none = absent
answer_of (some pw) = present pw

-- `getpwnam_r` wants this much room for its answer about a user.
pub record Needs (pam : Pam) (user : Bytes) (need : ℕ) (entry : Option Passwd) : Type 0 where
  pub small : need < 2 ^ 63
  pub short : (n : ℕ) → n < need → pam.getpwnam_r user n ≡ erange
  pub enough : (n : ℕ) → need ≤ n → pam.getpwnam_r user n ≡ answer_of entry

module _ (pam : Pam) (user : Bytes) (ample : Ample pam.fits) where
  look_up-enough :
      (bufsize fuel : ℕ) (entry : Option Passwd)
      → pam.getpwnam_r user bufsize ≡ answer_of entry
      → look_up pam (suc fuel) user bufsize ≡ ok entry
  unfolding look_up
  look_up-enough bufsize fuel none e = rw (ample bufsize) (rw e refl)
  look_up-enough bufsize fuel (some pw) e = rw (ample bufsize) (rw e refl)

  look_up-short :
      (bufsize fuel : ℕ)
      → pam.getpwnam_r user bufsize ≡ erange
      → look_up pam (suc fuel) user bufsize ≡ look_up pam fuel user ((bufsize + 4) % 2 ^ 64)
  unfolding look_up
  look_up-short bufsize fuel e = rw (ample bufsize) (rw e refl)

  -- With memory for every request, where getpwnam_r reports ERANGE for exactly the buffers
  -- shorter than some length below 2^63, and for all others the same entry, or none, the search
  -- that starts with a buffer of any length below 2^64 - 4 ends with this answer, in one round
  -- and one more for each 4 bytes missing.
  pub look_up-Needs :
      (need bufsize fuel : ℕ) (entry : Option Passwd)
      → Needs pam user need entry
      → bufsize + 4 < 2 ^ 64
      → need ≤ bufsize + 4 * fuel
      → look_up pam (suc fuel) user bufsize ≡ ok entry
  look_up-Needs need bufsize zero entry n b h =
      look_up-enough bufsize 0 entry (n.enough bufsize (omega arith))
  look_up-Needs need bufsize (suc fuel) entry n b h = elim (Bool-cases (ltb bufsize need)) [
    | inr t ↦ look_up-enough bufsize (suc fuel) entry (n.enough bufsize (not-ltb→le bufsize need t))
    | inl t ↦
        let lt : bufsize < need = ground arith in
        let m = n.small in
        let next : (bufsize + 4) % 2 ^ 64 ≡ bufsize + 4 = omega arith in
        look_up-short bufsize (suc fuel) (n.short bufsize lt)
        ∙ ap (look_up pam (suc fuel) user) next
        ∙ look_up-Needs need (bufsize + 4) fuel entry n (omega arith) (omega arith)
  ]
