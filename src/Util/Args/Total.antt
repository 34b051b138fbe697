-- ===== src/Util/Args/Total.antt =====
-- `oddjob_parse_args` returns for every command line.
use oddjob_gpupdate.Prelude.{
  ℕ, zero, suc, ◌+◌, ◌*◌, ◌%◌, ◌^◌, ◌≤◌, ◌<◌, ◌≡◌, ◌≢◌, refl, inl, inr, arith, Bool, List, [], ◌∷◌,
  ◌++◌, Option, none, some, Bytes, NoNul, Option-cases, length, replicate, splice, store_within,
  length-replicate, ok, Returns, Returns-ok,
}
use oddjob_gpupdate.Util.Memory.{Ample, argv_of, oddjob_malloc, malloc0}
use oddjob_gpupdate.Util.Args.{Scan, ArgsError, ArgsResult, start, scan, check, parse_args}
use oddjob_gpupdate.Util.Args.Scanning.{Scanned, scan-Scanned}
use oddjob_gpupdate.Util.Args.Words.{tokens, split-tokens}

-- Each word is a C string that is not empty.
abbrev pub AreWords : List Bytes → Type 0
AreWords [] = Unit
AreWords (w ∷ ws) = (w ≢ []) × NoNul w × AreWords ws

NoNul-concat : (w : Bytes) (c : ℕ) → NoNul w → NoNul (w ++ suc c ∷ [])
NoNul-concat [] c h = omega arith
NoNul-concat (x ∷ w) c h = (h.0, NoNul-concat w c h.1)

pub tokens-AreWords : (w bs : Bytes) → NoNul w → AreWords (tokens w bs)
unfolding tokens
tokens-AreWords w [] h = tt
tokens-AreWords [] (zero ∷ bs) h = tokens-AreWords [] bs h
tokens-AreWords (c ∷ w) (zero ∷ bs) h = (ground arith, h, tokens-AreWords [] bs tt)
tokens-AreWords [] (suc c ∷ bs) h = tokens-AreWords (suc c ∷ []) bs (omega arith)
tokens-AreWords (w ∷ ws) (suc c ∷ bs) h =
    tokens-AreWords (w ∷ (ws ++ suc c ∷ [])) bs (h.0, NoNul-concat ws c h.1)

-- The caller gets an error, or a vector of words that ends with NULL.
abbrev pub Parsed : ArgsResult → Type 0
Parsed (inl e) = Unit
Parsed (inr argv) = (ws : List Bytes) × (argv ≡ argv_of ws) × AreWords ws

-- `bigbuf` behind the loop.
abbrev pub bigbuf_of : ℕ → Bytes → Bytes
bigbuf_of size out = splice (replicate size 0) 0 out

abbrev pub result_of : Option ArgsError → Bytes → ArgsResult
result_of (some e) bigbuf = inl e
result_of none bigbuf = inr (argv_of (tokens [] bigbuf))

result_of-Parsed : (e : Option ArgsError) (bigbuf : Bytes) → Parsed (result_of e bigbuf)
result_of-Parsed (some e) bigbuf = tt
result_of-Parsed none bigbuf = (tokens [] bigbuf, refl, tokens-AreWords [] bigbuf tt)

module _ (fits : ℕ → Bool) (ample : Ample fits) where
  -- The call once its loop is known.
  pub parse_args-scan :
      (cmdline : Bytes) (s : Scan)
      → length cmdline * 3 < 2 ^ 64
      → length s.out ≤ length cmdline
      → scan (length cmdline * 3) start cmdline ≡ ok s
      → parse_args fits cmdline ≡ ok (result_of (check s) (bigbuf_of (length cmdline * 3) s.out))
  unfolding parse_args malloc0 oddjob_malloc
  parse_args-scan cmdline s h l e =
      let n : length cmdline * 3 % 2 ^ 64 ≡ length cmdline * 3 = omega arith in
      let big : Bytes = bigbuf_of (length cmdline * 3) s.out in
      rw
        (
          n,
          ample (length cmdline * 3),
          e,
          store_within (replicate (length cmdline * 3) 0) 0 s.out
              (omega (arith, length-replicate {A = ℕ} (length cmdline * 3) 0)),
        )
        (elim (Option-cases (check s)) [
          | inl none_left ↦ rw none_left (rw (split-tokens fits ample big))
          | inr (x, left) ↦ rw left refl
        ])

  -- With memory for every request, oddjob_parse_args returns for every command line whose length
  -- times 3 is below 2^64, with no write outside bigbuf or the argument vector: an error, or a
  -- vector of C strings, none of them empty, that ends with NULL.
  pub parse_args-Parsed :
      (cmdline : Bytes) → length cmdline * 3 < 2 ^ 64 → Returns Parsed (parse_args fits cmdline)
  parse_args-Parsed cmdline h =
      let (s, e, q) =
        Returns-ok (Scanned (0 + length cmdline)) (scan (length cmdline * 3) start cmdline)
          (scan-Scanned (length cmdline * 3) start cmdline (omega arith) (omega arith)) in
      rw (parse_args-scan cmdline s h (omega arith) e) (result_of-Parsed (check s) _)
