-- ===== src/Util/Args/Quoting.antt =====
-- What quoting and escaping mean: words in single quotes come back as they are, and a backslash
-- protects nothing but a quote or a backslash.
use mathlib.Core.List.{append_assoc, append-nil}
use oddjob_gpupdate.Prelude.{
  ℕ, zero, suc, ◌+◌, ◌*◌, ◌^◌, ◌≤◌, ◌<◌, ◌≡◌, ◌≢◌, refl, ap, ◌∙◌, inl, inr, arith, List, [], ◌∷◌,
  ◌++◌, none, some, Bool, Bytes, NoNul, length, replicate, drop, length-append, ok, Returns,
  Returns-bind, Returns-map, Returns-ok,
}
use oddjob_gpupdate.Util.Memory.{Ample, argv_of}
use oddjob_gpupdate.Util.Args.{Scan, start, step, scan, check, parse_args, unfinished_escape}
use oddjob_gpupdate.Util.Args.Words.{tokens}
use oddjob_gpupdate.Util.Args.Total.{parse_args-scan}

-- A word that can stand in single quotes.
abbrev pub NoQuote : Bytes → Type 0
NoQuote [] = Unit
NoQuote (c ∷ cs) = (c ≢ b'\'') × NoQuote cs

abbrev pub AreQuotable : List Bytes → Type 0
AreQuotable [] = Unit
AreQuotable (w ∷ ws) = (w ≢ []) × NoNul w × NoQuote w × AreQuotable ws

-- A command line: each word in single quotes, and a space behind it.
abbrev pub render : List Bytes → Bytes
render [] = []
render (w ∷ ws) = b'\'' ∷ (w ++ (b'\'' ∷ b' ' ∷ render ws))

-- What `bigbuf` then holds.
abbrev flat : List Bytes → Bytes
flat [] = []
flat (w ∷ ws) = w ++ (0 ∷ flat ws)

abbrev plain : Bytes → Scan
plain out = record { sqlevel = 0; dqlevel = 0; escape = 0; out = out }

abbrev inside : Bytes → Scan
inside out = record { sqlevel = 1; dqlevel = 0; escape = 0; out = out }

module _ (size : ℕ) where
  step-inside :
      (out : Bytes) (c : ℕ)
      → c ≢ b'\''
      → length out < size
      → step size (inside out) c ≡ ok (inside (out ++ c ∷ []))
  unfolding step
  step-inside out c h l = ground arith

  scan-inside :
      (out w rest : Bytes)
      → NoQuote w
      → length out + length w ≤ size
      → scan size (inside out) (w ++ rest) ≡ scan size (inside (out ++ w)) rest
  unfolding scan
  scan-inside out [] rest h l = rw append-nil
  scan-inside out (c ∷ w) rest h l = rw (step-inside out c h.0 (omega arith)) (
      scan-inside (out ++ c ∷ []) w rest h.1 (omega (arith, length-append out (c ∷ [])))
      ∙ rw append_assoc)

  step-open : (out : Bytes) → step size (plain out) b'\'' ≡ ok (inside out)
  unfolding step
  step-open out = refl

  step-close : (out : Bytes) → step size (inside out) b'\'' ≡ ok (plain out)
  unfolding step
  step-close out = refl

  step-space :
      (out : Bytes) → length out < size → step size (plain out) b' ' ≡ ok (plain (out ++ 0 ∷ []))
  unfolding step
  step-space out h = ground arith

  scan-render :
      (out : Bytes) (ws : List Bytes)
      → AreQuotable ws
      → length out + length (render ws) ≤ size
      → scan size (plain out) (render ws) ≡ ok (plain (out ++ flat ws))
  unfolding scan
  scan-render out [] h l = rw append-nil
  scan-render out (w ∷ ws) h l =
      let n : length (w ++ (b'\'' ∷ b' ' ∷ render ws)) ≡ length w + (2 + length (render ws)) =
        omega (arith, length-append w (b'\'' ∷ b' ' ∷ render ws)) in
      let m : length (out ++ w) ≡ length out + length w = length-append out w in
      let k : length ((out ++ w) ++ 0 ∷ []) ≡ length (out ++ w) + 1 =
        length-append (out ++ w) (0 ∷ []) in
      scan-inside out w (b'\'' ∷ b' ' ∷ render ws) h.2 (omega arith)
      ∙ rw (step-space (out ++ w) (omega arith)) (
          scan-render ((out ++ w) ++ 0 ∷ []) ws h.3 (omega arith)
          ∙ rw (append_assoc (out ++ w) (0 ∷ []) (flat ws), append_assoc out w (0 ∷ flat ws)))

tokens-word :
    (u : ℕ) (us w rest : Bytes)
    → NoNul w
    → tokens (u ∷ us) (w ++ (0 ∷ rest)) ≡ (u ∷ (us ++ w)) ∷ tokens [] rest
unfolding tokens
tokens-word u us [] rest h = rw append-nil
tokens-word u us (zero ∷ w) rest h = absurd (h.0 refl)
tokens-word u us (suc c ∷ w) rest h = tokens-word u (us ++ suc c ∷ []) w rest h.1 ∙ rw append_assoc

tokens-flat :
    (ws : List Bytes) (rest : Bytes)
    → AreQuotable ws
    → tokens [] (flat ws ++ rest) ≡ ws ++ tokens [] rest
unfolding tokens
tokens-flat [] rest h = refl
tokens-flat ([] ∷ ws) rest h = absurd (h.0 refl)
tokens-flat ((zero ∷ w) ∷ ws) rest h = absurd (h.1.0 refl)
tokens-flat ((suc c ∷ w) ∷ ws) rest h = rw append_assoc (
    tokens-word (suc c) [] w (flat ws ++ rest) h.1.1
    ∙ ap (◌∷◌ (suc c ∷ w)) (tokens-flat ws rest h.3))

tokens-zeros : (n k : ℕ) → tokens [] (drop k (replicate n 0)) ≡ []
unfolding tokens
tokens-zeros zero zero = refl
tokens-zeros zero (suc k) = refl
tokens-zeros (suc n) zero = tokens-zeros n zero
tokens-zeros (suc n) (suc k) = tokens-zeros n k

length-flat : (ws : List Bytes) → length (flat ws) ≤ length (render ws)
length-flat [] = omega arith
length-flat (w ∷ ws) = omega (
  arith,
  length-append w (0 ∷ flat ws),
  length-append w (b'\'' ∷ b' ' ∷ render ws),
  length-flat ws,
)

check-plain : (out : Bytes) → check (plain out) ≡ none
unfolding check
check-plain out = refl

module _ (fits : ℕ → Bool) (ample : Ample fits) where
  -- With memory for every request, oddjob_parse_args of a command line that shows each word in
  -- single quotes with a space behind it gives an argument vector of exactly these words, for
  -- words that are not empty and hold no NUL and no single quote, and a command line whose
  -- length times 3 is below 2^64.
  pub parse_args-render :
      (ws : List Bytes)
      → AreQuotable ws
      → length (render ws) * 3 < 2 ^ 64
      → parse_args fits (render ws) ≡ ok (inr (argv_of ws))
  parse_args-render ws q h =
      let n = length (render ws) * 3 in
      parse_args-scan fits ample (render ws) (plain (flat ws)) h (length-flat ws)
        (scan-render n [] ws q (omega arith))
      ∙ rw (
        check-plain (flat ws),
        tokens-flat ws (drop (length (flat ws)) (replicate n 0)) q,
        tokens-zeros n (length (flat ws)),
        append-nil,
      )

-- Neither a quote nor a backslash.
abbrev pub IsOrdinary : Bytes → Type 0
IsOrdinary [] = Unit
IsOrdinary (c ∷ cs) = (c ≢ b'\\') × (c ≢ b'\'') × (c ≢ b'"') × IsOrdinary cs

-- No quote is open, the backslash is pending or not, and `n` bytes at most are written.
abbrev Unquoted : ℕ → ℕ → Scan → Type 0
Unquoted e n s = (s.sqlevel ≡ 0) × (s.dqlevel ≡ 0) × (s.escape ≡ e) × (length s.out ≤ n)

module _ (size e : ℕ) where
  step-Unquoted :
      (s : Scan) (c n : ℕ)
      → Unquoted e n s
      → n < size
      → c ≢ b'\\'
      → c ≢ b'\''
      → c ≢ b'"'
      → Returns (Unquoted e (n + 1)) (step size s c)
  unfolding step
  step-Unquoted s c n u l h1 h2 h3 =
      ground (arith, length-append s.out (c ∷ []), length-append s.out (0 ∷ []))

  scan-Unquoted :
      (s : Scan) (cs : Bytes) (n : ℕ)
      → Unquoted e n s
      → n + length cs ≤ size
      → IsOrdinary cs
      → Returns (Unquoted e (n + length cs)) (scan size s cs)
  unfolding scan
  scan-Unquoted s [] n u l o = (u.0, u.1, u.2, omega arith)
  scan-Unquoted s (c ∷ cs) n u l o =
      Returns-bind (Unquoted e (n + 1)) _ (step size s c) (λ t. scan size t cs)
        (step-Unquoted s c n u (omega arith) o.0 o.1 o.2)
        (λ t v.
          Returns-map (Unquoted e (n + 1 + length cs)) _ (scan size t cs)
            (scan-Unquoted t cs (n + 1) v (omega arith) o.3) (λ x y. (y.0, y.1, y.2, omega arith)))

module _ (size : ℕ) where
  step-escape : (s : Scan) (n : ℕ) → Unquoted 0 n s → Returns (Unquoted 1 n) (step size s b'\\')
  unfolding step
  step-escape s n u = ground arith

  scan-escape :
      (s : Scan) (pre post : Bytes) (n : ℕ)
      → Unquoted 0 n s
      → n + (length pre + length post) ≤ size
      → IsOrdinary pre
      → IsOrdinary post
      → Returns (Unquoted 1 (n + (length pre + length post))) (scan size s (pre ++ b'\\' ∷ post))
  unfolding scan
  scan-escape s [] post n u l o p =
      Returns-bind (Unquoted 1 n) _ (step size s b'\\') (λ t. scan size t post) (step-escape s n u)
        (λ t v.
          Returns-map (Unquoted 1 (n + length post)) _ (scan size t post)
            (scan-Unquoted size 1 t post n v (omega arith) p) (λ x y. (y.0, y.1, y.2, omega arith)))
  scan-escape s (c ∷ pre) post n u l o p =
      Returns-bind (Unquoted 0 (n + 1)) _ (step size s c) (λ t. scan size t (pre ++ b'\\' ∷ post))
        (step-Unquoted size 0 s c n u (omega arith) o.0 o.1 o.2)
        (λ t v.
          Returns-map (Unquoted 1 (n + 1 + (length pre + length post))) _
            (scan size t (pre ++ b'\\' ∷ post))
            (scan-escape t pre post (n + 1) v (omega arith) o.3 p)
            (λ x y. (y.0, y.1, y.2, omega arith)))

check-escaped : (s : Scan) (n : ℕ) → Unquoted 1 n s → check s ≡ some unfinished_escape
unfolding check
check-escaped s n u = ground arith

module _ (fits : ℕ → Bool) (ample : Ample fits) where
  -- With memory for every request, oddjob_parse_args of a command line with one backslash and no
  -- quotes, whose length times 3 is below 2^64, fails with the error for an unfinished escape,
  -- whatever character follows the backslash.
  pub parse_args_escape :
      (pre post : Bytes)
      → IsOrdinary pre
      → IsOrdinary post
      → length (pre ++ b'\\' ∷ post) * 3 < 2 ^ 64
      → parse_args fits (pre ++ b'\\' ∷ post) ≡ ok (inl unfinished_escape)
  parse_args_escape pre post o p h =
      let cmdline : Bytes = pre ++ b'\\' ∷ post in
      let n : length cmdline ≡ length pre + (1 + length post) =
        omega (arith, length-append pre (b'\\' ∷ post)) in
      let (s, e, u) =
        Returns-ok (Unquoted 1 (0 + (length pre + length post)))
          (scan (length cmdline * 3) start cmdline)
          (scan-escape (length cmdline * 3) start pre post 0 (refl, refl, refl, omega arith)
            (omega arith) o p) in
      parse_args-scan fits ample cmdline s h (omega arith) e ∙ rw (check-escaped s _ u)
