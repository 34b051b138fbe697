-- ===== src/Mainloop/Time.antt =====
-- The times of `prepare`: a `struct timeval` for `select`, and intervals in milliseconds.
use oddjob_gpupdate.Prelude.{
  ℕ, ◌+◌, ◌*◌, ◌/◌, ◌%◌, ◌^◌, ◌<◌, ◌≡◌, arith, ℤ, pos, negsuc, neg, sub_ℕ, to_int,
}

pub record Timeval : Type 0 where
  pub tv_sec : ℤ
  pub tv_usec : ℤ

abbrev pub zero_time : Timeval
zero_time = record { tv_sec = pos 0; tv_usec = pos 0 }

-- C's division rounds to 0, and the remainder has the sign of the dividend.
abbrev pub quot : ℤ → ℕ → ℤ
quot (pos n) d = pos (n / d)
quot (negsuc n) d = neg ((n + 1) / d)

abbrev pub rem : ℤ → ℕ → ℤ
rem (pos n) d = pos (n % d)
rem (negsuc n) d = neg ((n + 1) % d)

abbrev pub scale : ℤ → ℕ → ℤ
scale (pos n) k = pos (n * k)
scale (negsuc n) k = neg ((n + 1) * k)

abbrev pub plus : ℤ → ℤ → ℤ
plus (pos a) (pos b) = pos (a + b)
plus (pos a) (negsuc b) = sub_ℕ a (b + 1)
plus (negsuc a) (pos b) = sub_ℕ b (a + 1)
plus (negsuc a) (negsuc b) = negsuc (a + b + 1)

-- `tv->tv_sec = t / 1000; tv->tv_usec = (t % 1000) * 1000`
unfoldable pub timeval_of : ℤ → Timeval
timeval_of t = record { tv_sec = quot t 1000; tv_usec = scale (rem t 1000) 1000 }

-- `tv->tv_sec * 1000 + tv->tv_usec / 1000`, as an `int`
unfoldable pub current_interval : Timeval → ℤ
current_interval tv = to_int (plus (scale tv.tv_sec 1000) (quot tv.tv_usec 1000))

-- The interval of a timeout, less the whole seconds since it was added, as an `int`.
unfoldable pub this_interval : ℕ → ℕ → ℕ → ℤ
this_interval interval start now = to_int (sub_ℕ (interval + 1000 * start) (1000 * now))

-- An `int`.
abbrev pub IsInt : ℤ → Type 0
IsInt (pos n) = n < 2 ^ 31
IsInt (negsuc n) = n < 2 ^ 31

pub to_int_lem : (i : ℤ) → IsInt i → to_int i ≡ i
to_int_lem (pos n) h = ground arith
to_int_lem (negsuc n) h = ground arith

plus_parts :
    (n : ℕ)
    → plus (scale (neg ((n + 1) / 1000)) 1000) (quot (scale (neg ((n + 1) % 1000)) 1000) 1000)
      ≡ negsuc n
plus_parts n = ground arith

-- A time for `select` keeps its milliseconds.
pub current_interval-timeval_of : (i : ℤ) → IsInt i → current_interval (timeval_of i) ≡ i
unfolding current_interval timeval_of
current_interval-timeval_of (pos n) h =
    let e : n / 1000 * 1000 + n % 1000 * 1000 / 1000 ≡ n = omega arith in
    rw e (to_int_lem (pos n) h)
current_interval-timeval_of (negsuc n) h = rw (plus_parts n) (to_int_lem (negsuc n) h)
