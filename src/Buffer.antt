-- ===== src/Buffer.antt =====
-- src/buffer.c: `struct oddjob_buffer`, a byte string in a block of memory, with `spare` bytes in
-- front of the `used` ones and a terminating NUL behind them.
--
-- A pointer to bytes is the list of the bytes that can be read from there on. `malloc` is a
-- parameter: `malloc n` is what the C library answers in the call at hand, `none` for NULL, and
-- otherwise the bytes of the new block, whatever they hold. `size_t` is 64 bits wide.
pub mod Inv
pub mod Contents
pub mod Append
pub mod Prepend
pub mod Text
mod Tests
use oddjob_gpupdate.Prelude.{
  ℕ, zero, suc, ◌+◌, ◌-◌, ◌*◌, ◌/◌, ◌%◌, ◌^◌, Bool, true, false, List, [], ◌∷◌, Option, none, some,
  Bytes, ltb, ◌==◌, if◌then◌else◌, length, take, drop, get_elem?, Run, ok, exit, fault, ◌>>=◌,
  or_fault, store, load,
}

pub record Buffer : Type 0 where
  pub bytes : Bytes
  pub size : ℕ
  pub spare : ℕ
  pub used : ℕ

-- `size_t` addition, and `(size_t) -1`
abbrev pub add_size : ℕ → ℕ → ℕ
add_size a b = (a + b) % 2 ^ 64

abbrev pub minus_one : ℕ
minus_one = 2 ^ 64 - 1

-- `strlen`: `none` where no NUL stops it inside the object.
unfoldable pub strlen : Bytes → Option ℕ
strlen [] = none
strlen (c ∷ cs) = elim (c == 0) [
  | true ↦ some 0
  | false ↦ elim (strlen cs) [ none ↦ none | some n ↦ some (suc n) ]
]

-- the first lines of `oddjob_buffer_prepend` and `oddjob_buffer_append`
pub given_length : Bytes → ℕ → Run ℕ
unfolding strlen
given_length bytes length = if length == minus_one then or_fault (strlen bytes) else ok length

-- `(howmany(n, 1024) + 1) * 1024`
pub would_be_nice : ℕ → ℕ
would_be_nice n = add_size (add_size n 1023 / 1024) 1 * 1024 % 2 ^ 64

module _ (malloc : ℕ → Option Bytes) where
  -- The first argument says whether `malloc(sizeof(struct oddjob_buffer))` succeeds.
  pub new : Bool → ℕ → Run (Option Buffer)
  new struct_fits initial_size =
      let size : ℕ = if ltb initial_size 1024 then 1024 else initial_size in
      if struct_fits
      then elim (malloc size) [
        | none ↦ ok none
        | some block ↦ do
          bytes ← store block 0 (0 ∷ [])
          ok (some (record { bytes = bytes; size = size; spare = 0; used = 0 }))
      ]
      else ok none

  -- the body of the `if` in `oddjob_buffer_assure_avail`
  pub grow : Buffer → ℕ → Run Buffer
  grow b n = elim (malloc (would_be_nice n)) [
    | none ↦ exit 1
    | some block ↦ do
      old ← load b.bytes (add_size b.spare b.used)
      bytes ← store block 0 old
      ok (record b { bytes = bytes; size = would_be_nice n })
  ]

  pub assure_avail : Buffer → ℕ → Run Buffer
  assure_avail b minimum_size =
      let n = add_size (add_size b.spare b.used) minimum_size in
      if ltb b.size n then grow b n else ok b

  -- With room in front, `used` stays as it is.
  pub prepend_room : Buffer → Bytes → Run Buffer
  prepend_room b new_bytes = do
    bytes ← store b.bytes (b.spare - length new_bytes) new_bytes
    ok (record b { bytes = bytes; spare = b.spare - length new_bytes })

  -- Without, the used bytes move up, and the NUL behind them does not.
  pub prepend_shift : Buffer → Bytes → Run Buffer
  prepend_shift b new_bytes = do
    c ← assure_avail b (add_size (length new_bytes) 1)
    old ← load (drop c.spare c.bytes) c.used
    moved ← store c.bytes (add_size c.spare (length new_bytes)) old
    bytes ← store moved c.spare new_bytes
    ok (record c { bytes = bytes; used = add_size c.used (length new_bytes) })

  pub prepend : Buffer → Bytes → ℕ → Run Buffer
  prepend b src given = do
    n ← given_length src given
    new_bytes ← load src n
    (if ltb n b.spare then prepend_room b new_bytes else prepend_shift b new_bytes)

  pub append : Buffer → Bytes → ℕ → Run Buffer
  unfolding given_length
  append b src given = do
    n ← given_length src given
    c ← assure_avail b (add_size n 1)
    new_bytes ← load src n
    written ← store c.bytes (add_size c.spare c.used) new_bytes
    let used = add_size c.used n
    bytes ← store written (add_size c.spare used) (0 ∷ [])
    ok (record c { bytes = bytes; used = used })

unfoldable pub consume : Buffer → ℕ → Buffer
consume b length =
    if ltb length b.used
    then record b { spare = add_size b.spare length; used = b.used - length }
    else record b { used = 0 }

unfoldable pub clear : Buffer → Buffer
clear b = record b { used = 0 }

-- `oddjob_buffer_free`: what the structure holds when it is given back itself.
unfoldable pub buffer_free : Buffer → Buffer
buffer_free b = record { bytes = []; size = 0; spare = 0; used = 0 }

-- `oddjob_buffer_length`
unfoldable pub buffer_length : Buffer → ℕ
buffer_length b = b.used

-- `oddjob_buffer_data`: the pointer into the block.
unfoldable pub data_at : Buffer → Bytes
data_at b = drop b.spare b.bytes
