-- ===== src/Hash.antt =====
-- The hash functions of src/hash.cc: Hash128, a SpookyHash of short messages.
pub mod Tail
pub mod Digest
pub mod Range
pub mod Random
mod Tests
use protocache.Base.{
  ℕ, zero, suc, ◌+◌, ◌-◌, ◌*◌, ◌/◌, ◌%◌, ◌^◌, ◌==◌, leb, ltb, bit_and, bit_or, bit_xor,
  if◌then◌else◌, List, [], ◌∷◌, drop, load, Run, done, access, ◌>>=◌,
}

-- The four words of a running hash.
pub record State : Type 0 where
  pub a : ℕ
  pub b : ℕ
  pub c : ℕ
  pub d : ℕ

-- `+=` on `uint64_t`
abbrev pub add64 : ℕ → ℕ → ℕ
add64 x y = (x + y) % 2 ^ 64

unfoldable pub rot64 : ℕ → ℕ → ℕ
rot64 x k = bit_or (x * 2 ^ k % 2 ^ 64) (x / 2 ^ (64 - k))

-- `Mix`
unfoldable pub mix : State → State
mix s =
    let h0 = s.a in
    let h1 = s.b in
    let h2 = s.c in
    let h3 = s.d in
    let h2 = rot64 h2 50 in
    let h2 = add64 h2 h3 in
    let h0 = bit_xor h0 h2 in
    let h3 = rot64 h3 52 in
    let h3 = add64 h3 h0 in
    let h1 = bit_xor h1 h3 in
    let h0 = rot64 h0 30 in
    let h0 = add64 h0 h1 in
    let h2 = bit_xor h2 h0 in
    let h1 = rot64 h1 41 in
    let h1 = add64 h1 h2 in
    let h3 = bit_xor h3 h1 in
    let h2 = rot64 h2 54 in
    let h2 = add64 h2 h3 in
    let h0 = bit_xor h0 h2 in
    let h3 = rot64 h3 48 in
    let h3 = add64 h3 h0 in
    let h1 = bit_xor h1 h3 in
    let h0 = rot64 h0 38 in
    let h0 = add64 h0 h1 in
    let h2 = bit_xor h2 h0 in
    let h1 = rot64 h1 37 in
    let h1 = add64 h1 h2 in
    let h3 = bit_xor h3 h1 in
    let h2 = rot64 h2 62 in
    let h2 = add64 h2 h3 in
    let h0 = bit_xor h0 h2 in
    let h3 = rot64 h3 34 in
    let h3 = add64 h3 h0 in
    let h1 = bit_xor h1 h3 in
    let h0 = rot64 h0 5 in
    let h0 = add64 h0 h1 in
    let h2 = bit_xor h2 h0 in
    let h1 = rot64 h1 36 in
    let h1 = add64 h1 h2 in let h3 = bit_xor h3 h1 in record { a = h0; b = h1; c = h2; d = h3 }

-- `End`
unfoldable pub end : State → State
end s =
    let h0 = s.a in
    let h1 = s.b in
    let h2 = s.c in
    let h3 = s.d in
    let h3 = bit_xor h3 h2 in
    let h2 = rot64 h2 15 in
    let h3 = add64 h3 h2 in
    let h0 = bit_xor h0 h3 in
    let h3 = rot64 h3 52 in
    let h0 = add64 h0 h3 in
    let h1 = bit_xor h1 h0 in
    let h0 = rot64 h0 26 in
    let h1 = add64 h1 h0 in
    let h2 = bit_xor h2 h1 in
    let h1 = rot64 h1 51 in
    let h2 = add64 h2 h1 in
    let h3 = bit_xor h3 h2 in
    let h2 = rot64 h2 28 in
    let h3 = add64 h3 h2 in
    let h0 = bit_xor h0 h3 in
    let h3 = rot64 h3 9 in
    let h0 = add64 h0 h3 in
    let h1 = bit_xor h1 h0 in
    let h0 = rot64 h0 47 in
    let h1 = add64 h1 h0 in
    let h2 = bit_xor h2 h1 in
    let h1 = rot64 h1 54 in
    let h2 = add64 h2 h1 in
    let h3 = bit_xor h3 h2 in
    let h2 = rot64 h2 32 in
    let h3 = add64 h3 h2 in
    let h0 = bit_xor h0 h3 in
    let h3 = rot64 h3 25 in
    let h0 = add64 h0 h3 in
    let h1 = bit_xor h1 h0 in
    let h0 = rot64 h0 63 in let h1 = add64 h1 h0 in record { a = h0; b = h1; c = h2; d = h3 }

abbrev pub magic : ℕ
magic = 0xdeadbeefdeadbeef

-- The number whose bytes, from the lowest on, are these.
unfoldable pub little_endian : List ℕ → ℕ
little_endian [] = 0
little_endian (x ∷ xs) = x + 256 * little_endian xs

-- A load of `n` bytes that lie `off` behind `msg`.
unfoldable pub load_le : ℕ → ℕ → List ℕ → Run ℕ
load_le n off msg = do bs ← access (load n (drop off msg)); done (little_endian bs)

-- The first half of a block: `c += x[0]; d += x[1]; Mix(a, b, c, d)`.
unfoldable pub half_block : List ℕ → State → Run State
half_block msg s = do
  x ← load_le 8 0 msg
  y ← load_le 8 8 msg
  done (mix (record s { c = add64 s.c x; d = add64 s.d y }))

-- The loop over `n` blocks of 32 bytes, with the pointer behind them.
unfoldable pub blocks : ℕ → List ℕ → State → Run (List ℕ × State)
blocks zero msg s = done (msg, s)
blocks (suc n) msg s = do
  s ← half_block msg s
  x ← load_le 8 16 msg
  y ← load_le 8 24 msg
  blocks n (drop 32 msg) (record s { a = add64 s.a x; b = add64 s.b y })

-- The cases of the switch that fall through: `v += msg[base + k - 1] << (8 * (shift + k - 1))` down to
-- `v += msg[base] << (8 * shift)`.
unfoldable pub fall_through : ℕ → ℕ → ℕ → List ℕ → ℕ → Run ℕ
fall_through zero base shift msg v = done v
fall_through (suc k) base shift msg v = do
  x ← load_le 1 (base + k) msg
  fall_through k base shift msg (add64 v (x * 2 ^ (8 * (shift + k)) % 2 ^ 64))

-- `switch (len & 0xfU)`, for `r` bytes at `msg`.
unfoldable pub tail : ℕ → List ℕ → State → Run State
tail r msg s =
    let twelve = (do
      d ← fall_through (r - 12) 12 4 msg s.d
      y ← load_le 4 8 msg
      x ← load_le 8 0 msg
      done (record s { c = add64 s.c x; d = add64 d y })) in
    let eight = (do
      d ← fall_through (r - 8) 8 0 msg s.d
      x ← load_le 8 0 msg
      done (record s { c = add64 s.c x; d = d })) in
    let four = (do
      c ← fall_through (r - 4) 4 4 msg s.c
      x ← load_le 4 0 msg
      done (record s { c = add64 c x })) in
    let short = (do c ← fall_through r 0 0 msg s.c; done (record s { c = c })) in
    if leb 12 r
    then twelve
    else if leb 8 r
    then eight
    else if leb 4 r
    then four
    else if r == 0
    then done (record s { c = add64 s.c magic; d = add64 s.d magic })
    else short

-- `Hash128(msg, len, seed)`: the two words of the result.
unfoldable pub hash128 : List ℕ → ℕ → ℕ → Run (ℕ × ℕ)
hash128 msg len seed = do
  (msg, s) ← blocks (len / 32) msg (record { a = seed; b = seed; c = magic; d = magic })
  (msg, s) ←
      (if bit_and len 0x10 == 0
        then done (msg, s)
        else do s ← half_block msg s; done (drop 16 msg, s))
  s ← tail (bit_and len 0xf) msg (record s { d = add64 s.d (len * 2 ^ 56 % 2 ^ 64) })
  let s' = end s
  done (s'.a, s'.b)
