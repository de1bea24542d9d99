-- ===== src/PerfectHash/Bits/Counted.antt =====
-- CountValidSlot counts the values of a word that are not 3.
use protocache.Base.{
  ℕ, zero, suc, ◌+◌, ◌-◌, ◌/◌, ◌%◌, ◌^◌, ◌<◌, ◌≡◌, refl, ap, ◌∙◌, bit_and, bit_and_mask, arith,
  if◌then◌else◌, ltb,
}
use protocache.PerfectHash.Bits.{count_valid_slot}
use protocache.PerfectHash.Bits.Nibbles.{full, spread, spread_lem}
use protocache.PerfectHash.Bits.Halves.{full-le, low_halves, low_halves_lem}
use protocache.PerfectHash.Bits.Gather.{gather, gather_lem}

-- How many of the first `k` values of a number are not 3.
unfoldable pub valid_pairs : ℕ → ℕ → ℕ
valid_pairs zero v = 0
valid_pairs (suc k) v = (if ltb (v % 4) 3 then 1 else 0) + valid_pairs k (v / 4)

fulls : ℕ → ℕ → ℕ
fulls zero v = 0
fulls (suc k) v = full v + fulls k (v / 16)

twice : ℕ → ℕ
twice zero = 0
twice (suc k) = suc (suc (twice k))

valid_pairs-fulls : (k v : ℕ) → valid_pairs (twice k) v + fulls k v ≡ twice k
unfolding valid_pairs fulls twice
valid_pairs-fulls zero v = refl
valid_pairs-fulls (suc k) v =
    let e : v / 4 / 4 ≡ v / 16 = omega arith in
    let rest = valid_pairs-fulls k (v / 16) in rw e (ground (arith, rest))

-- The lines behind the first sum.
finish : ℕ → ℕ
finish v =
    let v = (v + v / 2 ^ 4) % 2 ^ 64 in
    let v = (v + v / 2 ^ 8) % 2 ^ 64 in
    let v = (bit_and v 0xf0f0f0f0f0f0f0f + bit_and (v / 2 ^ 16) 0xf0f0f0f0f0f0f0f) % 2 ^ 64 in
    let v = (v + v / 2 ^ 32) % 2 ^ 64 in (2 ^ 32 + 32 - bit_and v 0xff) % 2 ^ 32

finish-gather : (v : ℕ) → finish v ≡ gather v
unfolding finish gather
finish-gather v =
    let a = (v + v / 2 ^ 4) % 2 ^ 64 in
    let b = (a + a / 2 ^ 8) % 2 ^ 64 in
    let u = (low_halves 8 b + low_halves 8 (b / 2 ^ 16)) % 2 ^ 64 in
    rw
      (
        low_halves_lem 8 b,
        low_halves_lem 8 (b / 2 ^ 16),
        bit_and_mask 8 ((u + u / 2 ^ 32) % 2 ^ 64),
      )
      refl

spread-lt : (v : ℕ) → spread 16 v < 2 ^ 64
spread-lt v = omega (
  arith,
  full-le v,
  full-le (v / 16),
  full-le ((v / 16) / 16),
  full-le (((v / 16) / 16) / 16),
  full-le ((((v / 16) / 16) / 16) / 16),
  full-le (((((v / 16) / 16) / 16) / 16) / 16),
  full-le ((((((v / 16) / 16) / 16) / 16) / 16) / 16),
  full-le (((((((v / 16) / 16) / 16) / 16) / 16) / 16) / 16),
  full-le ((((((((v / 16) / 16) / 16) / 16) / 16) / 16) / 16) / 16),
  full-le (((((((((v / 16) / 16) / 16) / 16) / 16) / 16) / 16) / 16) / 16),
  full-le ((((((((((v / 16) / 16) / 16) / 16) / 16) / 16) / 16) / 16) / 16) / 16),
  full-le (((((((((((v / 16) / 16) / 16) / 16) / 16) / 16) / 16) / 16) / 16) / 16) / 16),
  full-le ((((((((((((v / 16) / 16) / 16) / 16) / 16) / 16) / 16) / 16) / 16) / 16) / 16) / 16),
  full-le
      (((((((((((((v / 16) / 16) / 16) / 16) / 16) / 16) / 16) / 16) / 16) / 16) / 16) / 16) / 16),
  full-le (
      (((((((((((((v / 16) / 16) / 16) / 16) / 16) / 16) / 16) / 16) / 16) / 16) / 16) / 16) / 16)
      / 16),
  full-le (
      ((((((((((((((v / 16) / 16) / 16) / 16) / 16) / 16) / 16) / 16) / 16) / 16) / 16) / 16) / 16)
        / 16)
      / 16),
)

gather-spread : (v : ℕ) → gather (spread 16 v) ≡ 32 - fulls 16 v
unfolding fulls
gather-spread v =
    let e =
      gather_lem (full v) (full (v / 16)) (full ((v / 16) / 16)) (full (((v / 16) / 16) / 16))
        (full ((((v / 16) / 16) / 16) / 16)) (full (((((v / 16) / 16) / 16) / 16) / 16))
        (full ((((((v / 16) / 16) / 16) / 16) / 16) / 16))
        (full (((((((v / 16) / 16) / 16) / 16) / 16) / 16) / 16))
        (full ((((((((v / 16) / 16) / 16) / 16) / 16) / 16) / 16) / 16))
        (full (((((((((v / 16) / 16) / 16) / 16) / 16) / 16) / 16) / 16) / 16))
        (full ((((((((((v / 16) / 16) / 16) / 16) / 16) / 16) / 16) / 16) / 16) / 16))
        (full (((((((((((v / 16) / 16) / 16) / 16) / 16) / 16) / 16) / 16) / 16) / 16) / 16))
        (full ((((((((((((v / 16) / 16) / 16) / 16) / 16) / 16) / 16) / 16) / 16) / 16) / 16) / 16))
        (full (
          ((((((((((((v / 16) / 16) / 16) / 16) / 16) / 16) / 16) / 16) / 16) / 16) / 16) / 16)
          / 16))
        (full (
          (((((((((((((v / 16) / 16) / 16) / 16) / 16) / 16) / 16) / 16) / 16) / 16) / 16) / 16)
            / 16)
          / 16))
        (full (
          ((((((((((((((v / 16) / 16) / 16) / 16) / 16) / 16) / 16) / 16) / 16) / 16) / 16) / 16)
              / 16)
            / 16)
          / 16))
        (full-le v) (full-le (v / 16)) (full-le ((v / 16) / 16)) (full-le (((v / 16) / 16) / 16))
        (full-le ((((v / 16) / 16) / 16) / 16)) (full-le (((((v / 16) / 16) / 16) / 16) / 16))
        (full-le ((((((v / 16) / 16) / 16) / 16) / 16) / 16))
        (full-le (((((((v / 16) / 16) / 16) / 16) / 16) / 16) / 16))
        (full-le ((((((((v / 16) / 16) / 16) / 16) / 16) / 16) / 16) / 16))
        (full-le (((((((((v / 16) / 16) / 16) / 16) / 16) / 16) / 16) / 16) / 16))
        (full-le ((((((((((v / 16) / 16) / 16) / 16) / 16) / 16) / 16) / 16) / 16) / 16))
        (full-le (((((((((((v / 16) / 16) / 16) / 16) / 16) / 16) / 16) / 16) / 16) / 16) / 16))
        (full-le
          ((((((((((((v / 16) / 16) / 16) / 16) / 16) / 16) / 16) / 16) / 16) / 16) / 16) / 16))
        (full-le (
          ((((((((((((v / 16) / 16) / 16) / 16) / 16) / 16) / 16) / 16) / 16) / 16) / 16) / 16)
          / 16))
        (full-le (
          (((((((((((((v / 16) / 16) / 16) / 16) / 16) / 16) / 16) / 16) / 16) / 16) / 16) / 16)
            / 16)
          / 16))
        (full-le (
          ((((((((((((((v / 16) / 16) / 16) / 16) / 16) / 16) / 16) / 16) / 16) / 16) / 16) / 16)
              / 16)
            / 16)
          / 16)) in
    ap gather (omega arith) ∙ e ∙ omega arith

-- Count_valid_slot gives the number of those among the thirty-two lowest two-bit values of a number that are
-- not 3.
pub count_valid_slot_lem : (v : ℕ) → count_valid_slot v ≡ valid_pairs 32 v
unfolding count_valid_slot finish twice
count_valid_slot_lem v =
    let w = bit_and v (v / 2) in
    let first : (bit_and w 0x1111111111111111 + bit_and (w / 2 ^ 2) 0x1111111111111111) % 2 ^ 64
        ≡ spread 16 v =
      omega (arith, spread_lem 16 v, spread-lt v) in
    ap finish first
    ∙ finish-gather (spread 16 v)
    ∙ gather-spread v
    ∙ omega (arith, valid_pairs-fulls 16 v)
