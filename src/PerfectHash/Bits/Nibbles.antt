-- ===== src/PerfectHash/Bits/Nibbles.antt =====
-- The first step of CountValidSlot: how many values of each half byte are 3.
use protocache.Base.{
  ℕ, zero, suc, ◌+◌, ◌*◌, ◌/◌, ◌%◌, ◌^◌, ◌≡◌, refl, ap, ap₂, sym, ◌∙◌, min, bit_and, bit_and-digit,
  bit_and_mask, bit_and-zero, parts, ltb, if◌then◌else◌, arith,
}

bit_and-half : (x y : ℕ) → bit_and x y / 2 ≡ bit_and (x / 2) (y / 2)
bit_and-half x y = omega (arith, bit_and-digit x y)

quarter : (x : ℕ) → x / 2 / 2 ≡ x / 4
quarter x = omega arith

sixteenth : (x : ℕ) → x / 4 / 4 ≡ x / 16
sixteenth x = omega arith

bit_and-quarter : (x y : ℕ) → bit_and x y / 4 ≡ bit_and (x / 4) (y / 4)
bit_and-quarter x y =
    sym (quarter (bit_and x y))
    ∙ rw (bit_and-half x y, bit_and-half (x / 2) (y / 2), quarter x, quarter y) refl

bit_and-sixteenth : (x y : ℕ) → bit_and x y / 16 ≡ bit_and (x / 16) (y / 16)
bit_and-sixteenth x y =
    sym (sixteenth (bit_and x y))
    ∙ rw (bit_and-quarter x y, bit_and-quarter (x / 4) (y / 4), sixteenth x, sixteenth y) refl

-- `0x1…1` and `0x0f…0f`
abbrev pub ones : ℕ → ℕ
ones zero = 0
ones (suc k) = 1 + 16 * ones k

abbrev pub fifteens : ℕ → ℕ
fifteens zero = 0
fifteens (suc k) = 15 + 256 * fifteens k

pub bit_and-ones : (k x : ℕ) → bit_and x (ones (suc k)) ≡ x % 2 + 16 * bit_and (x / 16) (ones k)
bit_and-ones k x =
    let e : x ≡ x / 16 * 2 ^ 4 + x % 16 = omega arith in
    let e' : ones (suc k) ≡ ones k * 2 ^ 4 + 1 = omega arith in
    let cut =
      parts bit_and min bit_and-digit refl 4 (x / 16) (ones k) (x % 16) 1 (omega arith)
        (omega arith) in
    ap₂ bit_and e e' ∙ cut ∙ omega (arith, bit_and_mask 1 (x % 16))

pub bit_and-fifteens :
    (k x : ℕ) → bit_and x (fifteens (suc k)) ≡ x % 16 + 256 * bit_and (x / 256) (fifteens k)
bit_and-fifteens k x =
    let e : x ≡ x / 256 * 2 ^ 8 + x % 256 = omega arith in
    let e' : fifteens (suc k) ≡ fifteens k * 2 ^ 8 + 15 = omega arith in
    let cut =
      parts bit_and min bit_and-digit refl 8 (x / 256) (fifteens k) (x % 256) 15 (omega arith)
        (omega arith) in
    ap₂ bit_and e e' ∙ cut ∙ omega (arith, bit_and_mask 4 (x % 256))

-- How many of the two values of a half byte are 3.
abbrev pub full : ℕ → ℕ
full x = (if ltb (x % 4) 3 then 0 else 1) + (if ltb (x / 4 % 4) 3 then 0 else 1)

-- The half bytes of a number, each with its count.
abbrev pub spread : ℕ → ℕ → ℕ
spread zero v = 0
spread (suc k) v = full v + 16 * spread k (v / 16)

both_bits : (v : ℕ) → bit_and v (v / 2) % 2 ≡ (if ltb (v % 4) 3 then 0 else 1)
both_bits v = ground (arith, bit_and-digit v (v / 2))

pub spread_lem :
    (k v : ℕ)
    → bit_and (bit_and v (v / 2)) (ones k) + bit_and (bit_and v (v / 2) / 4) (ones k) ≡ spread k v
spread_lem zero v = rw (bit_and-zero (bit_and v (v / 2)), bit_and-zero (bit_and v (v / 2) / 4)) refl
spread_lem (suc k) v =
    let w = bit_and v (v / 2) in
    let rest = spread_lem k (v / 16) in
    let high : w / 16 ≡ bit_and (v / 16) (v / 16 / 2) =
      bit_and-sixteenth v (v / 2) ∙ ap (bit_and (v / 16)) (omega arith) in
    let high' : w / 4 / 16 ≡ bit_and (v / 16) (v / 16 / 2) / 4 = omega (arith, high) in
    let low : w % 2 ≡ (if ltb (v % 4) 3 then 0 else 1) = both_bits v in
    let next : w / 4 ≡ bit_and (v / 4) (v / 4 / 2) =
      bit_and-quarter v (v / 2) ∙ ap (bit_and (v / 4)) (omega arith) in
    let low' : w / 4 % 2 ≡ (if ltb (v / 4 % 4) 3 then 0 else 1) =
      ap (λ t. t % 2) next ∙ both_bits (v / 4) in
    rw (bit_and-ones k w, bit_and-ones k (w / 4), low, low', high, high') (omega (arith, rest))
