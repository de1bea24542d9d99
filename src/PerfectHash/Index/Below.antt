-- ===== src/PerfectHash/Index/Below.antt =====
-- How Locate counts in a block: the values from a place on are masked.
use protocache.Base.{
  ℕ, zero, suc, ◌+◌, ◌-◌, ◌*◌, ◌/◌, ◌%◌, ◌^◌, ◌<◌, ◌≡◌, refl, ap, ap₂, sym, ◌∙◌, max, bit_or,
  bit_or-digit, bit_or-zero, parts, agree_below, agree_below→eq, arith,
}
use native.Mathlib.Nat.{pow-suc, one-le-pow, div-add-mod', mod-lt, mul_comm, div-lt_iff_lt-mul}
use protocache.PerfectHash.Bits.{count_valid_slot}
use protocache.PerfectHash.Bits.Counted.{valid_pairs, count_valid_slot_lem}
use protocache.PerfectHash.Bits.Prefix.{valid_pairs-split, valid_pairs-low}
use protocache.PerfectHash.Index.{count_below}

bit_or_ones : (k y : ℕ) → y < 2 ^ k → bit_or y (2 ^ k - 1) ≡ 2 ^ k - 1
bit_or_ones zero y h = let e : y ≡ 0 = omega arith in rw e refl
bit_or_ones (suc k) y h =
    let half = pow-suc 2 k in
    let some_bit = one-le-pow k 2 (omega arith) in
    let e : (2 ^ suc k - 1) / 2 ≡ 2 ^ k - 1 = omega arith in
    let e' : (2 ^ suc k - 1) % 2 ≡ 1 = omega arith in
    let rest = bit_or_ones k (y / 2) (omega arith) in
    bit_or-digit y (2 ^ suc k - 1) ∙ rw (e, e', rest) (omega arith)

valid_pairs_ones : (k : ℕ) → valid_pairs k (4 ^ k - 1) ≡ 0
unfolding valid_pairs
valid_pairs_ones zero = refl
valid_pairs_ones (suc k) =
    let four = pow-suc 4 k in
    let some_bit = one-le-pow k 4 (omega arith) in
    let e : (4 ^ suc k - 1) / 4 ≡ 4 ^ k - 1 = omega arith in
    let e' : (4 ^ suc k - 1) % 4 ≡ 3 = omega arith in rw (e, e', valid_pairs_ones k) refl

mask_lem : (b : ℕ) → b < 32 → (2 ^ 64 - 1) * 2 ^ (b * 2) % 2 ^ 64 ≡ (4 ^ (32 - b) - 1) * 2 ^ (b * 2)
unfolding agree_below
mask_lem b h =
    agree_below→eq (λ b. (2 ^ 64 - 1) * 2 ^ (b * 2) % 2 ^ 64)
      (λ b. (4 ^ (32 - b) - 1) * 2 ^ (b * 2)) 32 refl b h

four_lem : (b : ℕ) → 2 ^ (b * 2) ≡ 4 ^ b
four_lem zero = refl
four_lem (suc b) =
    let e : suc b * 2 ≡ suc (suc (b * 2)) = omega arith in
    rw e (omega (arith, pow-suc 2 (suc (b * 2)), pow-suc 2 (b * 2), pow-suc 4 b, four_lem b))

split_word : (b v : ℕ) → b < 32 → v < 2 ^ 64 → v / 4 ^ b < 4 ^ (32 - b)
unfolding agree_below
split_word b v hb h =
    let whole : 4 ^ (32 - b) * 4 ^ b ≡ 4 ^ 32 =
      agree_below→eq (λ b. 4 ^ (32 - b) * 4 ^ b) (λ b. 4 ^ 32) 32 refl b hb in
    (div-lt_iff_lt-mul (one-le-pow b 4 (omega arith))).1 (omega (arith, whole))

-- What Locate counts in a block, before the place `b`.
pub count_below_lem : (v b : ℕ) → b < 32 → v < 2 ^ 64 → count_below v b ≡ valid_pairs b v
unfolding count_below
count_below_lem v b hb hv =
    let m = 4 ^ (32 - b) - 1 in
    let x = v % 4 ^ b in
    let y = v / 4 ^ b in
    let k = 32 - b in
    let some_bit = one-le-pow b 4 (omega arith) in
    let four = four_lem b in
    let x_lt : x < 4 ^ b = mod-lt v some_bit in
    let whole : v ≡ y * 4 ^ b + x = sym (div-add-mod' v (4 ^ b)) in
    let mask : (2 ^ 64 - 1) * 2 ^ (b * 2) % 2 ^ 64 ≡ m * 2 ^ (b * 2) + 0 =
      omega (arith, mask_lem b hb) in
    let cut =
      parts bit_or max bit_or-digit refl (b * 2) y m x 0 (omega (arith, x_lt, four))
        (omega (arith, some_bit, four)) in
    let ones : bit_or y m ≡ m =
      rw (← four_lem k) (bit_or_ones (k * 2) y (rw (four_lem k) (split_word b v hb hv))) in
    let masked : bit_or v ((2 ^ 64 - 1) * 2 ^ (b * 2) % 2 ^ 64) ≡ x + 4 ^ b * m =
      ap₂ bit_or (rw four whole) mask
      ∙ cut
      ∙ rw (ones, bit_or-zero x, four) (omega (arith, mul_comm m (4 ^ b))) in
    let all : b + k ≡ 32 = omega arith in
    let low : valid_pairs b x ≡ valid_pairs b v =
      sym (valid_pairs-low b x y) ∙ ap (valid_pairs b) (omega (arith, mul_comm y (4 ^ b), whole)) in
    ap count_valid_slot masked
    ∙ count_valid_slot_lem (x + 4 ^ b * m)
    ∙ ap (λ t. valid_pairs t (x + 4 ^ b * m)) (sym all)
    ∙ valid_pairs-split b k x m x_lt
    ∙ omega (arith, valid_pairs_ones k, low)
