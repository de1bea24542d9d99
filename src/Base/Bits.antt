-- ===== src/Base/Bits.antt =====
-- `&`, `|` and `^` as arithmetic: an operation on binary digits treats the high and the low part of its
-- arguments apart, hence the laws of masks, shifts and disjoint fields.
use Prim.Native.Nat.{
  ℕ, zero, suc, ◌+◌, ◌-◌, ◌*◌, ◌/◌, ◌%◌, ◌^◌, ◌≤◌, ◌<◌, min, max, bit_and, bit_or, digits, bitwise,
  bit_and-bitwise, bit_or-bitwise,
}
use mathlib.Core.Path.{◌≡◌, refl, ap, ◌∙◌}
use mathlib.Core.Bool.{Bool, true, ◌&&◌}
use mathlib.Core.List.{List, [], ◌∷◌}
use native.Mathlib.Omega.{arith}
use native.Mathlib.Nat.{pow-suc, one-le-pow, le_refl, div-add-mod', mod-lt}
use protocache.Base.Tests.{◌==◌}

-- More fuel than the first number changes nothing in the digit recursion.
module _ (z : ℕ → ℕ) (f : ℕ → ℕ → ℕ) where
  one_more : (n x y : ℕ) → x ≤ n → digits z f (suc n) x y ≡ digits z f n x y
  one_more zero (suc x) y h = absurd (omega arith)
  one_more zero zero y h = refl
  one_more (suc n) zero y h = refl
  one_more (suc n) (suc x) y h =
      ap (λ (t : ℕ). t * 2 + f (suc x % 2) (y % 2)) (one_more n (suc x / 2) (y / 2) (omega arith))

  any_more : (k n m x y : ℕ) → x ≤ n → m ≡ k + n → digits z f m x y ≡ digits z f n x y
  any_more zero n m x y h e = let same : m ≡ n = omega arith in rw same
  any_more (suc k) n zero x y h e = absurd (omega arith)
  any_more (suc k) n (suc m) x y h e =
      one_more m x y (omega arith) ∙ any_more k n m x y h (omega arith)

  lowest :
      (x y : ℕ)
      → bitwise z f (suc x) y ≡ bitwise z f (suc x / 2) (y / 2) * 2 + f (suc x % 2) (y % 2)
  lowest x y =
      let half = suc x / 2 in
      omega (arith, any_more (x - half) half x half (y / 2) (le_refl half) (omega arith))

pub bit_and-digit : (x y : ℕ) → bit_and x y ≡ bit_and (x / 2) (y / 2) * 2 + min (x % 2) (y % 2)
bit_and-digit (suc x) y = simp bit_and-bitwise (lowest (λ _. 0) min x y)
bit_and-digit zero y = simp bit_and-bitwise (omega arith)

pub bit_or-digit : (x y : ℕ) → bit_or x y ≡ bit_or (x / 2) (y / 2) * 2 + max (x % 2) (y % 2)
bit_or-digit (suc x) y = simp bit_or-bitwise (lowest (λ b. b) max x y)
bit_or-digit zero y = simp bit_or-bitwise (omega arith)

two_pow_suc : (q k : ℕ) → q * 2 ^ suc k ≡ 2 * (q * 2 ^ k)
two_pow_suc q k = omega (arith, ap (λ (t : ℕ). q * t) (pow-suc 2 k))

-- Any operation `g` that goes digit by digit.
module _ (g d : ℕ → ℕ → ℕ) (law : (x y : ℕ) → g x y ≡ g (x / 2) (y / 2) * 2 + d (x % 2) (y % 2))
    (none : g 0 0 ≡ 0) where
  pub parts :
      (k x y r s : ℕ)
      → r < 2 ^ k
      → s < 2 ^ k
      → g (x * 2 ^ k + r) (y * 2 ^ k + s) ≡ g x y * 2 ^ k + g r s
  parts zero x y r s hr hs =
      let er : r ≡ 0 = omega arith in
      let es : s ≡ 0 = omega arith in
      let ex : x * 2 ^ 0 + 0 ≡ x = omega arith in
      let ey : y * 2 ^ 0 + 0 ≡ y = omega arith in rw (er, es, ex, ey) (omega (arith, none))
  parts (suc k) x y r s hr hs =
      let half = pow-suc 2 k in
      let ex : (x * 2 ^ suc k + r) / 2 ≡ x * 2 ^ k + r / 2 = omega (arith, two_pow_suc x k) in
      let ey : (y * 2 ^ suc k + s) / 2 ≡ y * 2 ^ k + s / 2 = omega (arith, two_pow_suc y k) in
      let lx : (x * 2 ^ suc k + r) % 2 ≡ r % 2 = omega (arith, two_pow_suc x k) in
      let ly : (y * 2 ^ suc k + s) % 2 ≡ s % 2 = omega (arith, two_pow_suc y k) in
      law (x * 2 ^ suc k + r) (y * 2 ^ suc k + s)
      ∙ rw (ex, ey, lx, ly)
          (omega (
            arith,
            law r s,
            two_pow_suc (g x y) k,
            parts k x y (r / 2) (s / 2) (omega (arith, half)) (omega (arith, half)),
          ))

-- The operations at 0.
bit_and-zero_upto : (n x : ℕ) → x ≤ n → bit_and x 0 ≡ 0
bit_and-zero_upto n zero h = refl
bit_and-zero_upto (suc n) (suc x) h =
    omega (arith, bit_and-zero_upto n (suc x / 2) (omega arith), bit_and-digit (suc x) 0)
bit_and-zero_upto zero (suc x) h = absurd (omega arith)

bit_or-zero_upto : (n x : ℕ) → x ≤ n → bit_or x 0 ≡ x
bit_or-zero_upto n zero h = refl
bit_or-zero_upto (suc n) (suc x) h =
    omega (arith, bit_or-zero_upto n (suc x / 2) (omega arith), bit_or-digit (suc x) 0)
bit_or-zero_upto zero (suc x) h = absurd (omega arith)

pub bit_and-zero : (x : ℕ) → bit_and x 0 ≡ 0
bit_and-zero x = bit_and-zero_upto x x (le_refl x)

pub bit_or-zero : (x : ℕ) → bit_or x 0 ≡ x
bit_or-zero x = bit_or-zero_upto x x (le_refl x)

pub zero-bit_or : (x : ℕ) → bit_or 0 x ≡ x
zero-bit_or x = bit_or-bitwise 0 x

pub zero-bit_and : (x : ℕ) → bit_and 0 x ≡ 0
zero-bit_and x = bit_and-bitwise 0 x

low_part : (k r : ℕ) → 0 * 2 ^ k + r ≡ r
low_part k r = omega arith

high_part : (k q : ℕ) → q * 2 ^ k + 0 ≡ q * 2 ^ k
high_part k q = omega arith

-- `r | (q << k)` is a sum when `r` fits `k` bits.
pub bit_or_high : (k q r : ℕ) → r < 2 ^ k → bit_or r (q * 2 ^ k) ≡ r + q * 2 ^ k
bit_or_high k q r h =
    let whole = parts bit_or max bit_or-digit refl k 0 q r 0 h (omega arith) in
    let parts' = rw (low_part k r, high_part k q) at whole in
    parts' ∙ rw (zero-bit_or, bit_or-zero) (omega arith)

-- `(q << k) | r`, the other way round.
pub bit_or_low : (k q r : ℕ) → r < 2 ^ k → bit_or (q * 2 ^ k) r ≡ q * 2 ^ k + r
bit_or_low k q r h =
    let whole = parts bit_or max bit_or-digit refl k q 0 0 r (omega arith) h in
    let parts' = rw (low_part k r, high_part k q) at whole in parts' ∙ rw (bit_or-zero, zero-bit_or)

all_ones : (k r : ℕ) → r < 2 ^ k → bit_and r (2 ^ k - 1) ≡ r
all_ones zero r h = let e : r ≡ 0 = omega arith in rw e
all_ones (suc k) r h =
    let half = pow-suc 2 k in
    let e : (2 ^ suc k - 1) / 2 ≡ 2 ^ k - 1 = omega arith in
    let odd : (2 ^ suc k - 1) % 2 ≡ 1 = omega (arith, one-le-pow k 2) in
    bit_and-digit r (2 ^ suc k - 1) ∙ rw (e, odd, all_ones k (r / 2) (omega arith)) (omega arith)

-- A mask of `k` low ones is the remainder by `2 ^ k`.
pub bit_and_mask : (k x : ℕ) → bit_and x (2 ^ k - 1) ≡ x % 2 ^ k
bit_and_mask k x =
    let pos = one-le-pow k 2 (omega arith) in
    let r = x % 2 ^ k in
    let small : r < 2 ^ k = mod-lt x pos in
    let whole =
      parts bit_and min bit_and-digit refl k (x / 2 ^ k) 0 r (2 ^ k - 1) small (omega arith) in
    let parts' = rw (low_part k (2 ^ k - 1), div-add-mod' x (2 ^ k)) at whole in
    parts' ∙ rw (bit_and-zero, all_ones k r small) (omega arith)

-- A mask of ones from bit `k` on keeps the quotient's bits.
pub bit_and_shift : (k m x : ℕ) → bit_and x (m * 2 ^ k) ≡ bit_and (x / 2 ^ k) m * 2 ^ k
bit_and_shift k m x =
    let pos = one-le-pow k 2 (omega arith) in
    let whole =
      parts bit_and min bit_and-digit refl k (x / 2 ^ k) m (x % 2 ^ k) 0 (mod-lt x pos) pos in
    let parts' = rw (high_part k m, div-add-mod' x (2 ^ k)) at whole in
    parts' ∙ rw bit_and-zero (omega arith)

-- Over a small range, check every value by evaluation.
unfoldable pub agree_below : (ℕ → ℕ) → (ℕ → ℕ) → ℕ → Bool
agree_below f g zero = true
agree_below f g (suc n) = (f n == g n) && agree_below f g n

pub agree_below→eq : (f g : ℕ → ℕ) (n : ℕ) → agree_below f g n ≡ true → (x : ℕ) → x < n → f x ≡ g x
unfolding agree_below
agree_below→eq f g zero e x h = absurd (omega arith)
agree_below→eq f g (suc n) e x h = ground (arith, agree_below→eq f g n (ground arith) x)

-- The four bytes of a word in memory, the lowest first.
abbrev pub word_bytes : ℕ → List ℕ
word_bytes w = (w % 256) ∷ (w / 2 ^ 8 % 256) ∷ (w / 2 ^ 16 % 256) ∷ (w / 2 ^ 24 % 256) ∷ []
