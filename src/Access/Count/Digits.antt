-- ===== src/Access/Count/Digits.antt =====
-- Numbers as lists of digits, and what masks, shifts and sums do to the digits.
use protocache.Base.{
  ℕ, zero, suc, ◌+◌, ◌*◌, ◌/◌, ◌%◌, ◌^◌, ◌≤◌, ◌<◌, min, ◌≡◌, refl, ap, ap₂, ◌∙◌, bit_and, arith,
  List, [], ◌∷◌, map, replicate, length, All, parts, bit_and-digit, bit_and_mask, zero-bit_and,
}
use native.Mathlib.Nat.{pow-suc, one-le-pow}
use protocache.Access.Count.{widths}

-- The number with the digits `ds` to the base `2 ^ k`, the lowest first.
unfoldable pub number : ℕ → List ℕ → ℕ
number k [] = 0
number k (d ∷ ds) = number k ds * 2 ^ k + d

unfoldable pub nibbles : ℕ → ℕ → List ℕ
nibbles zero v = []
nibbles (suc n) v = (v % 16) ∷ nibbles n (v / 16)

number-nibbles : (n v : ℕ) → v < 16 ^ n → number 4 (nibbles n v) ≡ v
unfolding number nibbles
number-nibbles zero v h = omega arith
number-nibbles (suc n) v h = omega (arith, number-nibbles n (v / 16) (omega arith))

nibbles-lt : (n v : ℕ) → All (λ d. d < 16) (nibbles n v)
unfolding nibbles
nibbles-lt zero v = tt
nibbles-lt (suc n) v = (omega arith, nibbles-lt n (v / 16))

and_split :
    (k x y r s : ℕ)
    → r < 2 ^ k
    → s < 2 ^ k
    → bit_and (x * 2 ^ k + r) (y * 2 ^ k + s) ≡ bit_and x y * 2 ^ k + bit_and r s
and_split = parts bit_and min bit_and-digit refl

-- The two widths of a nibble.
abbrev pub both : ℕ → ℕ
both d = d % 4 + d / 4

pub low_pairs :
    (ds : List ℕ) (n : ℕ)
    → All (λ d. d < 16) ds
    → length ds ≤ n
    → bit_and (number 4 ds) (number 4 (replicate n 3)) ≡ number 4 (map (λ d. d % 4) ds)
unfolding number
low_pairs [] n h long = zero-bit_and _
low_pairs (d ∷ ds) zero h long = absurd (omega arith)
low_pairs (d ∷ ds) (suc n) h long =
    and_split 4 (number 4 ds) (number 4 (replicate n 3)) d 3 h.0 (omega arith)
    ∙ omega (arith, low_pairs ds n h.1 (omega arith), bit_and_mask 2 d)

pub high_pairs :
    (ds : List ℕ) (n : ℕ)
    → All (λ d. d < 16) ds
    → length ds ≤ n
    → bit_and (number 4 ds / 2 ^ 2) (number 4 (replicate n 3)) ≡ number 4 (map (λ d. d / 4) ds)
unfolding number
high_pairs [] n h long = zero-bit_and _
high_pairs (d ∷ ds) zero h long = absurd (omega arith)
high_pairs (d ∷ ds) (suc n) h long =
    let rest = number 4 ds in
    let low = rest % 4 * 4 + d / 4 in
    let e : (rest * 2 ^ 4 + d) / 2 ^ 2 ≡ rest / 2 ^ 2 * 2 ^ 4 + low = omega arith in
    rw e (
      and_split 4 (rest / 2 ^ 2) (number 4 (replicate n 3)) low 3 (omega (arith, h.0)) (omega arith)
      ∙ omega (arith, high_pairs ds n h.1 (omega arith), bit_and_mask 2 low, h.0))

pub number-both :
    (ds : List ℕ)
    → number 4 (map (λ d. d % 4) ds) + number 4 (map (λ d. d / 4) ds) ≡ number 4 (map both ds)
unfolding number
number-both [] = refl
number-both (d ∷ ds) = omega (arith, number-both ds)

unfoldable pub sum : List ℕ → ℕ
sum [] = 0
sum (d ∷ ds) = d + sum ds

pub sum-both : (n v : ℕ) → sum (map both (nibbles n v)) ≡ widths (2 * n) v
unfolding sum nibbles widths
sum-both zero v = refl
sum-both (suc n) v =
    let e : 2 * suc n ≡ suc (suc (2 * n)) = omega arith in
    let e' : v / 4 / 4 ≡ v / 16 = omega arith in rw (e, e') (omega (arith, sum-both n (v / 16)))

-- The sums of neighbours, in bytes.
unfoldable pub neighbours : List ℕ → List ℕ
neighbours [] = []
neighbours (a ∷ []) = a ∷ []
neighbours (a ∷ b ∷ ds) = (a + b) ∷ neighbours ds

first-le : (ds : List ℕ) → All (λ d. d ≤ 6) ds → number 4 ds % 16 ≤ 6
unfolding number
first-le [] h = omega arith
first-le (d ∷ ds) h = omega (arith, h.0)

pub byte_sums :
    (ds : List ℕ) (n : ℕ)
    → All (λ d. d ≤ 6) ds
    → length ds ≤ n + n
    → bit_and (number 4 ds + number 4 ds / 2 ^ 4) (number 8 (replicate n 15))
      ≡ number 8 (neighbours ds)
unfolding number neighbours
byte_sums [] n h long = zero-bit_and _
byte_sums (a ∷ ds) zero h long = absurd (omega arith)
byte_sums (a ∷ []) (suc n) h long =
    let e : 0 * 2 ^ 4 + a + (0 * 2 ^ 4 + a) / 2 ^ 4 ≡ 0 * 2 ^ 8 + a = omega (arith, h.0) in
    rw e (
      and_split 8 0 (number 8 (replicate n 15)) a 15 (omega (arith, h.0)) (omega arith)
      ∙ omega (arith, zero-bit_and (number 8 (replicate n 15)), bit_and_mask 4 a, h.0))
byte_sums (a ∷ b ∷ ds) (suc n) h long =
    let x = number 4 ds in
    let low = (x % 16 + b) * 16 + (a + b) in
    let e : (x * 2 ^ 4 + b) * 2 ^ 4 + a + ((x * 2 ^ 4 + b) * 2 ^ 4 + a) / 2 ^ 4
        ≡ (x + x / 2 ^ 4) * 2 ^ 8 + low =
      omega (arith, h.0) in
    rw e (
      and_split 8 (x + x / 2 ^ 4) (number 8 (replicate n 15)) low 15
        (omega (arith, first-le ds h.1.1, h.0, h.1.0)) (omega arith)
      ∙ omega (arith, byte_sums ds n h.1.1 (omega arith), bit_and_mask 4 low, h.0, h.1.0))

-- The same a byte further on.
pub byte_sums_tail :
    (a b : ℕ) (ds : List ℕ) (n : ℕ)
    → All (λ d. d ≤ 6) (a ∷ b ∷ ds)
    → length ds ≤ n + n
    → bit_and
        ((number 4 (a ∷ b ∷ ds) + number 4 (a ∷ b ∷ ds) / 2 ^ 4) / 2 ^ 8)
        (number 8 (replicate n 15))
      ≡ number 8 (neighbours ds)
byte_sums_tail a b ds n h long =
    let x = number 4 ds in
    let e : (number 4 (a ∷ b ∷ ds) + number 4 (a ∷ b ∷ ds) / 2 ^ 4) / 2 ^ 8 ≡ x + x / 2 ^ 4 =
      unfold number in omega (arith, first-le ds h.1.1, h.0, h.1.0) in
    rw e (byte_sums ds n h.1.1 long)

pub number-le :
    (ds : List ℕ) (n : ℕ) → All (λ d. d ≤ 6) ds → length ds ≤ n → 15 * number 4 ds + 6 ≤ 6 * 16 ^ n
unfolding number
number-le [] n h long = omega (arith, one-le-pow n 16 (omega arith))
number-le (d ∷ ds) zero h long = absurd (omega arith)
number-le (d ∷ ds) (suc n) h long =
    omega (arith, number-le ds n h.1 (omega arith), pow-suc 16 n, h.0)

pub both-le : (n v : ℕ) → All (λ d. d ≤ 6) (map both (nibbles n v))
unfolding nibbles
both-le zero v = tt
both-le (suc n) v = (omega arith, both-le n (v / 16))

pub length-nibbles : (n v : ℕ) → length (nibbles n v) ≡ n
unfolding nibbles
length-nibbles zero v = refl
length-nibbles (suc n) v = ap suc (length-nibbles n (v / 16))

-- The first step, on `n` nibbles.
pub pairs_lem :
    (n v : ℕ)
    → v < 16 ^ n
    → bit_and v (number 4 (replicate n 3)) + bit_and (v / 2 ^ 2) (number 4 (replicate n 3))
      ≡ number 4 (map both (nibbles n v))
pairs_lem n v h =
    let ds = nibbles n v in
    let few = length-nibbles n v in
    let low = low_pairs ds n (nibbles-lt n v) (omega arith) in
    let high = high_pairs ds n (nibbles-lt n v) (omega arith) in
    let whole = number-nibbles n v h in
    ap₂ ◌+◌ (rw whole at low) (rw whole at high) ∙ number-both ds
