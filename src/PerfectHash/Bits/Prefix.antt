-- ===== src/PerfectHash/Bits/Prefix.antt =====
-- The values of a bitmap that are not 3, counted from the first on.
use protocache.Base.{
  count, count-first, Bool, ℕ, zero, suc, ◌+◌, ◌*◌, ◌/◌, ◌%◌, ◌^◌, ◌<◌, ◌≡◌, refl, ap, sym, ◌∙◌,
  bit_and, bit_and_mask, ltb, List, [], ◌∷◌, get_or, arith,
}
use native.Mathlib.Nat.{pow-suc, div-le_self, div-div-eq-div-mul}
use protocache.Hash.{little_endian}
use protocache.PerfectHash.Bits.{pair}
use protocache.PerfectHash.Bits.Values.{pair-mod}
use protocache.PerfectHash.Bits.Views.{Bytes, pair_at}
use protocache.PerfectHash.Bits.Counted.{valid_pairs}

abbrev pub valid_at : List ℕ → ℕ → Bool
valid_at bitmap q = ltb (pair_at bitmap q) 3

-- A value of the bitmap as a number.
digit : (v q : ℕ) → v / 4 / 4 ^ q ≡ v / 4 ^ suc q
digit v q = div-div-eq-div-mul v 4 (4 ^ q) ∙ ap (λ t. v / t) (omega (arith, pow-suc 4 q))

digit4 : (v q : ℕ) → v / 256 / 4 ^ q ≡ v / 4 ^ suc (suc (suc (suc q)))
digit4 v q =
    let e : v / 256 ≡ v / 4 / 4 / 4 / 4 = omega arith in
    rw
      (
        e,
        digit (v / 4 / 4 / 4) q,
        digit (v / 4 / 4) (suc q),
        digit (v / 4) (suc (suc q)),
        digit v (suc (suc (suc q))),
      )
      refl

pair_lem : (b r q : ℕ) → b < 256 → q < 4 → pair b q ≡ (b + 256 * r) / 4 ^ q % 4
unfolding pair
pair_lem b r zero hb hq = omega (arith, bit_and_mask 2 (b / 2 ^ 0))
pair_lem b r (suc zero) hb hq = omega (arith, bit_and_mask 2 (b / 2 ^ 2))
pair_lem b r (suc (suc zero)) hb hq = omega (arith, bit_and_mask 2 (b / 2 ^ 4))
pair_lem b r (suc (suc (suc zero))) hb hq = omega (arith, bit_and_mask 2 (b / 2 ^ 6))
pair_lem b r (suc (suc (suc (suc q)))) hb hq = absurd (omega arith)

pub pair_at-digit : (bs : List ℕ) (q : ℕ) → Bytes bs → pair_at bs q ≡ little_endian bs / 4 ^ q % 4
unfolding little_endian pair
pair_at-digit [] q h =
    let left : 0 / 2 ^ (bit_and q 3 * 2) ≡ 0 =
      omega (arith, div-le_self 0 (2 ^ (bit_and q 3 * 2))) in
    let right : 0 / 4 ^ q ≡ 0 = omega (arith, div-le_self 0 (4 ^ q)) in rw (left, right) refl
pair_at-digit (b ∷ bs) zero (hb, h) = pair_lem b (little_endian bs) 0 hb (omega arith)
pair_at-digit (b ∷ bs) (suc zero) (hb, h) = pair_lem b (little_endian bs) 1 hb (omega arith)
pair_at-digit (b ∷ bs) (suc (suc zero)) (hb, h) = pair_lem b (little_endian bs) 2 hb (omega arith)
pair_at-digit (b ∷ bs) (suc (suc (suc zero))) (hb, h) =
    pair_lem b (little_endian bs) 3 hb (omega arith)
pair_at-digit (b ∷ bs) (suc (suc (suc (suc q)))) (hb, h) =
    let q' = suc (suc (suc (suc q))) in
    let e : q' / 4 ≡ suc (q / 4) = omega arith in
    let e' : q' % 4 ≡ q % 4 = omega arith in
    let v = b + 256 * little_endian bs in
    let high : v / 256 ≡ little_endian bs = omega arith in
    let same : pair_at (b ∷ bs) q' ≡ pair_at bs q = rw e (
      pair-mod (get_or bs (q / 4) 0) q'
      ∙ ap (pair (get_or bs (q / 4) 0)) e'
      ∙ sym (pair-mod (get_or bs (q / 4) 0) q)) in
    same ∙ pair_at-digit bs q h ∙ ap (λ t. t % 4) (ap (λ t. t / 4 ^ q) (sym high) ∙ digit4 v q)

pub valid_pairs-count :
    (k v : ℕ) (f : ℕ → ℕ)
    → ((q : ℕ) → q < k → f q ≡ v / 4 ^ q % 4)
    → valid_pairs k v ≡ count k (λ q. ltb (f q) 3)
unfolding valid_pairs count
valid_pairs-count zero v f same = refl
valid_pairs-count (suc k) v f same =
    let first : f 0 ≡ v % 4 = omega (arith, same 0 (omega arith)) in
    let rest =
      valid_pairs-count k (v / 4) (λ q. f (suc q))
        (λ q h. same (suc q) (omega arith) ∙ ap (λ t. t % 4) (sym (digit v q))) in
    sym (count-first k (λ q. ltb (f q) 3) ∙ rw (first, ← rest) refl)

-- The first `k` values of a bitmap.
pub count-valid_at :
    (k : ℕ) (bs : List ℕ) → Bytes bs → count k (valid_at bs) ≡ valid_pairs k (little_endian bs)
count-valid_at k bs h =
    sym (valid_pairs-count k (little_endian bs) (pair_at bs) (λ q _. pair_at-digit bs q h))

-- The first values, and those behind them.
pub valid_pairs-add :
    (j k v : ℕ) → valid_pairs (j + k) v ≡ valid_pairs j v + valid_pairs k (v / 4 ^ j)
unfolding valid_pairs
valid_pairs-add zero k v =
    let e : 0 + k ≡ k = omega arith in
    let e' : v / 4 ^ 0 ≡ v = omega arith in rw (e, e') (omega arith)
valid_pairs-add (suc j) k v =
    let e : suc j + k ≡ suc (j + k) = omega arith in
    rw (e, ← digit v j) (omega (arith, valid_pairs-add j k (v / 4)))

pub valid_pairs-low : (j x y : ℕ) → valid_pairs j (x + 4 ^ j * y) ≡ valid_pairs j x
unfolding valid_pairs
valid_pairs-low zero x y = refl
valid_pairs-low (suc j) x y =
    let step : 4 ^ suc j * y ≡ 4 * (4 ^ j * y) = omega (arith, ap (λ t. t * y) (pow-suc 4 j)) in
    let e : (x + 4 ^ suc j * y) % 4 ≡ x % 4 = omega (arith, step) in
    let e' : (x + 4 ^ suc j * y) / 4 ≡ x / 4 + 4 ^ j * y = omega (arith, step) in
    rw (e, e', valid_pairs-low j (x / 4) y) refl

-- A number put together from two.
pub valid_pairs-split :
    (j k x y : ℕ)
    → x < 4 ^ j
    → valid_pairs (j + k) (x + 4 ^ j * y) ≡ valid_pairs j x + valid_pairs k y
unfolding valid_pairs
valid_pairs-split zero k x y h =
    let e : 0 + k ≡ k = omega arith in
    let e' : x + 4 ^ 0 * y ≡ y = omega arith in rw (e, e') (omega arith)
valid_pairs-split (suc j) k x y h =
    let step : 4 ^ suc j * y ≡ 4 * (4 ^ j * y) = omega (arith, ap (λ t. t * y) (pow-suc 4 j)) in
    let e : (x + 4 ^ suc j * y) % 4 ≡ x % 4 = omega (arith, step) in
    let e' : (x + 4 ^ suc j * y) / 4 ≡ x / 4 + 4 ^ j * y = omega (arith, step) in
    let e'' : suc j + k ≡ suc (j + k) = omega arith in
    rw (e'', e, e') (omega (arith, valid_pairs-split j k (x / 4) y (omega (arith, pow-suc 4 j))))
