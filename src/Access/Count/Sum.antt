-- ===== src/Access/Count/Sum.antt =====
-- `Count32` and `Count64` against the plain sum of the widths: each step is read on digits.
use protocache.Base.{
  ℕ, ◌+◌, ◌/◌, ◌%◌, ◌^◌, ◌≤◌, ◌<◌, ◌≡◌, refl, ◌∙◌, bit_and, arith, List, [], ◌∷◌, map, replicate,
  length, All, bit_and_mask,
}
use native.Mathlib.Nat.{mod-eq_of_lt}
use protocache.Access.Count.{count32, count64, widths}
use protocache.Access.Count.Digits.{
  number, nibbles, both, sum, sum-both, neighbours, byte_sums, byte_sums_tail, number-le, both-le,
  pairs_lem,
}

finish32 :
    (a b c d : ℕ)
    → a ≤ 12
    → b ≤ 12
    → c ≤ 12
    → d ≤ 12
    → let z = (number 8 (a ∷ b ∷ c ∷ d ∷ []) + number 8 (b ∷ c ∷ d ∷ [])) % 2 ^ 32 in
      bit_and ((z + z / 2 ^ 16) % 2 ^ 32) 0xff ≡ a + b + c + d
unfolding number
finish32 a b c d p q r s =
    let z = (number 8 (a ∷ b ∷ c ∷ d ∷ []) + number 8 (b ∷ c ∷ d ∷ [])) % 2 ^ 32 in
    bit_and_mask 8 ((z + z / 2 ^ 16) % 2 ^ 32) ∙ omega arith

masks32 : (number 4 (replicate 8 3) ≡ 0x33333333) × (number 8 (replicate 4 15) ≡ 0xf0f0f0f)
unfolding number
masks32 = (refl, refl)

masks64 :
    (number 4 (replicate 16 3) ≡ 0x3333333333333333)
    × (number 8 (replicate 8 15) ≡ 0xf0f0f0f0f0f0f0f)
unfolding number
masks64 = (refl, refl)

-- The steps behind the first, on the sums of the nibbles.
steps32 :
    (ds : List ℕ)
    → All (λ d. d ≤ 6) ds
    → length ds ≡ 8
    → let x = number 4 ds % 2 ^ 32 in
      let y = (x + x / 2 ^ 4) % 2 ^ 32 in
      let z = (bit_and y 0xf0f0f0f + bit_and (y / 2 ^ 8) 0xf0f0f0f) % 2 ^ 32 in
      bit_and ((z + z / 2 ^ 16) % 2 ^ 32) 0xff ≡ sum ds
unfolding sum neighbours
steps32 (a ∷ b ∷ c ∷ d ∷ e ∷ f ∷ g ∷ k ∷ []) h long =
    let ds : List ℕ = a ∷ b ∷ c ∷ d ∷ e ∷ f ∷ g ∷ k ∷ [] in
    let x = number 4 ds in
    let small = number-le ds 8 h (omega arith) in
    let one : x % 2 ^ 32 ≡ x = mod-eq_of_lt {n = x} {m = 2 ^ 32} (omega arith) in
    let two : (x + x / 2 ^ 4) % 2 ^ 32 ≡ x + x / 2 ^ 4 =
      mod-eq_of_lt {n = x + x / 2 ^ 4} {m = 2 ^ 32} (omega arith) in
    let three = rw (masks32.1) at (byte_sums ds 4 h (omega arith)) in
    let four =
      rw (masks32.1) at (byte_sums_tail a b (c ∷ d ∷ e ∷ f ∷ g ∷ k ∷ []) 4 h (omega arith)) in
    rw (one, two, three, four)
      (finish32 (a + b) (c + d) (e + f) (g + k) (omega arith) (omega arith) (omega arith)
          (omega arith)
        ∙ omega arith)
steps32 _ h long = absurd (omega arith)

-- `Count32` is the sum of the sixteen widths of a 32-bit word.
pub count32-widths : (v : ℕ) → v < 2 ^ 32 → count32 v ≡ widths 16 v
unfolding count32
count32-widths v h =
    let first = rw (masks32.0) at (pairs_lem 8 v h) in
    let ds = map both (nibbles 8 v) in
    rw first (steps32 ds (both-le 8 v) (unfold nibbles in refl) ∙ sum-both 8 v)

-- Adding up bytes of at most 24: two of them at a distance of two, then four.
fold64 :
    (a b c d e f g k : ℕ)
    → All (λ t. t ≤ 24) (a ∷ b ∷ c ∷ d ∷ e ∷ f ∷ g ∷ k ∷ [])
    → let z = number 8 (a ∷ b ∷ c ∷ d ∷ e ∷ f ∷ g ∷ k ∷ []) in
      let w = (z + z / 2 ^ 16) % 2 ^ 64 in
      bit_and ((w + w / 2 ^ 32) % 2 ^ 64) 0xff ≡ a + c + (e + g)
unfolding number
fold64 a b c d e f g k h =
    let z = number 8 (a ∷ b ∷ c ∷ d ∷ e ∷ f ∷ g ∷ k ∷ []) in
    let w = (z + z / 2 ^ 16) % 2 ^ 64 in
    let short = number 8 ((a + c) ∷ (b + d) ∷ (c + e) ∷ (d + f) ∷ (e + g) ∷ (f + k) ∷ g ∷ k ∷ []) in
    let one : w ≡ short = omega arith in
    let two : short / 2 ^ 32 ≡ number 8 ((e + g) ∷ (f + k) ∷ g ∷ k ∷ []) = omega arith in
    bit_and_mask 8 ((w + w / 2 ^ 32) % 2 ^ 64) ∙ rw one (omega (arith, two))

steps64 :
    (ds : List ℕ)
    → All (λ d. d ≤ 6) ds
    → length ds ≡ 16
    → let x = number 4 ds % 2 ^ 64 in
      let y = (x + x / 2 ^ 4) % 2 ^ 64 in
      let z = (bit_and y 0xf0f0f0f0f0f0f0f + bit_and (y / 2 ^ 8) 0xf0f0f0f0f0f0f0f) % 2 ^ 64 in
      let w = (z + z / 2 ^ 16) % 2 ^ 64 in bit_and ((w + w / 2 ^ 32) % 2 ^ 64) 0xff ≡ sum ds
unfolding sum neighbours
steps64 (a ∷ a' ∷ b ∷ b' ∷ c ∷ c' ∷ d ∷ d' ∷ e ∷ e' ∷ f ∷ f' ∷ g ∷ g' ∷ k ∷ k' ∷ []) h long =
    let tail : List ℕ = b ∷ b' ∷ c ∷ c' ∷ d ∷ d' ∷ e ∷ e' ∷ f ∷ f' ∷ g ∷ g' ∷ k ∷ k' ∷ [] in
    let ds : List ℕ = a ∷ a' ∷ tail in
    let x = number 4 ds in
    let small = number-le ds 16 h (omega arith) in
    let one : x % 2 ^ 64 ≡ x = mod-eq_of_lt {n = x} {m = 2 ^ 64} (omega arith) in
    let two : (x + x / 2 ^ 4) % 2 ^ 64 ≡ x + x / 2 ^ 4 =
      mod-eq_of_lt {n = x + x / 2 ^ 4} {m = 2 ^ 64} (omega arith) in
    let three = rw (masks64.1) at (byte_sums ds 8 h (omega arith)) in
    let four = rw (masks64.1) at (byte_sums_tail a a' tail 8 h (omega arith)) in
    let t0 = a + a' in
    let t1 = b + b' in
    let t2 = c + c' in
    let t3 = d + d' in
    let t4 = e + e' in
    let t5 = f + f' in
    let t6 = g + g' in
    let t7 = k + k' in
    let merged : (number 8 (t0 ∷ t1 ∷ t2 ∷ t3 ∷ t4 ∷ t5 ∷ t6 ∷ t7 ∷ [])
            + number 8 (t1 ∷ t2 ∷ t3 ∷ t4 ∷ t5 ∷ t6 ∷ t7 ∷ []))
          % 2 ^ 64
        ≡ number 8 (
            (t0 + t1)
            ∷ (t1 + t2)
            ∷ (t2 + t3)
            ∷ (t3 + t4)
            ∷ (t4 + t5)
            ∷ (t5 + t6)
            ∷ (t6 + t7)
            ∷ t7
            ∷ []) =
      unfold number in omega arith in
    rw (one, two, three, four, merged)
      (fold64 (t0 + t1) (t1 + t2) (t2 + t3) (t3 + t4) (t4 + t5) (t5 + t6) (t6 + t7) t7 (omega arith)
        ∙ omega arith)
steps64 _ h long = absurd (omega arith)

-- `Count64` is the sum of the thirty-two widths of a 64-bit word.
pub count64-widths : (v : ℕ) → v < 2 ^ 64 → count64 v ≡ widths 32 v
unfolding count64
count64-widths v h =
    let first = rw (masks64.0) at (pairs_lem 16 v h) in
    let ds = map both (nibbles 16 v) in
    rw first (steps64 ds (both-le 16 v) (unfold nibbles in refl) ∙ sum-both 16 v)
