-- ===== src/Base/Count.antt =====
-- How many of the first numbers pass a test.
use Prim.Native.Nat.{ℕ, zero, suc, ◌+◌, ◌-◌, ◌<◌, ◌≤◌}
use mathlib.Core.Path.{◌≡◌, refl}
use mathlib.Core.Logic.{inl, inr}
use mathlib.Core.Bool.{Bool, true, false, ◌||◌}
use native.Mathlib.Omega.{arith}
use protocache.Base.Tests.{◌==◌, if◌then◌else◌, Bool-cases}

-- How many numbers below `n` pass a test.
unfoldable pub count : ℕ → (ℕ → Bool) → ℕ
count zero p = 0
count (suc n) p = count n p + (if p n then 1 else 0)

pub count_none : (n : ℕ) → count n (λ _. false) ≡ 0
unfolding count
count_none zero = refl
count_none (suc n) = omega (arith, count_none n)

pub count_le : (n : ℕ) (p : ℕ → Bool) → count n p ≤ n
unfolding count
count_le zero p = omega arith
count_le (suc n) p = ground (arith, count_le n p)

-- Where as many pass as there are, all pass.
pub count_full : (n : ℕ) (p : ℕ → Bool) → count n p ≡ n → (k : ℕ) → k < n → p k ≡ true
unfolding count
count_full zero p full k h = absurd (omega arith)
count_full (suc n) p full k h =
    let bound = count_le n p in
    elim (Bool-cases (p n)) [
      | inl last ↦ elim (Bool-cases (k == n)) [
        | inl it ↦ let it' : k ≡ n = ground arith in rw it' last
        | inr before ↦ let rest = rw last at full in count_full n p (omega arith) k (ground arith)
      ]
      | inr gone ↦ let few = rw gone at full in absurd (omega arith)
    ]

pub count_same : (n : ℕ) (p q : ℕ → Bool) → ((k : ℕ) → k < n → p k ≡ q k) → count n p ≡ count n q
unfolding count
count_same zero p q same = refl
count_same (suc n) p q same =
    rw (count_same n p q (λ k h. same k (omega arith)), same n (omega arith)) refl

-- One number more passes.
pub count_more :
    (n i : ℕ) (p q : ℕ → Bool)
    → i < n
    → p i ≡ false
    → ((k : ℕ) → q k ≡ (p k || k == i))
    → count n q ≡ suc (count n p)
unfolding count
count_more zero i p q h fresh more = absurd (omega arith)
count_more (suc n) i p q h fresh more = elim (Bool-cases (i == n)) [
  | inl last ↦
      let same : i ≡ n = ground arith in
      let rest : count n q ≡ count n p = count_same n q p (λ k hk.
        let other : (k == i) ≡ false = ground arith in rw (more k, other) (ground arith)) in
      let self : q n ≡ true = rw (more n, same) (ground arith) in
      let was : p n ≡ false = rw (← same) fresh in rw (rest, self, was) (omega arith)
  | inr before ↦
      let rest = count_more n i p q (ground arith) fresh more in
      let other : (n == i) ≡ false = ground arith in
      let kept : q n ≡ p n = rw (more n, other) (ground arith) in rw (rest, kept) (omega arith)
]

pub count-first :
    (n : ℕ) (p : ℕ → Bool) → count (suc n) p ≡ (if p 0 then 1 else 0) + count n (λ q. p (suc q))
unfolding count
count-first zero p = omega arith
count-first (suc n) p = omega (arith, count-first n p)

-- Behind the last number that passes.
pub count_tail :
    (d n : ℕ) (p : ℕ → Bool)
    → ((q : ℕ) → n ≤ q → q < n + d → p q ≡ false)
    → count (n + d) p ≡ count n p
unfolding count
count_tail zero n p gone = let e : n + 0 ≡ n = omega arith in rw e refl
count_tail (suc d) n p gone =
    let e : n + suc d ≡ suc (n + d) = omega arith in
    let last = gone (n + d) (omega arith) (omega arith) in
    rw (e, last) (omega (arith, count_tail d n p (λ q h h'. gone q h (omega arith))))

pub count-add : (d n : ℕ) (p : ℕ → Bool) → count (n + d) p ≡ count n p + count d (λ q. p (n + q))
unfolding count
count-add zero n p = let e : n + 0 ≡ n = omega arith in rw e (omega arith)
count-add (suc d) n p =
    let e : n + suc d ≡ suc (n + d) = omega arith in rw e (omega (arith, count-add d n p))

pub count_mono : (j k : ℕ) (p : ℕ → Bool) → j ≤ k → count j p ≤ count k p
count_mono j k p h =
    let e : j + (k - j) ≡ k = omega arith in
    let split = count-add (k - j) j p in rw (← e) (omega (arith, split))
