-- ===== src/PerfectHash/Division/Quotient.antt =====
-- `Divisor` divides.
use protocache.Base.{
  ℕ, zero, suc, ◌+◌, ◌-◌, ◌*◌, ◌/◌, ◌%◌, ◌^◌, ◌≤◌, ◌<◌, ◌≡◌, ◌≢◌, refl, ap, sym, ◌∙◌, ◌⊎◌, inl, inr,
  leb, ltb, ◌==◌, false, Bool-cases, arith,
}
use native.Mathlib.Nat.{
  add-mul-mod_self_right, mul-le-mul_right, pow-le-pow_right, mul-div-mul_left, mul_comm, add-mul,
  mul-add, mul-le-mul, mod-eq_of_lt, mod-lt, div-add-mod', div-eq_of_lt-le, mul-lt-mul_of_pos_left,
  one-le-pow, pow-suc, mul-le-mul_left, mul-lt-mul_of_pos_left, div-div-eq-div-mul, div-le_self,
}
use protocache.PerfectHash.Division.{Divisor, scale, approximate, choose, assign, div, modulo}

-- A quotient is known from its numerator, scaled by the divisor.
div_between : (x n a w : ℕ) → 0 < n → 0 < w → x * w ≤ n * a → n * a < (x + 1) * w → a / w ≡ x / n
div_between x n a w pos pos' low high =
    sym (mul-div-mul_left a w pos)
    ∙ ap (λ t. n * a / t) (mul_comm n w)
    ∙ sym (div-div-eq-div-mul (n * a) w n)
    ∙ ap (λ t. t / n) (div-eq_of_lt-le {k = x} w {m = n * a} low high)

-- A factor that is a little too large.
div_above :
    (x n f m w d : ℕ)
    → 0 < n
    → 0 < m
    → x < 2 ^ 32
    → w ≡ m * 2 ^ 32
    → f * n ≡ w + d
    → d ≤ m
    → (f * x + 0) / w ≡ x / n
div_above x n f m w d pos pos' small wide e room =
    let scaled : n * (f * x + 0) ≡ (w + d) * x = omega (arith, ap (λ (t : ℕ). t * x) e) in
    let spread = add-mul w d x in
    let err = mul-le-mul_left x room in
    let size = mul-lt-mul_of_pos_left {k = m} small pos' in
    div_between x n (f * x + 0) w pos (omega arith) (omega (arith, scaled, spread))
      (omega (arith, scaled, spread, err, size, add-mul x 1 w))

-- A factor that is a little too small, with a tip as large.
div_below :
    (x n f m w e : ℕ)
    → 0 < n
    → 0 < m
    → x < 2 ^ 32
    → w ≡ m * 2 ^ 32
    → f * n + e ≡ w
    → 0 < e
    → e ≤ m
    → (f * x + f) / w ≡ x / n
div_below x n f m w e pos pos' small wide eq some_left room =
    let scaled = ap (λ (t : ℕ). t * (x + 1)) eq in
    let spread = add-mul (f * n) e (x + 1) in
    let bound : x + 1 ≤ 2 ^ 32 = omega arith in
    let err = mul-le-mul room bound in
    let left : 0 < e * (x + 1) = grind arith in
    let all : n * (f * x + f) ≡ f * n * (x + 1) = grind arith in
    div_between x n (f * x + f) w pos (omega arith)
      (omega (arith, scaled, spread, err, all, mul-add w x 1))
      (omega (arith, scaled, spread, left, all, add-mul x 1 w))

-- The loop finds the highest power of two up to `n`.
scale_lem :
    (n sft : ℕ)
    → 0 < n
    → n < 2 ^ suc sft
    → (s : ℕ) × (scale n sft (2 ^ sft) ≡ (s, 2 ^ s)) × (2 ^ s ≤ n) × (n < 2 ^ suc s) × (s ≤ sft)
unfolding scale
scale_lem n zero pos h = (0, refl, omega arith, h, omega arith)
scale_lem n (suc sft) pos h = elim (Bool-cases (ltb n (2 ^ suc sft))) [
  | inl over ↦
      let half : 2 ^ suc sft / 2 ≡ 2 ^ sft = omega (arith, pow-suc 2 sft) in
      let (s, e, low, high, le) = scale_lem n sft pos (ground arith) in
      (s, rw (over, half) e, low, high, omega arith)
  | inr there ↦ (suc sft, rw there refl, ground arith, h, omega arith)
]

halves : (n : ℕ) → ((a : ℕ) × (n ≡ 2 * a)) ⊎ ((a : ℕ) × (n ≡ 2 * a + 1))
halves n = elim (Bool-cases (n % 2 == 0)) [
  | inl e ↦ inl (n / 2, ground arith)
  | inr e ↦ inr (n / 2, ground arith)
]

-- No factor of a power of two lies between two powers of two.
no_factor : (k s n f : ℕ) → 2 ^ s < n → n < 2 ^ suc s → n * f ≢ 2 ^ k
no_factor zero s n f low high e =
    absurd (omega (arith, one-le-pow s 2 (omega arith), one_factor n f e))
  where
    one_factor : (n f : ℕ) → n * f ≡ 1 → n ≤ 1
    one_factor zero f e = omega arith
    one_factor (suc n) zero e = absurd (omega arith)
    one_factor (suc n) (suc f) e = grind arith
no_factor (suc k) zero n f low high e = absurd (omega arith)
no_factor (suc k) (suc s) n f low high e = elim (halves n) [
  | inl (a, even) ↦
      let half : a * f ≡ 2 ^ k = omega (arith, pow-suc 2 k, e, ap (λ (t : ℕ). t * f) even) in
      no_factor k s a f (omega (arith, pow-suc 2 s)) (omega (arith, pow-suc 2 (suc s))) half
  | inr (a, odd) ↦ elim (halves f) [
    | inl (b, even) ↦
        let half : n * b ≡ 2 ^ k = omega (arith, pow-suc 2 k, e, ap (λ (t : ℕ). n * t) even) in
        no_factor k (suc s) n b low high half
    | inr (b, odd') ↦
        let product : n * f ≡ 2 * (a * f) + 2 * b + 1 =
          ap (λ (t : ℕ). t * f) odd ∙ add-mul (2 * a) 1 f ∙ omega arith in
        absurd (omega (arith, pow-suc 2 k, e, product))
  ]
]

-- `m - val_ * div(m)` is the remainder.
abbrev Divides : Divisor → ℕ → Type 0
Divides d n = (x : ℕ) → x < 2 ^ 32 → (div d x ≡ x / n) × (modulo d x ≡ x % n)

-- From the quotient before the casts.
quotient-Divides :
    (d : Divisor) (n : ℕ)
    → 0 < n
    → d.val_ ≡ n
    → d.fac_ < 2 ^ 32
    → d.tip_ < 2 ^ 32
    → ((x : ℕ) → x < 2 ^ 32 → (d.fac_ * x + d.tip_) / 2 ^ (32 + d.sft_) ≡ x / n)
    → Divides d n
unfolding div modulo
quotient-Divides d n pos ev small small' quotient x h =
    let bound : x ≤ 2 ^ 32 - 1 = omega arith in
    let wide : d.fac_ ≤ 2 ^ 32 - 1 = omega arith in
    let exact =
      mod-eq_of_lt {n = d.fac_ * x + d.tip_} {m = 2 ^ 64} (omega (arith, mul-le-mul wide bound)) in
    let short = mod-eq_of_lt {n = x / n} {m = 2 ^ 32} (omega (arith, div-le_self x n)) in
    let whole = div-add-mod' x n in
    let product : n * (x / n) ≡ x / n * n = mul_comm n (x / n) in
    let narrow = mod-eq_of_lt {n = n * (x / n)} {m = 2 ^ 32} (omega (arith, whole, product)) in
    let rest = mod-lt x pos in
    (
      rw (exact, quotient x h, short),
      rw (ev, exact, quotient x h, short, narrow) (omega (arith, whole, product, rest)),
    )

-- The scale of the numerator.
scale_pow : (s : ℕ) → 2 ^ (32 + s) ≡ 2 ^ s * 2 ^ 32
scale_pow zero = refl
scale_pow (suc s) =
    let next : 32 + suc s ≡ suc (32 + s) = omega arith in
    rw next omega (arith, pow-suc 2 (32 + s), pow-suc 2 s, scale_pow s)

approximate-Divides :
    (n s : ℕ)
    → s ≤ 31
    → n < 2 ^ 32
    → 2 ^ s < n
    → n < 2 ^ suc s
    → Divides (approximate n (s, 2 ^ s)) n
approximate-Divides n s le small low high =
    let m = 2 ^ s in
    let w = m * 2 ^ 32 in
    let fac = w / n in
    let e = w % n in
    let pos : 0 < n = omega arith in
    let pos' : 0 < m = one-le-pow s 2 (omega arith) in
    let half : m ≤ 2 ^ 31 = pow-le-pow_right {n = 2} (omega arith) le in
    let whole : fac * n + e ≡ w = div-add-mod' w n in
    let rest : e < n = mod-lt w pos in
    let double : n < 2 * m = omega (arith, pow-suc 2 s) in
    let left : 0 < e = elim (Bool-cases (e == 0)) [
      | inr some_left ↦ ground arith
      | inl none_left ↦
          let exact : e ≡ 0 = ground arith in
          absurd (
            no_factor (32 + s) s n fac low high
              (omega (arith, scale_pow s, whole, mul_comm n fac, exact)))
    ] in
    let short : fac < 2 ^ 32 - 1 = elim (Bool-cases (ltb fac (2 ^ 32 - 1))) [
      | inl below ↦ ground arith
      | inr over ↦
          let large : 2 ^ 32 - 1 ≤ fac = ground arith in
          absurd (omega (arith, mul-le-mul_right n large, whole, half))
    ] in
    let exact = mod-eq_of_lt {n = fac} {m = 2 ^ 32} (omega arith) in
    let exact' = mod-eq_of_lt {n = fac + 1} {m = 2 ^ 32} (omega arith) in
    let over : (fac * n + n) % 2 ^ 32 ≡ n - e =
      let split : fac * n + n ≡ n - e + m * 2 ^ 32 = omega (arith, whole) in
      ap (λ t. t % 2 ^ 32) split
      ∙ add-mul-mod_self_right (n - e) m (2 ^ 32)
      ∙ mod-eq_of_lt {n = n - e} {m = 2 ^ 32} (omega arith) in
    let wide = scale_pow s in
    elim (Bool-cases (leb (n - e) m)) [
      | inl near ↦
          unfold approximate in
          rw (exact, over, exact', near)
            (quotient-Divides _ n pos refl (omega arith) (omega arith) (λ x h. rw wide (
              div_above x n (fac + 1) m w (n - e) pos pos' h refl
                (omega (arith, whole, add-mul fac 1 n)) (ground arith))))
      | inr far ↦
          unfold approximate in
          rw (exact, over, far)
            (quotient-Divides _ n pos refl (omega arith) (omega arith)
              (λ x h. rw wide (div_below x n fac m w e pos pos' h refl whole left (ground arith))))
    ]

assign-Divides : (n : ℕ) → 0 < n → n < 2 ^ 32 → Divides (assign n) n
assign-Divides n pos small =
    let (s, e, low, high, le) = scale_lem n 31 pos small in
    let some_n : (n == 0) ≡ false = ground arith in
    elim (Bool-cases (2 ^ s == n)) [
      | inl power ↦
          let same : 2 ^ s ≡ n = ground arith in
          let full : ℕ = 2 ^ 32 - 1 in
          unfold assign choose in
          rw (some_n, e, power)
            (quotient-Divides (record { val_ = n; fac_ = full; tip_ = full; sft_ = s }) n pos refl
              (omega arith) (omega arith)
              (λ x h. rw (scale_pow s) (
                div_below x n full (2 ^ s) (2 ^ s * 2 ^ 32) n pos (one-le-pow s 2 (omega arith)) h
                  refl (omega (arith, same)) pos (omega (arith, same)))))
      | inr between ↦
          unfold assign choose in
          rw (some_n, e, between) (approximate-Divides n s le small (ground arith) high)
    ]

-- A `Divisor` of a 32-bit number other than 0 divides every 32-bit number: `div` gives the quotient and
-- `mod` the remainder.
pub div-assign :
    (n x : ℕ)
    → 0 < n
    → n < 2 ^ 32
    → x < 2 ^ 32
    → (div (assign n) x ≡ x / n) × (modulo (assign n) x ≡ x % n)
div-assign n x pos small h = assign-Divides n pos small x h
