-- ===== src/PerfectHash/Division.antt =====
-- The class `Divisor`: division of 32-bit numbers by a constant, as a multiplication and a shift.
pub mod Quotient
use protocache.Base.{ℕ, zero, suc, ◌+◌, ◌-◌, ◌*◌, ◌/◌, ◌%◌, ◌^◌, ◌==◌, leb, ltb, if◌then◌else◌}

pub record Divisor : Type 0 where
  pub val_ : ℕ
  pub fac_ : ℕ
  pub tip_ : ℕ
  pub sft_ : ℕ

-- `for (; m > n; m >>= 1) sft_--`. When the shift is 0, m is 1 and the loop has ended, as n is not 0.
unfoldable pub scale : ℕ → ℕ → ℕ → ℕ × ℕ
scale n zero m = (zero, m)
scale n (suc sft) m = let next = scale n sft (m / 2) in if ltb n m then next else (suc sft, m)

-- The factor and the tip for a divisor that is no power of two.
unfoldable pub approximate : ℕ → ℕ × ℕ → Divisor
approximate n (sft, m) =
    let fac = m * 2 ^ 32 / n % 2 ^ 32 in
    let r = (fac * n + n) % 2 ^ 32 in
    if leb r m
    then record { val_ = n; fac_ = (fac + 1) % 2 ^ 32; tip_ = 0; sft_ = sft }
    else record { val_ = n; fac_ = fac; tip_ = fac; sft_ = sft }

unfoldable pub choose : ℕ → ℕ × ℕ → Divisor
unfolding approximate
choose n (sft, m) =
    if m == n
    then record { val_ = n; fac_ = 2 ^ 32 - 1; tip_ = 2 ^ 32 - 1; sft_ = sft }
    else approximate n (sft, m)

-- `operator=`
unfoldable pub assign : ℕ → Divisor
unfolding scale choose
assign n =
    if n == 0
    then record { val_ = n; fac_ = 0; tip_ = 0; sft_ = 0 }
    else choose n (scale n 31 (2 ^ 31))

unfoldable pub div : Divisor → ℕ → ℕ
div d m = (d.fac_ * m + d.tip_) % 2 ^ 64 / 2 ^ (32 + d.sft_) % 2 ^ 32

unfoldable pub modulo : Divisor → ℕ → ℕ
unfolding div
modulo d m = (m + 2 ^ 32 - d.val_ * div d m % 2 ^ 32) % 2 ^ 32
