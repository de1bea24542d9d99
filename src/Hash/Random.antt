-- ===== src/Hash/Random.antt =====
-- The class `XorShift`: a generator of 32-bit numbers.
use protocache.Base.{ℕ, ◌*◌, ◌/◌, ◌%◌, ◌^◌, bit_xor}

-- `m_state`
pub record XorShift : Type 0 where
  pub s0 : ℕ
  pub s1 : ℕ
  pub s2 : ℕ
  pub s3 : ℕ

-- `XorShift(seed)`
unfoldable pub xor_shift : ℕ → XorShift
xor_shift seed = record { s0 = 0x6c078965; s1 = 0x9908b0df; s2 = 0x9d2c5680; s3 = seed }

-- `Next`: the number, and the state.
unfoldable pub next : XorShift → ℕ × XorShift
next r =
    let t = bit_xor r.s0 (r.s0 * 2 ^ 11 % 2 ^ 32) in
    let n = bit_xor r.s3 (bit_xor (bit_xor (r.s3 / 2 ^ 19) t) (t / 2 ^ 8)) in
    (n, record { s0 = r.s1; s1 = r.s2; s2 = r.s3; s3 = n })
