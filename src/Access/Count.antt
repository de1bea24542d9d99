-- ===== src/Access/Count.antt =====
-- `Count32` and `Count64`: the sum of the two-bit widths in a word, by adding them up in parallel.
pub mod Digits
pub mod Sum
use protocache.Base.{
  ℕ, zero, suc, ◌+◌, ◌*◌, ◌/◌, ◌%◌, ◌^◌, ◌≤◌, ◌<◌, ◌≡◌, refl, ◌∙◌, bit_and, arith,
}

-- The portable version, on `uint32_t`.
unfoldable pub count32 : ℕ → ℕ
count32 v =
    let v = (bit_and v 0x33333333 + bit_and (v / 2 ^ 2) 0x33333333) % 2 ^ 32 in
    let v = (v + v / 2 ^ 4) % 2 ^ 32 in
    let v = (bit_and v 0xf0f0f0f + bit_and (v / 2 ^ 8) 0xf0f0f0f) % 2 ^ 32 in
    let v = (v + v / 2 ^ 16) % 2 ^ 32 in bit_and v 0xff

-- On `uint64_t`.
unfoldable pub count64 : ℕ → ℕ
count64 v =
    let v = (bit_and v 0x3333333333333333 + bit_and (v / 2 ^ 2) 0x3333333333333333) % 2 ^ 64 in
    let v = (v + v / 2 ^ 4) % 2 ^ 64 in
    let v = (bit_and v 0xf0f0f0f0f0f0f0f + bit_and (v / 2 ^ 8) 0xf0f0f0f0f0f0f0f) % 2 ^ 64 in
    let v = (v + v / 2 ^ 16) % 2 ^ 64 in let v = (v + v / 2 ^ 32) % 2 ^ 64 in bit_and v 0xff

-- The sum of the first `n` two-bit groups of `v`.
unfoldable pub widths : ℕ → ℕ → ℕ
widths zero v = 0
widths (suc n) v = v % 4 + widths n (v / 4)
