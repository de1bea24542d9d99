-- ===== src/PerfectHash/Bits/Sizes.antt =====
-- The bitmap has room for the three sections.
use protocache.Base.{
  ℕ, ◌+◌, ◌-◌, ◌*◌, ◌/◌, ◌%◌, ◌^◌, ◌<◌, ◌≤◌, ◌≡◌, bit_and, bit_and_mask, bit_and_shift, arith, ◌∙◌,
  ap,
}
use protocache.PerfectHash.Bits.{section, bitmap_size}

rounded : (x : ℕ) → x < 2 ^ 32 → bit_and x (2 ^ 32 - 1 - 31) ≡ x / 32 * 32
rounded x h =
    bit_and_shift 5 (2 ^ 27 - 1) x ∙ ap (λ t. t * 32) (bit_and_mask 27 (x / 2 ^ 5)) ∙ omega arith

-- The bitmap of an index is far from the limit of 32 bits.
pub bitmap_size-lt : (size : ℕ) → size < 2 ^ 28 → bitmap_size (section size) < 2 ^ 28
unfolding section bitmap_size
bitmap_size-lt size h = rw (rounded ((section size * 3 + 31) % 2 ^ 32) (omega arith)) (omega arith)

-- For fewer than 2 ^ 28 keys, which `Build` demands, the bitmap is made of whole 64-bit words, has two bits
-- for each slot of the three sections, and there are more slots than keys.
pub bitmap_size-section :
    (size : ℕ)
    → size < 2 ^ 28
    → (section size * 3 ≤ bitmap_size (section size) * 4)
      × (bitmap_size (section size) % 8 ≡ 0)
      × (size < section size * 3)
unfolding section bitmap_size
bitmap_size-section size h =
    rw (rounded ((section size * 3 + 31) % 2 ^ 32) (omega arith))
      (omega arith, omega arith, omega arith)
