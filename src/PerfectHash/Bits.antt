-- ===== src/PerfectHash/Bits.antt =====
-- The two-bit values and the sizes of the perfect hash's bitmap.
pub mod Values
pub mod Nibbles
pub mod Halves
pub mod Gather
pub mod Counted
pub mod Prefix
pub mod Sizes
pub mod Views
use protocache.Base.{
  ℕ, zero, suc, ◌+◌, ◌-◌, ◌*◌, ◌/◌, ◌%◌, ◌^◌, max, bit_and, bit_or, bit_xor, Bool, true, false,
  ◌==◌, if◌then◌else◌, List, get_elem?, set, Run, done, access, ◌>>=◌,
}

-- The value at `pos` in a byte.
unfoldable pub pair : ℕ → ℕ → ℕ
pair x pos = bit_and (x / 2 ^ (bit_and pos 3 * 2)) 3

-- `Bit2`
unfoldable pub bit2 : List ℕ → ℕ → Run ℕ
unfolding pair
bit2 vec pos = do x ← access (get_elem? vec (pos / 4)); done (pair x pos)

-- `x ^ ((~val & 3) << ((pos & 3) << 1))`
unfoldable pub pair_on11 : ℕ → ℕ → ℕ → ℕ
pair_on11 x pos val = bit_xor x (bit_and (2 ^ 32 - 1 - val) 3 * 2 ^ (bit_and pos 3 * 2)) % 2 ^ 8

-- `SetBit2on11`
unfoldable pub set_bit2_on11 : List ℕ → ℕ → ℕ → Run (List ℕ)
unfolding pair_on11
set_bit2_on11 vec pos val = do
  x ← access (get_elem? vec (pos / 4))
  done (set vec (pos / 4) (pair_on11 x pos val))

-- `Section`: `size * 105` is an unsigned 64-bit product, and the result an unsigned 32-bit number.
unfoldable pub section : ℕ → ℕ
section size = max 10 ((size * 105 + 255) / 256) % 2 ^ 32

-- `BitmapSize`
unfoldable pub bitmap_size : ℕ → ℕ
bitmap_size section = bit_and ((section * 3 + 31) % 2 ^ 32) (2 ^ 32 - 1 - 31) / 4

-- `1U << (pos & 7U)`
unfoldable pub bit_mask : ℕ → ℕ
bit_mask pos = 2 ^ bit_and pos 7

-- `SetBit`
unfoldable pub set_bit : List ℕ → ℕ → Run (List ℕ)
unfolding bit_mask
set_bit bitmap pos = do
  b ← access (get_elem? bitmap (pos / 8))
  done (set bitmap (pos / 8) (bit_or b (bit_mask pos) % 2 ^ 8))

-- `TestAndSetBit`: whether the bit was clear, and the bitmap with the bit set.
unfoldable pub test_and_set_bit : List ℕ → ℕ → Run (Bool × List ℕ)
unfolding bit_mask
test_and_set_bit bitmap pos = do
  b ← access (get_elem? bitmap (pos / 8))
  done (
      if bit_and b (bit_mask pos) == 0
      then (true, set bitmap (pos / 8) (bit_or b (bit_mask pos) % 2 ^ 8))
      else (false, bitmap))

-- `CountValidSlot`, the portable version: how many of the 32 two-bit values of a word are not 3.
unfoldable pub count_valid_slot : ℕ → ℕ
count_valid_slot v =
    let v = bit_and v (v / 2 ^ 1) in
    let v = (bit_and v 0x1111111111111111 + bit_and (v / 2 ^ 2) 0x1111111111111111) % 2 ^ 64 in
    let v = (v + v / 2 ^ 4) % 2 ^ 64 in
    let v = (v + v / 2 ^ 8) % 2 ^ 64 in
    let v = (bit_and v 0xf0f0f0f0f0f0f0f + bit_and (v / 2 ^ 16) 0xf0f0f0f0f0f0f0f) % 2 ^ 64 in
    let v = (v + v / 2 ^ 32) % 2 ^ 64 in (2 ^ 32 + 32 - bit_and v 0xff) % 2 ^ 32
