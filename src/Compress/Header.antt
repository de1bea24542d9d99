-- ===== src/Compress/Header.antt =====
-- The size header: `put_size` in front of a source of less than 2 ^ 32 bytes, and `parse_size` on it.
use protocache.Base.{
  ℕ, zero, suc, ◌+◌, ◌-◌, ◌*◌, ◌/◌, ◌%◌, ◌^◌, ◌≤◌, ◌<◌, ◌≡◌, refl, ap, ◌∙◌, inl, inr, List, [], ◌∷◌,
  ◌++◌, arith, some, bit_and, bit_or, if◌then◌else◌, ltb, done, append_assoc, bit_and_mask,
  bit_and_shift, bit_or_high, agree_below, agree_below→eq, Bool-cases,
}
use native.Mathlib.Numerals.{towards_suc}
use native.Mathlib.Nat.{mod-eq_of_lt, div-add-mod}
use protocache.Compress.{put_size, parse_size}

-- Groups of seven bits, the lowest first; the top bit says that another group follows.
unfoldable pub groups : ℕ → ℕ → List ℕ
groups zero n = n ∷ []
groups (suc k) n = if ltb n 128 then n ∷ [] else (128 + n % 128) ∷ groups k (n / 128)

-- The source's 32-bit mask tests for more than seven bits, below 2 ^ 32.
high_bits : (n : ℕ) → n < 2 ^ 32 → bit_and n 0xffffff80 ≡ n / 128 * 128
high_bits n h =
    bit_and_shift 7 (2 ^ 25 - 1) n
    ∙ ap (λ t. t * 128)
        (bit_and_mask 25 (n / 128) ∙ mod-eq_of_lt {n = n / 128} {m = 2 ^ 25} (omega arith))

more_byte : (g : ℕ) → g < 128 → bit_or 0x80 g ≡ 128 + g
unfolding agree_below
more_byte = agree_below→eq _ _ 128 refl

low_group : (b : ℕ) → bit_and b 0x7f ≡ b % 128
low_group = bit_and_mask 7

top_bit : (b : ℕ) → b < 256 → bit_and b 0x80 ≡ b / 128 * 128
unfolding agree_below
top_bit = agree_below→eq _ _ 256 refl

put_size-groups :
    (k fuel n : ℕ) (out : List ℕ)
    → n < 2 ^ 32
    → n < 128 ^ suc k
    → suc k ≤ fuel
    → put_size fuel out n ≡ done (out ++ groups k n)
unfolding put_size groups
put_size-groups k zero n out h small enough = absurd (omega arith)
put_size-groups zero (suc fuel) n out h small enough = ground (arith, high_bits n h)
put_size-groups (suc k) (suc fuel) n out h small enough = ground (
  arith,
  high_bits n h,
  low_group n,
  more_byte (n % 128),
  put_size-groups k fuel (n / 128) (out ++ ((128 + n % 128) ∷ [])) (omega arith) (omega arith)
      (omega arith),
  append_assoc out ((128 + n % 128) ∷ []) (groups k (n / 128)),
)

shift_seven : (s : ℕ) → 2 ^ (s + 7) ≡ 128 * 2 ^ s
shift_seven s = simp towards_suc (omega arith)

-- The lowest group and the rest of `n`, from bit `s` on.
split_group : (n s : ℕ) → n * 2 ^ s ≡ n % 128 * 2 ^ s + n / 128 * 2 ^ (s + 7)
split_group n s = omega (
  arith,
  ap (λ (t : ℕ). t * 2 ^ s) (div-add-mod n 128),
  ap (λ (t : ℕ). n / 128 * t) (shift_seven s),
)

group_fits : (g s : ℕ) → g < 128 → g * 2 ^ s ≤ 127 * 2 ^ s
group_fits g s h = grind arith

-- `n` counts from bit `sft` on, and `acc` has the bits below.
parse_size-groups :
    (k n sft acc : ℕ) (rest : List ℕ)
    → n < 128 ^ suc k
    → acc < 2 ^ sft
    → acc + n * 2 ^ sft < 2 ^ 32
    → sft + 7 * k ≤ 28
    → parse_size sft acc (groups k n ++ rest) ≡ some (acc + n * 2 ^ sft, rest)
unfolding parse_size groups
parse_size-groups zero n sft acc rest hn ha fits hs =
    ground (arith, top_bit n, bit_or_high sft n acc ha)
parse_size-groups (suc k) n sft acc rest hn ha fits hs = elim (Bool-cases (ltb n 128)) [
  | inl e ↦ rw e (ground (arith, top_bit n, bit_or_high sft n acc ha))
  | inr e ↦ rw e (
      ground (
        arith,
        low_group (128 + n % 128),
        top_bit (128 + n % 128),
        split_group n sft,
        shift_seven sft,
        group_fits (n % 128) sft,
        bit_or_high sft (n % 128) acc ha,
        parse_size-groups k (n / 128) (sft + 7) (acc + n % 128 * 2 ^ sft) rest (omega arith),
      ))
]

-- Whatever the size, `parse_size` reads back the header that `put_size` wrote, and stops behind it.
pub header_lem :
    (n : ℕ)
    → n < 2 ^ 32
    → (header : List ℕ) × (put_size 10 [] n ≡ done header)
      × ((rest : List ℕ) → parse_size 0 0 (header ++ rest) ≡ some (n, rest))
header_lem n h = (
  groups 4 n,
  put_size-groups 4 10 n [] h (omega arith) (omega arith),
  λ rest.
      parse_size-groups 4 n 0 0 rest (omega arith) (omega arith) (omega arith) (omega arith)
      ∙ ap (λ (t : ℕ). some (t, rest)) (omega arith),
)
