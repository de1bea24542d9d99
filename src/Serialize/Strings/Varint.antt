-- ===== src/Serialize/Strings/Varint.antt =====
-- WriteVarInt, and how the class String reads what it wrote.
use protocache.Base.{
  ℕ, zero, suc, ◌+◌, ◌*◌, ◌/◌, ◌%◌, ◌^◌, ◌<◌, ◌≤◌, ◌≡◌, refl, ap, sym, ◌∙◌, inl, inr, true, false,
  Bool-cases, ◌==◌, ltb, bit_and, bit_or, bit_and_mask, bit_or_high, agree_below, agree_below→eq,
  List, [], ◌∷◌, length, some, none, done, arith,
}
use native.Mathlib.Numerals.{towards_suc}
use native.Mathlib.Nat.{pow-le-pow_right}
use protocache.Access.Words.{byte}
use protocache.Access.Strings.{read_mark}
use protocache.Serialize.Strings.{write_varint}

-- The bytes of the memory from `p` on.
abbrev pub Holds : List ℕ → ℕ → List ℕ → Type 0
Holds mem p [] = Unit {0}
Holds mem p (b ∷ bs) = (byte mem p ≡ done b) × Holds mem (p + 1) bs

-- A byte that says that more follow.
pub more_bits :
    (n : ℕ)
    → (bit_and (bit_or 0x80 (n % 128)) 0x80 == 0 ≡ false)
      × (bit_and (bit_or 0x80 (n % 128)) 0x7f ≡ n % 128)
unfolding agree_below
more_bits n = (
  ground (
    arith,
    agree_below→eq (λ r. bit_and (bit_or 0x80 r) 0x80) (λ r. 128) 128 refl (n % 128) (omega arith),
  ),
  agree_below→eq (λ r. bit_and (bit_or 0x80 r) 0x7f) (λ r. r) 128 refl (n % 128) (omega arith),
)

pub last_bit : (n : ℕ) → n < 128 → bit_and n 0x80 == 0 ≡ true
unfolding agree_below
last_bit n h = ground (arith, agree_below→eq (λ r. bit_and r 0x80) (λ r. 0) 128 refl n h)

shift_lt : (n sft : ℕ) → 128 ≤ n → n * 2 ^ sft < 2 ^ 32 → sft + 7 < 32
shift_lt n sft h small = elim (Bool-cases (ltb (sft + 7) 32)) [
  | inl yes_lt ↦ ground arith
  | inr over ↦
      let high : 32 ≤ sft + 7 = ground arith in
      let large = pow-le-pow_right {n = 2} (omega arith) high in
      let split : 2 ^ (sft + 7) ≡ 128 * 2 ^ sft = simp towards_suc (omega arith) in
      let product : 128 * 2 ^ sft ≤ n * 2 ^ sft = grind arith in absurd (omega arith)
]

-- The group that is read at `sft`, and what is left of the number.
group_lem :
    (sft n mark : ℕ)
    → mark < 2 ^ sft
    → (n / 2 ^ 7 * 2 ^ (sft + 7) + n % 128 * 2 ^ sft ≡ n * 2 ^ sft)
      × (mark + n % 128 * 2 ^ sft < 2 ^ (sft + 7))
group_lem sft n mark room =
    let q = 2 ^ sft in
    let split : 2 ^ (sft + 7) ≡ 128 * q = simp towards_suc (omega arith) in
    let whole : n ≡ n / 128 * 128 + n % 128 = omega arith in
    let spread : (n / 128 * 128 + n % 128) * q ≡ n / 128 * (128 * q) + n % 128 * q = grind arith in
    let upper : n % 128 * q ≤ 127 * q = grind arith in
    (rw split (sym spread ∙ ap (λ t. t * q) (sym whole)), rw split (omega arith))

fewer_lem : (fuel n : ℕ) → n < 2 ^ (7 * suc fuel) → n / 2 ^ 7 < 2 ^ (7 * fuel)
fewer_lem fuel n h =
    let q = 2 ^ (7 * fuel) in
    let power : 7 * suc fuel ≡ 7 * fuel + 7 = omega arith in
    let split : 2 ^ (7 * fuel + 7) ≡ 128 * q = simp towards_suc (omega arith) in
    let bound : n < 128 * q = rw (power, split) at h in omega arith

-- `String` reads the groups of seven bits from `sft` on.
pub read_mark-varint :
    (fuel : ℕ) (mem : List ℕ) (sft n mark p : ℕ)
    → sft < 32
    → 1 ≤ n
    → n * 2 ^ sft < 2 ^ 32
    → n < 2 ^ (7 * fuel)
    → mark < 2 ^ sft
    → Holds mem p (write_varint fuel n)
    → read_mark (suc fuel) mem none sft mark p
      ≡ done (record {
        ptr_ = some (p + length (write_varint fuel n));
        len_ = (mark + n * 2 ^ sft) / 2 ^ 2;
      })
unfolding read_mark write_varint
read_mark-varint zero mem sft n mark p hs pos small fits room holds = absurd (omega arith)
read_mark-varint (suc fuel) mem sft n mark p hs pos small fits room holds =
    elim (Bool-cases (ltb n 0x80)) [
      | inl last ↦
          let inside : ltb sft 32 ≡ true = ground arith in
          let (found, _) = rw last at holds in
          rw (inside, found, last, last_bit n (ground arith), bit_or_high sft n mark room) refl
      | inr more ↦
          let inside : ltb sft 32 ≡ true = ground arith in
          let (found, next) = rw more at holds in
          let mask : bit_and n 0x7f ≡ n % 128 = bit_and_mask 7 n in
          let many : 128 ≤ n = ground arith in
          let found' : byte mem p ≡ done (bit_or 0x80 (n % 128)) = rw (← mask) found in
          let (flag, group) = more_bits n in
          let ends = group_lem sft n mark room in
          let below = shift_lt n sft many small in
          let rest =
            read_mark-varint fuel mem (sft + 7) (n / 2 ^ 7) (mark + n % 128 * 2 ^ sft) (p + 1) below
              (omega arith) (omega (arith, ends.0)) (fewer_lem fuel n fits) ends.1 next in
          let digits = length (write_varint fuel (n / 2 ^ 7)) in
          let total : mark + n % 128 * 2 ^ sft + n / 2 ^ 7 * 2 ^ (sft + 7) ≡ mark + n * 2 ^ sft =
            omega (arith, ends.0) in
          let place : p + 1 + digits ≡ p + suc digits = omega arith in
          rw (inside, found', flag, group, bit_or_high sft (n % 128) mark room, more)
            (rest ∙ rw (total, place) refl)
    ]
