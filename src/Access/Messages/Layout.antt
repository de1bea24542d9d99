-- ===== src/Access/Messages/Layout.antt =====
-- Where `GetField` finds a field: behind the widths of the fields before it.
use protocache.Base.{
  ℕ, zero, suc, ◌+◌, ◌-◌, ◌*◌, ◌/◌, ◌%◌, ◌^◌, ◌≤◌, ◌<◌, ◌≡◌, refl, ap, ◌∙◌, List, Option, none,
  some, Bool, true, false, not, ◌==◌, bit_and, ltb, leb, inl, inr, Bool-cases, Run-cases, lt→ltb,
  if◌then◌else◌, done, ◌>>=◌, arith, bit_and_mask,
}
use protocache.Access.Words.{word, word64}
use protocache.Access.Fields.{Field, no_field}
use protocache.Access.Count.{widths}
use protocache.Access.Count.Sum.{count32-widths, count64-widths}
use protocache.Access.Messages.{
  Message, header, sections, section_word, field_at, has_field, get_field, inline_field,
  extended_field,
}
use native.Mathlib.Nat.{
  mod-lt, mod-le, mod-eq_of_lt, one-le-pow, pow-suc, div-add-mod', add-mul-mod_self_right,
}

-- The widths of the first `k` fields do not depend on the bits behind them.
widths-zero : (n : ℕ) → widths n 0 ≡ 0
unfolding widths
widths-zero zero = refl
widths-zero (suc n) = omega (arith, widths-zero n)

mod_pairs : (v m : ℕ) → 0 < m → v % (4 * m) ≡ v / 4 % m * 4 + v % 4
mod_pairs v m pos =
    let q = v / 4 in
    let low = q % m * 4 + v % 4 in
    let whole : v ≡ low + q / m * (4 * m) =
      omega (arith, ap (λ (t : ℕ). 4 * t) (div-add-mod' q m)) in
    ap (λ (t : ℕ). t % (4 * m)) whole
    ∙ add-mul-mod_self_right low (q / m) (4 * m)
    ∙ mod-eq_of_lt {n = low} {m = 4 * m} (omega (arith, mod-lt q pos))

widths-mod : (k n v : ℕ) → k ≤ n → widths n (v % 2 ^ (k * 2)) ≡ widths k v
unfolding widths
widths-mod zero n v h = let e : v % 2 ^ (0 * 2) ≡ 0 = omega arith in rw e (widths-zero n)
widths-mod (suc k) zero v h = absurd (omega arith)
widths-mod (suc k) (suc n) v h =
    let e : suc k * 2 ≡ suc (suc (k * 2)) = omega arith in
    let four : 2 ^ suc (suc (k * 2)) ≡ 4 * 2 ^ (k * 2) =
      omega (arith, pow-suc 2 (suc (k * 2)), pow-suc 2 (k * 2)) in
    let split = mod_pairs v (2 ^ (k * 2)) (one-le-pow (k * 2) 2 (omega arith)) in
    let rest = v / 4 % 2 ^ (k * 2) in
    let digit : (rest * 4 + v % 4) % 4 ≡ v % 4 = omega arith in
    let tail : (rest * 4 + v % 4) / 4 ≡ rest = omega arith in
    rw (e, four, split, digit, tail, widths-mod k n (v / 4) (omega arith))

-- Field `b` of a word of widths.
abbrev pub width_at : ℕ → ℕ → ℕ
width_at b v = v / 2 ^ (b * 2) % 4

inline_field_lem :
    (end : Option ℕ) (m : Message) (w id : ℕ)
    → w < 2 ^ 32
    → id < 12
    → inline_field end m w id ≡ (
        if width_at id (w / 2 ^ 8) == 0
        then no_field
        else field_at end m (sections w) (widths id (w / 2 ^ 8)) (width_at id (w / 2 ^ 8)))
unfolding inline_field
inline_field_lem end m w id h low =
    let v = w / 2 ^ 8 in
    let below = v % 2 ^ (id * 2) in
    let small : below < 2 ^ 32 = omega (arith, mod-le v (2 ^ (id * 2))) in
    rw (
      bit_and_mask 2 (v / 2 ^ (id * 2)),
      bit_and_mask (id * 2) v,
      count32-widths below small,
      widths-mod id 16 v (omega arith),
    )

extended_field_lem :
    (end : Option ℕ) (m : Message) (section v b : ℕ)
    → v < 2 ^ 64
    → b < 25
    → extended_field end m section v b ≡ (
        if width_at b v == 0
        then no_field
        else field_at end m section (widths b v + v / 2 ^ 50) (width_at b v))
unfolding extended_field
extended_field_lem end m section v b h low =
    let below = v % 2 ^ (b * 2) in
    let small : below < 2 ^ 64 = omega (arith, mod-le v (2 ^ (b * 2))) in
    rw (
      bit_and_mask 2 (v / 2 ^ (b * 2)),
      bit_and_mask (b * 2) v,
      count64-widths below small,
      widths-mod b 32 v (omega arith),
    )

-- One of the first twelve fields lies behind the sections and the words of the fields before it,
-- by the widths in the header `w`.
pub get_field-inline :
    (mem : List ℕ) (p w id : ℕ)
    → word mem p ≡ done w
    → w < 2 ^ 32
    → id < 12
    → get_field mem (some p) id none
      ≡ done (
          if width_at id (w / 2 ^ 8) == 0 then no_field else record {
            ptr_ = some (p + 1 + sections w * 2 + widths id (w / 2 ^ 8));
            width_ = width_at id (w / 2 ^ 8);
          })
unfolding get_field header field_at
get_field-inline mem p w id read h low =
    rw (read, lt→ltb id 12 low, inline_field_lem none (some p) w id h low)

-- A later field lies behind the words that its section's word `v` counts in its highest 14 bits
-- and the words of the fields before it in the section.
pub get_field-extended :
    (mem : List ℕ) (p w v id : ℕ)
    → word mem p ≡ done w
    → word64 mem (p + 1 + (id - 12) / 25 * 2) ≡ done v
    → v < 2 ^ 64
    → 12 ≤ id
    → (id - 12) / 25 < sections w
    → get_field mem (some p) id none
      ≡ done (
          if width_at ((id - 12) % 25) v == 0 then no_field else record {
            ptr_ = some (p + 1 + sections w * 2 + (widths ((id - 12) % 25) v + v / 2 ^ 50));
            width_ = width_at ((id - 12) % 25) v;
          })
unfolding get_field header section_word field_at
get_field-extended mem p w v id read read' h high there =
    let later : ltb id 12 ≡ false = ground arith in
    let has : leb (sections w) ((id - 12) / 25) ≡ false = ground arith in
    rw (
      read,
      later,
      has,
      read',
      extended_field_lem none (some p) (sections w) v ((id - 12) % 25) h (omega arith),
    )

-- Whether a pointer is set.
abbrev pub is_set : Field → Bool
is_set f = elim f.ptr_ [ none ↦ false | some p ↦ true ]

is_set-inline :
    (p w id : ℕ)
    → not (bit_and (w / 2 ^ 8 / 2 ^ (id * 2)) 3 == 0) ≡ is_set (inline_field none (some p) w id)
unfolding inline_field field_at
is_set-inline p w id = elim (Bool-cases (bit_and (w / 2 ^ 8 / 2 ^ (id * 2)) 3 == 0)) [
  | inl e ↦ rw e
  | inr e ↦ rw e
]

is_set-extended :
    (p section v b : ℕ)
    → not (bit_and (v / 2 ^ (b * 2)) 3 == 0) ≡ is_set (extended_field none (some p) section v b)
unfolding extended_field field_at
is_set-extended p section v b = elim (Bool-cases (bit_and (v / 2 ^ (b * 2)) 3 == 0)) [
  | inl e ↦ rw e
  | inr e ↦ rw e
]

-- `HasField` says whether `GetField`, given no end, finds a field: on every message at an address, faults included.
pub has_field-get_field :
    (mem : List ℕ) (p id : ℕ)
    → has_field mem (some p) id ≡ (get_field mem (some p) id none >>= λ f. done (is_set f))
unfolding has_field get_field
has_field-get_field mem p id = elim (Run-cases (header mem (some p))) [
  | inr (inl e) ↦ rw e
  | inr (inr e) ↦ rw e
  | inl (w, e) ↦ elim (Bool-cases (ltb id 12)) [
    | inl low ↦ rw (e, low, is_set-inline p w id)
    | inr high ↦ elim (Bool-cases (leb (sections w) ((id - 12) / 25))) [
      | inl missing ↦ rw (e, high, missing)
      | inr there ↦ elim (Run-cases (section_word mem (some p) ((id - 12) / 25))) [
        | inr (inl f) ↦ rw (e, high, there, f)
        | inr (inr f) ↦ rw (e, high, there, f)
        | inl (v, f) ↦ rw (e, high, there, f, is_set-extended p (sections w) v ((id - 12) % 25))
      ]
    ]
  ]
]
