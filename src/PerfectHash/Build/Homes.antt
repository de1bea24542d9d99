-- ===== src/PerfectHash/Build/Homes.antt =====
-- The slots of the keys, as CreateGraph computes them and as Locate does.
use protocache.Base.{
  ℕ, zero, suc, ◌+◌, ◌*◌, ◌/◌, ◌%◌, ◌^◌, ◌<◌, ◌≤◌, ◌≡◌, refl, ap, ◌∙◌, inl, inr, Bool-cases, ◌==◌,
  leb, List, [], get_or, get_or-some, done, arith,
}
use native.Mathlib.Nat.{mod-lt, mod-eq_of_lt}
use protocache.Hash.Digest.{digest, hash128-digest}
use protocache.Hash.Range.{digest-lt}
use protocache.PerfectHash.Division.{modulo, assign, scale, choose, approximate}
use protocache.PerfectHash.Division.Quotient.{div-assign}
use protocache.PerfectHash.Bits.{section}
use protocache.PerfectHash.Graph.{slots}
use protocache.PerfectHash.Graph.Create.{SlotsOf}
use protocache.PerfectHash.Mapping.Placing.{own}

-- The slot of a key in section `j`.
abbrev pub slot_in : ℕ → ℕ → ℕ → List ℕ → ℕ
slot_in m seed zero key = (digest key seed).0 % 2 ^ 32 % m
slot_in m seed (suc zero) key = (digest key seed).0 / 2 ^ 32 % m
slot_in m seed (suc (suc j)) key = (digest key seed).1 % 2 ^ 32 % m

-- The slot whose block Locate looks at, where the bitmap has the values `f`.
abbrev pub home : ℕ → ℕ → (ℕ → ℕ) → List ℕ → ℕ
home m seed f key =
    own f (slot_in m seed 0 key) (slot_in m seed 1 key + m) (slot_in m seed 2 key + m * 2)

-- The slots of the keys by their numbers.
abbrev pub slots_by : ℕ → ℕ → List (List ℕ) → ℕ → ℕ → ℕ
slots_by m seed source j i = slot_in m seed j (get_or source i [])

pub slot_in-lt : (m seed j : ℕ) (key : List ℕ) → 0 < m → slot_in m seed j key < m
slot_in-lt m seed zero key pos = mod-lt _ pos
slot_in-lt m seed (suc zero) key pos = mod-lt _ pos
slot_in-lt m seed (suc (suc j)) key pos = mod-lt _ pos

pub section-bounds : (n : ℕ) → n < 2 ^ 28 → (0 < section n) × (section n < 2 ^ 32)
unfolding section
section-bounds n small = (omega arith, omega arith)

-- Fewer keys than a Word can number have slots that a Word can number.
pub section-word : (w n : ℕ) → 16 ≤ 2 ^ w → n < 2 ^ w → section n ≤ 2 ^ w
unfolding section
section-word w n wide h = omega arith

pub val_-assign : (m : ℕ) → (assign m).val_ ≡ m
unfolding assign choose approximate
val_-assign m = elim (Bool-cases (m == 0)) [
  | inl e ↦ rw e refl
  | inr e ↦
      let (sft, p) = scale m 31 (2 ^ 31) in
      rw e elim (Bool-cases (p == m)) [
        | inl e' ↦ rw e' refl
        | inr e' ↦ rw e' elim (Bool-cases (leb ((p * 2 ^ 32 / m % 2 ^ 32 * m + m) % 2 ^ 32) p)) [
          | inl e'' ↦ rw e'' refl
          | inr e'' ↦ rw e'' refl
        ]
      ]
]

module _ (w n seed : ℕ) (small : n < 2 ^ 28) (fits : section n ≤ 2 ^ w) where
  pub slots_lem :
      (key : List ℕ)
      → slots w (assign (section n)) key seed
        ≡ done (
          slot_in (section n) seed 0 key,
          slot_in (section n) seed 1 key,
          slot_in (section n) seed 2 key,
        )
  unfolding slots
  slots_lem key =
      let m = section n in
      let (pos, m_lt) = section-bounds n small in
      let (lo_lt, hi_lt) = digest-lt key seed in
      let (lo, hi) = digest key seed in
      let divided : (x : ℕ) → x < 2 ^ 32 → modulo (assign m) x % 2 ^ w ≡ x % m = λ x h.
        let (_, e) = div-assign m x pos m_lt h in
        ap (λ t. t % 2 ^ w) e ∙ mod-eq_of_lt (omega (arith, mod-lt x pos)) in
      rw
        (
          hash128-digest key seed,
          divided (lo % 2 ^ 32) (omega arith),
          divided (lo / 2 ^ 32) (omega arith),
          divided (hi % 2 ^ 32) (omega arith),
        )
        refl

  pub slots_by-SlotsOf :
      (source : List (List ℕ))
      → SlotsOf w (assign (section n)) seed (slots_by (section n) seed source) 0 source
  slots_by-SlotsOf source p key there =
      let same : get_or source p [] ≡ key = get_or-some source p key [] there in
      let from_zero : 0 + p ≡ p = omega arith in rw (from_zero, same) (slots_lem key)
