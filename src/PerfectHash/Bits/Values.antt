-- ===== src/PerfectHash/Bits/Values.antt =====
-- `SetBit2on11` writes the value that `Bit2` reads, and no other.
use protocache.Base.{
  ℕ, zero, suc, ◌+◌, ◌*◌, ◌/◌, ◌%◌, ◌<◌, ◌≡◌, refl, ap, sym, ◌∙◌, inl, inr, true, false, Bool-cases,
  ◌==◌, if◌then◌else◌, bit_and, bit_and_mask, agree_below, agree_below→eq, List, [], ◌∷◌, get_elem?,
  get_elem?-set_self, get_elem?-set_ne, length, done, access, ◌>>=◌, arith, All, >>=-eq-done, ◌≢◌,
}
use protocache.PerfectHash.Bits.{pair, bit2, pair_on11, set_bit2_on11}

-- A case of the byte's values: the byte, both places and the value.
abbrev found : ℕ → ℕ
found n =
    let x = n / 64 in
    let pos = n / 16 % 4 in
    let q = n / 4 % 4 in if pair x pos == 3 then pair (pair_on11 x pos (n % 4)) q else 0

abbrev wanted : ℕ → ℕ
wanted n =
    let x = n / 64 in
    let pos = n / 16 % 4 in
    let q = n / 4 % 4 in if pair x pos == 3 then (if q == pos then n % 4 else pair x q) else 0

all_cases : agree_below found wanted 16384 ≡ true
unfolding agree_below pair pair_on11
all_cases = refl

pub byte_case :
    (x pos q val : ℕ)
    → x < 256
    → pos < 4
    → q < 4
    → val < 4
    → pair x pos ≡ 3
    → pair (pair_on11 x pos val) q ≡ (if q == pos then val else pair x q)
byte_case x pos q val hx hp hq hv e =
    let n = x * 64 + pos * 16 + q * 4 + val in
    let ex : n / 64 ≡ x = omega arith in
    let ep : n / 16 % 4 ≡ pos = omega arith in
    let eq : n / 4 % 4 ≡ q = omega arith in
    let ev : n % 4 ≡ val = omega arith in
    let full : (pair x pos == 3) ≡ true = ground arith in
    rw (ex, ep, eq, ev, full) at (agree_below→eq found wanted 16384 all_cases n (omega arith))

pub pair-mod : (x pos : ℕ) → pair x pos ≡ pair x (pos % 4)
unfolding pair
pair-mod x pos =
    let e : bit_and pos 3 ≡ bit_and (pos % 4) 3 =
      bit_and_mask 2 pos ∙ omega arith ∙ sym (bit_and_mask 2 (pos % 4)) in
    rw e

pub pair_on11-mod : (x pos val : ℕ) → pair_on11 x pos val ≡ pair_on11 x (pos % 4) val
unfolding pair_on11
pair_on11-mod x pos val =
    let e : bit_and pos 3 ≡ bit_and (pos % 4) 3 =
      bit_and_mask 2 pos ∙ omega arith ∙ sym (bit_and_mask 2 (pos % 4)) in
    rw e

-- A byte that a read finds.
byte_there :
    (vec : List ℕ) (i x : ℕ)
    → All (λ b. b < 256) vec
    → access (get_elem? vec i) ≡ done x
    → (i < length vec) × (x < 256)
byte_there [] i x h e = cc
byte_there (b ∷ vec) zero x h e = let same : b ≡ x = cc in (omega arith, rw (← same) h.0)
byte_there (b ∷ vec) (suc i) x h e =
    let (inside, small) = byte_there vec i x h.1 e in (omega arith, small)

-- Where a vector of bytes has the value 3, `SetBit2on11` ends without a fault, and then `Bit2` reads the
-- new value there and what it read before at every other place, faults included.
pub bit2-set_bit2_on11 :
    (vec : List ℕ) (pos val q : ℕ)
    → All (λ b. b < 256) vec
    → val < 4
    → bit2 vec pos ≡ done 3
    → (set_bit2_on11 vec pos val >>= λ v. bit2 v q) ≡ (if q == pos then done val else bit2 vec q)
unfolding bit2 set_bit2_on11
bit2-set_bit2_on11 vec pos val q bytes hv e =
    let (x, read, now) =
      >>=-eq-done (access (get_elem? vec (pos / 4))) (λ x. done (pair x pos)) e in
    let (inside, small) = byte_there vec (pos / 4) x bytes read in
    let full : pair x (pos % 4) ≡ 3 = sym (pair-mod x pos) ∙ cc in
    let new = byte_case x (pos % 4) (q % 4) val small (omega arith) (omega arith) hv full in
    let x' = pair_on11 x pos val in
    let self = get_elem?-set_self vec (pos / 4) x' inside in
    elim (Bool-cases (q / 4 == pos / 4)) [
      | inr other ↦
          let apart : pos / 4 ≢ q / 4 = ground arith in
          let differ : (q == pos) ≡ false = ground arith in
          rw (read, get_elem?-set_ne vec x' apart, differ)
      | inl shared ↦
          let near : q / 4 ≡ pos / 4 = ground arith in
          let value : pair x' q ≡ (if q % 4 == pos % 4 then val else pair x q) =
            pair-mod x' q
            ∙ ap (λ t. pair t (q % 4)) (pair_on11-mod x pos val)
            ∙ new
            ∙ ap (λ t. if q % 4 == pos % 4 then val else t) (sym (pair-mod x q)) in
          elim (Bool-cases (q == pos)) [
            | inl same ↦
                let low : (q % 4 == pos % 4) ≡ true = ground arith in
                rw (read, near, self, same) (ap done (value ∙ rw low refl))
            | inr differ ↦
                let low : (q % 4 == pos % 4) ≡ false = ground arith in
                rw (read, near, self, differ, read) (ap done (value ∙ rw low refl))
          ]
    ]
