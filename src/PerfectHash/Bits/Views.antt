-- ===== src/PerfectHash/Bits/Views.antt =====
-- The bits and the two-bit values of a vector of bytes as functions of their place, and the operations as
-- updates of these functions.
use protocache.Base.{
  ℕ, zero, suc, ◌+◌, ◌*◌, ◌/◌, ◌%◌, ◌^◌, ◌<◌, ◌≤◌, ◌≡◌, refl, ap, sym, ◌∙◌, inl, inr, true, false,
  Bool, Bool-cases, ◌==◌, if◌then◌else◌, bit_and, bit_or, bit_and_mask, agree_below, agree_below→eq,
  List, [], ◌∷◌, get_elem?-get_or, get_or-set, get_or, set, length, length-set, Run, done, arith,
  All, not,
}
use protocache.PerfectHash.Bits.{
  pair, bit2, pair_on11, set_bit2_on11, bit_mask, set_bit, test_and_set_bit,
}
use protocache.PerfectHash.Bits.Values.{byte_case, pair-mod, pair_on11-mod}

abbrev pub Bytes : List ℕ → Type 0
Bytes = All (λ b. b < 256)

pub get_or-Bytes : (xs : List ℕ) (i : ℕ) → Bytes xs → get_or xs i 0 < 256
get_or-Bytes [] i h = omega arith
get_or-Bytes (x ∷ xs) zero h = h.0
get_or-Bytes (x ∷ xs) (suc i) h = get_or-Bytes xs i h.1

set-Bytes : (xs : List ℕ) (i v : ℕ) → Bytes xs → v < 256 → Bytes (set xs i v)
set-Bytes [] i v h hv = tt
set-Bytes (x ∷ xs) zero v h hv = (hv, h.1)
set-Bytes (x ∷ xs) (suc i) v h hv = (h.0, set-Bytes xs i v h.1 hv)

-- The two-bit value at a place.
abbrev pub pair_at : List ℕ → ℕ → ℕ
pair_at vec q = pair (get_or vec (q / 4) 0) q

pub bit2-pair_at : (vec : List ℕ) (q : ℕ) → q < 4 * length vec → bit2 vec q ≡ done (pair_at vec q)
unfolding bit2
bit2-pair_at vec q h = rw (get_elem?-get_or vec (q / 4) 0 (omega arith))

pub pair_at-le : (vec : List ℕ) (q : ℕ) → pair_at vec q ≤ 3
unfolding pair
pair_at-le vec q =
    let x = get_or vec (q / 4) 0 / 2 ^ (bit_and q 3 * 2) in omega (arith, bit_and_mask 2 x)

-- A vector of bytes of the same length that differs from `vec` as `f` says.
pub record PairsOf (vec : List ℕ) (f : ℕ → ℕ) (r : Run (List ℕ)) : Type 0 where
  pub next : List ℕ
  pub returns : r ≡ done next
  pub bytes : Bytes next
  pub same_length : length next ≡ length vec
  pub values : (q : ℕ) → pair_at next q ≡ f q

set-pair_at :
    (vec : List ℕ) (pos val q : ℕ)
    → Bytes vec
    → pos < 4 * length vec
    → val < 4
    → pair_at vec pos ≡ 3
    → pair_at (set vec (pos / 4) (pair_on11 (get_or vec (pos / 4) 0) pos val)) q
      ≡ (if q == pos then val else pair_at vec q)
set-pair_at vec pos val q bytes inside hv e =
    let x = get_or vec (pos / 4) 0 in
    let x' = pair_on11 x pos val in
    let small = get_or-Bytes vec (pos / 4) bytes in
    let full : pair x (pos % 4) ≡ 3 = sym (pair-mod x pos) ∙ e in
    let here = get_or-set vec (pos / 4) (q / 4) x' 0 (omega arith) in
    elim (Bool-cases (q / 4 == pos / 4)) [
      | inr other ↦ let differ : (q == pos) ≡ false = ground arith in rw (here, other, differ)
      | inl shared ↦
          let near : q / 4 ≡ pos / 4 = ground arith in
          let value = byte_case x (pos % 4) (q % 4) val small (omega arith) (omega arith) hv full in
          let both : (q % 4 == pos % 4) ≡ (q == pos) = ground arith in
          rw (here, shared, near, pair-mod x' q, pair_on11-mod x pos val, value, both, pair-mod x q)
    ]

pub set_bit2_on11-PairsOf :
    (vec : List ℕ) (pos val : ℕ)
    → Bytes vec
    → pos < 4 * length vec
    → val < 4
    → pair_at vec pos ≡ 3
    → PairsOf vec (λ q. if q == pos then val else pair_at vec q) (set_bit2_on11 vec pos val)
unfolding set_bit2_on11
set_bit2_on11-PairsOf vec pos val bytes inside hv e =
    let i = pos / 4 in
    let x = get_or vec i 0 in
    let x' = pair_on11 x pos val in
    let room : i < length vec = omega arith in
    let small = get_or-Bytes vec i bytes in
    let full : pair x (pos % 4) ≡ 3 = sym (pair-mod x pos) ∙ e in
    record {
      next = set vec i x';
      returns = rw (get_elem?-get_or vec i 0 room);
      bytes = set-Bytes vec i x' bytes (unfold pair_on11 in omega arith);
      same_length = length-set vec i x';
      values = λ q. set-pair_at vec pos val q bytes inside hv e;
    }

-- The bit at a place.
abbrev byte_bit : ℕ → ℕ → Bool
byte_bit x q = not (bit_and x (bit_mask q) == 0)

abbrev pub bit_at : List ℕ → ℕ → Bool
bit_at vec q = byte_bit (get_or vec (q / 8) 0) q

bit_mask-mod : (q : ℕ) → bit_mask q ≡ bit_mask (q % 8)
unfolding bit_mask
bit_mask-mod q =
    let e : bit_and q 7 ≡ bit_and (q % 8) 7 =
      bit_and_mask 3 q ∙ omega arith ∙ sym (bit_and_mask 3 (q % 8)) in
    rw e

-- A case of a byte's values: the byte, the place that is set and the place that is read.
abbrev found : ℕ → ℕ
found n = if byte_bit (bit_or (n / 64) (bit_mask (n / 8 % 8)) % 2 ^ 8) (n % 8) then 1 else 0

abbrev wanted : ℕ → ℕ
wanted n = if n % 8 == n / 8 % 8 then 1 else if byte_bit (n / 64) (n % 8) then 1 else 0

all_cases : agree_below found wanted 16384 ≡ true
unfolding agree_below bit_mask
all_cases = refl

same_test :
    (b c d : Bool)
    → ◌≡◌ {A = ℕ} (if b then 1 else 0) (if c then 1 else if d then 1 else 0)
    → b ≡ (if c then true else d)
same_test true true d e = refl
same_test true false true e = refl
same_test true false false e = absurd (omega (arith, e))
same_test false true d e = absurd (omega (arith, e))
same_test false false true e = absurd (omega (arith, e))
same_test false false false e = refl

byte_bit-mark :
    (x pos q : ℕ)
    → x < 256
    → pos < 8
    → q < 8
    → byte_bit (bit_or x (bit_mask pos) % 2 ^ 8) q ≡ (if q == pos then true else byte_bit x q)
byte_bit-mark x pos q hx hp hq =
    let n = x * 64 + pos * 8 + q in
    let ex : n / 64 ≡ x = omega arith in
    let ep : n / 8 % 8 ≡ pos = omega arith in
    let eq : n % 8 ≡ q = omega arith in
    same_test _ (q == pos) (byte_bit x q)
      (rw (ex, ep, eq) at (agree_below→eq found wanted 16384 all_cases n (omega arith)))

-- A vector of bytes of the same length whose bits are as `f` says.
pub record BitsOf (vec : List ℕ) (f : ℕ → Bool) (next : List ℕ) : Type 0 where
  pub bytes : Bytes next
  pub same_length : length next ≡ length vec
  pub values : (q : ℕ) → bit_at next q ≡ f q

-- The vector with the bit at `pos` set.
abbrev pub marked : List ℕ → ℕ → List ℕ
marked vec pos = set vec (pos / 8) (bit_or (get_or vec (pos / 8) 0) (bit_mask pos) % 2 ^ 8)

bit_at-marked :
    (vec : List ℕ) (pos q : ℕ)
    → Bytes vec
    → pos < 8 * length vec
    → bit_at (marked vec pos) q ≡ (if q == pos then true else bit_at vec q)
bit_at-marked vec pos q bytes inside =
    let x = get_or vec (pos / 8) 0 in
    let small = get_or-Bytes vec (pos / 8) bytes in
    let here = get_or-set vec (pos / 8) (q / 8) (bit_or x (bit_mask pos) % 2 ^ 8) 0 (omega arith) in
    elim (Bool-cases (q / 8 == pos / 8)) [
      | inr other ↦ let differ : (q == pos) ≡ false = ground arith in rw (here, other, differ)
      | inl shared ↦
          let near : q / 8 ≡ pos / 8 = ground arith in
          let value = byte_bit-mark x (pos % 8) (q % 8) small (omega arith) (omega arith) in
          let both : (q % 8 == pos % 8) ≡ (q == pos) = ground arith in
          rw (here, shared, near, bit_mask-mod q, bit_mask-mod pos, value, both)
    ]

pub marked-BitsOf :
    (vec : List ℕ) (pos : ℕ)
    → Bytes vec
    → pos < 8 * length vec
    → BitsOf vec (λ q. if q == pos then true else bit_at vec q) (marked vec pos)
marked-BitsOf vec pos bytes inside = record {
  bytes = set-Bytes vec (pos / 8) _ bytes (omega arith);
  same_length = length-set vec (pos / 8) _;
  values = λ q. bit_at-marked vec pos q bytes inside;
}

pub set_bit-marked :
    (vec : List ℕ) (pos : ℕ) → pos < 8 * length vec → set_bit vec pos ≡ done (marked vec pos)
unfolding set_bit
set_bit-marked vec pos inside = rw (get_elem?-get_or vec (pos / 8) 0 (omega arith))

not_if {ℓ} : {A : Type ℓ} (b : Bool) (x y : A) → (if b then x else y) ≡ (if not b then y else x)
not_if true x y = refl
not_if false x y = refl

pub test_and_set_bit-marked :
    (vec : List ℕ) (pos : ℕ)
    → pos < 8 * length vec
    → test_and_set_bit vec pos
      ≡ done (if bit_at vec pos then (false, vec) else (true, marked vec pos))
unfolding test_and_set_bit
test_and_set_bit-marked vec pos inside =
    rw (get_elem?-get_or vec (pos / 8) 0 (omega arith))
      (ap done (not_if (bit_and (get_or vec (pos / 8) 0) (bit_mask pos) == 0) _ _))
