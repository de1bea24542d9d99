-- ===== src/PerfectHash/Build/Table.antt =====
-- The table of counts behind the bitmap.
use protocache.Base.{
  ℕ, zero, suc, ◌+◌, ◌*◌, ◌/◌, ◌%◌, ◌^◌, ◌<◌, ◌≡◌, refl, ap, sym, ◌∙◌, List, [], ◌∷◌, length,
  get_elem?, some, arith,
}
use native.Mathlib.Nat.{mod-eq_of_lt}
use protocache.Hash.{little_endian}
use protocache.PerfectHash.Bits.{count_valid_slot}
use protocache.PerfectHash.Bits.Views.{Bytes}
use protocache.PerfectHash.Bits.Counted.{valid_pairs, count_valid_slot_lem}
use protocache.PerfectHash.Bits.Prefix.{valid_pairs-add, valid_pairs-low}
use protocache.PerfectHash.Build.{count_table}

-- Eight bytes as a number.
abbrev pub block : ℕ → ℕ → ℕ → ℕ → ℕ → ℕ → ℕ → ℕ → ℕ
block b0 b1 b2 b3 b4 b5 b6 b7 =
    b0
    + b1 * 2 ^ 8
    + b2 * 2 ^ 16
    + b3 * 2 ^ 24
    + b4 * 2 ^ 32
    + b5 * 2 ^ 40
    + b6 * 2 ^ 48
    + b7 * 2 ^ 56

-- The counts of the blocks of a bitmap, from the count `cnt` on.
pub record Counts (k cnt v : ℕ) (r : List ℕ × ℕ) : Type 0 where
  pub blocks : length r.0 ≡ k
  pub before : (a : ℕ) → a < k → get_elem? r.0 a ≡ some (cnt + valid_pairs (a * 32) v)
  pub whole : r.1 ≡ cnt + valid_pairs (k * 32) v

pub first_block :
    (b0 b1 b2 b3 b4 b5 b6 b7 : ℕ) (bytes : List ℕ)
    → little_endian (b0 ∷ b1 ∷ b2 ∷ b3 ∷ b4 ∷ b5 ∷ b6 ∷ b7 ∷ bytes)
      ≡ block b0 b1 b2 b3 b4 b5 b6 b7 + 4 ^ 32 * little_endian bytes
unfolding little_endian
first_block b0 b1 b2 b3 b4 b5 b6 b7 bytes = omega arith

block-lt :
    (b0 b1 b2 b3 b4 b5 b6 b7 : ℕ)
    → b0 < 256
    → b1 < 256
    → b2 < 256
    → b3 < 256
    → b4 < 256
    → b5 < 256
    → b6 < 256
    → b7 < 256
    → block b0 b1 b2 b3 b4 b5 b6 b7 < 4 ^ 32
block-lt b0 b1 b2 b3 b4 b5 b6 b7 h0 h1 h2 h3 h4 h5 h6 h7 = omega arith

entries :
    (k cnt : ℕ) (table : List ℕ) (f : ℕ → ℕ)
    → cnt ≡ f 0
    → ((a : ℕ) → a < k → get_elem? table a ≡ some (f (suc a)))
    → (a : ℕ) → a < suc k
    → get_elem? (cnt ∷ table) a ≡ some (f a)
entries k cnt table f first later zero h = ap (λ (t : ℕ). some t) first
entries k cnt table f first later (suc a) h = later a (omega arith)

module _ (w : ℕ) where
  pub count_table-Counts :
      (k : ℕ) (bytes : List ℕ) (cnt : ℕ)
      → length bytes ≡ k * 8
      → Bytes bytes
      → cnt + valid_pairs (k * 32) (little_endian bytes) < 2 ^ w
      → Counts k cnt (little_endian bytes) (count_table w bytes cnt)
  unfolding count_table valid_pairs
  count_table-Counts zero [] cnt len bytes fits = record {
    blocks = refl;
    before = λ a h. absurd (omega arith);
    whole = omega arith;
  }
  count_table-Counts (suc k) (b0 ∷ b1 ∷ b2 ∷ b3 ∷ b4 ∷ b5 ∷ b6 ∷ b7 ∷ bytes) cnt len
        (h0, (h1, (h2, (h3, (h4, (h5, (h6, (h7, h)))))))) fits =
      let x = block b0 b1 b2 b3 b4 b5 b6 b7 in
      let v = little_endian (b0 ∷ b1 ∷ b2 ∷ b3 ∷ b4 ∷ b5 ∷ b6 ∷ b7 ∷ bytes) in
      let rest = little_endian bytes in
      let split : v ≡ x + 4 ^ 32 * rest = first_block b0 b1 b2 b3 b4 b5 b6 b7 bytes in
      let above : v / 4 ^ 32 ≡ rest =
        let small = block-lt b0 b1 b2 b3 b4 b5 b6 b7 h0 h1 h2 h3 h4 h5 h6 h7 in
        omega (arith, split) in
      let one : count_valid_slot x ≡ valid_pairs 32 v =
        count_valid_slot_lem x ∙ sym (ap (valid_pairs 32) split ∙ valid_pairs-low 32 x rest) in
      let more : (a : ℕ)
          → valid_pairs (suc a * 32) v ≡ valid_pairs 32 v + valid_pairs (a * 32) rest =
        λ a.
          let e : suc a * 32 ≡ 32 + a * 32 = omega arith in
          rw e (rw above at (valid_pairs-add 32 (a * 32) v)) in
      let exact : (cnt + count_valid_slot x) % 2 ^ w ≡ cnt + valid_pairs 32 v =
        ap (λ t. (cnt + t) % 2 ^ w) one ∙ mod-eq_of_lt (omega (arith, more k, fits)) in
      let c =
        count_table-Counts k bytes (cnt + valid_pairs 32 v) (omega arith) h
          (omega (arith, more k, fits)) in
      rw exact (record {
        blocks = omega (arith, c.blocks);
        before =
            entries k cnt _ (λ a. cnt + valid_pairs (a * 32) v) (omega arith)
              (λ a ha. c.before a ha ∙ ap (λ (t : ℕ). some t) (omega (arith, more a)));
        whole = omega (arith, c.whole, more k);
      })
  count_table-Counts zero (b ∷ bytes) cnt len h fits = absurd (omega arith)
  count_table-Counts (suc k) [] cnt len h fits = absurd (omega arith)
  count_table-Counts (suc k) (b0 ∷ []) cnt len h fits = absurd (omega arith)
  count_table-Counts (suc k) (b0 ∷ b1 ∷ []) cnt len h fits = absurd (omega arith)
  count_table-Counts (suc k) (b0 ∷ b1 ∷ b2 ∷ []) cnt len h fits = absurd (omega arith)
  count_table-Counts (suc k) (b0 ∷ b1 ∷ b2 ∷ b3 ∷ []) cnt len h fits = absurd (omega arith)
  count_table-Counts (suc k) (b0 ∷ b1 ∷ b2 ∷ b3 ∷ b4 ∷ []) cnt len h fits = absurd (omega arith)
  count_table-Counts (suc k) (b0 ∷ b1 ∷ b2 ∷ b3 ∷ b4 ∷ b5 ∷ []) cnt len h fits =
      absurd (omega arith)
  count_table-Counts (suc k) (b0 ∷ b1 ∷ b2 ∷ b3 ∷ b4 ∷ b5 ∷ b6 ∷ []) cnt len h fits =
      absurd (omega arith)
