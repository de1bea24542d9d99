-- ===== src/PerfectHash/Index/Stored.antt =====
-- An index in memory, as Build writes it, and what Locate reads of it.
use protocache.Base.{
  ℕ, zero, suc, ◌+◌, ◌*◌, ◌/◌, ◌%◌, ◌^◌, ◌<◌, ◌≡◌, refl, count, count-add, fault, ap, sym, ◌∙◌, inl,
  inr, true, Bool-cases, ltb, if◌then◌else◌, List, [], ◌∷◌, length, get_elem?, get_or, All, some,
  Run, done, >>=-eq-done, arith,
}
use protocache.Access.Words.{word, word64, byte}
use protocache.Hash.{little_endian}
use protocache.PerfectHash.Bits.{pair}
use protocache.PerfectHash.Bits.Values.{pair-mod}
use protocache.PerfectHash.Bits.Views.{Bytes, pair_at, get_or-Bytes}
use protocache.PerfectHash.Bits.Counted.{valid_pairs}
use protocache.PerfectHash.Bits.Prefix.{valid_at, pair_at-digit, valid_pairs-count}
use protocache.PerfectHash.Build.{Image}
use protocache.PerfectHash.Index.{real_size, read_pair, read16, read32, read_table}

-- At the word `p` are the header, whose highest four bits may hold something else, the bitmap, and the items of the table, `i.width` bits each.
pub record Stored (mem : List ℕ) (p : ℕ) (i : Image) : Type 0 where
  pub words : All (λ x. x < 2 ^ 32) mem
  pub head : ℕ
  pub size : word mem p ≡ done head
  pub real : real_size head ≡ i.total
  pub seed : word mem (p + 1) ≡ done i.seed
  pub bitmap :
      (q : ℕ) → q < length i.bitmap → byte mem ((p + 2) * 4 + q) ≡ done (get_or i.bitmap q 0)
  pub table :
      (a k x : ℕ)
      → get_elem? i.table a ≡ some x
      → k < i.width / 8
      → byte mem ((p + 2) * 4 + length i.bitmap + i.width / 8 * a + k) ≡ done (x / 256 ^ k % 256)

word-lt : (mem : List ℕ) (q x : ℕ) → All (λ x. x < 2 ^ 32) mem → word mem q ≡ done x → x < 2 ^ 32
unfolding word
word-lt [] q x small e = let clash : ◌≡◌ {A = Run ℕ} fault (done x) = e in cc
word-lt (y ∷ mem) zero x small e =
    let same : ◌≡◌ {A = Run ℕ} (done y) (done x) = e in
    let same' : y ≡ x = cc in rw (← same') small.0
word-lt (y ∷ mem) (suc q) x small e = word-lt mem q x small.1 e

byte_of :
    (mem : List ℕ) (q r x : ℕ)
    → word mem q ≡ done x
    → r < 4
    → byte mem (q * 4 + r) ≡ done (x / 256 ^ r % 256)
unfolding byte
byte_of mem q r x e h =
    let e' : (q * 4 + r) / 4 ≡ q = omega arith in
    let e'' : (q * 4 + r) % 4 ≡ r = omega arith in rw (e', e'', e) refl

-- The four bytes of a word.
word-bytes :
    (mem : List ℕ) (q : ℕ) (b : ℕ → ℕ)
    → All (λ x. x < 2 ^ 32) mem
    → ((r : ℕ) → r < 4 → byte mem (q * 4 + r) ≡ done (b r))
    → word mem q ≡ done (b 0 + b 1 * 2 ^ 8 + b 2 * 2 ^ 16 + b 3 * 2 ^ 24)
unfolding byte
word-bytes mem q b small at =
    let here : q * 4 + 0 ≡ q * 4 = omega arith in
    let (x, e, _) = >>=-eq-done (word mem ((q * 4 + 0) / 4)) _ (at 0 (omega arith)) in
    let e' : (q * 4 + 0) / 4 ≡ q = omega arith in
    let read : word mem q ≡ done x = rw e' at e in
    let is : (r : ℕ) → r < 4 → x / 256 ^ r % 256 ≡ b r =
      λ r h. let two = sym (byte_of mem q r x read h) ∙ at r h in cc in
    let x_lt = word-lt mem q x small read in
    read
    ∙ ap (λ (t : ℕ). done t)
        (omega
          (arith, is 0 (omega arith), is 1 (omega arith), is 2 (omega arith), is 3 (omega arith)))

-- The bytes of a block.
abbrev pub eight : List ℕ → ℕ → List ℕ
eight bs a =
    get_or bs (8 * a) 0
    ∷ get_or bs (8 * a + 1) 0
    ∷ get_or bs (8 * a + 2) 0
    ∷ get_or bs (8 * a + 3) 0
    ∷ get_or bs (8 * a + 4) 0
    ∷ get_or bs (8 * a + 5) 0
    ∷ get_or bs (8 * a + 6) 0
    ∷ get_or bs (8 * a + 7) 0
    ∷ []

eight_lem : (bs : List ℕ) (a j : ℕ) → j < 8 → get_or (eight bs a) j 0 ≡ get_or bs (8 * a + j) 0
eight_lem bs a zero h = ap (λ t. get_or bs t 0) (omega arith)
eight_lem bs a (suc zero) h = refl
eight_lem bs a (suc (suc zero)) h = refl
eight_lem bs a (suc (suc (suc zero))) h = refl
eight_lem bs a (suc (suc (suc (suc zero)))) h = refl
eight_lem bs a (suc (suc (suc (suc (suc zero))))) h = refl
eight_lem bs a (suc (suc (suc (suc (suc (suc zero)))))) h = refl
eight_lem bs a (suc (suc (suc (suc (suc (suc (suc zero))))))) h = refl
eight_lem bs a (suc (suc (suc (suc (suc (suc (suc (suc j)))))))) h = absurd (omega arith)

eight-Bytes : (bs : List ℕ) (a : ℕ) → Bytes bs → Bytes (eight bs a)
eight-Bytes bs a h =
    let at : (j : ℕ) → get_or bs j 0 < 256 = λ j. get_or-Bytes bs j h in
    (at _, (at _, (at _, (at _, (at _, (at _, (at _, (at _, tt))))))))

pub eight-lt : (bs : List ℕ) (a : ℕ) → Bytes bs → little_endian (eight bs a) < 2 ^ 64
unfolding little_endian
eight-lt bs a h =
    let at : (j : ℕ) → get_or bs j 0 < 256 = λ j. get_or-Bytes bs j h in
    omega (
      arith,
      at (8 * a),
      at (8 * a + 1),
      at (8 * a + 2),
      at (8 * a + 3),
      at (8 * a + 4),
      at (8 * a + 5),
      at (8 * a + 6),
      at (8 * a + 7),
    )

-- The values of the block `a`.
block_pairs :
    (bs : List ℕ) (a q : ℕ)
    → Bytes bs
    → q < 32
    → pair_at bs (a * 32 + q) ≡ little_endian (eight bs a) / 4 ^ q % 4
block_pairs bs a q h hq =
    let e : (a * 32 + q) / 4 ≡ 8 * a + q / 4 = omega arith in
    let e' : (a * 32 + q) % 4 ≡ q % 4 = omega arith in
    let x = get_or bs (8 * a + q / 4) 0 in
    let there : pair_at bs (a * 32 + q) ≡ pair x q =
      ap (λ t. pair (get_or bs t 0) (a * 32 + q)) e
      ∙ pair-mod x (a * 32 + q)
      ∙ ap (pair x) e'
      ∙ sym (pair-mod x q) in
    there
    ∙ ap (λ t. pair t q) (sym (eight_lem bs a (q / 4) (omega arith)))
    ∙ pair_at-digit (eight bs a) q (eight-Bytes bs a h)

-- The values before a place, up to its block and in it.
pub count-block :
    (bs : List ℕ) (a b : ℕ)
    → Bytes bs
    → b < 32
    → count (a * 32 + b) (valid_at bs)
      ≡ count (a * 32) (valid_at bs) + valid_pairs b (little_endian (eight bs a))
count-block bs a b h hb =
    let same =
      valid_pairs-count b (little_endian (eight bs a)) (λ q. pair_at bs (a * 32 + q))
        (λ q hq. block_pairs bs a q h (omega arith)) in
    omega (arith, count-add b (a * 32) (valid_at bs), same)

-- Items of two and of four bytes.
read16_lem :
    (mem : List ℕ) (q a x : ℕ)
    → ((k : ℕ) → k < 2 → byte mem (q + 2 * a + k) ≡ done (x / 256 ^ k % 256))
    → x < 2 ^ 16
    → read16 mem q a ≡ done x
unfolding read16
read16_lem mem q a x at small =
    let lo : byte mem (q + 2 * a) ≡ done (x / 256 ^ 0 % 256) =
      ap (byte mem) (omega arith) ∙ at 0 (omega arith) in
    rw (lo, at 1 (omega arith)) (ap (λ (t : ℕ). done t) (omega arith))

read32_lem :
    (mem : List ℕ) (q a x : ℕ)
    → ((k : ℕ) → k < 4 → byte mem (q + 4 * a + k) ≡ done (x / 256 ^ k % 256))
    → x < 2 ^ 32
    → read32 mem q a ≡ done x
unfolding read32 read16
read32_lem mem q a x at small =
    let b0 : byte mem (q + 4 * a + 2 * 0) ≡ done (x / 256 ^ 0 % 256) =
      ap (byte mem) (omega arith) ∙ at 0 (omega arith) in
    let b1 : byte mem (q + 4 * a + 2 * 0 + 1) ≡ done (x / 256 ^ 1 % 256) =
      ap (byte mem) (omega arith) ∙ at 1 (omega arith) in
    let b2 : byte mem (q + 4 * a + 2 + 2 * 0) ≡ done (x / 256 ^ 2 % 256) =
      ap (byte mem) (omega arith) ∙ at 2 (omega arith) in
    let b3 : byte mem (q + 4 * a + 2 + 2 * 0 + 1) ≡ done (x / 256 ^ 3 % 256) =
      ap (byte mem) (omega arith) ∙ at 3 (omega arith) in
    rw (b0, b1, b2, b3) (ap (λ (t : ℕ). done t) (omega arith))

module _ (mem : List ℕ) (p : ℕ) (i : Image) (st : Stored mem p i) where
  pub read_pair_lem :
      (q : ℕ) → q / 4 < length i.bitmap → read_pair mem (p + 2) q ≡ done (pair_at i.bitmap q)
  unfolding read_pair
  read_pair_lem q h = rw (st.bitmap (q / 4) h) refl

  pub word64_lem :
      (a : ℕ)
      → 8 * a + 7 < length i.bitmap
      → word64 mem (p + 2 + 2 * a) ≡ done (little_endian (eight i.bitmap a))
  unfolding word64 little_endian
  word64_lem a h =
      let bs = eight i.bitmap a in
      let at : (j q : ℕ)
          → j < 8
          → q ≡ (p + 2) * 4 + (8 * a + j)
          → byte mem q ≡ done (get_or bs j 0) =
        λ j q hj e.
          ap (byte mem) e
          ∙ st.bitmap (8 * a + j) (omega arith)
          ∙ ap (λ (t : ℕ). done t) (sym (eight_lem i.bitmap a j hj)) in
      let low =
        word-bytes mem (p + 2 + 2 * a) (λ r. get_or bs r 0) st.words
          (λ r hr. at r _ (omega arith) (omega arith)) in
      let high =
        word-bytes mem (p + 2 + 2 * a + 1) (λ r. get_or bs (4 + r) 0) st.words
          (λ r hr. at (4 + r) _ (omega arith) (omega arith)) in
      rw (low, high) (ap (λ (t : ℕ). done t) (omega arith))

  one_byte :
      (q a x : ℕ)
      → ((k : ℕ) → k < 1 → byte mem (q + 1 * a + k) ≡ done (x / 256 ^ k % 256))
      → x < 2 ^ 8
      → byte mem (q + a) ≡ done x
  one_byte q a x at small =
      ap (byte mem) (omega arith) ∙ at 0 (omega arith) ∙ ap (λ (t : ℕ). done t) (omega arith)

  -- The items of the table.
  pub read_table_lem :
      (n a x : ℕ)
      → i.width ≡ (if ltb 0xffff n then 32 else if ltb 0xff n then 16 else 8)
      → 24 < n
      → x < 2 ^ i.width
      → get_elem? i.table a ≡ some x
      → read_table mem n ((p + 2) * 4 + length i.bitmap) a ≡ done x
  unfolding read_table read32 read16
  read_table_lem n a x width many small there =
      let base = (p + 2) * 4 + length i.bitmap in
      let item = λ (k : ℕ). st.table a k x there in
      let several : ltb 24 n ≡ true = ground arith in
      elim (Bool-cases (ltb 0xffff n)) [
        | inl large ↦
            let w : i.width ≡ 32 = width ∙ rw large refl in
            rw large (read32_lem mem base a x (rw w at item) (rw w at small))
        | inr not_large ↦ elim (Bool-cases (ltb 0xff n)) [
          | inl middle ↦
              let w : i.width ≡ 16 = width ∙ rw (not_large, middle) refl in
              rw (not_large, middle) (read16_lem mem base a x (rw w at item) (rw w at small))
          | inr not_middle ↦
              let w : i.width ≡ 8 = width ∙ rw (not_large, not_middle) refl in
              rw (not_large, not_middle, several) (one_byte base a x (rw w at item) (rw w at small))
        ]
      ]
