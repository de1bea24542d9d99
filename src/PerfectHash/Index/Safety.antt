-- ===== src/PerfectHash/Index/Safety.antt =====
-- The reads of Locate and of the constructor of PerfectHash, and where they lie.
use protocache.Base.{
  ℕ, ◌+◌, ◌-◌, ◌*◌, ◌/◌, ◌%◌, ◌^◌, ◌<◌, ◌≤◌, ◌≡◌, ◌≢◌, refl, inl, inr, false, Bool-cases, ◌==◌, ltb,
  bit_and, bit_and_mask, List, length, some, done, arith,
}
use native.Mathlib.Nat.{mod-lt, mod-eq_of_lt}
use protocache.Access.Words.{word, word_inside, byte_inside, word64_inside}
use protocache.Hash.Digest.{digest, hash128-digest}
use protocache.PerfectHash.Bits.{pair, section, bitmap_size}
use protocache.PerfectHash.Bits.Sizes.{bitmap_size-section, bitmap_size-lt}
use protocache.PerfectHash.Index.{
  Index, no_index, real_size, table_size, index_bytes, index, read_pair, read16, read32, read_table,
  pick_slot, count_below, locate_slots, locate_key, locate,
}

pub real_size-lt : (h : ℕ) → real_size h < 2 ^ 28
unfolding real_size
real_size-lt h = omega (arith, bit_and_mask 28 h)

section_pos : (n : ℕ) → n < 2 ^ 28 → 0 < section n
section_pos n small = omega (arith, (bitmap_size-section n small).2)

pub table_size-le : (n bytes : ℕ) → table_size n bytes ≤ bytes
unfolding table_size
table_size-le n bytes = ground arith

module _ (mem : List ℕ) where
  read_pair_inside :
      (p pos : ℕ) → p * 4 + pos / 4 < 4 * length mem → (x : ℕ) × (read_pair mem p pos ≡ done x)
  unfolding read_pair
  read_pair_inside p pos h =
      let (x, e, _) = byte_inside mem (p * 4 + pos / 4) h in (pair x pos, rw e)

  read16_inside : (q a : ℕ) → q + 2 * a + 1 < 4 * length mem → (x : ℕ) × (read16 mem q a ≡ done x)
  unfolding read16
  read16_inside q a h =
      let (lo, e, _) = byte_inside mem (q + 2 * a) (omega arith) in
      let (hi, e', _) = byte_inside mem (q + 2 * a + 1) h in (lo + hi * 256, rw (e, e'))

  read32_inside : (q a : ℕ) → q + 4 * a + 3 < 4 * length mem → (x : ℕ) × (read32 mem q a ≡ done x)
  unfolding read32
  read32_inside q a h =
      let (lo, e) = read16_inside (q + 4 * a) 0 (omega arith) in
      let (hi, e') = read16_inside (q + 4 * a + 2) 0 (omega arith) in (lo + hi * 2 ^ 16, rw (e, e'))

  -- The table for `n` keys, behind a bitmap of `bytes`.
  read_table_inside :
      (n q a bytes : ℕ)
      → bytes % 8 ≡ 0
      → a < bytes / 8
      → q + table_size n bytes ≤ 4 * length mem
      → (x : ℕ) × (read_table mem n q a ≡ done x)
  unfolding read_table table_size
  read_table_inside n q a bytes whole h room = elim (Bool-cases (ltb 0xffff n)) [
    | inl large ↦ rw large (read32_inside q a (ground arith))
    | inr small ↦ rw small elim (Bool-cases (ltb 0xff n)) [
      | inl large ↦ rw large (read16_inside q a (ground arith))
      | inr small' ↦ rw small' elim (Bool-cases (ltb 24 n)) [
        | inl large ↦ let (x, e, _) = byte_inside mem (q + a) (ground arith) in rw large (x, e)
        | inr none_there ↦ rw none_there (0, refl)
      ]
    ]
  ]

  pick_slot-lt : (k a b c n : ℕ) → a < n → b < n → c < n → pick_slot k (a, b, c) < n
  pick_slot-lt k a b c n ha hb hc = ground arith

  -- An index that is null, or whose data lie inside the memory.
  pub data Fits (ix : Index) : Type 0 where
    absent : ix ≡ no_index → Fits ix
    present :
        (p h : ℕ)
        → ix.data_ ≡ some p
        → word mem p ≡ done h
        → (1 < real_size h
            → (ix.section_ ≡ section (real_size h))
              × (p * 4 + index_bytes (real_size h) ≤ 4 * length mem))
        → Fits ix

  -- Given a size other than 0 that fits in the memory, index ends without a fault in an index that is null or
  -- whose data lie inside the memory.
  pub index-Fits :
      (p size : ℕ)
      → size ≢ 0
      → p * 4 + size ≤ 4 * length mem
      → (ix : Index) × (index mem p size ≡ done ix) × Fits ix
  unfolding index
  index-Fits p size known room =
      let some_size : (size == 0) ≡ false = ground arith in
      elim (Bool-cases (ltb size 4)) [
        | inl tiny ↦ (no_index, rw (some_size, tiny), absent refl)
        | inr enough ↦
            let (h, read) = word_inside mem p (ground arith) in
            let n = real_size h in
            elim (Bool-cases (ltb 1 n)) [
              | inr few ↦ (
                record { data_ = some p; section_ = 0; data_size_ = 4 },
                rw (some_size, enough, read, few),
                present p h refl read (λ many. absurd (ground arith)),
              )
              | inl many ↦ elim (Bool-cases (ltb size (index_bytes n))) [
                | inl short ↦ (no_index, rw (some_size, enough, read, many, short), absent refl)
                | inr whole ↦ (
                  record { data_ = some p; section_ = section n; data_size_ = index_bytes n },
                  rw (some_size, enough, read, many, whole),
                  present p h refl read (λ _. (refl, ground arith)),
                )
              ]
            ]
      ]

  room_for_seed :
      (p n : ℕ) → n < 2 ^ 28 → p * 4 + index_bytes n ≤ 4 * length mem → p + 1 < length mem
  unfolding index_bytes
  room_for_seed p n small room =
      let bytes = bitmap_size (section n) in
      let extra = table_size-le n bytes in omega (arith, bitmap_size-lt n small)

  locate_slots_inside :
      (p n a b c : ℕ)
      → n < 2 ^ 28
      → p * 4 + index_bytes n ≤ 4 * length mem
      → a < section n * 3
      → b < section n * 3
      → c < section n * 3
      → (x : ℕ) × (locate_slots mem p n (section n) (a, b, c) ≡ done x)
  unfolding locate_slots index_bytes
  locate_slots_inside p n a b c small room ha hb hc =
      let m = section n in
      let bytes = bitmap_size m in
      let (slots_fit, whole, _) = bitmap_size-section n small in
      let short = bitmap_size-lt n small in
      let extra = table_size-le n bytes in
      let exact = mod-eq_of_lt {n = bytes + table_size n bytes + 8} {m = 2 ^ 32} (omega arith) in
      let (x, ex) = read_pair_inside (p + 2) a (omega arith) in
      let (y, ey) = read_pair_inside (p + 2) b (omega arith) in
      let (z, ez) = read_pair_inside (p + 2) c (omega arith) in
      let slot = pick_slot ((x + y + z) % 3) (a, b, c) in
      let slot_lt : slot < m * 3 = pick_slot-lt ((x + y + z) % 3) a b c (m * 3) ha hb hc in
      let (off, eo) =
        read_table_inside n ((p + 2) * 4 + bytes) (slot / 2 ^ 5) bytes whole (omega arith)
          (omega arith) in
      let (block, eb) = word64_inside mem (p + 2 + 2 * (slot / 2 ^ 5)) (omega arith) in
      ((off + count_below block (bit_and slot 31)) % 2 ^ 32, rw (ex, ey, ez, eo, eb) refl)

  locate_key_inside :
      (p n : ℕ) (key : List ℕ)
      → n < 2 ^ 28
      → p * 4 + index_bytes n ≤ 4 * length mem
      → (x : ℕ) × (locate_key mem p n (section n) key ≡ done x)
  unfolding locate_key
  locate_key_inside p n key small room =
      let m = section n in
      let pos : 0 < m = section_pos n small in
      let (seed, es) = word_inside mem (p + 1) (room_for_seed p n small room) in
      let (lo, hi) = digest key seed in
      let la = mod-lt (lo % 2 ^ 32) pos in
      let lb = mod-lt (lo / 2 ^ 32) pos in
      let lc = mod-lt (hi % 2 ^ 32) pos in
      let (x, ex) =
        locate_slots_inside p n (lo % 2 ^ 32 % m) (lo / 2 ^ 32 % m + m) (hi % 2 ^ 32 % m + m * 2)
          small room (omega arith) (omega arith) (omega arith) in
      (x, rw (es, hash128-digest key seed) ex)

  -- On an index that is null or whose data lie inside the memory, locate ends without a fault on every key,
  -- whatever the data holds.
  pub locate-Fits : (ix : Index) (key : List ℕ) → Fits ix → (x : ℕ) × (locate mem ix key ≡ done x)
  unfolding locate
  locate-Fits ix key (absent e) = (2 ^ 32 - 1, rw e)
  locate-Fits ix key (present p h e read inside) = elim (Bool-cases (ltb (real_size h) 2)) [
    | inl few ↦ (0, rw (e, read, few))
    | inr many ↦
        let (m_eq, room) = inside (ground arith) in
        let (x, ex) = locate_key_inside p (real_size h) key (real_size-lt h) room in
        (x, rw (e, read, many, m_eq, ex))
  ]
