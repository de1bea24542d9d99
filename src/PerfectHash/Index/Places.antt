-- ===== src/PerfectHash/Index/Places.antt =====
-- Locate on an index that Build has made: the places of the keys.
use protocache.Base.{
  ℕ, suc, ◌+◌, ◌*◌, ◌/◌, ◌%◌, ◌^◌, ◌<◌, ◌≤◌, ◌≡◌, ◌≢◌, refl, ap, ◌∙◌, inl, inr, true, false, Bool,
  Bool-cases, ltb, if◌then◌else◌, bit_and, bit_and_mask, count, count_mono, List, [], get_or, some,
  done, ◌>>=◌, arith,
}
use native.Mathlib.Nat.{mod-eq_of_lt}
use protocache.Access.Words.{word64}
use protocache.Hash.{little_endian}
use protocache.Hash.Digest.{hash128-digest}
use protocache.PerfectHash.Bits.{section, bitmap_size}
use protocache.PerfectHash.Bits.Sizes.{bitmap_size-section}
use protocache.PerfectHash.Bits.Views.{pair_at}
use protocache.PerfectHash.Bits.Prefix.{valid_at}
use protocache.PerfectHash.Build.{Image}
use protocache.PerfectHash.Build.Homes.{home, slot_in, slot_in-lt, section-bounds}
use protocache.PerfectHash.Build.Complete.{Imaged, home_lt}
use protocache.PerfectHash.Build.Perfect.{own-lt}
use protocache.PerfectHash.Build.Size.{bitmap_size-small, bitmap_size-large}
use protocache.PerfectHash.Mapping.Placing.{own}
use protocache.PerfectHash.Index.{
  Index, count_below, real_size, read_table, locate_slots, locate_key, locate,
}
use protocache.PerfectHash.Index.Below.{count_below_lem}
use protocache.PerfectHash.Index.Stored.{
  Stored, read_pair_lem, word64_lem, read_table_lem, count-block, eight, eight-lt,
}

abbrev pub word_width : ℕ → ℕ
word_width n = if ltb 0xffff n then 32 else if ltb 0xff n then 16 else 8

width_fits : (n : ℕ) → n < 2 ^ 28 → n < 2 ^ word_width n
width_fits n small = elim (Bool-cases (ltb 0xffff n)) [
  | inl large ↦ rw large (omega arith)
  | inr not_large ↦ elim (Bool-cases (ltb 0xff n)) [
    | inl middle ↦ rw (not_large, middle) (ground arith)
    | inr not_middle ↦ rw (not_large, not_middle) (ground arith)
  ]
]

count-step : (j k : ℕ) (p : ℕ → Bool) → j < k → p j ≡ true → count j p < count k p
unfolding count
count-step j k p h on =
    let more = count_mono (suc j) k p h in
    let one : count (suc j) p ≡ count j p + 1 = rw on refl in omega arith

-- Of two numbers that pass, the smaller has fewer before it.
count-differ : (p : ℕ → Bool) (j k : ℕ) → j ≢ k → p j ≡ true → p k ≡ true → count j p ≢ count k p
count-differ p j k ne hj hk same = elim (Bool-cases (ltb j k)) [
  | inl below ↦ omega (arith, same, count-step j k p (ground arith) hj)
  | inr above ↦ omega (arith, same, count-step k j p (ground arith) hk)
]

module _ (mem : List ℕ) (p n : ℕ) (source : List (List ℕ)) (i : Image) (many : 1 < n)
    (small : n < 2 ^ 28) (imaged : Imaged (word_width n) n source i) (st : Stored mem p i) where
  abbrev m : ℕ
  m = section n

  abbrev f : ℕ → ℕ
  f = pair_at i.bitmap

  -- The place of a key: how many valid slots are before its home.
  abbrev place : List ℕ → ℕ
  place key = count (home m i.seed f key) (valid_at i.bitmap)

  all_counted : count (bitmap_size m * 4) (valid_at i.bitmap) ≡ n
  all_counted =
      let (room, _, _) = bitmap_size-section n small in
      imaged.perfect.counted (bitmap_size m * 4) room (omega arith)

  count-le : (k : ℕ) → k ≤ bitmap_size m * 4 → count k (valid_at i.bitmap) ≤ n
  count-le k h = omega (arith, count_mono k (bitmap_size m * 4) (valid_at i.bitmap) h, all_counted)

  off_lem :
      (slot : ℕ)
      → slot < bitmap_size m * 4
      → read_table mem n ((p + 2) * 4 + bitmap_size m) (slot / 32)
        ≡ done (count (slot / 32 * 32) (valid_at i.bitmap))
  unfolding read_table count
  off_lem slot h =
      let (_, whole, _) = bitmap_size-section n small in
      elim (Bool-cases (ltb 24 n)) [
        | inl several ↦
            let large = bitmap_size-large n (ground arith) small in
            let item = imaged.table large (slot / 32) (omega arith) in
            let bound = count-le (slot / 32 * 32) (omega arith) in
            let wide = width_fits n small in
            let fits : count (slot / 32 * 32) (valid_at i.bitmap) < 2 ^ i.width =
              rw imaged.width (omega arith) in
            rw (← imaged.sized)
              (read_table_lem mem p i st n (slot / 32) _ imaged.width (ground arith) fits item)
        | inr few ↦
            let eight = bitmap_size-small n (ground arith) in
            let first : slot / 32 ≡ 0 = omega arith in
            let not_large : ltb 0xffff n ≡ false = ground arith in
            let not_middle : ltb 0xff n ≡ false = ground arith in
            rw (not_large, not_middle, few, first) refl
      ]

  -- What is read for a slot that is valid.
  slot_lem :
      (slot : ℕ)
      → slot < m * 3
      → f slot < 3
      → (do
        off ← read_table mem n ((p + 2) * 4 + bitmap_size m) (slot / 2 ^ 5)
        block ← word64 mem (p + 2 + 2 * (slot / 2 ^ 5))
        done ((off + count_below block (bit_and slot 31)) % 2 ^ 32))
        ≡ done (count slot (valid_at i.bitmap))
  slot_lem slot h valid =
      let (room, whole, _) = bitmap_size-section n small in
      let len = imaged.sized in
      let b : bit_and slot 31 ≡ slot % 32 = bit_and_mask 5 slot in
      let off = off_lem slot (omega (arith, room)) in
      let block = word64_lem mem p i st (slot / 32) (omega (arith, len, h, room, whole)) in
      let below =
        count_below_lem (little_endian (eight i.bitmap (slot / 32))) (slot % 32) (omega arith)
          (eight-lt i.bitmap (slot / 32) imaged.bytes) in
      let cut : slot / 32 * 32 + slot % 32 ≡ slot = omega arith in
      let both =
        rw cut at (count-block i.bitmap (slot / 32) (slot % 32) imaged.bytes (omega arith)) in
      let bound = count-le slot (omega (arith, room)) in
      rw (off, block, b, below, ← both) (ap (λ (t : ℕ). done t) (mod-eq_of_lt (omega arith)))

  -- Any slot that the three values point at.
  locate_slots_lem :
      (a b c : ℕ)
      → a < m * 3
      → b < m * 3
      → c < m * 3
      → f (own f a b c) < 3
      → locate_slots mem p n m (a, b, c) ≡ done (count (own f a b c) (valid_at i.bitmap))
  unfolding locate_slots own
  locate_slots_lem a b c ha hb hc valid =
      let (room, _, _) = bitmap_size-section n small in
      let len = imaged.sized in
      let read = λ (q : ℕ) (h : q < m * 3). read_pair_lem mem p i st q (omega (arith, len, room)) in
      rw (read a ha, read b hb, read c hc)
        (slot_lem (own f a b c) (own-lt f a b c (m * 3) ha hb hc) valid)

  module _ (ix : Index) (here : ix.data_ ≡ some p) (width : ix.section_ ≡ m) where
    locate_lem : (key : List ℕ) → f (home m i.seed f key) < 3 → locate mem ix key ≡ done (place key)
    unfolding locate locate_key
    locate_lem key valid =
        let (pos, _) = section-bounds n small in
        let real : real_size st.head ≡ n = st.real ∙ imaged.total in
        let more : ltb n 2 ≡ false = ground arith in
        let seed = i.seed in
        rw (here, width, st.size, real, more, st.seed, hash128-digest key seed)
          (locate_slots_lem (slot_in m seed 0 key) (slot_in m seed 1 key + m)
            (slot_in m seed 2 key + m * 2) (omega (arith, slot_in-lt m seed 0 key pos))
            (omega (arith, slot_in-lt m seed 1 key pos))
            (omega (arith, slot_in-lt m seed 2 key pos)) valid)

    -- On an image of `n` keys in memory, each key has a place of its own below `n`.
    pub locate-places :
        (place : ℕ → ℕ) × ((k : ℕ)
          → k < n
          → (locate mem ix (get_or source k []) ≡ done (place k)) × (place k < n))
        × ((j k : ℕ) → j < n → k < n → j ≢ k → place j ≢ place k)
    locate-places =
        let (pos, _) = section-bounds n small in
        let (room, _, _) = bitmap_size-section n small in
        let valid : (k : ℕ)
            → k < n
            → valid_at i.bitmap (home m i.seed f (get_or source k [])) ≡ true =
          λ k h. let v = imaged.perfect.valid k h in ground arith in
        let home_lt' : (k : ℕ) → home m i.seed f (get_or source k []) < bitmap_size m * 4 =
          λ k. omega (arith, home_lt m i.seed f (get_or source k []) pos, room) in
        (
          λ k. place (get_or source k []),
          λ k h. (
            locate_lem (get_or source k []) (imaged.perfect.valid k h),
            omega (
              arith,
              count-step (home m i.seed f (get_or source k [])) (bitmap_size m * 4)
                  (valid_at i.bitmap) (home_lt' k) (valid k h),
              all_counted,
            ),
          ),
          λ j k hj hk ne.
              count-differ (valid_at i.bitmap) _ _ (imaged.perfect.differ j k hj hk ne) (valid j hj)
                (valid k hk),
        )
