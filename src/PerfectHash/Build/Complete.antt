-- ===== src/PerfectHash/Build/Complete.antt =====
-- Build as a whole, from the search to what it writes.
use protocache.Base.{
  ℕ, ◌+◌, ◌*◌, ◌/◌, ◌^◌, ◌<◌, ◌≤◌, ◌≡◌, ◌≢◌, refl, ap, sym, ◌∙◌, inl, inr, true, Bool, Bool-cases,
  ◌==◌, ltb, leb, if◌then◌else◌, count, count_same, take, length, length-take, get_or, get_or-take,
  get_elem?, All-take, List, [], Option, none, some, Run, done, arith,
}
use protocache.Hash.{little_endian}
use protocache.Hash.Random.{xor_shift}
use protocache.PerfectHash.Bits.{section, bitmap_size, pair}
use protocache.PerfectHash.Bits.Sizes.{bitmap_size-section}
use protocache.PerfectHash.Bits.Views.{Bytes, pair_at}
use protocache.PerfectHash.Bits.Counted.{valid_pairs}
use protocache.PerfectHash.Bits.Prefix.{valid_at, count-valid_at}
use protocache.PerfectHash.Build.{Work, Search, Image, image, build_words, build, count_table, tiny}
use protocache.PerfectHash.Build.Homes.{home, slot_in, slot_in-lt, section-bounds}
use protocache.PerfectHash.Build.Perfect.{Perfect, own-lt}
use protocache.PerfectHash.Build.Attempt.{HasSpace}
use protocache.PerfectHash.Build.Found.{search-Searched}
use protocache.PerfectHash.Build.Table.{count_table-Counts}
use protocache.PerfectHash.Mapping.Placing.{own}

pub home_lt : (m seed : ℕ) (f : ℕ → ℕ) (key : List ℕ) → 0 < m → home m seed f key < m * 3
home_lt m seed f key pos =
    own-lt f (slot_in m seed 0 key) (slot_in m seed 1 key + m) (slot_in m seed 2 key + m * 2)
      (m * 3) (omega (arith, slot_in-lt m seed 0 key pos))
      (omega (arith, slot_in-lt m seed 1 key pos)) (omega (arith, slot_in-lt m seed 2 key pos))

module _ (m seed : ℕ) (f g : ℕ → ℕ) (pos : 0 < m) (same : (q : ℕ) → q < m * 3 → g q ≡ f q) where
  home-same : (key : List ℕ) → home m seed g key ≡ home m seed f key
  unfolding own
  home-same key =
      rw
        (
          same (slot_in m seed 0 key) (omega (arith, slot_in-lt m seed 0 key pos)),
          same (slot_in m seed 1 key + m) (omega (arith, slot_in-lt m seed 1 key pos)),
          same (slot_in m seed 2 key + m * 2) (omega (arith, slot_in-lt m seed 2 key pos)),
        )
        refl

-- The bytes of the bitmap alone.
Perfect-take :
    (m n seed : ℕ) (source : List (List ℕ)) (bitmap : List ℕ)
    → 0 < m
    → m * 3 ≤ bitmap_size m * 4
    → Perfect m n seed source bitmap
    → Perfect m n seed source (take (bitmap_size m) bitmap)
Perfect-take m n seed source bitmap pos room p =
    let kept = take (bitmap_size m) bitmap in
    let same : (q : ℕ) → q < bitmap_size m * 4 → pair_at kept q ≡ pair_at bitmap q =
      λ q h. ap (λ x. pair x q) (get_or-take (bitmap_size m) bitmap (q / 4) 0 (omega arith)) in
    let at_home =
      home-same m seed (pair_at bitmap) (pair_at kept) pos (λ q h. same q (omega arith)) in
    record {
      differ = λ i k hi hk ne.
          rw (at_home (get_or source i []), at_home (get_or source k [])) (p.differ i k hi hk ne);
      valid = λ i hi.
          let key = get_or source i [] in
          let h = home_lt m seed (pair_at bitmap) key pos in
          rw (at_home key, same (home m seed (pair_at bitmap) key) (omega arith)) (p.valid i hi);
      counted = λ k h h'.
          count_same k (valid_at kept) (valid_at bitmap)
            (λ q hq. ap (λ t. ltb t 3) (same q (omega arith)))
          ∙ p.counted k h h';
    }

-- An image of `n` keys: the bitmap, and where there is a table the counts in it.
pub record Imaged (w n : ℕ) (source : List (List ℕ)) (i : Image) : Type 0 where
  pub total : i.total ≡ n
  pub width : i.width ≡ w
  pub bytes : Bytes i.bitmap
  pub sized : length i.bitmap ≡ bitmap_size (section n)
  pub perfect : Perfect (section n) n i.seed source i.bitmap
  pub table :
      8 < bitmap_size (section n)
      → (a : ℕ) → a < bitmap_size (section n) / 8
      → get_elem? i.table a ≡ some (count (a * 32) (valid_at i.bitmap))

module _ (w n : ℕ) (source : List (List ℕ)) (small : n < 2 ^ 28) (wide : 16 ≤ 2 ^ w)
    (fits : n < 2 ^ w) where
  image-Imaged :
      (s : Search)
      → HasSpace n s.work
      → Perfect (section n) n s.seed source s.work.tables.bitmap
      → (i : Image) × (image w n s ≡ done i) × Imaged w n source i
  unfolding image
  image-Imaged s space found =
      let m = section n in
      let size = bitmap_size m in
      let (pos, _) = section-bounds n small in
      let (room, whole, _) = bitmap_size-section n small in
      let bitmap = take size s.work.tables.bitmap in
      let len : length bitmap ≡ size =
        omega (arith, length-take size s.work.tables.bitmap, space.bitmap) in
      let bytes : Bytes bitmap = All-take _ size s.work.tables.bitmap space.bitmap_bytes in
      let p = Perfect-take m n s.seed source s.work.tables.bitmap pos room found in
      let counts : (k : ℕ) → count k (valid_at bitmap) ≡ valid_pairs k (little_endian bitmap) =
        λ k. count-valid_at k bitmap bytes in
      let all : valid_pairs (size / 8 * 32) (little_endian bitmap) ≡ n =
        sym (counts (size / 8 * 32)) ∙ p.counted (size / 8 * 32) (omega arith) (omega arith) in
      let c = count_table-Counts w (size / 8) bitmap 0 (omega arith) bytes (omega arith) in
      let table = (count_table w bitmap 0).0 in
      let total : ((count_table w bitmap 0).1 == n) ≡ true =
        let e = c.whole in ground (arith, e, all) in
      let short : Image = record {
        total = n;
        seed = s.seed;
        bitmap = bitmap;
        table = [];
        width = w;
        data_size = 8 + size;
      } in
      let long : Image = record short {
        table = table;
        data_size = 8 + size + size / 8 * (w / 8);
      } in
      elim (Bool-cases (ltb 8 size)) [
        | inl large ↦ (
          long,
          rw (large, total) refl,
          record {
            total = refl;
            width = refl;
            bytes = bytes;
            sized = len;
            perfect = p;
            table =
                λ h a ha. c.before a ha ∙ ap (λ (t : ℕ). some t) (omega (arith, counts (a * 32)));
          },
        )
        | inr small' ↦ (
          short,
          rw small' refl,
          record {
            total = refl;
            width = refl;
            bytes = bytes;
            sized = len;
            perfect = p;
            table = λ h. absurd (ground arith);
          },
        )
      ]

none_some : (i : Image) → ◌≢◌ {A = Option Image} none (some i)
none_some i e = cc

-- What build gives: no image, or one of a perfect hash.
abbrev pub Built : ℕ → List (List ℕ) → Run (Option Image) → Type 0
Built n source r =
    (o : Option Image) × (r ≡ done o)
    × ((i : Image)
        → o ≡ some i
        → 1 < n
        → Imaged (if ltb 0xffff n then 32 else if ltb 0xff n then 16 else 8) n source i)

build_words-Imaged :
    (w n : ℕ) (no_check : Bool) (source : List (List ℕ)) (seed : ℕ) (work : Work)
    → n < 2 ^ 28
    → 16 ≤ 2 ^ w
    → n < 2 ^ w
    → HasSpace n work
    → (o : Option Image) × (build_words w no_check source n seed work ≡ done o)
      × ((i : Image) → o ≡ some i → Imaged w n source i)
unfolding build_words
build_words-Imaged w n no_check source seed work small wide fits space =
    let s =
      search-Searched w n source small wide fits no_check
        (record { rand32 = xor_shift seed; seed = 0; work = work }) space in
    elim (Bool-cases s.found) [
      | inl good ↦
          let (i, e, imaged) =
            image-Imaged w n source small wide fits s.after s.space (s.perfect good) in
          (
            some i,
            rw (s.returns, good, e) refl,
            λ i' same. let same' : i ≡ i' = cc in rw (← same') imaged,
          )
      | inr bad ↦ (none, rw (s.returns, bad) refl, λ i' same. absurd (none_some i' same))
    ]

-- On arrays with room for the keys, build ends without a fault for every source, number of keys and seed, its
-- assertion on the counts included; and where it gives an image of more than one key, of the words that the
-- number asks for, each key has a slot of its own with a value below 3 in the bitmap, there are as many such
-- slots as keys, and an item of the table, where there is one, counts those before its block.
pub build-Built :
    (no_check : Bool) (source : List (List ℕ)) (n seed : ℕ) (work : Work)
    → HasSpace n work
    → Built n source (build no_check source n seed work)
unfolding build
build-Built no_check source n seed work space = elim (Bool-cases (leb (2 ^ 28) n)) [
  | inl too_many ↦ (none, rw too_many refl, λ i same. absurd (none_some i same))
  | inr fits ↦
      let small : n < 2 ^ 28 = ground arith in
      elim (Bool-cases (ltb 0xffff n)) [
        | inl large ↦
            let (o, e, imaged) =
              build_words-Imaged 32 n no_check source seed work small (omega arith) (omega arith)
                space in
            (o, rw (fits, large) e, λ i same many. rw large (imaged i same))
        | inr not_large ↦ elim (Bool-cases (ltb 0xff n)) [
          | inl middle ↦
              let (o, e, imaged) =
                build_words-Imaged 16 n no_check source seed work small (omega arith) (ground arith)
                  space in
              (
                o,
                rw (fits, not_large, middle) e,
                λ i same many. rw (not_large, middle) (imaged i same),
              )
          | inr not_middle ↦ elim (Bool-cases (ltb 1 n)) [
            | inl several ↦
                let (o, e, imaged) =
                  build_words-Imaged 8 n no_check source seed work small (omega arith)
                    (ground arith) space in
                (
                  o,
                  rw (fits, not_large, not_middle, several) e,
                  λ i same many. rw (not_large, not_middle) (imaged i same),
                )
            | inr one ↦ (
              some (tiny n),
              rw (fits, not_large, not_middle, one) refl,
              λ i same many. absurd (ground arith),
            )
          ]
        ]
      ]
]
