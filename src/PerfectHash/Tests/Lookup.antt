-- ===== src/PerfectHash/Tests/Lookup.antt =====
-- The theorems on Find in a map with an index of its keys, at a map of two entries.
use protocache.Base.{
  ℕ, ◌*◌, ◌^◌, ◌/◌, ◌%◌, ◌<◌, ◌≤◌, ◌≡◌, ◌≢◌, ap, ◌+◌, sym, ◌∙◌, Run, zero, suc, ◌+◌, Option,
  get_elem?, get_or, refl, inl, Bool, length, true, false, ltb, List, [], ◌∷◌, some, done, ◌>>=◌,
  arith, replicate,
}
use protocache.PerfectHash.Bits.{count_valid_slot, section, bitmap_size, bit2, set_bit2_on11}
use protocache.PerfectHash.Index.Stored.{Stored}
use protocache.Access.Maps.{Map, find}
use protocache.Access.Maps.Lookup.{PairHolds, find-build, find-PairHolds}
use protocache.PerfectHash.Index.{
  Index, index_size, index, locate, real_size, index_bytes, object_of, object_locate,
}
use protocache.Access.Words.{word, byte}
use protocache.PerfectHash.Tests.{
  two_keys, blank, two_image, build-two_image, blank-HasSpace, no_item,
}

-- A map of "a" and "b" to 1 and 2.
abbrev two_map : List ℕ
two_map = 0x50000002 ∷ 1344073198 ∷ 0xffffffcf ∷ 0xfffffffd ∷ 24836 ∷ 1 ∷ 25092 ∷ 2 ∷ []

abbrev two_entries : Map
two_entries = record {
  index_ = record { data_ = some 0; section_ = 10; data_size_ = 16 };
  body_ = some 4;
  key_width_ = 1;
  value_width_ = 1;
}

map_bytes : (q : ℕ) → q < 8 → byte two_map (8 + q) ≡ done (get_or two_image.bitmap q 0)
unfolding byte word
map_bytes zero h = refl
map_bytes (suc zero) h = refl
map_bytes (suc (suc zero)) h = refl
map_bytes (suc (suc (suc zero))) h = refl
map_bytes (suc (suc (suc (suc zero)))) h = refl
map_bytes (suc (suc (suc (suc (suc zero))))) h = refl
map_bytes (suc (suc (suc (suc (suc (suc zero)))))) h = refl
map_bytes (suc (suc (suc (suc (suc (suc (suc zero))))))) h = refl
map_bytes (suc (suc (suc (suc (suc (suc (suc (suc q)))))))) h = absurd (omega arith)

two_map-Stored : Stored two_map 0 two_image
unfolding byte word real_size
two_map-Stored = record {
  words = (
    omega arith,
    (
      omega arith,
      (omega arith, (omega arith, (omega arith, (omega arith, (omega arith, (omega arith, tt)))))),
    ),
  );
  head = 0x50000002;
  size = refl;
  real = refl;
  seed = refl;
  bitmap = map_bytes;
  table = λ a k x h h'. absurd (no_item a x h);
}

first_place : locate two_map two_entries.index_ (97 ∷ []) ≡ done 0
unfolding locate protocache.PerfectHash.Index.locate_key protocache.PerfectHash.Index.locate_slots
    protocache.PerfectHash.Index.read_pair protocache.PerfectHash.Index.read_table
    protocache.PerfectHash.Index.count_below real_size byte word protocache.Access.Words.word64
    section bitmap_size count_valid_slot protocache.PerfectHash.Bits.pair protocache.Base.load
    protocache.Hash.hash128 protocache.Hash.blocks protocache.Hash.tail protocache.Hash.fall_through
    protocache.Hash.load_le protocache.Hash.end protocache.Hash.rot64 protocache.Hash.little_endian
    protocache.Hash.half_block protocache.Hash.mix
first_place = refl

second_place : locate two_map two_entries.index_ (98 ∷ []) ≡ done 1
unfolding locate protocache.PerfectHash.Index.locate_key protocache.PerfectHash.Index.locate_slots
    protocache.PerfectHash.Index.read_pair protocache.PerfectHash.Index.read_table
    protocache.PerfectHash.Index.count_below real_size byte word protocache.Access.Words.word64
    section bitmap_size count_valid_slot protocache.PerfectHash.Bits.pair protocache.Base.load
    protocache.Hash.hash128 protocache.Hash.blocks protocache.Hash.tail protocache.Hash.fall_through
    protocache.Hash.load_le protocache.Hash.end protocache.Hash.rot64 protocache.Hash.little_endian
    protocache.Hash.half_block protocache.Hash.mix
second_place = refl

one_byte :
    (q b : ℕ)
    → byte two_map q ≡ done b
    → (j : ℕ) → j < 1
    → byte two_map (q + j) ≡ done (get_or (b ∷ []) j 0)
one_byte q b e zero h = ap (byte two_map) (omega arith) ∙ e
one_byte q b e (suc j) h = absurd (omega arith)

first_pair : PairHolds two_map two_entries (some 8) (97 ∷ []) 0
unfolding protocache.Access.Maps.pair_of protocache.Access.Maps.key protocache.Access.Maps.holds_key
    protocache.Access.Maps.same_bytes protocache.Access.Fields.get_object
    protocache.Access.Fields.follow protocache.Access.Strings.string
    protocache.Access.Strings.read_header protocache.Access.Strings.read_mark byte word
first_pair = record {
  it = record { ptr_ = some 4; key_width_ = 1; value_width_ = 1 };
  object = some 4;
  view = record { ptr_ = some 17; len_ = 1 };
  pair = refl;
  reads = refl;
  text = refl;
  place = 17;
  starts = refl;
  sized = refl;
  bytes = one_byte 17 97 refl;
}

second_pair : PairHolds two_map two_entries (some 8) (98 ∷ []) 1
unfolding protocache.Access.Maps.pair_of protocache.Access.Maps.key protocache.Access.Maps.holds_key
    protocache.Access.Maps.same_bytes protocache.Access.Fields.get_object
    protocache.Access.Fields.follow protocache.Access.Strings.string
    protocache.Access.Strings.read_header protocache.Access.Strings.read_mark byte word
second_pair = record {
  it = record { ptr_ = some 6; key_width_ = 1; value_width_ = 1 };
  object = some 6;
  view = record { ptr_ = some 25; len_ = 1 };
  pair = refl;
  reads = refl;
  text = refl;
  place = 25;
  starts = refl;
  sized = refl;
  bytes = one_byte 25 98 refl;
}

two_pairs :
    (k pos : ℕ)
    → k < 2
    → locate two_map two_entries.index_ (get_or two_keys k []) ≡ done pos
    → PairHolds two_map two_entries (some 8) (get_or two_keys k []) pos
two_pairs zero pos h e =
    let both : ◌≡◌ {A = Run ℕ} (done 0) (done pos) = sym first_place ∙ e in
    let same : 0 ≡ pos = cc in rw (← same) first_pair
two_pairs (suc zero) pos h e =
    let both : ◌≡◌ {A = Run ℕ} (done 1) (done pos) = sym second_place ∙ e in
    let same : 1 ≡ pos = cc in rw (← same) second_pair
two_pairs (suc (suc k)) pos h e = absurd (omega arith)

find-build_example :
    (place : ℕ → ℕ) × ((k : ℕ)
      → k < 2
      → (find two_map two_entries (get_or two_keys k []) (some 8) ≡ done (some (place k)))
        × (place k < 2))
    × ((j k : ℕ) → j < 2 → k < 2 → j ≢ k → place j ≢ place k)
unfolding section
find-build_example =
    find-build true two_keys 2 42 blank two_image two_map 0 two_entries (some 8) blank-HasSpace
      build-two_image (omega arith) two_map-Stored refl refl two_pairs

found_b : find two_map two_entries (98 ∷ []) (some 8) ≡ done (some 1)
unfolding find index_size protocache.Access.Maps.pair_of protocache.Access.Maps.key
    protocache.Access.Maps.holds_key protocache.Access.Maps.same_bytes
    protocache.Access.Fields.get_object protocache.Access.Fields.follow
    protocache.Access.Strings.string protocache.Access.Strings.read_header
    protocache.Access.Strings.read_mark locate protocache.PerfectHash.Index.locate_key
    protocache.PerfectHash.Index.locate_slots protocache.PerfectHash.Index.read_pair
    protocache.PerfectHash.Index.read_table protocache.PerfectHash.Index.count_below real_size byte
    word protocache.Access.Words.word64 section bitmap_size count_valid_slot
    protocache.PerfectHash.Bits.pair protocache.Base.load protocache.Hash.hash128
    protocache.Hash.blocks protocache.Hash.tail protocache.Hash.fall_through protocache.Hash.load_le
    protocache.Hash.end protocache.Hash.rot64 protocache.Hash.little_endian
    protocache.Hash.half_block protocache.Hash.mix
found_b = refl

find-PairHolds_example : PairHolds two_map two_entries (some 8) (98 ∷ []) 1
find-PairHolds_example = find-PairHolds two_map two_entries (98 ∷ []) (some 8) 1 found_b
