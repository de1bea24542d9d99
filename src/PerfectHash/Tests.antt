-- ===== src/PerfectHash/Tests.antt =====
-- The theorems on the perfect hash at concrete inputs.
mod Lookup
use protocache.Base.{
  ℕ, ◌*◌, ◌^◌, ◌/◌, ◌%◌, ◌<◌, ◌≤◌, ◌≡◌, ◌≢◌, sym, ◌∙◌, Run, zero, suc, ◌+◌, Option, get_elem?,
  get_or, refl, inl, Bool, length, true, false, ltb, List, [], ◌∷◌, some, done, ◌>>=◌, arith,
  replicate,
}
use protocache.PerfectHash.Bits.{count_valid_slot, section, bitmap_size, bit2, set_bit2_on11}
use protocache.PerfectHash.Bits.Values.{bit2-set_bit2_on11}
use protocache.PerfectHash.Bits.Sizes.{bitmap_size-section}
use protocache.PerfectHash.Bits.Views.{pair_at}
use protocache.PerfectHash.Graph.{Edge, Graph, Vertex}
use protocache.PerfectHash.Mapping.{Tables, mapping}
use protocache.PerfectHash.Mapping.Distinct.{Apart, owned}
use protocache.PerfectHash.Mapping.Total.{mapping-Apart}
use protocache.PerfectHash.Check.{Code, check}
use protocache.PerfectHash.Check.Distinct.{Verdict, check-Verdict}
use protocache.PerfectHash.Build.{Work, Image, build}
use protocache.PerfectHash.Graph.{no_edge, create_graph, tear_graph}
use protocache.PerfectHash.Graph.Linked.{all}
use protocache.PerfectHash.Graph.Views.{section_of}
use protocache.PerfectHash.Graph.Detached.{LinkedAt}
use protocache.PerfectHash.Graph.Create.{Filled, SlotsOf, create_graph-Filled}
use protocache.PerfectHash.Graph.Torn.{Torn, tear_graph-Torn}
use protocache.PerfectHash.Build.Homes.{slots_by, slot_in-lt, slots_by-SlotsOf}
use protocache.PerfectHash.Build.Attempt.{HasSpace}
use protocache.PerfectHash.Build.Complete.{Built, build-Built}
use protocache.PerfectHash.Bits.Counted.{valid_pairs, count_valid_slot_lem}
use protocache.PerfectHash.Index.Stored.{Stored}
use protocache.Access.Maps.{Map, find}
use protocache.Access.Maps.Lookup.{PairHolds, find-build}
use protocache.PerfectHash.Index.Objects.{build-object_locate}
use protocache.PerfectHash.Index.Minimal.{build-locate}
use protocache.PerfectHash.Build.Size.{build-index_bytes}
use protocache.PerfectHash.Index.{
  Index, index, locate, real_size, index_bytes, object_of, object_locate,
}
use protocache.Access.Words.{word, byte}
use protocache.PerfectHash.Index.Safety.{Fits, present, index-Fits, locate-Fits}
use protocache.PerfectHash.Division.{assign, div, modulo, scale, choose, approximate}
use protocache.PerfectHash.Division.Quotient.{div-assign}

div-assign_example :
    (div (assign 641) 0xffffffff ≡ 0xffffffff / 641)
    × (modulo (assign 641) 0xffffffff ≡ 0xffffffff % 641)
div-assign_example = div-assign 641 0xffffffff (omega arith) (omega arith) (omega arith)

bitmap_size-section_example :
    (section 100 * 3 ≤ bitmap_size (section 100) * 4)
    × (bitmap_size (section 100) % 8 ≡ 0)
    × (100 < section 100 * 3)
bitmap_size-section_example = bitmap_size-section 100 (omega arith)

bit2-set_bit2_on11_example : (set_bit2_on11 (255 ∷ 27 ∷ []) 2 1 >>= λ v. bit2 v 5) ≡ done 2
unfolding bit2
bit2-set_bit2_on11_example =
    bit2-set_bit2_on11 (255 ∷ 27 ∷ []) 2 1 5 (omega arith, (omega arith, tt)) (omega arith) refl

-- An edge with the same slot of each section.
abbrev straight : ℕ → Edge
straight s =
    let v : Vertex = record { slot = s; prev = 65535; next = 65535 } in
    record { v0 = v; v1 = v; v2 = v }

abbrev two_edges : Graph
two_edges = record { edges = straight 0 ∷ straight 1 ∷ []; nodes = [] }

abbrev zeros : Tables
zeros = record { book = replicate 4 0; bitmap = replicate 8 0 }

mapping-Apart_example :
    (after : Tables) × (mapping two_edges 2 (1 ∷ 0 ∷ []) zeros ≡ done after)
    × Apart (section 2) (pair_at after.bitmap) (straight 1 ∷ straight 0 ∷ [])
    × ((q : ℕ)
        → q < section 2 * 3
        → ltb (pair_at after.bitmap q) 3
          ≡ owned (section 2) (pair_at after.bitmap) q (straight 1 ∷ straight 0 ∷ []))
unfolding section bitmap_size
mapping-Apart_example =
    mapping-Apart two_edges 2 (1 ∷ 0 ∷ []) (straight 1 ∷ straight 0 ∷ []) zeros (omega arith) refl
      (
        (omega arith, omega arith, omega arith),
        inl refl,
        ((omega arith, omega arith, omega arith), inl refl, tt),
      )
      (omega arith, (omega arith, (omega arith, (omega arith, tt))))
      (
        omega arith,
        (
          omega arith,
          (
            omega arith,
            (omega arith, (omega arith, (omega arith, (omega arith, (omega arith, tt))))),
          ),
        ),
      )
      (omega arith) (omega arith)

-- An index of two keys: the header, and a bitmap of 8 bytes.
abbrev pair_index : List ℕ
pair_index = 2 ∷ 7 ∷ 0xffffff1b ∷ 0xffffffff ∷ []

index-Fits_example : (ix : Index) × (index pair_index 0 16 ≡ done ix) × Fits pair_index ix
index-Fits_example = index-Fits pair_index 0 16 (λ e. omega (arith, e)) (omega arith)

locate-Fits_example :
    (x : ℕ) × (locate pair_index
        (record { data_ = some 0; section_ = 10; data_size_ = 16 })
        (97 ∷ [])
      ≡ done x)
unfolding section bitmap_size word real_size index_bytes
locate-Fits_example =
    locate-Fits pair_index (record { data_ = some 0; section_ = 10; data_size_ = 16 }) (97 ∷ [])
      (present 0 2 refl refl (λ _. (refl, omega arith)))

abbrev two_keys : List (List ℕ)
two_keys = (97 ∷ []) ∷ (98 ∷ []) ∷ []

abbrev blank : Work
blank = record {
  graph = record { edges = straight 0 ∷ straight 0 ∷ []; nodes = replicate 30 0 };
  tables = zeros;
}

abbrev two_image : Image
two_image = record {
  total = 2;
  seed = 1344073198;
  bitmap = 207 ∷ 255 ∷ 255 ∷ 255 ∷ 253 ∷ 255 ∷ 255 ∷ 255 ∷ [];
  table = [];
  width = 8;
  data_size = 16;
}

build-two_image : build true two_keys 2 42 blank ≡ done (some two_image)
unfolding build section bitmap_size bit2 set_bit2_on11 mapping assign div modulo
    protocache.Base.load protocache.Hash.hash128 protocache.Hash.blocks protocache.Hash.tail
    protocache.Hash.fall_through protocache.Hash.load_le protocache.Hash.end protocache.Hash.rot64
    protocache.Hash.little_endian protocache.Hash.half_block protocache.Hash.mix
    protocache.Hash.Random.next protocache.Hash.Random.xor_shift
    protocache.PerfectHash.Graph.create_graph protocache.PerfectHash.Graph.tear_graph
    protocache.PerfectHash.Graph.create_edges protocache.PerfectHash.Graph.detach
    protocache.PerfectHash.Graph.find_free protocache.PerfectHash.Graph.get_vertex
    protocache.PerfectHash.Graph.link protocache.PerfectHash.Graph.memset
    protocache.PerfectHash.Graph.offer protocache.PerfectHash.Graph.offer_alone
    protocache.PerfectHash.Graph.put_next protocache.PerfectHash.Graph.put_prev
    protocache.PerfectHash.Graph.put_vertex protocache.PerfectHash.Graph.slots
    protocache.PerfectHash.Graph.tear protocache.PerfectHash.Graph.unlink_next
    protocache.PerfectHash.Graph.unlink_prev protocache.PerfectHash.Bits.test_and_set_bit
    protocache.PerfectHash.Bits.bit_mask protocache.PerfectHash.Bits.count_valid_slot
    protocache.PerfectHash.Bits.pair protocache.PerfectHash.Bits.pair_on11
    protocache.PerfectHash.Bits.set_bit protocache.PerfectHash.Build.attempt
    protocache.PerfectHash.Build.build_words protocache.PerfectHash.Build.count_table
    protocache.PerfectHash.Build.image protocache.PerfectHash.Build.search
    protocache.PerfectHash.Build.tries protocache.PerfectHash.Mapping.place
    protocache.PerfectHash.Mapping.place_all protocache.PerfectHash.Mapping.place_second
    protocache.PerfectHash.Mapping.place_third protocache.PerfectHash.Mapping.settle
    protocache.PerfectHash.Division.approximate protocache.PerfectHash.Division.choose
    protocache.PerfectHash.Division.scale
build-two_image = refl

build-index_bytes_example : (2 < 2 ^ 28) × (two_image.data_size ≡ index_bytes 2)
build-index_bytes_example =
    build-index_bytes true two_keys 2 42 blank two_image build-two_image (omega arith)

abbrev used_space : List Code
used_space = (3, 1) ∷ (5, 2) ∷ (7, 3) ∷ (9, 4) ∷ (11, 5) ∷ []

check-Verdict_example :
    (r : Bool) × (table : List Code) × (check two_keys 2 7 (some used_space) ≡ done (r, table))
    × Verdict two_keys 2 7 r
check-Verdict_example = check-Verdict two_keys 2 7 (some used_space) (omega arith) (omega arith)

abbrev two_stored : List ℕ
two_stored = 2 ∷ 1344073198 ∷ 0xffffffcf ∷ 0xfffffffd ∷ []

blank-HasSpace : HasSpace 2 blank
unfolding section bitmap_size
blank-HasSpace = record {
  edges = omega arith;
  nodes = omega arith;
  book_bytes = (omega arith, (omega arith, (omega arith, (omega arith, tt))));
  book = omega arith;
  bitmap_bytes = (
    omega arith,
    (
      omega arith,
      (omega arith, (omega arith, (omega arith, (omega arith, (omega arith, (omega arith, tt)))))),
    ),
  );
  bitmap = omega arith;
}

two_bytes : (q : ℕ) → q < 8 → byte two_stored (8 + q) ≡ done (get_or two_image.bitmap q 0)
unfolding byte word
two_bytes zero h = refl
two_bytes (suc zero) h = refl
two_bytes (suc (suc zero)) h = refl
two_bytes (suc (suc (suc zero))) h = refl
two_bytes (suc (suc (suc (suc zero)))) h = refl
two_bytes (suc (suc (suc (suc (suc zero))))) h = refl
two_bytes (suc (suc (suc (suc (suc (suc zero)))))) h = refl
two_bytes (suc (suc (suc (suc (suc (suc (suc zero))))))) h = refl
two_bytes (suc (suc (suc (suc (suc (suc (suc (suc q)))))))) h = absurd (omega arith)

no_item : (a x : ℕ) → ◌≢◌ {A = Option ℕ} (get_elem? [] a) (some x)
no_item a x e = cc

two_stored-Stored : Stored two_stored 0 two_image
unfolding byte word real_size
two_stored-Stored = record {
  words = (omega arith, (omega arith, (omega arith, (omega arith, tt))));
  head = 2;
  size = refl;
  real = refl;
  seed = refl;
  bitmap = two_bytes;
  table = λ a k x h h'. absurd (no_item a x h);
}

build-Built_example : Built 2 two_keys (build true two_keys 2 42 blank)
build-Built_example = build-Built true two_keys 2 42 blank blank-HasSpace

build-locate_example :
    (place : ℕ → ℕ) × ((k : ℕ)
      → k < 2
      → (locate two_stored
            (record { data_ = some 0; section_ = 10; data_size_ = 16 })
            (get_or two_keys k [])
          ≡ done (place k))
        × (place k < 2))
    × ((j k : ℕ) → j < 2 → k < 2 → j ≢ k → place j ≢ place k)
unfolding section
build-locate_example =
    build-locate true two_keys 2 42 blank two_image two_stored 0
      (record { data_ = some 0; section_ = 10; data_size_ = 16 }) blank-HasSpace build-two_image
      (omega arith) two_stored-Stored refl refl

-- The graph of the two keys, section by section.
two_keys-SlotsOf : SlotsOf 8 (assign 10) 1344073198 (slots_by 10 1344073198 two_keys) 0 two_keys
unfolding section
two_keys-SlotsOf = slots_by-SlotsOf 8 2 1344073198 (omega arith) (omega arith) two_keys

two_vertices :
    (j i : ℕ)
    → j < 3
    → i < 2
    → section_of two_edges j i ≡ record { slot = i; prev = 65535; next = 65535 }
two_vertices zero zero h hi = refl
two_vertices (suc zero) zero h hi = refl
two_vertices (suc (suc j)) zero h hi = refl
two_vertices zero (suc zero) h hi = refl
two_vertices (suc zero) (suc zero) h hi = refl
two_vertices (suc (suc j)) (suc zero) h hi = refl
two_vertices j (suc (suc i)) h hi = absurd (omega arith)

-- A torn graph: two edges that share no slot.
two_linked : (j : ℕ) → j < 3 → LinkedAt 2 (no_edge 16) all (λ j i. i) j two_edges
two_linked j h = record {
  linked = λ i hi lk.
      rw (two_vertices j i h hi)
        (inl (refl, λ k ki lk' same. omega arith), inl (refl, λ k ik kn lk' same. omega arith));
  slots = λ i hi. rw (two_vertices j i h hi) refl;
}

tear_graph-Torn_example :
    Torn 2 (λ j i. i) two_edges zeros.book (tear_graph 16 two_edges 2 zeros.book)
tear_graph-Torn_example =
    tear_graph-Torn 16 2 (λ j i. i) (omega arith) two_edges (omega arith) two_linked zeros.book
      (omega arith, (omega arith, (omega arith, (omega arith, tt)))) (omega arith)

create_graph-Filled_example :
    Filled 10
      (no_edge 8)
      (slots_by 10 1344073198 two_keys)
      2
      blank.graph
      (create_graph 8 two_keys 1344073198 blank.graph 2 (assign 10))
unfolding assign choose approximate scale
create_graph-Filled_example =
    create_graph-Filled 8 2 1344073198 (assign 10) (slots_by 10 1344073198 two_keys) (omega arith)
      (λ j i. slot_in-lt 10 1344073198 j (get_or two_keys i []) (omega arith)) two_keys blank.graph
      (omega arith) (omega arith) two_keys-SlotsOf

count_valid_slot_lem_example :
    count_valid_slot 0xfffffffdffffffcf ≡ valid_pairs 32 0xfffffffdffffffcf
count_valid_slot_lem_example = count_valid_slot_lem 0xfffffffdffffffcf

build-object_locate_example :
    (place : ℕ → ℕ) × ((k : ℕ)
      → k < 2
      → (object_locate two_stored (object_of 0 (some two_image)) (get_or two_keys k [])
          ≡ done (place k))
        × (place k < 2))
    × ((j k : ℕ) → j < 2 → k < 2 → j ≢ k → place j ≢ place k)
build-object_locate_example =
    build-object_locate true two_keys 2 42 blank two_image two_stored 0 blank-HasSpace
      build-two_image (omega arith) two_stored-Stored
