-- ===== src/PerfectHash/Mapping/Total.antt =====
-- Mapping as a whole: `memset` and the loop.
use protocache.Base.{
  ℕ, ◌+◌, ◌*◌, ◌/◌, ◌%◌, ◌^◌, ◌<◌, ◌≤◌, ◌≡◌, refl, ◌∙◌, false, List, ◌++◌, length, replicate, drop,
  get_or-replicate, some, ltb, done, arith, agree_below, agree_below→eq, zero-bit_and,
}
use protocache.PerfectHash.Bits.{pair, section, bitmap_size}
use protocache.PerfectHash.Bits.Sizes.{bitmap_size-section}
use protocache.PerfectHash.Bits.Values.{pair-mod}
use protocache.PerfectHash.Bits.Views.{Bytes, pair_at, bit_at}
use protocache.PerfectHash.Graph.{Edge, Graph}
use protocache.PerfectHash.Graph.Memset.{memset_lem, memset-length, memset-Bytes}
use protocache.PerfectHash.Mapping.{Tables, mapping}
use protocache.PerfectHash.Mapping.Placing.{HasRoom}
use protocache.PerfectHash.Mapping.Distinct.{
  edges_at, Peels, Apart, owned, Mapped, place_all-Mapped,
}

pair-full : (q : ℕ) → pair 255 q ≡ 3
unfolding agree_below pair
pair-full q =
    pair-mod 255 q ∙ agree_below→eq (λ q. pair 255 q) (λ q. 3) 4 refl (q % 4) (omega arith)

-- The tables behind the calls of `memset`.
abbrev pub cleared : ℕ → Tables → Tables
cleared n t =
    let m = section n in
    record {
      book = replicate ((m * 3 + 7) / 8) 0 ++ drop ((m * 3 + 7) / 8) t.book;
      bitmap = replicate (bitmap_size m) 255 ++ drop (bitmap_size m) t.bitmap;
    }

-- The bitmap of these has its values, 3, and its length.
pub cleared-bitmap :
    (n q : ℕ) (t : Tables)
    → bitmap_size (section n) ≤ length t.bitmap
    → (length (cleared n t).bitmap ≡ length t.bitmap)
      × (q < bitmap_size (section n) * 4 → pair_at (cleared n t).bitmap q ≡ 3)
cleared-bitmap n q t room =
    let k = bitmap_size (section n) in
    (
      memset-length k 255 t.bitmap room,
      λ h. rw (get_or-replicate k 255 (q / 4) (drop k t.bitmap) 0 (omega arith)) (pair-full q),
    )

pub mapping-Mapped :
    (g : Graph) (n : ℕ) (free : List ℕ) (es : List Edge) (t : Tables)
    → n < 2 ^ 28
    → edges_at g free ≡ some es
    → Peels (section n) es
    → Bytes t.book
    → Bytes t.bitmap
    → (section n * 3 + 7) / 8 ≤ length t.book
    → bitmap_size (section n) ≤ length t.bitmap
    → Mapped (section n) (cleared n t) es (mapping g n free t)
unfolding mapping
mapping-Mapped g n free es t small found peels book_bytes bitmap_bytes room room' =
    let m = section n in
    let k = bitmap_size m in
    let k' = (m * 3 + 7) / 8 in
    let enough = bitmap_size-section n small in
    let bitmap = replicate k 255 ++ drop k t.bitmap in
    let book = replicate k' 0 ++ drop k' t.book in
    let start : Tables = record { book = book; bitmap = bitmap } in
    let has_room : HasRoom (m * 3) start = record {
      book_bytes = memset-Bytes k' 0 t.book (omega arith) book_bytes;
      bitmap_bytes = memset-Bytes k 255 t.bitmap (omega arith) bitmap_bytes;
      book_room = omega (arith, memset-length k' 0 t.book room);
      bitmap_room = omega (arith, memset-length k 255 t.bitmap room');
    } in
    let off : (q : ℕ) → q < m * 3 → bit_at book q ≡ false = λ q h.
      rw (get_or-replicate k' 0 (q / 8) (drop k' t.book) 0 (omega arith), zero-bit_and) refl in
    let full : (q : ℕ) → q < m * 3 → pair_at bitmap q ≡ 3 =
      λ q h. rw (get_or-replicate k 255 (q / 4) (drop k t.bitmap) 0 (omega arith)) (pair-full q) in
    let p = place_all-Mapped m g free es start found peels has_room off full in
    record {
      after = p.after;
      returns = rw (memset_lem k 255 t.bitmap room', memset_lem k' 0 t.book room, p.returns) refl;
      has_room = p.has_room;
      sized = p.sized;
      beyond = p.beyond;
      bits = p.bits;
      clear = p.clear;
      apart = p.apart;
      values = p.values;
    }

-- For fewer than 2 ^ 28 keys, on edges of the graph in an order in which each has a slot, in its section, that
-- no later one has, and on tables of bytes with room for the slots, mapping ends without a fault in a bitmap
-- where the slots that the sums of the edges' values point at are all different, and these slots are the ones
-- whose value is below 3.
pub mapping-Apart :
    (g : Graph) (n : ℕ) (free : List ℕ) (es : List Edge) (t : Tables)
    → n < 2 ^ 28
    → edges_at g free ≡ some es
    → Peels (section n) es
    → Bytes t.book
    → Bytes t.bitmap
    → (section n * 3 + 7) / 8 ≤ length t.book
    → bitmap_size (section n) ≤ length t.bitmap
    → (after : Tables) × (mapping g n free t ≡ done after)
      × Apart (section n) (pair_at after.bitmap) es
      × ((q : ℕ)
          → q < section n * 3
          → ltb (pair_at after.bitmap q) 3 ≡ owned (section n) (pair_at after.bitmap) q es)
mapping-Apart g n free es t small found peels book_bytes bitmap_bytes room room' =
    let p = mapping-Mapped g n free es t small found peels book_bytes bitmap_bytes room room' in
    (p.after, p.returns, p.apart, p.values)
