-- ===== src/Compress/RoundTrip.antt =====
-- `Compress` and `Decompress` together.
use protocache.Base.{
  ℕ, ◌+◌, ◌-◌, ◌/◌, ◌^◌, ◌≤◌, ◌<◌, ◌≡◌, refl, ap, List, [], ◌∷◌, ◌++◌, length, length-append,
  length-replicate, take-length-append, replicate, arith, All, some, ◌==◌, true, Run, done, ◌>>=◌,
  Cursor, append-nil,
}
use native.Mathlib.Nat.{mod-eq_of_lt}
use protocache.Compress.{compress, decompress, unpack_all, parse_size, finish}
use protocache.Compress.Format.{Packs}
use protocache.Compress.Header.{header_lem}
use protocache.Compress.Pick.{IsByte}
use protocache.Compress.Loop.{compress_loop-Packed}
use protocache.Compress.Decode.{decompress_loop_lem}

-- What `compress` leaves on a source that is not empty.
pub record Compressed (src : List ℕ) (r : Run (List ℕ)) : Type 0 where
  pub header : List ℕ
  pub form : List ℕ
  pub returns : r ≡ done (header ++ form)
  pub sized : (rest : List ℕ) → parse_size 0 0 (header ++ rest) ≡ some (length src, rest)
  pub packs : Packs src form
  pub bounded : length form ≤ length src + (length src + 13) / 14

-- `Compress` stays inside what it reserves and writes the size and a packed form of the source.
pub compress-Compressed :
    (ch : ℕ) (src : List ℕ)
    → All IsByte (ch ∷ src)
    → length (ch ∷ src) < 2 ^ 32
    → Compressed (ch ∷ src) (compress (ch ∷ src))
unfolding compress
compress-Compressed ch src h small =
    let len = length (ch ∷ src) in
    let (header, wrote, sized) = header_lem len small in
    let room = length-replicate {A = ℕ} (len + (len + 13) / 14) 0 in
    let start : Cursor = record { before = header; after = replicate (len + (len + 13) / 14) 0 } in
    let r = compress_loop-Packed len (ch ∷ src) start h (omega arith) (omega (arith, room)) in
    rw (wrote, r.writes.returns)
      (record {
        header = header;
        form = r.form;
        returns = ap done r.writes.written;
        sized = sized;
        packs = r.packs;
        bounded = omega (arith, r.writes.room_left, room);
      })

pub decompress_parsed :
    (t : List ℕ) {r : ℕ × List ℕ} → parse_size 0 0 t ≡ some r → decompress t ≡ unpack_all (some r)
unfolding decompress unpack_all
decompress_parsed [] e = unfold parse_size in cc
decompress_parsed (b ∷ t) e = rw e

finish_full :
    (size : ℕ) (src : List ℕ) (dest : Cursor)
    → dest.before ≡ src
    → length src ≡ size
    → finish size (true, dest) ≡ (true, src)
unfolding finish
finish_full size src dest e long =
    let full : (length src == size) ≡ true = ground arith in
    let no_more : size - length (src ++ dest.after) ≡ 0 =
      omega (arith, length-append src dest.after) in
    rw (e, full, no_more, ← long, take-length-append src dest.after, append-nil)

-- Any packed form behind a size that fits is read back.
pub decompress-Packs :
    (src form t : List ℕ)
    → Packs src form
    → parse_size 0 0 t ≡ some (length src, form)
    → length src + 7 < 2 ^ 32
    → decompress t ≡ done (true, src)
unfolding unpack_all
decompress-Packs src form t packs sized small =
    let room = length-replicate {A = ℕ} (length src + 7) 0 in
    let start : Cursor = record { before = []; after = replicate (length src + 7) 0 } in
    let (dest, e, written, left) =
      decompress_loop_lem (length src) (length form) start packs (omega arith)
        (omega (arith, room)) in
    rw (decompress_parsed t sized, mod-eq_of_lt {n = length src + 7} {m = 2 ^ 32} small, e)
      (ap done (finish_full (length src) src dest written refl))

-- Decompressing what `Compress` wrote gives the source back, for every source below 2 ^ 32 - 7 bytes.
pub decompress-compress :
    (src : List ℕ)
    → All IsByte src
    → length src + 7 < 2 ^ 32
    → (compress src >>= decompress) ≡ done (true, src)
decompress-compress [] h small = unfold compress decompress in refl
decompress-compress (ch ∷ src) h small =
    let r = compress-Compressed ch src h (omega arith) in
    rw r.returns
      (decompress-Packs (ch ∷ src) r.form (r.header ++ r.form) r.packs (r.sized r.form) small)
