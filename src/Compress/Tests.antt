-- ===== src/Compress/Tests.antt =====
-- Runs of `compress` and `decompress` on concrete bytes, and the theorems at concrete inputs.
use protocache.Base.{
  ◌≡◌, refl, true, false, List, [], ◌∷◌, ℕ, Bool, done, fault, arith, length, ◌>>=◌, store, poke,
  load, advance,
}
use protocache.Compress.{
  compress, compress_loop, put_size, pick, pick_fill, pick_plain, copy, put_byte, put_chunk,
  put_last, put_two, decompress, decompress_loop, parse_size, unpack, unpack_two, unpack_fill,
  unpack_plain, unpack_all, finish,
}
use protocache.Compress.Format.{plain, ones, two_marks, none_left}
use protocache.Compress.RoundTrip.{
  Compressed, compress-Compressed, decompress-Packs, decompress-compress,
}
use protocache.Compress.Safety.{decompress_safe, decompress_overflow}

abbrev sample : List ℕ
sample = 1 ∷ 2 ∷ 3 ∷ 0 ∷ 0 ∷ 0 ∷ 0 ∷ 0 ∷ 255 ∷ 255 ∷ 9 ∷ 8 ∷ 7 ∷ 6 ∷ 5 ∷ 4 ∷ 3 ∷ 2 ∷ 1 ∷ 0 ∷ 77 ∷ []

abbrev sample_packed : List ℕ
sample_packed = 21 ∷ 179 ∷ 1 ∷ 2 ∷ 3 ∷ 216 ∷ 39 ∷ 9 ∷ 8 ∷ 7 ∷ 6 ∷ 5 ∷ 4 ∷ 3 ∷ 2 ∷ 1 ∷ 24 ∷ 77 ∷ []

compress_run : compress sample ≡ done sample_packed
unfolding compress compress_loop put_size pick pick_fill pick_plain copy put_byte put_chunk put_last
    put_two store poke load advance
compress_run = refl

decompress_run : decompress sample_packed ≡ done (true, sample)
unfolding decompress decompress_loop parse_size unpack_all unpack unpack_two unpack_fill
    unpack_plain finish store poke load advance
decompress_run = refl

-- A size header that never ends.
decompress_endless : decompress (0x80 ∷ 0x80 ∷ 0x80 ∷ 0x80 ∷ 0x80 ∷ 0 ∷ []) ≡ done (false, [])
unfolding decompress parse_size unpack_all
decompress_endless = refl

compress-Compressed_example : Compressed sample (compress sample)
compress-Compressed_example = compress-Compressed 1 _ (omega arith) (omega arith)

decompress-Packs_example : decompress (3 ∷ 0xd1 ∷ 7 ∷ []) ≡ done (true, 7 ∷ 255 ∷ 255 ∷ [])
unfolding parse_size
decompress-Packs_example =
    decompress-Packs (7 ∷ 255 ∷ 255 ∷ []) (0xd1 ∷ 7 ∷ []) (3 ∷ 0xd1 ∷ 7 ∷ [])
      (two_marks (plain (7 ∷ []) (omega arith) (omega arith)) (ones 2 (omega arith) (omega arith))
        none_left)
      refl (omega arith)

decompress-compress_example : (compress sample >>= decompress) ≡ done (true, sample)
decompress-compress_example = decompress-compress sample (omega arith) (omega arith)

decompress_safe_example :
    (good : Bool) × (out : List ℕ) × (decompress (3 ∷ 0xff ∷ 7 ∷ []) ≡ done (good, out))
    × (good ≡ true → length out ≡ 3)
unfolding parse_size
decompress_safe_example =
    decompress_safe (3 ∷ 0xff ∷ 7 ∷ []) 3 (0xff ∷ 7 ∷ []) (omega arith) refl (omega arith)

decompress_overflow_example : decompress (0xfa ∷ 0xff ∷ 0xff ∷ 0xff ∷ 0x0f ∷ 0x0b ∷ []) ≡ fault
unfolding parse_size
decompress_overflow_example =
    decompress_overflow (0xfa ∷ 0xff ∷ 0xff ∷ 0xff ∷ 0x0f ∷ 0x0b ∷ []) 0xfffffffa 0x0b [] refl
      (omega arith) (omega arith) (omega arith)
