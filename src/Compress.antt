-- ===== src/Compress.antt =====
-- `Compress` and `Decompress` of src/utils.cc: a size header, then chunks of up to seven bytes
-- under marks of four bits. A byte is a number below 256, a pointer to the source is the bytes from it to
-- the end, and the destination is a `Cursor`.
pub mod Format
pub mod Header
pub mod Pick
pub mod Encode
pub mod Loop
mod Steps
mod Chunks
pub mod Decode
pub mod RoundTrip
pub mod Safety
mod Tests
use protocache.Base.{
  ℕ, zero, suc, ◌+◌, ◌-◌, ◌*◌, ◌/◌, ◌%◌, ◌^◌, bit_and, bit_or, Bool, true, false, not, ◌&&◌, ◌||◌,
  List, [], ◌∷◌, ◌++◌, length, take, drop, replicate, Option, none, some, ltb, leb, ◌==◌,
  if◌then◌else◌, Run, done, stuck, access, ◌>>=◌, Cursor, store, advance, load, word_bytes,
}

-- The size header, `n` bytes long at first. `~0x7fU` is a 32-bit mask, and the source masks a `size_t` by it.
pub put_size : ℕ → List ℕ → ℕ → Run (List ℕ)
put_size zero out n = stuck
put_size (suc fuel) out n =
    let more = put_size fuel (out ++ (bit_or 0x80 (bit_and n 0x7f) ∷ [])) (n / 2 ^ 7) in
    if not (bit_and n 0xffffff80 == 0) then more else done (out ++ ((n % 256) ∷ []))

-- `x >> 1` on an `int8_t`, as bit patterns.
pub asr8 : ℕ → ℕ
asr8 x = x / 2 + x / 128 * 128

-- The first loop of `pick`, over bytes that equal `ch`.
pub pick_fill : ℕ → ℕ → List ℕ → ℕ × List ℕ
pick_fill ch cnt [] = (cnt, [])
pick_fill ch cnt (b ∷ src) =
    let next = pick_fill ch (cnt + 1) src in if ltb cnt 4 && b == ch then next else (cnt, b ∷ src)

-- The second loop of `pick`, over bytes other than 0 and 0xff.
pub pick_plain : ℕ → List ℕ → ℕ × List ℕ
pick_plain cnt [] = (cnt, [])
pick_plain cnt (b ∷ src) =
    let next = pick_plain (cnt + 1) src in
    if ltb cnt 7 && (not (b == 0) && not (b == 0xff)) then next else (cnt, b ∷ src)

fill_mark : ℕ → ℕ × List ℕ → ℕ × List ℕ
fill_mark ch (cnt, src) = (bit_or (bit_or 0x8 (bit_and ch 0x4)) (cnt - 1), src)

-- The mark of the next chunk and the source behind it, for a source `ch ∷ src`.
pub pick : ℕ → List ℕ → ℕ × List ℕ
unfolding fill_mark asr8
pick ch src = if ch == asr8 ch then fill_mark ch (pick_fill ch 1 src) else pick_plain 1 src

-- Copies `l` bytes of `s`, by one store of eight where the source has as many.
pub copy : List ℕ → ℕ → Cursor → Run Cursor
copy s l dest = do
  ws ← access (if leb 8 (length s) then load 8 s else load l s)
  dest' ← access (store ws dest)
  done (advance l dest')

-- `*dest++ = v`
pub put_byte : ℕ → Cursor → Run Cursor
put_byte v dest = do dest' ← access (store (v ∷ []) dest); done (advance 1 dest')

-- The bytes of the chunk at `s`, unless its mark `a` says that they are a fill.
pub put_chunk : List ℕ → ℕ → Cursor → Run Cursor
put_chunk s a dest = if bit_and a 0x8 == 0 then copy s a dest else done dest

put_last : List ℕ → ℕ → Cursor → Run Cursor
put_last x a dest = do dest ← put_byte a dest; put_chunk x a dest

put_two : List ℕ → ℕ → List ℕ → ℕ → Cursor → Run Cursor
put_two x a y b dest = do
  dest ← put_byte (bit_or a (b * 2 ^ 4 % 2 ^ 8)) dest
  dest ← put_chunk x a dest
  put_chunk y b dest

-- `while (src < end)`. Each round takes a byte at least.
pub compress_loop : ℕ → List ℕ → Cursor → Run Cursor
compress_loop fuel [] dest = done dest
compress_loop zero (ch ∷ src) dest = stuck
compress_loop (suc fuel) (ch ∷ src) dest =
    let (a, y) = pick ch src in
    elim y [
      | [] ↦ put_last (ch ∷ src) a dest
      | d ∷ rest ↦
          put_two (ch ∷ src) a (d ∷ rest) (pick d rest).0 dest
          >>= compress_loop fuel (pick d rest).1
    ]

pub compress : List ℕ → Run (List ℕ)
compress [] = done []
compress (ch ∷ src) = do
  let len = length (ch ∷ src)
  header ← put_size 10 [] len
  let room = replicate (len + (len + 13) / 14) 0
  dest ← compress_loop len (ch ∷ src) (record { before = header; after = room })
  done dest.before

-- `parse_size`: the size and the source behind it. The loop ends by itself when the shift reaches 35.
pub parse_size : ℕ → ℕ → List ℕ → Option (ℕ × List ℕ)
parse_size sft size [] = none
parse_size sft size (b ∷ src) =
    let more = parse_size (sft + 7) (bit_or size (bit_and b 0x7f * 2 ^ sft % 2 ^ 32)) src in
    if ltb sft 32
    then (if not (bit_and b 0x80 == 0)
        then more
        else some (bit_or size (b * 2 ^ sft % 2 ^ 32), src))
    else none

-- What a step leaves: whether it went well, the source behind it, the destination.
pub record Unpacked : Type 0 where
  pub good : Bool
  pub src : List ℕ
  pub dest : Cursor

-- The branch of `unpack` for a fill. `tail` is the declared size, where the output must end.
unpack_fill : ℕ → ℕ → List ℕ → Cursor → Run Unpacked
unpack_fill tail mark src dest =
    let cnt = bit_and mark 3 + 1 in
    let filled = (do
      dest' ← access (store (word_bytes ((2 ^ 32 - bit_and (mark / 2 ^ 2) 1) % 2 ^ 32)) dest)
      done (record { good = true; src = src; dest = advance cnt dest' })) in
    if ltb tail (length dest.before + cnt)
    then done (record { good = false; src = src; dest = dest })
    else filled

unpack_plain : ℕ → ℕ → List ℕ → Cursor → Run Unpacked
unpack_plain tail l src dest =
    let copied = (do
      ws ← access (if leb 8 (length src) then load 8 src else load l src)
      dest' ← access (store ws dest)
      done (record { good = true; src = drop l src; dest = advance l dest' })) in
    if ltb (length src) l || ltb tail (length dest.before + l)
    then done (record { good = false; src = src; dest = dest })
    else copied

pub unpack : ℕ → ℕ → List ℕ → Cursor → Run Unpacked
unpack tail mark src dest =
    if not (bit_and mark 8 == 0)
    then unpack_fill tail mark src dest
    else if not (mark == 0)
    then unpack_plain tail mark src dest
    else done (record { good = true; src = src; dest = dest })

-- `!unpack(mark & 0xf) || !unpack(mark >> 4)`, negated.
unpack_two : ℕ → ℕ → List ℕ → Cursor → Run Unpacked
unpack_two tail mark src dest = do
  u ← unpack tail (bit_and mark 0xf) src dest
  if u.good then unpack tail (mark / 2 ^ 4) u.src u.dest else done u

pub decompress_loop : ℕ → ℕ → List ℕ → Cursor → Run (Bool × Cursor)
decompress_loop tail fuel [] dest = done (true, dest)
decompress_loop tail zero (mark ∷ src) dest = stuck
decompress_loop tail (suc fuel) (mark ∷ src) dest = do
  u ← unpack_two tail mark src dest
  let rest = decompress_loop tail fuel u.src u.dest
  if u.good then rest else done (false, u.dest)

-- `out->resize(n)`
pub resize : ℕ → List ℕ → List ℕ
resize n xs = take n xs ++ replicate (n - length xs) 0

-- The verdict and what `*out` holds. `size + 7` is an `unsigned` sum.
pub finish : ℕ → Bool × Cursor → Bool × List ℕ
unfolding resize
finish size (true, dest) = (length dest.before == size, resize size (dest.before ++ dest.after))
finish size (false, dest) = (false, dest.before ++ dest.after)

pub unpack_all : Option (ℕ × List ℕ) → Run (Bool × List ℕ)
unpack_all none = done (false, [])
unpack_all (some (size, src)) = do
  let room = replicate ((size + 7) % 2 ^ 32) 0
  end ← decompress_loop size (length src) src (record { before = []; after = room })
  done (finish size end)

pub decompress : List ℕ → Run (Bool × List ℕ)
decompress [] = done (true, [])
decompress (b ∷ src) = unpack_all (parse_size 0 0 (b ∷ src))
