-- ===== src/Serialize/Strings.antt =====
-- `Serialize` of a string: a header with the length, the bytes, and zeros up to a whole word.
pub mod Varint
pub mod Packing
pub mod RoundTrip
use protocache.Base.{
  ℕ, zero, suc, ◌+◌, ◌*◌, ◌/◌, ◌%◌, ◌^◌, ◌==◌, ltb, leb, if◌then◌else◌, bit_and, bit_or, Bool, true,
  false, List, [], ◌∷◌, ◌++◌, length, Run, done, ◌>>=◌,
}
use protocache.Access.Maps.{word_size}
use protocache.Buffer.{Allocator, Buffer, size, expand, store_head}
use protocache.Serialize.{FieldUnit, inline, segment_from}

-- The bytes that `WriteVarInt` stores.
unfoldable pub write_varint : ℕ → ℕ → List ℕ
write_varint zero n = []
write_varint (suc fuel) n =
    let more = bit_or 0x80 (bit_and n 0x7f) ∷ write_varint fuel (n / 2 ^ 7) in
    if ltb n 0x80 then n ∷ [] else more

-- The words with these bytes, the last one with zeros behind them.
unfoldable pub as_words : List ℕ → List ℕ
as_words [] = []
as_words (a ∷ []) = a ∷ []
as_words (a ∷ b ∷ []) = (a + b * 2 ^ 8) ∷ []
as_words (a ∷ b ∷ c ∷ []) = (a + b * 2 ^ 8 + c * 2 ^ 16) ∷ []
as_words (a ∷ b ∷ c ∷ d ∷ bs) = (a + b * 2 ^ 8 + c * 2 ^ 16 + d * 2 ^ 24) ∷ as_words bs

-- `header`: a number of 32 bits has five groups of seven bits.
unfoldable pub string_header : ℕ → List ℕ
unfolding write_varint
string_header n = write_varint 5 (n * 2 ^ 2 % 2 ^ 32)

-- The branch for `n` words that are not one: they go into the buffer.
unfoldable pub store_segment : Allocator → ℕ → List ℕ → Buffer → Run (Bool × Buffer × FieldUnit)
unfolding segment_from size expand store_head
store_segment h n ws b = do
  b' ← expand h n b
  b' ← store_head ws b'
  done (true, b', segment_from (size b) (size b'))

-- `Serialize(str, buf, unit)`
unfoldable pub serialize_string :
    Allocator → List ℕ → Buffer → FieldUnit → Run (Bool × Buffer × FieldUnit)
unfolding as_words string_header store_segment
serialize_string h str b unit =
    let header = string_header (length str) in
    let n = word_size (length header + length str) in
    let ws = as_words (header ++ str) in
    if leb (2 ^ 30) (length str)
    then done (false, b, unit)
    else if n == 1
    then done (true, b, inline ws)
    else store_segment h n ws b
