-- ===== src/Serialize.antt =====
-- What the serializers of src/serialize.cc and include/protocache/serialize.h share.
pub mod Strings
pub mod Arrays
pub mod Maps
pub mod Messages
pub mod Folding
mod Tests
use protocache.Base.{
  ℕ, zero, suc, ◌+◌, ◌-◌, ◌*◌, ◌/◌, ◌%◌, ◌^◌, ◌==◌, ltb, ◌&&◌, not, if◌then◌else◌, Bool, List, [],
  ◌∷◌, length, take, get_elem?, set, Option, none, some, bit_or, fault, Run, done, access, load,
  ◌>>=◌,
}
use mathlib.Core.Option
use protocache.Buffer.{Buffer, size, view, shrink, copy_to}

-- `Unit`: up to three words that are kept here, or the place of what is in the buffer. A length of 0 says that
-- it is a segment.
pub data FieldUnit : Type 0 where
  inline : List ℕ → FieldUnit
  segment : ℕ → ℕ → FieldUnit

-- A unit as it is declared.
abbrev pub no_unit : FieldUnit
no_unit = segment 0 0

-- `Unit::size`
unfoldable pub unit_size : FieldUnit → ℕ
unit_size (inline ws) = length ws
unit_size (segment pos len) = len

-- `Segment`
unfoldable pub segment_from : ℕ → ℕ → FieldUnit
segment_from last now = segment (now % 2 ^ 32) ((now - last) % 2 ^ 32)

-- The loop of FoldField, of `n` rounds from `i` on: `unit.data[i] = src[i]`, in the words of the unit.
unfoldable pub fill_words : ℕ → ℕ → List ℕ → List ℕ → Run (List ℕ)
fill_words zero i src words = done words
fill_words (suc n) i src words = do
  x ← access (get_elem? src i)
  words ← (if ltb i (length words) then done (set words i x) else fault)
  fill_words n (suc i) src words

-- `FoldField`: a segment of up to three words moves from the head of the buffer into the unit, whose three words
-- held the segment. It asserts that the segment lies at the head.
unfoldable pub fold_field : Buffer → FieldUnit → Run (Buffer × FieldUnit)
unfolding size view shrink fill_words
fold_field b (inline ws) = done (b, inline ws)
fold_field b (segment pos len) =
    let fold = (do
      words ← fill_words len 0 (view b) (pos ∷ len ∷ 0 ∷ [])
      done (shrink len b, inline (take len words))) in
    let at_head = if pos == size b then fold else fault in
    if not (len == 0) && ltb len 4 then at_head else done (b, segment pos len)

-- `Serialize` of a scalar of `n` bytes, 4 or 8, and of a Boolean.
unfoldable pub serialize_scalar : ℕ → ℕ → FieldUnit
serialize_scalar n v = inline (if n == 8 then v % 2 ^ 32 ∷ v / 2 ^ 32 ∷ [] else v ∷ [])

unfoldable pub serialize_bool : Bool → FieldUnit
serialize_bool v = inline ((if v then 1 else 0) ∷ [])

-- `Offset`
unfoldable pub offset : ℕ → ℕ
offset off = bit_or (off * 2 ^ 2 % 2 ^ 32) 3

-- `a - b`, for a size and an unsigned 32-bit place.
unfoldable pub distance : ℕ → ℕ → ℕ
distance a b = (a + 2 ^ 32 - b % 2 ^ 32) % 2 ^ 32

-- Stores `ws` from the place `i` of the buffer's array on.
unfoldable pub store_at : ℕ → List ℕ → Buffer → Run Buffer
unfolding copy_to
store_at i ws b = elim b.data_ [
  | none ↦ if ltb 0 (length ws) then fault else done b
  | some mem ↦ access (Option.map (λ mem'. record b { data_ = some mem' }) (copy_to i ws mem))
]
