-- ===== src/Serialize/Messages.antt =====
-- SerializeMessage: a header with the widths of the first twelve fields, sections with those of 25 more each, and the
-- words of the fields.
use protocache.Base.{
  ℕ, zero, suc, ◌+◌, ◌-◌, ◌*◌, ◌/◌, ◌%◌, ◌^◌, ◌==◌, ltb, leb, if◌then◌else◌, bit_or, Bool, true,
  false, List, [], ◌∷◌, length, take, drop, Run, done, stuck, ◌>>=◌,
}
use protocache.Buffer.{Allocator, Buffer, size, expand, put}
use protocache.Serialize.{
  FieldUnit, inline, segment, unit_size, segment_from, offset, distance, store_at,
}

-- Without the empty fields at the end.
unfoldable pub trim : List FieldUnit → List FieldUnit
unfolding unit_size
trim [] = []
trim (f ∷ fields) = elim (trim fields) [
  | [] ↦ if unit_size f == 0 then [] else f ∷ []
  | g ∷ rest ↦ f ∷ g ∷ rest
]

-- `size`, and `body_size`.
unfoldable pub total_size : List FieldUnit → ℕ
unfolding unit_size
total_size [] = 0
total_size (f ∷ fields) = total_size fields + unit_size f

unfoldable pub body_words : FieldUnit → ℕ
body_words (inline ws) = length ws
body_words (segment pos len) = if len == 0 then 0 else 1

unfoldable pub body_size : List FieldUnit → ℕ
unfolding body_words
body_size [] = 0
body_size (f ∷ fields) = body_size fields + body_words f

-- `body`, as a place in the buffer's array, `pos` and `cnt`.
pub record Writer : Type 0 where
  pub buf : Buffer
  pub body : ℕ
  pub pos : ℕ
  pub cnt : ℕ

-- Stores the words of a field, `n` of them.
unfoldable pub append_words : ℕ → List ℕ → Writer → Run (ℕ × Writer)
unfolding store_at
append_words n ws w = do
  b ← store_at w.body ws w.buf
  done (n, record { buf = b; body = w.body + n; pos = w.pos - n; cnt = w.cnt + n })

-- One field: its width in the marks.
unfoldable pub put_field : FieldUnit → Writer → Run (ℕ × Writer)
unfolding append_words offset distance
put_field (inline ws) w = append_words (length ws) ws w
put_field (segment pos len) w =
    if len == 0 then done (0, w) else append_words 1 (offset (distance w.pos pos) ∷ []) w

-- Fields whose widths go into the `bits` bits of `mark`, from bit `j` on.
unfoldable pub put_fields : ℕ → ℕ → List FieldUnit → ℕ → Writer → Run (ℕ × Writer)
unfolding put_field
put_fields bits j [] mark w = done (mark, w)
put_fields bits j (f ∷ fields) mark w = do
  (n, w) ← put_field f w
  put_fields bits (j + 2) fields (bit_or mark (n * 2 ^ j % 2 ^ bits)) w

-- The sections, `k` at most, from the place `blk` on.
unfoldable pub put_sections : ℕ → List FieldUnit → ℕ → Writer → Run (Bool × Writer)
unfolding put_fields store_at
put_sections k [] blk w = done (true, w)
put_sections zero (f ∷ fields) blk w = stuck
put_sections (suc k) (f ∷ fields) blk w =
    let one = (do
      (mark, w) ← put_fields 64 0 (take 25 (f ∷ fields)) (w.cnt * 2 ^ 50 % 2 ^ 64) w
      b ← store_at blk (mark % 2 ^ 32 ∷ mark / 2 ^ 32 ∷ []) w.buf
      put_sections k (drop 25 (f ∷ fields)) (blk + 2) (record w { buf = b })) in
    if leb (2 ^ 14) w.cnt then done (false, w) else one

-- The words of a message of `k` sections.
unfoldable pub message_words :
    Allocator → ℕ → List FieldUnit → Buffer → ℕ → FieldUnit → Run (Bool × Buffer × FieldUnit)
unfolding body_size expand size put_fields put_sections store_at segment_from
message_words h k fields b last unit = do
  let head_size = 1 + k * 2
  b ← expand h (head_size + body_size fields) b
  let head = b.off_
  let w : Writer = record { buf = b; body = head + head_size; pos = size b - head_size; cnt = 0 }
  (mark, w) ← put_fields 32 8 (take 12 fields) k w
  b ← store_at head (mark ∷ []) w.buf
  (ok, w) ← put_sections k (drop 12 fields) (head + 1) (record w { buf = b })
  done (ok, w.buf, if ok then segment_from last (size w.buf) else unit)

-- What is not empty after `trim`.
unfoldable pub serialize_fields :
    Allocator → List FieldUnit → Buffer → ℕ → FieldUnit → Run (Bool × Buffer × FieldUnit)
unfolding put total_size message_words segment_from size
serialize_fields h [] b last unit = do b ← put h 0 b; done (true, b, segment_from last (size b))
serialize_fields h (f ∷ fields) b last unit =
    let k = (length (f ∷ fields) + 12) / 25 in
    let written = message_words h k (f ∷ fields) b last unit in
    if leb (2 ^ 30) (total_size (f ∷ fields))
    then done (false, b, unit)
    else if ltb 0xff k
    then done (false, b, unit)
    else written

-- `SerializeMessage`
unfoldable pub serialize_message :
    Allocator → List FieldUnit → Buffer → ℕ → FieldUnit → Run (Bool × Buffer × FieldUnit)
unfolding trim serialize_fields
serialize_message h [] b last unit = done (false, b, unit)
serialize_message h (f ∷ fields) b last unit = serialize_fields h (trim (f ∷ fields)) b last unit
