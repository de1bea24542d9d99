-- ===== src/Access/Messages.antt =====
-- The class `Message`: a header, sections of field widths, and the fields' words behind them.
pub mod Layout
pub mod Bounds
pub mod Extent
use protocache.Base.{
  ℕ, ◌+◌, ◌-◌, ◌*◌, ◌/◌, ◌%◌, ◌^◌, List, Option, none, some, Bool, true, false, not, ◌==◌, bit_and,
  ltb, leb, if◌then◌else◌, Run, done, ◌>>=◌,
}
use protocache.Access.Words.{Slice, null, word, word64, passes}
use protocache.Access.Fields.{Field, no_field}
use protocache.Access.Count.{count32, count64}

-- `ptr_`; `none` is the address of the empty message's one word, which is 0.
abbrev pub Message : Type 0
Message = Option ℕ

-- `*ptr_`
unfoldable pub header : List ℕ → Message → Run ℕ
header mem none = done 0
header mem (some p) = word mem p

-- `*ptr & 0xff`
unfoldable pub sections : ℕ → ℕ
sections w = bit_and w 0xff

-- `Message(ptr, end)`
unfoldable pub message : List ℕ → Option ℕ → Option ℕ → Run Message
unfolding sections
message mem none end = done none
message mem (some p) end = do
  w ← word mem p
  let body = p + 1 + sections w * 2
  done (if passes body end then none else some p)

-- The end of the fields, from the header `w` at `p`.
unfoldable pub fields_end : List ℕ → ℕ → ℕ → Run ℕ
unfolding sections
fields_end mem p w =
    let tail = p + 1 + sections w * 2 in
    let last = (do
      sec ← word64 mem (tail - 2)
      done (tail + count64 (sec * 2 ^ 14 % 2 ^ 64) + sec / 2 ^ 50)) in
    if sections w == 0 then done (tail + count32 w) else last

-- `Message::Detect`
unfoldable pub message_detect : List ℕ → Option ℕ → Option ℕ → Run Slice
unfolding fields_end
message_detect mem none end = done null
message_detect mem (some p) end = do
  w ← word mem p
  tail ← fields_end mem p w
  done (if passes tail end then null else record { ptr_ = some p; len_ = tail - p })

-- The words of the extended sections. They are read only where there are some.
unfoldable pub section_word : List ℕ → Message → ℕ → Run ℕ
section_word mem none a = done 0
section_word mem (some p) a = word64 mem (p + 1 + a * 2)

unfoldable pub has_field : List ℕ → Message → ℕ → Run Bool
has_field mem m id = do
  w ← header mem m
  let extended = (do
    v ← section_word mem m ((id - 12) / 25)
    done (not (bit_and (v / 2 ^ ((id - 12) % 25 * 2)) 3 == 0)))
  if ltb id 12
      then done (not (bit_and (w / 2 ^ 8 / 2 ^ (id * 2)) 3 == 0))
      else if leb (sections w) ((id - 12) / 25)
      then done false
      else extended

-- `Field(body + off, width)`, unless the words leave the data.
unfoldable pub field_at : Option ℕ → Message → ℕ → ℕ → ℕ → Field
field_at end none section off width = no_field
field_at end (some p) section off width =
    let body = p + 1 + section * 2 in
    if passes (body + off + width) end
    then no_field
    else record { ptr_ = some (body + off); width_ = width }

-- A field of the header `w`. The mask keeps the widths below the field's own.
unfoldable pub inline_field : Option ℕ → Message → ℕ → ℕ → Field
inline_field end m w id =
    let v = w / 2 ^ 8 in
    let width = bit_and (v / 2 ^ (id * 2)) 3 in
    if width == 0
    then no_field
    else field_at end m (sections w) (count32 (bit_and v (2 ^ (id * 2) - 1))) width

-- Field `b` of a section whose word is `v`; its highest 14 bits are the words before the section.
unfoldable pub extended_field : Option ℕ → Message → ℕ → ℕ → ℕ → Field
extended_field end m section v b =
    let width = bit_and (v / 2 ^ (b * 2)) 3 in
    if width == 0
    then no_field
    else field_at end m section (count64 (bit_and v (2 ^ (b * 2) - 1)) + v / 2 ^ 50) width

-- `GetField`
unfoldable pub get_field : List ℕ → Message → ℕ → Option ℕ → Run Field
get_field mem m id end = do
  w ← header mem m
  let extended = (do
    v ← section_word mem m ((id - 12) / 25)
    done (extended_field end m (sections w) v ((id - 12) % 25)))
  if ltb id 12
      then done (inline_field end m w id)
      else if leb (sections w) ((id - 12) / 25)
      then done no_field
      else extended
