-- ===== src/Access/Tests.antt =====
-- The theorems on the readers at concrete data.
use protocache.Base.{
  fault, ℕ, ◌+◌, ◌*◌, ◌^◌, ◌<◌, ◌≡◌, ◌⊎◌, inr, Option, refl, List, [], ◌∷◌, some, none, done, ◌>>=◌,
  arith,
}
use protocache.Access.Words.{Slice, word, word64}
use protocache.Access.Strings.{string}
use protocache.Access.Fields.{Field, follow, get_object}
use protocache.Access.Count.{count32, count64, widths}
use protocache.Access.Count.Sum.{count32-widths, count64-widths}
use protocache.Access.Messages.{
  message_detect, Message, message, header, sections, field_at, inline_field, has_field, get_field,
}
use protocache.Access.Messages.Bounds.{Opened}
use protocache.Access.Messages.Extent.{Covered, message_detect-fault, message_detect-Covered}
use protocache.Access.Messages.Layout.{
  is_set, get_field-inline, get_field-extended, has_field-get_field,
}
use protocache.Access.Arrays.{Array, array}
use protocache.Access.Bounds.{Within, Bounded}
use protocache.Access.Maps.{Map, map, find}
use protocache.Access.Maps.Bounds.{Enclosed, map-Enclosed, find-Enclosed}
use protocache.Access.Typed.{text, array_t_detect}
use protocache.Access.Typed.Bounds.{Extends, array_t_detect-Extends}
use protocache.PerfectHash.Index.{index_size, real_size}
use protocache.PerfectHash.Index.Safety.{present}
use protocache.Access.Arrays.{array_detect}
use protocache.Access.Reach.{Reach, here, through_field, Reach-safe}

-- Field 0 of one word, then in a section fields 12 and 13 of one and two words.
abbrev wide : List ℕ
wide = 257 ∷ 9 ∷ 262144 ∷ 5 ∷ 6 ∷ 7 ∷ 8 ∷ []

count32-widths_example : count32 0x1b1b ≡ widths 16 0x1b1b
count32-widths_example = count32-widths 0x1b1b (omega arith)

count64-widths_example : count64 0xffff00001b1b ≡ widths 32 0xffff00001b1b
count64-widths_example = count64-widths 0xffff00001b1b (omega arith)

get_field-inline_example :
    get_field wide (some 0) 0 none ≡ done (record { ptr_ = some 3; width_ = 1 })
unfolding word sections widths
get_field-inline_example = get_field-inline wide 0 257 0 refl (omega arith) (omega arith)

get_field-extended_example :
    get_field wide (some 0) 13 none ≡ done (record { ptr_ = some 5; width_ = 2 })
unfolding word word64 sections widths
get_field-extended_example =
    get_field-extended wide 0 257 (9 + 262144 * 2 ^ 32) 13 refl refl (omega arith) (omega arith)
      (omega arith)

has_field-get_field_example :
    has_field wide (some 0) 12 ≡ (get_field wide (some 0) 12 none >>= λ f. done (is_set f))
has_field-get_field_example = has_field-get_field wide 0 12

-- A message whose field 0 is the way to the string "a".
abbrev letter : List ℕ
letter = 256 ∷ 7 ∷ 24836 ∷ []

to_string : Reach letter 3 0 2
unfolding message get_field header inline_field field_at get_object follow word sections count32
to_string = through_field (some 0) 0 (record { ptr_ = some 1; width_ = 1 }) here refl refl refl

Reach-safe_example :
    (2 < 3)
    × ((m : Message) × (message letter (some 2) (some 3) ≡ done m) × Opened letter 3 m)
    × ((a : Array) × (array letter (some 2) (some 3) ≡ done a) × Bounded 3 a)
    × ((s : Slice) × (string letter (some 2) (some 3) ≡ done s) × Within 3 s)
Reach-safe_example =
    Reach-safe letter 3 0 (omega arith) (omega arith, (omega arith, (omega arith, tt)))
      (omega arith) to_string

-- A message of one section that is cut off inside it.
message_detect-fault_example : message_detect (1 ∷ 0 ∷ []) (some 0) (some 2) ≡ fault
unfolding word sections
message_detect-fault_example =
    message_detect-fault (1 ∷ 0 ∷ []) 0 1 (some 2) refl (omega arith) (omega arith)

-- Fields 0 and 1 of one and two words.
abbrev narrow : List ℕ
narrow = 2304 ∷ 7 ∷ 8 ∷ 9 ∷ []

message_detect-Covered_example :
    (s : Slice) × (f : Field) × (message_detect narrow (some 0) none ≡ done s)
    × (s.ptr_ ≡ some 0)
    × (get_field narrow (some 0) 1 none ≡ done f)
    × Covered 0 s f
unfolding word sections
message_detect-Covered_example =
    message_detect-Covered narrow 0 2304 1
      (omega arith, (omega arith, (omega arith, (omega arith, tt)))) refl refl (omega arith)

-- A map of the string "a" to 5.
abbrev entry : List ℕ
entry = 0x50000001 ∷ 24836 ∷ 5 ∷ []

abbrev entry_map : Map
entry_map = record {
  index_ = record { data_ = some 0; section_ = 0; data_size_ = 4 };
  body_ = some 1;
  key_width_ = 1;
  value_width_ = 1;
}

entry_map-Enclosed : Enclosed entry 3 entry_map
unfolding index_size word real_size
entry_map-Enclosed = record {
  fits = present 0 0x50000001 refl refl (λ h. absurd (omega (arith, h)));
  size = 1;
  sized = refl;
  pairs = inr (1, refl, omega arith, omega arith, omega arith, omega arith);
}

map-Enclosed_example : (m : Map) × (map entry (some 0) (some 3) ≡ done m) × Enclosed entry 3 m
map-Enclosed_example = map-Enclosed entry 3 (omega arith) 0 (omega arith) (omega arith)

find-Enclosed_example :
    (r : Option ℕ) × (find entry entry_map (97 ∷ []) (some 3) ≡ done r)
    × ((r ≡ none) ⊎ ((pos : ℕ) × (r ≡ some pos) × (pos < entry_map-Enclosed.size)))
find-Enclosed_example =
    find-Enclosed entry 3 (omega arith) entry_map 1 (97 ∷ []) entry_map-Enclosed refl

-- An array of the string "a".
abbrev strings : List ℕ
strings = 5 ∷ 7 ∷ 24836 ∷ []

array_t_detect-Extends_example :
    Extends strings 3
      (omega arith)
      (some 0)
      (array_detect strings (some 0) (some 3))
      (array_t_detect text strings (some 0) (some 3))
array_t_detect-Extends_example =
    array_t_detect-Extends strings 3 (omega arith) text 0
      (omega arith, (omega arith, (omega arith, tt))) tt (omega arith)
