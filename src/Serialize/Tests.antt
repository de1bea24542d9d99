-- ===== src/Serialize/Tests.antt =====
-- The theorems on the serializers at concrete data.
use protocache.Base.{
  ℕ, ◌≡◌, refl, List, [], ◌∷◌, true, done, inr, some, none, suc, ◌*◌, take, drop, get_elem?,
  replicate, length-replicate, arith,
}
use protocache.Buffer.{Allocator, Buffer, size, view}
use protocache.Buffer.Moves.{IsValid}
use protocache.Access.Arrays.{array}
use protocache.Serialize.{FieldUnit, inline, segment_from, fold_field, no_unit}
use protocache.Serialize.Folding.{Folded, fold_field-Folded}
use protocache.Serialize.Arrays.{serialize_array}
use protocache.Serialize.Arrays.Cells.{serialize_array-cells}
use protocache.Serialize.Strings.{serialize_string}
use protocache.Serialize.Strings.RoundTrip.{IsString, Keeps, serialize_string-IsString}

abbrev sevens : Allocator
sevens = record { fresh = λ n. replicate n 7; length-fresh = λ n. length-replicate n 7 }

abbrev used : Buffer
used = record { data_ = some (7 ∷ 7 ∷ 7 ∷ 5 ∷ 6 ∷ []); size_ = 5; off_ = 3 }

abbrev word_five : List ℕ
word_five = 97 ∷ 98 ∷ 99 ∷ 100 ∷ 101 ∷ []

serialize_string-IsString_example :
    (ws : List ℕ) × (next : Buffer) × (out : FieldUnit) × (serialize_string sevens word_five used
        no_unit
      ≡ done (true, next, out))
    × IsValid next
    × Keeps used ws next out
    × IsString word_five ws
serialize_string-IsString_example =
    serialize_string-IsString sevens word_five used no_unit
      (record { sized = refl; inside = omega arith })
      (omega arith, (omega arith, (omega arith, (omega arith, (omega arith, tt))))) (omega arith)

serialize_array-cells_example :
    (next : Buffer) × (serialize_array sevens
        (inline (1 ∷ 0 ∷ []) ∷ inline (2 ∷ 9 ∷ []) ∷ [])
        used
        2
        no_unit
      ≡ done (true, next, segment_from 2 (size next)))
    × IsValid next
    × (drop 5 (view next) ≡ view used)
    × (array (view next) (some 0) none ≡ done (record { body_ = some 1; size_ = 2; width_ = 2 }))
    × ((i : ℕ) (cell : List ℕ)
        → get_elem? ((1 ∷ 0 ∷ []) ∷ (2 ∷ 9 ∷ []) ∷ []) i ≡ some cell
        → take 2 (drop (suc (2 * i)) (view next)) ≡ cell)
unfolding size
serialize_array-cells_example =
    serialize_array-cells sevens 2 (1 ∷ 0 ∷ []) ((2 ∷ 9 ∷ []) ∷ []) used no_unit
      (record { sized = refl; inside = omega arith }) (omega arith, omega arith) (refl, (refl, tt))
      (omega arith)

-- Two words in front of those of `used`.
abbrev used_more : Buffer
used_more = record { data_ = some (7 ∷ 1 ∷ 2 ∷ 5 ∷ 6 ∷ []); size_ = 5; off_ = 1 }

fold_field-Folded_example :
    (after : Buffer) × (out : FieldUnit) × (fold_field used_more (segment_from 2 4)
      ≡ done (after, out))
    × IsValid after
    × Folded used (1 ∷ 2 ∷ []) after out
unfolding size view segment_from
fold_field-Folded_example =
    fold_field-Folded used used_more (1 ∷ 2 ∷ []) (segment_from 2 4)
      (record { sized = refl; inside = omega arith })
      (record { sized = refl; inside = omega arith }) (omega arith) tt (inr (refl, refl))
