-- ===== src/Serialize/Maps.antt =====
-- SerializeMap: the index of the keys, and behind it the pairs.
use protocache.Base.{
  ℕ, ◌+◌, ◌-◌, ◌*◌, ◌%◌, ◌^◌, leb, if◌then◌else◌, bit_or, Bool, true, false, List, [], ◌∷◌, length,
  map, Run, done, fault, ◌>>=◌,
}
use protocache.Access.Maps.{word_size}
use protocache.Buffer.{Allocator, Buffer, size, expand, store_head}
use protocache.Serialize.{FieldUnit, inline, segment_from}
use protocache.Serialize.Strings.{as_words}
use protocache.Serialize.Arrays.{Picking, best_array_size, pick_unit, mark_unit, shrink_to}

-- From the last pair to the first, the value before the key.
unfoldable pub pick_pairs :
    ℕ → ℕ → List (FieldUnit × FieldUnit) → Picking → Run (List (FieldUnit × FieldUnit) × Picking)
unfolding pick_unit
pick_pairs m1 m2 [] s = done ([], s)
pick_pairs m1 m2 (p ∷ pairs) s = do
  (pairs, s) ← pick_pairs m1 m2 pairs s
  (value, s) ← pick_unit m2 p.1 s
  (key, s) ← pick_unit m1 p.0 s
  done ((key, value) ∷ pairs, s)

unfoldable pub mark_pairs : Allocator → ℕ → ℕ → List (FieldUnit × FieldUnit) → Buffer → Run Buffer
unfolding mark_unit
mark_pairs h m1 m2 [] b = done b
mark_pairs h m1 m2 (p ∷ pairs) b = do
  b ← mark_pairs h m1 m2 pairs b
  b ← mark_unit h m2 p.1 b
  mark_unit h m1 p.0 b

-- The words of the index, with the widths in the first. Without any, the code writes in front of its words.
unfoldable pub tagged_index : ℕ → ℕ → List ℕ → Run (List ℕ)
tagged_index m1 m2 [] = fault
tagged_index m1 m2 (w ∷ ws) =
    done (bit_or w (bit_or (m1 * 2 ^ 30 % 2 ^ 32) (m2 * 2 ^ 28 % 2 ^ 32)) ∷ ws)

-- The pairs as cells of the widths `m1` and `m2`, and the index.
unfoldable pub map_cells :
    Allocator
    → List ℕ
    → ℕ
    → ℕ
    → List (FieldUnit × FieldUnit)
    → Buffer
    → ℕ
    → Run (Bool × Buffer × FieldUnit)
unfolding pick_pairs shrink_to mark_pairs expand store_head tagged_index as_words segment_from size
map_cells h index m1 m2 pairs b last = do
  (picked, s) ← pick_pairs m1 m2 pairs (record { buf = b; tail = b.size_ - last })
  b ← shrink_to s
  b ← mark_pairs h m1 m2 picked b
  b ← expand h (word_size (length index)) b
  ws ← tagged_index m1 m2 (as_words index)
  b ← store_head ws b
  done (true, b, segment_from last (size b))

-- `SerializeMap`
unfoldable pub serialize_map :
    Allocator
    → List ℕ
    → List (FieldUnit × FieldUnit)
    → Buffer
    → ℕ
    → FieldUnit
    → Run (Bool × Buffer × FieldUnit)
unfolding best_array_size map_cells
serialize_map h index [] b last unit = done (true, b, inline (5 * 2 ^ 28 ∷ []))
serialize_map h index (p ∷ pairs) b last unit =
    let keys = best_array_size (map (λ p. p.0) (p ∷ pairs)) in
    let values = best_array_size (map (λ p. p.1) (p ∷ pairs)) in
    let n = word_size (length index) + keys.1 + values.1 in
    let cells = map_cells h index keys.0 values.0 (p ∷ pairs) b last in
    if leb (2 ^ 30) n then done (false, b, unit) else cells
