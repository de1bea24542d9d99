-- ===== src/Serialize/Arrays.antt =====
-- SerializeArray: the elements are cells of the same width; what does not fit in a cell stays behind them and the cell
-- has an offset.
pub mod Cells
use protocache.Base.{
  ℕ, zero, suc, ◌+◌, ◌-◌, ◌*◌, ◌%◌, ◌^◌, ◌==◌, ltb, leb, if◌then◌else◌, bit_or, Bool, true, false,
  List, [], ◌∷◌, ◌++◌, length, replicate, set, get_elem?, load, some, Run, done, fault, access,
  ◌>>=◌,
}
use protocache.Buffer.{Allocator, Buffer, size, words, at, expand, store_head, put, shrink}
use protocache.Serialize.{FieldUnit, inline, segment, unit_size, segment_from, offset, distance}

-- `sizes[w - 1]`: the words of cells of the width `w`, and behind them of what does not fit.
unfoldable pub array_size : ℕ → List FieldUnit → ℕ
unfolding unit_size
array_size w [] = 0
array_size w (one ∷ units) =
    array_size w units + w + (if leb (unit_size one) w then 0 else unit_size one)

-- `BestArraySize`: the width `m`, and the size.
unfoldable pub best_array_size : List FieldUnit → ℕ × ℕ
unfolding array_size
best_array_size units =
    let s0 = array_size 1 units in
    let s1 = array_size 2 units in
    let s2 = array_size 3 units in
    if ltb s1 s0
    then (if ltb s2 s1 then (3, s2) else (2, s1))
    else (if ltb s2 s0 then (3, s2) else (1, s0))

-- The buffer, and the place of `tail` in its array.
pub record Picking : Type 0 where
  pub buf : Buffer
  pub tail : ℕ

-- `*--tail = *--src`, `n` times.
unfoldable pub move_back : ℕ → ℕ → ℕ → List ℕ → Run (List ℕ)
move_back zero tail src mem = done mem
move_back (suc n) zero src mem = fault
move_back (suc n) (suc tail) zero mem = fault
move_back (suc n) (suc tail) (suc src) mem = do
  w ← access (get_elem? mem src)
  let rest = move_back n tail src (set mem tail w)
  if ltb tail (length mem) then rest else fault

-- The segment at `pos` becomes the next one in front of `tail`; `src` is its end.
unfoldable pub move_segment : ℕ → ℕ → ℕ → Picking → Run (FieldUnit × Picking)
unfolding move_back
move_segment pos len src s =
    let moved = (do
      mem ← move_back len s.tail src (words s.buf)
      done (
        segment (distance pos (s.tail - src)) len,
        record { buf = record s.buf { data_ = some mem }; tail = s.tail - len },
      )) in
    if ltb src s.tail then moved else done (segment pos len, record s { tail = s.tail - len })

-- `Pick`, without SSE. A segment of no words stays one.
unfoldable pub pick_unit : ℕ → FieldUnit → Picking → Run (FieldUnit × Picking)
unfolding at move_segment
pick_unit m (inline ws) s = done (inline ws, s)
pick_unit m (segment pos len) s =
    let into_unit = (do
      src ← access (load len (at pos s.buf))
      done (if len == 0 then segment pos len else inline src, s)) in
    if leb len m then into_unit else move_segment pos len (s.buf.size_ - distance pos len) s

-- From the last element to the first.
unfoldable pub pick_all : ℕ → List FieldUnit → Picking → Run (List FieldUnit × Picking)
unfolding pick_unit
pick_all m [] s = done ([], s)
pick_all m (u ∷ units) s = do
  (units, s) ← pick_all m units s
  (u, s) ← pick_unit m u s
  done (u ∷ units, s)

-- `Mark`
unfoldable pub mark_unit : Allocator → ℕ → FieldUnit → Buffer → Run Buffer
unfolding expand store_head offset distance size
mark_unit h m (inline ws) b = do b ← expand h m b; store_head (ws ++ replicate (m - length ws) 0) b
mark_unit h m (segment pos len) b = do
  b ← expand h m b
  store_head (offset (distance (size b) pos) ∷ replicate (m - 1) 0) b

unfoldable pub mark_all : Allocator → ℕ → List FieldUnit → Buffer → Run Buffer
unfolding mark_unit
mark_all h m [] b = done b
mark_all h m (u ∷ units) b = do b ← mark_all h m units b; mark_unit h m u b

-- `buf.Shrink(tail - buf.Head())`, which asserts that the words are in use.
unfoldable pub shrink_to : Picking → Run Buffer
unfolding shrink
shrink_to s = if ltb s.tail s.buf.off_ then fault else done (shrink (s.tail - s.buf.off_) s.buf)

-- The elements as cells of the width `m`, and the header.
unfoldable pub array_cells :
    Allocator → ℕ → List FieldUnit → Buffer → ℕ → Run (Bool × Buffer × FieldUnit)
unfolding pick_all shrink_to mark_all put segment_from size
array_cells h m units b last = do
  (picked, s) ← pick_all m units (record { buf = b; tail = b.size_ - last })
  b ← shrink_to s
  b ← mark_all h m picked b
  b ← put h (bit_or (length units * 2 ^ 2 % 2 ^ 32) m) b
  done (true, b, segment_from last (size b))

-- `SerializeArray`
unfoldable pub serialize_array :
    Allocator → List FieldUnit → Buffer → ℕ → FieldUnit → Run (Bool × Buffer × FieldUnit)
serialize_array h [] b last unit = done (true, b, inline (1 ∷ []))
serialize_array h (u ∷ units) b last unit =
    let best = best_array_size (u ∷ units) in
    let cells = array_cells h best.0 (u ∷ units) b last in
    if leb (2 ^ 30) best.1 then done (false, b, unit) else cells
