-- ===== src/PerfectHash/Mapping.antt =====
-- Mapping: two-bit values of the slots such that the sum of an edge's three values says which slot is its own.
pub mod Distinct
pub mod Total
pub mod Peeled
pub mod Placing
use protocache.Base.{
  ℕ, zero, suc, ◌+◌, ◌-◌, ◌*◌, ◌/◌, ◌%◌, ◌^◌, if◌then◌else◌, Bool, true, false, List, [], ◌∷◌,
  get_elem?, Run, done, fault, access, ◌>>=◌,
}
use protocache.PerfectHash.Bits.{
  bit2, set_bit2_on11, set_bit, test_and_set_bit, section, bitmap_size,
}
use protocache.PerfectHash.Graph.{Edge, Graph, memset}

-- The bits of the slots that are taken, and the values of the slots.
pub record Tables : Type 0 where
  pub book : List ℕ
  pub bitmap : List ℕ

-- The value of the slot `a`, when those at `b` and `c` are known: `(k - sum) % 3`.
unfoldable pub settle : ℕ → ℕ → ℕ → ℕ → Tables → Run Tables
settle k a b c t = do
  x ← bit2 t.bitmap b
  y ← bit2 t.bitmap c
  bitmap ← set_bit2_on11 t.bitmap a ((k - (x + y)) % 3)
  done (record t { bitmap = bitmap })

-- The branches for the second and for the third slot. An edge without a slot that is clear fails an assertion.
unfoldable pub place_third : ℕ → ℕ → ℕ → Tables → Run Tables
unfolding settle
place_third a b c t = do
  (clear, book) ← test_and_set_bit t.book c
  if clear then settle 8 c a b (record t { book = book }) else fault

unfoldable pub place_second : ℕ → ℕ → ℕ → Tables → Run Tables
unfolding settle place_third
place_second a b c t = do
  (clear, book) ← test_and_set_bit t.book b
  let t = record t { book = book }
  let second = (do book ← set_bit t.book c; settle 7 b a c (record t { book = book }))
  if clear then second else place_third a b c t

-- The body of the loop, for an edge with the slots `a`, `b` and `c`.
unfoldable pub place : ℕ → ℕ → ℕ → Tables → Run Tables
unfolding settle place_second
place a b c t = do
  (clear, book) ← test_and_set_bit t.book a
  let t = record t { book = book }
  let first = (do
    book ← set_bit t.book b
    book ← set_bit book c
    settle 6 a b c (record t { book = book }))
  if clear then first else place_second a b c t

-- The loop, from the last edge of `free` to its first.
unfoldable pub place_all : Graph → ℕ → List ℕ → Tables → Run Tables
unfolding place
place_all g m [] t = done t
place_all g m (idx ∷ free) t = do
  t ← place_all g m free t
  e ← access (get_elem? g.edges idx)
  place e.v0.slot (e.v1.slot + m) (e.v2.slot + m * 2) t

-- `Mapping`, for the `n` edges of `free`.
unfoldable pub mapping : Graph → ℕ → List ℕ → Tables → Run Tables
unfolding memset place_all
mapping g n free t = do
  let m = section n
  bitmap ← memset (bitmap_size m) 255 t.bitmap
  book ← memset ((m * 3 + 7) / 8) 0 t.book
  place_all g m free (record { book = book; bitmap = bitmap })
