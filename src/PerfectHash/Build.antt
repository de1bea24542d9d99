-- ===== src/PerfectHash/Build.antt =====
-- Build: tries seeds until the graph of the keys can be torn, and then writes the bitmap and the table of counts.
pub mod Size
pub mod Homes
pub mod Perfect
pub mod Attempt
pub mod Found
pub mod Table
pub mod Complete
use protocache.Base.{
  ℕ, zero, suc, ◌+◌, ◌*◌, ◌/◌, ◌%◌, ◌^◌, ◌==◌, ltb, leb, not, if◌then◌else◌, Bool, true, false,
  List, [], ◌∷◌, take, drop, get_or, replicate, Option, none, some, Run, done, fault, ◌>>=◌,
}
use protocache.Hash.Random.{XorShift, xor_shift, next}
use protocache.PerfectHash.Bits.{section, bitmap_size, count_valid_slot}
use protocache.PerfectHash.Division.{Divisor, assign}
use protocache.PerfectHash.Graph.{Vertex, Edge, Graph, create_graph, tear_graph}
use protocache.PerfectHash.Mapping.{Tables, mapping}
use protocache.PerfectHash.Check.{Code, check}

-- The arrays that Build works in, `graph`, `book` and `bitmap`; what `new` leaves in them is a parameter.
pub record Work : Type 0 where
  pub graph : Graph
  pub tables : Tables

-- The lambda `build`.
unfoldable pub attempt : ℕ → List (List ℕ) → ℕ → Divisor → ℕ → Work → Run (Bool × Work)
attempt w source total d seed k = do
  (whole, g) ← create_graph w source seed k.graph total d
  let tear = (do
    (torn, g, q) ← tear_graph w g total k.tables.book
    let k = record k { graph = g; tables = record { book = q.book; bitmap = k.tables.bitmap } }
    let map = (do t ← mapping g total q.free k.tables; done (true, record k { tables = t }))
    elim torn [ true ↦ map | false ↦ done (false, k) ])
  elim whole [ true ↦ tear | false ↦ done (false, record k { graph = g }) ]

-- The generator, `header->seed` and the arrays.
pub record Search : Type 0 where
  pub rand32 : XorShift
  pub seed : ℕ
  pub work : Work

-- A loop of `n` tries.
unfoldable pub tries : ℕ → ℕ → List (List ℕ) → ℕ → Divisor → Search → Run (Bool × Search)
unfolding attempt
tries zero w source total d s = done (false, s)
tries (suc n) w source total d s = do
  let (seed, rand32) = next s.rand32
  (ok, work) ← attempt w source total d seed s.work
  let s : Search = record { rand32 = rand32; seed = seed; work = work }
  elim ok [ true ↦ done (true, s) | false ↦ tries n w source total d s ]

-- `FIRST_TRIES` and `SECOND_TRIES`
abbrev pub first_tries : ℕ → ℕ
first_tries w = if w == 8 then 8 else 4

abbrev pub second_tries : ℕ → ℕ
second_tries w = if w == 8 then 32 else 12

-- `tmp_sz`: the bytes of the edges, the free list, the nodes and the book.
abbrev pub temp_size : ℕ → ℕ → ℕ
temp_size w total =
    let slot_cnt = section total * 3 in
    let edges = 9 * (w / 8) * total in edges + w / 8 * total + w / 8 * slot_cnt + (slot_cnt + 7) / 8

-- The memory of those arrays as the table of Check, where it is large enough. Check clears what it reads of it,
-- so what was there before is left out.
unfoldable pub check_space : ℕ → ℕ → Option (List Code)
check_space w total =
    let codes = temp_size w total / 16 in
    if ltb (total * 2 % 2 ^ 32) codes then some (replicate codes (0, 0)) else none

-- Codes as Words of 32 bits.
abbrev pub code_words : List Code → List ℕ
code_words [] = []
code_words ((lo, hi) ∷ table) =
    lo % 2 ^ 32 ∷ lo / 2 ^ 32 ∷ hi % 2 ^ 32 ∷ hi / 2 ^ 32 ∷ code_words table

-- The edges after Words were stored from the first edge on, nine an edge.
unfoldable pub spill : List ℕ → List Edge → List Edge
spill ws [] = []
spill ws (e ∷ es) =
    let at : ℕ → Vertex → Vertex = λ k v. record {
      slot = get_or ws k v.slot;
      prev = get_or ws (k + 1) v.prev;
      next = get_or ws (k + 2) v.next;
    } in
    let edge : Edge = record { v0 = at 0 e.v0; v1 = at 3 e.v1; v2 = at 6 e.v2 } in
    edge ∷ spill (drop 9 ws) es

-- The arrays after Check has left a table in their memory. It is used with Words of 32 bits only, and the 32 bytes
-- for a key then lie in the edges, which have 36 bytes for a key.
unfoldable pub after_check : Option (List Code) → ℕ → List Code → Work → Work
unfolding spill
after_check none total table k = k
after_check (some space) total table k =
    let words = code_words (take (total * 2) table) in
    record k { graph = record { edges = spill words k.graph.edges; nodes = k.graph.nodes } }

-- Up to `L_done`: whether a seed was found.
unfoldable pub search : ℕ → Bool → List (List ℕ) → ℕ → Divisor → Search → Run (Bool × Search)
unfolding tries check_space after_check
search w no_check source total d s = do
  (found, s) ← tries (first_tries w) w source total d s
  let space = check_space w total
  let checked = (do
    (fine, table) ← check source total s.seed space
    let s : Search = record s { work = after_check space total table s.work }
    elim fine [ true ↦ tries (second_tries w) w source total d s | false ↦ done (false, s) ])
  let again = tries (second_tries w) w source total d s
  elim found [ true ↦ done (true, s) | false ↦ elim no_check [ true ↦ again | false ↦ checked ] ]

-- The table: for each block of eight bytes how many valid slots are before it, and how many there are in all.
unfoldable pub count_table : ℕ → List ℕ → ℕ → List ℕ × ℕ
unfolding count_valid_slot
count_table w (b0 ∷ b1 ∷ b2 ∷ b3 ∷ b4 ∷ b5 ∷ b6 ∷ b7 ∷ bytes) cnt =
    let block =
      b0
      + b1 * 2 ^ 8
      + b2 * 2 ^ 16
      + b3 * 2 ^ 24
      + b4 * 2 ^ 32
      + b5 * 2 ^ 40
      + b6 * 2 ^ 48
      + b7 * 2 ^ 56 in
    let (table, all) = count_table w bytes ((cnt + count_valid_slot block) % 2 ^ w) in
    (cnt ∷ table, all)
count_table w bytes cnt = ([], cnt)

-- What Build leaves behind the divisor: the header, the bitmap, and the table of `width` bits an item.
pub record Image : Type 0 where
  pub total : ℕ
  pub seed : ℕ
  pub bitmap : List ℕ
  pub table : List ℕ
  pub width : ℕ
  pub data_size : ℕ

-- From `L_done` on, which asserts that the counts add up to the number of keys.
unfoldable pub image : ℕ → ℕ → Search → Run Image
unfolding count_table
image w total s =
    let bytes = bitmap_size (section total) in
    let bitmap = take bytes s.work.tables.bitmap in
    let (table, all) = count_table w bitmap 0 in
    let small : Image = record {
      total = total;
      seed = s.seed;
      bitmap = bitmap;
      table = [];
      width = w;
      data_size = 8 + bytes;
    } in
    let large : Image = record small {
      table = table;
      data_size = 8 + bytes + bytes / 8 * (w / 8);
    } in
    if ltb 8 bytes then (if all == total then done large else fault) else done small

-- `Build<Word>`, from `GetSeed()`.
unfoldable pub build_words : ℕ → Bool → List (List ℕ) → ℕ → ℕ → Work → Run (Option Image)
unfolding search image
build_words w no_check source total seed work = do
  (found, s) ←
      search w no_check source total (assign (section total))
        (record { rand32 = xor_shift seed; seed = 0; work = work })
  elim found [ true ↦ do i ← image w total s; done (some i) | false ↦ done none ]

-- The image of at most one key: a header of four bytes.
abbrev pub tiny : ℕ → Image
tiny total = record { total = total; seed = 0; bitmap = []; table = []; width = 0; data_size = 4 }

-- `PerfectHashObject::Build`
unfoldable pub build : Bool → List (List ℕ) → ℕ → ℕ → Work → Run (Option Image)
unfolding build_words
build no_check source total seed work =
    let words32 = build_words 32 no_check source total seed work in
    let words16 = build_words 16 no_check source total seed work in
    let words8 = build_words 8 no_check source total seed work in
    if leb (2 ^ 28) total
    then done none
    else if ltb 0xffff total
    then words32
    else if ltb 0xff total
    then words16
    else if ltb 1 total
    then words8
    else done (some (tiny total))
