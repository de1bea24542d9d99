-- ===== src/PerfectHash/Graph.antt =====
-- The graph of the keys, CreateGraph and TearGraph: an edge for each key, which joins three slots, and for each
-- slot a doubly linked list of the edges at it. `w` is the number of bits of the type Word.
pub mod Memset
pub mod Nearest
pub mod Linked
pub mod Views
pub mod Created
pub mod Create
pub mod Waiting
pub mod Unlinked
pub mod Detached
pub mod Rounds
pub mod Torn
use protocache.Base.{
  ℕ, zero, suc, ◌+◌, ◌-◌, ◌*◌, ◌/◌, ◌%◌, ◌^◌, ◌==◌, ltb, leb, ◌&&◌, if◌then◌else◌, Bool, true,
  false, List, [], ◌∷◌, ◌++◌, drop, length, get_elem?, none, some, replicate, set, Run, done, fault,
  stuck, access, ◌>>=◌,
}
use protocache.Hash.{hash128}
use protocache.PerfectHash.Division.{Divisor, modulo}
use protocache.PerfectHash.Bits.{test_and_set_bit}

pub record Vertex : Type 0 where
  pub slot : ℕ
  pub prev : ℕ
  pub next : ℕ

-- `Edge`: three vertices.
pub record Edge : Type 0 where
  pub v0 : Vertex
  pub v1 : Vertex
  pub v2 : Vertex

pub record Graph : Type 0 where
  pub edges : List Edge
  pub nodes : List ℕ

-- `kEnd`, all ones of a Word
abbrev pub no_edge : ℕ → ℕ
no_edge w = 2 ^ w - 1

-- `edge[j]`, for a `j` of 0, 1 or 2.
abbrev pub vertex : Edge → ℕ → Vertex
vertex e zero = e.v0
vertex e (suc zero) = e.v1
vertex e (suc (suc j)) = e.v2

abbrev pub set_vertex : Edge → ℕ → Vertex → Edge
set_vertex e zero v = record e { v0 = v }
set_vertex e (suc zero) v = record e { v1 = v }
set_vertex e (suc (suc j)) v = record e { v2 = v }

-- `g.edges[i][j]`
unfoldable pub get_vertex : Graph → ℕ → ℕ → Run Vertex
get_vertex g i j = do e ← access (get_elem? g.edges i); done (vertex e j)

unfoldable pub put_vertex : Graph → ℕ → ℕ → Vertex → Run Graph
put_vertex g i j v = do
  e ← access (get_elem? g.edges i)
  done (record g { edges = set g.edges i (set_vertex e j v) })

unfoldable pub put_prev : Graph → ℕ → ℕ → ℕ → Run Graph
unfolding get_vertex put_vertex
put_prev g i j p = do v ← get_vertex g i j; put_vertex g i j (record v { prev = p })

unfoldable pub put_next : Graph → ℕ → ℕ → ℕ → Run Graph
unfolding get_vertex put_vertex
put_next g i j p = do v ← get_vertex g i j; put_vertex g i j (record v { next = p })

-- `memset(p, v, k * sizeof(T))` on an array.
unfoldable pub memset {ℓ} : {A : Type ℓ} → ℕ → A → List A → Run (List A)
memset k v xs = if leb k (length xs) then done (replicate k v ++ drop k xs) else fault

-- The body of the loop over `j` in CreateGraph: edge `i` becomes the head of the list at its slot.
unfoldable pub link : ℕ → ℕ → ℕ → ℕ → ℕ → Graph → Run Graph
unfolding get_vertex put_vertex put_prev
link w m i j slot g = do
  let at = slot + m * j
  head ← access (get_elem? g.nodes at)
  g ← put_vertex g i j (record { slot = slot; prev = no_edge w; next = head })
  let g = record g { nodes = set g.nodes at (i % 2 ^ w) }
  if head == no_edge w then done g else put_prev g head j (i % 2 ^ w)

-- The slots of a key: the three lowest words of its hash.
unfoldable pub slots : ℕ → Divisor → List ℕ → ℕ → Run (ℕ × ℕ × ℕ)
slots w d key seed = do
  (lo, hi) ← hash128 key (length key) seed
  done (
    modulo d (lo % 2 ^ 32) % 2 ^ w,
    modulo d (lo / 2 ^ 32) % 2 ^ w,
    modulo d (hi % 2 ^ 32) % 2 ^ w,
  )

-- The loop over the keys, `n` of them from key `i` on. A source that has no more gives a null key.
unfoldable pub create_edges : ℕ → Divisor → ℕ → ℕ → ℕ → List (List ℕ) → Graph → Run (Bool × Graph)
unfolding link slots
create_edges w d seed zero i source g = done (true, g)
create_edges w d seed (suc n) i [] g = done (false, g)
create_edges w d seed (suc n) i (key ∷ source) g = do
  s ← slots w d key seed
  g ← link w d.val_ i 0 s.0 g
  g ← link w d.val_ i 1 s.1 g
  g ← link w d.val_ i 2 s.2 g
  create_edges w d seed n (suc i) source g

-- `CreateGraph`. `source` has the keys from the first on, as after `Reset`.
unfoldable pub create_graph : ℕ → List (List ℕ) → ℕ → Graph → ℕ → Divisor → Run (Bool × Graph)
unfolding memset create_edges
create_graph w source seed g n d = do
  nodes ← memset (d.val_ * 3) (no_edge w) g.nodes
  create_edges w d seed n 0 source (record g { nodes = nodes })

-- The queue of free edges, `free[0 .. tail)`, and the bits of the edges that are in it.
pub record Queue : Type 0 where
  pub free : List ℕ
  pub book : List ℕ

-- `free[tail++] = i`, in an array of `n` items, if `TestAndSetBit(book, i)`.
unfoldable pub offer : ℕ → ℕ → ℕ → Queue → Run Queue
offer w n i q = do
  (clear, book) ← test_and_set_bit q.book i
  if clear
      then (if ltb (length q.free) n
          then done (record { free = q.free ++ (i % 2 ^ w) ∷ []; book = book })
          else fault)
      else done (record q { book = book })

abbrev pub alone : ℕ → Vertex → Bool
alone w v = v.prev == no_edge w && v.next == no_edge w

-- `if (v.prev == kEnd && v.next == kEnd && TestAndSetBit(book, i)) free[tail++] = i`
unfoldable pub offer_alone : ℕ → ℕ → ℕ → Vertex → Queue → Run Queue
unfolding offer
offer_alone w n i v q = if alone w v then offer w n i q else done q

-- The first loop of TearGraph, over the edges below `i` from the last on.
unfoldable pub find_free : ℕ → ℕ → Graph → ℕ → Queue → Run Queue
unfolding offer_alone
find_free w n g zero q = done q
find_free w n g (suc i) q = do
  e ← access (get_elem? g.edges i)
  q ← offer_alone w n i e.v0 q
  q ← offer_alone w n i e.v1 q
  q ← offer_alone w n i e.v2 q
  find_free w n g i q

-- Takes `v` out of its list on the side of `prev`; gives the last neighbour seen.
unfoldable pub unlink_prev : ℕ → ℕ → Vertex → Graph → Run (ℕ × Graph)
unfolding put_next
unlink_prev w j v g =
    if v.prev == no_edge w
    then done (no_edge w, g)
    else do g ← put_next g v.prev j v.next; done (v.prev, g)

unfoldable pub unlink_next : ℕ → ℕ → ℕ → Vertex → Graph → Run (ℕ × Graph)
unfolding put_prev
unlink_next w j i v g =
    if v.next == no_edge w then done (i, g) else do g ← put_prev g v.next j v.prev; done (v.next, g)

-- The body of the loop over `j` in TearGraph.
unfoldable pub detach : ℕ → ℕ → ℕ → ℕ → Graph × Queue → Run (Graph × Queue)
unfolding get_vertex unlink_prev unlink_next offer_alone
detach w n curr j (g, q) = do
  v ← get_vertex g curr j
  (i, g) ← unlink_prev w j v g
  v ← get_vertex g curr j
  (i, g) ← unlink_next w j i v g
  if i == no_edge w
      then done (g, q)
      else do u ← get_vertex g i j; q ← offer_alone w n i u q; done (g, q)

-- The second loop of TearGraph, from `head` on.
unfoldable pub tear : ℕ → ℕ → ℕ → ℕ → Graph × Queue → Run (Graph × Queue)
unfolding detach
tear w n zero head s = elim (get_elem? s.1.free head) [ none ↦ done s | some curr ↦ stuck ]
tear w n (suc fuel) head s = elim (get_elem? s.1.free head) [
  | none ↦ done s
  | some curr ↦ do
    s ← detach w n curr 0 s
    s ← detach w n curr 1 s
    s ← detach w n curr 2 s
    tear w n fuel (suc head) s
]

-- `TearGraph`: whether every edge became free, the graph, and the order in which they did.
unfoldable pub tear_graph : ℕ → Graph → ℕ → List ℕ → Run (Bool × Graph × Queue)
unfolding memset find_free tear
tear_graph w g n book = do
  book ← memset ((n + 7) / 8) 0 book
  q ← find_free w n g n (record { free = []; book = book })
  (g, q) ← tear w n n 0 (g, q)
  done (length q.free == n, g, q)
