-- ===== src/PerfectHash/Graph/Torn.antt =====
-- TearGraph as a whole: `memset`, the loop that finds the free edges, and the loop that takes them out.
use protocache.Base.{
  count_none, ℕ, zero, suc, ◌+◌, ◌/◌, ◌<◌, ◌≤◌, ◌≡◌, refl, sym, ◌∙◌, Bool, ◌==◌, List, [], ◌++◌,
  replicate, drop, get_or-replicate, get_elem?-get_or, zero-bit_and, length, Run, done, arith,
}
use protocache.PerfectHash.Bits.Views.{Bytes}
use protocache.PerfectHash.Graph.{Graph, Queue, no_edge, find_free, tear_graph}
use protocache.PerfectHash.Graph.Linked.{all}
use protocache.PerfectHash.Graph.Nearest.{no_neighbours}
use protocache.PerfectHash.Graph.Views.{section_of, blank}
use protocache.PerfectHash.Graph.Memset.{memset_lem, memset-length, memset-Bytes}
use protocache.PerfectHash.Graph.Waiting.{QueueOf, Free, offer_alone-Grows}
use protocache.PerfectHash.Graph.Detached.{LinkedAt}
use protocache.PerfectHash.Graph.Rounds.{tear-Emptied}

-- What tear_graph leaves of a graph and a book.
pub record Torn (n : ℕ) (s : ℕ → ℕ → ℕ) (g : Graph) (book : List ℕ) (r : Run (Bool × Graph × Queue))
    : Type 0 where
  pub next : Graph
  pub last : Queue
  pub returns : r ≡ done (length last.free == n, next, last)
  pub edges : length next.edges ≡ length g.edges
  pub nodes : length next.nodes ≡ length g.nodes
  pub slots : (j k : ℕ) → j < 3 → k < n → (section_of next j k).slot ≡ s j k
  pub valid : QueueOf n s last
  pub sized : length last.book ≡ length book

record Found (n : ℕ) (s : ℕ → ℕ → ℕ) (q : Queue) (r : Run Queue) : Type 0 where
  next : Queue
  returns : r ≡ done next
  valid : QueueOf n s next
  sized : length next.book ≡ length q.book

module _ (w n : ℕ) (s : ℕ → ℕ → ℕ) (small : n ≤ no_edge w) where
  module _ (g : Graph) (room : n ≤ length g.edges)
      (linked : (j : ℕ) → j < 3 → LinkedAt n (no_edge w) all s j g) where
    -- An edge without neighbours is free, whatever is in the queue.
    alone-Free :
        (i j : ℕ) (seen : List ℕ)
        → i < n
        → j < 3
        → (section_of g j i).prev ≡ no_edge w
        → (section_of g j i).next ≡ no_edge w
        → Free n s i seen
    alone-Free i j seen h hj pe xe =
        let (below, above) = (linked j hj).linked i h refl in
        (
          j,
          hj,
          λ k hk ne same. absurd (
              no_neighbours n (no_edge w) all (s j) i _ _ small h xe pe below above k hk ne refl
                same),
        )

    find_free-Found :
        (i : ℕ) (q : Queue) → i ≤ n → QueueOf n s q → Found n s q (find_free w n g i q)
    unfolding find_free
    find_free-Found zero q h of = record { next = q; returns = refl; valid = of; sized = refl }
    find_free-Found (suc i) q h of =
        let a =
          offer_alone-Grows w n s small i (omega arith) q of (section_of g 0 i)
            (alone-Free i 0 q.free (omega arith) (omega arith)) in
        let b =
          offer_alone-Grows w n s small i (omega arith) a.next a.queue (section_of g 1 i)
            (alone-Free i 1 a.next.free (omega arith) (omega arith)) in
        let c =
          offer_alone-Grows w n s small i (omega arith) b.next b.queue (section_of g 2 i)
            (alone-Free i 2 b.next.free (omega arith) (omega arith)) in
        let rest = find_free-Found i c.next (omega arith) c.queue in
        record {
          next = rest.next;
          returns =
              rw
                (
                  find_free,
                  get_elem?-get_or g.edges i blank (omega arith),
                  a.returns,
                  b.returns,
                  c.returns,
                )
                rest.returns;
          valid = rest.valid;
          sized = omega (arith, rest.sized, a.sized, b.sized, c.sized);
        }

    empty-QueueOf :
        (book : List ℕ)
        → Bytes book
        → (n + 7) / 8 ≤ length book
        → QueueOf n s
            (record { free = []; book = replicate ((n + 7) / 8) 0 ++ drop ((n + 7) / 8) book })
    empty-QueueOf book bytes wide =
        let k = (n + 7) / 8 in
        record {
          ordered = tt;
          bytes = memset-Bytes k 0 book (omega arith) bytes;
          room = omega (arith, memset-length k 0 book wide);
          bits = λ i h.
              rw (get_or-replicate k 0 (i / 8) (drop k book) 0 (omega arith), zero-bit_and) refl;
          counted = sym (count_none n);
        }

    -- On three sections of linked lists and a book of bytes with room for the edges, tear_graph ends without a
    -- fault and answers whether all edges became free; the slots stay, the queue has no edge twice, and each
    -- edge in it has a slot that all other edges with this slot have left before it.
    pub tear_graph-Torn :
        (book : List ℕ)
        → Bytes book
        → (n + 7) / 8 ≤ length book
        → Torn n s g book (tear_graph w g n book)
    unfolding tear_graph
    tear_graph-Torn book bytes wide =
        let k = (n + 7) / 8 in
        let cleared = replicate k 0 ++ drop k book in
        let f =
          find_free-Found n (record { free = []; book = cleared }) (omega arith)
            (empty-QueueOf book bytes wide) in
        let t =
          tear-Emptied w n s small n 0 g f.next (omega arith)
            (record { room = room; sections = linked; queue = f.valid }) in
        record {
          next = t.next;
          last = t.last;
          returns = rw (memset_lem k 0 book wide, f.returns, t.returns) refl;
          edges = t.edges;
          nodes = t.nodes;
          slots = t.slots;
          valid = t.valid;
          sized = t.sized ∙ f.sized ∙ memset-length k 0 book wide;
        }
