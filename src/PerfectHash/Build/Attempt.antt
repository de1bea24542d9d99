-- ===== src/PerfectHash/Build/Attempt.antt =====
-- A try with a seed: CreateGraph, TearGraph and Mapping one after the other.
use protocache.Base.{
  ℕ, ◌+◌, ◌*◌, ◌/◌, ◌^◌, ◌<◌, ◌≤◌, ◌≡◌, refl, subst, ◌∙◌, inl, inr, true, false, Bool, Bool-cases,
  ◌==◌, List, [], length, get_or, Run, done, ◌>>=◌, arith,
}
use protocache.PerfectHash.Bits.{section, bitmap_size}
use protocache.PerfectHash.Bits.Views.{Bytes}
use protocache.PerfectHash.Division.{assign}
use protocache.PerfectHash.Graph.{Graph, Queue, no_edge, tear_graph}
use protocache.PerfectHash.Graph.Views.{section_of}
use protocache.PerfectHash.Graph.Waiting.{QueueOf}
use protocache.PerfectHash.Graph.Create.{Sections, create_graph-Filled}
use protocache.PerfectHash.Graph.Torn.{tear_graph-Torn}
use protocache.PerfectHash.Mapping.{Tables, mapping}
use protocache.PerfectHash.Mapping.Total.{cleared, cleared-bitmap, mapping-Mapped}
use protocache.PerfectHash.Mapping.Peeled.{edges_of, edges_at_lem, edges_of-Peels}
use protocache.PerfectHash.Build.{Work, attempt}
use protocache.PerfectHash.Build.Homes.{
  slots_by, slot_in-lt, val_-assign, section-bounds, section-word, slots_by-SlotsOf,
}
use protocache.PerfectHash.Build.Perfect.{Perfect, Mapped-Perfect}

-- Arrays with room for `n` keys.
pub record HasSpace (n : ℕ) (k : Work) : Type 0 where
  pub edges : n ≤ length k.graph.edges
  pub nodes : section n * 3 ≤ length k.graph.nodes
  pub book_bytes : Bytes k.tables.book
  pub book : (section n * 3 + 7) / 8 ≤ length k.tables.book
  pub bitmap_bytes : Bytes k.tables.bitmap
  pub bitmap : bitmap_size (section n) ≤ length k.tables.bitmap

-- A try that ends, and what it leaves.
pub record Tried (n seed : ℕ) (source : List (List ℕ)) (k : Work) (r : Run (Bool × Work))
    : Type 0 where
  pub ok : Bool
  pub after : Work
  pub returns : r ≡ done (ok, after)
  pub space : HasSpace n after
  pub perfect : ok ≡ true → Perfect (section n) n seed source after.tables.bitmap

room_for_edges : (n : ℕ) → n < 2 ^ 28 → (n + 7) / 8 ≤ (section n * 3 + 7) / 8
unfolding section
room_for_edges n small = omega arith

HasSpace-same :
    (n : ℕ) (k k' : Work)
    → HasSpace n k
    → length k'.graph.edges ≡ length k.graph.edges
    → length k'.graph.nodes ≡ length k.graph.nodes
    → length k'.tables.book ≡ length k.tables.book
    → Bytes k'.tables.book
    → k'.tables.bitmap ≡ k.tables.bitmap
    → HasSpace n k'
HasSpace-same n k k' space edges nodes book bytes same = record {
  edges = omega (arith, edges, space.edges);
  nodes = omega (arith, nodes, space.nodes);
  book_bytes = bytes;
  book = omega (arith, book, space.book);
  bitmap_bytes = rw same space.bitmap_bytes;
  bitmap = rw same space.bitmap;
}

module _ (w n seed : ℕ) (source : List (List ℕ)) (small : n < 2 ^ 28) (wide : 16 ≤ 2 ^ w)
    (fits : n < 2 ^ w) where
  abbrev s : ℕ → ℕ → ℕ
  s = slots_by (section n) seed source

  s_lt : (j i : ℕ) → s j i < section n
  s_lt j i =
      let (pos, _) = section-bounds n small in
      slot_in-lt (section n) seed j (get_or source i []) pos

  -- Mapping, when all edges are free.
  map_whole :
      (g : Graph) (q : Queue) (k : Work)
      → n ≤ length g.edges
      → section n * 3 ≤ length g.nodes
      → ((j i : ℕ) → j < 3 → i < n → (section_of g j i).slot ≡ s j i)
      → QueueOf n s q
      → length q.free ≡ n
      → HasSpace n k
      → k.tables.book ≡ q.book
      → (t : Tables) × (mapping g n q.free k.tables ≡ done t)
        × HasSpace n (record { graph = g; tables = t })
        × Perfect (section n) n seed source t.bitmap
  map_whole g q k room nodes slots of whole space same =
      let m = section n in
      let (pos, _) = section-bounds n small in
      let found = edges_at_lem m n s g room s_lt slots [] q.free of.ordered in
      let peels = edges_of-Peels m n s g room s_lt slots [] q.free of.ordered in
      let p =
        mapping-Mapped g n q.free (edges_of g q.free) k.tables small found peels space.book_bytes
          space.bitmap_bytes space.book space.bitmap in
      (
        p.after,
        p.returns,
        record {
          edges = room;
          nodes = nodes;
          book_bytes = p.has_room.book_bytes;
          book = let r = p.has_room.book_room in omega arith;
          bitmap_bytes = p.has_room.bitmap_bytes;
          bitmap =
              let (same, _) = cleared-bitmap n 0 k.tables space.bitmap in
              omega (arith, p.sized, same, space.bitmap);
        },
        Mapped-Perfect m n seed source g s q (cleared n k.tables) (mapping g n q.free k.tables) refl
            pos slots of whole peels p
            (λ x h h'.
              let (_, e) = cleared-bitmap n x k.tables space.bitmap in p.beyond x h ∙ e h'),
      )

  -- TearGraph and Mapping, on a graph of the keys.
  tear_whole :
      (g : Graph) (k : Work)
      → HasSpace n (record k { graph = g })
      → Sections (section n) (no_edge w) s n g
      → Tried n seed source k (do
        (torn, g, q) ← tear_graph w g n k.tables.book
        let k = record k { graph = g; tables = record { book = q.book; bitmap = k.tables.bitmap } }
        let map = (do t ← mapping g n q.free k.tables; done (true, record k { tables = t }))
        elim torn [ true ↦ map | false ↦ done (false, k) ])
  tear_whole g k space sections =
      let torn =
        tear_graph-Torn w n s (omega arith) g space.edges
          (λ j h. record { linked = (sections j h).linked; slots = (sections j h).slots })
          k.tables.book space.book_bytes (omega (arith, room_for_edges n small, space.book)) in
      let left : Work = record {
        graph = torn.next;
        tables = record { book = torn.last.book; bitmap = k.tables.bitmap };
      } in
      let space' : HasSpace n left =
        HasSpace-same n (record k { graph = g }) left space torn.edges torn.nodes torn.sized
          torn.valid.bytes refl in
      elim (Bool-cases (length torn.last.free == n)) [
        | inr stays ↦ record {
          ok = false;
          after = left;
          returns = rw (torn.returns, stays) refl;
          space = space';
          perfect = λ yes. absurd (ground arith);
        }
        | inl all_free ↦
            let (t, e, space'', perfect) =
              map_whole torn.next torn.last left space'.edges space'.nodes torn.slots torn.valid
                (ground arith) space' refl in
            record {
              ok = true;
              after = record { graph = torn.next; tables = t };
              returns = rw (torn.returns, all_free, e) refl;
              space = space'';
              perfect = λ yes. perfect;
            }
      ]

  -- A try ends, and where it answers true each key has a slot of its own.
  pub attempt-Tried :
      (k : Work)
      → HasSpace n k
      → Tried n seed source k (attempt w source n (assign (section n)) seed k)
  unfolding attempt
  attempt-Tried k space =
      let m = section n in
      let val = val_-assign m in
      let made =
        create_graph-Filled w n seed (assign m) s (omega arith)
          (λ j i. omega (arith, val, s_lt j i)) source k.graph space.edges
          (omega (arith, val, space.nodes))
          (slots_by-SlotsOf w n seed small (section-word w n wide fits) source) in
      let space' : HasSpace n (record k { graph = made.next }) =
        HasSpace-same n k (record k { graph = made.next }) space made.edges made.nodes refl
          space.book_bytes refl in
      elim (Bool-cases made.ok) [
        | inr short ↦ record {
          ok = false;
          after = record k { graph = made.next };
          returns = rw (made.returns, short) refl;
          space = space';
          perfect = λ yes. absurd (ground arith);
        }
        | inl whole ↦
            let sections : Sections m (no_edge w) s n made.next =
              subst (λ x. Sections x (no_edge w) s n made.next) val (made.sections whole) in
            let t = tear_whole made.next k space' sections in
            record {
              ok = t.ok;
              after = t.after;
              returns = rw (made.returns, whole) t.returns;
              space = t.space;
              perfect = t.perfect;
            }
      ]
