-- ===== src/PerfectHash/Graph/Create.antt =====
-- CreateGraph as a whole: the loop over the keys.
use protocache.Base.{
  ℕ, zero, suc, ◌+◌, ◌*◌, ◌<◌, ◌≤◌, ◌≡◌, refl, ◌∙◌, inl, true, false, Bool, List, [], ◌∷◌, ◌++◌,
  replicate, drop, get_or-replicate, length, get_elem?, some, Run, done, arith,
}
use protocache.PerfectHash.Division.{Divisor}
use protocache.PerfectHash.Graph.{Graph, no_edge, link, slots, create_edges, create_graph}
use protocache.PerfectHash.Graph.Memset.{memset_lem, memset-length}
use protocache.PerfectHash.Graph.Created.{SectionAt, SectionAt-Keeps, link-Linkage}

-- The three sections with their first `i` edges.
abbrev pub Sections : ℕ → ℕ → (ℕ → ℕ → ℕ) → ℕ → Graph → Type 0
Sections m e s i g = (j : ℕ) → j < 3 → SectionAt m e s i j g

-- The keys of `source` are those from `i` on, and `s` has their slots.
abbrev pub SlotsOf : ℕ → Divisor → ℕ → (ℕ → ℕ → ℕ) → ℕ → List (List ℕ) → Type 0
SlotsOf w d seed s i source =
    (p : ℕ) (key : List ℕ)
    → get_elem? source p ≡ some key
    → slots w d key seed ≡ done (s 0 (i + p), s 1 (i + p), s 2 (i + p))

-- A graph with edges for `n` keys, in arrays of the same size.
pub record Filled (m e : ℕ) (s : ℕ → ℕ → ℕ) (n : ℕ) (g : Graph) (r : Run (Bool × Graph))
    : Type 0 where
  pub ok : Bool
  pub next : Graph
  pub returns : r ≡ done (ok, next)
  pub edges : length next.edges ≡ length g.edges
  pub nodes : length next.nodes ≡ length g.nodes
  pub sections : ok ≡ true → Sections m e s n next

region-three : (m j : ℕ) → j < 3 → m * j + m ≤ m * 3
region-three m j h = grind arith

module _ (w n seed : ℕ) (d : Divisor) (s : ℕ → ℕ → ℕ) (small : n ≤ no_edge w)
    (in_range : (j i : ℕ) → s j i < d.val_) where
  -- The body of the loop over the keys.
  record Round (i : ℕ) (g : Graph) : Type 0 where
    one : Graph
    two : Graph
    next : Graph
    first : link w d.val_ i 0 (s 0 i) g ≡ done one
    second : link w d.val_ i 1 (s 1 i) one ≡ done two
    third : link w d.val_ i 2 (s 2 i) two ≡ done next
    edges : length next.edges ≡ length g.edges
    nodes : length next.nodes ≡ length g.nodes
    sections : Sections d.val_ (no_edge w) s (suc i) next

  round :
      (i : ℕ) (g : Graph)
      → i < n
      → n ≤ length g.edges
      → d.val_ * 3 ≤ length g.nodes
      → Sections d.val_ (no_edge w) s i g
      → Round i g
  round i g h room nodes_room at =
      let m = d.val_ in
      let e = no_edge w in
      let a =
        link-Linkage w m s i 0 g (omega arith) (omega arith) (omega arith) nodes_room (in_range 0 i)
          (at 0 (omega arith)) in
      let b0 =
        SectionAt-Keeps m e s i 0 1 g a.next (omega arith) (λ q. omega (arith, q)) a.keeps
          (at 1 (omega arith)) in
      let c0 =
        SectionAt-Keeps m e s i 0 2 g a.next (omega arith) (λ q. omega (arith, q)) a.keeps
          (at 2 (omega arith)) in
      let b =
        link-Linkage w m s i 1 a.next (omega arith) (omega arith) (omega (arith, a.keeps.edges))
          (omega (arith, a.keeps.nodes)) (in_range 1 i) b0 in
      let a1 =
        SectionAt-Keeps m e s (suc i) 1 0 a.next b.next (omega arith) (λ q. omega (arith, q))
          b.keeps a.section in
      let c1 =
        SectionAt-Keeps m e s i 1 2 a.next b.next (omega arith) (λ q. omega (arith, q)) b.keeps
          c0 in
      let c =
        link-Linkage w m s i 2 b.next (omega arith) (omega arith)
          (omega (arith, a.keeps.edges, b.keeps.edges))
          (omega (arith, a.keeps.nodes, b.keeps.nodes)) (in_range 2 i) c1 in
      let a2 =
        SectionAt-Keeps m e s (suc i) 2 0 b.next c.next (omega arith) (λ q. omega (arith, q))
          c.keeps a1 in
      let b2 =
        SectionAt-Keeps m e s (suc i) 2 1 b.next c.next (omega arith) (λ q. omega (arith, q))
          c.keeps b.section in
      record {
        one = a.next;
        two = b.next;
        next = c.next;
        first = a.returns;
        second = b.returns;
        third = c.returns;
        edges = c.keeps.edges ∙ b.keeps.edges ∙ a.keeps.edges;
        nodes = c.keeps.nodes ∙ b.keeps.nodes ∙ a.keeps.nodes;
        sections = three a2 b2 c.section;
      }
    where
      three :
          {m e i : ℕ} {g : Graph}
          → SectionAt m e s i 0 g
          → SectionAt m e s i 1 g
          → SectionAt m e s i 2 g
          → Sections m e s i g
      three a b c zero h = a
      three a b c (suc zero) h = b
      three a b c (suc (suc zero)) h = c
      three a b c (suc (suc (suc j))) h = absurd (omega arith)

  pub create_edges-Filled :
      (k i : ℕ) (source : List (List ℕ)) (g : Graph)
      → i + k ≡ n
      → n ≤ length g.edges
      → d.val_ * 3 ≤ length g.nodes
      → SlotsOf w d seed s i source
      → Sections d.val_ (no_edge w) s i g
      → Filled d.val_ (no_edge w) s n g (create_edges w d seed k i source g)
  unfolding create_edges
  create_edges-Filled zero i source g total room nodes_room keys at =
      let same : i ≡ n = omega arith in
      record {
        ok = true;
        next = g;
        returns = refl;
        edges = refl;
        nodes = refl;
        sections = λ _. rw (← same) at;
      }
  create_edges-Filled (suc k) i [] g total room nodes_room keys at = record {
    ok = false;
    next = g;
    returns = refl;
    edges = refl;
    nodes = refl;
    sections = λ q. cc;
  }
  create_edges-Filled (suc k) i (key ∷ source) g total room nodes_room keys at =
      let r = round i g (omega arith) room nodes_room at in
      let next_keys : SlotsOf w d seed s (suc i) source = λ p key' there.
        let shift : i + suc p ≡ suc i + p = omega arith in rw (← shift) (keys (suc p) key' there) in
      let rest =
        create_edges-Filled k (suc i) source r.next (omega arith) (omega (arith, r.edges))
          (omega (arith, r.nodes)) next_keys r.sections in
      let here : i + 0 ≡ i = omega arith in
      let first : slots w d key seed ≡ done (s 0 i, s 1 i, s 2 i) = rw (← here) (keys 0 key refl) in
      record {
        ok = rest.ok;
        next = rest.next;
        returns = rw (first, r.first, r.second, r.third) rest.returns;
        edges = rest.edges ∙ r.edges;
        nodes = rest.nodes ∙ r.nodes;
        sections = rest.sections;
      }

  -- For at most as many edges as a Word can number, below its highest value, slots in range that are those of
  -- the keys of the source, and arrays with room, create_graph ends without a fault in arrays of the same
  -- size, and where it answers true each vertex has the slot of its key, its neighbours in the list are the
  -- nearest edges below and above with the same slot, and each node is the last edge with its slot.
  pub create_graph-Filled :
      (source : List (List ℕ)) (g : Graph)
      → n ≤ length g.edges
      → d.val_ * 3 ≤ length g.nodes
      → SlotsOf w d seed s 0 source
      → Filled d.val_ (no_edge w) s n g (create_graph w source seed g n d)
  unfolding create_graph
  create_graph-Filled source g room nodes_room keys =
      let k = d.val_ * 3 in
      let e = no_edge w in
      let nodes = replicate k e ++ drop k g.nodes in
      let sized : length nodes ≡ length g.nodes = memset-length k e g.nodes nodes_room in
      let fresh : Graph = record { edges = g.edges; nodes = nodes } in
      let empty : Sections d.val_ e s 0 fresh = λ j h. record {
        linked = λ i hi. absurd (omega arith);
        slots = λ i hi. absurd (omega arith);
        heads = λ q hq.
            let step = region-three d.val_ j h in
            inl (
              get_or-replicate k e (q + d.val_ * j) (drop k g.nodes) 0 (omega arith),
              λ i hi. absurd (omega arith),
            );
      } in
      let r =
        create_edges-Filled n 0 source fresh (omega arith) room (omega (arith, sized)) keys empty in
      record {
        ok = r.ok;
        next = r.next;
        returns = rw (memset_lem k e g.nodes nodes_room) r.returns;
        edges = r.edges;
        nodes = r.nodes ∙ sized;
        sections = r.sections;
      }
