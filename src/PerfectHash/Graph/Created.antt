-- ===== src/PerfectHash/Graph/Created.antt =====
-- CreateGraph: the lists at the slots after each edge.
use protocache.Base.{
  ℕ, suc, ◌+◌, ◌*◌, ◌^◌, ◌<◌, ◌≤◌, ◌≡◌, ◌≢◌, refl, ap, ◌∙◌, inl, inr, true, false, Bool-cases, ◌==◌,
  ltb, if◌then◌else◌, length, length-set, get_or, set, get_elem?-get_or, get_or-set, done, arith,
}
use native.Mathlib.Nat.{mod-eq_of_lt}
use protocache.PerfectHash.Graph.{Graph, no_edge, put_prev, link}
use protocache.PerfectHash.Graph.Linked.{Linked, all, Head, Head-suc, Links, Linked-suc}
use protocache.PerfectHash.Graph.Views.{
  section_of, placed, put_vertex_lem, put_prev_lem, length-placed, section_of-placed,
  section_of-placed_ne,
}

-- Section `j` with its first `i` edges: their slots are `s j`, and the nodes are the heads of the lists.
pub record SectionAt (m e : ℕ) (s : ℕ → ℕ → ℕ) (i j : ℕ) (g : Graph) : Type 0 where
  pub linked : Linked i e all (s j) (section_of g j)
  pub slots : (k : ℕ) → k < i → (section_of g j k).slot ≡ s j k
  pub heads : (q : ℕ) → q < m → Head i e (s j) q (get_or g.nodes (q + m * j) 0)

-- A graph of the same size, in which nothing but section `j` may differ.
pub record Keeps (m j : ℕ) (g g' : Graph) : Type 0 where
  pub edges : length g'.edges ≡ length g.edges
  pub nodes : length g'.nodes ≡ length g.nodes
  pub vertices : (j' k : ℕ) → j' < 3 → j' ≢ j → section_of g' j' k ≡ section_of g j' k
  pub heads :
      (j' q : ℕ) → q < m → j' ≢ j → get_or g'.nodes (q + m * j') 0 ≡ get_or g.nodes (q + m * j') 0

-- Another section stays as it is.
pub SectionAt-Keeps :
    (m e : ℕ) (s : ℕ → ℕ → ℕ) (i j j' : ℕ) (g g' : Graph)
    → j' < 3
    → j' ≢ j
    → Keeps m j g g'
    → SectionAt m e s i j' g
    → SectionAt m e s i j' g'
SectionAt-Keeps m e s i j j' g g' h ne keeps at = record {
  linked = λ k ki lk. rw (keeps.vertices j' k h ne) (at.linked k ki lk);
  slots = λ k ki. rw (keeps.vertices j' k h ne) (at.slots k ki);
  heads = λ q hq. rw (keeps.heads j' q hq ne) (at.heads q hq);
}

-- The places of two sections' nodes.
region : (m j j' : ℕ) → j < j' → m * j + m ≤ m * j'
region m j j' h = grind arith

pub apart_regions : (m j j' q q' : ℕ) → q < m → q' < m → j' ≢ j → (q' + m * j' == q + m * j) ≡ false
apart_regions m j j' q q' h h' ne = elim (Bool-cases (ltb j' j)) [
  | inl below ↦ let step = region m j' j (ground arith) in ground arith
  | inr above ↦ let step = region m j j' (ground arith) in ground arith
]

module _ (w m : ℕ) (s : ℕ → ℕ → ℕ) (i j : ℕ) (g : Graph) (j_lt : j < 3) (small : i < no_edge w)
    (room : i < length g.edges) (nodes_room : m * 3 ≤ length g.nodes) (in_range : s j i < m) where
  node : ℕ
  node = s j i + m * j

  node_inside : node < length g.nodes
  unfolding node
  node_inside = let step : m * j + m ≤ m * 3 = grind arith in omega arith

  -- With the edge, before the old head is told.
  started : Graph
  unfolding node
  started =
      record (placed g i j
        (record { slot = s j i; prev = no_edge w; next = get_or g.nodes node 0 })) {
          nodes = set g.nodes node i;
        }

  started-Keeps : Keeps m j g started
  unfolding started node
  started-Keeps = record {
    edges = length-placed g i room j _;
    nodes = length-set g.nodes node i;
    vertices = λ j' k h ne. section_of-placed_ne g i j j' k _ room j_lt h ne;
    heads = λ j' q hq ne.
        get_or-set g.nodes node (q + m * j') i 0 node_inside
        ∙ rw (apart_regions m j j' (s j i) q in_range hq ne) refl;
  }

  -- With the edge as the neighbour of the old head.
  told : ℕ → Graph
  unfolding started
  told head = placed started head j (record (section_of started j head) { prev = i })

  started_vertex :
      (k : ℕ)
      → section_of started j k ≡ (
          if k == i
          then record { slot = s j i; prev = no_edge w; next = get_or g.nodes node 0 }
          else section_of g j k)
  unfolding started
  started_vertex k = section_of-placed g i j k _ room j_lt

  started_head :
      (q : ℕ)
      → q < m
      → get_or started.nodes (q + m * j) 0
        ≡ (if q == s j i then i else get_or g.nodes (q + m * j) 0)
  unfolding started node
  started_head q h =
      let same : (q + m * j == s j i + m * j) ≡ (q == s j i) = ground arith in
      get_or-set g.nodes (s j i + m * j) (q + m * j) i 0 node_inside ∙ rw same refl

  -- What `link` comes to, for the head `x` that it finds.
  record Put (x : ℕ) : Type 0 where
    next : Graph
    returns : link w m i j (s j i) g ≡ done next
    keeps : Keeps m j g next
    links : Links i (no_edge w) x (section_of g j) (section_of next j)
    slots :
        (k : ℕ) → (section_of next j k).slot ≡ (if k == i then s j i else (section_of g j k).slot)
    heads :
        (q : ℕ)
        → q < m
        → get_or next.nodes (q + m * j) 0 ≡ (if q == s j i then i else get_or g.nodes (q + m * j) 0)

  module _ (x : ℕ) (read : get_or g.nodes node 0 ≡ x) where
    started-Put : x ≡ no_edge w → Put x
    unfolding link node
    started-Put none_there =
        let test : (x == no_edge w) ≡ true = ground arith in
        let self : (i == i) ≡ true = ground arith in
        record {
          next = started;
          returns =
              unfold started in
              rw
                (
                  get_elem?-get_or g.nodes node 0 node_inside,
                  put_vertex_lem g i room j _,
                  mod-eq_of_lt {n = i} {m = 2 ^ w} (omega arith),
                  read,
                  test,
                )
                refl;
          keeps = started-Keeps;
          links = (
            rw (started_vertex i, self) read,
            rw (started_vertex i, self) refl,
            λ k ki.
                let other : (k == i) ≡ false = ground arith in
                let far : (k == x) ≡ false = ground arith in
                rw (started_vertex k, other, far) (refl, refl),
          );
          slots = λ k.
              rw (started_vertex k) (elim (Bool-cases (k == i)) [
                | inl here ↦ rw here refl
                | inr other ↦ rw other refl
              ]);
          heads = started_head;
        }

    told_vertex :
        x < i
        → (k : ℕ)
        → section_of (told x) j k
          ≡ (if k == x then record (section_of g j x) { prev = i } else section_of started j k)
    unfolding told
    told_vertex h k =
        let other : (x == i) ≡ false = ground arith in
        let inside : x < length started.edges = omega (arith, started-Keeps.edges) in
        section_of-placed started x j k _ inside j_lt ∙ rw (started_vertex x, other) refl

    told-link : x < i → link w m i j (s j i) g ≡ done (told x)
    unfolding link node started told put_prev
    told-link h =
        let y = get_or g.nodes (s j i + m * j) 0 in
        let test : (y == no_edge w) ≡ false = ground arith in
        let inside : y < length started.edges = omega (arith, started-Keeps.edges) in
        let runs : link w m i j (s j i) g ≡ done (told y) =
          rw
            (
              get_elem?-get_or g.nodes node 0 node_inside,
              put_vertex_lem g i room j _,
              mod-eq_of_lt {n = i} {m = 2 ^ w} (omega arith),
              test,
            )
            (put_prev_lem started y inside j i) in
        runs ∙ ap (λ z. done (told z)) read

    told-Keeps : x < i → Keeps m j g (told x)
    unfolding told
    told-Keeps h =
        let inside : x < length started.edges = omega (arith, started-Keeps.edges) in
        let first = started-Keeps in
        record {
          edges = length-placed started x inside j _ ∙ first.edges;
          nodes = first.nodes;
          vertices = λ j' k h' ne.
              section_of-placed_ne started x j j' k _ inside j_lt h' ne ∙ first.vertices j' k h' ne;
          heads = first.heads;
        }

    told-Put : x < i → Put x
    unfolding told
    told-Put h =
        let self : (i == i) ≡ true = ground arith in
        let below : (x == i) ≡ false = ground arith in
        let above : (i == x) ≡ false = ground arith in
        record {
          next = told x;
          returns = told-link h;
          keeps = told-Keeps h;
          links = (
            rw (told_vertex h i, above, started_vertex i, self) read,
            rw (told_vertex h i, above, started_vertex i, self) refl,
            λ k ki.
                let other : (k == i) ≡ false = ground arith in
                elim (Bool-cases (k == x)) [
                  | inl here ↦
                      let same : k ≡ x = ground arith in
                      rw (told_vertex h k, here, same) (refl, refl)
                  | inr far ↦ rw (told_vertex h k, far, started_vertex k, other) (refl, refl)
                ],
          );
          slots = λ k. elim (Bool-cases (k == x)) [
            | inl here ↦
                let same : k ≡ x = ground arith in rw (told_vertex h k, here, same, below) refl
            | inr far ↦ elim (Bool-cases (k == i)) [
              | inl last ↦ rw (told_vertex h k, far, started_vertex k, last) refl
              | inr before ↦ rw (told_vertex h k, far, started_vertex k, before) refl
            ]
          ];
          heads = started_head;
        }

  -- Section `j` has one edge more.
  pub record Linkage : Type 0 where
    pub next : Graph
    pub returns : link w m i j (s j i) g ≡ done next
    pub keeps : Keeps m j g next
    pub section : SectionAt m (no_edge w) s (suc i) j next

  pub link-Linkage : SectionAt m (no_edge w) s i j g → Linkage
  link-Linkage at =
      let x = get_or g.nodes (s j i + m * j) 0 in
      let head = at.heads (s j i) in_range in
      let p : Put x = elim head [
        | inl (none_there, _) ↦ started-Put x (unfold node in refl) none_there
        | inr (h, _, _) ↦ told-Put x (unfold node in refl) h
      ] in
      record {
        next = p.next;
        returns = p.returns;
        keeps = p.keeps;
        section = record {
          linked =
              Linked-suc i (no_edge w) x (s j) (section_of g j) (section_of p.next j) (omega arith)
                at.linked head p.links;
          slots = λ k ki. elim (Bool-cases (k == i)) [
            | inl last ↦ let last' : k ≡ i = ground arith in p.slots k ∙ rw (last, last') refl
            | inr before ↦ p.slots k ∙ rw before (at.slots k (ground arith))
          ];
          heads = λ q h.
              rw (p.heads q h)
                (Head-suc i (no_edge w) (s j) q (get_or g.nodes (q + m * j) 0) (at.heads q h));
        };
      }
