-- ===== src/PerfectHash/Graph/Views.antt =====
-- The vertices of a graph as functions, by section and edge, and the stores as updates of these functions.
use protocache.Base.{
  ℕ, zero, suc, ◌<◌, ◌≡◌, ◌≢◌, refl, inl, inr, true, false, Bool-cases, ◌==◌, if◌then◌else◌, length,
  length-set, get_or, set, get_elem?-get_or, get_or-set, done, arith,
}
use protocache.PerfectHash.Graph.{
  Vertex, Edge, Graph, vertex, set_vertex, get_vertex, put_vertex, put_prev, put_next,
}

abbrev pub blank : Edge
blank =
    let v : Vertex = record { slot = 0; prev = 0; next = 0 } in record { v0 = v; v1 = v; v2 = v }

-- `g.edges[k][j]`
abbrev pub section_of : Graph → ℕ → ℕ → Vertex
section_of g j k = vertex (get_or g.edges k blank) j

-- The graph after `g.edges[i][j] = v`.
abbrev pub placed : Graph → ℕ → ℕ → Vertex → Graph
placed g i j v = record g { edges = set g.edges i (set_vertex (get_or g.edges i blank) j v) }

module _ (g : Graph) (i : ℕ) (inside : i < length g.edges) where
  pub get_vertex_lem : (j : ℕ) → get_vertex g i j ≡ done (section_of g j i)
  unfolding get_vertex
  get_vertex_lem j = rw (get_elem?-get_or g.edges i blank inside)

  pub put_vertex_lem : (j : ℕ) (v : Vertex) → put_vertex g i j v ≡ done (placed g i j v)
  unfolding put_vertex
  put_vertex_lem j v = rw (get_elem?-get_or g.edges i blank inside)

  pub put_prev_lem :
      (j p : ℕ) → put_prev g i j p ≡ done (placed g i j (record (section_of g j i) { prev = p }))
  unfolding put_prev
  put_prev_lem j p =
      rw (get_vertex_lem j, put_vertex_lem j (record (section_of g j i) { prev = p })) refl

  pub put_next_lem :
      (j p : ℕ) → put_next g i j p ≡ done (placed g i j (record (section_of g j i) { next = p }))
  unfolding put_next
  put_next_lem j p =
      rw (get_vertex_lem j, put_vertex_lem j (record (section_of g j i) { next = p })) refl

  pub length-placed : (j : ℕ) (v : Vertex) → length (placed g i j v).edges ≡ length g.edges
  length-placed j v = length-set g.edges i (set_vertex (get_or g.edges i blank) j v)

vertex-set_vertex :
    (e : Edge) (j j' : ℕ) (v : Vertex)
    → j < 3
    → j' < 3
    → vertex (set_vertex e j v) j' ≡ (if j' == j then v else vertex e j')
vertex-set_vertex e zero zero v h h' = refl
vertex-set_vertex e zero (suc zero) v h h' = refl
vertex-set_vertex e zero (suc (suc j')) v h h' = ground arith
vertex-set_vertex e (suc zero) zero v h h' = refl
vertex-set_vertex e (suc zero) (suc zero) v h h' = refl
vertex-set_vertex e (suc zero) (suc (suc j')) v h h' = ground arith
vertex-set_vertex e (suc (suc j)) zero v h h' = ground arith
vertex-set_vertex e (suc (suc j)) (suc zero) v h h' = ground arith
vertex-set_vertex e (suc (suc j)) (suc (suc j')) v h h' = ground arith

-- The section that is stored to.
pub section_of-placed :
    (g : Graph) (i j k : ℕ) (v : Vertex)
    → i < length g.edges
    → j < 3
    → section_of (placed g i j v) j k ≡ (if k == i then v else section_of g j k)
section_of-placed g i j k v inside h =
    let e = get_or g.edges i blank in
    let read = get_or-set g.edges i k (set_vertex e j v) blank inside in
    elim (Bool-cases (k == i)) [
      | inl here ↦
          let self : (j == j) ≡ true = ground arith in
          rw (read, here, vertex-set_vertex e j j v h h, self) refl
      | inr other ↦ rw (read, other) refl
    ]

-- The other sections stay.
pub section_of-placed_ne :
    (g : Graph) (i j j' k : ℕ) (v : Vertex)
    → i < length g.edges
    → j < 3
    → j' < 3
    → j' ≢ j
    → section_of (placed g i j v) j' k ≡ section_of g j' k
section_of-placed_ne g i j j' k v inside h h' ne =
    let e = get_or g.edges i blank in
    let read = get_or-set g.edges i k (set_vertex e j v) blank inside in
    elim (Bool-cases (k == i)) [
      | inl here ↦
          let same : k ≡ i = ground arith in
          let differ : (j' == j) ≡ false = ground arith in
          rw (read, here, vertex-set_vertex e j j' v h h', differ, same) refl
      | inr other ↦ rw (read, other) refl
    ]
