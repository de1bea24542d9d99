-- ===== src/PerfectHash/Graph/Detached.antt =====
-- The body of the loop of TearGraph: an edge leaves the list of one section.
use protocache.Base.{
  ℕ, ◌<◌, ◌≤◌, ◌≡◌, ◌≢◌, refl, sym, ◌∙◌, inl, inr, ◌⊎◌, true, false, Bool, Bool-cases, ◌==◌,
  if◌then◌else◌, List, [], ◌++◌, append-nil, length, Run, done, arith,
}
use protocache.PerfectHash.Graph.{Vertex, Graph, Queue, no_edge, unlink_prev, unlink_next, detach}
use protocache.PerfectHash.Graph.Nearest.{without, no_neighbours}
use protocache.PerfectHash.Graph.Linked.{Linked, Unlinks, Linked-without}
use protocache.PerfectHash.Graph.Views.{section_of, get_vertex_lem}
use protocache.PerfectHash.Graph.Waiting.{QueueOf, offer_alone-Grows, Free, contains}
use protocache.PerfectHash.Graph.Unlinked.{unlink_prev-Changes, unlink_next-Changes}

-- One section, when some edges have left it.
pub record LinkedAt (n e : ℕ) (live : ℕ → Bool) (s : ℕ → ℕ → ℕ) (j : ℕ) (g : Graph) : Type 0 where
  pub linked : Linked n e live (s j) (section_of g j)
  pub slots : (k : ℕ) → k < n → (section_of g j k).slot ≡ s j k

-- Edge `c` leaves section `j`, and a neighbour may become free.
pub record Leaves (w n : ℕ) (s : ℕ → ℕ → ℕ) (live : ℕ → Bool) (j c : ℕ) (g : Graph) (q : Queue)
    (r : Run (Graph × Queue)) : Type 0 where
  pub next : Graph
  pub queue : Queue
  pub returns : r ≡ done (next, queue)
  pub edges : length next.edges ≡ length g.edges
  pub nodes : length next.nodes ≡ length g.nodes
  pub section : LinkedAt n (no_edge w) (without c live) s j next
  pub others : (j' k : ℕ) → j' < 3 → j' ≢ j → section_of next j' k ≡ section_of g j' k
  pub valid : QueueOf n s queue
  pub more : List ℕ
  pub extends : queue.free ≡ q.free ++ more
  pub sized : length queue.book ≡ length q.book

module _ (w n j c : ℕ) (s : ℕ → ℕ → ℕ) (live : ℕ → Bool) (g : Graph) (q : Queue)
    (small : n ≤ no_edge w) (j_lt : j < 3) (c_lt : c < n) (c_live : live c ≡ true)
    (room : n ≤ length g.edges) (at : LinkedAt n (no_edge w) live s j g) (of : QueueOf n s q) where
  abbrev v : Vertex
  v = section_of g j c

  prev_cases : (v.prev ≡ no_edge w) ⊎ ((v.prev < n) × (c < v.prev) × (live v.prev ≡ true))
  prev_cases = elim (at.linked c c_lt c_live).1 [
    | inl (e, _) ↦ inl e
    | inr (cp, pn, lp, _, _) ↦ inr (pn, cp, lp)
  ]

  next_cases : (v.next ≡ no_edge w) ⊎ ((v.next < n) × (v.next < c) × (live v.next ≡ true))
  next_cases = elim (at.linked c c_lt c_live).0 [
    | inl (e, _) ↦ inl e
    | inr (xc, lx, _, _) ↦ inr (omega arith, xc, lx)
  ]

  -- The neighbour that detach looks at last.
  neighbour_cases :
      (i : ℕ)
      → i ≡ (if v.next == no_edge w then v.prev else v.next)
      → (i ≡ no_edge w) ⊎ ((i < n) × (without c live i ≡ true))
  neighbour_cases i it = elim (Bool-cases (v.next == no_edge w)) [
    | inl no_next ↦
        let same : i ≡ v.prev = it ∙ rw no_next refl in
        elim prev_cases [
          | inl e ↦ inl (same ∙ e)
          | inr (h, cp, lp) ↦ inr (omega (arith, same), rw same (ground arith))
        ]
    | inr has ↦
        let same : i ≡ v.next = it ∙ rw has refl in
        elim next_cases [
          | inl e ↦ absurd (ground arith)
          | inr (h, xc, lx) ↦ inr (omega (arith, same), rw same (ground arith))
        ]
  ]

  -- The graph without `c` in section `j`.
  record Joined : Type 0 where
    one : Graph
    next : Graph
    first : unlink_prev w j v g ≡ done (v.prev, one)
    again : section_of one j c ≡ v
    one_edges : length one.edges ≡ length g.edges
    second :
        unlink_next w j v.prev v one ≡ done (if v.next == no_edge w then v.prev else v.next, next)
    edges : length next.edges ≡ length g.edges
    nodes : length next.nodes ≡ length g.nodes
    joins : Unlinks n c (section_of g j) (section_of next j)
    slots : (k : ℕ) → k < n → (section_of next j k).slot ≡ s j k
    others : (j' k : ℕ) → j' < 3 → j' ≢ j → section_of next j' k ≡ section_of g j' k

  joined : Joined
  joined =
      let prev_fits : (v.prev ≡ no_edge w) ⊎ (v.prev < n) = elim prev_cases [
        | inl e ↦ inl e
        | inr (h, _, _) ↦ inr h
      ] in
      let next_fits : (v.next ≡ no_edge w) ⊎ (v.next < n) = elim next_cases [
        | inl e ↦ inl e
        | inr (h, _, _) ↦ inr h
      ] in
      let (one, first, a) = unlink_prev-Changes w n j small j_lt g v room prev_fits in
      let room' : n ≤ length one.edges = omega (arith, a.edges) in
      let (next, second, b) = unlink_next-Changes w n j small j_lt one v.prev v room' next_fits in
      let apart : (c == v.prev) ≡ false = elim prev_cases [
        | inl e ↦ ground arith
        | inr (_, h, _) ↦ ground arith
      ] in
      record {
        one = one;
        next = next;
        first = first;
        again = a.here c c_lt ∙ rw apart refl;
        one_edges = a.edges;
        second = second;
        edges = b.edges ∙ a.edges;
        nodes = b.nodes ∙ a.nodes;
        joins = λ k h. elim (Bool-cases (k == v.prev)) [
          | inl p ↦ elim (Bool-cases (k == v.next)) [
            | inl x ↦ rw (b.here k h, x, a.here k h, p) (refl, refl)
            | inr x ↦ rw (b.here k h, x, a.here k h, p) (refl, refl)
          ]
          | inr p ↦ elim (Bool-cases (k == v.next)) [
            | inl x ↦ rw (b.here k h, x, a.here k h, p) (refl, refl)
            | inr x ↦ rw (b.here k h, x, a.here k h, p) (refl, refl)
          ]
        ];
        slots = λ k h. elim (Bool-cases (k == v.prev)) [
          | inl p ↦ elim (Bool-cases (k == v.next)) [
            | inl x ↦ rw (b.here k h, x, a.here k h, p) (at.slots k h)
            | inr x ↦ rw (b.here k h, x, a.here k h, p) (at.slots k h)
          ]
          | inr p ↦ elim (Bool-cases (k == v.next)) [
            | inl x ↦ rw (b.here k h, x, a.here k h, p) (at.slots k h)
            | inr x ↦ rw (b.here k h, x, a.here k h, p) (at.slots k h)
          ]
        ];
        others = λ j' k h ne. b.others j' k h ne ∙ a.others j' k h ne;
      }

  section_left : (r : Joined) → LinkedAt n (no_edge w) (without c live) s j r.next
  section_left r = record {
    linked =
        Linked-without n (no_edge w) c live (s j) (section_of g j) (section_of r.next j) small c_lt
          c_live at.linked r.joins;
    slots = r.slots;
  }

  module _ (gone : (k : ℕ) → k < n → live k ≡ false → contains k q.free ≡ true)
      (c_in : contains c q.free ≡ true) where
    -- A neighbour without neighbours is free.
    neighbour-Free :
        (r : Joined) (i : ℕ)
        → i < n
        → without c live i ≡ true
        → (section_of r.next j i).prev ≡ no_edge w
        → (section_of r.next j i).next ≡ no_edge w
        → Free n s i q.free
    neighbour-Free r i h li pe xe =
        let (below, above) = (section_left r).linked i h li in
        let own =
          no_neighbours n (no_edge w) (without c live) (s j) i _ _ small h xe pe below above in
        (
          j,
          j_lt,
          λ k hk ne same. elim (Bool-cases (live k)) [
            | inr left ↦ gone k hk left
            | inl linked ↦ elim (Bool-cases (k == c)) [
              | inl it ↦ let it' : k ≡ c = ground arith in rw it' c_in
              | inr other ↦ absurd (own k hk ne (ground arith) same)
            ]
          ],
        )

    pub detach-Leaves : Leaves w n s live j c g q (detach w n c j (g, q))
    unfolding detach
    detach-Leaves =
        let r = joined in
        let here = get_vertex_lem g c (omega arith) j in
        let again = get_vertex_lem r.one c (omega (arith, r.one_edges)) j in
        let i = if v.next == no_edge w then v.prev else v.next in
        elim (neighbour_cases i refl) [
          | inl nobody ↦
              let test : (i == no_edge w) ≡ true = ground arith in
              record {
                next = r.next;
                queue = q;
                returns = rw (here, r.first, again, r.again, r.second, test) refl;
                edges = r.edges;
                nodes = r.nodes;
                section = section_left r;
                others = r.others;
                valid = of;
                more = [];
                extends = sym (append-nil q.free);
                sized = refl;
              }
          | inr (h, li) ↦
              let test : (i == no_edge w) ≡ false = ground arith in
              let there = get_vertex_lem r.next i (omega (arith, r.edges)) j in
              let o =
                offer_alone-Grows w n s small i h q of (section_of r.next j i)
                  (neighbour-Free r i h li) in
              record {
                next = r.next;
                queue = o.next;
                returns = rw (here, r.first, again, r.again, r.second, test, there, o.returns) refl;
                edges = r.edges;
                nodes = r.nodes;
                section = section_left r;
                others = r.others;
                valid = o.queue;
                more = o.more;
                extends = o.extends;
                sized = o.sized;
              }
        ]
