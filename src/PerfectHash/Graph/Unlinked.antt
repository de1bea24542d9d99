-- ===== src/PerfectHash/Graph/Unlinked.antt =====
-- `unlink_prev` and `unlink_next`: the stores that take an edge out of a list.
use protocache.Base.{
  ℕ, ◌<◌, ◌≤◌, ◌≡◌, ◌≢◌, refl, ap, sym, ◌∙◌, inl, inr, ◌⊎◌, true, false, Bool-cases, ◌==◌,
  if◌then◌else◌, length, done, arith,
}
use protocache.PerfectHash.Graph.{Vertex, Graph, no_edge, unlink_prev, unlink_next}
use protocache.PerfectHash.Graph.Views.{
  section_of, placed, put_prev_lem, put_next_lem, length-placed, section_of-placed,
  section_of-placed_ne,
}

-- A graph of the same size, with the vertices of section `j` below `n` as `f` says and the others as before.
pub record Changes (n j : ℕ) (f : ℕ → Vertex) (g next : Graph) : Type 0 where
  pub edges : length next.edges ≡ length g.edges
  pub nodes : length next.nodes ≡ length g.nodes
  pub here : (k : ℕ) → k < n → section_of next j k ≡ f k
  pub others : (j' k : ℕ) → j' < 3 → j' ≢ j → section_of next j' k ≡ section_of g j' k

at_place {ℓ} :
    {A : Type ℓ} (p k : ℕ) (x : ℕ → A) (y : A)
    → (if k == p then x p else y) ≡ (if k == p then x k else y)
at_place p k x y = elim (Bool-cases (k == p)) [
  | inl here ↦ let same : k ≡ p = ground arith in rw (here, same) refl
  | inr far ↦ rw far refl
]

module _ (w n j : ℕ) (small : n ≤ no_edge w) (j_lt : j < 3) where
  pub unlink_prev-Changes :
      (g : Graph) (v : Vertex)
      → n ≤ length g.edges
      → (v.prev ≡ no_edge w) ⊎ (v.prev < n)
      → (next : Graph) × (unlink_prev w j v g ≡ done (v.prev, next))
        × Changes n j
            (λ k.
              if k == v.prev then record (section_of g j k) { next = v.next } else section_of g j k)
            g
            next
  unfolding unlink_prev
  unlink_prev-Changes g v room (inl gone) =
      let test : (v.prev == no_edge w) ≡ true = ground arith in
      (
        g,
        rw test (ap (λ (p : ℕ). done (p, g)) (sym gone)),
        record {
          edges = refl;
          nodes = refl;
          here = λ k h. let far : (k == v.prev) ≡ false = ground arith in rw far refl;
          others = λ j' k h ne. refl;
        },
      )
  unlink_prev-Changes g v room (inr inside) =
      let test : (v.prev == no_edge w) ≡ false = ground arith in
      let fits : v.prev < length g.edges = omega arith in
      let u = record (section_of g j v.prev) { next = v.next } in
      (
        placed g v.prev j u,
        rw (test, put_next_lem g v.prev fits j v.next) refl,
        record {
          edges = length-placed g v.prev fits j u;
          nodes = refl;
          here = λ k h.
              section_of-placed g v.prev j k u fits j_lt
              ∙ at_place v.prev k (λ p. record (section_of g j p) { next = v.next })
                  (section_of g j k);
          others = λ j' k h ne. section_of-placed_ne g v.prev j j' k u fits j_lt h ne;
        },
      )

  pub unlink_next-Changes :
      (g : Graph) (i : ℕ) (v : Vertex)
      → n ≤ length g.edges
      → (v.next ≡ no_edge w) ⊎ (v.next < n)
      → (next : Graph) × (unlink_next w j i v g
          ≡ done (if v.next == no_edge w then i else v.next, next))
        × Changes n j
            (λ k.
              if k == v.next then record (section_of g j k) { prev = v.prev } else section_of g j k)
            g
            next
  unfolding unlink_next
  unlink_next-Changes g i v room (inl gone) =
      let test : (v.next == no_edge w) ≡ true = ground arith in
      (
        g,
        rw test refl,
        record {
          edges = refl;
          nodes = refl;
          here = λ k h. let far : (k == v.next) ≡ false = ground arith in rw far refl;
          others = λ j' k h ne. refl;
        },
      )
  unlink_next-Changes g i v room (inr inside) =
      let test : (v.next == no_edge w) ≡ false = ground arith in
      let fits : v.next < length g.edges = omega arith in
      let u = record (section_of g j v.next) { prev = v.prev } in
      (
        placed g v.next j u,
        rw (test, put_prev_lem g v.next fits j v.prev) refl,
        record {
          edges = length-placed g v.next fits j u;
          nodes = refl;
          here = λ k h.
              section_of-placed g v.next j k u fits j_lt
              ∙ at_place v.next k (λ p. record (section_of g j p) { prev = v.prev })
                  (section_of g j k);
          others = λ j' k h ne. section_of-placed_ne g v.next j j' k u fits j_lt h ne;
        },
      )
