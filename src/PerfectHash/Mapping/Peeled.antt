-- ===== src/PerfectHash/Mapping/Peeled.antt =====
-- The order in which TearGraph frees the edges is one in which Mapping finds a slot for each.
use protocache.Base.{
  ℕ, zero, suc, ◌+◌, ◌*◌, ◌<◌, ◌≤◌, ◌≡◌, ◌≢◌, refl, ap, ◌∙◌, inl, inr, ◌⊎◌, true, false, Bool-cases,
  ◌==◌, List, [], ◌∷◌, ◌++◌, map, length, get_or, get_elem?-get_or, some, arith,
}
use protocache.PerfectHash.Graph.{Edge, Graph}
use protocache.PerfectHash.Graph.Views.{section_of, blank}
use protocache.PerfectHash.Graph.Created.{apart_regions}
use protocache.PerfectHash.Graph.Waiting.{Freed, contains, contains-append, contains_left}
use protocache.PerfectHash.Mapping.Distinct.{edges_at, Peels, touched, slot_a, slot_b, slot_c}

-- The edges with these numbers.
abbrev pub edges_of : Graph → List ℕ → List Edge
edges_of g free = map (λ k. get_or g.edges k blank) free

module _ (m n : ℕ) (s : ℕ → ℕ → ℕ) (g : Graph) (room : n ≤ length g.edges)
    (in_range : (j i : ℕ) → s j i < m)
    (slots : (j k : ℕ) → j < 3 → k < n → (section_of g j k).slot ≡ s j k) where
  -- A slot of edge `i` that no other edge has, but those seen before.
  untouched :
      (i j : ℕ) (seen post : List ℕ)
      → j < 3
      → contains i seen ≡ true
      → ((k : ℕ) → k < n → k ≢ i → s j k ≡ s j i → contains k seen ≡ true)
      → Freed n s seen post
      → touched m (s j i + m * j) (edges_of g post) ≡ false
  untouched i j seen [] hj i_in own freed = refl
  untouched i j seen (k ∷ post) hj i_in own (h, fresh, free, freed) =
      let rest =
        untouched i j (seen ++ k ∷ []) post hj (contains_left i seen (k ∷ []) i_in)
          (λ k' h' ne same. contains_left k' seen (k ∷ []) (own k' h' ne same)) freed in
      let other : s j k ≢ s j i = λ same. elim (Bool-cases (k == i)) [
        | inl it ↦
            let it' : k ≡ i = ground arith in
            let clash = rw (it', i_in) at fresh in absurd (ground arith)
        | inr ne ↦
            let clash = rw (own k h (λ p. ground arith) same) at fresh in absurd (ground arith)
      ] in
      let far : (j' : ℕ) → s j i + m * j ≢ s j' k + m * j' = λ j' same.
        elim (Bool-cases (j == j')) [
          | inl it ↦
              let it' : j' ≡ j = ground arith in let same' = rw it' at same in other (omega arith)
          | inr ne ↦
              let no =
                apart_regions m j' j (s j' k) (s j i) (in_range j' k) (in_range j i)
                  (λ p. ground arith) in
              ground arith
        ] in
      ground (
        arith,
        rest,
        far 0,
        far 1,
        far 2,
        slots 0 k (omega arith) h,
        slots 1 k (omega arith) h,
        slots 2 k (omega arith) h,
      )

  pub edges_at_lem :
      (seen post : List ℕ) → Freed n s seen post → edges_at g post ≡ some (edges_of g post)
  edges_at_lem seen [] freed = refl
  edges_at_lem seen (k ∷ post) (h, fresh, free, freed) =
      rw
        (
          edges_at,
          get_elem?-get_or g.edges k blank (omega arith),
          edges_at_lem (seen ++ k ∷ []) post freed,
        )
        refl

  in_section :
      (k j : ℕ) (es : List Edge)
      → k < n
      → j < 3
      → touched m (s j k + m * j) es ≡ false
      → let e = get_or g.edges k blank in
        (touched m (slot_a e) es ≡ false)
        ⊎ ((touched m (slot_b m e) es ≡ false) ⊎ (touched m (slot_c m e) es ≡ false))
  in_section k zero es h hj free =
      let a : slot_a (get_or g.edges k blank) ≡ s 0 k + m * 0 =
        omega (arith, slots 0 k (omega arith) h) in
      inl (ap (λ q. touched m q es) a ∙ free)
  in_section k (suc zero) es h hj free =
      let b : slot_b m (get_or g.edges k blank) ≡ s 1 k + m * 1 =
        omega (arith, slots 1 k (omega arith) h) in
      inr (inl (ap (λ q. touched m q es) b ∙ free))
  in_section k (suc (suc zero)) es h hj free =
      let c : slot_c m (get_or g.edges k blank) ≡ s 2 k + m * 2 =
        omega (arith, slots 2 k (omega arith) h) in
      inr (inr (ap (λ q. touched m q es) c ∙ free))
  in_section k (suc (suc (suc j))) es h hj free = absurd (omega arith)

  pub edges_of-Peels : (seen post : List ℕ) → Freed n s seen post → Peels m (edges_of g post)
  edges_of-Peels seen [] freed = tt
  edges_of-Peels seen (k ∷ post) (h, fresh, (j, hj, own), freed) =
      let e = get_or g.edges k blank in
      let a = slots 0 k (omega arith) h in
      let b = slots 1 k (omega arith) h in
      let c = slots 2 k (omega arith) h in
      let k_in : contains k (seen ++ k ∷ []) ≡ true =
        rw (contains-append k seen (k ∷ [])) (ground arith) in
      let free =
        untouched k j (seen ++ k ∷ []) post hj k_in
          (λ k' h' ne same. contains_left k' seen (k ∷ []) (own k' h' ne same)) freed in
      (
        (
          omega (arith, a, in_range 0 k),
          omega (arith, b, in_range 1 k),
          omega (arith, c, in_range 2 k),
        ),
        in_section k j (edges_of g post) h hj free,
        edges_of-Peels (seen ++ k ∷ []) post freed,
      )
