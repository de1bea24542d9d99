-- ===== src/PerfectHash/Check/Table.antt =====
-- The table of Check with the first keys in it.
use protocache.Base.{
  ℕ, suc, ◌*◌, ◌%◌, ◌^◌, ◌<◌, ◌≤◌, ◌≡◌, ◌≢◌, refl, ap, sym, ◌∙◌, inl, inr, true, false, Bool,
  Bool-cases, ◌==◌, bit_or, bit_or-digit, bit_and, bit_and-digit, List, [], ◌++◌, length,
  length-set, length-append, length-replicate, replicate, get_or, get_or-set, get_or-replicate, set,
  count, count_none, count_same, count_more, Run, done, arith,
}
use native.Mathlib.Nat.{mod-lt}
use protocache.Hash.Digest.{digest}
use protocache.PerfectHash.Check.{Code, probe}
use protocache.PerfectHash.Check.Probing.{
  cell, marked, occupied, Reaches, probe-Reaches, Reaches-set,
}

-- The hash of the `j`-th key.
abbrev pub code_of : List (List ℕ) → ℕ → ℕ → Code
code_of source seed j = digest (get_or source j []) seed

-- A hash with the lowest bit set, as the table holds it.
abbrev pub mask : Code → Code
mask (lo, hi) = (bit_or lo 1, hi)

-- Of the first `n` keys no two have the same hash.
abbrev pub AllDiffer : List (List ℕ) → ℕ → ℕ → Type 0
AllDiffer source seed n = (i k : ℕ) → i < k → k < n → code_of source seed i ≢ code_of source seed k

-- Two of the first `n` keys have hashes that differ in the lowest bit at most.
abbrev pub SomeAgree : List (List ℕ) → ℕ → ℕ → Type 0
SomeAgree source seed n =
    (i : ℕ) × (k : ℕ) × (i < k)
    × (k < n)
    × (mask (code_of source seed i) ≡ mask (code_of source seed k))

pub mask-marked : (c : Code) → marked (mask c) ≡ true
mask-marked (lo, hi) =
    let odd : bit_or lo 1 % 2 ≡ 1 = omega (arith, bit_or-digit lo 1) in
    let kept : bit_and (bit_or lo 1) 1 % 2 ≡ 1 =
      omega (arith, odd, bit_and-digit (bit_or lo 1) 1) in
    let e : (bit_and (bit_or lo 1) 1 == 0) ≡ false = ground arith in rw e refl

module _ (whole : List (List ℕ)) (n m seed : ℕ) (twice : m ≡ n * 2) where
  -- Where the search for the `j`-th key starts.
  abbrev pub place_of : ℕ → ℕ
  place_of j = (code_of whole seed j).0 % 2 ^ 32 % m

  -- A table that has the first `i` keys.
  pub record Holds (i : ℕ) (space : List Code) : Type 0 where
    pub sized : m ≤ length space
    pub reached : (j : ℕ) → j < i → Reaches n m space (mask (code_of whole seed j)) (place_of j)
    pub held :
        (q : ℕ)
        → q < m
        → occupied space q ≡ true
        → (j : ℕ) × (j < i) × (cell space q ≡ mask (code_of whole seed j))
    pub counted : count m (occupied space) ≡ i

  pub cleared-Holds : (rest : List Code) → Holds 0 (replicate m (0, 0) ++ rest)
  cleared-Holds rest =
      let space = replicate m (0, 0) ++ rest in
      let free : (q : ℕ) → q < m → occupied space q ≡ false = λ q h.
        let e : cell space q ≡ (0, 0) = get_or-replicate m (0, 0) q rest (0, 0) h in rw e refl in
      record {
        sized = rw (length-append, length-replicate) (omega arith);
        reached = λ j h. absurd (omega (arith, h));
        held = λ q h used. absurd (let no = free q h in ground (arith, no, used));
        counted = count_same m (occupied space) (λ _. false) free ∙ count_none m;
      }

  -- A key that took a free place.
  pub insert-Holds :
      (i : ℕ) (space : List Code) (q : ℕ)
      → Holds i space
      → q < m
      → occupied space q ≡ false
      → Reaches n m
          (set space q (mask (code_of whole seed i)))
          (mask (code_of whole seed i))
          (place_of i)
      → Holds (suc i) (set space q (mask (code_of whole seed i)))
  insert-Holds i space q s h free reaches =
      let c = mask (code_of whole seed i) in
      let q_lt : q < length space = let sized = s.sized in omega (arith, h, sized) in
      let after = set space q c in
      record {
        sized = rw length-set s.sized;
        reached = λ j hj. elim (Bool-cases (j == i)) [
          | inl it ↦ let it' : j ≡ i = ground arith in rw it' reaches
          | inr before ↦
              Reaches-set n m space (mask (code_of whole seed j)) (place_of j) q c q_lt free
                (s.reached j (ground (arith, hj, before)))
        ];
        held = λ k hk used. elim (Bool-cases (k == q)) [
          | inl it ↦
              let now : cell after k ≡ c = rw (get_or-set space q k c (0, 0) q_lt, it) refl in
              (i, omega arith, now)
          | inr other ↦
              let kept : cell after k ≡ cell space k =
                rw (get_or-set space q k c (0, 0) q_lt, other) refl in
              let (j, hj, e) = s.held k hk (ap marked (sym kept) ∙ used) in
              (j, omega (arith, hj), kept ∙ e)
        ];
        counted =
            count_more m q (occupied space) (occupied after) h free (λ k.
              elim (Bool-cases (k == q)) [
                | inl it ↦
                    let now : cell after k ≡ c = rw (get_or-set space q k c (0, 0) q_lt, it) refl in
                    let on : occupied after k ≡ true =
                      ap marked now ∙ mask-marked (code_of whole seed i) in
                    rw (on, it) (ground arith)
                | inr other ↦
                    let kept : cell after k ≡ cell space k =
                      rw (get_or-set space q k c (0, 0) q_lt, other) refl in
                    let same : occupied after k ≡ occupied space k = ap marked kept in
                    rw (same, other) (ground arith)
              ])
            ∙ ap suc s.counted;
      }

  -- A key whose search took a place has another hash than the keys before it.
  pub differ_more :
      (i : ℕ) (space after : List Code)
      → Holds i space
      → 0 < m
      → AllDiffer whole seed i
      → probe n m (mask (code_of whole seed i)) (place_of i) space ≡ done (true, after)
      → AllDiffer whole seed (suc i)
  differ_more i space after s pos differ took a b below h same = elim (Bool-cases (b == i)) [
    | inl it ↦
        let it' : b ≡ i = ground arith in
        let same' : code_of whole seed a ≡ code_of whole seed i =
          same ∙ ap (code_of whole seed) it' in
        let reached : Reaches n m space (mask (code_of whole seed i)) (place_of i) =
          rw (← same') (s.reached a (omega (arith, below, h))) in
        let known =
          probe-Reaches n m space (mask (code_of whole seed i)) (place_of i) s.sized (mod-lt _ pos)
            reached in
        let clash : ◌≡◌ {A = Run (Bool × List Code)} (done (false, space)) (done (true, after)) =
          sym known ∙ took in
        cc
    | inr before ↦ differ a b below (ground (arith, h, before)) same
  ]
