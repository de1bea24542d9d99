-- ===== src/PerfectHash/Graph/Nearest.antt =====
-- The lists of edges at the slots: an edge's `next` is the nearest edge below it with the same slot, and its `prev`
-- the nearest above it, among the edges that are still linked.
use protocache.Base.{
  ℕ, ◌<◌, ◌≤◌, ◌≡◌, ◌≢◌, ap, sym, ◌∙◌, inl, inr, ◌⊎◌, true, Bool, Bool-cases, ◌==◌, ltb, not, ◌&&◌,
  arith,
}

-- Among the linked edges below `i`, the nearest with the slot of `i` is `x`; `e` stands for none.
abbrev pub Below : ℕ → (ℕ → Bool) → (ℕ → ℕ) → ℕ → ℕ → Type 0
Below e live s i x =
    ((x ≡ e) × ((k : ℕ) → k < i → live k ≡ true → s k ≢ s i))
    ⊎ ((x < i)
        × (live x ≡ true)
        × (s x ≡ s i)
        × ((k : ℕ) → x < k → k < i → live k ≡ true → s k ≢ s i))

-- Likewise above `i` and below `n`.
abbrev pub Above : ℕ → ℕ → (ℕ → Bool) → (ℕ → ℕ) → ℕ → ℕ → Type 0
Above n e live s i x =
    ((x ≡ e) × ((k : ℕ) → i < k → k < n → live k ≡ true → s k ≢ s i))
    ⊎ ((i < x)
        × (x < n)
        × (live x ≡ true)
        × (s x ≡ s i)
        × ((k : ℕ) → i < k → k < x → live k ≡ true → s k ≢ s i))

abbrev pub without : ℕ → (ℕ → Bool) → ℕ → Bool
without c live k = live k && not (k == c)

module _ (n e c : ℕ) (live : ℕ → Bool) (s : ℕ → ℕ) (small : n ≤ e) (c_lt : c < n)
    (c_live : live c ≡ true) where
  pub live_without : (k : ℕ) → live k ≡ true → k ≢ c → without c live k ≡ true
  live_without k h ne = ground arith

  pub without_live : (k : ℕ) → without c live k ≡ true → (live k ≡ true) × (k ≢ c)
  without_live k h = ground arith

  -- The neighbour above `c` takes over what was below `c`.
  pub Below-neighbour :
      (p x : ℕ) → p ≢ e → Above n e live s c p → Below e live s c x → Below e (without c live) s p x
  Below-neighbour p x there (inl (none_above, _)) below = absurd (there none_above)
  Below-neighbour p x there (inr (cp, pn, lp, sp, gap)) (inl (xe, empty)) = inl (
    xe,
    λ k kp lk same.
        let (lk', ne) = without_live k lk in
        elim (Bool-cases (ltb k c)) [
          | inl low ↦ empty k (ground arith) lk' (same ∙ sp)
          | inr high ↦ gap k (ground arith) kp lk' (same ∙ sp)
        ],
  )
  Below-neighbour p x there (inr (cp, pn, lp, sp, gap)) (inr (xc, lx, sx, gap')) = inr (
    omega arith,
    live_without x lx (λ q. omega (arith, q)),
    sx ∙ sym sp,
    λ k xk kp lk same.
        let (lk', ne) = without_live k lk in
        elim (Bool-cases (ltb k c)) [
          | inl low ↦ gap' k xk (ground arith) lk' (same ∙ sp)
          | inr high ↦ gap k (ground arith) kp lk' (same ∙ sp)
        ],
  )

  -- What is not next to `c` keeps its neighbour below.
  pub Below-other :
      (i p x : ℕ)
      → i < n
      → live i ≡ true
      → i ≢ c
      → i ≢ p
      → Above n e live s c p
      → Below e live s i x
      → Below e (without c live) s i x
  Below-other i p x h li ic ip above (inl (xe, empty)) =
      inl (xe, λ k ki lk. let (lk', _) = without_live k lk in empty k ki lk')
  Below-other i p x h li ic ip above (inr (xi, lx, sx, gap)) =
      let xc : x ≢ c = λ q.
        let si : s i ≡ s c = sym sx ∙ ap s q in
        elim above [
          | inl (_, none_above) ↦ none_above i (omega (arith, q)) h li si
          | inr (cp, pn, lp, sp, gap') ↦ elim (Bool-cases (ltb i p)) [
            | inl low ↦ gap' i (omega (arith, q)) (ground arith) li si
            | inr high ↦ gap p (omega (arith, q)) (ground arith) lp (sp ∙ sym si)
          ]
        ] in
      inr (
        xi,
        live_without x lx xc,
        sx,
        λ k xk ki lk. let (lk', _) = without_live k lk in gap k xk ki lk',
      )

  -- The neighbour below `c` takes over what was above `c`.
  pub Above-neighbour :
      (x p : ℕ)
      → x ≢ e
      → Below e live s c x
      → Above n e live s c p
      → Above n e (without c live) s x p
  Above-neighbour x p there (inl (none_below, _)) above = absurd (there none_below)
  Above-neighbour x p there (inr (xc, lx, sx, gap)) (inl (pe, empty)) = inl (
    pe,
    λ k xk kn lk same.
        let (lk', ne) = without_live k lk in
        elim (Bool-cases (ltb k c)) [
          | inl low ↦ gap k xk (ground arith) lk' (same ∙ sx)
          | inr high ↦ empty k (ground arith) kn lk' (same ∙ sx)
        ],
  )
  Above-neighbour x p there (inr (xc, lx, sx, gap)) (inr (cp, pn, lp, sp, gap')) = inr (
    omega arith,
    pn,
    live_without p lp (λ q. omega (arith, q)),
    sp ∙ sym sx,
    λ k xk kp lk same.
        let (lk', ne) = without_live k lk in
        elim (Bool-cases (ltb k c)) [
          | inl low ↦ gap k xk (ground arith) lk' (same ∙ sx)
          | inr high ↦ gap' k (ground arith) kp lk' (same ∙ sx)
        ],
  )

  -- What is not next to `c` keeps its neighbour above.
  pub Above-other :
      (i x p : ℕ)
      → i < n
      → live i ≡ true
      → i ≢ c
      → i ≢ x
      → Below e live s c x
      → Above n e live s i p
      → Above n e (without c live) s i p
  Above-other i x p h li ic ix below (inl (pe, empty)) =
      inl (pe, λ k ik kn lk. let (lk', _) = without_live k lk in empty k ik kn lk')
  Above-other i x p h li ic ix below (inr (ip, pn, lp, sp, gap)) =
      let pc : p ≢ c = λ q.
        let si : s i ≡ s c = sym sp ∙ ap s q in
        elim below [
          | inl (_, none_below) ↦ none_below i (omega (arith, q)) li si
          | inr (xc, lx, sx, gap') ↦ elim (Bool-cases (ltb x i)) [
            | inl low ↦ gap' i (ground arith) (omega (arith, q)) li si
            | inr high ↦ gap x (ground arith) (omega (arith, q)) lx (sx ∙ sym si)
          ]
        ] in
      inr (
        ip,
        pn,
        live_without p lp pc,
        sp,
        λ k ik kp lk. let (lk', _) = without_live k lk in gap k ik kp lk',
      )

-- An edge with no neighbours has a slot of its own among the linked edges.
pub no_neighbours :
    (n e : ℕ) (live : ℕ → Bool) (s : ℕ → ℕ) (i x p : ℕ)
    → n ≤ e
    → i < n
    → x ≡ e
    → p ≡ e
    → Below e live s i x
    → Above n e live s i p
    → (k : ℕ) → k < n
    → k ≢ i
    → live k ≡ true
    → s k ≢ s i
no_neighbours n e live s i x p small h xe pe (inr (xi, _, _, _)) above k hk ne lk =
    absurd (omega arith)
no_neighbours n e live s i x p small h xe pe (inl below) (inr (ip, pn, _, _, _)) k hk ne lk =
    absurd (omega arith)
no_neighbours n e live s i x p small h xe pe (inl (_, below)) (inl (_, above)) k hk ne lk =
    elim (Bool-cases (ltb k i)) [
      | inl low ↦ below k (ground arith) lk
      | inr high ↦ above k (ground arith) hk lk
    ]
