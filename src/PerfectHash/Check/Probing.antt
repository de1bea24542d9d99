-- ===== src/PerfectHash/Check/Probing.antt =====
-- The loop of insert: the places that it looks at, and why it does not run out of rounds.
use protocache.Base.{
  ℕ, zero, suc, ◌+◌, ◌-◌, ◌<◌, ◌≤◌, ◌≡◌, refl, ◌∙◌, inl, inr, ◌⊎◌, true, false, Bool, Bool-cases,
  ◌==◌, leb, not, bit_and, List, length, get_elem?-get_or, get_or, get_or-set, set, count,
  count_mono, done, arith,
}
use protocache.PerfectHash.Check.{Code, same_code, next_place, probe}

abbrev pub cell : List Code → ℕ → Code
cell space q = get_or space q (0, 0)

abbrev pub marked : Code → Bool
marked c = not (bit_and c.0 1 == 0)

-- Whether a place of the table is in use.
abbrev pub occupied : List Code → ℕ → Bool
occupied space q = marked (cell space q)

-- Places in use from `pos` on, the last of which holds the code.
abbrev pub Reaches : ℕ → ℕ → List Code → Code → ℕ → Type 0
Reaches zero m space c pos = zero ≡ 1
Reaches (suc fuel) m space c pos =
    (occupied space pos ≡ true) × ((cell space pos ≡ c) ⊎ Reaches fuel m space c (next_place m pos))

-- So many places in use from `pos` on.
abbrev pub Full : ℕ → ℕ → List Code → ℕ → Type 0
Full zero m space pos = zero ≡ 0
Full (suc fuel) m space pos = (occupied space pos ≡ true) × Full fuel m space (next_place m pos)

pub next_place-lt : (m pos : ℕ) → pos < m → next_place m pos < m
next_place-lt m pos h = ground arith

same_code-true : (a c : Code) → same_code a c ≡ true → a ≡ c
unfolding same_code
same_code-true (a, b) (c, d) h =
    let e : a ≡ c = ground arith in let e' : b ≡ d = ground arith in rw (e, e') refl

same_code_refl : (c : Code) → same_code c c ≡ true
unfolding same_code
same_code_refl (a, b) = ground arith

-- Full runs of the table, up to its end and around it.
Full-count :
    (f m : ℕ) (space : List Code) (pos : ℕ)
    → pos + f ≤ m
    → Full f m space pos
    → count (pos + f) (occupied space) ≡ count pos (occupied space) + f
unfolding count
Full-count zero m space pos h full = let e : pos + 0 ≡ pos = omega arith in rw e (omega arith)
Full-count (suc zero) m space pos h full =
    let e : pos + 1 ≡ suc pos = omega arith in rw (e, full.0) refl
Full-count (suc (suc f)) m space pos h full =
    let on : next_place m pos ≡ suc pos = ground arith in
    let rest = Full-count (suc f) m space (suc pos) (omega arith) (rw (← on) full.1) in
    let one : count (suc pos) (occupied space) ≡ count pos (occupied space) + 1 = rw full.0 refl in
    let e : pos + suc (suc f) ≡ suc pos + suc f = omega arith in rw e (omega (arith, rest, one))

Full-around :
    (f m : ℕ) (space : List Code) (pos : ℕ)
    → pos < m
    → m ≤ pos + f
    → Full f m space pos
    → (count m (occupied space) ≡ count pos (occupied space) + (m - pos))
      × Full (pos + f - m) m space 0
unfolding count
Full-around zero m space pos h around full = absurd (omega arith)
Full-around (suc f) m space pos h around full =
    let one : count (suc pos) (occupied space) ≡ count pos (occupied space) + 1 = rw full.0 refl in
    elim (Bool-cases (suc pos == m)) [
      | inl last ↦
          let e : m ≡ suc pos = ground arith in
          let back : next_place m pos ≡ 0 = ground arith in
          let left : pos + suc f - m ≡ f = omega arith in
          (rw e (omega (arith, one)), rw (left, ← back) full.1)
      | inr before ↦
          let on : next_place m pos ≡ suc pos = ground arith in
          let full' : Full f m space (suc pos) = rw (← on) full.1 in
          let (counted, rest) =
            Full-around f m space (suc pos) (ground arith) (omega arith) full' in
          let left : pos + suc f - m ≡ suc pos + f - m = omega arith in
          (omega (arith, one, counted, h), rw left rest)
    ]

-- Where so many rounds find no free place, there are as many in use.
pub Full-enough :
    (f m : ℕ) (space : List Code) (pos : ℕ)
    → pos < m
    → f ≤ m
    → Full f m space pos
    → f ≤ count m (occupied space)
unfolding count
Full-enough f m space pos h fits full = elim (Bool-cases (leb m (pos + f))) [
  | inl around ↦
      let (counted, rest) = Full-around f m space pos h (ground arith) full in
      let start = Full-count (pos + f - m) m space 0 (omega arith) rest in
      let from_0 : 0 + (pos + f - m) ≡ pos + f - m = omega arith in
      let start' = rw from_0 at start in
      let less = count_mono (pos + f - m) pos (occupied space) (omega arith) in
      omega (arith, counted, start', less, h)
  | inr inside ↦
      let counted = Full-count f m space pos (ground arith) full in
      let less = count_mono (pos + f) m (occupied space) (ground arith) in
      omega (arith, counted, less)
]

-- A code that is reached is found.
pub probe-Reaches :
    (fuel m : ℕ) (space : List Code) (c : Code) (pos : ℕ)
    → m ≤ length space
    → pos < m
    → Reaches fuel m space c pos
    → probe fuel m c pos space ≡ done (false, space)
unfolding probe
probe-Reaches zero m space c pos sized h r = absurd (omega (arith, r))
probe-Reaches (suc fuel) m space c pos sized h (taken, r) =
    let e = get_elem?-get_or space pos (0, 0) (omega arith) in
    let taken' : bit_and (cell space pos).0 1 == 0 ≡ false = ground arith in
    elim r [
      | inl same ↦
          let same' : same_code (cell space pos) c ≡ true = rw same (same_code_refl c) in
          rw (e, taken', same') refl
      | inr later ↦
          let rest =
            probe-Reaches fuel m space c (next_place m pos) sized (next_place-lt m pos h) later in
          elim (Bool-cases (same_code (cell space pos) c)) [
            | inl same ↦ rw (e, taken', same) refl
            | inr other ↦ rw (e, taken', other) rest
          ]
    ]

-- A code in a free place stands in nobody's way.
pub Reaches-set :
    (fuel m : ℕ) (space : List Code) (c : Code) (pos q : ℕ) (new : Code)
    → q < length space
    → occupied space q ≡ false
    → Reaches fuel m space c pos
    → Reaches fuel m (set space q new) c pos
Reaches-set zero m space c pos q new sized free r = r
Reaches-set (suc fuel) m space c pos q new sized free (taken, r) =
    let other : (pos == q) ≡ false = elim (Bool-cases (pos == q)) [
      | inl it ↦
          let it' : pos ≡ q = ground arith in
          let no = rw it' at taken in absurd (ground (arith, no, free))
      | inr not_it ↦ not_it
    ] in
    let kept : cell (set space q new) pos ≡ cell space pos =
      rw (get_or-set space q pos new (0, 0) sized, other) refl in
    (
      rw kept taken,
      elim r [
        | inl same ↦ inl (kept ∙ same)
        | inr later ↦ inr (Reaches-set fuel m space c (next_place m pos) q new sized free later)
      ],
    )

-- What a search gives: a free place that takes the code, the code itself, or no free place.
abbrev Probed : ℕ → ℕ → List Code → Code → ℕ → Type 0
Probed fuel m space c pos =
    ((q : ℕ) × (q < m)
      × (occupied space q ≡ false)
      × (probe fuel m c pos space ≡ done (true, set space q c))
      × Reaches fuel m (set space q c) c pos)
    ⊎ (((q : ℕ) × (q < m)
          × (occupied space q ≡ true)
          × (cell space q ≡ c)
          × (probe fuel m c pos space ≡ done (false, space)))
        ⊎ ((probe fuel m c pos space ≡ done (false, space)) × Full fuel m space pos))

pub probe-Probed :
    (fuel m : ℕ) (space : List Code) (c : Code) (pos : ℕ)
    → m ≤ length space
    → pos < m
    → marked c ≡ true
    → Probed fuel m space c pos
unfolding probe
probe-Probed zero m space c pos sized h mark = inr (inr (refl, refl))
probe-Probed (suc fuel) m space c pos sized h mark =
    let e = get_elem?-get_or space pos (0, 0) (omega arith) in
    let here : cell (set space pos c) pos ≡ c =
      let it : (pos == pos) ≡ true = ground arith in
      rw (get_or-set space pos pos c (0, 0) (omega arith), it) refl in
    elim (Bool-cases (bit_and (cell space pos).0 1 == 0)) [
      | inl free ↦ inl (pos, h, rw free refl, rw (e, free) refl, (rw here mark, inl here))
      | inr taken ↦
          let used : occupied space pos ≡ true = rw taken refl in
          elim (Bool-cases (same_code (cell space pos) c)) [
            | inl same ↦ inr (
                inl
                  (pos, h, used, same_code-true (cell space pos) c same, rw (e, taken, same) refl))
            | inr other ↦
                elim (probe-Probed fuel m space c (next_place m pos) sized (next_place-lt m pos h)
                  mark) [
                    | inl (q, hq, free, returns, reaches) ↦
                        let differ : (pos == q) ≡ false = elim (Bool-cases (pos == q)) [
                          | inl it ↦
                              let it' : pos ≡ q = ground arith in
                              let used' = rw it' at used in absurd (ground (arith, used', free))
                          | inr not_it ↦ not_it
                        ] in
                        let kept : cell (set space q c) pos ≡ cell space pos =
                          rw (get_or-set space q pos c (0, 0) (omega arith), differ) refl in
                        inl (q, hq, free, rw (e, taken, other) returns, (rw kept used, inr reaches))
                    | inr rest ↦ elim rest [
                      | inl (q, hq, used', it, returns) ↦
                          inr (inl (q, hq, used', it, rw (e, taken, other) returns))
                      | inr (returns, full) ↦ inr (inr (rw (e, taken, other) returns, (used, full)))
                    ]
                  ]
          ]
    ]
