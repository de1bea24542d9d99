-- ===== src/PerfectHash/Graph/Linked.antt =====
-- The vertices of one section as linked lists: an edge is put in front, and an edge is taken out.
use protocache.Base.{
  ℕ, suc, ◌<◌, ◌≤◌, ◌≡◌, ◌≢◌, refl, ap, sym, ◌∙◌, inl, inr, ◌⊎◌, true, Bool, Bool-cases, ◌==◌, ltb,
  if◌then◌else◌, arith,
}
use protocache.PerfectHash.Graph.{Vertex}
use protocache.PerfectHash.Graph.Nearest.{
  Below, Above, without, without_live, Below-neighbour, Below-other, Above-neighbour, Above-other,
}

-- The vertices of a section, by edge. `s` are their slots, and `live` says which edges are linked.
abbrev pub Linked : ℕ → ℕ → (ℕ → Bool) → (ℕ → ℕ) → (ℕ → Vertex) → Type 0
Linked n e live s f =
    (i : ℕ) → i < n → live i ≡ true → Below e live s i (f i).next × Above n e live s i (f i).prev

-- The neighbours of `c` are joined.
abbrev pub Unlinks : ℕ → ℕ → (ℕ → Vertex) → (ℕ → Vertex) → Type 0
Unlinks n c f f' =
    (i : ℕ)
    → i < n
    → ((f' i).next ≡ (if i == (f c).prev then (f c).next else (f i).next))
      × ((f' i).prev ≡ (if i == (f c).next then (f c).prev else (f i).prev))

pub Linked-without :
    (n e c : ℕ) (live : ℕ → Bool) (s : ℕ → ℕ) (f f' : ℕ → Vertex)
    → n ≤ e
    → c < n
    → live c ≡ true
    → Linked n e live s f
    → Unlinks n c f f'
    → Linked n e (without c live) s f'
Linked-without n e c live s f f' small c_lt c_live linked unlinks i h li =
    let (li', ic) = without_live n e c live s small c_lt c_live i li in
    let (below, above) = linked c c_lt c_live in
    let (below_i, above_i) = linked i h li' in
    let (en, ep) = unlinks i h in
    (
      elim (Bool-cases (i == (f c).prev)) [
        | inl near ↦
            let same : i ≡ (f c).prev = ground arith in
            rw (en, near, same)
              (Below-neighbour n e c live s small c_lt c_live (f c).prev (f c).next
                (λ q. omega (arith, q, same)) above below)
        | inr far ↦
            rw (en, far)
              (Below-other n e c live s small c_lt c_live i (f c).prev (f i).next h li' ic
                (λ q. ground arith) above below_i)
      ],
      elim (Bool-cases (i == (f c).next)) [
        | inl near ↦
            let same : i ≡ (f c).next = ground arith in
            rw (ep, near, same)
              (Above-neighbour n e c live s small c_lt c_live (f c).next (f c).prev
                (λ q. omega (arith, q, same)) below above)
        | inr far ↦
            rw (ep, far)
              (Above-other n e c live s small c_lt c_live i (f c).next (f i).prev h li' ic
                (λ q. ground arith) below above_i)
      ],
    )

abbrev pub all : ℕ → Bool
all k = true

-- The last edge below `i` with the slot `q`.
abbrev pub Head : ℕ → ℕ → (ℕ → ℕ) → ℕ → ℕ → Type 0
Head i e s q x =
    ((x ≡ e) × ((k : ℕ) → k < i → s k ≢ q))
    ⊎ ((x < i) × (s x ≡ q) × ((k : ℕ) → x < k → k < i → s k ≢ q))

pub Head-suc :
    (i e : ℕ) (s : ℕ → ℕ) (q x : ℕ)
    → Head i e s q x
    → Head (suc i) e s q (if q == s i then i else x)
Head-suc i e s q x head = elim (Bool-cases (q == s i)) [
  | inl here ↦ rw here (inr (omega arith, ground arith, λ k ik ki same. omega arith))
  | inr other ↦ rw other elim head [
    | inl (xe, empty) ↦ inl (
      xe,
      λ k ki same. elim (Bool-cases (k == i)) [
        | inl last ↦ let last' : k ≡ i = ground arith in ground (arith, ap s last')
        | inr before ↦ empty k (ground arith) same
      ],
    )
    | inr (xi, sx, gap) ↦ inr (
      omega arith,
      sx,
      λ k xk ki same. elim (Bool-cases (k == i)) [
        | inl last ↦ let last' : k ≡ i = ground arith in ground (arith, ap s last')
        | inr before ↦ gap k xk (ground arith) same
      ],
    )
  ]
]

-- Edge `i` stands in front of `x`.
abbrev pub Links : ℕ → ℕ → ℕ → (ℕ → Vertex) → (ℕ → Vertex) → Type 0
Links i e x f f' =
    ((f' i).next ≡ x)
    × ((f' i).prev ≡ e)
    × ((k : ℕ)
        → k < i
        → ((f' k).next ≡ (f k).next) × ((f' k).prev ≡ (if k == x then i else (f k).prev)))

Above-suc :
    (i e k x p : ℕ) (s : ℕ → ℕ)
    → k < i
    → k ≢ x
    → Head i e s (s i) x
    → Above i e all s k p
    → Above (suc i) e all s k p
Above-suc i e k x p s h kx head (inr (kp, pi, lp, sp, gap)) = inr (kp, omega arith, lp, sp, gap)
Above-suc i e k x p s h kx head (inl (pe, empty)) =
    let fresh : s i ≢ s k = λ same. elim head [
      | inl (_, none_there) ↦ none_there k h (sym same)
      | inr (xi, sx, gap) ↦ elim (Bool-cases (ltb k x)) [
        | inl low ↦ empty x (ground arith) xi refl (sx ∙ same)
        | inr high ↦ gap k (ground arith) h (sym same)
      ]
    ] in
    inl (
      pe,
      λ k' kk kn lk same. elim (Bool-cases (k' == i)) [
        | inl last ↦ let last' : k' ≡ i = ground arith in fresh (ap s (sym last') ∙ same)
        | inr before ↦ empty k' kk (ground arith) lk same
      ],
    )

pub Linked-suc :
    (i e x : ℕ) (s : ℕ → ℕ) (f f' : ℕ → Vertex)
    → i ≤ e
    → Linked i e all s f
    → Head i e s (s i) x
    → Links i e x f f'
    → Linked (suc i) e all s f'
Linked-suc i e x s f f' small linked head (next_i, prev_i, others) k h lk =
    elim (Bool-cases (k == i)) [
      | inl last ↦
          let last' : k ≡ i = ground arith in
          let below : Below e all s i x = elim head [
            | inl (xe, empty) ↦ inl (xe, λ k ki _. empty k ki)
            | inr (xi, sx, gap) ↦ inr (xi, refl, sx, λ k xk ki _. gap k xk ki)
          ] in
          rw (last', next_i, prev_i) (below, inl (refl, λ k ik ki _. absurd (omega arith)))
      | inr before ↦
          let ki : k < i = ground arith in
          let (below, above) = linked k ki refl in
          let (en, ep) = others k ki in
          rw (en, ep)
            (
              below,
              elim (Bool-cases (k == x)) [
                | inr other ↦
                    rw other (Above-suc i e k x (f k).prev s ki (λ q. ground arith) head above)
                | inl same ↦
                    let same' : k ≡ x = ground arith in
                    elim head [
                      | inl (xe, empty) ↦ absurd (omega (arith, xe, same'))
                      | inr (xi, sx, gap) ↦ rw same (
                          inr (
                            ki,
                            omega arith,
                            refl,
                            sym sx ∙ ap s (sym same'),
                            λ k' kk ki' _ q.
                                gap k' (omega (arith, same')) ki' (q ∙ ap s same' ∙ sx),
                          ))
                    ]
              ],
            )
    ]
