-- ===== src/PerfectHash/Build/Perfect.antt =====
-- What Build looks for: a bitmap in which each key has a home of its own.
use protocache.Base.{
  count, count_none, count_tail, ◌-◌, count_more, count_full, count_same, ℕ, ◌+◌, ◌*◌, ◌%◌, ◌<◌,
  ◌≤◌, ◌≡◌, ◌≢◌, refl, ap, sym, ◌∙◌, inl, inr, ◌⊎◌, true, false, Bool-cases, ◌==◌, ltb, List, [],
  ◌∷◌, length, length-map, get_or, All, Run, arith,
}
use protocache.PerfectHash.Bits.{bitmap_size}
use protocache.PerfectHash.Bits.Views.{pair_at}
use protocache.PerfectHash.Bits.Prefix.{valid_at}
use protocache.PerfectHash.Graph.{Edge, Graph, Queue}
use protocache.PerfectHash.Graph.Views.{blank, section_of}
use protocache.PerfectHash.Graph.Waiting.{contains, QueueOf}
use protocache.PerfectHash.Mapping.{Tables}
use protocache.PerfectHash.Mapping.Placing.{own}
use protocache.PerfectHash.Mapping.Distinct.{
  Peels, Apart, own_slot, owned, Mapped, slot_a, slot_b, slot_c,
}
use protocache.PerfectHash.Mapping.Peeled.{edges_of}
use protocache.PerfectHash.Build.Homes.{home, slots_by, slot_in-lt}

-- Of the first `n` keys each has a home of its own, which is valid, and no other slot is valid.
pub record Perfect (m n seed : ℕ) (source : List (List ℕ)) (bitmap : List ℕ) : Type 0 where
  pub differ :
      (i k : ℕ)
      → i < n
      → k < n
      → i ≢ k
      → home m seed (pair_at bitmap) (get_or source i [])
        ≢ home m seed (pair_at bitmap) (get_or source k [])
  pub valid :
      (i : ℕ) → i < n → pair_at bitmap (home m seed (pair_at bitmap) (get_or source i [])) < 3
  pub counted : (k : ℕ) → m * 3 ≤ k → k ≤ bitmap_size m * 4 → count k (valid_at bitmap) ≡ n

own-cases : (f : ℕ → ℕ) (a b c : ℕ) → (own f a b c ≡ a) ⊎ ((own f a b c ≡ b) ⊎ (own f a b c ≡ c))
unfolding own
own-cases f a b c = elim (Bool-cases ((f a + f b + f c) % 3 == 0)) [
  | inl e ↦ inl (rw e refl)
  | inr e ↦ elim (Bool-cases ((f a + f b + f c) % 3 == 1)) [
    | inl e' ↦ inr (inl (rw (e, e') refl))
    | inr e' ↦ inr (inr (rw (e, e') refl))
  ]
]

pub own-lt : (f : ℕ → ℕ) (a b c n : ℕ) → a < n → b < n → c < n → own f a b c < n
own-lt f a b c n ha hb hc = elim (own-cases f a b c) [
  | inl e ↦ omega arith
  | inr other ↦ elim other [ inl e ↦ omega arith | inr e ↦ omega arith ]
]

module _ (m : ℕ) (f : ℕ → ℕ) where
  not_owned : (q : ℕ) (es : List Edge) → All (λ d. own_slot m f d ≢ q) es → owned m f q es ≡ false
  not_owned q [] h = refl
  not_owned q (e ∷ es) h =
      let rest = not_owned q es h.1 in
      let differ : (q == own_slot m f e) ≡ false = let ne = h.0 in ground arith in
      rw (differ, rest) refl

  -- There are as many owned slots as edges.
  pub count-owned :
      (es : List Edge) → Peels m es → Apart m f es → count (m * 3) (λ q. owned m f q es) ≡ length es
  count-owned [] peels apart = count_none (m * 3)
  count-owned (e ∷ es) peels apart =
      let ((a_lt, b_lt, c_lt), _, rest) = peels in
      let x = own_slot m f e in
      let x_lt : x < m * 3 =
        own-lt f (slot_a e) (slot_b m e) (slot_c m e) (m * 3) (omega arith) (omega arith)
          (omega arith) in
      let one_more =
        count_more (m * 3) x (λ q. owned m f q es) (λ q. owned m f q (e ∷ es)) x_lt
          (not_owned x es apart.0) (λ k. ground arith) in
      omega (arith, one_more, count-owned es rest apart.1)

  module _ (g : Graph) where
    All-contains :
        (P : Edge → Type 0) (free : List ℕ) (k : ℕ)
        → All P (edges_of g free)
        → contains k free ≡ true
        → P (get_or g.edges k blank)
    All-contains P [] k all inside = absurd (ground arith)
    All-contains P (x ∷ free) k all inside = elim (Bool-cases (k == x)) [
      | inl here ↦ let same : k ≡ x = ground arith in rw same all.0
      | inr later ↦ All-contains P free k all.1 (ground arith)
    ]

    pub Apart-contains :
        (free : List ℕ) (i k : ℕ)
        → Apart m f (edges_of g free)
        → contains i free ≡ true
        → contains k free ≡ true
        → i ≢ k
        → own_slot m f (get_or g.edges i blank) ≢ own_slot m f (get_or g.edges k blank)
    Apart-contains [] i k apart hi hk ne = absurd (ground arith)
    Apart-contains (x ∷ free) i k apart hi hk ne = elim (Bool-cases (i == x)) [
      | inl here ↦
          let same : i ≡ x = ground arith in
          let inside : contains k free ≡ true = ground arith in
          let far =
            All-contains (λ d. own_slot m f d ≢ own_slot m f (get_or g.edges x blank)) free k
              apart.0 inside in
          rw same (λ p. far (sym p))
      | inr far ↦ elim (Bool-cases (k == x)) [
        | inl here ↦
            let same : k ≡ x = ground arith in
            let inside : contains i free ≡ true = ground arith in
            rw same (
              All-contains (λ d. own_slot m f d ≢ own_slot m f (get_or g.edges x blank)) free i
                apart.0 inside)
        | inr later ↦ Apart-contains free i k apart.1 (ground arith) (ground arith) ne
      ]
    ]

  owned_contains :
      (g : Graph) (free : List ℕ) (k : ℕ)
      → contains k free ≡ true
      → owned m f (own_slot m f (get_or g.edges k blank)) (edges_of g free) ≡ true
  owned_contains g [] k inside = absurd (ground arith)
  owned_contains g (x ∷ free) k inside = elim (Bool-cases (k == x)) [
    | inl here ↦ let same : k ≡ x = ground arith in rw same (ground arith)
    | inr later ↦ let rest = owned_contains g free k (ground arith) in rw rest (ground arith)
  ]

-- When every edge has become free, Mapping gives such a bitmap.
pub Mapped-Perfect :
    (m n seed : ℕ) (source : List (List ℕ)) (g : Graph) (s : ℕ → ℕ → ℕ) (q : Queue) (from : Tables)
    (r : Run Tables)
    → s ≡ slots_by m seed source
    → 0 < m
    → ((j k : ℕ) → j < 3 → k < n → (section_of g j k).slot ≡ s j k)
    → QueueOf n s q
    → length q.free ≡ n
    → Peels m (edges_of g q.free)
    → (mapped : Mapped m from (edges_of g q.free) r)
    → ((x : ℕ) → m * 3 ≤ x → x < bitmap_size m * 4 → pair_at mapped.after.bitmap x ≡ 3)
    → Perfect m n seed source mapped.after.bitmap
Mapped-Perfect m n seed source g s q from r same pos slots of whole peels mapped beyond =
    let f = pair_at mapped.after.bitmap in
    let es = edges_of g q.free in
    let inside : (k : ℕ) → k < n → contains k q.free ≡ true =
      count_full n (λ k. contains k q.free) (sym of.counted ∙ whole) in
    let slots' : (j k : ℕ) → j < 3 → k < n → (section_of g j k).slot ≡ slots_by m seed source j k =
      rw same at slots in
    let at_home : (k : ℕ)
        → k < n
        → own_slot m f (get_or g.edges k blank) ≡ home m seed f (get_or source k []) =
      λ k h.
        rw (slots' 0 k (omega arith) h, slots' 1 k (omega arith) h, slots' 2 k (omega arith) h)
          refl in
    let home_lt : (k : ℕ) → home m seed f (get_or source k []) < m * 3 = λ k.
      own-lt f _ _ _ (m * 3) (omega (arith, slot_in-lt m seed 0 (get_or source k []) pos))
        (omega (arith, slot_in-lt m seed 1 (get_or source k []) pos))
        (omega (arith, slot_in-lt m seed 2 (get_or source k []) pos)) in
    record {
      differ = λ i k hi hk ne.
          rw (← at_home i hi, ← at_home k hk)
            (Apart-contains m f g q.free i k mapped.apart (inside i hi) (inside k hk) ne);
      valid = λ i hi.
          let there = owned_contains m f g q.free i (inside i hi) in
          let low : ltb (f (home m seed f (get_or source i []))) 3 ≡ true =
            mapped.values _ (home_lt i) ∙ rw (← at_home i hi) there in
          ground arith;
      counted = λ k h h'.
          let none_there : (x : ℕ)
              → m * 3 ≤ x
              → x < m * 3 + (k - m * 3)
              → valid_at mapped.after.bitmap x ≡ false =
            λ x hx hx'. let e = beyond x hx (omega arith) in rw e refl in
          let e : m * 3 + (k - m * 3) ≡ k = omega arith in
          ap (λ t. count t (valid_at mapped.after.bitmap)) (sym e)
          ∙ count_tail (k - m * 3) (m * 3) (valid_at mapped.after.bitmap) none_there
          ∙ count_same (m * 3) (valid_at mapped.after.bitmap) (λ x. owned m f x es) mapped.values
          ∙ count-owned m f es peels mapped.apart
          ∙ length-map q.free (λ k. get_or g.edges k blank)
          ∙ whole;
    }
