-- ===== src/PerfectHash/Mapping/Distinct.antt =====
-- Mapping on the edges of a graph in the order in which it was torn.
use protocache.Base.{
  ℕ, ◌+◌, ◌*◌, ◌%◌, ◌<◌, ◌≤◌, ◌≡◌, ◌≢◌, refl, ap, length, sym, subst, ◌∙◌, inl, inr, ◌⊎◌, true,
  false, Bool, Bool-cases, ◌==◌, ◌||◌, List, [], ◌∷◌, get_elem?, Option, Option-cases, some, none,
  Run, done, arith, All, ltb,
}
use protocache.PerfectHash.Bits.Views.{pair_at, bit_at}
use protocache.PerfectHash.Graph.{Edge, Graph}
use protocache.PerfectHash.Mapping.{Tables, place, place_all}
use protocache.PerfectHash.Mapping.Placing.{own, HasRoom, Three, place-Placed}

-- The slots of an edge, each in its own section of `m`.
abbrev pub slot_a : Edge → ℕ
slot_a e = e.v0.slot

abbrev pub slot_b : ℕ → Edge → ℕ
slot_b m e = e.v1.slot + m

abbrev pub slot_c : ℕ → Edge → ℕ
slot_c m e = e.v2.slot + m * 2

abbrev pub InRange : ℕ → Edge → Type 0
InRange m e = (e.v0.slot < m) × (e.v1.slot < m) × (e.v2.slot < m)

-- Whether `q` is a slot of one of the edges.
abbrev pub touched : ℕ → ℕ → List Edge → Bool
touched m q [] = false
touched m q (e ∷ es) = q == slot_a e || (q == slot_b m e || (q == slot_c m e || touched m q es))

-- Each edge, in the order in which they became free, has a slot that no later one has.
abbrev pub Peels : ℕ → List Edge → Type 0
Peels m [] = Unit
Peels m (e ∷ es) =
    InRange m e
    × ((touched m (slot_a e) es ≡ false)
        ⊎ ((touched m (slot_b m e) es ≡ false) ⊎ (touched m (slot_c m e) es ≡ false)))
    × Peels m es

-- The slot that Locate finds for an edge.
abbrev pub own_slot : ℕ → (ℕ → ℕ) → Edge → ℕ
own_slot m f e = own f (slot_a e) (slot_b m e) (slot_c m e)

abbrev pub Apart : ℕ → (ℕ → ℕ) → List Edge → Type 0
Apart m f [] = Unit
Apart m f (e ∷ es) = All (λ d. own_slot m f d ≢ own_slot m f e) es × Apart m f es

abbrev pub owned : ℕ → (ℕ → ℕ) → ℕ → List Edge → Bool
owned m f q [] = false
owned m f q (e ∷ es) = q == own_slot m f e || owned m f q es

-- The edges whose numbers are listed.
abbrev pub edges_at : Graph → List ℕ → Option (List Edge)
edges_at g [] = some []
edges_at g (idx ∷ free) = elim (get_elem? g.edges idx) [
  | none ↦ none
  | some e ↦ elim (edges_at g free) [ none ↦ none | some es ↦ some (e ∷ es) ]
]

own-ne : (f : ℕ → ℕ) (a b c x : ℕ) → x ≢ a → x ≢ b → x ≢ c → x ≢ own f a b c
unfolding own
own-ne f a b c x ha hb hc = elim (Bool-cases ((f a + f b + f c) % 3 == 0)) [
  | inl e ↦ rw e ha
  | inr e ↦
      rw e elim (Bool-cases ((f a + f b + f c) % 3 == 1)) [ inl e' ↦ rw e' hb | inr e' ↦ rw e' hc ]
]

-- A change at a slot that no edge touches changes nothing for the edges.
module _ (m : ℕ) (f g : ℕ → ℕ) (x : ℕ) (same : (q : ℕ) → q ≢ x → g q ≡ f q) where
  not_slots :
      (e : Edge) (es : List Edge)
      → touched m x (e ∷ es) ≡ false
      → (x ≢ slot_a e) × (x ≢ slot_b m e) × (x ≢ slot_c m e) × (touched m x es ≡ false)
  not_slots e es h = ground arith

  own_slot-same :
      (e : Edge) (es : List Edge) → touched m x (e ∷ es) ≡ false → own_slot m g e ≡ own_slot m f e
  unfolding own
  own_slot-same e es h =
      let (na, nb, nc, _) = not_slots e es h in
      rw
        (
          same (slot_a e) (λ p. na (sym p)),
          same (slot_b m e) (λ p. nb (sym p)),
          same (slot_c m e) (λ p. nc (sym p)),
        )
        refl

  not_own : (es : List Edge) → touched m x es ≡ false → All (λ d. own_slot m g d ≢ x) es
  not_own [] h = tt
  not_own (e ∷ es) h =
      let (na, nb, nc, rest) = not_slots e es h in
      (λ p. own-ne g (slot_a e) (slot_b m e) (slot_c m e) x na nb nc (sym p), not_own es rest)

  All-same :
      (k : ℕ) (es : List Edge)
      → touched m x es ≡ false
      → All (λ d. own_slot m f d ≢ k) es
      → All (λ d. own_slot m g d ≢ k) es
  All-same k [] h all = tt
  All-same k (e ∷ es) h all =
      let (_, _, _, rest) = not_slots e es h in
      (λ p. all.0 (sym (own_slot-same e es h) ∙ p), All-same k es rest all.1)

  Apart-same : (es : List Edge) → touched m x es ≡ false → Apart m f es → Apart m g es
  Apart-same [] h apart = tt
  Apart-same (e ∷ es) h apart =
      let (_, _, _, rest) = not_slots e es h in
      (
        rw (own_slot-same e es h) (All-same (own_slot m f e) es rest apart.0),
        Apart-same es rest apart.1,
      )

  owned-same : (q : ℕ) (es : List Edge) → touched m x es ≡ false → owned m g q es ≡ owned m f q es
  owned-same q [] h = refl
  owned-same q (e ∷ es) h =
      let (_, _, _, rest) = not_slots e es h in rw (own_slot-same e es h, owned-same q es rest)

-- What Mapping has done when it has placed the edges `es`.
pub record Mapped (m : ℕ) (from : Tables) (es : List Edge) (r : Run Tables) : Type 0 where
  pub after : Tables
  pub returns : r ≡ done after
  pub has_room : HasRoom (m * 3) after
  pub sized : length after.bitmap ≡ length from.bitmap
  pub beyond : (q : ℕ) → m * 3 ≤ q → pair_at after.bitmap q ≡ pair_at from.bitmap q
  pub bits : (q : ℕ) → q < m * 3 → bit_at after.book q ≡ touched m q es
  pub clear : (q : ℕ) → q < m * 3 → bit_at after.book q ≡ false → pair_at after.bitmap q ≡ 3
  pub apart : Apart m (pair_at after.bitmap) es
  pub values :
      (q : ℕ) → q < m * 3 → ltb (pair_at after.bitmap q) 3 ≡ owned m (pair_at after.bitmap) q es

edges_at-cons :
    (g : Graph) (idx : ℕ) (free : List ℕ) (all : List Edge)
    → edges_at g (idx ∷ free) ≡ some all
    → (e : Edge) × (es : List Edge) × (get_elem? g.edges idx ≡ some e)
      × (edges_at g free ≡ some es)
      × (all ≡ e ∷ es)
edges_at-cons g idx free all h = elim (Option-cases (get_elem? g.edges idx)) [
  | inl gone ↦
      let clash : ◌≡◌ {A = Option (List Edge)} none (some all) = rw (gone, edges_at) at h in cc
  | inr (e, there) ↦ elim (Option-cases (edges_at g free)) [
    | inl gone ↦
        let clash : ◌≡◌ {A = Option (List Edge)} none (some all) =
          rw (there, gone, edges_at) at h in
        cc
    | inr (es, rest) ↦
        let same : ◌≡◌ {A = Option (List Edge)} (some (e ∷ es)) (some all) =
          rw (there, rest, edges_at) at h in
        (e, es, there, rest, cc)
  ]
]

none_of :
    (q a b c : ℕ) (r : Bool)
    → (q == a || (q == b || (q == c || r))) ≡ false
    → (q ≢ a) × (q ≢ b) × (q ≢ c) × (r ≡ false)
none_of q a b c r h = ground arith

module _ (m : ℕ) where
  -- One more edge.
  place-Mapped :
      (from : Tables) (e : Edge) (es : List Edge) (t : Tables) (r : Run Tables)
      → Mapped m from es r
      → Peels m (e ∷ es)
      → r ≡ done t
      → Mapped m from (e ∷ es) (place (slot_a e) (slot_b m e) (slot_c m e) t)
  place-Mapped from e es t r done_before peels eq =
      let old = done_before.after in
      let same : old ≡ t = cc in
      let (a_lt, b_lt, c_lt) = peels.0 in
      let three : Three (m * 3) (slot_a e) (slot_b m e) (slot_c m e) = record {
        ab = λ p. omega (arith, p);
        ac = λ p. omega (arith, p);
        bc = λ p. omega (arith, p);
        a_lt = omega arith;
        b_lt = omega arith;
        c_lt = omega arith;
      } in
      let room : HasRoom (m * 3) t = rw (← same) done_before.has_room in
      let bits : (q : ℕ) → q < m * 3 → bit_at t.book q ≡ touched m q es =
        rw (← same) done_before.bits in
      let clear : (q : ℕ) → q < m * 3 → bit_at t.book q ≡ false → pair_at t.bitmap q ≡ 3 =
        rw (← same) done_before.clear in
      let apart : Apart m (pair_at t.bitmap) es = rw (← same) done_before.apart in
      let values : (q : ℕ)
          → q < m * 3
          → ltb (pair_at t.bitmap q) 3 ≡ owned m (pair_at t.bitmap) q es =
        rw (← same) done_before.values in
      let some_clear =
        rw
          (
            ← bits (slot_a e) three.a_lt,
            ← bits (slot_b m e) three.b_lt,
            ← bits (slot_c m e) three.c_lt,
          )
          at (peels.1) in
      let p =
        place-Placed (m * 3) (slot_a e) (slot_b m e) (slot_c m e) t room three clear some_clear in
      let fresh : touched m p.slot es ≡ false = sym (bits p.slot p.slot_lt) ∙ p.clear in
      let f = pair_at t.bitmap in
      let f' = pair_at p.after.bitmap in
      record {
        after = p.after;
        returns = p.returns;
        has_room = p.has_room;
        sized = p.sized ∙ ap (λ (t : Tables). length t.bitmap) (sym same) ∙ done_before.sized;
        beyond = λ q h.
            let old_beyond : (q : ℕ) → m * 3 ≤ q → pair_at t.bitmap q ≡ pair_at from.bitmap q =
              rw (← same) done_before.beyond in
            p.values q (λ s. omega (arith, s, p.slot_lt)) ∙ old_beyond q h;
        bits = λ q h. p.bits q ∙ rw (bits q h) refl;
        clear = λ q h off.
            let (na, nb, nc, off') =
              none_of q (slot_a e) (slot_b m e) (slot_c m e) _ (sym (p.bits q) ∙ off) in
            let other : q ≢ p.slot =
              λ s. own-ne f' (slot_a e) (slot_b m e) (slot_c m e) q na nb nc (s ∙ sym p.owned) in
            p.values q other ∙ clear q h off';
        apart = (
          rw p.owned (not_own m f f' p.slot p.values es fresh),
          Apart-same m f f' p.slot p.values es fresh apart,
        );
        values = λ q h. elim (Bool-cases (q == p.slot)) [
          | inl at ↦
              let here : q ≡ p.slot = ground arith in
              let low : ltb (f' q) 3 ≡ true = rw here (ground (arith, p.below)) in
              rw (low, p.owned, at) refl
          | inr off ↦
              let other : q ≢ p.slot = ground arith in
              rw (p.owned, off, owned-same m f f' p.slot p.values q es fresh, p.values q other)
                (values q h)
        ];
      }

  -- The loop.
  pub place_all-Mapped :
      (g : Graph) (free : List ℕ) (es : List Edge) (t : Tables)
      → edges_at g free ≡ some es
      → Peels m es
      → HasRoom (m * 3) t
      → ((q : ℕ) → q < m * 3 → bit_at t.book q ≡ false)
      → ((q : ℕ) → q < m * 3 → pair_at t.bitmap q ≡ 3)
      → Mapped m t es (place_all g m free t)
  unfolding place_all
  place_all-Mapped g [] es t found peels room off full =
      let none_left : es ≡ [] = cc in
      rw none_left (record {
        after = t;
        returns = refl;
        has_room = room;
        sized = refl;
        beyond = λ q h. refl;
        bits = off;
        clear = λ q h _. full q h;
        apart = tt;
        values = λ q h. rw (full q h);
      })
  place_all-Mapped g (idx ∷ free) all t found peels room off full =
      let (e, es, there, rest, same) = edges_at-cons g idx free all found in
      let peels' : Peels m (e ∷ es) = subst (Peels m) same peels in
      let before = place_all-Mapped g free es t rest peels'.2 room off full in
      rw (same, before.returns, there)
        (place-Mapped t e es before.after (place_all g m free t) before peels' before.returns)
