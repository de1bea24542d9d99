-- ===== src/PerfectHash/Graph/Waiting.antt =====
-- The queue of free edges: each has a slot that all other edges have left before it.
use protocache.Base.{
  ℕ, ◌*◌, ◌^◌, ◌<◌, ◌≤◌, ◌≡◌, ◌≢◌, refl, sym, ◌∙◌, inl, inr, true, false, Bool, Bool-cases, ◌==◌,
  ltb, ◌||◌, count, count_le, count_more, List, [], ◌∷◌, ◌++◌, append_assoc, append-nil, length,
  length-append, Run, done, arith,
}
use native.Mathlib.Nat.{mod-eq_of_lt}
use protocache.PerfectHash.Bits.Views.{
  Bytes, bit_at, marked, marked-BitsOf, test_and_set_bit-marked,
}
use protocache.PerfectHash.Graph.{Queue, Vertex, no_edge, alone, offer, offer_alone}

abbrev pub contains : ℕ → List ℕ → Bool
contains k [] = false
contains k (x ∷ xs) = k == x || contains k xs

pub contains-append :
    (k : ℕ) (xs ys : List ℕ) → contains k (xs ++ ys) ≡ (contains k xs || contains k ys)
contains-append k [] ys = refl
contains-append k (x ∷ xs) ys = ground (arith, contains-append k xs ys)

pub contains_left : (k : ℕ) (xs ys : List ℕ) → contains k xs ≡ true → contains k (xs ++ ys) ≡ true
contains_left k xs ys h = rw (contains-append k xs ys, h) refl

-- Edge `i` has a slot such that the other edges with this slot are in `seen`.
abbrev pub Free : ℕ → (ℕ → ℕ → ℕ) → ℕ → List ℕ → Type 0
Free n s i seen =
    (j : ℕ) × (j < 3) × ((k : ℕ) → k < n → k ≢ i → s j k ≡ s j i → contains k seen ≡ true)

-- Edges that are free one after another, behind those of `seen`.
abbrev pub Freed : ℕ → (ℕ → ℕ → ℕ) → List ℕ → List ℕ → Type 0
Freed n s seen [] = Unit
Freed n s seen (i ∷ post) =
    (i < n) × (contains i seen ≡ false) × Free n s i seen × Freed n s (seen ++ i ∷ []) post

Freed-append :
    (n : ℕ) (s : ℕ → ℕ → ℕ) (seen post : List ℕ) (i : ℕ)
    → i < n
    → contains i (seen ++ post) ≡ false
    → Free n s i (seen ++ post)
    → Freed n s seen post
    → Freed n s seen (post ++ i ∷ [])
Freed-append n s seen [] i h fresh free freed =
    let same = append-nil seen in (h, rw same at fresh, rw same at free, tt)
Freed-append n s seen (x ∷ post) i h fresh free (hx, fx, free_x, freed) =
    let same : seen ++ x ∷ post ≡ (seen ++ x ∷ []) ++ post =
      sym (append_assoc seen (x ∷ []) post) in
    (
      hx,
      fx,
      free_x,
      Freed-append n s (seen ++ x ∷ []) post i h (rw same at fresh) (rw same at free) freed,
    )

-- The queue, and the bits of the edges that are in it.
pub record QueueOf (n : ℕ) (s : ℕ → ℕ → ℕ) (q : Queue) : Type 0 where
  pub ordered : Freed n s [] q.free
  pub bytes : Bytes q.book
  pub room : n ≤ 8 * length q.book
  pub bits : (k : ℕ) → k < n → bit_at q.book k ≡ contains k q.free
  pub counted : length q.free ≡ count n (λ k. contains k q.free)

-- A queue that goes on.
pub record Grows (n : ℕ) (s : ℕ → ℕ → ℕ) (q : Queue) (r : Run Queue) : Type 0 where
  pub next : Queue
  pub returns : r ≡ done next
  pub queue : QueueOf n s next
  pub more : List ℕ
  pub extends : next.free ≡ q.free ++ more
  pub sized : length next.book ≡ length q.book

pub length_free : (n : ℕ) (s : ℕ → ℕ → ℕ) (q : Queue) → QueueOf n s q → length q.free ≤ n
length_free n s q of = omega (arith, of.counted, count_le n (λ k. contains k q.free))

pub Grows-stay : (n : ℕ) (s : ℕ → ℕ → ℕ) (q : Queue) → QueueOf n s q → Grows n s q (done q)
Grows-stay n s q of = record {
  next = q;
  returns = refl;
  queue = of;
  more = [];
  extends = sym (append-nil q.free);
  sized = refl;
}

module _ (w n : ℕ) (s : ℕ → ℕ → ℕ) (small : n ≤ no_edge w) (i : ℕ) (h : i < n) (q : Queue)
    (of : QueueOf n s q) where
  pub offer-Grows : Free n s i q.free → Grows n s q (offer w n i q)
  unfolding offer
  offer-Grows free =
      let test = test_and_set_bit-marked q.book i (omega (arith, of.room)) in
      let bit = of.bits i h in
      elim (Bool-cases (bit_at q.book i)) [
        | inl taken ↦ record {
          next = q;
          returns = rw (test, taken) refl;
          queue = of;
          more = [];
          extends = sym (append-nil q.free);
          sized = refl;
        }
        | inr clear ↦
            let fresh : contains i q.free ≡ false = sym bit ∙ clear in
            let next : Queue = record { free = q.free ++ i ∷ []; book = marked q.book i } in
            let m = marked-BitsOf q.book i of.bytes (omega (arith, of.room)) in
            let more : (k : ℕ) → contains k next.free ≡ (contains k q.free || k == i) =
              λ k. rw (contains-append k q.free (i ∷ [])) (ground arith) in
            let counted =
              count_more n i (λ k. contains k q.free) (λ k. contains k next.free) h fresh more in
            let fits : ltb (length q.free) n ≡ true =
              let all = count_le n (λ k. contains k next.free) in ground (arith, of.counted) in
            let exact = mod-eq_of_lt {n = i} {m = 2 ^ w} (omega arith) in
            record {
              next = next;
              returns = rw (test, clear, fits, exact) refl;
              queue = record {
                ordered = Freed-append n s [] q.free i h fresh free of.ordered;
                bytes = m.bytes;
                room = omega (arith, of.room, m.same_length);
                bits = λ k hk. m.values k ∙ rw (more k, of.bits k hk) (ground arith);
                counted = omega (arith, length-append q.free (i ∷ []), of.counted, counted);
              };
              more = i ∷ [];
              extends = refl;
              sized = m.same_length;
            }
      ]

  pub offer_alone-Grows :
      (v : Vertex)
      → (v.prev ≡ no_edge w → v.next ≡ no_edge w → Free n s i q.free)
      → Grows n s q (offer_alone w n i v q)
  unfolding offer_alone
  offer_alone-Grows v free = elim (Bool-cases (alone w v)) [
    | inl yes_alone ↦ rw yes_alone (offer-Grows (free (ground arith) (ground arith)))
    | inr linked ↦ rw linked (Grows-stay n s q of)
  ]
