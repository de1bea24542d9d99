-- ===== src/PerfectHash/Mapping/Placing.antt =====
-- One round of Mapping: an edge with a clear slot gets a slot of its own.
use protocache.Base.{
  ℕ, ◌+◌, ◌-◌, ◌*◌, ◌%◌, ◌<◌, ◌≤◌, ◌≡◌, ◌≢◌, refl, ◌∙◌, inl, inr, ◌⊎◌, true, false, Bool,
  Bool-cases, ◌==◌, ◌||◌, if◌then◌else◌, List, length, Run, done, arith,
}
use protocache.PerfectHash.Bits.Views.{
  Bytes, pair_at, pair_at-le, bit2-pair_at, set_bit2_on11-PairsOf, bit_at, marked, marked-BitsOf,
  set_bit-marked, test_and_set_bit-marked,
}
use protocache.PerfectHash.Mapping.{Tables, settle, place, place_second, place_third}

-- The slot that an edge's values point at.
unfoldable pub own : (ℕ → ℕ) → ℕ → ℕ → ℕ → ℕ
own f a b c = let k = (f a + f b + f c) % 3 in if k == 0 then a else if k == 1 then b else c

-- Tables with room for `n` slots.
pub record HasRoom (n : ℕ) (t : Tables) : Type 0 where
  pub book_bytes : Bytes t.book
  pub bitmap_bytes : Bytes t.bitmap
  pub book_room : n ≤ 8 * length t.book
  pub bitmap_room : n ≤ 4 * length t.bitmap

-- Three different slots below `n`.
pub record Three (n a b c : ℕ) : Type 0 where
  pub ab : a ≢ b
  pub ac : a ≢ c
  pub bc : b ≢ c
  pub a_lt : a < n
  pub b_lt : b < n
  pub c_lt : c < n

-- What a round leaves: the edge's own slot was clear before, its value alone has changed, and all three
-- slots are taken.
pub record Placed (n a b c : ℕ) (t : Tables) (r : Run Tables) : Type 0 where
  pub after : Tables
  pub returns : r ≡ done after
  pub has_room : HasRoom n after
  pub slot : ℕ
  pub clear : bit_at t.book slot ≡ false
  pub slot_lt : slot < n
  pub sized : length after.bitmap ≡ length t.bitmap
  pub below : pair_at after.bitmap slot < 3
  pub owned : own (pair_at after.bitmap) a b c ≡ slot
  pub values : (q : ℕ) → q ≢ slot → pair_at after.bitmap q ≡ pair_at t.bitmap q
  pub bits : (q : ℕ) → bit_at after.book q ≡ (q == a || (q == b || (q == c || bit_at t.book q)))

module _ (f : ℕ → ℕ) (a b c : ℕ) where
  own_first :
      (x y : ℕ) → f a ≡ (6 - (x + y)) % 3 → f b ≡ x → f c ≡ y → x ≤ 3 → y ≤ 3 → own f a b c ≡ a
  unfolding own
  own_first x y ea eb ec hx hy = let k : (f a + f b + f c) % 3 ≡ 0 = omega arith in rw k

  own_second :
      (x y : ℕ) → f b ≡ (7 - (x + y)) % 3 → f a ≡ x → f c ≡ y → x ≤ 3 → y ≤ 3 → own f a b c ≡ b
  unfolding own
  own_second x y eb ea ec hx hy = let k : (f a + f b + f c) % 3 ≡ 1 = omega arith in rw k

  own_third :
      (x y : ℕ) → f c ≡ (8 - (x + y)) % 3 → f a ≡ x → f b ≡ y → x ≤ 3 → y ≤ 3 → own f a b c ≡ c
  unfolding own
  own_third x y ec ea eb hx hy = let k : (f a + f b + f c) % 3 ≡ 2 = omega arith in rw k

any_of :
    (x y z r : Bool)
    → (if z then true else if y then true else if x then true else r) ≡ (x || (y || (z || r)))
any_of true true true r = refl
any_of true true false r = refl
any_of true false true r = refl
any_of true false false r = refl
any_of false true true r = refl
any_of false true false r = refl
any_of false false true r = refl
any_of false false false r = refl

-- The same where the first bits are set already.
any_of_two :
    (x y z r : Bool)
    → r ≡ (x || r)
    → (if z then true else if y then true else r) ≡ (x || (y || (z || r)))
any_of_two true true true r e = refl
any_of_two true true false r e = refl
any_of_two true false true r e = refl
any_of_two true false false r e = e
any_of_two false true true r e = refl
any_of_two false true false r e = refl
any_of_two false false true r e = refl
any_of_two false false false r e = refl

any_of_one :
    (x y z r : Bool)
    → r ≡ (x || r)
    → r ≡ (y || r)
    → (if z then true else r) ≡ (x || (y || (z || r)))
any_of_one true y true r e e' = refl
any_of_one true y false r e e' = e
any_of_one false true true r e e' = refl
any_of_one false true false r e e' = e'
any_of_one false false true r e e' = refl
any_of_one false false false r e e' = refl

taken_already :
    (book : List ℕ) (a q : ℕ) → bit_at book a ≡ true → bit_at book q ≡ (q == a || bit_at book q)
taken_already book a q gone = elim (Bool-cases (q == a)) [
  | inl same ↦ let e : q ≡ a = ground arith in rw (same, e) gone
  | inr differ ↦ rw differ refl
]

module _ (n : ℕ) where
  -- The value of the slot `x`, from those of the two others.
  settle-PairsOf :
      (k x y z : ℕ) (t : Tables)
      → HasRoom n t
      → x < n
      → y < n
      → z < n
      → pair_at t.bitmap x ≡ 3
      → (bitmap : List ℕ) × (settle k x y z t ≡ done (record t { bitmap = bitmap }))
        × HasRoom n (record t { bitmap = bitmap })
        × ((q : ℕ)
            → pair_at bitmap q ≡ (
                if q == x
                then (k - (pair_at t.bitmap y + pair_at t.bitmap z)) % 3
                else pair_at t.bitmap q))
        × (length bitmap ≡ length t.bitmap)
  unfolding settle
  settle-PairsOf k x y z t h hx hy hz e =
      let v = (k - (pair_at t.bitmap y + pair_at t.bitmap z)) % 3 in
      let p = set_bit2_on11-PairsOf t.bitmap x v h.bitmap_bytes (omega arith) (omega arith) e in
      (
        p.next,
        rw (
          bit2-pair_at t.bitmap y (omega arith),
          bit2-pair_at t.bitmap z (omega arith),
          p.returns,
        ),
        record {
          book_bytes = h.book_bytes;
          bitmap_bytes = p.bytes;
          book_room = h.book_room;
          bitmap_room = omega arith;
        },
        p.values,
        p.same_length,
      )

  -- A slot is taken.
  take_slot :
      (x : ℕ) (t : Tables) → HasRoom n t → x < n → HasRoom n (record t { book = marked t.book x })
  take_slot x t h hx =
      let b = marked-BitsOf t.book x h.book_bytes (omega arith) in
      record {
        book_bytes = b.bytes;
        bitmap_bytes = h.bitmap_bytes;
        book_room = omega arith;
        bitmap_room = h.bitmap_room;
      }

  -- The first slot is clear.
  place_first :
      (a b c : ℕ) (t : Tables)
      → HasRoom n t
      → Three n a b c
      → bit_at t.book a ≡ false
      → pair_at t.bitmap a ≡ 3
      → Placed n a b c t (place a b c t)
  unfolding place
  place_first a b c t h three clear full =
      let book1 = marked t.book a in
      let book2 = marked book1 b in
      let book3 = marked book2 c in
      let h1 = take_slot a t h three.a_lt in
      let h2 = take_slot b (record t { book = book1 }) h1 three.b_lt in
      let h3 = take_slot c (record t { book = book2 }) h2 three.c_lt in
      let b1 = marked-BitsOf t.book a h.book_bytes (omega arith) in
      let b2 = marked-BitsOf book1 b h1.book_bytes (omega arith) in
      let b3 = marked-BitsOf book2 c h2.book_bytes (omega arith) in
      let (bitmap, e, room, values, sized) =
        settle-PairsOf 6 a b c (record t { book = book3 }) h3 three.a_lt three.b_lt three.c_lt
          full in
      record {
        after = record { book = book3; bitmap = bitmap };
        returns = rw (
          test_and_set_bit-marked t.book a (omega arith),
          clear,
          set_bit-marked book1 b (omega arith),
          set_bit-marked book2 c (omega arith),
          e,
        );
        has_room = room;
        sized = sized;
        slot = a;
        clear = clear;
        slot_lt = three.a_lt;
        below = ground (arith, values a);
        owned =
            own_first (pair_at bitmap) a b c _ _ (values a ∙ ground arith) (values b ∙ ground arith)
              (values c ∙ ground arith) (pair_at-le t.bitmap b) (pair_at-le t.bitmap c);
        values = λ q ne. values q ∙ ground arith;
        bits =
            λ q. b3.values q ∙ rw (b2.values q, b1.values q) (any_of (q == a) (q == b) (q == c) _);
      }

  place_second-Placed :
      (a b c : ℕ) (t : Tables)
      → HasRoom n t
      → Three n a b c
      → bit_at t.book a ≡ true
      → bit_at t.book b ≡ false
      → pair_at t.bitmap b ≡ 3
      → Placed n a b c t (place_second a b c t)
  unfolding place_second
  place_second-Placed a b c t h three gone clear full =
      let book1 = marked t.book b in
      let book2 = marked book1 c in
      let h1 = take_slot b t h three.b_lt in
      let h2 = take_slot c (record t { book = book1 }) h1 three.c_lt in
      let b1 = marked-BitsOf t.book b h.book_bytes (omega arith) in
      let b2 = marked-BitsOf book1 c h1.book_bytes (omega arith) in
      let (bitmap, e, room, values, sized) =
        settle-PairsOf 7 b a c (record t { book = book2 }) h2 three.b_lt three.a_lt three.c_lt
          full in
      record {
        after = record { book = book2; bitmap = bitmap };
        returns = rw (
          test_and_set_bit-marked t.book b (omega arith),
          clear,
          set_bit-marked book1 c (omega arith),
          e,
        );
        has_room = room;
        sized = sized;
        slot = b;
        clear = clear;
        slot_lt = three.b_lt;
        below = ground (arith, values b);
        owned =
            own_second (pair_at bitmap) a b c _ _ (values b ∙ ground arith)
              (values a ∙ ground arith) (values c ∙ ground arith) (pair_at-le t.bitmap a)
              (pair_at-le t.bitmap c);
        values = λ q ne. values q ∙ ground arith;
        bits = λ q.
            b2.values q
            ∙ rw (b1.values q)
                (any_of_two (q == a) (q == b) (q == c) _ (taken_already t.book a q gone));
      }

  place_third-Placed :
      (a b c : ℕ) (t : Tables)
      → HasRoom n t
      → Three n a b c
      → bit_at t.book a ≡ true
      → bit_at t.book b ≡ true
      → bit_at t.book c ≡ false
      → pair_at t.bitmap c ≡ 3
      → Placed n a b c t (place_third a b c t)
  unfolding place_third
  place_third-Placed a b c t h three gone gone' clear full =
      let book1 = marked t.book c in
      let h1 = take_slot c t h three.c_lt in
      let b1 = marked-BitsOf t.book c h.book_bytes (omega arith) in
      let (bitmap, e, room, values, sized) =
        settle-PairsOf 8 c a b (record t { book = book1 }) h1 three.c_lt three.a_lt three.b_lt
          full in
      record {
        after = record { book = book1; bitmap = bitmap };
        returns = rw (test_and_set_bit-marked t.book c (omega arith), clear, e);
        has_room = room;
        sized = sized;
        slot = c;
        clear = clear;
        slot_lt = three.c_lt;
        below = ground (arith, values c);
        owned =
            own_third (pair_at bitmap) a b c _ _ (values c ∙ ground arith) (values a ∙ ground arith)
              (values b ∙ ground arith) (pair_at-le t.bitmap a) (pair_at-le t.bitmap b);
        values = λ q ne. values q ∙ ground arith;
        bits = λ q.
            b1.values q
            ∙ any_of_one (q == a) (q == b) (q == c) _ (taken_already t.book a q gone)
                (taken_already t.book b q gone');
      }

  -- A taken slot leaves the tables as they are.
  pass_first :
      (a b c : ℕ) (t : Tables)
      → a < 8 * length t.book
      → bit_at t.book a ≡ true
      → place a b c t ≡ place_second a b c t
  unfolding place
  pass_first a b c t h gone = rw (test_and_set_bit-marked t.book a h, gone)

  pass_second :
      (a b c : ℕ) (t : Tables)
      → b < 8 * length t.book
      → bit_at t.book b ≡ true
      → place_second a b c t ≡ place_third a b c t
  unfolding place_second
  pass_second a b c t h gone = rw (test_and_set_bit-marked t.book b h, gone)

  pub place-Placed :
      (a b c : ℕ) (t : Tables)
      → HasRoom n t
      → Three n a b c
      → ((q : ℕ) → q < n → bit_at t.book q ≡ false → pair_at t.bitmap q ≡ 3)
      → (bit_at t.book a ≡ false) ⊎ ((bit_at t.book b ≡ false) ⊎ (bit_at t.book c ≡ false))
      → Placed n a b c t (place a b c t)
  place-Placed a b c t h three all3 some_clear = elim (Bool-cases (bit_at t.book a)) [
    | inr clear ↦ place_first a b c t h three clear (all3 a three.a_lt clear)
    | inl gone ↦ rw (pass_first a b c t (omega arith) gone) elim (Bool-cases (bit_at t.book b)) [
      | inr clear ↦ place_second-Placed a b c t h three gone clear (all3 b three.b_lt clear)
      | inl gone' ↦ rw (pass_second a b c t (omega arith) gone') elim some_clear [
        | inl clear ↦ cc
        | inr (inl clear) ↦ cc
        | inr (inr clear) ↦
            place_third-Placed a b c t h three gone gone' clear (all3 c three.c_lt clear)
      ]
    ]
  ]
