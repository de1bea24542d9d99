-- ===== src/Compress/Steps.antt =====
-- One step of `Decompress` on bytes of any origin: what it may touch.
use protocache.Base.{
  ℕ, ◌+◌, ◌-◌, ◌*◌, ◌/◌, ◌%◌, ◌^◌, ◌≤◌, ◌<◌, ◌≡◌, refl, inl, inr, List, ◌++◌, length, length-append,
  length-take, length-drop, take, drop, arith, All, All-drop, ◌==◌, ltb, leb, true, Bool-cases,
  ◌||◌, Run, done, ◌>>=◌, access, Cursor, store, advance, store_fits, load_fits, length-after-store,
  bit_and, bit_and_mask, word_bytes, agree_below, agree_below→eq,
}
use protocache.Compress.{Unpacked, unpack, unpack_fill, unpack_plain}
use protocache.Compress.Pick.{IsByte}

-- Between two steps: the output has not passed `tail`, and seven bytes of room lie behind it.
abbrev pub Sound : ℕ → Cursor → Type 0
Sound tail c = (length c.before ≤ tail) × (length c.before + length c.after ≡ tail + 7)

-- The run `r` comes to an end without leaving its allocations.
pub record Safe (tail : ℕ) (src : List ℕ) (r : Run Unpacked) : Type 0 where
  pub next : Unpacked
  pub returns : r ≡ done next
  pub shorter : length next.src ≤ length src
  pub bytes : All IsByte src → All IsByte next.src
  pub sound : Sound tail next.dest

length-before-advance :
    (n : ℕ) (c : Cursor)
    → length (advance n c).before + length (advance n c).after ≡ length c.before + length c.after
unfolding advance
length-before-advance n c =
    omega
      (arith, length-append c.before (take n c.after), length-take n c.after, length-drop n c.after)

-- Behind a store of `ws` and a step of `n` the output is sound if it does not pass `tail`.
Sound-store :
    (tail n : ℕ) (ws : List ℕ) (c : Cursor)
    → Sound tail c
    → n ≤ length ws
    → length ws ≤ length c.after
    → length c.before + n ≤ tail
    → Sound tail (advance n (record c { after = ws ++ drop (length ws) c.after }))
Sound-store tail n ws c s h k fits =
    let total = length-before-advance n (record c { after = ws ++ drop (length ws) c.after }) in
    let left = length-after-store n ws c.after c.before h k in
    let kept = length-append ws (drop (length ws) c.after) in
    omega (arith, total, left, kept, length-drop (length ws) c.after)

unpack_fill-Safe :
    (tail mark : ℕ) (src : List ℕ) (c : Cursor)
    → Sound tail c
    → Safe tail src (unpack_fill tail mark src c)
unfolding unpack_fill
unpack_fill-Safe tail mark src c s =
    elim (Bool-cases (ltb tail (length c.before + (bit_and mark 3 + 1)))) [
      | inl e ↦
          rw e
            (record { next = _; returns = refl; shorter = omega arith; bytes = λ h. h; sound = s })
      | inr e ↦
          let few = bit_and_mask 2 mark in
          rw
            (
              e,
              store_fits (word_bytes ((2 ^ 32 - bit_and (mark / 2 ^ 2) 1) % 2 ^ 32)) c
                  (ground arith),
            )
            (record {
              next = _;
              returns = refl;
              shorter = omega arith;
              bytes = λ h. h;
              sound =
                  Sound-store tail (bit_and mark 3 + 1)
                    (word_bytes ((2 ^ 32 - bit_and (mark / 2 ^ 2) 1) % 2 ^ 32)) c s
                    (omega (arith, few)) (ground arith) (ground arith);
            })
    ]

unpack_plain-Safe :
    (tail l : ℕ) (src : List ℕ) (c : Cursor)
    → 1 ≤ l
    → l ≤ 7
    → Sound tail c
    → Safe tail src (unpack_plain tail l src c)
unfolding unpack_plain
unpack_plain-Safe tail l src c some_bytes few s =
    elim (Bool-cases (ltb (length src) l || ltb tail (length c.before + l))) [
      | inl e ↦
          rw e
            (record { next = _; returns = refl; shorter = omega arith; bytes = λ h. h; sound = s })
      | inr e ↦ rw e (elim (Bool-cases (leb 8 (length src))) [
        | inl wide ↦
            rw (wide, load_fits 8 src (ground arith))
              (stored 8 (omega arith) (omega arith) (ground arith) (ground arith))
        | inr narrow ↦
            rw (narrow, load_fits l src (ground arith))
              (stored l (omega arith) (omega arith) (ground arith) (ground arith))
      ])
    ]
  where
    stored :
        (n : ℕ)
        → l ≤ n
        → n ≤ 8
        → n ≤ length src
        → length c.before + l ≤ tail
        → Safe tail src (
            access (store (take n src) c) >>= λ dest.
            done (record { good = true; src = drop l src; dest = advance l dest }))
    stored n p q inside fits =
        let long = length-take n src in
        rw (store_fits (take n src) c (omega (arith, long))) (record {
          next = _;
          returns = refl;
          shorter = omega (arith, length-drop l src);
          bytes = All-drop IsByte l src;
          sound =
              Sound-store tail l (take n src) c s (omega (arith, long)) (omega (arith, long)) fits;
        })

pub fill_bit : (m : ℕ) → m < 16 → bit_and m 8 ≡ m / 8 * 8
unfolding agree_below
fill_bit = agree_below→eq _ _ 16 refl

pub unpack-Safe :
    (tail mark : ℕ) (src : List ℕ) (c : Cursor)
    → mark < 16
    → Sound tail c
    → Safe tail src (unpack tail mark src c)
unfolding unpack
unpack-Safe tail mark src c h s = elim (Bool-cases (bit_and mark 8 == 0)) [
  | inl plain ↦ elim (Bool-cases (mark == 0)) [
    | inl e ↦
        rw (plain, e)
          (record { next = _; returns = refl; shorter = omega arith; bytes = λ k. k; sound = s })
    | inr e ↦
        rw (plain, e)
          (unpack_plain-Safe tail mark src c (ground arith) (ground (arith, fill_bit mark h)) s)
  ]
  | inr fill ↦ rw fill (unpack_fill-Safe tail mark src c s)
]
