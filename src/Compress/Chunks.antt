-- ===== src/Compress/Chunks.antt =====
-- One step of `Decompress` on a packed chunk: it reads the chunk back.
use protocache.Base.{
  ℕ, zero, suc, ◌+◌, ◌-◌, ◌/◌, ◌%◌, ◌^◌, ◌≤◌, ◌≡◌, refl, ap, ◌∙◌, List, ◌∷◌, ◌++◌, length,
  length-append, length-take, take, replicate, arith, bit_and, ◌==◌, leb, ltb, true, false,
  Bool-cases, inl, inr, access, Run, done, ◌>>=◌, Cursor, store, advance, store_fits, load_fits,
  before-advance, length-after-store, take-take, word_bytes, take-length-append, drop-length-append,
  length-replicate,
}
use protocache.Compress.{Unpacked, unpack, unpack_fill, unpack_plain}
use protocache.Compress.Format.{Chunk, zeros, ones, plain}
use protocache.Compress.Steps.{fill_bit}

-- Room for `x` before the declared end `tail`, and seven bytes behind it.
abbrev pub HasRoom : ℕ → List ℕ → Cursor → Type 0
HasRoom tail x c =
    (length c.before + length x ≤ tail) × (length c.before + length c.after ≡ tail + 7)

-- The run `r` from `c` writes `x` and leaves the source `rest`.
pub record Reads (x rest : List ℕ) (c : Cursor) (r : Run Unpacked) : Type 0 where
  pub dest : Cursor
  pub returns : r ≡ done (record { good = true; src = rest; dest = dest })
  pub written : dest.before ≡ c.before ++ x
  pub room_left : length dest.after + length x ≡ length c.after

zeros_values :
    (n : ℕ)
    → 1 ≤ n
    → n ≤ 4
    → (bit_and (7 + n) 3 + 1 ≡ n)
      × (word_bytes ((2 ^ 32 - bit_and ((7 + n) / 2 ^ 2) 1) % 2 ^ 32) ≡ replicate 4 0)
zeros_values zero p q = absurd (omega arith)
zeros_values (suc zero) p q = (refl, refl)
zeros_values (suc (suc zero)) p q = (refl, refl)
zeros_values (suc (suc (suc zero))) p q = (refl, refl)
zeros_values (suc (suc (suc (suc zero)))) p q = (refl, refl)
zeros_values (suc (suc (suc (suc (suc n))))) p q = absurd (omega arith)

ones_values :
    (n : ℕ)
    → 1 ≤ n
    → n ≤ 4
    → (bit_and (11 + n) 3 + 1 ≡ n)
      × (word_bytes ((2 ^ 32 - bit_and ((11 + n) / 2 ^ 2) 1) % 2 ^ 32) ≡ replicate 4 255)
ones_values zero p q = absurd (omega arith)
ones_values (suc zero) p q = (refl, refl)
ones_values (suc (suc zero)) p q = (refl, refl)
ones_values (suc (suc (suc zero))) p q = (refl, refl)
ones_values (suc (suc (suc (suc zero)))) p q = (refl, refl)
ones_values (suc (suc (suc (suc (suc n))))) p q = absurd (omega arith)

take-replicate : (n m b : ℕ) → n ≤ m → take n (replicate m b) ≡ replicate n b
take-replicate zero m b h = refl
take-replicate (suc n) zero b h = absurd (omega arith)
take-replicate (suc n) (suc m) b h = ap (◌∷◌ b) (take-replicate n m b (omega arith))

-- A store of four equal bytes, of which the first `n` count.
unpack_fill-Reads :
    (tail mark n b : ℕ) (src : List ℕ) (c : Cursor)
    → n ≤ 4
    → bit_and mark 3 + 1 ≡ n
    → word_bytes ((2 ^ 32 - bit_and (mark / 2 ^ 2) 1) % 2 ^ 32) ≡ replicate 4 b
    → length c.before + n ≤ tail
    → 4 ≤ length c.after
    → Reads (replicate n b) src c (unpack_fill tail mark src c)
unfolding unpack_fill
unpack_fill-Reads tail mark n b src c few count value fits room =
    let inside : ltb tail (length c.before + n) ≡ false = ground arith in
    rw (count, value, inside, store_fits (replicate 4 b) c room)
      (record {
        dest = _;
        returns = refl;
        written =
            before-advance n (replicate 4 b) _ c.before few
            ∙ ap (◌++◌ c.before) (take-replicate n 4 b few);
        room_left = omega (
          arith,
          length-after-store n (replicate 4 b) c.after c.before few room,
          length-replicate n b,
        );
      })

unpack_plain-Reads :
    (tail : ℕ) (bs rest : List ℕ) (c : Cursor)
    → length bs ≤ 7
    → length c.before + length bs ≤ tail
    → 8 ≤ length c.after
    → Reads bs rest c (unpack_plain tail (length bs) (bs ++ rest) c)
unfolding unpack_plain
unpack_plain-Reads tail bs rest c few fits room =
    let there : ltb (length (bs ++ rest)) (length bs) ≡ false =
      ground (arith, length-append bs rest) in
    let inside : ltb tail (length c.before + length bs) ≡ false = ground arith in
    rw (there, inside, drop-length-append bs rest)
      (elim (Bool-cases (leb 8 (length (bs ++ rest)))) [
        | inl e ↦
            rw (e, load_fits 8 (bs ++ rest) (ground arith)) (stored 8 (omega arith) (omega arith))
        | inr e ↦
            rw (e, load_fits (length bs) (bs ++ rest) (omega (arith, length-append bs rest)))
              (stored (length bs) (omega arith) (omega arith))
      ])
  where
    stored :
        (n : ℕ)
        → length bs ≤ n
        → n ≤ 8
        → Reads bs rest c (
            access (store (take n (bs ++ rest)) c) >>= λ dest.
            done (record { good = true; src = rest; dest = advance (length bs) dest }))
    stored n p q =
        let ws = take n (bs ++ rest) in
        let long : length bs ≤ length ws =
          omega (arith, length-take n (bs ++ rest), length-append bs rest) in
        let short : length ws ≤ length c.after = omega (arith, length-take n (bs ++ rest)) in
        rw (store_fits ws c short) (record {
          dest = _;
          returns = refl;
          written =
              before-advance (length bs) ws _ c.before long
              ∙ ap (◌++◌ c.before)
                  (take-take (length bs) n (bs ++ rest) p ∙ take-length-append bs rest);
          room_left = length-after-store (length bs) ws c.after c.before long short;
        })

-- One chunk of the format is read back.
pub unpack-Reads :
    {m : ℕ} {x p : List ℕ} (tail : ℕ) (rest : List ℕ) (c : Cursor)
    → Chunk m x p
    → HasRoom tail x c
    → Reads x rest c (unpack tail m (p ++ rest) c)
unfolding unpack
unpack-Reads tail rest c (zeros n lo hi) room =
    let bit : (bit_and (7 + n) 8 == 0) ≡ false = ground (arith, fill_bit (7 + n)) in
    let (count, value) = zeros_values n lo hi in
    let long = length-replicate {A = ℕ} n 0 in
    rw bit (
      unpack_fill-Reads tail (7 + n) n 0 rest c hi count value (omega (arith, long))
        (omega (arith, long)))
unpack-Reads tail rest c (ones n lo hi) room =
    let bit : (bit_and (11 + n) 8 == 0) ≡ false = ground (arith, fill_bit (11 + n)) in
    let (count, value) = ones_values n lo hi in
    let long = length-replicate {A = ℕ} n 255 in
    rw bit (
      unpack_fill-Reads tail (11 + n) n 255 rest c hi count value (omega (arith, long))
        (omega (arith, long)))
unpack-Reads tail rest c (plain bs lo hi) room =
    let bit : (bit_and (length bs) 8 == 0) ≡ true = ground (arith, fill_bit (length bs)) in
    let some_bytes : (length bs == 0) ≡ false = ground arith in
    rw (bit, some_bytes) (unpack_plain-Reads tail bs rest c hi room.0 (omega arith))
