-- ===== src/Compress/Encode.antt =====
-- `compress_loop` writes a packed form of its source, and the room that `Compress` reserves is
-- enough, the stores of eight bytes included.
use protocache.Base.{
  ℕ, ◌+◌, ◌*◌, ◌/◌, ◌%◌, ◌^◌, ◌≤◌, ◌<◌, min, ◌≡◌, refl, ap, subst, ◌∙◌, sym, ◌⊎◌, inl, inr, true,
  false, List, [], ◌∷◌, ◌++◌, length, length-append, length-take, length-drop, take, drop, ◌==◌,
  arith, Bool-cases, bit_and, bit_or, Run, done, ◌>>=◌, access, Cursor, store, advance, store_fits,
  load_fits, take-take, take-length-append, take-append-left, append-nil, append_assoc, bit_or_high,
  leb, agree_below, agree_below→eq,
}
use native.Mathlib.Nat.{mod-eq_of_lt}
use protocache.Compress.{copy, put_byte, put_chunk}
use protocache.Compress.Format.{Chunk, zeros, ones, plain}

-- The run `r` from `c` puts `p` before the pointer and stays inside the allocation.
pub record Writes (p : List ℕ) (c : Cursor) (r : Run Cursor) : Type 0 where
  pub dest : Cursor
  pub returns : r ≡ done dest
  pub written : dest.before ≡ c.before ++ p
  pub room_left : length dest.after + length p ≡ length c.after

-- One run after another.
pub Writes-append :
    (p q : List ℕ) (c : Cursor) (r : Run Cursor) (k : Cursor → Run Cursor)
    → (w : Writes p c r) → Writes q w.dest (k w.dest)
    → Writes (p ++ q) c (r >>= k)
Writes-append p q c r k w v = record {
  dest = v.dest;
  returns = rw w.returns v.returns;
  written = v.written ∙ ap (λ b. b ++ q) w.written ∙ append_assoc c.before p q;
  room_left = omega (arith, length-append p q, w.room_left, v.room_left);
}

store-Writes :
    (n : ℕ) (ws : List ℕ) (c : Cursor)
    → n ≤ length ws
    → length ws ≤ length c.after
    → Writes (take n ws) c (access (store ws c) >>= λ dest. done (advance n dest))
unfolding advance
store-Writes n ws c h k = rw (store_fits ws c k) (record {
  dest = _;
  returns = refl;
  written = ap (◌++◌ c.before) (take-append-left n ws _ h);
  room_left = omega (
    arith,
    length-drop n (ws ++ drop (length ws) c.after),
    length-append ws (drop (length ws) c.after),
    length-drop (length ws) c.after,
    length-take n ws,
  );
})

pub put_byte-Writes : (v : ℕ) (c : Cursor) → 1 ≤ length c.after → Writes (v ∷ []) c (put_byte v c)
unfolding put_byte
put_byte-Writes v c h = store-Writes 1 (v ∷ []) c (omega arith) (omega arith)

copy-Writes :
    (s : List ℕ) (l : ℕ) (c : Cursor)
    → l ≤ length s
    → l ≤ 8
    → min 8 (length s) ≤ length c.after
    → Writes (take l s) c (copy s l c)
unfolding copy
copy-Writes s l c h k room = elim (Bool-cases (leb 8 (length s))) [
  | inl e ↦
      rw (e, load_fits 8 s (ground arith))
        (subst (λ p. Writes p c (access (store (take 8 s) c) >>= λ dest. done (advance l dest)))
          (take-take l 8 s k)
          (store-Writes l (take 8 s) c (ground (arith, length-take 8 s))
            (ground (arith, length-take 8 s))))
  | inr e ↦
      rw (e, load_fits l s h)
        (subst (λ p. Writes p c (access (store (take l s) c) >>= λ dest. done (advance l dest)))
          (take-take l l s (omega arith))
          (store-Writes l (take l s) c (omega (arith, length-take l s))
            (ground (arith, length-take l s))))
]

pub no_bytes : (c : Cursor) → Writes [] c (done c)
no_bytes c = record {
  dest = c;
  returns = refl;
  written = sym (append-nil c.before);
  room_left = omega arith;
}

fill_bit : (m : ℕ) → m < 16 → bit_and m 0x8 ≡ m / 8 * 8
unfolding agree_below
fill_bit = agree_below→eq _ _ 16 refl

-- The bytes of a chunk follow its mark; a fill has none.
pub put_chunk-Writes :
    {m : ℕ} {x p : List ℕ} (s rest : List ℕ) (c : Cursor)
    → Chunk m x p
    → s ≡ x ++ rest
    → (length p ≡ 0) ⊎ (min 8 (length s) ≤ length c.after)
    → Writes p c (put_chunk s m c)
unfolding put_chunk
put_chunk-Writes s rest c (zeros n lo hi) e room =
    let bit : (bit_and (7 + n) 0x8 == 0) ≡ false = ground (arith, fill_bit (7 + n)) in
    rw bit (no_bytes c)
put_chunk-Writes s rest c (ones n lo hi) e room =
    let bit : (bit_and (11 + n) 0x8 == 0) ≡ false = ground (arith, fill_bit (11 + n)) in
    rw bit (no_bytes c)
put_chunk-Writes s rest c (plain bs lo hi) e room =
    let bit : (bit_and (length bs) 0x8 == 0) ≡ true = ground (arith, fill_bit (length bs)) in
    let long : length s ≡ length bs + length rest = ap length e ∙ length-append bs rest in
    rw bit (
      subst (λ p. Writes p c (copy s (length bs) c))
        (ap (take (length bs)) e ∙ take-length-append bs rest)
        (copy-Writes s (length bs) c (omega arith) (omega arith) (omega arith)))

-- `a | (b << 4)`
pub two_nibbles : (a b : ℕ) → a < 16 → b < 16 → bit_or a (b * 2 ^ 4 % 2 ^ 8) ≡ a + b * 16
two_nibbles a b h k =
    rw (mod-eq_of_lt {n = b * 2 ^ 4} {m = 2 ^ 8} (omega arith)) (bit_or_high 4 b a h)

pub Chunk-lt : {m : ℕ} {x p : List ℕ} → Chunk m x p → m < 16
Chunk-lt (zeros n lo hi) = omega arith
Chunk-lt (ones n lo hi) = omega arith
Chunk-lt (plain bs lo hi) = omega arith
