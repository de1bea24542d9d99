-- ===== src/Compress/Loop.antt =====
-- The main loop of `Compress`: every source is packed, within the room that the caller reserves.
use protocache.Base.{
  ℕ, zero, suc, ◌+◌, ◌*◌, ◌≤◌, ◌≡◌, refl, ap, subst, ◌∙◌, sym, inl, inr, List, [], ◌∷◌, ◌++◌,
  length, length-append, arith, All, All-append_right, Run, ◌>>=◌, Cursor, append-nil, append_assoc,
}
use protocache.Compress.{pick, put_byte, put_chunk, put_last, put_two, compress_loop}
use protocache.Compress.Format.{Packs, none_left, one_left, two_marks}
use protocache.Compress.Pick.{IsByte, slack, Picked, pick-Picked}
use protocache.Compress.Encode.{
  Writes, Writes-append, put_byte-Writes, put_chunk-Writes, two_nibbles, Chunk-lt, no_bytes,
}

-- The room at the pointer covers what is left of `s`: one byte in fourteen for the marks.
abbrev pub Fits : List ℕ → Cursor → Type 0
Fits s c = 15 * length s ≤ 14 * length c.after + slack s

split_length :
    {s rest : List ℕ} {a : ℕ} (p : Picked s a rest) → length s ≡ length p.bytes + length rest
split_length {rest} p = ap length p.split ∙ length-append p.bytes rest

-- The last mark of an odd number of chunks.
put_last-Writes :
    {s : List ℕ} {a : ℕ} (c : Cursor) (p : Picked s a [])
    → Fits s c
    → Writes (a ∷ p.payload) c (put_last s a c)
unfolding put_last
put_last-Writes {s} {a} c p fits =
    let long = split_length p in
    let w = put_byte-Writes a c (omega arith) in
    Writes-append (a ∷ []) p.payload c (put_byte a c) (put_chunk s a) w (
      put_chunk-Writes s [] w.dest p.chunk p.split
        (elim p.cost [ inl free ↦ inl free.0 | inr paid ↦ inr (omega (arith, w.room_left)) ]))

module _ {s y z : List ℕ} {a b : ℕ} (c : Cursor) (p : Picked s a y) (q : Picked y b z)
    (fits : Fits s c) where
  put_two-Writes : Writes ((a + b * 16) ∷ (p.payload ++ q.payload)) c (put_two s a y b c)
  unfolding put_two
  put_two-Writes =
      let long = split_length p in
      let long' = split_length q in
      let w = put_byte-Writes (a + b * 16) c (omega arith) in
      let v =
        put_chunk-Writes s y w.dest p.chunk p.split
          (elim p.cost [ inl free ↦ inl free.0 | inr paid ↦ inr (omega (arith, w.room_left)) ]) in
      let u = put_chunk-Writes y z v.dest q.chunk q.split (elim q.cost [
        | inl free ↦ inl free.0
        | inr paid ↦ inr (omega (arith, w.room_left, v.room_left, p.cost, p.some_bytes))
      ]) in
      rw (two_nibbles a b (Chunk-lt p.chunk) (Chunk-lt q.chunk)) (
        Writes-append ((a + b * 16) ∷ []) (p.payload ++ q.payload) c _ _ w
          (Writes-append p.payload q.payload w.dest (put_chunk s a w.dest) (put_chunk y b) v u))

  -- The condition holds again behind the two chunks.
  Fits-two :
      (dest : Cursor)
      → length dest.after + suc (length (p.payload ++ q.payload)) ≡ length c.after
      → Fits z dest
  Fits-two dest h = omega (
    arith,
    split_length p,
    split_length q,
    length-append p.payload q.payload,
    p.cost,
    q.cost,
    p.some_bytes,
    q.some_bytes,
  )

-- A run that leaves a packed form of `s`.
pub record Packed (s : List ℕ) (c : Cursor) (r : Run Cursor) : Type 0 where
  pub form : List ℕ
  pub packs : Packs s form
  pub writes : Writes form c r

rest-IsByte : {s rest : List ℕ} {a : ℕ} → Picked s a rest → All IsByte s → All IsByte rest
rest-IsByte {rest} p h = All-append_right IsByte p.bytes rest (subst (All IsByte) p.split h)

-- The loop's two ways on.
loop_last :
    (fuel ch : ℕ) (src : List ℕ) (c : Cursor)
    → (pick ch src).1 ≡ []
    → compress_loop (suc fuel) (ch ∷ src) c ≡ put_last (ch ∷ src) (pick ch src).0 c
unfolding compress_loop
loop_last fuel ch src c e = rw (e, compress_loop)

loop_two :
    (fuel ch d : ℕ) (src rest : List ℕ) (c : Cursor)
    → (pick ch src).1 ≡ d ∷ rest
    → compress_loop (suc fuel) (ch ∷ src) c ≡ (
        put_two (ch ∷ src) (pick ch src).0 (d ∷ rest) (pick d rest).0 c
        >>= compress_loop fuel (pick d rest).1)
unfolding compress_loop
loop_two fuel ch d src rest c e = rw (e, compress_loop)

put_last-Packed :
    {s : List ℕ} {a : ℕ} (c : Cursor) (p : Picked s a []) → Fits s c → Packed s c (put_last s a c)
put_last-Packed {s} {a} c p fits = record {
  form = a ∷ p.payload;
  packs =
      subst (λ x. Packs x (a ∷ p.payload)) (sym (p.split ∙ append-nil p.bytes)) (one_left p.chunk);
  writes = put_last-Writes c p fits;
}

put_two-Packed :
    {s y z : List ℕ} {a b : ℕ} (c : Cursor) (p : Picked s a y) (q : Picked y b z) (fits : Fits s c)
    (k : Cursor → Run Cursor)
    → ((dest : Cursor) → Fits z dest → Packed z dest (k dest))
    → Packed s c (put_two s a y b c >>= k)
put_two-Packed {s} {y} {z} {a} {b} c p q fits k go =
    let w = put_two-Writes c p q fits in
    let r = go w.dest (Fits-two c p q fits w.dest w.room_left) in
    record {
      form = (a + b * 16) ∷ (p.payload ++ (q.payload ++ r.form));
      packs =
          subst (λ x. Packs x ((a + b * 16) ∷ (p.payload ++ (q.payload ++ r.form))))
            (sym (p.split ∙ ap (◌++◌ p.bytes) q.split)) (two_marks p.chunk q.chunk r.packs);
      writes =
          subst (λ t. Writes ((a + b * 16) ∷ t) c (put_two s a y b c >>= k))
            (append_assoc p.payload q.payload r.form)
            (Writes-append ((a + b * 16) ∷ (p.payload ++ q.payload)) r.form c (put_two s a y b c) k
              w r.writes);
    }

compress_step :
    (fuel ch : ℕ) (src y : List ℕ) (c : Cursor)
    → (pick ch src).1 ≡ y
    → All IsByte (ch ∷ src)
    → length src ≤ fuel
    → Fits (ch ∷ src) c
    → ((z : List ℕ) (dest : Cursor)
        → All IsByte z
        → length z ≤ fuel
        → Fits z dest
        → Packed z dest (compress_loop fuel z dest))
    → Packed (ch ∷ src) c (compress_loop (suc fuel) (ch ∷ src) c)
compress_step fuel ch src [] c e h enough fits go =
    rw (loop_last fuel ch src c e) (
      put_last-Packed c (subst (Picked (ch ∷ src) (pick ch src).0) e (pick-Picked ch src h.0)) fits)
compress_step fuel ch src (d ∷ rest) c e h enough fits go =
    let p = subst (Picked (ch ∷ src) (pick ch src).0) e (pick-Picked ch src h.0) in
    let h' = rest-IsByte p h in
    let q = pick-Picked d rest h'.0 in
    rw (loop_two fuel ch d src rest c e) (
      put_two-Packed c p q fits (compress_loop fuel (pick d rest).1) (λ dest fits'.
        go (pick d rest).1 dest (rest-IsByte q h')
          (omega (arith, split_length p, split_length q, p.some_bytes, q.some_bytes)) fits'))

-- With fuel for every byte the loop packs the source and stays inside its allocation.
pub compress_loop-Packed :
    (fuel : ℕ) (s : List ℕ) (c : Cursor)
    → All IsByte s
    → length s ≤ fuel
    → Fits s c
    → Packed s c (compress_loop fuel s c)
compress_loop-Packed fuel [] c h enough fits = record {
  form = [];
  packs = none_left;
  writes = unfold compress_loop in no_bytes c;
}
compress_loop-Packed zero (ch ∷ src) c h enough fits = absurd (omega arith)
compress_loop-Packed (suc fuel) (ch ∷ src) c h enough fits =
    compress_step fuel ch src (pick ch src).1 c refl h (omega arith) fits
      (compress_loop-Packed fuel)
