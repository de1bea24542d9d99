-- ===== src/Compress/Decode.antt =====
-- `Decompress` on packed data: every packed form, whoever wrote it, is read back.
use protocache.Base.{
  ℕ, zero, suc, ◌+◌, ◌*◌, ◌/◌, ◌^◌, ◌≤◌, ◌<◌, ◌≡◌, refl, ap, subst, ◌∙◌, sym, List, [], ◌++◌,
  length, length-append, arith, bit_and, true, done, Cursor, append-nil, append_assoc, bit_and_mask,
}
use native.Mathlib.Nat.{mod-eq_of_lt}
use protocache.Compress.Encode.{Chunk-lt}
use protocache.Compress.{unpack, unpack_two, decompress_loop}
use protocache.Compress.Format.{Chunk, Packs, none_left, one_left, two_marks}
use protocache.Compress.Chunks.{HasRoom, Reads, unpack-Reads}

-- The marks of one byte, taken apart.
low_mark : (m n : ℕ) → m < 16 → bit_and (m + n * 16) 0xf ≡ m
low_mark m n h = bit_and_mask 4 (m + n * 16) ∙ omega arith

high_mark : (m n : ℕ) → m < 16 → (m + n * 16) / 2 ^ 4 ≡ n
high_mark m n h = omega arith

unpack_two-Reads :
    {m n : ℕ} {x y p q : List ℕ} (tail : ℕ) (rest : List ℕ) (c : Cursor)
    → Chunk m x p
    → Chunk n y q
    → HasRoom tail (x ++ y) c
    → Reads (x ++ y) rest c (unpack_two tail (m + n * 16) (p ++ (q ++ rest)) c)
unfolding unpack_two
unpack_two-Reads {m} {n} {x} {y} {p} {q} tail rest c first second room =
    let long = length-append x y in
    let r = unpack-Reads tail (q ++ rest) c first (omega (arith, long)) in
    let before = ap length r.written ∙ length-append c.before x in
    let w = unpack-Reads tail rest r.dest second (omega (arith, long, before, r.room_left)) in
    rw (low_mark m n (Chunk-lt first), high_mark m n (Chunk-lt first), r.returns)
      (record {
        dest = w.dest;
        returns = w.returns;
        written = w.written ∙ ap (λ b. b ++ y) r.written ∙ append_assoc c.before x y;
        room_left = omega (arith, long, r.room_left, w.room_left);
      })

-- The last mark of an odd number shares its byte with an empty one.
unpack_one-Reads :
    {m : ℕ} {x p : List ℕ} (tail : ℕ) (c : Cursor)
    → Chunk m x p
    → HasRoom tail x c
    → Reads x [] c (unpack_two tail m p c)
unfolding unpack_two
unpack_one-Reads {m} {x} {p} tail c chunk room =
    let r =
      subst (λ t. Reads x [] c (unpack tail m t c)) (append-nil p)
        (unpack-Reads tail [] c chunk room) in
    let low : bit_and m 0xf ≡ m = bit_and_mask 4 m ∙ mod-eq_of_lt (Chunk-lt chunk) in
    let high : m / 2 ^ 4 ≡ 0 = omega (arith, Chunk-lt chunk) in
    rw (low, high, r.returns)
      (record {
        dest = r.dest;
        returns = unfold unpack in refl;
        written = r.written;
        room_left = r.room_left;
      })

-- A whole packed form is read back, within the room for `s`.
pub decompress_loop_lem :
    {s t : List ℕ} (tail fuel : ℕ) (c : Cursor)
    → Packs s t
    → length t ≤ fuel
    → HasRoom tail s c
    → (dest : Cursor) × (decompress_loop tail fuel t c ≡ done (true, dest))
      × (dest.before ≡ c.before ++ s)
      × (length dest.after + length s ≡ length c.after)
unfolding decompress_loop
decompress_loop_lem tail fuel c none_left h room = (c, refl, sym (append-nil c.before), omega arith)
decompress_loop_lem tail zero c (one_left {m} {x} {p} chunk) h room = absurd (omega arith)
decompress_loop_lem tail (suc fuel) c (one_left {m} {x} {p} chunk) h room =
    let r = unpack_one-Reads tail c chunk room in
    rw r.returns (r.dest, refl, r.written, r.room_left)
decompress_loop_lem tail zero c (two_marks first second rest) h room = absurd (omega arith)
decompress_loop_lem tail (suc fuel) c (two_marks {m} {n} {x} {y} {p} {q} {s} {t} first second rest)
      h room =
    let whole = length-append x (y ++ s) in
    let back = length-append y s in
    let long = length-append x y in
    let r = unpack_two-Reads tail t c first second (omega (arith, whole, back, long)) in
    let before = ap length r.written ∙ length-append c.before (x ++ y) in
    let (dest, e, written, left) =
      decompress_loop_lem tail fuel r.dest rest
        (omega (arith, length-append p (q ++ t), length-append q t))
        (omega (arith, whole, back, long, before, r.room_left)) in
    rw r.returns (
      dest,
      e,
      written
          ∙ ap (λ b. b ++ s) r.written
          ∙ append_assoc c.before (x ++ y) s
          ∙ ap (◌++◌ c.before) (append_assoc x y s),
      omega (arith, whole, back, long, r.room_left, left),
    )
