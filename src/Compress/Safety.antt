-- ===== src/Compress/Safety.antt =====
-- `Decompress` on bytes of any origin: what it may touch, and when it leaves its allocation.
use protocache.Base.{
  ℕ, zero, suc, ◌+◌, ◌-◌, ◌*◌, ◌/◌, ◌%◌, ◌^◌, ◌≤◌, ◌<◌, ◌≡◌, refl, ◌≢◌, inl, inr, List, [], ◌∷◌,
  ◌++◌, length, length-append, length-replicate, length-take, take, replicate, arith, All, Option,
  none, some, ◌==◌, ltb, Bool, true, false, Bool-cases, done, fault, Cursor, store-none, bit_and,
  bit_or, bit_and_mask, word_bytes,
}
use native.Mathlib.Nat.{mod-eq_of_lt}
use protocache.Compress.{
  unpack, unpack_fill, unpack_two, decompress, decompress_loop, parse_size, unpack_all, finish,
}
use protocache.Compress.Pick.{IsByte}
use protocache.Compress.RoundTrip.{decompress_parsed}
use protocache.Compress.Steps.{Sound, Safe, unpack-Safe}

unpack_two-Safe :
    (tail mark : ℕ) (src : List ℕ) (c : Cursor)
    → IsByte mark
    → Sound tail c
    → Safe tail src (unpack_two tail mark src c)
unfolding unpack_two
unpack_two-Safe tail mark src c h s =
    let r = unpack-Safe tail (bit_and mark 0xf) src c (omega (arith, bit_and_mask 4 mark)) s in
    elim (Bool-cases r.next.good) [
      | inl good ↦
          let w = unpack-Safe tail (mark / 2 ^ 4) r.next.src r.next.dest (omega arith) r.sound in
          rw (r.returns, good)
            (record {
              next = w.next;
              returns = w.returns;
              shorter = omega (arith, w.shorter, r.shorter);
              bytes = λ k. w.bytes (r.bytes k);
              sound = w.sound;
            })
      | inr bad ↦
          rw (r.returns, bad)
            (record {
              next = r.next;
              returns = refl;
              shorter = r.shorter;
              bytes = r.bytes;
              sound = r.sound;
            })
    ]

decompress_loop-Safe :
    (tail fuel : ℕ) (src : List ℕ) (c : Cursor)
    → All IsByte src
    → length src ≤ fuel
    → Sound tail c
    → (good : Bool) × (dest : Cursor) × (decompress_loop tail fuel src c ≡ done (good, dest))
      × Sound tail dest
unfolding decompress_loop
decompress_loop-Safe tail fuel [] c h enough s = (true, c, refl, s)
decompress_loop-Safe tail zero (mark ∷ src) c h enough s = absurd (omega arith)
decompress_loop-Safe tail (suc fuel) (mark ∷ src) c h enough s =
    let r = unpack_two-Safe tail mark src c h.0 s in
    elim (Bool-cases r.next.good) [
      | inl good ↦
          rw (r.returns, good)
            (decompress_loop-Safe tail fuel r.next.src r.next.dest (r.bytes h.1)
              (omega (arith, r.shorter)) r.sound)
      | inr bad ↦ rw (r.returns, bad) (false, r.next.dest, refl, r.sound)
    ]

parse_size-IsByte :
    (src : List ℕ) (sft acc n : ℕ) (rest : List ℕ)
    → parse_size sft acc src ≡ some (n, rest)
    → All IsByte src
    → All IsByte rest
unfolding parse_size
parse_size-IsByte [] sft acc n rest e h = cc
parse_size-IsByte (b ∷ src) sft acc n rest e h = elim (Bool-cases (ltb sft 32)) [
  | inl early ↦ elim (Bool-cases (bit_and b 0x80 == 0)) [
    | inl ends ↦ let same : rest ≡ src = ground arith in rw same h.1
    | inr more ↦
        parse_size-IsByte src (sft + 7) (bit_or acc (bit_and b 0x7f * 2 ^ sft % 2 ^ 32)) n rest
          (ground arith) h.1
  ]
  | inr late ↦ let clash : ◌≡◌ {A = Option (ℕ × List ℕ)} none (some (n, rest)) = ground arith in cc
]

verdict_length :
    (size : ℕ) (good : Bool) (dest : Cursor)
    → Sound size dest
    → (finish size (good, dest)).0 ≡ true
    → length (finish size (good, dest)).1 ≡ size
unfolding finish
verdict_length size true dest s e = omega (
  arith,
  length-append (take size (dest.before ++ dest.after))
      (replicate (size - length (dest.before ++ dest.after)) 0),
  length-take size (dest.before ++ dest.after),
  length-append dest.before dest.after,
  length-replicate {A = ℕ} (size - length (dest.before ++ dest.after)) 0,
)
verdict_length size false dest s e = cc

-- On any bytes whose declared size is below 2 ^ 32 - 7, `Decompress` comes to an end and stays
-- inside its allocations. Where it answers `true`, the output is as long as declared.
pub decompress_safe :
    (src : List ℕ) (size : ℕ) (rest : List ℕ)
    → All IsByte src
    → parse_size 0 0 src ≡ some (size, rest)
    → size + 7 < 2 ^ 32
    → (good : Bool) × (out : List ℕ) × (decompress src ≡ done (good, out))
      × (good ≡ true → length out ≡ size)
unfolding unpack_all
decompress_safe src size rest h e small =
    let room = length-replicate {A = ℕ} (size + 7) 0 in
    let start : Cursor = record { before = []; after = replicate (size + 7) 0 } in
    let (good, dest, r, s) =
      decompress_loop-Safe size (length rest) rest start (parse_size-IsByte src 0 0 size rest e h)
        (omega arith) (omega (arith, room)) in
    let result = finish size (good, dest) in
    (
      result.0,
      result.1,
      rw (decompress_parsed src e, mod-eq_of_lt {n = size + 7} {m = 2 ^ 32} small, r),
      verdict_length size good dest s,
    )

-- A declared size from 2 ^ 32 - 7 on wraps the allocation to less than seven bytes: below
-- 2 ^ 32 - 3, a first mark that is a fill stores four bytes behind its end.
pub decompress_overflow :
    (src : List ℕ) (size mark : ℕ) (rest : List ℕ)
    → parse_size 0 0 src ≡ some (size, mark ∷ rest)
    → 2 ^ 32 ≤ size + 7
    → size + 3 < 2 ^ 32
    → bit_and (bit_and mark 0xf) 8 ≢ 0
    → decompress src ≡ fault
unfolding unpack_all decompress_loop unpack_two unpack unpack_fill
decompress_overflow src size mark rest e wraps few fill =
    let bit : (bit_and (bit_and mark 0xf) 8 == 0) ≡ false = ground arith in
    let cap = (size + 7) % 2 ^ 32 in
    let start : Cursor = record { before = []; after = replicate cap 0 } in
    let cnt = bit_and_mask 2 (bit_and mark 0xf) in
    let inside : ltb size (0 + (bit_and (bit_and mark 0xf) 3 + 1)) ≡ false = ground arith in
    let outside =
      store-none (word_bytes ((2 ^ 32 - bit_and (bit_and mark 0xf / 2 ^ 2) 1) % 2 ^ 32)) start
        (omega (arith, length-replicate {A = ℕ} cap 0)) in
    rw (decompress_parsed src e, bit, inside, outside)
