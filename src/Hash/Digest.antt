-- ===== src/Hash/Digest.antt =====
-- `Hash128` reads its key and nothing behind it: it is a function of the bytes of the key.
use protocache.Base.{
  ℕ, zero, suc, ◌+◌, ◌-◌, ◌*◌, ◌/◌, ◌%◌, ◌^◌, ◌≤◌, ◌≡◌, refl, ap, ◌∙◌, inl, inr, true, false,
  Bool-cases, ◌==◌, ltb, bit_and, if◌then◌else◌, bit_and_mask, bit_and_shift, List, drop, take,
  length, length-drop, Run, done, ◌>>=◌, arith,
}
use protocache.Hash.{
  State, add64, mix, end, magic, little_endian, half_block, blocks, tail, hash128,
}
use protocache.Hash.Tail.{drop-drop, load_le_lem, absorb_tail, tail-absorb_tail}

-- The word of eight bytes that lies `off` behind the first.
abbrev pub word_at : ℕ → List ℕ → ℕ
word_at off bs = little_endian (take 8 (drop off bs))

unfoldable pub absorb_half : List ℕ → State → State
absorb_half bs s = mix (record s { c = add64 s.c (word_at 0 bs); d = add64 s.d (word_at 8 bs) })

-- Every 32 bytes, and what is left.
unfoldable pub absorb_blocks : ℕ → List ℕ → State → List ℕ × State
absorb_blocks zero bs s = (bs, s)
absorb_blocks (suc n) bs s =
    let s' = absorb_half bs s in
    absorb_blocks n (drop 32 bs)
      (record s' { a = add64 s'.a (word_at 16 bs); b = add64 s'.b (word_at 24 bs) })

-- The rest `bs` of a key of `len` bytes.
unfoldable pub absorb_rest : ℕ → List ℕ × State → State
absorb_rest len (bs, s) =
    if ltb (length bs) 16
    then absorb_tail bs (record s { d = add64 s.d (len * 2 ^ 56) })
    else absorb_tail (drop 16 bs)
        (record (absorb_half bs s) { d = add64 (absorb_half bs s).d (len * 2 ^ 56) })

-- The hash as a function of the bytes of the key.
unfoldable pub digest : List ℕ → ℕ → ℕ × ℕ
digest bs seed =
    let start : State = record { a = seed; b = seed; c = magic; d = magic } in
    let s = end (absorb_rest (length bs) (absorb_blocks (length bs / 32) bs start)) in (s.a, s.b)

half_block-absorb_half :
    (bs : List ℕ) (s : State) → 16 ≤ length bs → half_block bs s ≡ done (absorb_half bs s)
unfolding half_block absorb_half
half_block-absorb_half bs s h =
    rw (load_le_lem 8 0 bs (omega arith), load_le_lem 8 8 bs (omega arith))

blocks-absorb_blocks :
    (n : ℕ) (bs : List ℕ) (s : State)
    → n * 32 ≤ length bs
    → blocks n bs s ≡ done (absorb_blocks n bs s)
unfolding blocks absorb_blocks
blocks-absorb_blocks zero bs s h = refl
blocks-absorb_blocks (suc n) bs s h =
    rw
      (
        half_block-absorb_half bs s (omega arith),
        load_le_lem 8 16 bs (omega arith),
        load_le_lem 8 24 bs (omega arith),
      )
      (blocks-absorb_blocks n (drop 32 bs) _ (rw length-drop (omega arith)))

absorb_blocks-left : (n : ℕ) (bs : List ℕ) (s : State) → (absorb_blocks n bs s).0 ≡ drop (n * 32) bs
unfolding absorb_blocks
absorb_blocks-left zero bs s = refl
absorb_blocks-left (suc n) bs s =
    let e : 32 + n * 32 ≡ suc n * 32 = omega arith in
    absorb_blocks-left n (drop 32 bs) _ ∙ drop-drop (n * 32) 32 bs ∙ ap (λ t. drop t bs) e

-- The bit of 16 in a length.
sixteen : (len : ℕ) → (bit_and len 0x10 == 0) ≡ ltb (len % 32) 16
sixteen len =
    let bit : bit_and len 0x10 ≡ len / 16 % 2 * 16 =
      bit_and_shift 4 1 len ∙ ap (λ t. t * 16) (bit_and_mask 1 (len / 16)) in
    rw bit (ground arith)

count_lem : (d len : ℕ) → add64 d (len * 2 ^ 56 % 2 ^ 64) ≡ add64 d (len * 2 ^ 56)
count_lem d len = omega arith

rest-absorb_rest {ℓ} :
    {A : Type ℓ} (len : ℕ) (bs : List ℕ) (s : State) (f : State → Run A)
    → length bs ≡ len % 32
    → (do
      (msg, s) ←
          (if bit_and len 0x10 == 0
            then done (bs, s)
            else do s ← half_block bs s; done (drop 16 bs, s))
      s ← tail (bit_and len 0xf) msg (record s { d = add64 s.d (len * 2 ^ 56 % 2 ^ 64) })
      f s)
      ≡ f (absorb_rest len (bs, s))
unfolding absorb_rest
rest-absorb_rest len bs s f h = elim (Bool-cases (ltb (len % 32) 16)) [
  | inl low ↦
      let few : bit_and len 0x10 == 0 ≡ true = sixteen len ∙ low in
      let few' : ltb (length bs) 16 ≡ true = rw h low in
      let left : bit_and len 0xf ≡ length bs = bit_and_mask 4 len ∙ ground arith in
      let last =
        tail-absorb_tail bs (record s { d = add64 s.d (len * 2 ^ 56) }) (ground arith)
          (omega arith) in
      rw (few, few', left, count_lem s.d len, last)
  | inr high ↦
      let s' = absorb_half bs s in
      let rest : List ℕ = drop 16 bs in
      let many : bit_and len 0x10 == 0 ≡ false = sixteen len ∙ high in
      let many' : ltb (length bs) 16 ≡ false = rw h high in
      let half = half_block-absorb_half bs s (ground arith) in
      let rest_length : length rest ≡ length bs - 16 = length-drop 16 bs in
      let left : bit_and len 0xf ≡ length rest = bit_and_mask 4 len ∙ ground arith in
      let last =
        tail-absorb_tail rest (record s' { d = add64 s'.d (len * 2 ^ 56) }) (ground arith)
          (omega arith) in
      rw (many, many', half, left, count_lem s'.d len, last)
]

-- On every key, with its length, `Hash128` ends without a fault and gives the digest of the
-- key: words of eight bytes go in two by two, the last bytes as two words filled up with zeros.
pub hash128-digest :
    (msg : List ℕ) (seed : ℕ) → hash128 msg (length msg) seed ≡ done (digest msg seed)
unfolding hash128 digest
hash128-digest msg seed =
    let len = length msg in
    let start : State = record { a = seed; b = seed; c = magic; d = magic } in
    let run = blocks-absorb_blocks (len / 32) msg start (omega arith) in
    let after = absorb_blocks (len / 32) msg start in
    let left : length after.0 ≡ len % 32 =
      ap length (absorb_blocks-left (len / 32) msg start)
      ∙ length-drop (len / 32 * 32) msg
      ∙ omega arith in
    rw run (rest-absorb_rest len after.0 after.1 _ left)
