-- ===== src/Compress/Pick.antt =====
-- What `pick` finds: a chunk of the format, and how much of the source it takes.
use protocache.Base.{
  ℕ, zero, suc, ◌+◌, ◌-◌, ◌≤◌, ◌<◌, ◌≡◌, refl, ap, ap₂, ◌⊎◌, inl, inr, true, false, ◌||◌, List, [],
  ◌∷◌, ◌++◌, length, length-replicate, replicate, ◌==◌, if◌then◌else◌, ltb, ◌&&◌, not, arith,
  Bool-cases, bit_and, bit_or,
}
use protocache.Compress.{pick, pick_fill, pick_plain, asr8, fill_mark}
use protocache.Compress.Format.{Chunk, zeros, ones, plain}

abbrev pub IsByte : ℕ → Type 0
IsByte b = b < 256

-- What a source that starts with a fill, or is at its end, may fall behind by (see `Size`).
abbrev pub slack : List ℕ → ℕ
slack [] = 6
slack (b ∷ src) = if b == 0 || b == 0xff then 6 else 0

-- `pick_fill` takes `k` more bytes, all equal to `ch`.
pick_fill_takes :
    (ch cnt : ℕ) (src : List ℕ)
    → cnt ≤ 4
    → (k : ℕ) × ((pick_fill ch cnt src).0 ≡ cnt + k)
      × (cnt + k ≤ 4)
      × (src ≡ replicate k ch ++ (pick_fill ch cnt src).1)
unfolding pick_fill
pick_fill_takes ch cnt [] h = (0, omega arith, omega arith, refl)
pick_fill_takes ch cnt (b ∷ src) h = elim (Bool-cases (ltb cnt 4 && b == ch)) [
  | inl e ↦
      let r = pick_fill_takes ch (cnt + 1) src (ground arith) in
      rw e (suc r.0, omega (arith, r.1), omega (arith, r.2), ap₂ ◌∷◌ (ground arith) r.3)
  | inr e ↦ rw e (0, omega arith, omega arith, refl)
]

pick_plain_takes :
    (cnt : ℕ) (src : List ℕ)
    → cnt ≤ 7
    → (xs : List ℕ) × ((pick_plain cnt src).0 ≡ cnt + length xs)
      × (cnt + length xs ≤ 7)
      × (src ≡ xs ++ (pick_plain cnt src).1)
      × ((cnt + length xs ≡ 7) ⊎ (slack (pick_plain cnt src).1 ≡ 6))
unfolding pick_plain
pick_plain_takes cnt [] h = ([], omega arith, omega arith, refl, inr refl)
pick_plain_takes cnt (b ∷ src) h =
    elim (Bool-cases (ltb cnt 7 && (not (b == 0) && not (b == 0xff)))) [
      | inl e ↦
          let r = pick_plain_takes (cnt + 1) src (ground arith) in
          rw e (
            b ∷ r.0,
            omega (arith, r.1),
            omega (arith, r.2),
            ap (◌∷◌ b) r.3,
            elim r.4 [ inl full ↦ inl (omega arith) | inr ends ↦ inr ends ],
          )
      | inr e ↦ rw e ([], omega arith, omega arith, refl, ground arith)
    ]

-- What a chunk costs: nothing but its share of the mark for a fill, and for plain bytes as many
-- as it takes, seven of them or else a fill or the end behind them.
abbrev pub Cost : List ℕ → List ℕ → List ℕ → List ℕ → Type 0
Cost s bytes payload rest =
    ((length payload ≡ 0) × (slack s ≤ 6))
    ⊎ ((length payload ≡ length bytes) × (slack s ≡ 0) × ((length bytes ≡ 7) ⊎ (slack rest ≡ 6)))

-- `mark` and `rest` are the first chunk of `s` and what lies behind it.
pub record Picked (s : List ℕ) (mark : ℕ) (rest : List ℕ) : Type 0 where
  pub bytes : List ℕ
  pub payload : List ℕ
  pub chunk : Chunk mark bytes payload
  pub split : s ≡ bytes ++ rest
  pub some_bytes : 1 ≤ length bytes
  pub at_most_7 : length payload ≤ 7
  pub cost : Cost s bytes payload rest

zeros_mark : (n : ℕ) → 1 ≤ n → n ≤ 4 → bit_or (bit_or 0x8 (bit_and 0 0x4)) (n - 1) ≡ 7 + n
zeros_mark zero p q = absurd (omega arith)
zeros_mark (suc zero) p q = refl
zeros_mark (suc (suc zero)) p q = refl
zeros_mark (suc (suc (suc zero))) p q = refl
zeros_mark (suc (suc (suc (suc zero)))) p q = refl
zeros_mark (suc (suc (suc (suc (suc n))))) p q = absurd (omega arith)

ones_mark : (n : ℕ) → 1 ≤ n → n ≤ 4 → bit_or (bit_or 0x8 (bit_and 255 0x4)) (n - 1) ≡ 11 + n
ones_mark zero p q = absurd (omega arith)
ones_mark (suc zero) p q = refl
ones_mark (suc (suc zero)) p q = refl
ones_mark (suc (suc (suc zero))) p q = refl
ones_mark (suc (suc (suc (suc zero)))) p q = refl
ones_mark (suc (suc (suc (suc (suc n))))) p q = absurd (omega arith)

fill_byte : (ch : ℕ) → IsByte ch → (ch == asr8 ch) ≡ true → (ch ≡ 0) ⊎ (ch ≡ 255)
unfolding asr8
fill_byte ch h e = ground arith

plain_byte : (ch : ℕ) (src : List ℕ) → (ch == asr8 ch) ≡ false → slack (ch ∷ src) ≡ 0
unfolding asr8
plain_byte ch src e = ground arith

slack-le : (s : List ℕ) → slack s ≤ 6
slack-le [] = omega arith
slack-le (b ∷ src) = ground arith

zero_fill :
    (n m : ℕ) (s rest : List ℕ)
    → m ≡ n
    → 1 ≤ n
    → n ≤ 4
    → s ≡ replicate n 0 ++ rest
    → Picked s (bit_or (bit_or 0x8 (bit_and 0 0x4)) (m - 1)) rest
zero_fill n m s rest e p q split = record {
  bytes = replicate n 0;
  payload = [];
  chunk = rw (e, zeros_mark n p q) (zeros n p q);
  split = split;
  some_bytes = rw length-replicate p;
  at_most_7 = omega arith;
  cost = inl (refl, slack-le s);
}

one_fill :
    (n m : ℕ) (s rest : List ℕ)
    → m ≡ n
    → 1 ≤ n
    → n ≤ 4
    → s ≡ replicate n 255 ++ rest
    → Picked s (bit_or (bit_or 0x8 (bit_and 255 0x4)) (m - 1)) rest
one_fill n m s rest e p q split = record {
  bytes = replicate n 255;
  payload = [];
  chunk = rw (e, ones_mark n p q) (ones n p q);
  split = split;
  some_bytes = rw length-replicate p;
  at_most_7 = omega arith;
  cost = inl (refl, slack-le s);
}

pick_fill-Picked :
    (ch : ℕ) (src : List ℕ)
    → (ch ≡ 0) ⊎ (ch ≡ 255)
    → Picked (ch ∷ src) (fill_mark ch (pick_fill ch 1 src)).0 (fill_mark ch (pick_fill ch 1 src)).1
unfolding fill_mark
pick_fill-Picked ch src (inl z) =
    let r = pick_fill_takes 0 1 src (omega arith) in
    rw z (
      zero_fill (suc r.0) (pick_fill 0 1 src).0 (0 ∷ src) (pick_fill 0 1 src).1 (omega (arith, r.1))
        (omega arith) (omega (arith, r.2)) (ap (◌∷◌ 0) r.3))
pick_fill-Picked ch src (inr z) =
    let r = pick_fill_takes 255 1 src (omega arith) in
    rw z (
      one_fill (suc r.0) (pick_fill 255 1 src).0 (255 ∷ src) (pick_fill 255 1 src).1
        (omega (arith, r.1)) (omega arith) (omega (arith, r.2)) (ap (◌∷◌ 255) r.3))

pick_plain-Picked :
    (ch : ℕ) (src : List ℕ)
    → slack (ch ∷ src) ≡ 0
    → Picked (ch ∷ src) (pick_plain 1 src).0 (pick_plain 1 src).1
pick_plain-Picked ch src h =
    let r = pick_plain_takes 1 src (omega arith) in
    let e : (pick_plain 1 src).0 ≡ length (ch ∷ r.0) = omega (arith, r.1) in
    record {
      bytes = ch ∷ r.0;
      payload = ch ∷ r.0;
      chunk = rw e (plain (ch ∷ r.0) (omega arith) (omega (arith, r.2)));
      split = ap (◌∷◌ ch) r.3;
      some_bytes = omega arith;
      at_most_7 = omega (arith, r.2);
      cost = inr (refl, h, elim r.4 [ inl full ↦ inl (omega arith) | inr ends ↦ inr ends ]);
    }

-- `pick` splits off the first chunk, on every source.
pub pick-Picked :
    (ch : ℕ) (src : List ℕ) → IsByte ch → Picked (ch ∷ src) (pick ch src).0 (pick ch src).1
unfolding pick
pick-Picked ch src h = elim (Bool-cases (ch == asr8 ch)) [
  | inl e ↦ rw e (pick_fill-Picked ch src (fill_byte ch h e))
  | inr e ↦ rw e (pick_plain-Picked ch src (plain_byte ch src e))
]
