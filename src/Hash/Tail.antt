-- ===== src/Hash/Tail.antt =====
-- The switch of `Hash128` on the last bytes: they are added as two words.
use protocache.Base.{
  ℕ, zero, suc, ◌+◌, ◌-◌, ◌*◌, ◌%◌, ◌^◌, ◌≤◌, ◌<◌, ◌≡◌, refl, ap, ap₂, sym, ◌∙◌, inl, inr, true,
  false, Bool-cases, ◌==◌, leb, List, [], ◌∷◌, drop, take, take_all, drop_all, length, length-drop,
  load, done, arith,
}
use native.Mathlib.Nat.{pow-suc, zero-add, mul_assoc, mul_comm, mul-add, mod-eq_of_lt}
use protocache.Hash.{State, add64, magic, little_endian, load_le, fall_through, tail}

pow_add : (m n : ℕ) → 2 ^ (m + n) ≡ 2 ^ m * 2 ^ n
pow_add m zero = let e : m + zero ≡ m = omega arith in rw e (omega arith)
pow_add m (suc n) =
    let e : m + suc n ≡ suc (m + n) = omega arith in
    rw e (
      pow-suc 2 (m + n)
      ∙ ap (λ t. t * 2) (pow_add m n)
      ∙ mul_assoc (2 ^ m) (2 ^ n) 2
      ∙ ap (λ t. 2 ^ m * t) (sym (pow-suc 2 n)))

pub drop-drop : (k n : ℕ) (xs : List ℕ) → drop k (drop n xs) ≡ drop (n + k) xs
drop-drop k zero xs = ap (λ m. drop m xs) (sym (zero-add k))
drop-drop k (suc n) [] = drop_all k [] (omega arith) ∙ sym (drop_all (suc n + k) [] (omega arith))
drop-drop k (suc n) (x ∷ xs) =
    let e : suc n + k ≡ suc (n + k) = omega arith in rw e (drop-drop k n xs)

pub load_le_lem :
    (n off : ℕ) (msg : List ℕ)
    → off + n ≤ length msg
    → load_le n off msg ≡ done (little_endian (take n (drop off msg)))
unfolding load_le load
load_le_lem n off msg h =
    let enough : leb n (length (drop off msg)) ≡ true = rw length-drop (ground arith) in rw enough

-- Two neighbouring pieces.
little_endian-take :
    (k n : ℕ) (xs : List ℕ)
    → little_endian (take (k + n) xs)
      ≡ little_endian (take k xs) + 2 ^ (8 * k) * little_endian (take n (drop k xs))
unfolding little_endian
little_endian-take zero n xs = let e : zero + n ≡ n = zero-add n in rw e (omega arith)
little_endian-take (suc k) n [] =
    rw (take_all {A = ℕ} (suc k + n) [] (omega arith), take_all {A = ℕ} n [] (omega arith))
      (omega arith)
little_endian-take (suc k) n (x ∷ xs) =
    let q = 2 ^ (8 * k) in
    let l = little_endian (take n (drop k xs)) in
    let split : 8 * suc k ≡ 8 + 8 * k = omega arith in
    let weight : 2 ^ (8 * suc k) ≡ 256 * q = rw split (pow_add 8 (8 * k)) in
    let next : suc k + n ≡ suc (k + n) = omega arith in
    rw (weight, next, little_endian-take k n xs) (omega (arith, mul_assoc 256 q l))

-- What the cases add that fall through.
fall_through_lem :
    (k base shift : ℕ) (msg : List ℕ) (v : ℕ)
    → (k ≡ 0 → v < 2 ^ 64)
    → base + k ≤ length msg
    → fall_through k base shift msg v
      ≡ done ((v + 2 ^ (8 * shift) * little_endian (take k (drop base msg))) % 2 ^ 64)
unfolding fall_through little_endian
fall_through_lem zero base shift msg v small h =
    let e : v + 2 ^ (8 * shift) * 0 ≡ v = omega arith in
    rw e (ap done (sym (mod-eq_of_lt {n = v} {m = 2 ^ 64} (small refl))))
fall_through_lem (suc k) base shift msg v small h =
    let w = 2 ^ (8 * shift) in
    let q = 2 ^ (8 * k) in
    let l = little_endian (take k (drop base msg)) in
    let x = little_endian (take 1 (drop (base + k) msg)) in
    let read : load_le 1 (base + k) msg ≡ done x = load_le_lem 1 (base + k) msg (omega arith) in
    let last : suc k ≡ k + 1 = omega arith in
    let pieces = rw (drop-drop k base msg) at (little_endian-take k 1 (drop base msg)) in
    let weight : 2 ^ (8 * (shift + k)) ≡ w * q =
      ap (λ t. 2 ^ t) (mul-add 8 shift k) ∙ pow_add (8 * shift) (8 * k) in
    let product : x * (w * q) ≡ w * (q * x) = mul_comm x (w * q) ∙ mul_assoc w q x in
    let v' = add64 v (x * 2 ^ (8 * (shift + k)) % 2 ^ 64) in
    rw
      (
        read,
        fall_through_lem k base shift msg v' (λ _. omega arith) (omega arith),
        weight,
        last,
        pieces,
      )
      (ap done (omega (arith, product, mul-add w l (q * x))))

-- The last bytes, fewer than 16, as two words; an empty rest counts as two words of its own.
unfoldable pub absorb_tail : List ℕ → State → State
absorb_tail [] s = record s { c = add64 s.c magic; d = add64 s.d magic }
absorb_tail (x ∷ xs) s =
    let bs = x ∷ xs in
    record s {
      c = add64 s.c (little_endian (take 8 bs));
      d = add64 s.d (little_endian (drop 8 bs));
    }

-- The same of a rest that is not empty.
abbrev Ends : List ℕ → State → Type 0
Ends bs s =
    tail (length bs) bs s
    ≡ done (record s {
      c = add64 s.c (little_endian (take 8 bs));
      d = add64 s.d (little_endian (drop 8 bs));
    })

tail_twelve : (bs : List ℕ) (s : State) → 12 ≤ length bs → s.d < 2 ^ 64 → Ends bs s
unfolding tail
tail_twelve bs s h hd =
    let r = length bs in
    let test : leb 12 r ≡ true = ground arith in
    let behind : List ℕ = drop 8 bs in
    let more = fall_through_lem (r - 12) 12 4 bs s.d (λ _. hd) (omega arith) in
    let y = load_le_lem 4 8 bs (omega arith) in
    let x = load_le_lem 8 0 bs (omega arith) in
    let all : take (4 + (r - 12)) behind ≡ behind =
      take_all (4 + (r - 12)) behind (rw length-drop (omega arith)) in
    let pieces = rw (all, drop-drop 4 8 bs) at (little_endian-take 4 (r - 12) behind) in
    rw (test, more, y, x, pieces)
      (ap (λ t. done (record s { c = add64 s.c (little_endian (take 8 bs)); d = t })) (omega arith))

tail_eight : (bs : List ℕ) (s : State) → 8 ≤ length bs → length bs < 12 → s.d < 2 ^ 64 → Ends bs s
unfolding tail
tail_eight bs s h short hd =
    let r = length bs in
    let test : leb 12 r ≡ false = ground arith in
    let test' : leb 8 r ≡ true = ground arith in
    let more = fall_through_lem (r - 8) 8 0 bs s.d (λ _. hd) (omega arith) in
    let x = load_le_lem 8 0 bs (omega arith) in
    let all : take (r - 8) (drop 8 bs) ≡ drop 8 bs =
      take_all (r - 8) (drop 8 bs) (rw length-drop (omega arith)) in
    rw (test, test', more, x, all)
      (ap (λ t. done (record s { c = add64 s.c (little_endian (take 8 bs)); d = t })) (omega arith))

tail_four : (bs : List ℕ) (s : State) → 4 ≤ length bs → length bs < 8 → s.d < 2 ^ 64 → Ends bs s
unfolding tail little_endian fall_through
tail_four bs s h short hd =
    let r = length bs in
    let test : leb 12 r ≡ false = ground arith in
    let test' : leb 8 r ≡ false = ground arith in
    let test'' : leb 4 r ≡ true = ground arith in
    let x = load_le_lem 4 0 bs (omega arith) in
    let all : take (4 + (r - 4)) bs ≡ bs = take_all (4 + (r - 4)) bs (omega arith) in
    let pieces = rw all at (little_endian-take 4 (r - 4) bs) in
    let low = take_all 8 bs (omega arith) in
    let high = drop_all 8 bs (omega arith) in
    elim (Bool-cases (r == 4)) [
      | inl exact ↦
          let none_left : r - 4 ≡ 0 = ground arith in
          let whole : take 4 bs ≡ bs = take_all 4 bs (ground arith) in
          rw (test, test', test'', none_left, x, whole, low, high)
            (ap (λ t. done (record s { c = add64 s.c (little_endian bs); d = t })) (omega arith))
      | inr beyond ↦
          let more =
            fall_through_lem (r - 4) 4 4 bs s.c (λ e. absurd (ground arith)) (omega arith) in
          rw (test, test', test'', more, x, low, high, pieces)
            (ap₂ (λ t u. done (record s { c = t; d = u })) (omega arith) (omega arith))
    ]

tail_short : (bs : List ℕ) (s : State) → 0 < length bs → length bs < 4 → s.d < 2 ^ 64 → Ends bs s
unfolding tail little_endian
tail_short bs s h short hd =
    let r = length bs in
    let test : leb 12 r ≡ false = ground arith in
    let test' : leb 8 r ≡ false = ground arith in
    let test'' : leb 4 r ≡ false = ground arith in
    let some_left : (r == 0) ≡ false = ground arith in
    let more = fall_through_lem r 0 0 bs s.c (λ e. absurd (omega arith)) (omega arith) in
    rw
      (
        test,
        test',
        test'',
        some_left,
        more,
        take_all r bs (omega arith),
        take_all 8 bs (omega arith),
        drop_all 8 bs (omega arith),
      )
      (ap₂ (λ t u. done (record s { c = t; d = u })) (omega arith) (omega arith))

tail_nonempty :
    (bs : List ℕ) (s : State) → 0 < length bs → length bs < 16 → s.d < 2 ^ 64 → Ends bs s
tail_nonempty bs s pos h hd = elim (Bool-cases (leb 12 (length bs))) [
  | inl twelve ↦ tail_twelve bs s (ground arith) hd
  | inr below ↦ elim (Bool-cases (leb 8 (length bs))) [
    | inl eight ↦ tail_eight bs s (ground arith) (ground arith) hd
    | inr below' ↦ elim (Bool-cases (leb 4 (length bs))) [
      | inl four ↦ tail_four bs s (ground arith) (ground arith) hd
      | inr below'' ↦ tail_short bs s pos (ground arith) hd
    ]
  ]
]

pub tail-absorb_tail :
    (bs : List ℕ) (s : State)
    → length bs < 16
    → s.d < 2 ^ 64
    → tail (length bs) bs s ≡ done (absorb_tail bs s)
unfolding tail absorb_tail
tail-absorb_tail [] s h hd = refl
tail-absorb_tail (z ∷ zs) s h hd = tail_nonempty (z ∷ zs) s (omega arith) h hd
