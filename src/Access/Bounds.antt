-- ===== src/Access/Bounds.antt =====
-- Reading data that ends at `end`: every reader stays before it, along every way through the data.
use protocache.Base.{
  ℕ, zero, suc, ◌+◌, ◌*◌, ◌/◌, ◌%◌, ◌^◌, ◌≤◌, ◌<◌, ◌≡◌, refl, List, Option, none, some, false, ◌==◌,
  bit_and, bit_or, ltb, leb, inl, inr, Bool-cases, length, ◌⊎◌, ◌||◌, done, arith, bit_and_mask,
}
use native.Mathlib.Nat.{mod-eq_of_lt}
use protocache.Access.Words.{Slice, null, IsMemory, word-lt, word_inside, byte_inside}
use protocache.Access.Strings.{string, read_header, read_mark}
use protocache.Access.Fields.{Field, get_object, follow}
use protocache.Access.Messages.Bounds.{Inside}
use protocache.Access.Arrays.{Array, array, element}

-- A slice of bytes that is null or lies before the end.
abbrev pub Within : ℕ → Slice → Type 0
Within end s = (s ≡ null) ⊎ ((p : ℕ) × (s.ptr_ ≡ some p) × (p + s.len_ ≤ end * 4))

-- The same, where the bytes do not lie before the byte `base`.
abbrev pub Between : ℕ → ℕ → Slice → Type 0
Between base end s =
    (s ≡ null) ⊎ ((p : ℕ) × (s.ptr_ ≡ some p) × (base ≤ p) × (p + s.len_ ≤ end * 4))

-- An array without a body, or with all its elements before the end.
abbrev pub Bounded : ℕ → Array → Type 0
Bounded end a =
    (a.body_ ≡ none)
    ⊎ ((b : ℕ) × (a.body_ ≡ some b)
        × (1 ≤ a.width_)
        × (a.width_ * a.size_ < 2 ^ 32)
        × (b + a.width_ * a.size_ ≤ end))

module _ (mem : List ℕ) (end : ℕ) (fits : end ≤ length mem) where
  -- `GetObject` gives null or a place before the end.
  pub get_object_before :
      (f : Field)
      → Inside end f
      → (o : Option ℕ) × (get_object mem f (some end) ≡ done o)
        × ((o ≡ none) ⊎ ((q : ℕ) × (o ≡ some q) × (q < end)))
  unfolding get_object
  get_object_before f (inl e) = (none, rw e, inl refl)
  get_object_before f (inr (p, w, e, pos, room)) =
      let (v, read) = word_inside mem p (omega arith) in
      let near : leb end p ≡ false = ground arith in
      elim (Bool-cases (leb end (follow p v))) [
        | inl far ↦ (none, rw (e, near, read, far), inl refl)
        | inr there ↦
            (some (follow p v), rw (e, near, read, there), inr (follow p v, refl, ground arith))
      ]

  pub array-Bounded :
      (p : ℕ)
      → p < end
      → IsMemory mem
      → (a : Array) × (array mem (some p) (some end) ≡ done a) × Bounded end a
  unfolding array
  array-Bounded p h words =
      let (w, e) = word_inside mem p (omega arith) in
      let small = word-lt mem p w words e in
      let width = bit_and w 3 in
      let mask : width ≡ w % 4 = bit_and_mask 2 w in
      let area : width * (w / 2 ^ 2) ≤ 3 * (w / 2 ^ 2) = grind arith in
      let exact = mod-eq_of_lt {n = width * (w / 2 ^ 2)} {m = 2 ^ 32} (omega arith) in
      elim (Bool-cases ((width == 0) || ltb end (p + 1 + width * (w / 2 ^ 2)))) [
        | inl bad ↦ (
          record { body_ = none; size_ = w / 2 ^ 2; width_ = width },
          rw (e, exact, bad),
          inl refl,
        )
        | inr good ↦ (
          record { body_ = some (p + 1); size_ = w / 2 ^ 2; width_ = width },
          rw (e, exact, good),
          inr (p + 1, refl, ground arith, omega arith, ground arith),
        )
      ]

  -- An element of a bounded array is a field before the end.
  pub element-Inside :
      (a : Array) (pos : ℕ) → Bounded end a → pos < a.size_ → Inside end (element a pos)
  unfolding element
  element-Inside a pos (inl e) h = rw e (inl refl)
  element-Inside a pos (inr (b, e, some_words, small, room)) h =
      let inner : a.width_ * pos + a.width_ ≤ a.width_ * a.size_ = grind arith in
      let exact = mod-eq_of_lt {n = a.width_ * pos} {m = 2 ^ 32} (omega arith) in
      rw (e, exact) (inr (b + a.width_ * pos, a.width_, refl, some_words, omega arith))

  read_mark-Between :
      (base fuel sft mark p : ℕ)
      → base ≤ p
      → 1 ≤ fuel
      → 42 ≤ sft + 7 * fuel
      → (s : Slice) × (read_mark fuel mem (some (end * 4)) sft mark p ≡ done s) × Between base end s
  unfolding read_mark
  read_mark-Between base zero sft mark p after pos enough = absurd (omega arith)
  read_mark-Between base (suc fuel) sft mark p after pos enough = elim (Bool-cases (ltb sft 32)) [
    | inr late ↦ (null, rw late, inl refl)
    | inl early ↦ elim (Bool-cases (leb (end * 4) p)) [
      | inl over ↦ (null, rw (early, over), inl refl)
      | inr before ↦
          let (b, read, small) = byte_inside mem p (ground arith) in
          elim (Bool-cases (bit_and b 0x80 == 0)) [
            | inr more ↦
                rw (early, before, read, more)
                  (read_mark-Between base fuel (sft + 7) (bit_or mark (bit_and b 0x7f * 2 ^ sft))
                    (p + 1) (omega arith) (ground arith) (omega arith))
            | inl last ↦
                let len = bit_or mark (b * 2 ^ sft) / 2 ^ 2 in
                elim (Bool-cases (ltb (end * 4) (p + 1 + len))) [
                  | inl far ↦ (null, rw (early, before, read, last, far), inl refl)
                  | inr near ↦ (
                    record { ptr_ = some (p + 1); len_ = len },
                    rw (early, before, read, last, near),
                    inr (p + 1, refl, omega arith, ground arith),
                  )
                ]
          ]
    ]
  ]

  read_header-Between :
      (base b p : ℕ)
      → base ≤ p
      → p + 1 ≤ end * 4
      → (s : Slice) × (read_header mem (some (end * 4)) b p ≡ done s) × Between base end s
  unfolding read_header
  read_header-Between base b p after h = elim (Bool-cases (bit_and b 0x80 == 0)) [
    | inr long ↦ rw long (
        read_mark-Between base 5 7 (bit_and b 0x7f) (p + 1) (omega arith) (omega arith)
          (omega arith))
    | inl short ↦ elim (Bool-cases (ltb (end * 4) (p + 1 + b / 2 ^ 2))) [
      | inl far ↦ (null, rw (short, far), inl refl)
      | inr near ↦ (
        record { ptr_ = some (p + 1); len_ = b / 2 ^ 2 },
        rw (short, near),
        inr (p + 1, refl, omega arith, ground arith),
      )
    ]
  ]

  -- `String(ptr, end)` ends, and its bytes lie before the end and not before the string.
  pub string-Between :
      (p : ℕ)
      → p < end
      → (s : Slice) × (string mem (some p) (some end) ≡ done s) × Between (p * 4) end s
  unfolding string
  string-Between p h =
      let (b, read, small) = byte_inside mem (p * 4) (omega arith) in
      let near : leb (end * 4) (p * 4) ≡ false = ground arith in
      elim (Bool-cases (bit_and b 3 == 0)) [
        | inr tagged ↦ (null, rw (near, read, tagged), inl refl)
        | inl plain ↦
            rw (near, read, plain)
              (read_header-Between (p * 4) b (p * 4) (omega arith) (omega arith))
      ]

  pub string-Within :
      (p : ℕ) → p < end → (s : Slice) × (string mem (some p) (some end) ≡ done s) × Within end s
  string-Within p h =
      let (s, e, between) = string-Between p h in
      (s, e, elim between [ inl gone ↦ inl gone | inr (q, eq, _, room) ↦ inr (q, eq, room) ])
