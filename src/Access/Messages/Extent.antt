-- ===== src/Access/Messages/Extent.antt =====
-- `Message::Detect`: the words of a message.
use protocache.Base.{
  ℕ, zero, suc, ◌+◌, ◌-◌, ◌*◌, ◌/◌, ◌%◌, ◌^◌, ◌≤◌, ◌<◌, ◌≡◌, refl, sym, ◌∙◌, List, [], ◌∷◌, Option,
  none, some, false, ◌==◌, inl, inr, Bool-cases, ltb, length, ◌⊎◌, done, fault, arith, bit_and_mask,
}
use native.Mathlib.Nat.{pow-suc, div-div-eq-div-mul}
use protocache.Access.Words.{Slice, word, word64, IsMemory, word_inside, word-lt}
use protocache.Access.Fields.{Field, no_field}
use protocache.Access.Count.{count32, widths}
use protocache.Access.Count.Sum.{count32-widths}
use protocache.Access.Messages.{sections, fields_end, message_detect, get_field}
use protocache.Access.Messages.Layout.{width_at, get_field-inline}

word_outside : (mem : List ℕ) (p : ℕ) → length mem ≤ p → word mem p ≡ fault
unfolding word
word_outside [] p h = refl
word_outside (w ∷ mem) zero h = absurd (omega arith)
word_outside (w ∷ mem) (suc p) h = word_outside mem p (omega arith)

-- Where the memory ends before the last section of a message does, `Detect` reads outside the memory,
-- whatever end it is given.
pub message_detect-fault :
    (mem : List ℕ) (p w : ℕ) (end : Option ℕ)
    → word mem p ≡ done w
    → 1 ≤ sections w
    → length mem ≤ p + sections w * 2
    → message_detect mem (some p) end ≡ fault
unfolding message_detect fields_end word64
message_detect-fault mem p w end read some_sections cut =
    let has : (sections w == 0) ≡ false = ground arith in
    let place : p + 1 + sections w * 2 - 2 + 1 ≡ p + sections w * 2 = omega arith in
    let high = word_outside mem (p + sections w * 2) cut in
    let low = p + 1 + sections w * 2 - 2 in
    elim (Bool-cases (ltb low (length mem))) [
      | inl there ↦
          let (lo, e) = word_inside mem low (ground arith) in rw (read, has, e, place, high)
      | inr gone ↦ rw (read, has, word_outside mem low (ground arith))
    ]

-- One width more.
widths-suc : (k v : ℕ) → widths (suc k) v ≡ widths k v + width_at k v
unfolding widths
widths-suc zero v = omega arith
widths-suc (suc k) v =
    let e : suc k * 2 ≡ suc (suc (k * 2)) = omega arith in
    let four : 2 ^ suc (suc (k * 2)) ≡ 4 * 2 ^ (k * 2) =
      omega (arith, pow-suc 2 (suc (k * 2)), pow-suc 2 (k * 2)) in
    rw (e, four, sym (div-div-eq-div-mul v 4 (2 ^ (k * 2)))) (omega (arith, widths-suc k (v / 4)))

widths-le : (k n v : ℕ) → k ≤ n → widths k v ≤ widths n v
unfolding widths
widths-le zero n v h = omega arith
widths-le (suc k) zero v h = absurd (omega arith)
widths-le (suc k) (suc n) v h = omega (arith, widths-le k n (v / 4) (omega arith))

-- The words of a header without sections: its low byte has no width.
count32-header : (w : ℕ) → w < 2 ^ 32 → sections w ≡ 0 → count32 w ≡ widths 12 (w / 2 ^ 8)
unfolding widths sections
count32-header w h none_there =
    let low : w % 256 ≡ 0 = sym (bit_and_mask 8 w) ∙ none_there in
    let a : w / 4 / 4 / 4 / 4 ≡ w / 2 ^ 8 = omega arith in
    count32-widths w h ∙ rw a (omega (arith, low))

-- A part that is null, or that lies behind the header and inside the words of a message.
abbrev pub Covered : ℕ → Slice → Field → Type 0
Covered p s f =
    (f ≡ no_field)
    ⊎ ((q : ℕ) × (f.ptr_ ≡ some q) × (1 ≤ f.width_) × (p + 1 ≤ q) × (q + f.width_ ≤ p + s.len_))

-- In memory of 32-bit words, on a message without sections, given no end: `Detect` gives words that start at
-- the header, and each of the first twelve fields is null or lies inside them.
pub message_detect-Covered :
    (mem : List ℕ) (p w id : ℕ)
    → IsMemory mem
    → word mem p ≡ done w
    → sections w ≡ 0
    → id < 12
    → (s : Slice) × (f : Field) × (message_detect mem (some p) none ≡ done s)
      × (s.ptr_ ≡ some p)
      × (get_field mem (some p) id none ≡ done f)
      × Covered p s f
unfolding message_detect fields_end
message_detect-Covered mem p w id words read none_there low =
    let h = word-lt mem p w words read in
    let v = w / 2 ^ 8 in
    let total = widths 12 v in
    let start : p + 1 + 0 * 2 ≡ p + 1 = omega arith in
    let field = get_field-inline mem p w id read h low in
    let s : Slice = record { ptr_ = some p; len_ = p + 1 + total - p } in
    let detected : message_detect mem (some p) none ≡ done s =
      rw (read, none_there, start, count32-header w h none_there) in
    elim (Bool-cases (width_at id v == 0)) [
      | inl e ↦ (s, no_field, detected, refl, field ∙ rw e refl, inl refl)
      | inr e ↦
          let f : Field = record {
            ptr_ = some (p + 1 + sections w * 2 + widths id v);
            width_ = width_at id v;
          } in
          let room : widths id v + width_at id v ≤ total =
            omega (arith, widths-suc id v, widths-le (suc id) 12 v (omega arith)) in
          (
            s,
            f,
            detected,
            refl,
            field ∙ rw e refl,
            inr (
              p + 1 + sections w * 2 + widths id v,
              refl,
              ground arith,
              omega arith,
              omega arith,
            ),
          )
    ]
