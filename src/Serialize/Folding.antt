-- ===== src/Serialize/Folding.antt =====
-- FoldField behind a serializer.
use protocache.Base.{
  ℕ, ◌-◌, ◌^◌, ◌<◌, ◌≤◌, ◌≡◌, refl, ap, ◌∙◌, inl, inr, Bool-cases, ◌==◌, ltb, ◌&&◌, not, true,
  false, Bool, if◌then◌else◌, List, [], ◌∷◌, ◌++◌, length, length-append, take, drop-length-append,
  done, arith,
}
use native.Mathlib.Nat.{mod-eq_of_lt}
use protocache.Buffer.{Buffer, size, view, shrink}
use protocache.Buffer.Moves.{IsValid, length-view}
use protocache.Buffer.Laws.{shrink-Leaves}
use protocache.Serialize.{FieldUnit, inline, segment, segment_from, fill_words, fold_field}
use protocache.Serialize.Strings.RoundTrip.{Keeps}

-- A unit that keeps words itself keeps one, two or three.
abbrev pub IsUnit : FieldUnit → Type 0
IsUnit (inline ws) = (0 < length ws) × (length ws < 4)
IsUnit (segment pos len) = Unit

-- One, two or three words.
abbrev pub few : List ℕ → Bool
few ws = ltb 0 (length ws) && ltb (length ws) 4

-- The words `ws` are in the unit if they are few, and in front of what the buffer had if not.
abbrev pub Folded : Buffer → List ℕ → Buffer → FieldUnit → Type 0
Folded b ws next unit =
    (unit ≡ (if few ws then inline ws else segment (size next) (length ws)))
    × (view next ≡ (if few ws then view b else ws ++ view b))

segment_from-length :
    (b next : Buffer) (ws : List ℕ)
    → IsValid b
    → IsValid next
    → view next ≡ ws ++ view b
    → size next < 2 ^ 32
    → segment_from (size b) (size next) ≡ segment (size next) (length ws)
unfolding segment_from
segment_from-length b next ws valid valid' e short =
    let all = ap length e ∙ length-append ws (view b) in
    let grown : size next - size b ≡ length ws =
      omega (arith, all, length-view b valid, length-view next valid') in
    let less : length ws < 2 ^ 32 =
      omega (arith, all, length-view b valid, length-view next valid', short) in
    rw
      (
        grown,
        mod-eq_of_lt {n = length ws} {m = 2 ^ 32} less,
        mod-eq_of_lt {n = size next} {m = 2 ^ 32} short,
      )
      refl

-- The loop on so few words.
fill_few :
    (ws rest : List ℕ) (p l : ℕ)
    → few ws ≡ true
    → (words : List ℕ) × (fill_words (length ws) 0 (ws ++ rest) (p ∷ l ∷ 0 ∷ []) ≡ done words)
      × (take (length ws) words ≡ ws)
unfolding fill_words
fill_few [] rest p l h = absurd (ground arith)
fill_few (x ∷ []) rest p l h = (x ∷ l ∷ 0 ∷ [], refl, refl)
fill_few (x ∷ y ∷ []) rest p l h = (x ∷ y ∷ 0 ∷ [], refl, refl)
fill_few (x ∷ y ∷ z ∷ []) rest p l h = (x ∷ y ∷ z ∷ [], refl, refl)
fill_few (x ∷ y ∷ z ∷ u ∷ ws) rest p l h = absurd (ground arith)

-- What FoldField does to a segment that lies at the head.
fold_segment :
    (b next : Buffer) (ws : List ℕ)
    → IsValid next
    → view next ≡ ws ++ view b
    → (after : Buffer) × (out : FieldUnit) × (fold_field next (segment (size next) (length ws))
        ≡ done (after, out))
      × IsValid after
      × Folded b ws after out
unfolding fold_field
fold_segment b next ws valid e = elim (Bool-cases (few ws)) [
  | inr stays ↦
      let test : (not (length ws == 0) && ltb (length ws) 4) ≡ false = ground arith in
      (next, segment (size next) (length ws), rw test refl, valid, rw stays (refl, e))
  | inl folds ↦
      let all = ap length e ∙ length-append ws (view b) in
      let fits : length ws ≤ size next = omega (arith, all, length-view next valid) in
      let test : (not (length ws == 0) && ltb (length ws) 4) ≡ true = ground arith in
      let head : (size next == size next) ≡ true = ground arith in
      let (words, filled, taken) = fill_few ws (view b) (size next) (length ws) folds in
      let loaded : fill_words (length ws) 0 (view next) (size next ∷ length ws ∷ 0 ∷ [])
          ≡ done words =
        rw e filled in
      let r = shrink-Leaves (length ws) next valid fits in
      let same : shrink (length ws) next ≡ r.next = cc in
      (
        r.next,
        inline ws,
        rw (test, head, loaded, taken) (ap (λ (a : Buffer). done (a, inline ws)) same),
        r.valid,
        rw folds (refl, r.holds ∙ rw e (drop-length-append ws (view b))),
      )
]

-- Where the buffer and the one before it are valid, fewer than 2 ^ 32 words are in use, and some words are in
-- a unit of one to three words or lie in front of what the buffer had, the unit being their segment,
-- fold_field ends without a fault in a valid buffer; one, two or three words are then in the unit and the
-- buffer holds what it had before them, and no words or more than three are still the segment in front of it.
pub fold_field-Folded :
    (b next : Buffer) (ws : List ℕ) (unit : FieldUnit)
    → IsValid b
    → IsValid next
    → size next < 2 ^ 32
    → IsUnit unit
    → Keeps b ws next unit
    → (after : Buffer) × (out : FieldUnit) × (fold_field next unit ≡ done (after, out))
      × IsValid after
      × Folded b ws after out
unfolding fold_field
fold_field-Folded b next ws unit valid valid' short is (inl (e, same)) =
    let (some_words, not_many) : (0 < length ws) × (length ws < 4) = rw e at is in
    let small : few ws ≡ true = ground arith in
    (next, inline ws, rw e refl, valid', rw small (refl, ap view same))
fold_field-Folded b next ws unit valid valid' short is (inr (e, holds)) =
    let place = segment_from-length b next ws valid valid' holds short in
    rw (e, place) (fold_segment b next ws valid' holds)
