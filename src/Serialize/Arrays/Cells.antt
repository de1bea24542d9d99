-- ===== src/Serialize/Arrays/Cells.antt =====
-- Arrays of scalars, where every element is a cell of the same number of words.
use protocache.Base.{
  ℕ, zero, suc, ◌+◌, ◌-◌, ◌*◌, ◌/◌, ◌%◌, ◌^◌, ◌<◌, ◌≤◌, ◌≡◌, refl, ap, sym, ◌∙◌, true, false, ltb,
  leb, if◌then◌else◌, bit_or, bit_and_mask, bit_or_low, ◌==◌, List, [], ◌∷◌, ◌++◌, length,
  append_assoc, append-nil, map, length-map, length-append, some, none, done, arith, All, take,
  drop, get_elem?, take-length-append, drop-length-append,
}
use protocache.Access.Words.{word}
use protocache.Access.Arrays.{array}
use protocache.Buffer.{Allocator, Buffer, size, view, put_slice, shrink}
use protocache.Buffer.Moves.{IsValid, Leaves}
use protocache.Buffer.Laws.{put_slice-Leaves, put-Leaves, shrink-Leaves}
use protocache.Buffer.Moves.{drop-drop}
use protocache.Serialize.{FieldUnit, inline, segment_from, unit_size}
use protocache.Serialize.Arrays.{
  Picking, array_size, best_array_size, pick_unit, pick_all, mark_unit, mark_all, shrink_to,
  array_cells, serialize_array,
}

-- The words of all cells.
abbrev pub flat : List (List ℕ) → List ℕ
flat [] = []
flat (ws ∷ cells) = ws ++ flat cells

abbrev pub HaveWidth : ℕ → List (List ℕ) → Type 0
HaveWidth m = All (λ ws. length ws ≡ m)

array_size-inline :
    (w m : ℕ) (cells : List (List ℕ))
    → HaveWidth m cells
    → array_size w (map inline cells) ≡ length cells * (w + (if leb m w then 0 else m))
unfolding array_size unit_size
array_size-inline w m [] same = omega arith
array_size-inline w m (ws ∷ cells) (e, same) =
    rw (e, array_size-inline w m cells same) (grind arith)

-- The best width is that of the cells.
best_array_size-inline :
    (m n : ℕ) (cells : List (List ℕ))
    → (1 ≤ m) × (m ≤ 3)
    → length cells ≡ suc n
    → HaveWidth m cells
    → best_array_size (map inline cells) ≡ (m, length cells * m)
unfolding best_array_size
best_array_size-inline zero n cells range some_cell same = absurd (omega arith)
best_array_size-inline (suc zero) n cells range some_cell same =
    let first : ltb (suc n * 2) (suc n * 1) ≡ false = ground arith in
    let second : ltb (suc n * 3) (suc n * 1) ≡ false = ground arith in
    rw
      (
        array_size-inline 1 1 cells same,
        array_size-inline 2 1 cells same,
        array_size-inline 3 1 cells same,
        some_cell,
        first,
        second,
      )
      refl
best_array_size-inline (suc (suc zero)) n cells range some_cell same =
    let first : ltb (suc n * 2) (suc n * 3) ≡ true = ground arith in
    let second : ltb (suc n * 3) (suc n * 2) ≡ false = ground arith in
    rw
      (
        array_size-inline 1 2 cells same,
        array_size-inline 2 2 cells same,
        array_size-inline 3 2 cells same,
        some_cell,
        first,
        second,
      )
      refl
best_array_size-inline (suc (suc (suc zero))) n cells range some_cell same =
    let first : ltb (suc n * 5) (suc n * 4) ≡ false = ground arith in
    let second : ltb (suc n * 3) (suc n * 4) ≡ true = ground arith in
    rw
      (
        array_size-inline 1 3 cells same,
        array_size-inline 2 3 cells same,
        array_size-inline 3 3 cells same,
        some_cell,
        first,
        second,
      )
      refl
best_array_size-inline (suc (suc (suc (suc m)))) n cells range some_cell same = absurd (omega arith)

pick_all-inline :
    (m : ℕ) (cells : List (List ℕ)) (s : Picking)
    → pick_all m (map inline cells) s ≡ done (map inline cells, s)
unfolding pick_all pick_unit
pick_all-inline m [] s = refl
pick_all-inline m (ws ∷ cells) s = rw (pick_all-inline m cells s) refl

mark_unit-inline :
    (h : Allocator) (ws : List ℕ) (b : Buffer)
    → mark_unit h (length ws) (inline ws) b ≡ put_slice h ws b
unfolding mark_unit put_slice
mark_unit-inline h ws b =
    let gap : length ws - length ws ≡ 0 = omega arith in rw (gap, append-nil ws) refl

mark_all-inline :
    (h : Allocator) (m : ℕ) (cells : List (List ℕ)) (b : Buffer)
    → HaveWidth m cells
    → IsValid b
    → Leaves (flat cells ++ view b) (mark_all h m (map inline cells) b)
unfolding mark_all
mark_all-inline h m [] b same valid = record {
  next = b;
  returns = refl;
  valid = valid;
  holds = refl;
}
mark_all-inline h m (ws ∷ cells) b (e, same) valid =
    let r = mark_all-inline h m cells b same valid in
    let q = put_slice-Leaves h ws r.next r.valid in
    record {
      next = q.next;
      returns = rw (r.returns, ← e, mark_unit-inline h ws r.next, q.returns) refl;
      valid = q.valid;
      holds = q.holds ∙ rw (r.holds, append_assoc ws (flat cells) (view b)) refl;
    }

-- Nothing was written since, so that nothing is taken back.
shrink_to-all :
    (b : Buffer)
    → IsValid b
    → shrink_to (record { buf = b; tail = b.size_ - size b }) ≡ done (shrink 0 b)
unfolding shrink_to size
shrink_to-all b valid =
    let tail : b.size_ - (b.size_ - b.off_) ≡ b.off_ = omega (arith, valid.inside) in
    let near : ltb b.off_ b.off_ ≡ false = ground arith in
    let none_left : b.off_ - b.off_ ≡ 0 = omega arith in rw (tail, near, none_left) refl

-- The header of the array, and what the class Array reads there.
array-header :
    (n m : ℕ) (rest : List ℕ)
    → (1 ≤ m) × (m ≤ 3)
    → n < 2 ^ 30
    → array (bit_or (n * 2 ^ 2 % 2 ^ 32) m ∷ rest) (some 0) none
      ≡ done (record { body_ = some 1; size_ = n; width_ = m })
unfolding array word
array-header n m rest range small =
    let exact : n * 2 ^ 2 % 2 ^ 32 ≡ n * 2 ^ 2 = omega arith in
    let sum = bit_or_low 2 n m (omega arith) in
    let mask = bit_and_mask 2 (n * 2 ^ 2 + m) in
    let width : (n * 2 ^ 2 + m) % 2 ^ 2 ≡ m = omega arith in
    let count : (n * 2 ^ 2 + m) / 2 ^ 2 ≡ n = omega arith in
    let some_width : (m == 0) ≡ false = ground arith in
    rw (exact, sum, mask, width, count, some_width) refl

-- The cells lie one after another.
cell-flat :
    (m i : ℕ) (ws : List ℕ) (cells : List (List ℕ)) (rest : List ℕ)
    → HaveWidth m cells
    → get_elem? cells i ≡ some ws
    → take m (drop (m * i) (flat cells ++ rest)) ≡ ws
cell-flat m i ws [] rest same e = cc
cell-flat m zero ws (first ∷ cells) rest (w, same) e =
    let here : first ≡ ws = cc in
    let start : m * 0 ≡ 0 = omega arith in
    rw (start, ← w, append_assoc first (flat cells) rest, here)
      (take-length-append ws (flat cells ++ rest))
cell-flat m (suc i) ws (first ∷ cells) rest (w, same) e =
    let behind = flat cells ++ rest in
    let place : m * suc i ≡ m + m * i = grind arith in
    let skip : drop m (first ++ behind) ≡ behind = rw (← w) (drop-length-append first behind) in
    let later : drop (m + m * i) (first ++ behind) ≡ drop (m * i) behind =
      sym (drop-drop (m * i) m (first ++ behind)) ∙ ap (drop (m * i)) skip in
    rw (place, append_assoc first (flat cells) rest, later) (cell-flat m i ws cells rest same e)

length-flat :
    (m : ℕ) (cells : List (List ℕ)) → HaveWidth m cells → length (flat cells) ≡ length cells * m
length-flat m [] same = omega arith
length-flat m (ws ∷ cells) (e, same) =
    rw (length-append ws (flat cells), e, length-flat m cells same) (grind arith)

-- The run, and what the buffer has then.
record Written (h : Allocator) (m : ℕ) (cells : List (List ℕ)) (b : Buffer) : Type 0 where
  next : Buffer
  returns :
      array_cells h m (map inline cells) b (size b)
      ≡ done (true, next, segment_from (size b) (size next))
  valid : IsValid next
  holds : view next ≡ bit_or (length cells * 2 ^ 2 % 2 ^ 32) m ∷ (flat cells ++ view b)

array_cells-Written :
    (h : Allocator) (m : ℕ) (cells : List (List ℕ)) (b : Buffer)
    → IsValid b
    → HaveWidth m cells
    → Written h m cells b
unfolding array_cells
array_cells-Written h m cells b valid same =
    let back = shrink-Leaves 0 b valid (omega arith) in
    let back_returns = shrink_to-all b valid ∙ back.returns in
    let marked = mark_all-inline h m cells back.next same back.valid in
    let head = bit_or (length cells * 2 ^ 2 % 2 ^ 32) m in
    let last = put-Leaves h head marked.next marked.valid in
    let picked = pick_all-inline m cells (record { buf = b; tail = b.size_ - size b }) in
    record {
      next = last.next;
      returns =
          rw (picked, back_returns, marked.returns, length-map cells inline, last.returns) refl;
      valid = last.valid;
      holds =
          last.holds ∙ ap (λ ws. head ∷ ws) (marked.holds ∙ ap (λ ws. flat cells ++ ws) back.holds);
    }

-- On a valid buffer to which nothing was written since the array was begun, for at least one element, all of
-- them units with the same number of words, from 1 to 3, and fewer than 2 ^ 30 words in all, serialize_array
-- ends without a fault and answers true; array reads from the new head of the buffer the number and the width
-- of the elements, their words lie one after another behind the header, and behind them lies what the buffer
-- had.
pub serialize_array-cells :
    (h : Allocator) (m : ℕ) (ws : List ℕ) (cells : List (List ℕ)) (b : Buffer) (unit : FieldUnit)
    → IsValid b
    → (1 ≤ m) × (m ≤ 3)
    → HaveWidth m (ws ∷ cells)
    → length (ws ∷ cells) * m < 2 ^ 30
    → (next : Buffer) × (serialize_array h (map inline (ws ∷ cells)) b (size b) unit
        ≡ done (true, next, segment_from (size b) (size next)))
      × IsValid next
      × (drop (suc (length (ws ∷ cells) * m)) (view next) ≡ view b)
      × (array (view next) (some 0) none
          ≡ done (record { body_ = some 1; size_ = length (ws ∷ cells); width_ = m }))
      × ((i : ℕ) (cell : List ℕ)
          → get_elem? (ws ∷ cells) i ≡ some cell
          → take m (drop (suc (m * i)) (view next)) ≡ cell)
unfolding serialize_array
serialize_array-cells h m ws cells b unit valid range same small =
    let all = ws ∷ cells in
    let n = length all in
    let best = best_array_size-inline m (length cells) all range (omega arith) same in
    let fits : leb (2 ^ 30) (n * m) ≡ false = ground arith in
    let few : n < 2 ^ 30 = grind arith in
    let r = array_cells-Written h m all b valid same in
    let behind : drop (n * m) (flat all ++ view b) ≡ view b =
      rw (← length-flat m all same) (drop-length-append (flat all) (view b)) in
    (
      r.next,
      rw (best, fits) r.returns,
      r.valid,
      rw r.holds behind,
      rw r.holds (array-header n m (flat all ++ view b) range few),
      λ i cell e. rw r.holds (cell-flat m i cell all (view b) same e),
    )
