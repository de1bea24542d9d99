-- ===== src/PerfectHash/Build/Size.antt =====
-- The size of what Build writes, and the size that the reader of an index expects.
use protocache.Base.{
  ℕ, ◌+◌, ◌*◌, ◌/◌, ◌^◌, ◌<◌, ◌≤◌, ◌≡◌, refl, ap, sym, ◌∙◌, inl, inr, true, false, Bool, Bool-cases,
  ◌==◌, ltb, leb, if◌then◌else◌, List, Option, some, none, Run, done, fault, >>=-eq-done, arith,
  take, stuck, agree_below, agree_below→eq,
}
use protocache.PerfectHash.Bits.{section, bitmap_size}
use protocache.PerfectHash.Bits.Sizes.{bitmap_size-section, bitmap_size-lt}
use protocache.PerfectHash.Division.{assign}
use protocache.PerfectHash.Index.{table_size, index_bytes}
use protocache.PerfectHash.Build.{
  Work, Search, Image, image, search, count_table, build_words, build,
}

-- The bytes for a table of items of `w` bits.
abbrev bytes_for : ℕ → ℕ → ℕ
bytes_for w bytes = if ltb 8 bytes then 8 + bytes + bytes / 8 * (w / 8) else 8 + bytes

abbrev size_of : Run Image → ℕ
size_of (done i) = i.data_size
size_of fault = 0
size_of stuck = 0

image_size :
    (w total : ℕ) (s : Search) (i : Image)
    → image w total s ≡ done i
    → i.data_size ≡ bytes_for w (bitmap_size (section total))
unfolding image
image_size w total s i e =
    let bytes = bitmap_size (section total) in
    let counted = count_table w (take bytes s.work.tables.bitmap) 0 in
    elim (Bool-cases (ltb 8 bytes)) [
      | inl large ↦ elim (Bool-cases (counted.1 == total)) [
        | inl all_there ↦
            let same = rw (large, all_there) at e in
            rw large (sym (ap (λ (r : Run Image). size_of r) same))
        | inr some_missing ↦
            let clash : ◌≡◌ {A = Run Image} fault (done i) = rw (large, some_missing) at e in cc
      ]
      | inr small ↦
          let same = rw small at e in rw small (sym (ap (λ (r : Run Image). size_of r) same))
    ]

build_words_size :
    (w : ℕ) (no_check : Bool) (source : List (List ℕ)) (total seed : ℕ) (work : Work) (i : Image)
    → build_words w no_check source total seed work ≡ done (some i)
    → i.data_size ≡ bytes_for w (bitmap_size (section total))
unfolding build_words
build_words_size w no_check source total seed work i e =
    let (found, _, e') =
      >>=-eq-done (search w no_check source total (assign (section total)) _) _ e in
    elim (Bool-cases found.0) [
      | inl yes_found ↦
          let e'' = rw yes_found at e' in
          let (j, ej, same) = >>=-eq-done (image w total found.1) (λ j. done (some j)) e'' in
          let same' : j ≡ i = cc in rw (← same') (image_size w total found.1 j ej)
      | inr not_found ↦
          let clash : ◌≡◌ {A = Run (Option Image)} (done none) (done (some i)) =
            rw not_found at e' in
          cc
    ]

-- The bitmap is longer than eight bytes from 25 keys on.
pub bitmap_size-small : (n : ℕ) → n ≤ 24 → bitmap_size (section n) ≡ 8
unfolding section bitmap_size agree_below
bitmap_size-small n h =
    agree_below→eq (λ n. bitmap_size (section n)) (λ n. 8) 25 refl n (omega arith)

section-large : (n : ℕ) → 24 < n → n < 2 ^ 28 → 11 ≤ section n
unfolding section
section-large n h small = omega arith

pub bitmap_size-large : (n : ℕ) → 24 < n → n < 2 ^ 28 → 8 < bitmap_size (section n)
bitmap_size-large n h small =
    let (slots_fit, _, _) = bitmap_size-section n small in
    let wide = section-large n h small in omega arith

-- The items are as wide as the number of keys asks for.
bytes_for-index_bytes :
    (w n : ℕ)
    → n < 2 ^ 28
    → w / 8 ≡ (if ltb 0xffff n then 4 else if ltb 0xff n then 2 else 1)
    → bytes_for w (bitmap_size (section n)) ≡ index_bytes n
unfolding index_bytes table_size
bytes_for-index_bytes w n small width =
    let bytes = bitmap_size (section n) in
    let (_, whole, _) = bitmap_size-section n small in
    let short = bitmap_size-lt n small in
    elim (Bool-cases (ltb 24 n)) [
      | inr few ↦
          let eight : bytes ≡ 8 = bitmap_size-small n (ground arith) in
          let not_large : ltb 0xffff n ≡ false = ground arith in
          let not_middle : ltb 0xff n ≡ false = ground arith in
          rw (eight, not_large, not_middle, few) refl
      | inl many ↦
          let long : ltb 8 bytes ≡ true =
            let more = bitmap_size-large n (ground arith) small in ground arith in
          elim (Bool-cases (ltb 0xffff n)) [
            | inl large ↦
                let four : w / 8 ≡ 4 = rw large at width in rw (long, large, four) (omega arith)
            | inr not_large ↦ elim (Bool-cases (ltb 0xff n)) [
              | inl middle ↦
                  let two : w / 8 ≡ 2 = rw (not_large, middle) at width in
                  rw (long, not_large, middle, two) (omega arith)
              | inr small' ↦
                  let one : w / 8 ≡ 1 = rw (not_large, small') at width in
                  rw (long, not_large, small', many, one) (omega arith)
            ]
          ]
    ]

-- Where build makes an index of more than one key, there are fewer than 2 ^ 28 keys, and the data have the
-- size that the reader of an index demands for this number of keys, so that build and the reader agree on when
-- there is a table and how wide its items are.
pub build-index_bytes :
    (no_check : Bool) (source : List (List ℕ)) (total seed : ℕ) (work : Work) (i : Image)
    → build no_check source total seed work ≡ done (some i)
    → 1 < total
    → (total < 2 ^ 28) × (i.data_size ≡ index_bytes total)
unfolding build
build-index_bytes no_check source total seed work i e many =
    elim (Bool-cases (leb (2 ^ 28) total)) [
      | inl too_many ↦
          let clash : ◌≡◌ {A = Run (Option Image)} (done none) (done (some i)) = rw too_many at e in
          cc
      | inr fits ↦
          let small : total < 2 ^ 28 = ground arith in
          let by_width : (w : ℕ)
              → build_words w no_check source total seed work ≡ done (some i)
              → w / 8 ≡ (if ltb 0xffff total then 4 else if ltb 0xff total then 2 else 1)
              → (total < 2 ^ 28) × (i.data_size ≡ index_bytes total) =
            λ w e' width. (
              small,
              build_words_size w no_check source total seed work i e'
                  ∙ bytes_for-index_bytes w total small width,
            ) in
          elim (Bool-cases (ltb 0xffff total)) [
            | inl large ↦ by_width 32 (rw (fits, large) at e) (rw large refl)
            | inr not_large ↦ elim (Bool-cases (ltb 0xff total)) [
              | inl middle ↦
                  by_width 16 (rw (fits, not_large, middle) at e) (rw (not_large, middle) refl)
              | inr small' ↦
                  let more : ltb 1 total ≡ true = ground arith in
                  by_width 8 (rw (fits, not_large, small', more) at e) (rw (not_large, small') refl)
            ]
          ]
    ]
