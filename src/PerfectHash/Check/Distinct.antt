-- ===== src/PerfectHash/Check/Distinct.antt =====
-- What Check answers.
use protocache.Base.{
  ℕ, zero, suc, ◌+◌, ◌*◌, ◌%◌, ◌^◌, ◌<◌, ◌≤◌, ◌≡◌, refl, sym, ◌∙◌, inl, inr, ◌⊎◌, true, false, Bool,
  ◌==◌, List, [], ◌∷◌, ◌++◌, drop, length, length-replicate, replicate, get_or, set, leb, Option,
  none, some, done, arith,
}
use native.Mathlib.Nat.{mod-lt, mod-eq_of_lt}
use protocache.Hash.{hash128}
use protocache.Hash.Digest.{hash128-digest}
use protocache.PerfectHash.Graph.{memset}
use protocache.PerfectHash.Check.{Code, insert, check_keys, table_space, check}
use protocache.PerfectHash.Check.Table.{
  code_of, mask, AllDiffer, SomeAgree, mask-marked, place_of, Holds, cleared-Holds, insert-Holds,
  differ_more,
}
use protocache.PerfectHash.Check.Probing.{Full-enough, probe-Probed}

-- What Check means to say of the first `n` keys.
abbrev pub Verdict : List (List ℕ) → ℕ → ℕ → Bool → Type 0
Verdict source n seed r =
    ((r ≡ true) × (n ≤ length source) × AllDiffer source seed n)
    ⊎ ((r ≡ false) × ((length source < n) ⊎ SomeAgree source seed n))

-- Space of its own, or space for so many codes.
abbrev pub HasRoom : ℕ → Option (List Code) → Type 0
HasRoom m none = Unit
HasRoom m (some space) = m ≤ length space

-- The rest of a list from place `i` on.
drop_cons :
    (i : ℕ) (whole : List (List ℕ)) (key : List ℕ) (rest : List (List ℕ))
    → drop i whole ≡ key ∷ rest
    → (get_or whole i [] ≡ key) × (drop (suc i) whole ≡ rest) × (suc i ≤ length whole)
drop_cons i [] key rest e =
    elim i
        as (λ j.
          drop j [] ≡ key ∷ rest
          → (get_or [] j [] ≡ key) × (drop (suc j) [] ≡ rest) × (suc j ≤ length {A = List ℕ} [])) [
            | zero ↦ (λ h. absurd cc)
            | suc j ↦ (λ h. absurd cc)
          ]
      e
drop_cons zero (x ∷ whole) key rest e = (cc, cc, omega arith)
drop_cons (suc i) (x ∷ whole) key rest e =
    let (it, tail, more) = drop_cons i whole key rest e in (it, tail, omega (arith, more))

drop_nil : (i : ℕ) (whole : List (List ℕ)) → drop i whole ≡ [] → length whole ≤ i
drop_nil i [] e = omega arith
drop_nil zero (x ∷ whole) e = absurd cc
drop_nil (suc i) (x ∷ whole) e = omega (arith, drop_nil i whole e)

module _ (whole : List (List ℕ)) (n m seed : ℕ) (twice : m ≡ n * 2) where
  check_keys-Verdict :
      (k i : ℕ) (source : List (List ℕ)) (space : List Code)
      → i + k ≡ n
      → drop i whole ≡ source
      → i ≤ length whole
      → Holds whole n m seed twice i space
      → AllDiffer whole seed i
      → (r : Bool) × (table : List Code) × (check_keys n m seed k source space ≡ done (r, table))
        × Verdict whole n seed r
  unfolding check_keys insert
  check_keys-Verdict zero i source space all from read s differ =
      let e : i ≡ n = omega arith in (true, space, refl, inl (refl, omega arith, rw (← e) differ))
  check_keys-Verdict (suc k) i [] space all from read s differ =
      let short = drop_nil i whole from in
      (false, space, refl, inr (refl, inl (omega (arith, short, all))))
  check_keys-Verdict (suc k) i (key ∷ source) space all from read s differ =
      let (it, from', more) = drop_cons i whole key source from in
      let c = code_of whole seed i in
      let hashed : hash128 key (length key) seed ≡ done c =
        rw (← it) (hash128-digest (get_or whole i []) seed) in
      let pos : 0 < m = omega arith in
      let some_place : (m == 0) ≡ false = ground arith in
      elim (probe-Probed n m space (mask c) (place_of whole n m seed twice i) s.sized (mod-lt _ pos)
        (mask-marked c)) [
          | inl (q, h, free, returns, reaches) ↦
              let (r, table, e, verdict) =
                check_keys-Verdict k (suc i) source (set space q (mask c)) (omega arith) from' more
                  (insert-Holds whole n m seed twice i space q s h free reaches)
                  (differ_more whole n m seed twice i space (set space q (mask c)) s pos differ
                    returns) in
              (r, table, rw (hashed, some_place, returns) e, verdict)
          | inr rest ↦ elim rest [
            | inl (q, h, used, same, returns) ↦
                let (j, hj, e) = s.held q h used in
                (
                  false,
                  space,
                  rw (hashed, some_place, returns) refl,
                  inr (refl, inr (j, i, hj, omega arith, sym e ∙ same)),
                )
            | inr (returns, full) ↦
                let enough =
                  Full-enough n m space (place_of whole n m seed twice i) (mod-lt _ pos)
                    (omega arith) full in
                let counted = s.counted in absurd (omega (arith, enough, counted, all))
          ]
        ]

table_space-fits :
    (m : ℕ) (space : Option (List Code))
    → HasRoom m space
    → leb m (length (table_space m space)) ≡ true
unfolding table_space
table_space-fits m none room = rw length-replicate (ground arith)
table_space-fits m (some space) room = ground (arith, room)

-- The loop starts on a table whose places are all free.
check-cleared :
    (source : List (List ℕ)) (n seed : ℕ) (space : Option (List Code))
    → n < 2 ^ 31
    → HasRoom (n * 2) space
    → check source n seed space
      ≡ check_keys n
          (n * 2)
          seed
          n
          source
          (replicate (n * 2) (0, 0) ++ drop (n * 2) (table_space (n * 2) space))
unfolding check memset
check-cleared source n seed space small room =
    let same : n * 2 % 2 ^ 32 ≡ n * 2 = mod-eq_of_lt {n = n * 2} {m = 2 ^ 32} (omega arith) in
    let fits = table_space-fits (n * 2) space room in rw (same, fits) refl

-- For fewer than 2 ^ 31 keys, in an array of its own or in a given array of at least twice as many codes,
-- whatever it holds, check ends without a fault; if it answers true, the source has all the keys and no two of
-- them have the same hash, and if it answers false, the source has fewer keys or two of them have hashes that
-- differ in the lowest bit at most.
pub check-Verdict :
    (source : List (List ℕ)) (n seed : ℕ) (space : Option (List Code))
    → n < 2 ^ 31
    → HasRoom (n * 2) space
    → (r : Bool) × (table : List Code) × (check source n seed space ≡ done (r, table))
      × Verdict source n seed r
check-Verdict source n seed space small room =
    let m = n * 2 in
    let rest = drop m (table_space m space) in
    let (r, table, e, verdict) =
      check_keys-Verdict source n m seed refl n 0 source (replicate m (0, 0) ++ rest) (omega arith)
        refl (omega arith) (cleared-Holds source n m seed refl rest)
        (λ a b below h. absurd (omega (arith, h))) in
    (r, table, check-cleared source n seed space small room ∙ e, verdict)
