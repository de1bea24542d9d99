-- ===== src/PerfectHash/Build/Found.antt =====
-- The tries one after the other, up to `L_done`.
use protocache.Base.{
  ap, drop, [], ◌∷◌, length, Option, none, some, ◌*◌, ◌/◌, ◌%◌, ltb, length-replicate, ℕ, zero, suc,
  ◌^◌, ◌<◌, ◌≤◌, ◌≡◌, refl, true, false, Bool, Bool-cases, inl, inr, List, Run, done, arith,
}
use native.Mathlib.Nat.{mod-eq_of_lt}
use protocache.Hash.Random.{next}
use protocache.PerfectHash.Bits.{section}
use protocache.PerfectHash.Check.{Code}
use protocache.PerfectHash.Graph.{Edge}
use protocache.PerfectHash.Check.Distinct.{check-Verdict, HasRoom}
use protocache.PerfectHash.Division.{assign}
use protocache.PerfectHash.Build.{
  Work, Search, spill, after_check, tries, search, temp_size, check_space, first_tries,
  second_tries,
}
use protocache.PerfectHash.Build.Perfect.{Perfect}
use protocache.PerfectHash.Build.Attempt.{HasSpace, attempt-Tried}

-- A search that ends, and the bitmap where it found one.
pub record Searched (n : ℕ) (source : List (List ℕ)) (r : Run (Bool × Search)) : Type 0 where
  pub found : Bool
  pub after : Search
  pub returns : r ≡ done (found, after)
  pub space : HasSpace n after.work
  pub perfect : found ≡ true → Perfect (section n) n after.seed source after.work.tables.bitmap

check_space-HasRoom : (w n : ℕ) → n < 2 ^ 28 → HasRoom (n * 2) (check_space w n)
unfolding check_space
check_space-HasRoom w n small =
    let codes = temp_size w n / 16 in
    let same : n * 2 % 2 ^ 32 ≡ n * 2 = mod-eq_of_lt {n = n * 2} {m = 2 ^ 32} (omega arith) in
    elim (Bool-cases (ltb (n * 2) codes)) [
      | inl large ↦
          let large' : n * 2 ≤ codes = ground arith in rw (same, large, length-replicate) large'
      | inr few ↦ rw (same, few) tt
    ]

length-spill : (ws : List ℕ) (es : List Edge) → length (spill ws es) ≡ length es
unfolding spill
length-spill ws [] = refl
length-spill ws (e ∷ es) = ap suc (length-spill (drop 9 ws) es)

-- What Check leaves has the same room.
after_check-HasSpace :
    (n : ℕ) (space : Option (List Code)) (table : List Code) (k : Work)
    → HasSpace n k
    → HasSpace n (after_check space n table k)
unfolding after_check
after_check-HasSpace n none table k room = room
after_check-HasSpace n (some space) table k room = record {
  edges = rw length-spill room.edges;
  nodes = room.nodes;
  book_bytes = room.book_bytes;
  book = room.book;
  bitmap_bytes = room.bitmap_bytes;
  bitmap = room.bitmap;
}

module _ (w n : ℕ) (source : List (List ℕ)) (small : n < 2 ^ 28) (wide : 16 ≤ 2 ^ w)
    (fits : n < 2 ^ w) where
  tries-Searched :
      (count : ℕ) (s : Search)
      → HasSpace n s.work
      → Searched n source (tries count w source n (assign (section n)) s)
  unfolding tries
  tries-Searched zero s space = record {
    found = false;
    after = s;
    returns = refl;
    space = space;
    perfect = λ yes. absurd (ground arith);
  }
  tries-Searched (suc count) s space =
      let (seed, rand32) = next s.rand32 in
      let t = attempt-Tried w n seed source small wide fits s.work space in
      let now : Search = record { rand32 = rand32; seed = seed; work = t.after } in
      elim (Bool-cases t.ok) [
        | inl good ↦ record {
          found = true;
          after = now;
          returns = rw (t.returns, good) refl;
          space = t.space;
          perfect = λ yes. t.perfect good;
        }
        | inr bad ↦
            let rest = tries-Searched count now t.space in
            record {
              found = rest.found;
              after = rest.after;
              returns = rw (t.returns, bad) rest.returns;
              space = rest.space;
              perfect = rest.perfect;
            }
      ]

  -- The tries, with or without Check between them.
  pub search-Searched :
      (no_check : Bool) (s : Search)
      → HasSpace n s.work
      → Searched n source (search w no_check source n (assign (section n)) s)
  unfolding search
  search-Searched no_check s space =
      let first = tries-Searched (first_tries w) s space in
      let trusted = tries-Searched (second_tries w) first.after first.space in
      let (fine, table, e, _) =
        check-Verdict source n first.after.seed (check_space w n) (omega (arith, small))
          (check_space-HasRoom w n small) in
      let left = after_check (check_space w n) n table first.after.work in
      let room = after_check-HasSpace n (check_space w n) table first.after.work first.space in
      let now : Search = record first.after { work = left } in
      let again = tries-Searched (second_tries w) now room in
      elim (Bool-cases first.found) [
        | inl good ↦ record {
          found = true;
          after = first.after;
          returns = rw (first.returns, good) refl;
          space = first.space;
          perfect = λ yes. first.perfect good;
        }
        | inr bad ↦ elim (Bool-cases no_check) [
          | inl trust ↦ record {
            found = trusted.found;
            after = trusted.after;
            returns = rw (first.returns, bad, trust) trusted.returns;
            space = trusted.space;
            perfect = trusted.perfect;
          }
          | inr careful ↦ elim (Bool-cases fine) [
            | inl passed ↦ record {
              found = again.found;
              after = again.after;
              returns = rw (first.returns, bad, careful, e, passed) again.returns;
              space = again.space;
              perfect = again.perfect;
            }
            | inr refused ↦ record {
              found = false;
              after = now;
              returns = rw (first.returns, bad, careful, e, refused) refl;
              space = room;
              perfect = λ yes. absurd (ground arith);
            }
          ]
        ]
      ]
