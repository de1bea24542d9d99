-- ===== src/PerfectHash/Check.antt =====
-- Check: whether no two keys have the same hash, by a table with open addressing.
pub mod Probing
pub mod Table
pub mod Distinct
use protocache.Base.{
  ℕ, zero, suc, ◌+◌, ◌*◌, ◌%◌, ◌^◌, ◌==◌, leb, ◌&&◌, if◌then◌else◌, bit_and, bit_or, Bool, true,
  false, List, [], ◌∷◌, length, get_elem?, set, replicate, Option, none, some, Run, done, fault,
  access, ◌>>=◌,
}
use protocache.Hash.{hash128}
use protocache.PerfectHash.Graph.{memset}

-- `V128`, as its two 64-bit words.
abbrev pub Code : Type 0
Code = ℕ × ℕ

-- `operator==`
unfoldable pub same_code : Code → Code → Bool
same_code (a, b) (c, d) = a == c && b == d

-- `++pos >= m`
abbrev pub next_place : ℕ → ℕ → ℕ
next_place m pos = if leb m (pos + 1) then 0 else pos + 1

-- The loop of `insert`, of `fuel` rounds, for a code whose lowest bit is set.
unfoldable pub probe : ℕ → ℕ → Code → ℕ → List Code → Run (Bool × List Code)
unfolding same_code
probe zero m code pos space = done (false, space)
probe (suc fuel) m code pos space = do
  there ← access (get_elem? space pos)
  let next = probe fuel m code (next_place m pos) space
  if bit_and there.0 1 == 0
      then done (true, set space pos code)
      else (if same_code there code then done (false, space) else next)

-- `insert`, for `n` keys and a table of `m` codes.
unfoldable pub insert : ℕ → ℕ → Code → ℕ → List Code → Run (Bool × List Code)
unfolding probe
insert n m (lo, hi) pos space = probe n m (bit_or lo 1, hi) pos space

-- The loop over the keys, `k` of the `n` left, and the table behind it. A division by 0 is a fault.
unfoldable pub check_keys : ℕ → ℕ → ℕ → ℕ → List (List ℕ) → List Code → Run (Bool × List Code)
unfolding insert
check_keys n m seed zero source space = done (true, space)
check_keys n m seed (suc k) [] space = done (false, space)
check_keys n m seed (suc k) (key ∷ source) space = do
  code ← hash128 key (length key) seed
  pos ← if m == 0 then fault else done (code.0 % 2 ^ 32 % m)
  (fine, space) ← insert n m code pos space
  elim fine [ true ↦ check_keys n m seed k source space | false ↦ done (false, space) ]

-- The array of codes that the table lies in: `space`, or one of its own of `m` codes.
unfoldable pub table_space : ℕ → Option (List Code) → List Code
table_space m none = replicate m (0, 0)
table_space m (some space) = space

-- `Check`, and what it leaves in the array. `source` has the keys from the first on.
unfoldable pub check : List (List ℕ) → ℕ → ℕ → Option (List Code) → Run (Bool × List Code)
unfolding check_keys table_space memset
check source n seed space = do
  let m = n * 2 % 2 ^ 32
  cleared ← memset m (0, 0) (table_space m space)
  check_keys n m seed n source cleared
