-- ===== src/PerfectHash/Graph/Memset.antt =====
-- An array after `memset`.
use protocache.Base.{
  ℕ, zero, suc, ◌<◌, ◌≤◌, ◌≡◌, true, List, ◌++◌, length, length-append, length-replicate,
  length-drop, replicate, drop, leb, done, arith, All-append, All-drop,
}
use protocache.PerfectHash.Bits.Views.{Bytes}
use protocache.PerfectHash.Graph.{memset}

pub memset_lem :
    (k v : ℕ) (xs : List ℕ) → k ≤ length xs → memset k v xs ≡ done (replicate k v ++ drop k xs)
unfolding memset
memset_lem k v xs h = let room : leb k (length xs) ≡ true = ground arith in rw room

pub memset-length :
    (k v : ℕ) (xs : List ℕ) → k ≤ length xs → length (replicate k v ++ drop k xs) ≡ length xs
memset-length k v xs h = rw (length-append, length-replicate, length-drop) (omega arith)

All-replicate : (n v : ℕ) → v < 256 → Bytes (replicate n v)
All-replicate zero v h = tt
All-replicate (suc n) v h = (h, All-replicate n v h)

pub memset-Bytes : (k v : ℕ) (xs : List ℕ) → v < 256 → Bytes xs → Bytes (replicate k v ++ drop k xs)
memset-Bytes k v xs h bytes =
    All-append (λ b. b < 256) (replicate k v) (drop k xs) (All-replicate k v h)
      (All-drop (λ b. b < 256) k xs bytes)
