-- ===== src/Compress/Format.antt =====
-- The packed format, written down without reference to the code that reads and writes it.
use protocache.Base.{ℕ, ◌+◌, ◌*◌, ◌≤◌, List, [], ◌∷◌, ◌++◌, length, replicate}

-- A chunk: its mark of four bits, the bytes that it stands for, the bytes that follow the mark.
pub data Chunk : ℕ → List ℕ → List ℕ → Type 0 where
  zeros : (n : ℕ) → 1 ≤ n → n ≤ 4 → Chunk (7 + n) (replicate n 0) []
  ones : (n : ℕ) → 1 ≤ n → n ≤ 4 → Chunk (11 + n) (replicate n 255) []
  plain : (bs : List ℕ) → 1 ≤ length bs → length bs ≤ 7 → Chunk (length bs) bs bs

-- `Packs s t`: the bytes `t` are a packed form of `s`. Two marks share a byte, the first one low.
pub data Packs : List ℕ → List ℕ → Type 0 where
  none_left : Packs [] []
  one_left : {m : ℕ} {x p : List ℕ} → Chunk m x p → Packs x (m ∷ p)
  two_marks :
      {m n : ℕ} {x y p q s t : List ℕ}
      → Chunk m x p
      → Chunk n y q
      → Packs s t
      → Packs (x ++ (y ++ s)) ((m + n * 16) ∷ (p ++ (q ++ t)))
