-- ===== src/Access/Words.antt =====
-- Memory as the readers see it: words by address. A pointer is an address or null, counted in words for
-- `const uint32_t*` and in bytes for `const uint8_t*`; a read outside the memory is a fault.
use protocache.Base.{
  ℕ, ◌+◌, ◌*◌, ◌/◌, ◌%◌, ◌^◌, ◌<◌, ◌≡◌, refl, zero, suc, List, [], ◌∷◌, Option, none, some, Bool,
  true, false, get_elem?, length, leb, ltb, Run, done, access, ◌>>=◌, arith, All,
}

-- `Slice<T>`: a null pointer is `none`.
pub record Slice : Type 0 where
  pub ptr_ : Option ℕ
  pub len_ : ℕ

abbrev pub null : Slice
null = record { ptr_ = none; len_ = 0 }

-- `Slice::operator!`
abbrev pub is_null : Slice → Bool
is_null s = elim s.ptr_ [ none ↦ true | some p ↦ false ]

-- `*p` on words, on bytes, and on 64-bit words that lie at an even distance from `p`.
unfoldable pub word : List ℕ → ℕ → Run ℕ
word mem p = access (get_elem? mem p)

unfoldable pub byte : List ℕ → ℕ → Run ℕ
unfolding word
byte mem p = do w ← word mem (p / 4); done (w / 256 ^ (p % 4) % 256)

unfoldable pub word64 : List ℕ → ℕ → Run ℕ
unfolding word
word64 mem p = do lo ← word mem p; hi ← word mem (p + 1); done (lo + hi * 2 ^ 32)

-- `end != nullptr && p >= end`, and `end != nullptr && p > end`.
abbrev pub reaches : ℕ → Option ℕ → Bool
reaches p none = false
reaches p (some end) = leb end p

abbrev pub passes : ℕ → Option ℕ → Bool
passes p none = false
passes p (some end) = ltb end p

get_elem?-lt : (mem : List ℕ) (p : ℕ) → p < length mem → (w : ℕ) × (get_elem? mem p ≡ some w)
get_elem?-lt [] p h = absurd (omega arith)
get_elem?-lt (w ∷ mem) zero h = (w, refl)
get_elem?-lt (w ∷ mem) (suc p) h = get_elem?-lt mem p (omega arith)

-- A read inside the memory has a value.
pub word_inside : (mem : List ℕ) (p : ℕ) → p < length mem → (w : ℕ) × (word mem p ≡ done w)
unfolding word
word_inside mem p h = let (w, e) = get_elem?-lt mem p h in (w, rw e)

pub byte_inside :
    (mem : List ℕ) (p : ℕ) → p < 4 * length mem → (b : ℕ) × (byte mem p ≡ done b) × (b < 256)
unfolding byte
byte_inside mem p h =
    let (w, e) = word_inside mem (p / 4) (omega arith) in
    (w / 256 ^ (p % 4) % 256, rw e, omega arith)

pub word64_inside : (mem : List ℕ) (p : ℕ) → p + 1 < length mem → (w : ℕ) × (word64 mem p ≡ done w)
unfolding word64
word64_inside mem p h =
    let (lo, e) = word_inside mem p (omega arith) in
    let (hi, e') = word_inside mem (p + 1) h in (lo + hi * 2 ^ 32, rw (e, e'))

-- A memory of 32-bit words.
abbrev pub IsMemory : List ℕ → Type 0
IsMemory mem = All (λ w. w < 2 ^ 32) mem

get_elem?-lt32 :
    (mem : List ℕ) (p : ℕ) (w : ℕ) → IsMemory mem → get_elem? mem p ≡ some w → w < 2 ^ 32
get_elem?-lt32 [] p w h e = cc
get_elem?-lt32 (v ∷ mem) zero w h e = let same : v ≡ w = cc in rw (← same) h.0
get_elem?-lt32 (v ∷ mem) (suc p) w h e = get_elem?-lt32 mem p w h.1 e

access-eq-done : (o : Option ℕ) (w : ℕ) → access o ≡ done w → o ≡ some w
access-eq-done none w e = cc
access-eq-done (some v) w e = cc

pub word-lt : (mem : List ℕ) (p w : ℕ) → IsMemory mem → word mem p ≡ done w → w < 2 ^ 32
unfolding word
word-lt mem p w h e = get_elem?-lt32 mem p w h (access-eq-done (get_elem? mem p) w e)
