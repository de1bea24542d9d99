-- ===== src/Buffer.antt =====
-- The class `Buffer` of include/protocache/utils.h and src/utils.cc: an array of 32-bit words that is filled
-- from its end towards its front. Sizes and offsets are counted in words and do not wrap.
pub mod Moves
pub mod Laws
pub mod Refine
mod Tests
use protocache.Base.{
  ℕ, ◌+◌, ◌-◌, ◌*◌, ◌/◌, max, ◌≡◌, List, [], ◌∷◌, ◌++◌, length, take, drop, Option, none, some, ltb,
  leb, if◌then◌else◌, Run, done, fault, access, ◌>>=◌, poke, load,
}
use mathlib.Core.Option

-- `new uint32_t[n]`: an array of `n` words of unknown contents.
pub record Allocator : Type 0 where
  pub fresh : ℕ → List ℕ
  pub length-fresh : (n : ℕ) → length (fresh n) ≡ n

-- `data` is `none` for a null `data_`.
pub record Buffer : Type 0 where
  pub data_ : Option (List ℕ)
  pub size_ : ℕ
  pub off_ : ℕ

unfoldable pub empty : Buffer
empty = record { data_ = none; size_ = 0; off_ = 0 }

abbrev pub words : Buffer → List ℕ
words b = Option.get_or b.data_ []

unfoldable pub size : Buffer → ℕ
size b = b.size_ - b.off_

-- The words from `Head()` to the end of the array.
unfoldable pub view : Buffer → List ℕ
view b = drop b.off_ (words b)

-- The words from `At(n)` to the end of the array.
unfoldable pub at : ℕ → Buffer → List ℕ
at n b = drop (b.size_ - n) (words b)

-- `memcpy(p + off, ws, ...)` on the array `p`.
unfoldable pub copy_to : ℕ → List ℕ → List ℕ → Option (List ℕ)
copy_to off ws mem = Option.map (λ rest. take off mem ++ rest) (poke ws (drop off mem))

-- Stores `ws` from `Head()` on.
unfoldable pub store_head : List ℕ → Buffer → Run Buffer
unfolding copy_to
store_head ws b = elim b.data_ [
  | none ↦ if ltb 0 (length ws) then fault else done b
  | some mem ↦ access (Option.map (λ mem'. record b { data_ = some mem' }) (copy_to b.off_ ws mem))
]

unfoldable pub grown : ℕ → ℕ → ℕ
grown delta size = max (if leb (256 * 1024) size then size * 3 / 2 else size * 2) (size + delta)

-- Moves the words in use to the end of a new array of `n` words.
unfoldable pub relocate : Allocator → ℕ → Buffer → Run Buffer
unfolding size copy_to
relocate h n b = do
  let off = n - size b
  used ← access (load (size b) (drop b.off_ (words b)))
  mem ← access (copy_to off used (h.fresh n))
  done (record { data_ = some mem; size_ = n; off_ = off })

unfoldable pub do_expand : Allocator → ℕ → Buffer → Run Buffer
unfolding grown
do_expand h delta b = elim b.data_ [
  | none ↦
      let n = max delta 8 in done (record { data_ = some (h.fresh n); size_ = n; off_ = n - delta })
  | some mem ↦ do
    b' ← relocate h (grown delta b.size_) b
    done (record b' { off_ = b'.off_ - delta })
]

unfoldable pub do_reserve : Allocator → ℕ → Buffer → Run Buffer
do_reserve h n b = relocate h n b

unfoldable pub expand : Allocator → ℕ → Buffer → Run Buffer
expand h delta b =
    if leb delta b.off_ then done (record b { off_ = b.off_ - delta }) else do_expand h delta b

unfoldable pub put : Allocator → ℕ → Buffer → Run Buffer
put h v b = do b' ← expand h 1 b; store_head (v ∷ []) b'

unfoldable pub put_slice : Allocator → List ℕ → Buffer → Run Buffer
put_slice h ws b = do b' ← expand h (length ws) b; store_head ws b'

-- The assertion that `delta` words are in use is the caller's affair.
unfoldable pub shrink : ℕ → Buffer → Buffer
shrink delta b = record b { off_ = b.off_ + delta }

unfoldable pub clear : Buffer → Buffer
clear b = record b { off_ = b.size_ }

unfoldable pub reserve : Allocator → ℕ → Buffer → Run Buffer
unfolding do_reserve
reserve h n b = if ltb b.size_ n then do_reserve h n b else done b
