-- ===== src/Access/Arrays.antt =====
-- The classes `Array` and `Pair`.
use protocache.Base.{
  ℕ, ◌+◌, ◌-◌, ◌*◌, ◌/◌, ◌%◌, ◌^◌, List, Option, none, some, not, ◌==◌, ◌||◌, bit_and,
  if◌then◌else◌, Run, done, ◌>>=◌,
}
use protocache.Access.Words.{Slice, null, word, passes}
use protocache.Access.Fields.{Field, no_field}

pub record Array : Type 0 where
  pub body_ : Option ℕ
  pub size_ : ℕ
  pub width_ : ℕ

abbrev pub no_array : Array
no_array = record { body_ = none; size_ = 0; width_ = 0 }

-- `Array(ptr, end)`. The product is one of two 32-bit numbers.
unfoldable pub array : List ℕ → Option ℕ → Option ℕ → Run Array
array mem none end = done no_array
array mem (some p) end = do
  w ← word mem p
  let size = w / 2 ^ 2
  let width = bit_and w 3
  let body = p + 1
  let bad = (width == 0) || passes (body + width * size % 2 ^ 32) end
  done (record { body_ = if bad then none else some body; size_ = size; width_ = width })

-- `Array::Detect`
unfoldable pub array_detect : List ℕ → Option ℕ → Option ℕ → Run Slice
array_detect mem none end = done null
array_detect mem (some p) end = do
  w ← word mem p
  let size = w / 2 ^ 2
  let width = bit_and w 3
  let tail = p + 1 + width * size % 2 ^ 32
  done (
      if width == 0
      then null
      else if passes tail end
      then null
      else record { ptr_ = some p; len_ = tail - p })

-- `operator[]`, where the body is not null.
unfoldable pub element : Array → ℕ → Field
element a pos = elim a.body_ [
  | none ↦ no_field
  | some body ↦ record { ptr_ = some (body + a.width_ * pos % 2 ^ 32); width_ = a.width_ }
]

-- `Numbers<T>`, for a type of `n` bytes.
unfoldable pub numbers : Array → ℕ → Slice
numbers a n =
    if not (a.width_ == (n + 3) / 4) then null else record { ptr_ = a.body_; len_ = a.size_ }
