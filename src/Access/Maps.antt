-- ===== src/Access/Maps.antt =====
-- The classes `Pair` and `Map`: an index, and behind it the pairs at the places that it gives to their keys.
pub mod Bounds
pub mod Lookup
use protocache.Base.{
  ℕ, ◌+◌, ◌-◌, ◌*◌, ◌/◌, ◌%◌, ◌^◌, List, [], ◌∷◌, ◌++◌, Option, none, some, Bool, true, false, not,
  ◌==◌, ◌&&◌, ◌||◌, bit_and, leb, length, get_elem?, zero, suc, word_bytes, if◌then◌else◌, Run,
  done, fault, ◌>>=◌,
}
use protocache.Access.Words.{Slice, null, word, byte, passes}
use protocache.Access.Strings.{string}
use protocache.Access.Fields.{Field, get_object, get_value}
use protocache.PerfectHash.Index.{Index, no_index, index, index_size, locate}

-- `WordSize`
abbrev pub word_size : ℕ → ℕ
word_size n = (n + 3) / 4

pub record Pair : Type 0 where
  pub ptr_ : Option ℕ
  pub key_width_ : ℕ
  pub value_width_ : ℕ

-- `Key`, and `Value` of a pair that is not null.
unfoldable pub key : Pair → Field
key p = record { ptr_ = p.ptr_; width_ = p.key_width_ }

unfoldable pub value : Pair → Field
value p = elim p.ptr_ [
  | none ↦ record { ptr_ = none; width_ = p.value_width_ }
  | some q ↦ record { ptr_ = some (q + p.key_width_); width_ = p.value_width_ }
]

pub record Map : Type 0 where
  pub index_ : Index
  pub body_ : Option ℕ
  pub key_width_ : ℕ
  pub value_width_ : ℕ

-- `(end - ptr) * 4`, as an unsigned 32-bit number; 0 without an end.
unfoldable pub bytes_left : ℕ → Option ℕ → ℕ
bytes_left p none = 0
bytes_left p (some end) = (end * 4 + 2 ^ 32 - p * 4 % 2 ^ 32) % 2 ^ 32

-- The map with an index that is not null.
unfoldable pub map_body : List ℕ → ℕ → Option ℕ → Index → ℕ → ℕ → Run Map
map_body mem p end ix kw vw = do
  n ← index_size mem ix
  let body = p + word_size ix.data_size_
  done (record {
    index_ = ix;
    body_ = if passes (body + (kw + vw) * n % 2 ^ 32) end then none else some body;
    key_width_ = kw;
    value_width_ = vw;
  })

-- From the index on, by whether it is null.
unfoldable pub indexed_map : List ℕ → ℕ → Option ℕ → ℕ → ℕ → Index → Option ℕ → Run Map
indexed_map mem p end kw vw ix none =
    done (record { index_ = ix; body_ = none; key_width_ = kw; value_width_ = vw })
indexed_map mem p end kw vw ix (some q) = map_body mem p end ix kw vw

-- `Map(ptr, end)`
unfoldable pub map : List ℕ → Option ℕ → Option ℕ → Run Map
map mem none end =
    done (record { index_ = no_index; body_ = none; key_width_ = 0; value_width_ = 0 })
map mem (some p) end = do
  w ← word mem p
  let kw = bit_and (w / 2 ^ 30) 3
  let vw = bit_and (w / 2 ^ 28) 3
  let empty : Map = record { index_ = no_index; body_ = none; key_width_ = kw; value_width_ = vw }
  let indexed = (do ix ← index mem p (bytes_left p end); indexed_map mem p end kw vw ix ix.data_)
  if kw == 0 || vw == 0 then done empty else indexed

-- `Map::Detect`
unfoldable pub map_detect : List ℕ → Option ℕ → Option ℕ → Run Slice
map_detect mem none end = done null
map_detect mem (some p) end = do
  w ← word mem p
  let kw = bit_and (w / 2 ^ 30) 3
  let vw = bit_and (w / 2 ^ 28) 3
  let indexed = (do
    ix ← index mem p (bytes_left p end)
    n ← index_size mem ix
    let tail = p + word_size ix.data_size_ + (kw + vw) * n % 2 ^ 32
    let found = if passes tail end then null else record { ptr_ = some p; len_ = tail - p }
    done (elim ix.data_ [ none ↦ null | some q ↦ found ]))
  if kw == 0 || vw == 0 then done null else indexed

-- `*it`, for the iterator at the pair `pos`. Where the map has no body it is null at the place 0.
unfoldable pub pair_of : Map → ℕ → Run Pair
pair_of m pos = elim m.body_ [
  | none ↦
      if (m.key_width_ + m.value_width_) * pos % 2 ^ 32 == 0
      then done (record { ptr_ = none; key_width_ = m.key_width_; value_width_ = m.value_width_ })
      else fault
  | some body ↦ done (record {
    ptr_ = some (body + (m.key_width_ + m.value_width_) * pos % 2 ^ 32);
    key_width_ = m.key_width_;
    value_width_ = m.value_width_;
  })
]

-- `memcmp` of the bytes at `q` with a key.
unfoldable pub same_bytes : List ℕ → ℕ → List ℕ → Run Bool
same_bytes mem q [] = done true
same_bytes mem q (b ∷ bs) = do
  x ← byte mem q
  let rest = same_bytes mem (q + 1) bs
  if x == b then rest else done false

-- `view && view == Slice<char>(str, len)`
unfoldable pub holds_key : List ℕ → Slice → List ℕ → Run Bool
unfolding same_bytes
holds_key mem s str = elim s.ptr_ [
  | none ↦ done false
  | some q ↦ if s.len_ == length str then same_bytes mem q str else done false
]

-- `Find(str, len, end)`: the place of the pair, or `none` for the end.
unfoldable pub find : List ℕ → Map → List ℕ → Option ℕ → Run (Option ℕ)
find mem m str end = do
  pos ← locate mem m.index_ str
  n ← index_size mem m.index_
  let search = (do
    it ← pair_of m pos
    object ← get_object mem (key it) end
    view ← string mem object end
    found ← holds_key mem view str
    done (if found then some pos else none))
  if leb n pos then done none else search

-- The words at `q` against those of a scalar.
unfoldable pub same_words : List ℕ → ℕ → List ℕ → Run Bool
same_words mem q [] = done true
same_words mem q (v ∷ vs) = do
  x ← word mem q
  let rest = same_words mem (q + 1) vs
  if x == v then rest else done false

-- The bytes of a scalar in memory.
unfoldable pub scalar_bytes : List ℕ → List ℕ
scalar_bytes [] = []
scalar_bytes (v ∷ vs) = word_bytes v ++ scalar_bytes vs

-- `Find(val, end)`, for a scalar of one word or two.
unfoldable pub find_scalar : List ℕ → Map → List ℕ → Option ℕ → Run (Option ℕ)
unfolding same_words scalar_bytes
find_scalar mem m val end = do
  pos ← locate mem m.index_ (scalar_bytes val)
  n ← index_size mem m.index_
  let search = (do
    it ← pair_of m pos
    let view = get_value (key it) end
    let read : Run Bool = elim view.ptr_ [ none ↦ fault | some q ↦ same_words mem q val ]
    found ← (if view.len_ == length val then read else done false)
    done (if found then some pos else none))
  if leb n pos then done none else search
