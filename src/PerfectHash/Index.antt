-- ===== src/PerfectHash/Index.antt =====
-- The classes `PerfectHash`, an index that is read in place, and `PerfectHashObject`, and `Locate` of both. The memory
-- is one of 32-bit words, as the readers see it, and an index starts at a word.
pub mod Safety
pub mod Below
pub mod Stored
pub mod Places
pub mod Minimal
pub mod Objects
use protocache.Base.{
  ℕ, ◌+◌, ◌-◌, ◌*◌, ◌/◌, ◌%◌, ◌^◌, ◌==◌, ltb, not, ◌&&◌, if◌then◌else◌, bit_and, bit_or, List,
  length, Option, none, some, Run, done, fault, ◌>>=◌,
}
use protocache.Access.Words.{word, word64, byte}
use protocache.Hash.{hash128}
use protocache.PerfectHash.Bits.{pair, section, bitmap_size, count_valid_slot}
use protocache.PerfectHash.Division.{Divisor, assign, modulo}
use protocache.PerfectHash.Build.{Image}

pub record Index : Type 0 where
  pub data_ : Option ℕ
  pub section_ : ℕ
  pub data_size_ : ℕ

abbrev pub no_index : Index
no_index = record { data_ = none; section_ = 0; data_size_ = 0 }

-- `RealSize`
unfoldable pub real_size : ℕ → ℕ
real_size size = bit_and size 0xfffffff

-- The bytes of the table for `n` keys, behind a bitmap of `bytes`.
unfoldable pub table_size : ℕ → ℕ → ℕ
table_size n bytes =
    if ltb 0xffff n
    then bytes / 2
    else if ltb 0xff n
    then bytes / 4
    else if ltb 24 n
    then bytes / 8
    else 0

-- The bytes of the header, the bitmap and the table.
unfoldable pub index_bytes : ℕ → ℕ
unfolding table_size
index_bytes n = let bytes = bitmap_size (section n) in (bytes + table_size n bytes + 8) % 2 ^ 32

-- `PerfectHash(data, size)`. A size of 0 says that it is unknown.
unfoldable pub index : List ℕ → ℕ → ℕ → Run Index
index mem p size =
    let read = (do
      h ← word mem p
      let n = real_size h
      let large =
          (if not (size == 0) && ltb size (index_bytes n)
            then no_index
            else record { data_ = some p; section_ = section n; data_size_ = index_bytes n })
      done (if ltb 1 n then large else record { data_ = some p; section_ = 0; data_size_ = 4 })) in
    if not (size == 0) && ltb size 4 then done no_index else read

-- `Size`
unfoldable pub index_size : List ℕ → Index → Run ℕ
index_size mem ix = elim ix.data_ [ none ↦ done 0 | some p ↦ do h ← word mem p; done (real_size h) ]

-- `Bit2(bitmap, pos)`, for a bitmap that starts at the word `p`.
unfoldable pub read_pair : List ℕ → ℕ → ℕ → Run ℕ
unfolding pair
read_pair mem p pos = do x ← byte mem (p * 4 + pos / 4); done (pair x pos)

-- `reinterpret_cast<const uint16_t*>(p)[a]`
unfoldable pub read16 : List ℕ → ℕ → ℕ → Run ℕ
read16 mem q a = do lo ← byte mem (q + 2 * a); hi ← byte mem (q + 2 * a + 1); done (lo + hi * 256)

unfoldable pub read32 : List ℕ → ℕ → ℕ → Run ℕ
unfolding read16
read32 mem q a = do
  lo ← read16 mem (q + 4 * a) 0
  hi ← read16 mem (q + 4 * a + 2) 0
  done (lo + hi * 2 ^ 16)

-- The count of the valid slots before block `a`, from the table at the byte `q`.
unfoldable pub read_table : List ℕ → ℕ → ℕ → ℕ → Run ℕ
unfolding read32
read_table mem n q a =
    if ltb 0xffff n
    then read32 mem q a
    else if ltb 0xff n
    then read16 mem q a
    else if ltb 24 n
    then byte mem (q + a)
    else done 0

-- `slots[k]`
abbrev pub pick_slot : ℕ → ℕ × ℕ × ℕ → ℕ
pick_slot k (a, b, c) = if k == 0 then a else if k == 1 then b else c

-- How many of the first `b` values of a block are not 3: the others are masked.
unfoldable pub count_below : ℕ → ℕ → ℕ
count_below block b = count_valid_slot (bit_or block ((2 ^ 64 - 1) * 2 ^ (b * 2) % 2 ^ 64))

-- The private `Locate(slots)`, for an index of `n` keys at `p`.
unfoldable pub locate_slots : List ℕ → ℕ → ℕ → ℕ → ℕ × ℕ × ℕ → Run ℕ
locate_slots mem p n section s = do
  let bitmap = p + 2
  let table = bitmap * 4 + bitmap_size section
  x ← read_pair mem bitmap s.0
  y ← read_pair mem bitmap s.1
  z ← read_pair mem bitmap s.2
  let slot = pick_slot ((x + y + z) % 3) s
  let a = slot / 2 ^ 5
  let b = bit_and slot 31
  off ← read_table mem n table a
  block ← word64 mem (bitmap + 2 * a)
  done ((off + count_below block b) % 2 ^ 32)

-- The slots of a key, and its place.
unfoldable pub locate_key : List ℕ → ℕ → ℕ → ℕ → List ℕ → Run ℕ
locate_key mem p n m key = do
  seed ← word mem (p + 1)
  (lo, hi) ← hash128 key (length key) seed
  locate_slots mem p n m (lo % 2 ^ 32 % m, lo / 2 ^ 32 % m + m, hi % 2 ^ 32 % m + m * 2)

-- `Locate(key, key_len)`
unfoldable pub locate : List ℕ → Index → List ℕ → Run ℕ
locate mem ix key = elim ix.data_ [
  | none ↦ done (2 ^ 32 - 1)
  | some p ↦ do
    h ← word mem p
    let search = locate_key mem p (real_size h) ix.section_ key
    if ltb (real_size h) 2 then done 0 else search
]

-- The class `PerfectHashObject`: an index with a divisor in front of it, in a buffer of its own.
pub record Object : Type 0 where
  pub buffer_ : Option Divisor
  pub index_ : Index

-- The end of its `Build`, when the data of the buffer are at `p`.
unfoldable pub object_of : ℕ → Option Image → Object
object_of p none = record { buffer_ = none; index_ = no_index }
object_of p (some i) =
    let m = if ltb 8 i.data_size then section i.total else 0 in
    record {
      buffer_ = some (assign m);
      index_ = record { data_ = some p; section_ = m; data_size_ = i.data_size };
    }

-- The slots of a key by the divisor.
unfoldable pub object_key : List ℕ → ℕ → ℕ → ℕ → Divisor → List ℕ → Run ℕ
object_key mem p n m d key = do
  seed ← word mem (p + 1)
  (lo, hi) ← hash128 key (length key) seed
  locate_slots mem p n m
      (modulo d (lo % 2 ^ 32), modulo d (lo / 2 ^ 32) + d.val_, modulo d (hi % 2 ^ 32) + d.val_ * 2)

-- `PerfectHashObject::Locate`
unfoldable pub object_locate : List ℕ → Object → List ℕ → Run ℕ
unfolding object_key
object_locate mem o key = elim o.buffer_ [
  | none ↦ done (2 ^ 32 - 1)
  | some d ↦ elim o.index_.data_ [
    | none ↦ fault
    | some p ↦ do
      h ← word mem p
      let search = object_key mem p (real_size h) o.index_.section_ d key
      if ltb (real_size h) 2 then done 0 else search
  ]
]
