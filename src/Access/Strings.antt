-- ===== src/Access/Strings.antt =====
-- The class `String`: a byte array behind a header of 1 to 5 bytes.
use protocache.Base.{
  ℕ, zero, suc, ◌+◌, ◌-◌, ◌*◌, ◌/◌, ◌^◌, List, Option, none, some, not, ◌==◌, bit_and, bit_or, ltb,
  if◌then◌else◌, Run, done, stuck, ◌>>=◌,
}
use mathlib.Core.Option
use protocache.Access.Words.{Slice, null, byte, reaches, passes}

-- The loop of the constructor, from `sft` on. It ends by itself when the shift reaches 35; `e` is null or the
-- end in bytes.
unfoldable pub read_mark : ℕ → List ℕ → Option ℕ → ℕ → ℕ → ℕ → Run Slice
read_mark zero mem e sft mark p = stuck
read_mark (suc fuel) mem e sft mark p =
    let round = (do
      b ← byte mem p
      let more = read_mark fuel mem e (sft + 7) (bit_or mark (bit_and b 0x7f * 2 ^ sft)) (p + 1)
      let mark' = bit_or mark (b * 2 ^ sft)
      let found =
          (if passes (p + 1 + mark' / 2 ^ 2) e
            then done null
            else done (record { ptr_ = some (p + 1); len_ = mark' / 2 ^ 2 }))
      if not (bit_and b 0x80 == 0) then more else found) in
    if ltb sft 32 then if reaches p e then done null else round else done null

-- From the first byte `b`, which lies at `p`.
unfoldable pub read_header : List ℕ → Option ℕ → ℕ → ℕ → Run Slice
unfolding read_mark
read_header mem e b p =
    let str_len = b / 2 ^ 2 in
    let short =
      (if passes (p + 1 + str_len) e
        then done null
        else done (record { ptr_ = some (p + 1); len_ = str_len })) in
    let long = read_mark 5 mem e 7 (bit_and b 0x7f) (p + 1) in
    if bit_and b 0x80 == 0 then short else long

-- `String(ptr, end)`, as the slice of bytes that it holds.
unfoldable pub string : List ℕ → Option ℕ → Option ℕ → Run Slice
unfolding read_header
string mem none end = done null
string mem (some ptr) end =
    let p = ptr * 4 in
    let e = Option.map (λ q. q * 4) end in
    let start = (do
      b ← byte mem p
      let rest = read_header mem e b p
      if not (bit_and b 3 == 0) then done null else rest) in
    if reaches p e then done null else start

-- From the header at the word `ptr` to the last byte, in words.
unfoldable pub covered : ℕ → Slice → Slice
covered ptr str = elim str.ptr_ [
  | none ↦ null
  | some d ↦ record { ptr_ = some ptr; len_ = (d - ptr * 4 + str.len_ + 3) / 4 }
]

-- `String::Detect`
unfoldable pub string_detect : List ℕ → Option ℕ → Option ℕ → Run Slice
unfolding covered
string_detect mem none end = done null
string_detect mem (some ptr) end = do str ← string mem (some ptr) end; done (covered ptr str)
