-- ===== src/Serialize/Strings/RoundTrip.antt =====
-- `Serialize` of a string, and the class String on what it writes.
use protocache.Base.{
  ℕ, zero, suc, ◌+◌, ◌*◌, ◌/◌, ◌%◌, ◌^◌, ◌<◌, ◌≡◌, refl, ap, sym, subst, ◌∙◌, inl, inr, ◌⊎◌, true,
  false, Bool-cases, ◌==◌, ltb, leb, bit_and, bit_or, bit_and_mask, bit_or_low, List, [], ◌∷◌, ◌++◌,
  length, length-append, some, none, done, arith, All-append, >>=-eq-done,
}
use protocache.Access.Words.{byte}
use protocache.Access.Strings.{string, read_header}
use protocache.Access.Maps.{word_size}
use protocache.Buffer.{Allocator, Buffer, size, view, expand, store_head, put_slice}
use protocache.Buffer.Moves.{IsValid}
use protocache.Buffer.Laws.{put_slice-Leaves}
use protocache.Serialize.{FieldUnit, inline, segment_from}
use protocache.Serialize.Strings.{
  write_varint, as_words, string_header, store_segment, serialize_string,
}
use protocache.Serialize.Strings.Varint.{Holds, more_bits, last_bit, read_mark-varint}
use protocache.Serialize.Strings.Packing.{Bytes, length-as_words, Holds-as_words, Holds-append}

-- The lowest bits of a number say that it is a multiple of 4.
low_bits : (m : ℕ) → m % 4 ≡ 0 → bit_and m 3 == 0 ≡ true
low_bits m e = let low = bit_and_mask 2 m in ground (arith, low, e)

more_low_bits : (m : ℕ) → m % 4 ≡ 0 → bit_and (bit_or 0x80 (m % 128)) 3 == 0 ≡ true
more_low_bits m e =
    let split = bit_or_low 7 1 (m % 128) (omega arith) in
    low_bits (bit_or 0x80 (m % 128)) (omega (arith, split, e))

-- A header of more than one byte.
long_header :
    (mem : List ℕ) (p n : ℕ)
    → n < 2 ^ 30
    → ltb (n * 2 ^ 2) 0x80 ≡ false
    → Holds mem
        (p * 4)
        (bit_or 0x80 (bit_and (n * 2 ^ 2) 0x7f) ∷ write_varint 4 (n * 2 ^ 2 / 2 ^ 7))
    → string mem (some p) none
      ≡ done (record {
        ptr_ = some (p * 4 + 1 + length (write_varint 4 (n * 2 ^ 2 / 2 ^ 7)));
        len_ = n;
      })
unfolding string read_header
long_header mem p n small more (found, rest) =
    let m = n * 2 ^ 2 in
    let mask : bit_and m 0x7f ≡ m % 128 = bit_and_mask 7 m in
    let found' : byte mem (p * 4) ≡ done (bit_or 0x80 (m % 128)) = rw (← mask) found in
    let (flag, group) = more_bits m in
    let read =
      read_mark-varint 4 mem 7 (m / 2 ^ 7) (m % 128) (p * 4 + 1) (omega arith) (ground arith)
        (omega arith) (omega arith) (omega arith) rest in
    let total : (m % 128 + m / 2 ^ 7 * 2 ^ 7) / 2 ^ 2 ≡ n = omega arith in
    rw (found', more_low_bits m (omega arith), flag, group) (read ∙ rw total refl)

short_header :
    (mem : List ℕ) (p n : ℕ)
    → ltb (n * 2 ^ 2) 0x80 ≡ true
    → Holds mem (p * 4) (n * 2 ^ 2 ∷ [])
    → string mem (some p) none ≡ done (record { ptr_ = some (p * 4 + 1); len_ = n })
unfolding string read_header
short_header mem p n short (found, _) =
    let m = n * 2 ^ 2 in
    let total : m / 2 ^ 2 ≡ n = omega arith in
    rw (found, low_bits m (omega arith), last_bit m (ground arith), total) refl

write_varint-last : (fuel n : ℕ) → ltb n 0x80 ≡ true → write_varint (suc fuel) n ≡ n ∷ []
unfolding write_varint
write_varint-last fuel n last = rw last refl

write_varint-more :
    (fuel n : ℕ)
    → ltb n 0x80 ≡ false
    → write_varint (suc fuel) n ≡ bit_or 0x80 (bit_and n 0x7f) ∷ write_varint fuel (n / 2 ^ 7)
unfolding write_varint
write_varint-more fuel n more = rw more refl

-- A string starts at the word `p` with its header.
pub string-string_header :
    (mem : List ℕ) (p n : ℕ)
    → n < 2 ^ 30
    → Holds mem (p * 4) (string_header n)
    → string mem (some p) none
      ≡ done (record { ptr_ = some (p * 4 + length (string_header n)); len_ = n })
unfolding string_header
string-string_header mem p n small holds =
    let exact : n * 2 ^ 2 % 2 ^ 32 ≡ n * 2 ^ 2 = omega arith in
    elim (Bool-cases (ltb (n * 2 ^ 2) 0x80)) [
      | inl short ↦
          let header : string_header n ≡ n * 2 ^ 2 ∷ [] =
            rw exact (write_varint-last 4 (n * 2 ^ 2) short) in
          let holds' : Holds mem (p * 4) (n * 2 ^ 2 ∷ []) =
            subst (Holds mem (p * 4)) header holds in
          short_header mem p n short holds'
          ∙ ap (λ (bs : List ℕ). done (record { ptr_ = some (p * 4 + length bs); len_ = n }))
              (sym header)
      | inr more ↦
          let bytes = bit_or 0x80 (bit_and (n * 2 ^ 2) 0x7f) ∷ write_varint 4 (n * 2 ^ 2 / 2 ^ 7) in
          let header : string_header n ≡ bytes = rw exact (write_varint-more 4 (n * 2 ^ 2) more) in
          let holds' : Holds mem (p * 4) bytes = subst (Holds mem (p * 4)) header holds in
          let place : p * 4 + 1 + length (write_varint 4 (n * 2 ^ 2 / 2 ^ 7))
              ≡ p * 4 + length (string_header n) =
            omega (arith, ap length header) in
          long_header mem p n small more holds' ∙ rw place refl
    ]

-- The words `ws`, wherever they lie in front of others, are a string of the bytes `str`.
abbrev pub IsString : List ℕ → List ℕ → Type 0
IsString str ws =
    (rest : List ℕ)
    → (d : ℕ) × (string (ws ++ rest) (some 0) none
        ≡ done (record { ptr_ = some d; len_ = length str }))
      × Holds (ws ++ rest) d str

-- The words `ws` are in the unit, or they lie in front of what the buffer had.
abbrev pub Keeps : Buffer → List ℕ → Buffer → FieldUnit → Type 0
Keeps b ws next unit =
    ((unit ≡ inline ws) × (next ≡ b))
    ⊎ ((unit ≡ segment_from (size b) (size next)) × (view next ≡ ws ++ view b))

header-Bytes : (fuel n : ℕ) → Bytes (write_varint fuel n)
unfolding write_varint
header-Bytes zero n = tt
header-Bytes (suc fuel) n = elim (Bool-cases (ltb n 0x80)) [
  | inl last ↦ rw last (ground arith, tt)
  | inr more ↦
      let group : bit_or 0x80 (bit_and n 0x7f) < 256 =
        rw (bit_and_mask 7 n, bit_or_low 7 1 (n % 128) (omega arith)) (omega arith) in
      rw more (group, header-Bytes fuel (n / 2 ^ 7))
]

packed-IsString :
    (str : List ℕ)
    → Bytes str
    → length str < 2 ^ 30
    → IsString str (as_words (string_header (length str) ++ str))
unfolding string_header
packed-IsString str bytes small rest =
    let header = string_header (length str) in
    let all =
      All-append (λ b. b < 256) header str (header-Bytes 5 (length str * 2 ^ 2 % 2 ^ 32)) bytes in
    let mem = as_words (header ++ str) ++ rest in
    let (first, second) =
      Holds-append mem 0 (0 * 4 + length header) header str (omega arith)
        (Holds-as_words (header ++ str) rest all) in
    (0 * 4 + length header, string-string_header mem 0 (length str) small first, second)

store_segment-put_slice :
    (h : Allocator) (ws : List ℕ) (b next : Buffer) (n : ℕ)
    → put_slice h ws b ≡ done next
    → n ≡ length ws
    → store_segment h n ws b ≡ done (true, next, segment_from (size b) (size next))
unfolding put_slice store_segment
store_segment-put_slice h ws b next n e same =
    let (mid, opened, stored) = >>=-eq-done (expand h (length ws) b) (store_head ws) e in
    rw (same, opened, stored) refl

-- For a string of fewer than 2 ^ 30 bytes and a valid buffer serialize_string ends without a fault and answers
-- true; its words are in the unit, or in front of what the buffer had, and string finds in them, wherever they
-- lie in front of others, a slice of the length of the string that holds its bytes.
pub serialize_string-IsString :
    (h : Allocator) (str : List ℕ) (b : Buffer) (unit : FieldUnit)
    → IsValid b
    → Bytes str
    → length str < 2 ^ 30
    → (ws : List ℕ) × (next : Buffer) × (out : FieldUnit) × (serialize_string h str b unit
        ≡ done (true, next, out))
      × IsValid next
      × Keeps b ws next out
      × IsString str ws
unfolding serialize_string
serialize_string-IsString h str b unit valid bytes small =
    let header = string_header (length str) in
    let ws = as_words (header ++ str) in
    let n = word_size (length header + length str) in
    let fits : leb (2 ^ 30) (length str) ≡ false = ground arith in
    let sized : n ≡ length ws =
      sym (length-as_words (header ++ str) ∙ ap word_size (length-append header str)) in
    elim (Bool-cases (n == 1)) [
      | inl one ↦ (
        ws,
        b,
        inline ws,
        rw (fits, one) refl,
        valid,
        inl (refl, refl),
        packed-IsString str bytes small,
      )
      | inr more ↦
          let w = put_slice-Leaves h ws b valid in
          (
            ws,
            w.next,
            segment_from (size b) (size w.next),
            rw (fits, more) (store_segment-put_slice h ws b w.next n w.returns sized),
            w.valid,
            inr (refl, w.holds),
            packed-IsString str bytes small,
          )
    ]
