-- ===== src/Serialize/Strings/Packing.antt =====
-- The bytes in the words that `as_words` makes.
use protocache.Base.{
  ℕ, suc, ◌+◌, ◌*◌, ◌/◌, ◌%◌, ◌^◌, ◌<◌, ◌≡◌, refl, ap, ◌∙◌, List, [], ◌∷◌, ◌++◌, length, done,
  arith, All,
}
use protocache.Access.Words.{word, byte}
use protocache.Access.Maps.{word_size}
use protocache.Serialize.Strings.{as_words}
use protocache.Serialize.Strings.Varint.{Holds}

abbrev pub Bytes : List ℕ → Type 0
Bytes = All (λ b. b < 256)

pub length-as_words : (bs : List ℕ) → length (as_words bs) ≡ word_size (length bs)
unfolding as_words
length-as_words [] = refl
length-as_words (a ∷ []) = refl
length-as_words (a ∷ b ∷ []) = refl
length-as_words (a ∷ b ∷ c ∷ []) = refl
length-as_words (a ∷ b ∷ c ∷ d ∷ bs) = omega (arith, length-as_words bs)

-- The byte behind four others is in the next word.
byte-suc : (w : ℕ) (mem : List ℕ) (p : ℕ) → byte (w ∷ mem) (4 + p) ≡ byte mem p
unfolding byte word
byte-suc w mem p =
    let next : (4 + p) / 4 ≡ suc (p / 4) = omega arith in
    let same : (4 + p) % 4 ≡ p % 4 = omega arith in rw (next, same) refl

byte-Holds :
    (w : ℕ) (mem : List ℕ) (a b c d : ℕ)
    → a < 256
    → b < 256
    → c < 256
    → d < 256
    → w ≡ a + b * 2 ^ 8 + c * 2 ^ 16 + d * 2 ^ 24
    → Holds (w ∷ mem) 0 (a ∷ b ∷ c ∷ d ∷ [])
unfolding byte word
byte-Holds w mem a b c d ha hb hc hd e = (
  ap done (omega arith),
  (ap done (omega arith), (ap done (omega arith), (ap done (omega arith), tt))),
)

Holds-suc :
    (w : ℕ) (mem : List ℕ) (p q : ℕ) (bs : List ℕ)
    → q ≡ 4 + p
    → Holds mem p bs
    → Holds (w ∷ mem) q bs
Holds-suc w mem p q [] e holds = tt
Holds-suc w mem p q (b ∷ bs) e holds =
    (rw e (byte-suc w mem p ∙ holds.0), Holds-suc w mem (p + 1) (q + 1) bs (omega arith) holds.1)

pub Holds-as_words : (bs rest : List ℕ) → Bytes bs → Holds (as_words bs ++ rest) 0 bs
unfolding as_words
Holds-as_words [] rest h = tt
Holds-as_words (a ∷ []) rest h =
    let t = byte-Holds a rest a 0 0 0 h.0 (omega arith) (omega arith) (omega arith) (omega arith) in
    (t.0, tt)
Holds-as_words (a ∷ b ∷ []) rest h =
    let t =
      byte-Holds (a + b * 2 ^ 8) rest a b 0 0 h.0 h.1.0 (omega arith) (omega arith) (omega arith) in
    (t.0, (t.1.0, tt))
Holds-as_words (a ∷ b ∷ c ∷ []) rest h =
    let t =
      byte-Holds (a + b * 2 ^ 8 + c * 2 ^ 16) rest a b c 0 h.0 h.1.0 h.1.1.0 (omega arith)
        (omega arith) in
    (t.0, (t.1.0, (t.1.1.0, tt)))
Holds-as_words (a ∷ b ∷ c ∷ d ∷ bs) rest h =
    let w = a + b * 2 ^ 8 + c * 2 ^ 16 + d * 2 ^ 24 in
    let mem = as_words bs ++ rest in
    let t = byte-Holds w mem a b c d h.0 h.1.0 h.1.1.0 h.1.1.1.0 refl in
    let later = Holds-suc w mem 0 4 bs (omega arith) (Holds-as_words bs rest h.1.1.1.1) in
    (t.0, (t.1.0, (t.1.1.0, (t.1.1.1.0, later))))

-- Two runs of bytes, one behind the other.
pub Holds-append :
    (mem : List ℕ) (p q : ℕ) (bs cs : List ℕ)
    → q ≡ p + length bs
    → Holds mem p (bs ++ cs)
    → Holds mem p bs × Holds mem q cs
Holds-append mem p q [] cs e holds = let same : q ≡ p = omega arith in (tt, rw same holds)
Holds-append mem p q (b ∷ bs) cs e holds =
    let (left, right) = Holds-append mem (p + 1) q bs cs (omega arith) holds.1 in
    ((holds.0, left), right)
