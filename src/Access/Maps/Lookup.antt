-- ===== src/Access/Maps/Lookup.antt =====
-- `Find` on a map whose pairs stand where the index that Build has made puts their keys.
use protocache.Base.{
  ℕ, zero, suc, length, ◌==◌, ◌+◌, ◌∷◌, Option-cases, ◌<◌, ◌≡◌, ◌≢◌, refl, sym, ap, ◌∙◌, Bool, true,
  false, leb, List, [], get_or, Option, none, some, Run, done, >>=-eq-done, Bool-cases, inl, inr,
  arith,
}
use protocache.Access.Words.{Slice, byte}
use protocache.Access.Strings.{string}
use protocache.Access.Fields.{get_object}
use protocache.Access.Maps.{Pair, Map, key, pair_of, same_bytes, holds_key, find}
use protocache.PerfectHash.Bits.{section}
use protocache.PerfectHash.Build.{Work, Image, build}
use protocache.PerfectHash.Build.Attempt.{HasSpace}
use protocache.PerfectHash.Build.Complete.{build-Built}
use protocache.PerfectHash.Index.{locate, index_size, real_size}
use protocache.PerfectHash.Index.Stored.{Stored}
use protocache.PerfectHash.Index.Minimal.{build-locate}

-- The pair `pos` of a map has the key `str`.
pub record PairHolds (mem : List ℕ) (m : Map) (end : Option ℕ) (str : List ℕ) (pos : ℕ)
    : Type 0 where
  pub it : Pair
  pub object : Option ℕ
  pub view : Slice
  pub pair : pair_of m pos ≡ done it
  pub reads : get_object mem (key it) end ≡ done object
  pub text : string mem object end ≡ done view
  pub place : ℕ
  pub starts : view.ptr_ ≡ some place
  pub sized : view.len_ ≡ length str
  pub bytes : (j : ℕ) → j < length str → byte mem (place + j) ≡ done (get_or str j 0)

same_bytes-all :
    (mem : List ℕ) (q : ℕ) (str : List ℕ)
    → ((j : ℕ) → j < length str → byte mem (q + j) ≡ done (get_or str j 0))
    → same_bytes mem q str ≡ done true
unfolding same_bytes
same_bytes-all mem q [] at = refl
same_bytes-all mem q (b ∷ str) at =
    let first : byte mem q ≡ done b = ap (byte mem) (omega arith) ∙ at 0 (omega arith) in
    let self : (b == b) ≡ true = ground arith in
    let rest =
      same_bytes-all mem (q + 1) str
        (λ j h. ap (byte mem) (omega arith) ∙ at (suc j) (omega arith)) in
    rw (first, self) rest

byte_at :
    (mem : List ℕ) (q b : ℕ) (str : List ℕ)
    → byte mem q ≡ done b
    → ((j : ℕ) → j < length str → byte mem (q + 1 + j) ≡ done (get_or str j 0))
    → (j : ℕ) → j < suc (length str)
    → byte mem (q + j) ≡ done (get_or (b ∷ str) j 0)
byte_at mem q b str first later zero h = ap (byte mem) (omega arith) ∙ first
byte_at mem q b str first later (suc j) h = ap (byte mem) (omega arith) ∙ later j (omega arith)

all-same_bytes :
    (mem : List ℕ) (q : ℕ) (str : List ℕ)
    → same_bytes mem q str ≡ done true
    → (j : ℕ) → j < length str
    → byte mem (q + j) ≡ done (get_or str j 0)
unfolding same_bytes
all-same_bytes mem q [] e j h = absurd (omega arith)
all-same_bytes mem q (b ∷ str) e j h =
    let (x, ex, e') = >>=-eq-done (byte mem q) _ e in
    elim (Bool-cases (x == b)) [
      | inl same ↦
          let same' : x ≡ b = ground arith in
          byte_at mem q b str (ex ∙ ap (λ (t : ℕ). done t) same')
            (all-same_bytes mem (q + 1) str (rw same at e')) j h
      | inr differ ↦ let clash : ◌≡◌ {A = Run Bool} (done false) (done true) = rw differ at e' in cc
    ]

held_bytes :
    (mem : List ℕ) (view : Slice) (str : List ℕ)
    → holds_key mem view str ≡ done true
    → (q : ℕ) × (view.ptr_ ≡ some q)
      × (view.len_ ≡ length str)
      × ((j : ℕ) → j < length str → byte mem (q + j) ≡ done (get_or str j 0))
unfolding holds_key
held_bytes mem view str e = elim (Option-cases view.ptr_) [
  | inl gone ↦ let clash : ◌≡◌ {A = Run Bool} (done false) (done true) = rw gone at e in cc
  | inr (q, there) ↦
      let e' = rw there at e in
      elim (Bool-cases (view.len_ == length str)) [
        | inl sized ↦ (q, there, ground arith, all-same_bytes mem q str (rw sized at e'))
        | inr other ↦ let clash : ◌≡◌ {A = Run Bool} (done false) (done true) = rw other at e' in cc
      ]
]

holds_key-held :
    (mem : List ℕ) (m : Map) (end : Option ℕ) (str : List ℕ) (pos : ℕ)
    (h : PairHolds mem m end str pos)
    → holds_key mem h.view str ≡ done true
unfolding holds_key
holds_key-held mem m end str pos h =
    let sized : (h.view.len_ == length str) ≡ true = let e = h.sized in ground arith in
    rw (h.starts, sized) (same_bytes-all mem h.place str h.bytes)

-- On any memory and any map, where find ends with the number of a pair, the pair is read with a key that has
-- the length and the bytes of the key that was looked for.
pub find-PairHolds :
    (mem : List ℕ) (m : Map) (str : List ℕ) (end : Option ℕ) (pos : ℕ)
    → find mem m str end ≡ done (some pos)
    → PairHolds mem m end str pos
unfolding find
find-PairHolds mem m str end pos e =
    let (loc, _, e1) = >>=-eq-done (locate mem m.index_ str) _ e in
    let (n, _, e2) = >>=-eq-done (index_size mem m.index_) _ e1 in
    elim (Bool-cases (leb n loc)) [
      | inl far ↦
          let clash : ◌≡◌ {A = Run (Option ℕ)} (done none) (done (some pos)) = rw far at e2 in cc
      | inr near ↦
          let e3 = rw near at e2 in
          let (it, ei, e4) = >>=-eq-done (pair_of m loc) _ e3 in
          let (object, eo, e5) = >>=-eq-done (get_object mem (key it) end) _ e4 in
          let (view, ev, e6) = >>=-eq-done (string mem object end) _ e5 in
          let (found, ef, e7) = >>=-eq-done (holds_key mem view str) _ e6 in
          elim (Bool-cases found) [
            | inl yes_found ↦
                let two : ◌≡◌ {A = Run (Option ℕ)} (done (some loc)) (done (some pos)) =
                  rw yes_found at e7 in
                let same : loc ≡ pos = cc in
                let (q, starts, sized, bytes) =
                  held_bytes mem view str (ef ∙ ap (λ (t : Bool). done t) yes_found) in
                record {
                  it = it;
                  object = object;
                  view = view;
                  pair = rw (← same) ei;
                  reads = eo;
                  text = ev;
                  place = q;
                  starts = starts;
                  sized = sized;
                  bytes = bytes;
                }
            | inr not_found ↦
                let clash : ◌≡◌ {A = Run (Option ℕ)} (done none) (done (some pos)) =
                  rw not_found at e7 in
                cc
          ]
    ]

-- Where build, on arrays with room for n keys, more than one, makes an image that stands in a memory of 32-bit
-- words as the index of a map, with widths in the highest bits of its header, and the pair at the place that
-- locate gives to each of the keys is read as one with the bytes of this key, find ends without a fault on
-- each of the n keys with a place below n, and the places of any two of the keys are different.
pub find-build :
    (no_check : Bool) (source : List (List ℕ)) (n seed : ℕ) (work : Work) (i : Image) (mem : List ℕ)
    (p : ℕ) (m : Map) (end : Option ℕ)
    → HasSpace n work
    → build no_check source n seed work ≡ done (some i)
    → 1 < n
    → Stored mem p i
    → m.index_.data_ ≡ some p
    → m.index_.section_ ≡ section n
    → ((k pos : ℕ)
        → k < n
        → locate mem m.index_ (get_or source k []) ≡ done pos
        → PairHolds mem m end (get_or source k []) pos)
    → (place : ℕ → ℕ) × ((k : ℕ)
        → k < n
        → (find mem m (get_or source k []) end ≡ done (some (place k))) × (place k < n))
      × ((j k : ℕ) → j < n → k < n → j ≢ k → place j ≢ place k)
unfolding find index_size pair_of
find-build no_check source n seed work i mem p m end space made many stored here width held =
    let (place, places, differ) =
      build-locate no_check source n seed work i mem p m.index_ space made many stored here width in
    let (o, e, imaged) = build-Built no_check source n seed work space in
    let built : ◌≡◌ {A = Run (Option Image)} (done o) (done (some i)) = sym e ∙ made in
    let real : real_size stored.head ≡ n = let im = imaged i (cc) many in stored.real ∙ im.total in
    (
      place,
      λ k h.
          let (found, low) = places k h in
          let there = held k (place k) h found in
          let near : leb n (place k) ≡ false = ground arith in
          (
            rw
                (
                  found,
                  here,
                  stored.size,
                  real,
                  near,
                  there.pair,
                  there.reads,
                  there.text,
                  holds_key-held mem m end (get_or source k []) (place k) there,
                )
                refl,
            low,
          ),
      differ,
    )
