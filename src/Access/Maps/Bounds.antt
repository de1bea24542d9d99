-- ===== src/Access/Maps/Bounds.antt =====
-- Map and Find, given the end of the data.
use protocache.Base.{
  ℕ, ◌+◌, ◌-◌, ◌*◌, ◌/◌, ◌^◌, ◌<◌, ◌≤◌, ◌≡◌, refl, sym, ◌∙◌, inl, inr, ◌⊎◌, true, false, Bool,
  Bool-cases, ◌==◌, ◌||◌, ltb, leb, bit_and, bit_and_mask, List, [], ◌∷◌, length, Option, some,
  none, done, arith,
}
use native.Mathlib.Nat.{mod-eq_of_lt}
use protocache.Access.Words.{Slice, null, word_inside, byte_inside}
use protocache.Access.Strings.{string}
use protocache.Access.Messages.Bounds.{Inside}
use protocache.Access.Bounds.{Within, get_object_before, string-Within}
use protocache.Access.Maps.{
  word_size, Pair, key, value, Map, bytes_left, map_body, indexed_map, map, pair_of, same_bytes,
  holds_key, find,
}
use protocache.PerfectHash.Index.{Index, no_index, index_size, real_size}
use protocache.PerfectHash.Index.Safety.{
  Fits, absent, present, index-Fits, locate-Fits, real_size-lt,
}

-- A map without a body, or with all its pairs before the end.
pub record Enclosed (mem : List ℕ) (end : ℕ) (m : Map) : Type 0 where
  pub fits : Fits mem m.index_
  pub size : ℕ
  pub sized : index_size mem m.index_ ≡ done size
  pub pairs :
      (m.body_ ≡ none)
      ⊎ ((b : ℕ) × (m.body_ ≡ some b)
          × (1 ≤ m.key_width_)
          × (1 ≤ m.value_width_)
          × ((m.key_width_ + m.value_width_) * size < 2 ^ 32)
          × (b + (m.key_width_ + m.value_width_) * size ≤ end))

bytes_left_lem : (p end : ℕ) → p < end → end - p < 2 ^ 30 → bytes_left p (some end) ≡ (end - p) * 4
unfolding bytes_left
bytes_left_lem p end h short = omega arith

module _ (mem : List ℕ) (end : ℕ) (fits : end ≤ length mem) where
  index_size_lem :
      (ix : Index) → Fits mem ix → (n : ℕ) × (index_size mem ix ≡ done n) × (n < 2 ^ 28)
  unfolding index_size
  index_size_lem ix (absent e) = (0, rw e, omega arith)
  index_size_lem ix (present p h e read _) = (real_size h, rw (e, read), real_size-lt h)

  map_body-Enclosed :
      (p kw vw : ℕ) (ix : Index)
      → Fits mem ix
      → (1 ≤ kw) × (kw ≤ 3)
      → (1 ≤ vw) × (vw ≤ 3)
      → (m : Map) × (map_body mem p (some end) ix kw vw ≡ done m) × Enclosed mem end m
  unfolding map_body
  map_body-Enclosed p kw vw ix ok hk hv =
      let (n, e, small) = index_size_lem ix ok in
      let area : (kw + vw) * n ≤ 6 * n = grind arith in
      let exact = mod-eq_of_lt {n = (kw + vw) * n} {m = 2 ^ 32} (omega arith) in
      let body = p + word_size ix.data_size_ in
      elim (Bool-cases (ltb end (body + (kw + vw) * n))) [
        | inl far ↦ (
          record { index_ = ix; body_ = none; key_width_ = kw; value_width_ = vw },
          rw (e, exact, far),
          record { fits = ok; size = n; sized = e; pairs = inl refl },
        )
        | inr near ↦ (
          record { index_ = ix; body_ = some body; key_width_ = kw; value_width_ = vw },
          rw (e, exact, near),
          record {
            fits = ok;
            size = n;
            sized = e;
            pairs = inr (body, refl, hk.0, hv.0, omega arith, ground arith);
          },
        )
      ]

  indexed_map-Enclosed :
      (p kw vw : ℕ) (ix : Index) (d : Option ℕ)
      → Fits mem ix
      → (1 ≤ kw) × (kw ≤ 3)
      → (1 ≤ vw) × (vw ≤ 3)
      → (m : Map) × (indexed_map mem p (some end) kw vw ix d ≡ done m) × Enclosed mem end m
  unfolding indexed_map
  indexed_map-Enclosed p kw vw ix none ok hk hv =
      let (n, e, _) = index_size_lem ix ok in
      (_, refl, record { fits = ok; size = n; sized = e; pairs = inl refl })
  indexed_map-Enclosed p kw vw ix (some q) ok hk hv = map_body-Enclosed p kw vw ix ok hk hv

  -- Given an end that lies inside the memory and at most 2 ^ 30 - 1 words behind the pointer, which lies
  -- before it, map ends without a fault in a map whose index is null or lies inside the memory, and that has
  -- no body or all its pairs before the end.
  pub map-Enclosed :
      (p : ℕ)
      → p < end
      → end - p < 2 ^ 30
      → (m : Map) × (map mem (some p) (some end) ≡ done m) × Enclosed mem end m
  unfolding map index_size
  map-Enclosed p h short =
      let (w, read) = word_inside mem p (omega arith) in
      let kw = bit_and (w / 2 ^ 30) 3 in
      let vw = bit_and (w / 2 ^ 28) 3 in
      let kw_le : kw ≤ 3 = omega (arith, bit_and_mask 2 (w / 2 ^ 30)) in
      let vw_le : vw ≤ 3 = omega (arith, bit_and_mask 2 (w / 2 ^ 28)) in
      let empty : Map = record {
        index_ = no_index;
        body_ = none;
        key_width_ = kw;
        value_width_ = vw;
      } in
      elim (Bool-cases (kw == 0 || vw == 0)) [
        | inl bad ↦ (
          empty,
          rw (read, bad),
          record { fits = absent refl; size = 0; sized = refl; pairs = inl refl },
        )
        | inr good ↦
            let (ix, e, ok) =
              index-Fits mem p ((end - p) * 4) (λ z. omega (arith, z)) (omega arith) in
            let (m, em, enclosed) =
              indexed_map-Enclosed p kw vw ix ix.data_ ok (ground arith) (ground arith) in
            (m, rw (read, good, bytes_left_lem p end h short, e) em, enclosed)
      ]

  -- The key and the value of a pair of the map are fields before the end.
  pub pair_of-Inside :
      (m : Map) (body n pos : ℕ)
      → m.body_ ≡ some body
      → 1 ≤ m.key_width_
      → 1 ≤ m.value_width_
      → (m.key_width_ + m.value_width_) * n < 2 ^ 32
      → body + (m.key_width_ + m.value_width_) * n ≤ end
      → pos < n
      → (it : Pair) × (pair_of m pos ≡ done it) × Inside end (key it) × Inside end (value it)
  unfolding pair_of key value
  pair_of-Inside m body n pos e hk hv small room h =
      let w = m.key_width_ + m.value_width_ in
      let inner : w * pos + w ≤ w * n = grind arith in
      let exact = mod-eq_of_lt {n = w * pos} {m = 2 ^ 32} (omega arith) in
      let at = body + w * pos in
      (
        record { ptr_ = some at; key_width_ = m.key_width_; value_width_ = m.value_width_ },
        rw (e, exact),
        inr (at, m.key_width_, refl, hk, omega arith),
        inr (at + m.key_width_, m.value_width_, refl, hv, omega arith),
      )

  same_bytes_inside :
      (q : ℕ) (bs : List ℕ)
      → q + length bs ≤ 4 * length mem
      → (b : Bool) × (same_bytes mem q bs ≡ done b)
  unfolding same_bytes
  same_bytes_inside q [] h = (true, refl)
  same_bytes_inside q (b ∷ bs) h =
      let (x, e, _) = byte_inside mem q (omega arith) in
      elim (Bool-cases (x == b)) [
        | inl same ↦
            let (r, er) = same_bytes_inside (q + 1) bs (omega arith) in (r, rw (e, same) er)
        | inr differ ↦ (false, rw (e, differ))
      ]

  holds_key_inside :
      (s : Slice) (str : List ℕ) → Within end s → (b : Bool) × (holds_key mem s str ≡ done b)
  unfolding holds_key
  holds_key_inside s str (inl e) = (false, rw e)
  holds_key_inside s str (inr (p, e, room)) = elim (Bool-cases (s.len_ == length str)) [
    | inr other ↦ (false, rw (e, other))
    | inl same ↦ let (r, er) = same_bytes_inside p str (ground arith) in (r, rw (e, same) er)
  ]

  -- `String`, on what `GetObject` gives.
  string_any :
      (o : Option ℕ)
      → (o ≡ none) ⊎ ((q : ℕ) × (o ≡ some q) × (q < end))
      → (s : Slice) × (string mem o (some end) ≡ done s) × Within end s
  unfolding string
  string_any o (inl e) = (null, rw e, inl refl)
  string_any o (inr (q, e, h)) =
      let (s, es, within) = string-Within mem end fits q h in (s, rw e es, within)

  -- On a map with a body, whose index is null or lies inside the memory and whose pairs lie before the end,
  -- find, given the end, which is inside the memory, ends without a fault, and what it finds is the number of
  -- one of the pairs.
  pub find-Enclosed :
      (m : Map) (body : ℕ) (str : List ℕ)
      → (e : Enclosed mem end m) → m.body_ ≡ some body
      → (r : Option ℕ) × (find mem m str (some end) ≡ done r)
        × ((r ≡ none) ⊎ ((pos : ℕ) × (r ≡ some pos) × (pos < e.size)))
  unfolding find
  find-Enclosed m body str en e =
      let (pos, el) = locate-Fits mem m.index_ str en.fits in
      elim (Bool-cases (leb en.size pos)) [
        | inl far ↦ (none, rw (el, en.sized, far), inl refl)
        | inr near ↦ elim en.pairs [
          | inl gone ↦ let clash : ◌≡◌ {A = Option ℕ} none (some body) = sym gone ∙ e in cc
          | inr (b, eb, hk, hv, small, room) ↦
              let (it, ei, inside, _) =
                pair_of-Inside m b en.size pos eb hk hv small room (ground arith) in
              let (o, eo, before) = get_object_before mem end fits (key it) inside in
              let (s, es, within) = string_any o before in
              let (found, ef) = holds_key_inside s str within in
              elim (Bool-cases found) [
                | inl yes_there ↦ (
                  some pos,
                  rw (el, en.sized, near, ei, eo, es, ef, yes_there),
                  inr (pos, refl, ground arith),
                )
                | inr no_there ↦ (none, rw (el, en.sized, near, ei, eo, es, ef, no_there), inl refl)
              ]
        ]
      ]
