-- ===== src/Access/Typed/Bounds.antt =====
-- The typed Detect functions, given the end of the data.
use protocache.Base.{
  ℕ, zero, suc, ◌+◌, ◌-◌, ◌*◌, ◌/◌, ◌^◌, ◌<◌, ◌≤◌, ◌≡◌, refl, ◌∙◌, inl, inr, ◌⊎◌, true, false,
  Bool-cases, ◌==◌, ltb, if◌then◌else◌, bit_and, bit_and_mask, List, length, Option, some, none,
  Run, done, arith,
}
use native.Mathlib.Nat.{mod-eq_of_lt}
use protocache.Access.Words.{Slice, null, IsMemory, word, word_inside, word-lt}
use protocache.Access.Strings.{string_detect, covered}
use protocache.Access.Fields.{Field, get_value}
use protocache.Access.Messages.Bounds.{Inside}
use protocache.Access.Bounds.{Between, get_object_before, string-Between}
use protocache.Access.Arrays.{array, array_detect}
use protocache.Access.Typed.{
  Kind, scalar, text, object, field_detect, ends_after, stretched, detect_back, detect_array,
  array_t_detect,
}

-- A slice of words that is null or lies before the end.
abbrev pub Part : ℕ → Slice → Type 0
Part end s = (s ≡ null) ⊎ ((p : ℕ) × (s.ptr_ ≡ some p) × (p + s.len_ ≤ end))

-- The `Detect` of a class, called at a place before the end, ends there too.
abbrev pub IsBounded : List ℕ → ℕ → Kind → Type 0
IsBounded mem end (scalar n) = Unit
IsBounded mem end text = Unit
IsBounded mem end (object detect) =
    (detect mem none (some end) ≡ done null)
    × ((q : ℕ) → q < end → (s : Slice) × (detect mem (some q) (some end) ≡ done s) × Part end s)

module _ (mem : List ℕ) (end : ℕ) (fits : end ≤ length mem) where
  get_value-Part : (f : Field) → Inside end f → Part end (get_value f (some end))
  unfolding get_value
  get_value-Part f (inl e) = rw e (inl refl)
  get_value-Part f (inr (p, w, e, _, room)) =
      let near : ltb end (p + w) ≡ false = ground arith in rw (e, near) (inr (p, refl, room))

  covered-Part : (q : ℕ) (s : Slice) → Between (q * 4) end s → Part end (covered q s)
  unfolding covered
  covered-Part q s (inl e) = rw e (inl refl)
  covered-Part q s (inr (p, e, after, room)) = rw e (inr (q, refl, omega arith))

  string_detect-Part :
      (q : ℕ)
      → q < end
      → (s : Slice) × (string_detect mem (some q) (some end) ≡ done s) × Part end s
  unfolding string_detect
  string_detect-Part q h =
      let (s, e, between) = string-Between mem end fits q h in
      (covered q s, rw e, covered-Part q s between)

  -- `FieldT<T>::Detect` on a field before the end.
  pub field_detect-Part :
      (k : Kind) (f : Field)
      → IsBounded mem end k
      → Inside end f
      → (s : Slice) × (field_detect mem k f (some end) ≡ done s) × Part end s
  unfolding field_detect string_detect
  field_detect-Part (scalar n) f ok inside = (get_value f (some end), refl, get_value-Part f inside)
  field_detect-Part text f ok inside =
      let (o, eo, before) = get_object_before mem end fits f inside in
      elim before [
        | inl gone ↦ (null, rw (eo, gone), inl refl)
        | inr (q, there, h) ↦
            let (s, e, part) = string_detect-Part q h in (s, rw (eo, there) e, part)
      ]
  field_detect-Part (object detect) f ok inside =
      let (o, eo, before) = get_object_before mem end fits f inside in
      elim before [
        | inl gone ↦ (null, rw (eo, gone) ok.0, inl refl)
        | inr (q, there, h) ↦ let (s, e, part) = ok.1 q h in (s, rw (eo, there) e, part)
      ]

  -- What lies between a place and the end of a part is a part, and it is not shorter.
  abbrev Grows : ℕ → ℕ → Slice → Type 0
  Grows p len s = (s.ptr_ ≡ some p) × (len ≤ s.len_) × (p + s.len_ ≤ end)

  stretched-Grows :
      (t view : Slice) (p : ℕ)
      → view.ptr_ ≡ some p
      → Part end t
      → ends_after t view ≡ true
      → Grows p view.len_ (stretched t view)
  unfolding ends_after stretched
  stretched-Grows t view p e (inl gone) longer = cc
  stretched-Grows t view p e (inr (q, there, room)) longer =
      let far : ltb (p + view.len_) (q + t.len_) ≡ true = rw (there, e) at longer in
      rw (there, e) (refl, ground arith, ground arith)

  detect_back-suc :
      (k : Kind) (view t : Slice) (width first fuel it before : ℕ)
      → (it == first) ≡ false
      → it - width ≡ before
      → field_detect mem k (record { ptr_ = some before; width_ = width }) (some end) ≡ done t
      → detect_back mem k (some end) view width first (suc fuel) it ≡ (
          if ends_after t view
          then done (stretched t view)
          else detect_back mem k (some end) view width first fuel before)
  unfolding detect_back
  detect_back-suc k view t width first fuel it before more e et = rw (more, e, et)

  detect_back-Grows :
      (k : Kind) (view : Slice) (p width first fuel : ℕ)
      → IsBounded mem end k
      → view.ptr_ ≡ some p
      → p + view.len_ ≤ end
      → 1 ≤ width
      → first + width * fuel ≤ end
      → (s : Slice) × (detect_back mem k (some end) view width first fuel (first + width * fuel)
          ≡ done s)
        × Grows p view.len_ s
  unfolding detect_back
  detect_back-Grows k view p width first zero ok e room pos area =
      let at : (first + width * zero == first) ≡ true = ground arith in
      (view, rw at, (e, omega arith, room))
  detect_back-Grows k view p width first (suc fuel) ok e room pos area =
      let next : width * suc fuel ≡ width * fuel + width = grind arith in
      let more : (first + width * suc fuel == first) ≡ false = ground arith in
      let before : first + width * suc fuel - width ≡ first + width * fuel = omega (arith, next) in
      let it = first + width * fuel in
      let f : Field = record { ptr_ = some it; width_ = width } in
      let (t, et, part) = field_detect-Part k f ok (inr (it, width, refl, pos, omega arith)) in
      let step =
        detect_back-suc k view t width first fuel (first + width * suc fuel) it more before et in
      elim (Bool-cases (ends_after t view)) [
        | inl longer ↦
            (stretched t view, step ∙ rw longer refl, stretched-Grows t view p e part longer)
        | inr shorter ↦
            let (s, es, grows) =
              detect_back-Grows k view p width first fuel ok e room pos (omega arith) in
            (s, step ∙ rw shorter es, grows)
      ]

  -- What `ArrayT<T>::Detect` finds next to `Array::Detect`: both null, or all that the latter has and more.
  abbrev pub Extends : Option ℕ → Run Slice → Run Slice → Type 0
  Extends ptr found r =
      (view : Slice) × (s : Slice) × (found ≡ done view)
      × (r ≡ done s)
      × (((view ≡ null) × (s ≡ null))
          ⊎ ((view.ptr_ ≡ ptr)
              × (s.ptr_ ≡ ptr)
              × (view.len_ ≤ s.len_)
              × ((p : ℕ) × (ptr ≡ some p) × (p + s.len_ ≤ end))))

  array_at :
      (k : Kind) (p w : ℕ)
      → IsBounded mem end k
      → p < end
      → word mem p ≡ done w
      → w < 2 ^ 32
      → Extends
          (some p)
          (array_detect mem (some p) (some end))
          (array_t_detect k mem (some p) (some end))
  unfolding array_t_detect array_detect array detect_array
  array_at k p w ok h read small =
      let width = bit_and w 3 in
      let size = w / 2 ^ 2 in
      let width_le : width ≤ 3 = omega (arith, bit_and_mask 2 w) in
      let area : width * size ≤ 3 * size = grind arith in
      let exact = mod-eq_of_lt {n = width * size} {m = 2 ^ 32} (omega arith) in
      elim (Bool-cases (width == 0)) [
        | inl empty ↦ (null, null, rw (read, empty), rw (read, empty), inl (refl, refl))
        | inr some_width ↦ elim (Bool-cases (ltb end (p + 1 + width * size))) [
          | inl far ↦ (
            null,
            null,
            rw (read, some_width, exact, far),
            rw (read, some_width, exact, far),
            inl (refl, refl),
          )
          | inr near ↦
              let view : Slice = record { ptr_ = some p; len_ = p + 1 + width * size - p } in
              let (s, es, grows) =
                detect_back-Grows k view p width (p + 1) size ok refl (ground arith) (ground arith)
                  (ground arith) in
              (
                view,
                s,
                rw (read, some_width, exact, near),
                rw (read, some_width, exact, near, read, some_width, exact) es,
                inr (refl, grows.0, grows.1, (p, refl, grows.2)),
              )
        ]
      ]

  -- On 32-bit words, given an end inside the memory and a pointer before it, where the Detect of a class stays
  -- before the end, array_t_detect ends without a fault; it finds null where array_detect does, and else words
  -- from the array on that have all of the latter's and lie before the end.
  pub array_t_detect-Extends :
      (k : Kind) (p : ℕ)
      → IsMemory mem
      → IsBounded mem end k
      → p < end
      → Extends
          (some p)
          (array_detect mem (some p) (some end))
          (array_t_detect k mem (some p) (some end))
  array_t_detect-Extends k p words ok h =
      let (w, read) = word_inside mem p (omega arith) in
      array_at k p w ok h read (word-lt mem p w words read)
