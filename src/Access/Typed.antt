-- ===== src/Access/Typed.antt =====
-- The typed readers: FieldT, ArrayT and MapT. A type is a kind of value; the class of a message, which is generated
-- code, comes with its own `Detect`.
pub mod Bounds
use protocache.Base.{
  ℕ, zero, suc, ◌+◌, ◌-◌, ◌*◌, ◌/◌, ◌%◌, ◌^◌, List, Option, none, some, Bool, true, false, ◌==◌,
  ◌||◌, ltb, if◌then◌else◌, Run, done, fault, stuck, ◌>>=◌,
}
use protocache.Access.Words.{Slice, null, word, word64}
use protocache.Access.Strings.{string, string_detect}
use protocache.Access.Fields.{Field, get_value, get_object}
use protocache.Access.Arrays.{Array, array, array_detect}
use protocache.Access.Maps.{word_size, Pair, key, value, Map, map, map_detect}
use protocache.PerfectHash.Index.{index_size}
use protocache.Access.Messages.{Message, get_field}

-- `T::Detect`
abbrev pub Detector : Type 0
Detector = List ℕ → Option ℕ → Option ℕ → Run Slice

-- What the template's argument is: a scalar of `n` bytes, a string or bytes, or a class.
pub data Kind : Type 0 where
  scalar : ℕ → Kind
  text : Kind
  object : Detector → Kind

-- `*reinterpret_cast<const T*>(p)`, for a type of `n` bytes.
unfoldable pub read_scalar : List ℕ → ℕ → ℕ → Run ℕ
read_scalar mem n p = if n == 8 then word64 mem p else do w ← word mem p; done (w % 2 ^ (8 * n))

-- `ScalarField<T>::Get`
unfoldable pub scalar_get : List ℕ → ℕ → Field → Option ℕ → Run ℕ
unfolding read_scalar
scalar_get mem n f end =
    let view = get_value f end in
    let read : Run ℕ = elim view.ptr_ [ none ↦ fault | some p ↦ read_scalar mem n p ] in
    if view.len_ == word_size n then read else done 0

-- `StringField<T>::Get`
unfoldable pub text_get : List ℕ → Field → Option ℕ → Run Slice
text_get mem f end = do o ← get_object mem f end; string mem o end

-- `FieldT<T>::Detect`
unfoldable pub field_detect : List ℕ → Kind → Field → Option ℕ → Run Slice
field_detect mem (scalar n) f end = done (get_value f end)
field_detect mem text f end = do o ← get_object mem f end; string_detect mem o end
field_detect mem (object detect) f end = do o ← get_object mem f end; detect mem o end

-- `DetectField<T>(message, id, end)`
unfoldable pub detect_field : List ℕ → Kind → Message → ℕ → Option ℕ → Run Slice
detect_field mem k m id end = do f ← get_field mem m id end; field_detect mem k f end

-- `t.end() > view.end()`. A null slice ends before every place.
unfoldable pub ends_after : Slice → Slice → Bool
ends_after t view = elim t.ptr_ [
  | none ↦ false
  | some q ↦ elim view.ptr_ [ none ↦ true | some p ↦ ltb (p + view.len_) (q + t.len_) ]
]

-- `{view.data(), t.end() - view.data()}`
unfoldable pub stretched : Slice → Slice → Slice
stretched t view = elim t.ptr_ [
  | none ↦ view
  | some q ↦ elim view.ptr_ [ none ↦ view | some p ↦ record view { len_ = q + t.len_ - p } ]
]

-- The loop of `ArrayT<T>::Detect`, from the iterator `it` down to `first`: `*--it` is the field of `width` words
-- before it.
unfoldable pub detect_back : List ℕ → Kind → Option ℕ → Slice → ℕ → ℕ → ℕ → ℕ → Run Slice
detect_back mem k end view width first zero it = if it == first then done view else stuck
detect_back mem k end view width first (suc fuel) it =
    let round = (do
      t ← field_detect mem k (record { ptr_ = some (it - width); width_ = width }) end
      let rest = detect_back mem k end view width first fuel (it - width)
      if ends_after t view then done (stretched t view) else rest) in
    if it == first then done view else round

-- From the array, which is read without an end.
unfoldable pub detect_array : List ℕ → Kind → Option ℕ → Slice → Array → Run Slice
detect_array mem k end view a = elim a.body_ [
  | none ↦ done view
  | some body ↦
      detect_back mem k end view a.width_ body a.size_ (body + a.width_ * a.size_ % 2 ^ 32)
]

-- `ArrayT<T>::Detect`
unfoldable pub array_t_detect : Kind → Detector
array_t_detect k mem ptr end = do
  view ← array_detect mem ptr end
  let rest = (do a ← array mem ptr none; detect_array mem k end view a)
  elim view.ptr_ [ none ↦ done null | some p ↦ rest ]

-- Whether a template's argument is not a scalar, so that its object is looked at.
abbrev pub has_object : Kind → Bool
has_object (scalar n) = false
has_object text = true
has_object (object detect) = true

-- A part of a pair: the slice up to its end, if it ends behind `view`.
unfoldable pub detect_part : List ℕ → Kind → Field → Option ℕ → Slice → Run (Option Slice)
detect_part mem k f end view =
    let look = (do
      t ← field_detect mem k f end
      done (if ends_after t view then some (stretched t view) else none)) in
    if has_object k then look else done none

-- The loop of `MapT<K, V>::Detect`, from the iterator `it` down to `first`; the value is looked at first.
unfoldable pub detect_pairs :
    List ℕ → Kind → Kind → Option ℕ → Slice → ℕ → ℕ → ℕ → ℕ → ℕ → Run Slice
detect_pairs mem k v end view kw vw first zero it = if it == first then done view else stuck
detect_pairs mem k v end view kw vw first (suc fuel) it =
    let pair : Pair = record { ptr_ = some (it - (kw + vw)); key_width_ = kw; value_width_ = vw } in
    let rest = detect_pairs mem k v end view kw vw first fuel (it - (kw + vw)) in
    let round = (do
      t ← detect_part mem v (value pair) end view
      let keys = (do
        u ← detect_part mem k (key pair) end view
        elim u [ none ↦ rest | some s ↦ done s ])
      elim t [ none ↦ keys | some s ↦ done s ]) in
    if it == first then done view else round

-- From the map, which is read without an end.
unfoldable pub detect_map : List ℕ → Kind → Kind → Option ℕ → Slice → Map → Run Slice
detect_map mem k v end view m = do
  n ← index_size mem m.index_
  elim m.body_ [
    | none ↦ done view
    | some body ↦
        detect_pairs mem k v end view m.key_width_ m.value_width_ body n
          (body + (m.key_width_ + m.value_width_) * n % 2 ^ 32)
  ]

-- `MapT<K, V>::Detect`
unfoldable pub map_t_detect : Kind → Kind → Detector
map_t_detect k v mem ptr end = do
  view ← map_detect mem ptr end
  let pairs = (do m ← map mem ptr none; detect_map mem k v end view m)
  let rest = if has_object k || has_object v then pairs else done view
  elim view.ptr_ [ none ↦ done null | some p ↦ rest ]
