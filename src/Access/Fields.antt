-- ===== src/Access/Fields.antt =====
-- The class `Field`: the words of a value, or the way to an object.
use protocache.Base.{
  ℕ, ◌+◌, ◌/◌, ◌^◌, List, Option, none, some, ◌==◌, bit_and, if◌then◌else◌, Run, done, ◌>>=◌,
}
use protocache.Access.Words.{Slice, null, word, reaches, passes}

pub record Field : Type 0 where
  pub ptr_ : Option ℕ
  pub width_ : ℕ

abbrev pub no_field : Field
no_field = record { ptr_ = none; width_ = 0 }

-- A null field has no words, and a null pointer lies before every end.
unfoldable pub get_value : Field → Option ℕ → Slice
get_value f end = elim f.ptr_ [
  | none ↦ record { ptr_ = none; len_ = f.width_ }
  | some p ↦ if passes (p + f.width_) end then null else record { ptr_ = some p; len_ = f.width_ }
]

-- An offset is a word that ends in 11; it counts from its own place.
unfoldable pub follow : ℕ → ℕ → ℕ
follow p w = if bit_and w 3 == 3 then p + w / 2 ^ 2 else p

unfoldable pub get_object : List ℕ → Field → Option ℕ → Run (Option ℕ)
unfolding follow
get_object mem f end = elim f.ptr_ [
  | none ↦ done none
  | some p ↦
      let object = (do
        w ← word mem p
        done (if reaches (follow p w) end then none else some (follow p w))) in
      if reaches p end then done none else object
]
