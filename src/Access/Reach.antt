-- ===== src/Access/Reach.antt =====
-- Every way from the root of the data through fields and elements.
use protocache.Base.{ℕ, ◌≤◌, ◌<◌, ◌≡◌, subst, List, Option, none, some, length, inl, inr, done}
use protocache.Access.Words.{Slice, IsMemory}
use protocache.Access.Strings.{string}
use protocache.Access.Fields.{Field, get_object}
use protocache.Access.Messages.{Message, message, get_field}
use protocache.Access.Messages.Bounds.{Inside, Opened, message-Opened, get_field-Inside}
use protocache.Access.Arrays.{Array, array, element}
use protocache.Access.Bounds.{
  Within, Bounded, get_object_before, array-Bounded, element-Inside, string-Within,
}

-- The places that a client comes to from `root` when it hands `end` to every reader: objects of a
-- field of a message, and objects of an element of an array.
pub data Reach (mem : List ℕ) (end root : ℕ) : ℕ → Type 0 where
  here : Reach mem end root root
  through_field :
      {p q : ℕ} (m : Message) (id : ℕ) (f : Field)
      → Reach mem end root p
      → message mem (some p) (some end) ≡ done m
      → get_field mem m id (some end) ≡ done f
      → get_object mem f (some end) ≡ done (some q)
      → Reach mem end root q
  through_element :
      {p q : ℕ} (a : Array) (pos : ℕ)
      → Reach mem end root p
      → array mem (some p) (some end) ≡ done a
      → pos < a.size_
      → get_object mem (element a pos) (some end) ≡ done (some q)
      → Reach mem end root q

module _ (mem : List ℕ) (end root : ℕ) (fits : end ≤ length mem) (words : IsMemory mem)
    (start : root < end) where
  object-lt :
      {q : ℕ} (f : Field) → Inside end f → get_object mem f (some end) ≡ done (some q) → q < end
  object-lt {q} f inside e =
      let (o, r, before) = get_object_before mem end fits f inside in
      let same : o ≡ some q = cc in
      elim before [
        | inl nothing ↦ let clash : ◌≡◌ {A = Option ℕ} none (some q) = cc in cc
        | inr (p, there, lt) ↦ let eq : p ≡ q = cc in subst (λ k. k < end) eq lt
      ]

  Reach-lt : {p : ℕ} → Reach mem end root p → p < end
  Reach-lt here = start
  Reach-lt (through_field {p} m id f r em ef eo) =
      let (m', e, opened) = message-Opened mem end fits p (Reach-lt r) in
      let same : m' ≡ m = cc in
      let (f', e', inside) =
        get_field-Inside mem end fits m id (subst (Opened mem end) same opened) in
      let same' : f' ≡ f = cc in object-lt f (subst (Inside end) same' inside) eo
  Reach-lt (through_element {p} a pos r ea h eo) =
      let (a', e, bounded) = array-Bounded mem end fits p (Reach-lt r) words in
      let same : a' ≡ a = cc in
      object-lt (element a pos)
        (element-Inside mem end fits a pos (subst (Bounded end) same bounded) h) eo

  -- On data of 32-bit words that ends at `end` inside the memory, a client that starts before the end
  -- and hands it to every reader comes only to places before the end; there `Message`, `Array` and `String`
  -- end without a fault, and the sections, the elements and the bytes that they find lie before the end.
  pub Reach-safe :
      {p : ℕ}
      → Reach mem end root p
      → (p < end)
        × ((m : Message) × (message mem (some p) (some end) ≡ done m) × Opened mem end m)
        × ((a : Array) × (array mem (some p) (some end) ≡ done a) × Bounded end a)
        × ((s : Slice) × (string mem (some p) (some end) ≡ done s) × Within end s)
  Reach-safe {p} r =
      let h = Reach-lt r in
      (
        h,
        message-Opened mem end fits p h,
        array-Bounded mem end fits p h words,
        string-Within mem end fits p h,
      )
