-- ===== src/Access/Messages/Bounds.antt =====
-- Readers that are given the end of the data stay inside it.
use protocache.Base.{
  ℕ, ◌+◌, ◌-◌, ◌*◌, ◌/◌, ◌%◌, ◌≤◌, ◌<◌, ◌≡◌, refl, ap, List, none, some, Bool, true, false, ◌==◌,
  ltb, leb, inl, inr, Bool-cases, length, ◌⊎◌, if◌then◌else◌, done, arith,
}
use protocache.Access.Words.{word, word_inside, word64_inside}
use protocache.Access.Fields.{Field, no_field}
use protocache.Access.Messages.{
  Message, message, header, sections, section_word, field_at, get_field, inline_field,
  extended_field,
}

-- The words of a field lie before `end`, and there is one at least.
abbrev pub Inside : ℕ → Field → Type 0
Inside end f =
    (f ≡ no_field)
    ⊎ ((p : ℕ) × (w : ℕ) × (f ≡ record { ptr_ = some p; width_ = w }) × (1 ≤ w) × (p + w ≤ end))

-- A message whose sections lie before `end`.
abbrev pub Opened : List ℕ → ℕ → Message → Type 0
Opened mem end m =
    (m ≡ none)
    ⊎ ((p : ℕ) × (w : ℕ) × (m ≡ some p) × (word mem p ≡ done w) × (p + 1 + sections w * 2 ≤ end))

module _ (mem : List ℕ) (end : ℕ) (fits : end ≤ length mem) where
  -- The constructor.
  pub message-Opened :
      (p : ℕ)
      → p < end
      → (m : Message) × (message mem (some p) (some end) ≡ done m) × Opened mem end m
  unfolding message
  message-Opened p h =
      let (w, e) = word_inside mem p (omega arith) in
      elim (Bool-cases (ltb end (p + 1 + sections w * 2))) [
        | inl far ↦ (none, rw (e, far), inl refl)
        | inr near ↦ (some p, rw (e, near), inr (p, w, refl, e, ground arith))
      ]

  field_at-Inside :
      (p section off width : ℕ)
      → 1 ≤ width
      → Inside end (field_at (some end) (some p) section off width)
  unfolding field_at
  field_at-Inside p section off width h =
      elim (Bool-cases (ltb end (p + 1 + section * 2 + off + width))) [
        | inl far ↦ rw far (inl refl)
        | inr near ↦ rw near (inr (p + 1 + section * 2 + off, width, refl, h, ground arith))
      ]

  checked_field-Inside :
      (p section off width : ℕ)
      → Inside end (if width == 0 then no_field else field_at (some end) (some p) section off width)
  checked_field-Inside p section off width = elim (Bool-cases (width == 0)) [
    | inl e ↦ rw e (inl refl)
    | inr e ↦ rw e (field_at-Inside p section off width (ground arith))
  ]

  get_field-empty : (id : ℕ) → get_field mem none id (some end) ≡ done no_field
  unfolding get_field header inline_field field_at sections
  get_field-empty id = elim (Bool-cases (ltb id 12)) [
    | inl e ↦ rw e (ap done (absent _))
    | inr e ↦
        let none_there : leb (sections 0) ((id - 12) / 25) ≡ true = ground arith in
        rw (e, none_there)
  ]
    where
      absent : (b : Bool) → (if b then no_field else no_field) ≡ no_field
      absent true = refl
      absent false = refl

  -- `GetField`: no fault, and the field's words lie before the end.
  pub get_field-Inside :
      (m : Message) (id : ℕ)
      → Opened mem end m
      → (f : Field) × (get_field mem m id (some end) ≡ done f) × Inside end f
  get_field-Inside m id (inl e) = (no_field, rw e (get_field-empty id), inl refl)
  get_field-Inside m id (inr (p, w, e, read, room)) = rw e (elim (Bool-cases (ltb id 12)) [
    | inl low ↦ (
      inline_field (some end) (some p) w id,
      unfold get_field header in rw (read, low),
      unfold inline_field in checked_field-Inside p _ _ _,
    )
    | inr high ↦ elim (Bool-cases (leb (sections w) ((id - 12) / 25))) [
      | inl none_there ↦
          (no_field, unfold get_field header in rw (read, high, none_there), inl refl)
      | inr there ↦
          let (v, got) = word64_inside mem (p + 1 + (id - 12) / 25 * 2) (ground arith) in
          (
            extended_field (some end) (some p) (sections w) v ((id - 12) % 25),
            unfold get_field header section_word in rw (read, high, there, got),
            unfold extended_field in checked_field-Inside p _ _ _,
          )
    ]
  ])
