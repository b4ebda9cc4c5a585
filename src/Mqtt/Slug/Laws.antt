-- ===== src/Mqtt/Slug/Laws.antt =====
-- Slugs are safe in topics and identifiers.
use Prim.Native.Char.{Char}
use Prim.Native.String.{String, [], ◌∷◌}
use vbus2mqtt.Prelude.{◌≡◌, refl, ◌∙◌, false, Bool-cases, inl, inr, ◌||◌, if◌then◌else◌}
use vbus2mqtt.Mqtt.Slug.{
  Unicode, IsUnicode, is_underscore, trim_left, trim_right, cons_trimmed, lower, slug_loop,
  field_slug,
}

abbrev pub AllChars : (Char → Type 0) → String → Type 0
AllChars P [] = Unit
AllChars P (c ∷ s) = P c × AllChars P s

-- No underscore in front.
abbrev pub StartsClean : String → Type 0
StartsClean [] = Unit
StartsClean (c ∷ s) = is_underscore c ≡ false

-- No underscore at the end.
abbrev pub EndsClean : String → Type 0
EndsClean [] = Unit
EndsClean (c ∷ []) = is_underscore c ≡ false
EndsClean (c ∷ x ∷ s) = EndsClean (x ∷ s)

trim_left-StartsClean : (s : String) → StartsClean (trim_left s)
unfolding trim_left
trim_left-StartsClean [] = tt
trim_left-StartsClean (c ∷ s) = elim (Bool-cases (is_underscore c)) [
  | inl e ↦ rw e (trim_left-StartsClean s)
  | inr e ↦ rw e e
]

cons_trimmed-EndsClean : (c : Char) (s : String) → EndsClean s → EndsClean (cons_trimmed c s)
unfolding cons_trimmed
cons_trimmed-EndsClean c [] h = elim (Bool-cases (is_underscore c)) [
  | inl e ↦ rw e tt
  | inr e ↦ rw e e
]
cons_trimmed-EndsClean c (x ∷ s) h = h

pub trim_right-EndsClean : (s : String) → EndsClean (trim_right s)
unfolding trim_right
trim_right-EndsClean [] = tt
trim_right-EndsClean (c ∷ s) = cons_trimmed-EndsClean c (trim_right s) (trim_right-EndsClean s)

cons_trimmed-StartsClean :
    (c : Char) (s : String) → is_underscore c ≡ false → StartsClean (cons_trimmed c s)
unfolding cons_trimmed
cons_trimmed-StartsClean c [] h = rw h h
cons_trimmed-StartsClean c (x ∷ s) h = h

trim_right-StartsClean : (s : String) → StartsClean s → StartsClean (trim_right s)
unfolding trim_right
trim_right-StartsClean [] h = tt
trim_right-StartsClean (c ∷ s) h = cons_trimmed-StartsClean c (trim_right s) h

module _ (P : Char → Type 0) where
  trim_left-AllChars : (s : String) → AllChars P s → AllChars P (trim_left s)
  unfolding trim_left
  trim_left-AllChars [] h = tt
  trim_left-AllChars (c ∷ s) h = elim (Bool-cases (is_underscore c)) [
    | inl e ↦ rw e (trim_left-AllChars s h.1)
    | inr e ↦ rw e h
  ]

  cons_trimmed-AllChars :
      (c : Char) (s : String) → P c → AllChars P s → AllChars P (cons_trimmed c s)
  unfolding cons_trimmed
  cons_trimmed-AllChars c [] p h = elim (Bool-cases (is_underscore c)) [
    | inl e ↦ rw e tt
    | inr e ↦ rw e (p, tt)
  ]
  cons_trimmed-AllChars c (x ∷ s) p h = (p, h)

  trim_right-AllChars : (s : String) → AllChars P s → AllChars P (trim_right s)
  unfolding trim_right
  trim_right-AllChars [] h = tt
  trim_right-AllChars (c ∷ s) h =
      cons_trimmed-AllChars c (trim_right s) h.0 (trim_right-AllChars s h.1)

trim_left_clean : (s : String) → StartsClean s → trim_left s ≡ s
unfolding trim_left
trim_left_clean [] h = refl
trim_left_clean (c ∷ s) h = rw h

trim_right_clean : (s : String) → EndsClean s → trim_right s ≡ s
unfolding trim_right cons_trimmed
trim_right_clean [] h = refl
trim_right_clean (c ∷ []) h = rw h
trim_right_clean (c ∷ x ∷ s) h = rw (trim_right_clean (x ∷ s) h, cons_trimmed)

module _ (u : Unicode) (good : IsUnicode u) where
  -- A character that a slug may hold: in lower case, and a letter, a digit or the underscore.
  abbrev pub IsSlugChar : Char → Type 0
  IsSlugChar c = (u.to_lower c ≡ c) × ((if u.is_letter c || u.is_digit c then c else "_") ≡ c)

  slug_char :
      (c : Char)
      → IsSlugChar
          (if u.is_letter (u.to_lower c) || u.is_digit (u.to_lower c) then u.to_lower c else "_")
  slug_char c = elim (Bool-cases (u.is_letter (u.to_lower c) || u.is_digit (u.to_lower c))) [
    | inl e ↦ rw e (good.to_lower_idem c, rw e)
    | inr e ↦
        rw e (good.to_lower-underscore, rw (good.is_letter-underscore, good.is_digit-underscore))
  ]

  slug_loop-AllChars : (s : String) → AllChars IsSlugChar (slug_loop u (lower u s))
  unfolding slug_loop lower
  slug_loop-AllChars [] = tt
  slug_loop-AllChars (c ∷ s) = (slug_char c, slug_loop-AllChars s)

  slug_loop_clean : (s : String) → AllChars IsSlugChar s → slug_loop u (lower u s) ≡ s
  unfolding slug_loop lower
  slug_loop_clean [] h = refl
  slug_loop_clean (c ∷ s) h = rw (h.0.0, h.0.1, slug_loop_clean s h.1)

  -- Where lower case is reached in one step and the underscore is no letter, no digit and its own lower
  -- case, a slug has only letters and digits in lower case and underscores, none of them at an end.
  pub field_slug-IsClean :
      (name : String)
      → AllChars IsSlugChar (field_slug u name)
        × StartsClean (field_slug u name)
        × EndsClean (field_slug u name)
  unfolding field_slug
  field_slug-IsClean name =
      let looped = slug_loop u (lower u name) in
      (
        trim_right-AllChars IsSlugChar (trim_left looped)
            (trim_left-AllChars IsSlugChar looped (slug_loop-AllChars name)),
        trim_right-StartsClean (trim_left looped) (trim_left-StartsClean looped),
        trim_right-EndsClean (trim_left looped),
      )

  -- Under the same conditions the slug of a slug is the slug.
  pub field_slug_idem : (name : String) → field_slug u (field_slug u name) ≡ field_slug u name
  field_slug_idem name =
      let (chars, starts, ends) = field_slug-IsClean name in
      let s = field_slug u name in
      unfold_field_slug s
      ∙ rw (slug_loop_clean s chars, trim_left_clean s starts, trim_right_clean s ends)
    where
      unfold_field_slug :
          (s : String) → field_slug u s ≡ trim_right (trim_left (slug_loop u (lower u s)))
      unfold_field_slug s = unfold field_slug in refl
