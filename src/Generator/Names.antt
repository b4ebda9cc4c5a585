-- ===== src/Generator/Names.antt =====
-- The names that the generator writes into the table.
use Prim.Native.Char.{Char}
use Prim.Native.String.{String, [], ◌∷◌}
use text.Mathlib.TextEquality.{Char-path}
use mathlib.Core.Path.{subst}
use vbus2mqtt.Prelude.{
  ◌≡◌, ◌≢◌, refl, ap, sym, Bool, true, false, not, ◌&&◌, ◌||◌, Bool-cases, ◌⊎◌, inl, inr, Option,
  none, some, arith,
}
use vbus2mqtt.Mqtt.Slug.{Unicode, IsUnicode, is_underscore, lower, trim_right, cons_trimmed}
use vbus2mqtt.Mqtt.Slug.Laws.{EndsClean, trim_right-EndsClean}
use vbus2mqtt.Generator.{is_separator, name_step, name_loop, or_field, to_go_field_name}

abbrev pub starts_with_underscore : String → Bool
starts_with_underscore [] = false
starts_with_underscore (c ∷ s) = is_underscore c

-- No two underscores side by side.
abbrev pub NoDouble : String → Type 0
NoDouble [] = Unit
NoDouble (c ∷ s) = (is_underscore c && starts_with_underscore s ≡ false) × NoDouble s

module _ (u : Unicode) (good : IsUnicode u) where
  letter_not_underscore :
      (c : Char) → (u.is_letter c || u.is_digit c) ≡ true → is_underscore c ≡ false
  letter_not_underscore c e = elim (Bool-cases (is_underscore c)) [
    | inl under ↦
        let same : c ≡ "_" = Char-path c "_" (ground arith) in
        let f = subst (λ (t : Char). (u.is_letter t || u.is_digit t) ≡ true) same e in
        absurd (ground (arith, good.is_letter-underscore, good.is_digit-underscore))
    | inr other ↦ other
  ]

  -- A step writes nothing and keeps the mark, or writes a character that the mark then tells of, and
  -- no underscore where the mark is set.
  name_step_lem :
      (prev : Bool) (c : Char)
      → (name_step u prev c ≡ (none, prev))
        ⊎ ((x : Char) × (name_step u prev c ≡ (some x, is_underscore x))
            × (prev && is_underscore x ≡ false))
  unfolding name_step
  name_step_lem prev c = elim (Bool-cases (u.is_letter c || u.is_digit c)) [
    | inl letter ↦ inr (c, rw letter refl, rw (letter_not_underscore c letter) (ground arith))
    | inr other ↦ elim (Bool-cases (is_separator c && not prev)) [
      | inl dash ↦ inr ("_", rw (other, dash) refl, ground arith)
      | inr drop ↦ inl (rw (other, drop) refl)
    ]
  ]

  name_loop_step :
      (prev : Bool) (c : Char) (s : String) {r : Option Char × Bool}
      → name_step u prev c ≡ r
      → name_loop u prev (c ∷ s)
        ≡ elim r.0 [ none ↦ name_loop u r.1 s | some x ↦ x ∷ name_loop u r.1 s ]
  unfolding name_loop
  name_loop_step prev c s e =
      ap
        (λ (r : Option Char × Bool). elim r.0 [
          | none ↦ name_loop u r.1 s
          | some x ↦ x ∷ name_loop u r.1 s
        ])
        e

  abbrev After : Bool → String → Type 0
  After prev t = (prev && starts_with_underscore t ≡ false) × NoDouble t

  name_loop_lem : (prev : Bool) (s : String) → After prev (name_loop u prev s)
  unfolding name_loop
  name_loop_lem prev [] = (ground arith, tt)
  name_loop_lem prev (c ∷ s) = elim (name_step_lem prev c) [
    | inl nothing ↦
        subst (After prev) (sym (name_loop_step prev c s nothing)) (name_loop_lem prev s)
    | inr (x, written, apart) ↦
        subst (After prev) (sym (name_loop_step prev c s written))
          (apart, name_loop_lem (is_underscore x) s)
  ]

starts-cons_trimmed :
    (c : Char) (s : String)
    → is_underscore c ≡ false
    → starts_with_underscore (cons_trimmed c s) ≡ false
unfolding cons_trimmed
starts-cons_trimmed c [] e = rw e e
starts-cons_trimmed c (x ∷ s) e = e

starts-trim_right :
    (s : String) → starts_with_underscore s ≡ false → starts_with_underscore (trim_right s) ≡ false
unfolding trim_right
starts-trim_right [] e = refl
starts-trim_right (c ∷ s) e = starts-cons_trimmed c (trim_right s) e

cons_trimmed-NoDouble :
    (c : Char) (s : String)
    → is_underscore c && starts_with_underscore s ≡ false
    → NoDouble s
    → NoDouble (cons_trimmed c s)
unfolding cons_trimmed
cons_trimmed-NoDouble c [] e h = elim (Bool-cases (is_underscore c)) [
  | inl under ↦ rw under tt
  | inr other ↦ rw other (e, tt)
]
cons_trimmed-NoDouble c (x ∷ s) e h = (e, h)

apart_trimmed :
    (c : Char) (s : String)
    → is_underscore c && starts_with_underscore s ≡ false
    → is_underscore c && starts_with_underscore (trim_right s) ≡ false
apart_trimmed c s e = elim (Bool-cases (starts_with_underscore s)) [
  | inl under ↦ ground arith
  | inr other ↦ rw (starts-trim_right s other) (ground arith)
]

trim_right-NoDouble : (s : String) → NoDouble s → NoDouble (trim_right s)
unfolding trim_right
trim_right-NoDouble [] h = tt
trim_right-NoDouble (c ∷ s) (e, h) =
    cons_trimmed-NoDouble c (trim_right s) (apart_trimmed c s e) (trim_right-NoDouble s h)

or_field_lem :
    (s : String)
    → starts_with_underscore s ≡ false
    → EndsClean s
    → NoDouble s
    → (or_field s ≢ [])
      × (starts_with_underscore (or_field s) ≡ false)
      × EndsClean (or_field s)
      × NoDouble (or_field s)
or_field_lem [] e k h = (cc, refl, refl, (refl, (refl, (refl, (refl, (refl, tt))))))
or_field_lem (c ∷ s) e k h = (cc, e, k, h)

module _ (u : Unicode) (good : IsUnicode u) where
  -- Where the underscore is no letter and no digit, the name of a field in the generated table is never
  -- empty, and no underscore of it stands at an end or beside another.
  pub to_go_field_name_lem :
      (s : String)
      → (to_go_field_name u s ≢ [])
        × (starts_with_underscore (to_go_field_name u s) ≡ false)
        × EndsClean (to_go_field_name u s)
        × NoDouble (to_go_field_name u s)
  unfolding to_go_field_name
  to_go_field_name_lem s =
      let looped = name_loop u true (lower u s) in
      let (starts, doubles) = name_loop_lem u good true (lower u s) in
      or_field_lem (trim_right looped) (starts-trim_right looped starts)
        (trim_right-EndsClean looped) (trim_right-NoDouble looped doubles)
