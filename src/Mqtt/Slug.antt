-- ===== src/Mqtt/Slug.antt =====
-- `fieldSlug` of internal/mqtt/client.go. The tables of Unicode are a parameter.
pub mod Laws
use Prim.Native.Char.{Char, code}
use Prim.Native.String.{String, [], ◌∷◌}
use vbus2mqtt.Prelude.{ℕ, ◌≡◌, Bool, true, false, ◌||◌, ◌==◌, if◌then◌else◌}

-- `unicode.ToLower`, `unicode.IsLetter` and `unicode.IsDigit`
pub record Unicode : Type 0 where
  pub to_lower : Char → Char
  pub is_letter : Char → Bool
  pub is_digit : Char → Bool

-- What is known of the tables: lower case is reached in one step, the underscore has no other case
-- and is neither a letter nor a digit.
pub record IsUnicode (u : Unicode) : Type 0 where
  pub to_lower_idem : (c : Char) → u.to_lower (u.to_lower c) ≡ u.to_lower c
  pub to_lower-underscore : u.to_lower "_" ≡ "_"
  pub is_letter-underscore : u.is_letter "_" ≡ false
  pub is_digit-underscore : u.is_digit "_" ≡ false

abbrev pub is_underscore : Char → Bool
is_underscore c = code c == b'_'

-- `strings.TrimLeft(s, "_")`
unfoldable pub trim_left : String → String
trim_left [] = []
trim_left (c ∷ s) = if is_underscore c then trim_left s else c ∷ s

-- One character in front of a text whose underscores at the end are gone.
unfoldable pub cons_trimmed : Char → String → String
cons_trimmed c [] = if is_underscore c then [] else c ∷ []
cons_trimmed c (x ∷ s) = c ∷ x ∷ s

-- `strings.TrimRight(s, "_")`
unfoldable pub trim_right : String → String
trim_right [] = []
trim_right (c ∷ s) = cons_trimmed c (trim_right s)

module _ (u : Unicode) where
  -- `strings.ToLower`
  unfoldable pub lower : String → String
  lower [] = []
  lower (c ∷ s) = u.to_lower c ∷ lower s

  -- The loop of `fieldSlug`.
  unfoldable pub slug_loop : String → String
  slug_loop [] = []
  slug_loop (c ∷ s) = (if u.is_letter c || u.is_digit c then c else "_") ∷ slug_loop s

  -- `fieldSlug`
  unfoldable pub field_slug : String → String
  field_slug name = trim_right (trim_left (slug_loop (lower name)))
