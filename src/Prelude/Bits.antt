-- ===== src/Prelude/Bits.antt =====
-- Bit operations at variables: single bits of a byte by table, disjoint fields of a word by digits.
use Prim.Native.Nat.{ℕ, zero, suc, ◌+◌, ◌*◌, ◌/◌, ◌%◌, ◌^◌, ◌≤◌, ◌<◌, max, digits}
use Prim.Native.Nat.{bit_and, bit_or, bit_or-bitwise}
use mathlib.Core.Path.{◌≡◌, refl, ap, sym, ◌∙◌}
use mathlib.Core.Bool.{Bool, true, ◌&&◌}
use native.Mathlib.Nat.{le_refl, pow-suc}
use native.Mathlib.Omega.{arith}
use vbus2mqtt.Prelude.Tests.{◌==◌}

module _ (f g : ℕ → ℕ) where
  unfoldable pub agree_below : ℕ → Bool
  agree_below zero = true
  agree_below (suc n) = f n == g n && agree_below n

  pub agree_below→eq : (n : ℕ) → agree_below n ≡ true → (i : ℕ) → i < n → f i ≡ g i
  unfolding agree_below
  agree_below→eq zero e i h = absurd (omega arith)
  agree_below→eq (suc n) e i h = ground (arith, agree_below→eq n (ground arith) i)

pub bit_and-127 : (b : ℕ) → b < 256 → bit_and b 127 ≡ b % 128
unfolding agree_below
bit_and-127 = agree_below→eq _ _ 256 refl

pub bit_and-128 : (b : ℕ) → b < 256 → bit_and b 128 ≡ b / 128 * 128
unfolding agree_below
bit_and-128 = agree_below→eq _ _ 256 refl

pub bit_or-128 : (b : ℕ) → b < 256 → bit_or b 128 ≡ b % 128 + 128
unfolding agree_below
bit_or-128 = agree_below→eq _ _ 256 refl

-- The test of one of the four low bits of a byte.
pub bit_and-bit_0 : (b : ℕ) → b < 256 → bit_and b 1 ≡ b % 2
unfolding agree_below
bit_and-bit_0 = agree_below→eq _ _ 256 refl

pub bit_and-bit_1 : (b : ℕ) → b < 256 → bit_and b 2 ≡ b / 2 % 2 * 2
unfolding agree_below
bit_and-bit_1 = agree_below→eq _ _ 256 refl

pub bit_and-bit_2 : (b : ℕ) → b < 256 → bit_and b 4 ≡ b / 4 % 2 * 4
unfolding agree_below
bit_and-bit_2 = agree_below→eq _ _ 256 refl

pub bit_and-bit_3 : (b : ℕ) → b < 256 → bit_and b 8 ≡ b / 8 % 2 * 8
unfolding agree_below
bit_and-bit_3 = agree_below→eq _ _ 256 refl

-- The lowest digit of `bit_or`, from the digit recursion that it stands for.
abbrev or_digits : ℕ → ℕ → ℕ → ℕ
or_digits n a b = digits (λ y. y) max n a b

or_digits-zero : (n b : ℕ) → or_digits n 0 b ≡ b
or_digits-zero zero b = refl
or_digits-zero (suc n) b = refl

-- More fuel than the number has digits gives no other result.
or_digits_surplus :
    (least fuel x y : ℕ) → x ≤ least → least ≤ fuel → or_digits fuel x y ≡ or_digits least x y
or_digits_surplus least fuel zero y h k = or_digits-zero fuel y ∙ sym (or_digits-zero least y)
or_digits_surplus zero fuel (suc x) y h k = absurd (omega arith)
or_digits_surplus (suc least) zero (suc x) y h k = absurd (omega arith)
or_digits_surplus (suc least) (suc fuel) (suc x) y h k =
    ap (λ (t : ℕ). t * 2 + max (suc x % 2) (y % 2))
      (or_digits_surplus least fuel (suc x / 2) (y / 2) (omega arith) (omega arith))

bit_or-digit : (y x : ℕ) → bit_or (x / 2) (y / 2) * 2 + max (x % 2) (y % 2) ≡ bit_or x y
bit_or-digit y (suc x) =
    simp bit_or-bitwise
      (omega (arith, or_digits_surplus (suc x / 2) x (suc x / 2) (y / 2) (le_refl _) (omega arith)))
bit_or-digit y zero = simp bit_or-bitwise (omega arith)

bit_or-zero_fuel : (n a : ℕ) → a ≤ n → bit_or a 0 ≡ a
bit_or-zero_fuel n zero h = refl
bit_or-zero_fuel zero (suc a) h = absurd (omega arith)
bit_or-zero_fuel (suc n) (suc a) h =
    omega (arith, bit_or-digit 0 (suc a), bit_or-zero_fuel n (suc a / 2) (omega arith))

bit_or-double : (x b : ℕ) → bit_or (x * 2) b ≡ bit_or x (b / 2) * 2 + b % 2
bit_or-double x b =
    omega (arith, bit_or-digit b (x * 2), ap (λ (y : ℕ). bit_or y (b / 2)) (halves x))
  where
    halves : (y : ℕ) → y * 2 / 2 ≡ y
    halves y = omega arith

-- `|` of a word that is shifted by `k` and one that fits in `k` bits is their sum.
pub bit_or-shifted : (k a b : ℕ) → b < 2 ^ k → bit_or (a * 2 ^ k) b ≡ a * 2 ^ k + b
bit_or-shifted zero a zero h = omega (arith, bit_or-zero_fuel (a * 1) (a * 1) (le_refl _))
bit_or-shifted zero a (suc b) h = absurd (omega arith)
bit_or-shifted (suc k) a b h = rw (doubled a) (
    omega (
      arith,
      doubled 1,
      bit_or-double (a * 2 ^ k) b,
      bit_or-shifted k a (b / 2) (omega (arith, doubled 1)),
    ))
  where
    doubled : (x : ℕ) → x * 2 ^ suc k ≡ x * 2 ^ k * 2
    doubled x = simp pow-suc (omega arith)
