-- ===== src/Vbus/Checksum.antt =====
-- `checksum` of internal/vbus/parser.go.
use vbus2mqtt.Prelude.{ℕ, ◌+◌, ◌-◌, ◌%◌, ◌<◌, ◌≡◌, ◌↔◌, [], ◌∷◌, arith, bit_and}
use vbus2mqtt.Prelude.Bits.{bit_and-127}
use vbus2mqtt.Vbus.Frame.{Bytes}

-- `var sum byte; for _, b := range data { sum += b }`: the sum wraps at 256.
sum_bytes : ℕ → Bytes → ℕ
sum_bytes acc [] = acc
sum_bytes acc (b ∷ bs) = sum_bytes ((acc + b) % 256) bs

-- `(0x7F - sum) & 0x7F`, the difference taken in a byte.
unfoldable pub checksum : Bytes → ℕ
unfolding sum_bytes
checksum bytes = bit_and ((0x7f + 256 - sum_bytes 0 bytes) % 256) 0x7f

-- The sum that the code keeps in a byte, without the wrap.
abbrev pub total : Bytes → ℕ
total [] = 0
total (b ∷ bs) = b + total bs

sum_bytes-total : (acc : ℕ) (bs : Bytes) → acc < 256 → sum_bytes acc bs ≡ (acc + total bs) % 256
unfolding sum_bytes
sum_bytes-total acc [] h = omega arith
sum_bytes-total acc (b ∷ bs) h = omega (arith, sum_bytes-total ((acc + b) % 256) bs (omega arith))

checksum-total : (bs : Bytes) → checksum bs ≡ (383 - total bs % 256) % 128
unfolding checksum
checksum-total bs = omega (
  arith,
  bit_and-127 ((383 - sum_bytes 0 bs) % 256) (omega arith),
  sum_bytes-total 0 bs (omega arith),
)

-- The checksum of a list of bytes is the one number below 0x80 that brings their sum to 0x7f,
-- modulo 0x80.
pub checksum_lem :
    (bs : Bytes) (c : ℕ) → (c ≡ checksum bs) ↔ ((c < 128) × ((total bs + c) % 128 ≡ 127))
checksum_lem bs c = (λ e. omega (arith, checksum-total bs), λ h. omega (arith, checksum-total bs))

pub checksum-lt : (bs : Bytes) → checksum bs < 128
checksum-lt bs = omega (arith, checksum-total bs)
