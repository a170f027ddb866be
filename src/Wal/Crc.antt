-- ===== src/Wal/Crc.antt =====
-- crates/persistence/src/wal.rs: `compute_crc32`, and the little-endian bytes of a `u32`.
use market_data_v.Common.{
  ℕ, zero, suc, ◌+◌, ◌-◌, ◌*◌, ◌^◌, ◌%◌, ◌/◌, ◌<◌, ◌≡◌, refl, [], ◌∷◌, ◌++◌, Bytes, length, arith,
}

-- The last `w` bits of `a ^ b`.
unfoldable pub xor_bits : ℕ → ℕ → ℕ → ℕ
xor_bits zero a b = 0
xor_bits (suc w) a b = (a + b) % 2 + 2 * xor_bits w (a / 2) (b / 2)

-- The last `w` bits of `a & b`.
unfoldable pub and_bits : ℕ → ℕ → ℕ → ℕ
and_bits zero a b = 0
and_bits (suc w) a b = (a % 2) * (b % 2) + 2 * and_bits w (a / 2) (b / 2)

-- `!a` of a `u32`
abbrev pub not_bits : ℕ → ℕ
not_bits a = 2 ^ 32 - 1 - a

-- One round of the inner loop.
unfoldable pub crc_bit : ℕ → ℕ
crc_bit crc =
    let mask = (not_bits (and_bits 32 crc 1) + 1) % 2 ^ 32 in
    xor_bits 32 (crc / 2) (and_bits 32 3988292384 mask)

abbrev pub rounds : ℕ → ℕ → ℕ
rounds zero crc = crc
rounds (suc n) crc = rounds n (crc_bit crc)

unfoldable pub crc_byte : ℕ → ℕ → ℕ
crc_byte crc byte = rounds 8 (xor_bits 32 crc byte)

unfoldable pub crc_bytes : ℕ → Bytes → ℕ
crc_bytes crc [] = crc
crc_bytes crc (b ∷ bs) = crc_bytes (crc_byte crc b) bs

-- `u32::to_le_bytes`
unfoldable pub to_le_bytes : ℕ → Bytes
to_le_bytes n = n % 256 ∷ n / 256 % 256 ∷ n / 65536 % 256 ∷ n / 16777216 % 256 ∷ []

-- `u32::from_le_bytes` of the first four bytes
unfoldable pub from_le_bytes : Bytes → ℕ
from_le_bytes (a ∷ b ∷ c ∷ d ∷ r) = a + 256 * b + 65536 * c + 16777216 * d
from_le_bytes _ = 0

unfoldable pub compute_crc32 : ℕ → Bytes → ℕ
compute_crc32 len payload = not_bits (crc_bytes 4294967295 (to_le_bytes len ++ payload))

pub compute_crc32-lt : (len : ℕ) (payload : Bytes) → compute_crc32 len payload < 2 ^ 32
unfolding compute_crc32
compute_crc32-lt len payload = omega arith

pub length-to_le_bytes : (n : ℕ) → length (to_le_bytes n) ≡ 4
unfolding to_le_bytes
length-to_le_bytes n = refl

-- Four bytes are enough for a `u32`.
pub from_le_bytes-to_le_bytes :
    (n : ℕ) (r : Bytes) → n < 2 ^ 32 → from_le_bytes (to_le_bytes n ++ r) ≡ n
unfolding from_le_bytes to_le_bytes
from_le_bytes-to_le_bytes n r h = omega arith
