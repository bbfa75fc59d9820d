-- ===== src/Persistence/Checksum.antt =====
-- persistence/include/persistence/checksum.hpp: the portable branch, which the branches for a processor's
-- own instructions compute too.
use Prim.Native.Nat.{bit_xor}
use flux_trade.Prelude.{ℕ, zero, suc, ◌-◌, ◌*◌, ◌/◌, ◌%◌, ◌<◌, List, [], ◌∷◌, ◌≡◌, refl, arith}
use flux_trade.Prelude.Words.{u32_mod}

-- One round of the inner loop; its shift halves and its `& 1` is the remainder by 2.
unfoldable pub crc_bit : ℕ → ℕ
crc_bit crc = bit_xor (crc / 2) (0x82F63B78 * (crc % 2))

unfoldable pub crc_bits : ℕ → ℕ → ℕ
crc_bits zero crc = crc
crc_bits (suc n) crc = crc_bits n (crc_bit crc)

-- The outer loop.
unfoldable pub crc_bytes : List ℕ → ℕ → ℕ
crc_bytes [] crc = crc
crc_bytes (b ∷ bs) crc = crc_bytes bs (crc_bits 8 (bit_xor crc b))

-- `~` of a uint32_t.
abbrev pub complement : ℕ → ℕ
complement crc = u32_mod - 1 - crc

abbrev pub initial_crc : ℕ
initial_crc = 0xFFFFFFFF

unfoldable pub crc32c : List ℕ → ℕ → ℕ
crc32c bytes initial = complement (crc_bytes bytes initial)

-- A checksum is a uint32_t.
pub crc32c_below : (bs : List ℕ) (initial : ℕ) → crc32c bs initial < u32_mod
unfolding crc32c
crc32c_below bs initial = omega arith

-- The check value that CRC-32C is published with, of the text 123456789.
check_value : crc32c (49 ∷ 50 ∷ 51 ∷ 52 ∷ 53 ∷ 54 ∷ 55 ∷ 56 ∷ 57 ∷ []) initial_crc ≡ 0xE3069283
unfolding crc32c crc_bytes crc_bits crc_bit
check_value = refl
