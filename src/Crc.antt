-- ===== src/Crc.antt =====
-- src/transport/internal/common/transport_crc.c: CRC-32/ISO-HDLC by a table of nibbles.
-- A `uint32_t` is a number, `crc >> 4u` is `crc / 16` and `crc & 0x0F` is `crc % 16`.
-- A span of bytes is a list, so the guard against a null span with a length has no case here.
pub mod Chunks
pub mod Bitwise
pub mod Damage
mod Tests
use hil_rig_protocol.Common.{ℕ, ◌/◌, ◌%◌, bit_xor, List, [], ◌∷◌, get_or}

unfoldable pub crc32_nibble_table : List ℕ
crc32_nibble_table =
    0x00000000 ∷ 0x1db71064 ∷ 0x3b6e20c8 ∷ 0x26d930ac ∷ 0x76dc4190 ∷ 0x6b6b51f4 ∷ 0x4db26158
    ∷ 0x5005713c ∷ 0xedb88320 ∷ 0xf00f9344 ∷ 0xd6d6a3e8 ∷ 0xcb61b38c ∷ 0x9b64c2b0 ∷ 0x86d3d2d4
    ∷ 0xa00ae278 ∷ 0xbdbdf21c ∷ []

unfoldable pub crc32_init : ℕ
crc32_init = 0xffff_ffff

-- The statement that the loop body makes twice.
unfoldable pub crc32_nibble : ℕ → ℕ
unfolding crc32_nibble_table
crc32_nibble crc = bit_xor (crc / 16) (get_or crc32_nibble_table (crc % 16) 0)

unfoldable pub crc32_byte : ℕ → ℕ → ℕ
unfolding crc32_nibble
crc32_byte crc byte = crc32_nibble (crc32_nibble (bit_xor crc byte))

unfoldable pub crc32_update : ℕ → List ℕ → ℕ
unfolding crc32_byte
crc32_update crc [] = crc
crc32_update crc (byte ∷ bytes) = crc32_update (crc32_byte crc byte) bytes

unfoldable pub crc32_finish : ℕ → ℕ
crc32_finish crc = bit_xor crc 0xffff_ffff

unfoldable pub crc32_compute : List ℕ → ℕ
unfolding crc32_init crc32_update crc32_finish
crc32_compute bytes = crc32_finish (crc32_update crc32_init bytes)
