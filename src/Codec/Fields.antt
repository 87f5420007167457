-- ===== src/Codec/Fields.antt =====
-- Fields are read as they were written.
use hil_rig_protocol.Common.{ℕ, ◌^◌, ◌<◌, ◌≡◌, arith}
use hil_rig_protocol.Codec.{write_u16_le, write_u32_le, write_u64_le, write_bytes}
use hil_rig_protocol.Codec.{read_u16_le, read_u32_le, read_u64_le, read_bytes}

pub read_u16_le-write_u16_le : (v : ℕ) → v < 2 ^ 16 → read_u16_le (write_u16_le v) ≡ v
unfolding read_u16_le write_u16_le
read_u16_le-write_u16_le v h = omega arith

pub read_u32_le-write_u32_le : (v : ℕ) → v < 2 ^ 32 → read_u32_le (write_u32_le v) ≡ v
unfolding read_u32_le write_u32_le
read_u32_le-write_u32_le v h = omega arith

-- A 64-bit value that is written as a field is read back as it was.
pub read_u64_le-write_u64_le : (v : ℕ) → v < 2 ^ 64 → read_u64_le (write_u64_le v) ≡ v
unfolding read_u64_le write_u64_le read_bytes write_bytes
read_u64_le-write_u64_le v h = omega arith
