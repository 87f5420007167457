-- ===== src/Crc/Tests.antt =====
-- Concrete runs.
use hil_rig_protocol.Common.{◌≢◌, arith, ℕ, ◌≡◌, refl, List, [], ◌∷◌}
use hil_rig_protocol.Crc.{crc32_compute}
use hil_rig_protocol.Crc.Damage.{crc32_compute-set}
use hil_rig_protocol.Crc.Bitwise.{compute_bits, crc32_compute-compute_bits}

-- "123456789", the check string of the CRC catalogues.
abbrev check_string : List ℕ
check_string = 0x31 ∷ 0x32 ∷ 0x33 ∷ 0x34 ∷ 0x35 ∷ 0x36 ∷ 0x37 ∷ 0x38 ∷ 0x39 ∷ []

check_value : crc32_compute check_string ≡ 0xcbf4_3926
unfolding crc32_compute
check_value = refl

crc32_compute-compute_bits_example : crc32_compute check_string ≡ compute_bits check_string
crc32_compute-compute_bits_example = crc32_compute-compute_bits check_string

crc32_compute-set_example : crc32_compute (1 ∷ 254 ∷ 7 ∷ []) ≢ crc32_compute (1 ∷ 255 ∷ 7 ∷ [])
crc32_compute-set_example =
    crc32_compute-set (1 ∷ 255 ∷ 7 ∷ []) 1 254 (omega arith, (omega arith, (omega arith, tt)))
      (omega arith) (omega arith) (λ e. ground (arith, e))
