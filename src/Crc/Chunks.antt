-- ===== src/Crc/Chunks.antt =====
-- The accumulator over spans that arrive one after another, and its width.
use hil_rig_protocol.Common.{ℕ, ◌/◌, ◌%◌, ◌^◌, ◌<◌, ◌≡◌, refl, arith}
use hil_rig_protocol.Common.{List, [], ◌∷◌, ◌++◌, get_or, get_or-All, All}
use hil_rig_protocol.Common.Xor.{bit_xor-lt}
use hil_rig_protocol.Crc.{crc32_nibble_table, crc32_init, crc32_nibble, crc32_byte, crc32_update}
use hil_rig_protocol.Crc.{crc32_finish, crc32_compute}

pub crc32_update-append :
    (crc : ℕ) (xs ys : List ℕ) → crc32_update crc (xs ++ ys) ≡ crc32_update (crc32_update crc xs) ys
unfolding crc32_update
crc32_update-append crc [] ys = refl
crc32_update-append crc (x ∷ xs) ys = crc32_update-append (crc32_byte crc x) xs ys

-- A frame's check value may be computed over its header and then its payload: extending the
-- accumulator span by span, then finishing it, gives what one call over both spans gives.
crc32_compute-append :
    (header payload : List ℕ)
    → crc32_finish (crc32_update (crc32_update crc32_init header) payload)
      ≡ crc32_compute (header ++ payload)
unfolding crc32_compute
crc32_compute-append header payload = rw (crc32_update-append crc32_init header payload)

table-lt : (i : ℕ) → get_or crc32_nibble_table i 0 < 2 ^ 32
unfolding crc32_nibble_table
table-lt i = get_or-All (λ t. t < 2 ^ 32) crc32_nibble_table i 0 (omega arith) (omega arith)

crc32_nibble-lt : (crc : ℕ) → crc < 2 ^ 32 → crc32_nibble crc < 2 ^ 32
unfolding crc32_nibble
crc32_nibble-lt crc h =
    bit_xor-lt 32 (crc / 16) (get_or crc32_nibble_table (crc % 16) 0) (omega arith)
      (table-lt (crc % 16))

crc32_byte-lt : (crc byte : ℕ) → crc < 2 ^ 32 → byte < 256 → crc32_byte crc byte < 2 ^ 32
unfolding crc32_byte
crc32_byte-lt crc byte h k =
    crc32_nibble-lt _ (crc32_nibble-lt _ (bit_xor-lt 32 crc byte h (omega arith)))

pub crc32_update-lt :
    (crc : ℕ) (bytes : List ℕ)
    → crc < 2 ^ 32
    → All (λ b. b < 256) bytes
    → crc32_update crc bytes < 2 ^ 32
unfolding crc32_update
crc32_update-lt crc [] h k = h
crc32_update-lt crc (b ∷ bytes) h k =
    crc32_update-lt (crc32_byte crc b) bytes (crc32_byte-lt crc b h k.0) k.1

-- The check value of a span of 8-bit bytes fits a `uint32_t`.
pub crc32_compute-lt : (bytes : List ℕ) → All (λ b. b < 256) bytes → crc32_compute bytes < 2 ^ 32
unfolding crc32_compute
crc32_compute-lt bytes h =
    bit_xor-lt 32 (crc32_update crc32_init bytes) 0xffff_ffff
      (crc32_update-lt crc32_init bytes (unfold crc32_init in omega arith) h) (omega arith)
