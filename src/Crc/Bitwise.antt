-- ===== src/Crc/Bitwise.antt =====
-- The reflected polynomial division that CRC-32/ISO-HDLC is, one bit at a time, as
-- transport_crc.h describes it: polynomial 0xEDB88320, initial value and final exclusive or
-- 0xFFFFFFFF. The table-driven code is compared with it.
use hil_rig_protocol.Common.{ℕ, zero, suc, ◌+◌, ◌*◌, ◌/◌, ◌%◌, ◌<◌, ◌≡◌, refl, sym, ap, ◌∙◌, arith}
use hil_rig_protocol.Common.{bit_xor, List, [], ◌∷◌, get_or, true, ◌==◌, if◌then◌else◌, ==-true}
use hil_rig_protocol.Common.{all_below, all_below→true, ap₂}
use hil_rig_protocol.Common.Xor.{bit_xor_step, bit_xor-half, bit_xor-parity, bit_xor_assoc}
use hil_rig_protocol.Common.Xor.{bit_xor_comm, bit_xor-zero}
use hil_rig_protocol.Crc.{crc32_nibble_table, crc32_init, crc32_nibble, crc32_byte, crc32_update}
use hil_rig_protocol.Crc.{crc32_finish, crc32_compute}

abbrev pub polynomial : ℕ
polynomial = 0xedb88320

unfoldable pub feedback : ℕ → ℕ
feedback crc = if crc % 2 == 1 then polynomial else 0

-- One bit of the division.
unfoldable pub crc_bit : ℕ → ℕ
unfolding feedback
crc_bit crc = bit_xor (crc / 2) (feedback crc)

unfoldable pub crc_bits : ℕ → ℕ → ℕ
unfolding crc_bit
crc_bits zero crc = crc
crc_bits (suc n) crc = crc_bits n (crc_bit crc)

unfoldable pub update_bits : ℕ → List ℕ → ℕ
unfolding crc_bits
update_bits crc [] = crc
update_bits crc (byte ∷ bytes) = update_bits (crc_bits 8 (bit_xor crc byte)) bytes

-- The check value of a span by the division.
unfoldable pub compute_bits : List ℕ → ℕ
unfolding update_bits
compute_bits bytes = bit_xor (update_bits 0xffff_ffff bytes) 0xffff_ffff

feedback-bit_xor : (a b : ℕ) → feedback (bit_xor a b) ≡ bit_xor (feedback a) (feedback b)
unfolding feedback
feedback-bit_xor a b = ground (arith, bit_xor-parity a b, bit_xor-zero polynomial)

xor_swap : (a b c d : ℕ) → bit_xor (bit_xor a b) (bit_xor c d) ≡ bit_xor (bit_xor a c) (bit_xor b d)
xor_swap a b c d =
    bit_xor_assoc a b (bit_xor c d)
    ∙ ap (bit_xor a)
        (sym (bit_xor_assoc b c d) ∙ ap (λ t. bit_xor t d) (bit_xor_comm b c) ∙ bit_xor_assoc c b d)
    ∙ sym (bit_xor_assoc a c (bit_xor b d))

-- The division is linear.
pub crc_bit-bit_xor : (a b : ℕ) → crc_bit (bit_xor a b) ≡ bit_xor (crc_bit a) (crc_bit b)
unfolding crc_bit
crc_bit-bit_xor a b =
    ap₂ bit_xor (bit_xor-half a b) (feedback-bit_xor a b)
    ∙ xor_swap (a / 2) (b / 2) (feedback a) (feedback b)

pub crc_bits-bit_xor :
    (n a b : ℕ) → crc_bits n (bit_xor a b) ≡ bit_xor (crc_bits n a) (crc_bits n b)
unfolding crc_bits
crc_bits-bit_xor zero a b = refl
crc_bits-bit_xor (suc n) a b =
    ap (crc_bits n) (crc_bit-bit_xor a b) ∙ crc_bits-bit_xor n (crc_bit a) (crc_bit b)

crc_bit-even : (h : ℕ) → crc_bit (2 * h) ≡ h
unfolding crc_bit feedback
crc_bit-even h = ground (arith, bit_xor-zero (2 * h / 2))

crc_bits-shift : (h : ℕ) → crc_bits 4 (2 * (2 * (2 * (2 * h)))) ≡ h
unfolding crc_bits
crc_bits-shift h = rw (crc_bit-even, crc_bit-even, crc_bit-even, crc_bit-even)

join_bit : (h l : ℕ) → bit_xor (2 * h) l ≡ bit_xor h (l / 2) * 2 + l % 2
join_bit h l = omega (arith, bit_xor_step (2 * h) l, ap (λ (t : ℕ). bit_xor t (l / 2)) half)
  where
    half : 2 * h / 2 ≡ h
    half = omega arith

-- A nibble is the exclusive or of its place and its value.
join_nibble : (h l : ℕ) → l < 16 → bit_xor (2 * (2 * (2 * (2 * h)))) l ≡ 16 * h + l
join_nibble h l p = omega (
  arith,
  join_bit (2 * (2 * (2 * h))) l,
  join_bit (2 * (2 * h)) (l / 2),
  join_bit (2 * h) (l / 2 / 2),
  join_bit h (l / 2 / 2 / 2),
  ap (λ (t : ℕ). bit_xor h t) top,
  bit_xor-zero h,
)
  where
    top : l / 2 / 2 / 2 / 2 ≡ 0
    top = omega arith

table_agrees : all_below 16 (λ l. crc_bits 4 l == get_or crc32_nibble_table l 0) ≡ true
unfolding all_below crc_bits crc32_nibble_table
table_agrees = refl

table-crc_bits : (l : ℕ) → l < 16 → crc_bits 4 l ≡ get_or crc32_nibble_table l 0
table-crc_bits l h = ==-true _ _ (all_below→true 16 _ l table_agrees h)

crc32_nibble-crc_bits : (crc : ℕ) → crc32_nibble crc ≡ crc_bits 4 crc
unfolding crc32_nibble
crc32_nibble-crc_bits crc = sym (
    ap (crc_bits 4) (split ∙ sym (join_nibble (crc / 16) (crc % 16) (omega arith)))
    ∙ crc_bits-bit_xor 4 (2 * (2 * (2 * (2 * (crc / 16))))) (crc % 16)
    ∙ ap₂ bit_xor (crc_bits-shift (crc / 16)) (table-crc_bits (crc % 16) (omega arith)))
  where
    split : crc ≡ 16 * (crc / 16) + crc % 16
    split = omega arith

crc32_byte-crc_bits : (crc byte : ℕ) → crc32_byte crc byte ≡ crc_bits 8 (bit_xor crc byte)
unfolding crc32_byte
crc32_byte-crc_bits crc byte =
    crc32_nibble-crc_bits (crc32_nibble (bit_xor crc byte))
    ∙ ap (crc_bits 4) (crc32_nibble-crc_bits (bit_xor crc byte))
    ∙ unfold crc_bits in refl

crc32_update-update_bits :
    (crc : ℕ) (bytes : List ℕ) → crc32_update crc bytes ≡ update_bits crc bytes
unfolding crc32_update update_bits
crc32_update-update_bits crc [] = refl
crc32_update-update_bits crc (b ∷ bytes) =
    ap (λ c. crc32_update c bytes) (crc32_byte-crc_bits crc b)
    ∙ crc32_update-update_bits (crc_bits 8 (bit_xor crc b)) bytes

-- The table-driven check value is that of the division by the polynomial, bit by bit, for every
-- span of bytes.
pub crc32_compute-compute_bits : (bytes : List ℕ) → crc32_compute bytes ≡ compute_bits bytes
unfolding crc32_compute compute_bits crc32_finish crc32_init
crc32_compute-compute_bits bytes =
    ap (λ c. bit_xor c 0xffff_ffff) (crc32_update-update_bits 0xffff_ffff bytes)
