-- ===== src/Crc/Damage.antt =====
-- What the check value of src/transport/internal/common/transport_crc.c detects.
use hil_rig_protocol.Common.{
  ℕ, zero, suc, ◌/◌, ◌%◌, ◌^◌, ◌<◌, ◌≡◌, ◌≢◌, sym, ap, ◌∙◌, arith, bit_xor, List, [], ◌∷◌, length,
  set, get_or, All, ◌⊎◌, inl, inr,
}
use hil_rig_protocol.Common.Xor.{
  bit_xor-lt, bit_xor_assoc, bit_xor-zero, zero-bit_xor, bit_xor_self, bit_xor_comm,
}
use hil_rig_protocol.Crc.{crc32_compute}
use hil_rig_protocol.Crc.Bitwise.{
  polynomial, feedback, crc_bit, crc_bits, update_bits, compute_bits, crc_bit-bit_xor,
  crc32_compute-compute_bits,
}

bit_xor_cancel : (s a : ℕ) → bit_xor s (bit_xor s a) ≡ a
bit_xor_cancel s a =
    sym (bit_xor_assoc s s a)
    ∙ ap (λ t. bit_xor t a) (bit_xor_self s s (omega arith))
    ∙ zero-bit_xor a

bit_xor-injective : (s : ℕ) {a b : ℕ} → bit_xor s a ≡ bit_xor s b → a ≡ b
bit_xor-injective s {a} {b} e = sym (bit_xor_cancel s a) ∙ ap (bit_xor s) e ∙ bit_xor_cancel s b

bit_xor_apart : {a b : ℕ} → bit_xor a b ≡ 0 → a ≡ b
bit_xor_apart {a} {b} e = sym (bit_xor-zero a) ∙ sym (ap (bit_xor a) e) ∙ bit_xor_cancel a b

-- A step of the division is zero on zero alone, since the polynomial has its highest bit.
crc_bit-zero : (d : ℕ) → d < 2 ^ 32 → crc_bit d ≡ 0 → d ≡ 0
unfolding crc_bit feedback
crc_bit-zero d h e =
    let split : (d % 2 ≡ 1) ⊎ (d % 2 ≡ 0) = omega arith in
    elim split [
      | inl odd ↦
          let same : d / 2 ≡ polynomial = bit_xor_apart (ground (arith, e, odd)) in
          absurd (omega (arith, same, h))
      | inr even ↦
          let same : d / 2 ≡ 0 = bit_xor_apart (ground (arith, e, even)) in
          omega (arith, same, even)
    ]

crc_bit-lt : (x : ℕ) → x < 2 ^ 32 → crc_bit x < 2 ^ 32
unfolding crc_bit feedback
crc_bit-lt x h = bit_xor-lt 32 (x / 2) (feedback x) (omega (arith, h)) (ground arith)

crc_bit-injective : (x y : ℕ) → x < 2 ^ 32 → y < 2 ^ 32 → crc_bit x ≡ crc_bit y → x ≡ y
crc_bit-injective x y h k e =
    let apart =
      crc_bit-bit_xor x y
      ∙ ap (λ t. bit_xor t (crc_bit y)) e
      ∙ bit_xor_self (crc_bit y) (crc_bit y) (omega arith) in
    bit_xor_apart (crc_bit-zero (bit_xor x y) (bit_xor-lt 32 x y h k) apart)

crc_bits-lt : (n x : ℕ) → x < 2 ^ 32 → crc_bits n x < 2 ^ 32
unfolding crc_bits
crc_bits-lt zero x h = h
crc_bits-lt (suc n) x h = crc_bits-lt n (crc_bit x) (crc_bit-lt x h)

crc_bits-injective : (n x y : ℕ) → x < 2 ^ 32 → y < 2 ^ 32 → crc_bits n x ≡ crc_bits n y → x ≡ y
unfolding crc_bits
crc_bits-injective zero x y h k e = e
crc_bits-injective (suc n) x y h k e =
    crc_bit-injective x y h k
      (crc_bits-injective n (crc_bit x) (crc_bit y) (crc_bit-lt x h) (crc_bit-lt y k) e)

step-lt : (crc byte : ℕ) → crc < 2 ^ 32 → byte < 256 → bit_xor crc byte < 2 ^ 32
step-lt crc byte h k = bit_xor-lt 32 crc byte h (omega (arith, k))

update_bits-injective :
    (bytes : List ℕ) (x y : ℕ)
    → All (λ b. b < 256) bytes
    → x < 2 ^ 32
    → y < 2 ^ 32
    → update_bits x bytes ≡ update_bits y bytes
    → x ≡ y
unfolding update_bits
update_bits-injective [] x y bounded h k e = e
update_bits-injective (b ∷ bytes) x y (low, bounded) h k e =
    let after =
      update_bits-injective bytes _ _ bounded (crc_bits-lt 8 _ (step-lt x b h low))
        (crc_bits-lt 8 _ (step-lt y b k low)) e in
    let same = crc_bits-injective 8 _ _ (step-lt x b h low) (step-lt y b k low) after in
    bit_xor-injective b (bit_xor_comm b x ∙ same ∙ bit_xor_comm y b)

-- A span with one byte replaced has the same check value for the same byte alone.
update_bits-set :
    (bytes : List ℕ) (i crc byte : ℕ)
    → All (λ b. b < 256) bytes
    → byte < 256
    → crc < 2 ^ 32
    → i < length bytes
    → update_bits crc (set bytes i byte) ≡ update_bits crc bytes
    → byte ≡ get_or bytes i 0
unfolding update_bits
update_bits-set [] i crc byte bounded low h k e = absurd (omega arith)
update_bits-set (b ∷ bytes) zero crc byte (one, bounded) low h k e =
    let after =
      update_bits-injective bytes _ _ bounded (crc_bits-lt 8 _ (step-lt crc byte h low))
        (crc_bits-lt 8 _ (step-lt crc b h one)) e in
    bit_xor-injective crc
      (crc_bits-injective 8 _ _ (step-lt crc byte h low) (step-lt crc b h one) after)
update_bits-set (b ∷ bytes) (suc i) crc byte (one, bounded) low h k e =
    update_bits-set bytes i (crc_bits 8 (bit_xor crc b)) byte bounded low
      (crc_bits-lt 8 _ (step-lt crc b h one)) (omega arith) e

-- The check value of a span of bytes changes whenever one byte of it is replaced by another one.
pub crc32_compute-set :
    (bytes : List ℕ) (i byte : ℕ)
    → All (λ b. b < 256) bytes
    → byte < 256
    → i < length bytes
    → byte ≢ get_or bytes i 0
    → crc32_compute (set bytes i byte) ≢ crc32_compute bytes
unfolding compute_bits
crc32_compute-set bytes i byte bounded low h other e =
    let same =
      sym (crc32_compute-compute_bits (set bytes i byte)) ∙ e ∙ crc32_compute-compute_bits bytes in
    let swapped =
      bit_xor_comm 0xffff_ffff (update_bits 0xffff_ffff (set bytes i byte))
      ∙ same
      ∙ bit_xor_comm (update_bits 0xffff_ffff bytes) 0xffff_ffff in
    other (
      update_bits-set bytes i 0xffff_ffff byte bounded low (omega arith) h
        (bit_xor-injective 0xffff_ffff swapped))
