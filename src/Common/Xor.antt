-- ===== src/Common/Xor.antt =====
-- `bit_xor` digit by digit, for words of any width.
use Prim.Native.Nat.{
  ℕ, zero, suc, ◌+◌, ◌-◌, ◌*◌, ◌/◌, ◌%◌, ◌^◌, ◌≤◌, ◌<◌, bit_xor, bit_xor-bitwise, digits, differ,
}
use mathlib.Core.Path.{◌≡◌, refl, sym, ap, ◌∙◌}
use native.Mathlib.Nat.{pow-suc, le_refl}
use native.Mathlib.Omega.{arith}

spent : (fuel b : ℕ) → digits (λ y. y) differ fuel 0 b ≡ b
spent zero b = refl
spent (suc fuel) b = refl

-- Fuel beyond the first word does nothing to the digits of an exclusive or.
surplus :
    (extra fuel a b : ℕ)
    → a ≤ fuel
    → digits (λ y. y) differ (fuel + extra) a b ≡ digits (λ y. y) differ fuel a b
surplus extra fuel zero b h = spent (fuel + extra) b ∙ sym (spent fuel b)
surplus extra zero (suc a) b h = absurd (omega (arith, h))
surplus extra (suc fuel) (suc a) b h =
    let shifted : suc fuel + extra ≡ suc (fuel + extra) = omega arith in
    ap (λ n. digits (λ y. y) differ n (suc a) b) shifted
    ∙ ap (λ t. t * 2 + differ (suc a % 2) (b % 2))
        (surplus extra fuel (suc a / 2) (b / 2) (omega arith))

-- One digit off a word that is not 0.
bit_xor-suc :
    (a b : ℕ) → bit_xor (suc a) b ≡ bit_xor (suc a / 2) (b / 2) * 2 + differ (suc a % 2) (b % 2)
bit_xor-suc a b =
    let left = a - suc a / 2 in
    let fuel : suc a / 2 + left ≡ a = omega arith in
    let halves = surplus left (suc a / 2) (suc a / 2) (b / 2) (le_refl _) in
    simp bit_xor-bitwise
      (omega (arith, ap (λ n. digits (λ y. y) differ n (suc a / 2) (b / 2)) fuel, halves))

differ_bits : (a b : ℕ) → a < 2 → b < 2 → differ a b ≡ (a + b) % 2
differ_bits zero b p q = omega arith
differ_bits (suc zero) zero p q = refl
differ_bits (suc zero) (suc zero) p q = refl
differ_bits (suc zero) (suc (suc b)) p q = absurd (omega arith)
differ_bits (suc (suc a)) b p q = absurd (omega arith)

differ_digit : (a b : ℕ) → differ (a % 2) (b % 2) ≡ (a + b) % 2
differ_digit a b = omega (arith, differ_bits (a % 2) (b % 2) (omega arith) (omega arith))

bit_xor_digits : (a b : ℕ) → bit_xor a b ≡ bit_xor (a / 2) (b / 2) * 2 + differ (a % 2) (b % 2)
bit_xor_digits zero b =
    simp bit_xor-bitwise (omega (arith, differ_bits 0 (b % 2) (omega arith) (omega arith)))
bit_xor_digits (suc a) b = bit_xor-suc a b

-- The lowest bit of an exclusive or, and the rest.
pub bit_xor_step : (a b : ℕ) → bit_xor a b ≡ bit_xor (a / 2) (b / 2) * 2 + (a + b) % 2
bit_xor_step a b = omega (arith, bit_xor_digits a b, differ_digit a b)

pub bit_xor-half : (a b : ℕ) → bit_xor a b / 2 ≡ bit_xor (a / 2) (b / 2)
bit_xor-half a b = omega (arith, bit_xor_step a b)

pub bit_xor-parity : (a b : ℕ) → bit_xor a b % 2 ≡ (a + b) % 2
bit_xor-parity a b = omega (arith, bit_xor_step a b)

-- An exclusive or needs no more bits than its operands.
pub bit_xor-lt : (k a b : ℕ) → a < 2 ^ k → b < 2 ^ k → bit_xor a b < 2 ^ k
bit_xor-lt zero zero zero p q = omega arith
bit_xor-lt zero (suc a) b p q = absurd (omega arith)
bit_xor-lt zero zero (suc b) p q = absurd (omega arith)
bit_xor-lt (suc k) a b p q = omega (
  arith,
  bit_xor_step a b,
  pow-suc 2 k,
  bit_xor-lt k (a / 2) (b / 2) (omega (arith, pow-suc 2 k)) (omega (arith, pow-suc 2 k)),
)

-- Associativity at three words follows from that at their halves.
assoc_step :
    (a b c : ℕ)
    → bit_xor (bit_xor (a / 2) (b / 2)) (c / 2) ≡ bit_xor (a / 2) (bit_xor (b / 2) (c / 2))
    → bit_xor (bit_xor a b) c ≡ bit_xor a (bit_xor b c)
assoc_step a b c rest =
    bit_xor_step (bit_xor a b) c
    ∙ rw (bit_xor-half a b) (omega (arith, digit, rest, bit_xor_step a (bit_xor b c), halves))
  where
    digit : (bit_xor a b + c) % 2 ≡ (a + bit_xor b c) % 2
    digit = omega (arith, bit_xor-parity a b, bit_xor-parity b c)

    halves : bit_xor (a / 2) (bit_xor b c / 2) ≡ bit_xor (a / 2) (bit_xor (b / 2) (c / 2))
    halves = ap (bit_xor (a / 2)) (bit_xor-half b c)

assoc_fuel : (n a b c : ℕ) → a + b + c ≤ n → bit_xor (bit_xor a b) c ≡ bit_xor a (bit_xor b c)
assoc_fuel zero zero zero zero h = refl
assoc_fuel zero zero zero (suc c) h = absurd (omega arith)
assoc_fuel zero zero (suc b) c h = absurd (omega arith)
assoc_fuel zero (suc a) b c h = absurd (omega arith)
assoc_fuel (suc n) zero zero zero h = refl
assoc_fuel (suc n) a b c h = assoc_step a b c (assoc_fuel n (a / 2) (b / 2) (c / 2) (omega arith))

pub bit_xor_assoc : (a b c : ℕ) → bit_xor (bit_xor a b) c ≡ bit_xor a (bit_xor b c)
bit_xor_assoc a b c = assoc_fuel (a + b + c) a b c (omega arith)

comm_fuel : (n a b : ℕ) → a + b ≤ n → bit_xor a b ≡ bit_xor b a
comm_fuel zero zero zero h = refl
comm_fuel zero zero (suc b) h = absurd (omega arith)
comm_fuel zero (suc a) b h = absurd (omega arith)
comm_fuel (suc n) zero zero h = refl
comm_fuel (suc n) a b h =
    omega (arith, bit_xor_step a b, bit_xor_step b a, comm_fuel n (a / 2) (b / 2) (omega arith))

pub bit_xor_comm : (a b : ℕ) → bit_xor a b ≡ bit_xor b a
bit_xor_comm a b = comm_fuel (a + b) a b (omega arith)

pub zero-bit_xor : (a : ℕ) → bit_xor 0 a ≡ a
zero-bit_xor a = bit_xor-bitwise 0 a

pub bit_xor-zero : (a : ℕ) → bit_xor a 0 ≡ a
bit_xor-zero a = bit_xor_comm a 0 ∙ zero-bit_xor a

pub bit_xor_self : (n a : ℕ) → a ≤ n → bit_xor a a ≡ 0
bit_xor_self zero zero h = refl
bit_xor_self zero (suc a) h = absurd (omega arith)
bit_xor_self (suc n) zero h = refl
bit_xor_self (suc n) a h = omega (arith, bit_xor_step a a, bit_xor_self n (a / 2) (omega arith))
