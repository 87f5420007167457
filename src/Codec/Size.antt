-- ===== src/Codec/Size.antt =====
-- Encoded sizes stay within their bounds.
use hil_rig_protocol.Common.{
  ◌≢◌, ℕ, ◌+◌, ◌-◌, ◌*◌, ◌/◌, ◌^◌, ◌≤◌, ◌<◌, ◌≡◌, refl, ap, ◌∙◌, arith, List, [], ◌∷◌, length, none,
  some, size_max, ◌!=◌, ◌⊎◌, inl, inr, Bool, true, false,
}
use hil_rig_protocol.Root.{control_output_capacity}
use hil_rig_protocol.Codec.{
  size_step, size_loop, exact_cobs_size, cobs_max_encoded_size, max_encoded_size,
}
use hil_rig_protocol.Codec.{with_delimiter, raw_overhead}

-- One byte costs one, and one more where a full block ends and bytes follow.
size_step-cases :
    (b : ℕ) (more : Bool) (size run : ℕ)
    → size + 2 ≤ size_max
    → run < 254
    → (size_step b more size run ≡ some (size + 1, 0))
      ⊎ ((size_step b more size run ≡ some (size + 2, 0)) × (run ≡ 253) × (more ≡ true))
      ⊎ ((size_step b more size run ≡ some (size + 1, run + 1)) × ((run < 253) ⊎ (more ≡ false)))
unfolding size_step
size_step-cases b more size run h k = ground arith

pub size_loop-cons :
    (b : ℕ) (rest : List ℕ) (size run size' run' : ℕ)
    → size_step b (length rest != 0) size run ≡ some (size', run')
    → size_loop (b ∷ rest) size run ≡ size_loop rest size' run'
unfolding size_loop
size_loop-cons b rest size run size' run' e =
    ap (λ o. elim o [ none ↦ none | some (s, n) ↦ size_loop rest s n ]) e

size_loop-bound :
    (raw : List ℕ) (size run : ℕ)
    → size + 2 * length raw < size_max
    → run ≤ 254
    → (run < 254) ⊎ (length raw ≡ 0)
    → (n : ℕ) × (size_loop raw size run ≡ some n)
      × (n ≤ size + length raw + (run + length raw - 1) / 254)
unfolding size_loop
size_loop-bound [] size run h k l = (size, refl, omega arith)
size_loop-bound (b ∷ rest) size run h k (inr l) = absurd (omega (arith, l))
size_loop-bound (b ∷ rest) size run h k (inl l) =
    elim (size_step-cases b (length rest != 0) size run (omega arith) l) [
      | inl e ↦
          let (n, p, q) =
            size_loop-bound rest (size + 1) 0 (omega arith) (omega arith) (inl (omega arith)) in
          (n, size_loop-cons b rest size run _ _ e ∙ p, omega (arith, q))
      | inr (inl (e, full, more)) ↦
          let (n, p, q) =
            size_loop-bound rest (size + 2) 0 (omega arith) (omega arith) (inl (omega arith)) in
          (n, size_loop-cons b rest size run _ _ e ∙ p, ground (arith, q, full, more))
      | inr (inr (e, less)) ↦
          let (n, p, q) =
            size_loop-bound rest (size + 1) (run + 1) (omega arith) (omega arith)
              (ground (arith, less)) in
          (n, size_loop-cons b rest size run _ _ e ∙ p, omega (arith, q))
    ]

-- The exact size of the encoding of a nonempty span of at most 2 ^ 62 bytes exists, and is within
-- the size that an encoding of as many bytes may have.
pub exact_cobs_size-max :
    (raw : List ℕ)
    → 0 < length raw
    → length raw ≤ 2 ^ 62
    → (n : ℕ) × (m : ℕ) × (exact_cobs_size raw ≡ some n)
      × (cobs_max_encoded_size (length raw) ≡ some m)
      × (n ≤ m)
unfolding exact_cobs_size cobs_max_encoded_size
exact_cobs_size-max raw more fits =
    let (n, p, q) = size_loop-bound raw 1 0 (omega arith) (omega arith) (inl (omega arith)) in
    (n, length raw + (length raw + 253) / 254, ground (arith, p), ground arith, omega (arith, q))

-- The nonempty raw form of a frame whose message is within a limit of 1 to 2 ^ 62 bytes has an
-- exact encoded size, which fits, with the delimiter, the size that the endpoint provides for that
-- limit.
pub exact_cobs_size-max_encoded_size :
    (maximum : ℕ) (raw : List ℕ)
    → 0 < maximum
    → maximum ≤ 2 ^ 62
    → 0 < length raw
    → length raw ≤ maximum + raw_overhead
    → (n : ℕ) × (exact_cobs_size raw ≡ some n) × (n + 1 ≤ max_encoded_size maximum)
unfolding exact_cobs_size cobs_max_encoded_size max_encoded_size with_delimiter
exact_cobs_size-max_encoded_size maximum raw some_limit limit more fits =
    let (n, p, q) = size_loop-bound raw 1 0 (omega arith) (omega arith) (inl (omega arith)) in
    (n, ground (arith, p), ground (arith, q))

-- The 18 raw bytes of a frame without a payload have an exact encoded size, which fits, with the
-- delimiter, the 20 bytes of the control slot.
pub exact_cobs_size-control :
    (raw : List ℕ)
    → length raw ≡ raw_overhead
    → (n : ℕ) × (exact_cobs_size raw ≡ some n) × (n + 1 ≤ control_output_capacity)
unfolding exact_cobs_size
exact_cobs_size-control raw e =
    let (n, p, q) = size_loop-bound raw 1 0 (omega (arith, e)) (omega arith) (inl (omega arith)) in
    (n, ground (arith, p, e), omega (arith, q, e))

-- A limit that has a size of encodings leaves room for the raw form and the delimiter.
pub max_encoded_size-room :
    (maximum : ℕ)
    → max_encoded_size maximum ≢ 0
    → maximum + raw_overhead + 2 ≤ max_encoded_size maximum
unfolding cobs_max_encoded_size max_encoded_size with_delimiter
max_encoded_size-room maximum h = ground (arith, h)
