-- ===== src/Codec/Blocks.antt =====
-- The format of COBS, apart from the code: what the sizes of
-- src/transport/internal/mvp/transport_frame_codec_mvp.c are about.
use hil_rig_protocol.Common.{
  ◌*◌, ℕ, suc, ◌+◌, ◌≤◌, ◌<◌, ◌≡◌, ◌≢◌, ap, ◌∙◌, arith, List, [], ◌∷◌, ◌++◌, length, All, some,
  length-append, size_max, ◌!=◌, ap₂, Bool, true, false, ◌⊎◌, inl,
}
use hil_rig_protocol.Codec.{size_step, size_loop, exact_cobs_size}
use hil_rig_protocol.Codec.Size.{size_loop-cons}

-- The encoding of a span is a sequence of blocks: a code byte, which is one more than the number of
-- nonzero bytes behind it. A block of fewer than 254 bytes stands for them and a zero, where another
-- block follows; a block of 254 bytes stands for them alone, and the span goes on behind it.
pub data Blocks : List ℕ → List ℕ → Type 0 where
  last :
      (bytes : List ℕ)
      → All (λ b. b ≢ 0) bytes
      → length bytes ≤ 254
      → Blocks bytes (suc (length bytes) ∷ bytes)
  zero_after :
      (bytes : List ℕ) {raw wire : List ℕ}
      → All (λ b. b ≢ 0) bytes
      → length bytes < 254
      → Blocks raw wire
      → Blocks (bytes ++ (0 ∷ raw)) (suc (length bytes) ∷ (bytes ++ wire))
  full :
      (bytes : List ℕ) {raw wire : List ℕ}
      → All (λ b. b ≢ 0) bytes
      → length bytes ≡ 254
      → 0 < length raw
      → Blocks raw wire
      → Blocks (bytes ++ raw) (255 ∷ (bytes ++ wire))

size_step-run :
    (b : ℕ) (more : Bool) (size run : ℕ)
    → b ≢ 0
    → (run + 1 < 254) ⊎ ((run + 1 ≡ 254) × (more ≡ false))
    → size < size_max
    → size_step b more size run ≡ some (size + 1, run + 1)
unfolding size_step
size_step-run b more size run one h k = ground arith

size_step-zero :
    (more : Bool) (size run : ℕ) → size < size_max → size_step 0 more size run ≡ some (size + 1, 0)
unfolding size_step
size_step-zero more size run k = ground arith

size_step-full :
    (b size : ℕ) → b ≢ 0 → size + 1 < size_max → size_step b true size 253 ≡ some (size + 2, 0)
unfolding size_step
size_step-full b size one k = ground arith

-- A run that ends no block.
size_loop-run :
    (bytes rest : List ℕ) (size run : ℕ)
    → All (λ b. b ≢ 0) bytes
    → run + length bytes < 254
    → size + length bytes ≤ size_max
    → size_loop (bytes ++ rest) size run ≡ size_loop rest (size + length bytes) (run + length bytes)
size_loop-run [] rest size run nonzero h k = ap₂ (size_loop rest) (omega arith) (omega arith)
size_loop-run (b ∷ bytes) rest size run (one, nonzero) h k =
    size_loop-cons b (bytes ++ rest) size run _ _
      (size_step-run b (length (bytes ++ rest) != 0) size run one (inl (omega arith)) (omega arith))
    ∙ size_loop-run bytes rest (size + 1) (run + 1) nonzero (omega arith) (omega arith)
    ∙ ap₂ (size_loop rest) (omega arith) (omega arith)

size_loop-last :
    (bytes : List ℕ) (size run : ℕ)
    → All (λ b. b ≢ 0) bytes
    → run + length bytes ≤ 254
    → size + length bytes ≤ size_max
    → size_loop bytes size run ≡ some (size + length bytes)
unfolding size_loop
size_loop-last [] size run nonzero h k = ap some (omega arith)
size_loop-last (b ∷ bytes) size run (one, nonzero) h k =
    size_loop-cons b bytes size run _ _
      (size_step-run b (length bytes != 0) size run one (ground arith) (omega arith))
    ∙ size_loop-last bytes (size + 1) (run + 1) nonzero (omega arith) (omega arith)
    ∙ ap some (omega arith)

size_loop-full :
    (bytes rest : List ℕ) (size run : ℕ)
    → All (λ b. b ≢ 0) bytes
    → 0 < length bytes
    → run + length bytes ≡ 254
    → 0 < length rest
    → size + length bytes < size_max
    → size_loop (bytes ++ rest) size run ≡ size_loop rest (size + length bytes + 1) 0
size_loop-full [] rest size run nonzero some_byte h more k = absurd (omega arith)
size_loop-full (b ∷ []) rest size run (one, nonzero) some_byte h more k =
    let at : run ≡ 253 = omega (arith, h) in
    let follows : (length rest != 0) ≡ true = ground arith in
    let step : size_step b (length rest != 0) size run ≡ some (size + 2, 0) =
      rw (at, follows) (size_step-full b size one (omega arith)) in
    size_loop-cons b rest size run _ _ step ∙ ap (λ n. size_loop rest n 0) (omega arith)
size_loop-full (b ∷ c ∷ bytes) rest size run (one, nonzero) some_byte h more k =
    size_loop-cons b (c ∷ (bytes ++ rest)) size run _ _ (
      size_step-run b (length (c ∷ (bytes ++ rest)) != 0) size run one (inl (omega arith))
        (omega arith))
    ∙ size_loop-full (c ∷ bytes) rest (size + 1) (run + 1) nonzero (omega arith) (omega arith) more
        (omega arith)
    ∙ ap (λ n. size_loop rest n 0) (omega arith)

pub nonempty-Blocks : {raw wire : List ℕ} → Blocks raw wire → 0 < length wire
nonempty-Blocks (last bytes nonzero h) = omega arith
nonempty-Blocks (zero_after bytes nonzero h rest) = omega arith
nonempty-Blocks (full bytes nonzero h more rest) = omega arith

size_loop-Blocks :
    {raw wire : List ℕ} (size : ℕ)
    → Blocks raw wire
    → size + length wire ≤ size_max
    → size_loop raw (size + 1) 0 ≡ some (size + length wire)
size_loop-Blocks size (last bytes nonzero h) k =
    size_loop-last bytes (size + 1) 0 nonzero (omega arith) (omega arith) ∙ ap some (omega arith)
size_loop-Blocks size (zero_after bytes {raw} {wire} nonzero h rest) k =
    let total = length-append bytes wire in
    let step =
      size_step-zero (length raw != 0) (size + 1 + length bytes) (0 + length bytes)
        (omega (arith, total, k, nonempty-Blocks rest)) in
    size_loop-run bytes (0 ∷ raw) (size + 1) 0 nonzero (omega arith) (omega (arith, total, k))
    ∙ size_loop-cons 0 raw (size + 1 + length bytes) (0 + length bytes) _ _ step
    ∙ size_loop-Blocks (size + 1 + length bytes) rest (omega (arith, total, k))
    ∙ ap some (omega (arith, total))
size_loop-Blocks size (full bytes {raw} {wire} nonzero h more rest) k =
    let total = length-append bytes wire in
    size_loop-full bytes raw (size + 1) 0 nonzero (omega arith) (omega arith) more
      (omega (arith, total, k, nonempty-Blocks rest))
    ∙ size_loop-Blocks (size + 1 + length bytes) rest (omega (arith, total, k))
    ∙ ap some (omega (arith, total))

-- The encoding of a nonempty span has the size that the code computes.
pub exact_cobs_size-Blocks :
    {raw wire : List ℕ}
    → Blocks raw wire
    → 0 < length raw
    → length wire ≤ size_max
    → exact_cobs_size raw ≡ some (length wire)
unfolding exact_cobs_size
exact_cobs_size-Blocks {raw} {wire} blocks more small =
    ground (arith, size_loop-Blocks 0 blocks (omega (arith, small)))

All-append :
    (xs ys : List ℕ) → All (λ b. b ≢ 0) xs → All (λ b. b ≢ 0) ys → All (λ b. b ≢ 0) (xs ++ ys)
All-append [] ys p q = q
All-append (x ∷ xs) ys (one, p) q = (one, All-append xs ys p q)

-- An encoding has no zero byte.
pub nonzero-Blocks : {raw wire : List ℕ} → Blocks raw wire → All (λ b. b ≢ 0) wire
nonzero-Blocks (last bytes nonzero h) = (λ e. omega (arith, e), nonzero)
nonzero-Blocks (zero_after bytes nonzero h rest) =
    (λ e. omega (arith, e), All-append bytes _ nonzero (nonzero-Blocks rest))
nonzero-Blocks (full bytes nonzero h more rest) =
    (λ e. omega (arith, e), All-append bytes _ nonzero (nonzero-Blocks rest))

-- A coarse bound.
pub length-Blocks : {raw wire : List ℕ} → Blocks raw wire → length wire ≤ 2 * length raw + 1
length-Blocks (last bytes nonzero h) = omega arith
length-Blocks (zero_after bytes {raw} {wire} nonzero h rest) =
    omega (arith, length-append bytes wire, length-append bytes (0 ∷ raw), length-Blocks rest)
length-Blocks (full bytes {raw} {wire} nonzero h more rest) =
    omega (arith, length-append bytes wire, length-append bytes raw, length-Blocks rest)
