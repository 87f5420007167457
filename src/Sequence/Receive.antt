-- ===== src/Sequence/Receive.antt =====
-- Which reliable frames a receiver takes.
use hil_rig_protocol.Common.{
  ℕ, zero, suc, ◌+◌, ◌%◌, ◌^◌, ◌<◌, ◌≡◌, refl, arith, List, [], ◌∷◌, length, if◌then◌else◌, ◌is◌,
  ltb,
}
use hil_rig_protocol.Types.{Status, status_enum}
use hil_rig_protocol.Root.{Session}
use hil_rig_protocol.Sequence.{RxSequence, classify_sequence, accept_sequence}

-- A session that took some frame, and expects the one behind it.
pub record IsTracking (s : Session) : Type 0 where
  pub tracked : s.accepted_receive_sequence_valid ≡ 1
  pub last_in : s.last_accepted_receive_sequence < 2 ^ 16
  pub next : s.expected_receive_sequence ≡ (s.last_accepted_receive_sequence + 1) % 2 ^ 16

-- For a session that tracks its sequences, a frame whose sequence lies `d` places behind the last
-- one that was taken, going round at 2 ^ 16, is a duplicate at 0, expected at 1, incompatible from
-- 2 to 0x8001 and stale beyond.
pub classify_sequence-distance :
    (s : Session) (d : ℕ)
    → IsTracking s
    → d < 2 ^ 16
    → classify_sequence s ((s.last_accepted_receive_sequence + d) % 2 ^ 16) ≡ (
      Status.ok,
      (if ltb d 1
          then RxSequence.duplicate
          else if ltb d 2
          then RxSequence.expected
          else if ltb d 0x8002
          then RxSequence.incompatible
          else RxSequence.stale),
    )
unfolding classify_sequence
classify_sequence-distance s d t h = ground arith

-- The sequences that a receiver takes out of what arrives.
unfoldable pub taken : Session → List ℕ → List ℕ
taken s [] = []
taken s (sequence ∷ arriving) =
    let (status, s') = accept_sequence s sequence in
    let rest = taken s' arriving in if status is Status.ok then sequence ∷ rest else rest

-- `n` successive sequences.
pub successive : ℕ → ℕ → List ℕ
successive first zero = []
successive first (suc n) = first ∷ successive ((first + 1) % 2 ^ 16) n

-- Taking a frame is remembered: that sequence is then a duplicate, and the next one is expected.
pub accept_sequence-IsTracking :
    (s : Session) (sequence : ℕ)
    → sequence < 2 ^ 16
    → (accept_sequence s sequence).0 ≡ Status.ok
    → let s' = (accept_sequence s sequence).1 in
      IsTracking s'
      × (classify_sequence s' sequence ≡ (Status.ok, RxSequence.duplicate))
      × (classify_sequence s' ((sequence + 1) % 2 ^ 16) ≡ (Status.ok, RxSequence.expected))
unfolding accept_sequence classify_sequence
accept_sequence-IsTracking s sequence h e = ground arith

-- Whatever arrives at a session that tracks its sequences, in whatever order and however often,
-- the receiver takes successive sequences from the one that it expects: none twice in a row, none
-- skipped.
pub taken-successive :
    (s : Session) (arriving : List ℕ)
    → IsTracking s
    → taken s arriving ≡ successive s.expected_receive_sequence (length (taken s arriving))
unfolding taken successive accept_sequence classify_sequence
taken-successive s [] t = refl
taken-successive s (sequence ∷ arriving) t =
    ground (arith, taken-successive (accept_sequence s sequence).1 arriving)
