-- ===== src/Reliability/Tests.antt =====
-- Concrete runs, and the theorems at concrete inputs.
use hil_rig_protocol.Common.{ℕ, ◌≤◌, ◌<◌, ◌≡◌, ◌≢◌, ◌⊎◌, refl, arith, List, [], ◌∷◌, some}
use hil_rig_protocol.Types.{Status}
use hil_rig_protocol.Root.{FrameType, ReliableState}
use hil_rig_protocol.Fixtures.{quiet, loaded, waiting}
use hil_rig_protocol.Reliability.{
  expire, validate_state, has_storage, publish_encoded, peek_output, commit_output,
}
use hil_rig_protocol.Reliability.{
  accept_acknowledgement, process_pending, Outcome, is_reliable_type,
}
use hil_rig_protocol.Reliability.Validity.{IsValid}
use hil_rig_protocol.Reliability.Steps.{publish, here, next, Reach-IsValid}
use hil_rig_protocol.Reliability.Delivery.{accept_acknowledgement-exact, frame_is_delivered}
use hil_rig_protocol.Reliability.Retry.{
  process_pending-elapsed, Op, peek, commit, process, apply_all, transmissions,
}
use hil_rig_protocol.Reliability.Retry.{transmissions-bound, retry-same_bytes, apply}

quiet-IsValid : IsValid quiet
unfolding validate_state has_storage
quiet-IsValid = record {
  consistent = refl;
  provisioned = refl;
  stored = omega arith;
  retries_in = omega arith;
  next_in = omega arith;
}

loaded-IsValid : IsValid loaded
unfolding validate_state has_storage
loaded-IsValid = record {
  consistent = refl;
  provisioned = refl;
  stored = omega arith;
  retries_in = omega arith;
  next_in = omega arith;
}

waiting-IsValid : IsValid waiting
unfolding validate_state has_storage
waiting-IsValid = record {
  consistent = refl;
  provisioned = refl;
  stored = omega arith;
  retries_in = omega arith;
  next_in = omega arith;
}

Reach-IsValid_example : IsValid (publish_encoded quiet FrameType.initiate 0xffff 3).1
Reach-IsValid_example =
    Reach-IsValid (next here (publish FrameType.initiate 0xffff 3 refl)) quiet-IsValid

accept_acknowledgement-exact_example :
    let a = accept_acknowledgement waiting 0xffff in
    (((waiting.session.reliable_state ≡ ReliableState.awaiting_ack)
          ⊎ (waiting.session.reliable_state ≡ ReliableState.retransmit_ready))
        × (◌≡◌ {A = ℕ} 0xffff 0xffff)
      → (a.outcome ≡ Outcome.acknowledged)
        × (a.completed_frame_type ≡ FrameType.initiate)
        × (a.root.session.reliable_state ≡ ReliableState.idle)
        × (a.root.encoded_output_size ≡ 0)
        × (a.root.session.next_transmit_sequence ≡ 0))
    × (a.outcome ≡ Outcome.acknowledged
        → ((waiting.session.reliable_state ≡ ReliableState.awaiting_ack)
            ⊎ (waiting.session.reliable_state ≡ ReliableState.retransmit_ready))
          × (◌≡◌ {A = ℕ} 0xffff 0xffff))
    × (a.outcome ≢ Outcome.acknowledged → a.root ≡ waiting)
accept_acknowledgement-exact_example = accept_acknowledgement-exact 0xffff waiting-IsValid

frame_is_delivered_example :
    let (published, r₁) = publish_encoded quiet FrameType.initiate 0xffff 3 in
    let p = peek_output r₁ (some (0 ∷ 0 ∷ 0 ∷ [])) 3 in
    let (committed, r₂) = commit_output p.root 10 in
    let a = accept_acknowledgement r₂ 0xffff in
    (published ≡ Status.ok)
    × (p.status ≡ Status.ok)
    × (p.out_buffer ≡ some (3 ∷ 1 ∷ 4 ∷ []))
    × (committed ≡ Status.ok)
    × (a.outcome ≡ Outcome.acknowledged)
    × (a.completed_frame_type ≡ FrameType.initiate)
    × (a.root.session.reliable_state ≡ ReliableState.idle)
    × (a.root.session.next_transmit_sequence ≡ 0)
unfolding is_reliable_type
frame_is_delivered_example =
    frame_is_delivered FrameType.initiate 3 10 3 (0 ∷ 0 ∷ 0 ∷ []) quiet-IsValid refl refl
      (omega arith) (omega arith) (omega arith)

-- 60 ms after 0xfffffff0 the clock reads 44.
process_pending-elapsed_example :
    let (status, outcome, r') = process_pending waiting 44 in
    (status ≡ Status.ok)
    × (60 < 50 → (outcome ≡ Outcome.no_change) × (r' ≡ waiting))
    × (50 ≤ 60
        → 0 < 2
        → (outcome ≡ Outcome.retransmit_ready)
          × (r'.session.reliable_state ≡ ReliableState.retransmit_ready))
    × (50 ≤ 60
        → 2 ≤ 0
        → (outcome ≡ Outcome.retries_exhausted)
          × (r'.session.reliable_state ≡ ReliableState.exhausted))
process_pending-elapsed_example =
    process_pending-elapsed 60 waiting-IsValid refl (omega arith) (omega arith) (omega arith)

abbrev script : List Op
script =
    peek (some (0 ∷ 0 ∷ 0 ∷ [])) 3
    ∷ commit 10
    ∷ process 60
    ∷ peek (some (0 ∷ 0 ∷ 0 ∷ [])) 3
    ∷ commit 70
    ∷ process 120
    ∷ []

transmissions-bound_example : transmissions loaded script ≤ 3
transmissions-bound_example = transmissions-bound script loaded-IsValid refl

abbrev loss : List Op
loss = peek (some (0 ∷ 0 ∷ 0 ∷ [])) 3 ∷ commit 10 ∷ process 60 ∷ []

retry-same_bytes_example :
    (peek_output (apply_all loaded loss) (some (0 ∷ 0 ∷ 0 ∷ [])) 3).out_buffer
    ≡ some (3 ∷ 1 ∷ 4 ∷ [])
unfolding peek_output apply apply_all commit_output process_pending expire validate_state
retry-same_bytes_example = retry-same_bytes loss (0 ∷ 0 ∷ 0 ∷ []) 3 loaded-IsValid refl
