-- ===== src/Reliability/Delivery.antt =====
-- One frame from publication to acknowledgement.
use hil_rig_protocol.Common.{
  ℕ, ◌+◌, ◌%◌, ◌^◌, ◌≤◌, ◌<◌, ◌≡◌, ◌≢◌, arith, List, true, some, memcpy, ◌⊎◌, inl,
}
use hil_rig_protocol.Types.{Status}
use hil_rig_protocol.Root.{Root, FrameType, ReliableState}
use hil_rig_protocol.Reliability.{
  publish_encoded, peek_output, commit_output, accept_acknowledgement,
}
use hil_rig_protocol.Reliability.{Outcome, is_reliable_type}
use hil_rig_protocol.Reliability.Validity.{IsValid, validate_state-IsValid, publish_encoded-IsValid}
use hil_rig_protocol.Reliability.Validity.{peek_output-IsValid, commit_output-IsValid}

-- On a valid endpoint, an acknowledgement completes the frame exactly when its sequence is the
-- frame's and the frame was transmitted with no retry pinned since; it then reports the frame's
-- type, frees the slot, and moves on by one sequence, modulo 2 ^ 16. Any other acknowledgement
-- changes nothing.
pub accept_acknowledgement-exact :
    {r : Root} (sequence : ℕ)
    → IsValid r
    → let a = accept_acknowledgement r sequence in
      (((r.session.reliable_state ≡ ReliableState.awaiting_ack)
            ⊎ (r.session.reliable_state ≡ ReliableState.retransmit_ready))
          × (sequence ≡ r.session.retained_transmit_sequence)
        → (a.outcome ≡ Outcome.acknowledged)
          × (a.completed_frame_type ≡ r.session.retained_reliable_frame_type)
          × (a.root.session.reliable_state ≡ ReliableState.idle)
          × (a.root.encoded_output_size ≡ 0)
          × (a.root.session.next_transmit_sequence ≡ (sequence + 1) % 2 ^ 16))
      × (a.outcome ≡ Outcome.acknowledged
          → ((r.session.reliable_state ≡ ReliableState.awaiting_ack)
              ⊎ (r.session.reliable_state ≡ ReliableState.retransmit_ready))
            × (sequence ≡ r.session.retained_transmit_sequence))
      × (a.outcome ≢ Outcome.acknowledged → a.root ≡ r)
unfolding accept_acknowledgement
accept_acknowledgement-exact {r} sequence v =
    let ok = validate_state-IsValid v in
    (λ h. ground (arith, ok), λ h. ground (arith, ok), λ h. ground (arith, ok))

module _ {r : Root} (v : IsValid r) where
  publish-idle :
      (t : FrameType) (size : ℕ)
      → r.session.reliable_state ≡ ReliableState.idle
      → is_reliable_type t ≡ true
      → 0 < size
      → size ≤ r.encoded_output_capacity
      → let (status, r') = publish_encoded r t r.session.next_transmit_sequence size in
        (status ≡ Status.ok)
        × (r'.session.reliable_state ≡ ReliableState.ready)
        × (r'.session.retained_reliable_frame_type ≡ t)
        × (r'.session.retained_transmit_sequence ≡ r.session.next_transmit_sequence)
        × (r'.encoded_output_size ≡ size)
        × (r'.encoded_output ≡ r.encoded_output)
  unfolding publish_encoded
  publish-idle t size idle reliable h k = ground (arith, validate_state-IsValid v)

  peek-ready :
      (out : List ℕ) (out_size : ℕ)
      → r.session.reliable_state ≡ ReliableState.ready
      → r.encoded_output_size ≤ out_size
      → let p = peek_output r (some out) out_size in
        (p.status ≡ Status.ok)
        × (p.out_buffer ≡ some (memcpy out r.encoded_output r.encoded_output_size))
        × (p.root.session.reliable_state ≡ ReliableState.peeked)
        × (p.root.session.retained_reliable_frame_type ≡ r.session.retained_reliable_frame_type)
        × (p.root.session.retained_transmit_sequence ≡ r.session.retained_transmit_sequence)
  unfolding peek_output
  peek-ready out out_size ready h = ground (arith, validate_state-IsValid v)

  commit-peeked :
      (now_ms : ℕ)
      → r.session.reliable_state ≡ ReliableState.peeked
      → let (status, r') = commit_output r now_ms in
        (status ≡ Status.ok)
        × (r'.session.reliable_state ≡ ReliableState.awaiting_ack)
        × (r'.session.retained_reliable_frame_type ≡ r.session.retained_reliable_frame_type)
        × (r'.session.retained_transmit_sequence ≡ r.session.retained_transmit_sequence)
  unfolding commit_output
  commit-peeked now_ms peeked = ground (arith, validate_state-IsValid v)

-- On a valid idle endpoint, a frame of a reliable type and of 1 to `encoded_output_capacity` bytes
-- that is published with the next sequence, peeked into a buffer that holds it, committed and
-- acknowledged with its sequence is delivered: the caller got exactly its bytes, the
-- acknowledgement reports its type, and the slot is free for the next sequence.
pub frame_is_delivered :
    {r : Root} (t : FrameType) (size now_ms out_size : ℕ) (out : List ℕ)
    → IsValid r
    → r.session.reliable_state ≡ ReliableState.idle
    → is_reliable_type t ≡ true
    → 0 < size
    → size ≤ r.encoded_output_capacity
    → size ≤ out_size
    → let sequence = r.session.next_transmit_sequence in
      let (published, r₁) = publish_encoded r t sequence size in
      let p = peek_output r₁ (some out) out_size in
      let (committed, r₂) = commit_output p.root now_ms in
      let a = accept_acknowledgement r₂ sequence in
      (published ≡ Status.ok)
      × (p.status ≡ Status.ok)
      × (p.out_buffer ≡ some (memcpy out r.encoded_output size))
      × (committed ≡ Status.ok)
      × (a.outcome ≡ Outcome.acknowledged)
      × (a.completed_frame_type ≡ t)
      × (a.root.session.reliable_state ≡ ReliableState.idle)
      × (a.root.session.next_transmit_sequence ≡ (sequence + 1) % 2 ^ 16)
frame_is_delivered {r} t size now_ms out_size out v idle reliable h k m =
    let sequence = r.session.next_transmit_sequence in
    let v₁ = publish_encoded-IsValid t sequence size v in
    let pub_ = publish-idle v t size idle reliable h k in
    let r₁ = (publish_encoded r t sequence size).1 in
    let peek_ = peek-ready v₁ out out_size (ground (arith, pub_)) (ground (arith, pub_)) in
    let v₂ = peek_output-IsValid (some out) out_size v₁ in
    let r₂ = (peek_output r₁ (some out) out_size).root in
    let commit_ = commit-peeked v₂ now_ms (ground (arith, peek_)) in
    let v₃ = commit_output-IsValid now_ms v₂ in
    let ack =
      (accept_acknowledgement-exact sequence v₃).0
        (inl (ground (arith, commit_)), ground (arith, pub_, peek_, commit_)) in
    ground (arith, pub_, peek_, commit_, ack)
