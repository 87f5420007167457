-- ===== src/Sequence.antt =====
-- src/transport/internal/mvp/transport_session_mvp.c, its last part: the sequence numbers of the
-- reliable frames, as functions on the session. Sequence numbers are `uint16_t`.
pub mod Receive
mod Tests
use hil_rig_protocol.Common.{
  ℕ, ◌+◌, ◌-◌, ◌^◌, u16, Bool, not, ◌&&◌, ◌||◌, ltb, ◌==◌, ◌!=◌, ◌is◌, ◌isnt◌,
}
use hil_rig_protocol.Common.{if◌then◌else◌, Enum}
use hil_rig_protocol.Types.{Status, status_enum}
use hil_rig_protocol.Root.{Session, FrameType, ReliableState, reliable_state_enum, frame_type_enum}

-- `HIL_Transport_Mvp_Rx_Sequence_Result_T`
pub data RxSequence : Type 0 where
  expected duplicate stale incompatible : RxSequence

abbrev pub rx_sequence_value : RxSequence → ℕ
rx_sequence_value RxSequence.expected = 0
rx_sequence_value RxSequence.duplicate = 1
rx_sequence_value RxSequence.stale = 2
rx_sequence_value RxSequence.incompatible = 3

instance abbrev pub rx_sequence_enum : Enum RxSequence
rx_sequence_enum = record { value = rx_sequence_value }

-- `HIL_Transport_Mvp_Ack_Result_T`
pub data AckResult : Type 0 where
  matched stale_or_unexpected : AckResult

abbrev pub ack_result_value : AckResult → ℕ
ack_result_value AckResult.matched = 0
ack_result_value AckResult.stale_or_unexpected = 1

instance abbrev pub ack_result_enum : Enum AckResult
ack_result_enum = record { value = ack_result_value }

-- The status, and the sequence written to the caller.
unfoldable pub reserve_sequence : Session → Status × ℕ
reserve_sequence s =
    if s.reliable_state isnt ReliableState.idle
    then (Status.not_ready, 0)
    else if (s.retained_reliable_frame_type isnt FrameType.invalid)
        || (s.retained_transmit_sequence != 0)
        || (s.retransmissions_committed != 0)
        || (s.reliable_last_committed_ms != 0)
    then (Status.internal_error, 0)
    else (Status.ok, s.next_transmit_sequence)

unfoldable pub classify_sequence : Session → ℕ → Status × RxSequence
classify_sequence s sequence =
    if ltb 1 s.accepted_receive_sequence_valid
    then (Status.internal_error, RxSequence.incompatible)
    else if s.accepted_receive_sequence_valid == 0
    then (Status.ok, RxSequence.expected)
    else if sequence == s.expected_receive_sequence
    then (Status.ok, RxSequence.expected)
    else if sequence == s.last_accepted_receive_sequence
    then (Status.ok, RxSequence.duplicate)
    else if ltb 0x8000 (u16 (sequence + 2 ^ 16 - s.expected_receive_sequence))
    then (Status.ok, RxSequence.stale)
    else (Status.ok, RxSequence.incompatible)

unfoldable pub accept_sequence : Session → ℕ → Status × Session
accept_sequence s sequence =
    let (status, result) = classify_sequence s sequence in
    if status isnt Status.ok
    then (status, s)
    else if result isnt RxSequence.expected
    then (Status.not_ready, s)
    else (
      Status.ok,
      record s {
        last_accepted_receive_sequence = sequence;
        expected_receive_sequence = u16 (sequence + 1);
        accepted_receive_sequence_valid = 1;
      },
    )

unfoldable pub classify_acknowledgement : Session → ℕ → Status × AckResult
classify_acknowledgement s sequence =
    if ((s.reliable_state is ReliableState.awaiting_ack)
        || (s.reliable_state is ReliableState.retransmit_ready))
      && (sequence == s.retained_transmit_sequence)
    then (Status.ok, AckResult.matched)
    else (Status.ok, AckResult.stale_or_unexpected)
