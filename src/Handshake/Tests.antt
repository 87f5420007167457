-- ===== src/Handshake/Tests.antt =====
-- The theorems at concrete inputs.
use hil_rig_protocol.Common.{ℕ, ◌≡◌, refl, arith, List, [], ◌∷◌, some}
use hil_rig_protocol.Types.{Status, status_enum, Role, SessionState}
use hil_rig_protocol.Crc.{
  crc32_compute, crc32_update, crc32_init, crc32_finish, crc32_byte, crc32_nibble,
  crc32_nibble_table,
}
use hil_rig_protocol.Codec.{
  serialize, covered, header, write_u64_le, write_bytes, write_u16_le, write_u32_le,
  exact_cobs_size, size_loop, size_step,
}
use hil_rig_protocol.Codec.Cobs.{Encodes}
use hil_rig_protocol.Events.Entries.{contents, entries, all_valid}
use hil_rig_protocol.Events.{value_is_valid}
use hil_rig_protocol.Reliability
use hil_rig_protocol.Reliability.{commit_output, peek_output}
use hil_rig_protocol.Control
use hil_rig_protocol.Fixtures.{cobs, stuff, unstuff, unblock, stuff-Encodes, calling, called}
use hil_rig_protocol.Handshake.{FrameResult, handshake_frame, session_identifier_is_valid}
use hil_rig_protocol.Handshake.Frames.{process, handle_frame}
use hil_rig_protocol.Handshake.Connecting.{Connecting}
use hil_rig_protocol.Handshake.Exchange.{
  Meets, initiate_frame, response_frame, confirm_frame, ack_frame,
}
use hil_rig_protocol.Handshake.Crossing.{Carries}
use hil_rig_protocol.Handshake.Establishes.{handshake_establishes}

abbrev initiate_wire : List ℕ
initiate_wire =
    4 ∷ 1 ∷ 1 ∷ 7 ∷ 1 ∷ 1 ∷ 1 ∷ 1 ∷ 1 ∷ 1 ∷ 3 ∷ 255 ∷ 255 ∷ 1 ∷ 5 ∷ 167 ∷ 154 ∷ 39 ∷ 133 ∷ []

abbrev response_wire : List ℕ
response_wire =
    4 ∷ 1 ∷ 2 ∷ 7 ∷ 1 ∷ 1 ∷ 1 ∷ 1 ∷ 1 ∷ 1 ∷ 2 ∷ 5 ∷ 7 ∷ 255 ∷ 255 ∷ 184 ∷ 38 ∷ 136 ∷ 209 ∷ []

abbrev confirm_wire : List ℕ
confirm_wire =
    4 ∷ 1 ∷ 3 ∷ 7 ∷ 1 ∷ 1 ∷ 1 ∷ 1 ∷ 1 ∷ 1 ∷ 1 ∷ 1 ∷ 2 ∷ 5 ∷ 5 ∷ 181 ∷ 233 ∷ 145 ∷ 248 ∷ []

abbrev ack_wire : List ℕ
ack_wire = 4 ∷ 1 ∷ 5 ∷ 7 ∷ 1 ∷ 1 ∷ 1 ∷ 1 ∷ 1 ∷ 1 ∷ 1 ∷ 1 ∷ 1 ∷ 1 ∷ 5 ∷ 45 ∷ 194 ∷ 3 ∷ 37 ∷ []

initiate_wire-Encodes : Encodes cobs (serialize (initiate_frame calling)) initiate_wire
unfolding serialize covered header write_u64_le write_bytes write_u16_le write_u32_le crc32_compute
    crc32_update crc32_init crc32_finish crc32_byte crc32_nibble crc32_nibble_table exact_cobs_size
    size_loop size_step stuff unstuff unblock initiate_frame handshake_frame
initiate_wire-Encodes =
    stuff-Encodes (serialize (initiate_frame calling)) initiate_wire refl refl (omega arith)

response_wire-Encodes : Encodes cobs (serialize (response_frame calling called)) response_wire
unfolding serialize covered header write_u64_le write_bytes write_u16_le write_u32_le crc32_compute
    crc32_update crc32_init crc32_finish crc32_byte crc32_nibble crc32_nibble_table exact_cobs_size
    size_loop size_step stuff unstuff unblock response_frame handshake_frame
response_wire-Encodes =
    stuff-Encodes (serialize (response_frame calling called)) response_wire refl refl (omega arith)

confirm_wire-Encodes : Encodes cobs (serialize (confirm_frame calling called)) confirm_wire
unfolding serialize covered header write_u64_le write_bytes write_u16_le write_u32_le crc32_compute
    crc32_update crc32_init crc32_finish crc32_byte crc32_nibble crc32_nibble_table exact_cobs_size
    size_loop size_step stuff unstuff unblock confirm_frame handshake_frame
confirm_wire-Encodes =
    stuff-Encodes (serialize (confirm_frame calling called)) confirm_wire refl refl (omega arith)

ack_wire-Encodes : Encodes cobs (serialize (ack_frame calling)) ack_wire
unfolding serialize covered header write_u64_le write_bytes write_u16_le write_u32_le crc32_compute
    crc32_update crc32_init crc32_finish crc32_byte crc32_nibble crc32_nibble_table exact_cobs_size
    size_loop size_step stuff unstuff unblock ack_frame handshake_frame
ack_wire-Encodes = stuff-Encodes (serialize (ack_frame calling)) ack_wire refl refl (omega arith)

calling-Connecting : Connecting Role.host calling
unfolding Reliability.validate_state Reliability.has_storage Control.validate_state contents entries
    all_valid value_is_valid
calling-Connecting = record {
  base_role = refl;
  session_role = refl;
  base_up = refl;
  session_up = refl;
  base_state = refl;
  session_state = refl;
  failures = refl;
  identified = omega arith;
  unconfirmed = refl;
  no_confirm = refl;
  scratch = record { scratch = omega arith; bounded = omega arith };
  reliable = record {
    consistent = refl;
    provisioned = refl;
    stored = omega arith;
    retries_in = omega arith;
    next_in = omega arith;
  };
  capacity = omega arith;
  bounded = omega arith;
  control = record { consistent = refl; slot = refl };
  free = refl;
  events = record { slots = refl; head_in = omega arith; count_in = omega arith; sound = refl };
  room = omega arith;
}

called-Connecting : Connecting Role.rig called
unfolding Reliability.validate_state Reliability.has_storage Control.validate_state contents entries
    all_valid value_is_valid
called-Connecting = record {
  base_role = refl;
  session_role = refl;
  base_up = refl;
  session_up = refl;
  base_state = refl;
  session_state = refl;
  failures = refl;
  identified = omega arith;
  unconfirmed = refl;
  no_confirm = refl;
  scratch = record { scratch = omega arith; bounded = omega arith };
  reliable = record {
    consistent = refl;
    provisioned = refl;
    stored = omega arith;
    retries_in = omega arith;
    next_in = omega arith;
  };
  capacity = omega arith;
  bounded = omega arith;
  control = record { consistent = refl; slot = refl };
  free = refl;
  events = record { slots = refl; head_in = omega arith; count_in = omega arith; sound = refl };
  room = omega arith;
}

calling-Meets : Meets calling called
unfolding session_identifier_is_valid
calling-Meets = record {
  host = calling-Connecting;
  rig = called-Connecting;
  host_phase = refl;
  rig_phase = refl;
  host_idle = refl;
  rig_idle = refl;
  host_bound = refl;
  rig_unbound = refl;
  identifier_in = omega arith;
  usable = refl;
  host_fresh = refl;
  rig_fresh = refl;
}

-- The buffer of the callers.
abbrev buffer : List ℕ
buffer = 9 ∷ 9 ∷ 9 ∷ 9 ∷ 9 ∷ 9 ∷ 9 ∷ 9 ∷ 9 ∷ 9 ∷ 9 ∷ 9 ∷ 9 ∷ 9 ∷ 9 ∷ 9 ∷ 9 ∷ 9 ∷ 9 ∷ 9 ∷ []

handshake_establishes_example :
    let (s₁, h₁) = process cobs calling in
    let shown₁ = peek_output h₁ (some buffer) 20 in
    let (c₁, h₂) = commit_output shown₁.root 1 in
    let (s₂, x₂, g₁) = handle_frame cobs called (initiate_frame calling) in
    let (s₃, g₂) = process cobs g₁ in
    let shown₂ = peek_output g₂ (some buffer) 20 in
    let (c₂, g₃) = commit_output shown₂.root 2 in
    let (s₄, x₄, h₃) = handle_frame cobs h₂ (response_frame calling called) in
    let (s₅, h₄) = process cobs h₃ in
    let shown₃ = peek_output h₄ (some buffer) 20 in
    let (c₃, h₅) = commit_output shown₃.root 3 in
    let (s₆, x₆, g₄) = handle_frame cobs g₃ (confirm_frame calling called) in
    let shown₄ = Control.peek_output g₄ (some buffer) 20 in
    let (c₄, g₅) = Control.commit_output shown₄.root in
    let (s₇, x₇, h₆) = handle_frame cobs h₅ (ack_frame calling) in
    ((s₁ ≡ Status.ok) × (c₁ ≡ Status.ok) × (s₂ ≡ Status.ok) × (x₂ ≡ FrameResult.accepted))
    × ((s₃ ≡ Status.ok) × (c₂ ≡ Status.ok) × (s₄ ≡ Status.ok) × (x₄ ≡ FrameResult.accepted))
    × ((s₅ ≡ Status.ok) × (c₃ ≡ Status.ok) × (s₆ ≡ Status.ok) × (x₆ ≡ FrameResult.accepted))
    × ((c₄ ≡ Status.ok) × (s₇ ≡ Status.ok) × (x₇ ≡ FrameResult.accepted))
    × (Carries cobs shown₁ buffer called initiate_wire (initiate_frame calling)
        × Carries cobs shown₂ buffer calling response_wire (response_frame calling called)
        × Carries cobs shown₃ buffer called confirm_wire (confirm_frame calling called)
        × Carries cobs shown₄ buffer calling ack_wire (ack_frame calling))
    × ((h₆.session.state ≡ SessionState.established)
        × (g₅.session.state ≡ SessionState.established)
        × (h₆.session.session_identifier ≡ 7)
        × (g₅.session.session_identifier ≡ 7))
    × ((g₅.session.expected_receive_sequence ≡ h₆.session.next_transmit_sequence)
        × (h₆.session.expected_receive_sequence ≡ g₅.session.next_transmit_sequence))
handshake_establishes_example =
    handshake_establishes buffer 20 1 2 3 calling-Meets initiate_wire-Encodes response_wire-Encodes
      confirm_wire-Encodes ack_wire-Encodes (omega arith)
