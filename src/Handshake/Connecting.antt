-- ===== src/Handshake/Connecting.antt =====
-- An endpoint in the middle of an establishment, and the calls of the entry points on it.
use hil_rig_protocol.Common.{
  ◌<◌, ◌≤◌, ◌≡◌, ◌≢◌, ap, arith, [], length, true, false, ◌!=◌, ◌is◌, size_max,
}
use hil_rig_protocol.Types.{
  Status, status_enum, Role, role_enum, LinkState, link_state_enum, SessionState,
  session_state_enum, failure_enum,
}
use hil_rig_protocol.Root.{
  Root, handshake_phase_enum, FrameType, frame_type_enum, ControlOutputState, event_queue_capacity,
  control_output_capacity,
}
use hil_rig_protocol.Codec.{Frame}
use hil_rig_protocol.Codec.Cobs.{Cobs}
use hil_rig_protocol.Events.Entries as Entries
use hil_rig_protocol.Output.{is_faulted}
use hil_rig_protocol.Session.{completed_confirm_metadata_is_valid}
use hil_rig_protocol.Reliability
use hil_rig_protocol.Reliability.{clear_metadata}
use hil_rig_protocol.Reliability.Validity as ReliabilityValidity
use hil_rig_protocol.Control.Validity as ControlValidity
use hil_rig_protocol.Handshake.{validate_root, session_identifier_is_valid}
use hil_rig_protocol.Handshake.Frames.{process, publish_pending, handle_frame, dispatch_role}
use hil_rig_protocol.Handshake.Publish.{HasScratch}
use hil_rig_protocol.Handshake.Accepts.{acknowledged}

-- A connected endpoint of this role that has no session yet, and that can publish and receive.
pub record Connecting (role : Role) (r : Root) : Type 0 where
  pub base_role : r.base.role ≡ role
  pub session_role : r.session.role ≡ role
  pub base_up : r.base.link_state ≡ LinkState.connected
  pub session_up : r.session.link_state ≡ LinkState.connected
  pub base_state : r.base.session_state ≡ SessionState.connecting
  pub session_state : r.session.state ≡ SessionState.connecting
  pub failures : r.base.last_failure ≡ r.session.last_failure
  pub identified : r.session.session_identifier_valid ≤ 1
  pub unconfirmed : r.session.completed_confirm_sequence_valid ≡ 0
  pub no_confirm : r.session.completed_confirm_sequence ≡ 0
  pub scratch : HasScratch r
  pub reliable : ReliabilityValidity.IsValid r
  pub capacity : control_output_capacity ≤ r.encoded_output_capacity
  pub bounded : r.encoded_output_capacity ≤ size_max
  pub control : ControlValidity.IsValid r
  pub free : r.control_output_state ≡ ControlOutputState.idle
  pub events : Entries.IsValid r
  pub room : r.event_count < event_queue_capacity

pub validate_root-Connecting :
    {role : Role} {r : Root} → Connecting role r → validate_root r ≡ (Status.ok, r)
unfolding validate_root completed_confirm_metadata_is_valid
validate_root-Connecting {role} {r} c = ground (
  arith, c.base_role, c.session_role, c.base_up, c.session_up, c.base_state, c.session_state,
  c.failures, c.identified, c.unconfirmed, c.no_confirm,
)

pub is_faulted-Connecting : {role : Role} {r : Root} → Connecting role r → is_faulted r ≡ false
unfolding is_faulted
is_faulted-Connecting {role} {r} c = ground (arith, c.base_state, c.session_state)

-- The entry checks pass.
pub process-pending :
    {role : Role} {r : Root} (cobs : Cobs)
    → Connecting role r
    → r.session.session_identifier_valid ≡ 1
    → session_identifier_is_valid r.session.session_identifier ≡ true
    → process cobs r ≡ publish_pending cobs r.session.handshake_phase r
unfolding process
process-pending {role} {r} cobs c bound usable =
    rw (is_faulted-Connecting c, validate_root-Connecting c, c.session_up, c.session_state, usable)
      (ground (arith, bound))

pub handle_frame-dispatched :
    {role : Role} {r : Root} (cobs : Cobs) (f : Frame)
    → Connecting role r
    → f.payload ≡ []
    → f.type ≢ FrameType.reset
    → handle_frame cobs r f ≡ dispatch_role cobs role r f
unfolding handle_frame
handle_frame-dispatched {role} {r} cobs f c empty other =
    let none_sent : (length f.payload != 0) ≡ false = ground (arith, ap length empty) in
    let not_reset : (f.type is FrameType.reset) ≡ false = ground (arith, other) in
    rw (is_faulted-Connecting c, validate_root-Connecting c, none_sent, not_reset)
      (ap (λ x. dispatch_role cobs x r f) c.session_role)

pub acknowledged-IsValid :
    {r : Root} → ReliabilityValidity.IsValid r → ReliabilityValidity.IsValid (acknowledged r)
unfolding acknowledged clear_metadata Reliability.validate_state Reliability.has_storage
acknowledged-IsValid {r} v = record {
  consistent = ground arith;
  provisioned = v.provisioned;
  stored = v.stored;
  retries_in = v.retries_in;
  next_in = omega arith;
}
