-- ===== src/Handshake/Recovery.antt =====
-- The end of a session that fails here, with a RESET for the peer.
use hil_rig_protocol.Common.{ℕ, Bool, not, ◌&&◌, ◌!=◌, ◌is◌, ◌isnt◌, if◌then◌else◌}
use hil_rig_protocol.Types.{Status, status_enum, LinkState, link_state_enum, Failure}
use hil_rig_protocol.Root.{Root, Reply, FrameType}
use hil_rig_protocol.Codec.Cobs.{Cobs}
use hil_rig_protocol.Session.{enter_fault, abandon}
use hil_rig_protocol.Handshake.{session_identifier_is_valid, publish_control}

unfoldable pub publish_reset : Cobs → Root → ℕ → Reply
publish_reset cobs r session_identifier =
    if not (session_identifier_is_valid session_identifier)
    then (Status.invalid_argument, r)
    else publish_control cobs r FrameType.reset session_identifier 0

-- The RESET is published and awaits its commit.
unfoldable pub raise_barrier : Status → ℕ → Reply → Reply
raise_barrier abandon_status session_identifier (Status.ok, r) = (
  abandon_status,
  record r { recovery_reset_pending = 1; recovery_reset_session_identifier = session_identifier },
)
raise_barrier abandon_status session_identifier (status, r) = enter_fault r

unfoldable pub announce_failure : Cobs → ℕ → Bool → Reply → Reply
announce_failure cobs session_identifier valid (status, r) =
    if (status isnt Status.ok) && (status isnt Status.capacity_exhausted)
    then (status, r)
    else if valid
    then raise_barrier status session_identifier (publish_reset cobs r session_identifier)
    else (status, r)

unfoldable pub begin_local_recovery : Cobs → Root → Failure → Reply
begin_local_recovery cobs r failure =
    announce_failure cobs r.session.session_identifier
      ((r.session.link_state is LinkState.connected)
        && (r.session.session_identifier_valid != 0)
        && session_identifier_is_valid r.session.session_identifier)
      (abandon r failure)
