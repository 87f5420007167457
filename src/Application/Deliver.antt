-- ===== src/Application/Deliver.antt =====
-- The receiving side: a frame with a message, and the read of it.
use hil_rig_protocol.Common.{
  ℕ, List, length, memcpy, not, ◌||◌, ltb, ◌==◌, ◌!=◌, ◌isnt◌, if◌then◌else◌, Option, none, some,
}
use hil_rig_protocol.Types.{Status, status_enum}
use hil_rig_protocol.Root.{Root, Reply, FrameType, frame_type_enum}
use hil_rig_protocol.Codec.{Frame}
use hil_rig_protocol.Codec.Cobs.{Cobs}
use hil_rig_protocol.Sequence.{RxSequence, classify_sequence, accept_sequence}
use hil_rig_protocol.Control.{null_with_size}
use hil_rig_protocol.Session.{enter_fault}
use hil_rig_protocol.Handshake.{then_reply}
use hil_rig_protocol.Application.{
  FrameResult, has_required_storage, session_is_established, received_message_metadata_is_valid,
  publish_acknowledgement,
}

abbrev pub Handled : Type 0
Handled = Status × FrameResult × Root

-- A call whose failure ends the operation, with no result.
unfoldable pub then_handle : Reply → (Root → Handled) → Handled
then_handle (Status.ok, r) next = next r
then_handle (status, r) next = (status, FrameResult.incompatible, r)

-- The fault that the code records.
unfoldable pub fault : Root → Handled
fault r = let (status, r') = enter_fault r in (status, FrameResult.incompatible, r')

-- The message is owned once its sequence is taken.
unfoldable pub retain_message : Root → Frame → Reply
retain_message r frame =
    let (status, s) = accept_sequence r.session frame.sequence in
    if status isnt Status.ok then enter_fault r else (
      Status.ok,
      record r {
        session = record s {
          last_accepted_receive_frame_type = FrameType.application_message;
          last_accepted_receive_acknowledgement_sequence = 0;
        };
        received_message_size = length frame.payload;
        received_message_pending = 1;
      },
    )

unfoldable pub accept_message : Cobs → Root → Frame → Handled
accept_message cobs r frame =
    if r.received_message_pending != 0
    then (Status.capacity_exhausted, FrameResult.incompatible, r)
    else let copied = record r {
      received_message = memcpy r.received_message frame.payload (length frame.payload);
    } in
      then_handle
        (then_reply (publish_acknowledgement cobs copied frame.sequence)
          (λ r'. retain_message r' frame))
        (λ r'. (Status.ok, FrameResult.accepted, r'))

-- A message of the sequence accepted last is acknowledged again, and not delivered again.
unfoldable pub acknowledge_again : Cobs → Root → Frame → Handled
acknowledge_again cobs r frame =
    if (r.session.last_accepted_receive_frame_type isnt FrameType.application_message)
      || (r.session.last_accepted_receive_acknowledgement_sequence != 0)
    then (Status.ok, FrameResult.incompatible, r)
    else then_handle (publish_acknowledgement cobs r frame.sequence)
        (λ r'. (Status.ok, FrameResult.duplicate, r'))

unfoldable pub by_sequence : Cobs → Status × RxSequence → Root → Frame → Handled
by_sequence cobs (Status.ok, RxSequence.expected) r frame = accept_message cobs r frame
by_sequence cobs (Status.ok, RxSequence.duplicate) r frame = acknowledge_again cobs r frame
by_sequence cobs (Status.ok, result) r frame = (Status.ok, FrameResult.incompatible, r)
by_sequence cobs (status, result) r frame = fault r

unfoldable pub handle_received_frame : Cobs → Root → Frame → Handled
handle_received_frame cobs r frame =
    if frame.type isnt FrameType.application_message
    then (Status.invalid_argument, FrameResult.incompatible, r)
    else if not (has_required_storage r) || not (received_message_metadata_is_valid r)
    then fault r
    else if not (session_is_established r)
    then (Status.ok, FrameResult.incompatible, r)
    else if (length frame.payload == 0)
        || ltb r.base.config.max_application_message_size (length frame.payload)
        || (frame.acknowledgement_sequence != 0)
    then fault r
    else if frame.session_identifier != r.session.session_identifier
    then (Status.ok, FrameResult.incompatible, r)
    else by_sequence cobs (classify_sequence r.session frame.sequence) r frame

-- What `read` leaves: the caller's buffer, `none` for a null pointer, and the message's size.
pub record Read : Type 0 where
  pub status : Status
  pub out_buffer : Option (List ℕ)
  pub message_size : ℕ
  pub root : Root

unfoldable pub copy_message : Root → Option (List ℕ) → ℕ → Read
copy_message r none out_size = record {
  status = Status.buffer_too_small;
  out_buffer = none;
  message_size = r.received_message_size;
  root = r;
}
copy_message r (some out) out_size =
    if ltb out_size r.received_message_size
    then record {
      status = Status.buffer_too_small;
      out_buffer = some out;
      message_size = r.received_message_size;
      root = r;
    }
    else record {
      status = Status.ok;
      out_buffer = some (memcpy out r.received_message r.received_message_size);
      message_size = r.received_message_size;
      root = record r { received_message_size = 0; received_message_pending = 0 };
    }

unfoldable pub read_fault : Root → Option (List ℕ) → Read
read_fault r out =
    let (status, r') = enter_fault r in
    record { status = status; out_buffer = out; message_size = 0; root = r' }

unfoldable pub read : Root → Option (List ℕ) → ℕ → Read
read r out out_size =
    if null_with_size out out_size
    then record { status = Status.invalid_argument; out_buffer = out; message_size = 0; root = r }
    else if not (has_required_storage r) || not (received_message_metadata_is_valid r)
    then read_fault r out
    else if r.received_message_pending == 0
    then record { status = Status.not_ready; out_buffer = out; message_size = 0; root = r }
    else if not (session_is_established r)
    then read_fault r out
    else copy_message r out out_size
