-- ===== src/Receive/Tests.antt =====
-- The theorems at concrete inputs.
use hil_rig_protocol.Common.{◌+◌, ◌≤◌, ◌≡◌, refl, arith, [], ◌∷◌, ◌++◌, take, some, length}
use hil_rig_protocol.Types.{Status}
use hil_rig_protocol.Control.Slot.{held}
use hil_rig_protocol.Parser
use hil_rig_protocol.Output.{is_faulted}
use hil_rig_protocol.Session.{
  completed_confirm_metadata_is_valid, recently_abandoned_metadata_is_valid, identifier_is_valid,
}
use hil_rig_protocol.Codec.{
  validate_frame, validate_typed, validate_application_message, frame_type_valid,
}
use hil_rig_protocol.Fixtures.{
  cobs, talking, greeting, greeting_wire, reply_wire, greeting-Encodes, reply-Encodes,
  talking-HasScratch, talking-IsValid, greeting-Expects,
}
use hil_rig_protocol.Handshake
use hil_rig_protocol.Handshake.Publish.{item}
use hil_rig_protocol.Application.{session_is_established}
use hil_rig_protocol.Application.Deliver.{read}
use hil_rig_protocol.Receive
use hil_rig_protocol.Receive.Bytes.{Received, receive_bytes}
use hil_rig_protocol.Receive.Messages.{Sendable}
use hil_rig_protocol.Receive.Delivery.{Listens, receive_bytes-delivers}
use hil_rig_protocol.Receive.Loop.{receive_bytes-returns}

receive_bytes-returns_example :
    (x : Received) × (receive_bytes cobs talking (3 ∷ 0 ∷ 7 ∷ []) ≡ some x)
    × (x.bytes_consumed ≤ 3)
    × (x.status ≡ Status.ok → x.bytes_consumed ≡ 3)
receive_bytes-returns_example = receive_bytes-returns cobs talking (3 ∷ 0 ∷ 7 ∷ [])

talking-Listens : Listens talking
unfolding Receive.validate_root Receive.root_is_inconsistent Handshake.validate_root is_faulted
    completed_confirm_metadata_is_valid recently_abandoned_metadata_is_valid identifier_is_valid
    Parser.peek_body Parser.state_is_valid session_is_established
talking-Listens = record {
  checked = refl;
  coherent = refl;
  up = refl;
  quiet = refl;
  between = record {
    valid = record { consistent = refl; stored = omega arith };
    empty = refl;
    unread = refl;
    keeping = refl;
  };
  established = refl;
}

greeting-Sendable : Sendable talking greeting
unfolding validate_frame validate_typed validate_application_message frame_type_valid
greeting-Sendable = record {
  accepted = refl;
  identifier_in = omega arith;
  sequence_in = omega arith;
  acknowledgement_in = omega arith;
  bytes = (omega arith, (omega arith, (omega arith, tt)));
  fits = omega arith;
}

receive_bytes-delivers_example :
    (x : Received) × (receive_bytes cobs talking (greeting_wire ++ (0 ∷ [])) ≡ some x)
    × (x.status ≡ Status.ok)
    × (x.bytes_consumed ≡ 23)
    × (held x.root ≡ take (length reply_wire + 1) (item reply_wire))
    × ((read x.root (some (1 ∷ 2 ∷ 3 ∷ 4 ∷ [])) 4).status ≡ Status.ok)
    × ((read x.root (some (1 ∷ 2 ∷ 3 ∷ 4 ∷ [])) 4).message_size ≡ 3)
    × ((read x.root (some (1 ∷ 2 ∷ 3 ∷ 4 ∷ [])) 4).out_buffer ≡ some (8 ∷ 0 ∷ 255 ∷ 4 ∷ []))
receive_bytes-delivers_example =
    receive_bytes-delivers (1 ∷ 2 ∷ 3 ∷ 4 ∷ []) 4 greeting-Expects talking-Listens greeting-Sendable
      talking-HasScratch talking-IsValid greeting-Encodes reply-Encodes refl (omega arith)
      (omega arith)
