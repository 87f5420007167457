-- ===== src/Application/Tests.antt =====
-- The theorems at concrete inputs.
use hil_rig_protocol.Common.{◌++◌, ◌+◌, ◌≡◌, refl, arith, [], ◌∷◌, take, some, length}
use hil_rig_protocol.Types.{Status}
use hil_rig_protocol.Control.Slot.{held}
use hil_rig_protocol.Fixtures.{
  cobs, talking, greeting, reply_wire, reply-Encodes, talking-HasScratch, talking-IsValid,
  greeting-Expects,
}
use hil_rig_protocol.Handshake.Publish.{item}
use hil_rig_protocol.Handshake.{encoded_control}
use hil_rig_protocol.Root.{ControlOutputState}
use hil_rig_protocol.Control.{peek_output, commit_output}
use hil_rig_protocol.Application.{FrameResult}
use hil_rig_protocol.Application.Deliver.{handle_received_frame, read}
use hil_rig_protocol.Application.Delivered.{message_is_delivered_once}

message_is_delivered_once_example :
    let (status, result, r₁) = handle_received_frame cobs talking greeting in
    let got = read r₁ (some (1 ∷ 2 ∷ 3 ∷ 4 ∷ [])) 4 in
    let (status₂, result₂, r₂) = handle_received_frame cobs got.root greeting in
    let shown = peek_output r₂ (some encoded_control) 20 in
    let (committed, r₃) = commit_output shown.root in
    let (status₃, result₃, r₄) = handle_received_frame cobs r₃ greeting in
    ((status ≡ Status.ok)
      × (result ≡ FrameResult.accepted)
      × (held r₁ ≡ take (length reply_wire + 1) (item reply_wire)))
    × ((got.status ≡ Status.ok)
        × (got.message_size ≡ 3)
        × (got.out_buffer ≡ some (8 ∷ 0 ∷ 255 ∷ 4 ∷ [])))
    × ((status₂ ≡ Status.ok) × (result₂ ≡ FrameResult.duplicate) × (r₂ ≡ got.root))
    × ((shown.status ≡ Status.ok)
        × (shown.out_buffer ≡ some (reply_wire ++ (0 ∷ [])))
        × (shown.output_size ≡ 20)
        × (committed ≡ Status.ok)
        × (r₃.control_output_state ≡ ControlOutputState.idle))
    × ((status₃ ≡ Status.ok)
        × (result₃ ≡ FrameResult.duplicate)
        × (r₄.control_output_state ≡ ControlOutputState.ready)
        × (held r₄ ≡ take (length reply_wire + 1) (item reply_wire))
        × ((read r₄ (some (1 ∷ 2 ∷ 3 ∷ 4 ∷ [])) 4).status ≡ Status.not_ready))
unfolding encoded_control item
message_is_delivered_once_example =
    message_is_delivered_once (1 ∷ 2 ∷ 3 ∷ 4 ∷ []) 4 encoded_control 20 greeting-Expects
      reply-Encodes talking-HasScratch talking-IsValid refl (omega arith) (omega arith)
