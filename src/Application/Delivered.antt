-- ===== src/Application/Delivered.antt =====
-- From the frame of a message to the read of it.
use hil_rig_protocol.Common.{
  ℕ, ◌+◌, ◌<◌, ◌≤◌, ◌≡◌, ◌≢◌, refl, ap, ◌∙◌, arith, List, ◌++◌, length, drop, take, memcpy, true,
  some, take-memcpy,
}
use hil_rig_protocol.Types.{Status, status_enum}
use hil_rig_protocol.Root.{
  Root, FrameType, frame_type_enum, ControlOutputState, control_output_state_enum,
  control_output_capacity,
}
use hil_rig_protocol.Codec.{Frame, serialize}
use hil_rig_protocol.Codec.Cobs.{Cobs, Encodes}
use hil_rig_protocol.Sequence.{rx_sequence_enum}
use hil_rig_protocol.Control.Validity as ControlValidity
use hil_rig_protocol.Control.{peek_output, commit_output, release}
use hil_rig_protocol.Control.Slot.{held, transmit_item}
use hil_rig_protocol.Handshake.{handshake_frame}
use hil_rig_protocol.Handshake.Publish.{
  HasScratch, with_item, with_item-IsValid, item, held-with_item, length-item, handshake_frame-fits,
  empty_payload,
}
use hil_rig_protocol.Application.{
  FrameResult, has_required_storage, session_is_established, received_message_metadata_is_valid,
}
use hil_rig_protocol.Application.Deliver.{handle_received_frame, read, copy_message}
use hil_rig_protocol.Application.Once.{
  Expects, taken, retained, handle_received_frame-retained, acknowledge_again-done,
  acknowledge_again-sent, handle_received_frame-again,
}

-- What a read leaves of the message.
unfoldable pub released : Root → Root
released r = record r { received_message_size = 0; received_message_pending = 0 }

pub read-pending :
    (r : Root) (out : List ℕ) (out_size : ℕ)
    → session_is_established r ≡ true
    → has_required_storage r ≡ true
    → r.received_message_pending ≡ 1
    → 0 < r.received_message_size
    → r.received_message_size ≤ r.base.config.max_application_message_size
    → r.received_message_size ≤ out_size
    → read r (some out) out_size ≡ record {
      status = Status.ok;
      out_buffer = some (memcpy out r.received_message r.received_message_size);
      message_size = r.received_message_size;
      root = released r;
    }
unfolding read copy_message released received_message_metadata_is_valid
read-pending r out out_size established storage pending h k m = ground (arith, established, storage)

pub read-none :
    (r : Root) (out : List ℕ) (out_size : ℕ)
    → has_required_storage r ≡ true
    → r.received_message_pending ≡ 0
    → r.received_message_size ≡ 0
    → (read r (some out) out_size).status ≡ Status.not_ready
unfolding read received_message_metadata_is_valid
read-none r out out_size storage free empty = ground (arith, storage)

module _ {cobs : Cobs} {r : Root} {f : Frame} {wire : List ℕ} (x : Expects r f)
    (e : Encodes cobs
      (serialize (handshake_frame FrameType.ack r.session.session_identifier 0 f.sequence))
      wire)
    (v : HasScratch r) (c : ControlValidity.IsValid r) where
  read-retained :
      (out : List ℕ) (out_size : ℕ)
      → length f.payload ≤ out_size
      → read (retained wire f r) (some out) out_size ≡ record {
        status = Status.ok;
        out_buffer = some (memcpy out f.payload (length f.payload));
        message_size = length f.payload;
        root = released (retained wire f r);
      }
  unfolding retained with_item taken session_is_established has_required_storage
  read-retained out out_size h =
      let copied = take-memcpy r.received_message f.payload (length f.payload) (omega arith) in
      read-pending (retained wire f r) out out_size x.established x.storage refl x.some_payload
        x.fits h
      ∙ ap
          (λ b. record {
            status = Status.ok;
            out_buffer = some (b ++ drop (length f.payload) out);
            message_size = length f.payload;
            root = released (retained wire f r);
          })
          copied

  named : r.session.session_identifier ≢ 0
  unfolding session_is_established
  named = ground (arith, x.established)

  read_again :
      handle_received_frame cobs (released (retained wire f r)) f
      ≡ (Status.ok, FrameResult.duplicate, released (retained wire f r))
  unfolding retained released with_item taken session_is_established has_required_storage
      received_message_metadata_is_valid held
  read_again =
      let r' = released (retained wire f r) in
      let scratch : HasScratch r' = record { scratch = v.scratch; bounded = v.bounded } in
      let control =
        ControlValidity.IsValid-slot r' (with_item-IsValid f.sequence e v c named) refl refl refl in
      handle_received_frame-again x e v c r' r' x.established x.storage (ground arith) refl refl (
        acknowledge_again-done x e v c r' refl scratch control (λ h. ground (arith, h))
          (held-with_item wire r))

  -- The message is read, and the ACK of it is still there.
  given : Root
  given = released (retained wire f r)

  given-IsValid : ControlValidity.IsValid given
  unfolding given released retained with_item taken
  given-IsValid =
      ControlValidity.IsValid-slot given (with_item-IsValid f.sequence e v c named) refl refl refl

  ack_shown :
      (out : List ℕ) (out_size : ℕ)
      → control_output_capacity ≤ out_size
      → let shown = peek_output given (some out) out_size in
        (shown.status ≡ Status.ok)
        × (shown.out_buffer ≡ some (memcpy out given.control_output given.control_output_size))
        × (shown.output_size ≡ given.control_output_size)
        × (commit_output shown.root ≡ (Status.ok, release given))
  unfolding given released retained with_item taken
  ack_shown out out_size h =
      let fits =
        handshake_frame-fits _
          (empty_payload FrameType.ack r.session.session_identifier 0 f.sequence) e in
      transmit_item out out_size given-IsValid (λ k. ground (arith, k)) (omega (arith, fits, h))

  -- Once the ACK is sent, the frame is acknowledged with a new one.
  sent_again :
      handle_received_frame cobs (release given) f
      ≡ (Status.ok, FrameResult.duplicate, with_item wire (release given))
  unfolding given released retained with_item taken release session_is_established
      has_required_storage received_message_metadata_is_valid
  sent_again =
      let r' = release given in
      let scratch : HasScratch r' = record { scratch = v.scratch; bounded = v.bounded } in
      let control = ControlValidity.release-IsValid given given-IsValid.slot in
      handle_received_frame-again x e v c r' (with_item wire r') x.established x.storage
        (ground arith) refl refl (acknowledge_again-sent x e v c r' refl scratch control refl)

-- On an established endpoint that owns no received message and whose control slot is free, the frame
-- of a message with the next sequence is accepted, and its message is read back, unchanged, by a
-- caller whose buffer holds it. The same frame is then a duplicate, which changes nothing while its
-- ACK is in the slot. Once that ACK is peeked at, whole, and committed, the same frame is a
-- duplicate again, and its ACK is in the slot once more. There is no second message to read. COBS is
-- as documented for the ACK, and the buffer for the ACK holds a control item.
pub message_is_delivered_once :
    {cobs : Cobs} {r : Root} {f : Frame} {wire : List ℕ} (out : List ℕ) (out_size : ℕ)
    (ack_out : List ℕ) (ack_size : ℕ)
    → Expects r f
    → Encodes cobs
        (serialize (handshake_frame FrameType.ack r.session.session_identifier 0 f.sequence))
        wire
    → HasScratch r
    → ControlValidity.IsValid r
    → r.control_output_state ≡ ControlOutputState.idle
    → length f.payload ≤ out_size
    → control_output_capacity ≤ ack_size
    → let (status, result, r₁) = handle_received_frame cobs r f in
      let got = read r₁ (some out) out_size in
      let (status₂, result₂, r₂) = handle_received_frame cobs got.root f in
      let shown = peek_output r₂ (some ack_out) ack_size in
      let (committed, r₃) = commit_output shown.root in
      let (status₃, result₃, r₄) = handle_received_frame cobs r₃ f in
      ((status ≡ Status.ok)
        × (result ≡ FrameResult.accepted)
        × (held r₁ ≡ take (length wire + 1) (item wire)))
      × ((got.status ≡ Status.ok)
          × (got.message_size ≡ length f.payload)
          × (got.out_buffer ≡ some (memcpy out f.payload (length f.payload))))
      × ((status₂ ≡ Status.ok) × (result₂ ≡ FrameResult.duplicate) × (r₂ ≡ got.root))
      × ((shown.status ≡ Status.ok)
          × (shown.out_buffer ≡ some (memcpy ack_out (item wire) (length wire + 1)))
          × (shown.output_size ≡ length wire + 1)
          × (committed ≡ Status.ok)
          × (r₃.control_output_state ≡ ControlOutputState.idle))
      × ((status₃ ≡ Status.ok)
          × (result₃ ≡ FrameResult.duplicate)
          × (r₄.control_output_state ≡ ControlOutputState.ready)
          × (held r₄ ≡ take (length wire + 1) (item wire))
          × ((read r₄ (some out) out_size).status ≡ Status.not_ready))
unfolding given released retained with_item release taken has_required_storage held
message_is_delivered_once {cobs} {r} {f} {wire} out out_size ack_out ack_size x e v c idle h k =
    let taken_ = handle_received_frame-retained x e v c idle in
    let got = read-retained x e v c out out_size h in
    let again = read_again x e v c in
    let (shown, bytes, size, committed) = ack_shown x e v c ack_out ack_size k in
    let sent = sent_again x e v c in
    let none_left =
      read-none (with_item wire (release (given x e v c))) out out_size x.storage refl refl in
    let copied = take-memcpy r.control_output (item wire) (length wire + 1) (length-item wire) in
    let part = ap (λ b. some (b ++ drop (length wire + 1) ack_out)) copied in
    rw (taken_, got, again, committed, sent)
      (
        (refl, refl, held-with_item wire r),
        (refl, refl, refl),
        (refl, refl, refl),
        (shown, bytes ∙ part, size, refl, refl),
        (refl, refl, refl, held-with_item wire (release (given x e v c)), none_left),
      )
