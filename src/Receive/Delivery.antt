-- ===== src/Receive/Delivery.antt =====
-- A message's frame in one call of the receive function.
use hil_rig_protocol.Common.{
  ℕ, ◌+◌, ◌<◌, ◌≤◌, ◌≡◌, refl, ap, ◌∙◌, arith, List, [], ◌∷◌, ◌++◌, length, length-append,
  take-memcpy, drop, take, memcpy, true, some,
}
use hil_rig_protocol.Types.{Status, status_enum, LinkState, link_state_enum, session_state_enum}
use hil_rig_protocol.Root.{Root, FrameType, ControlOutputState, handshake_phase_enum}
use hil_rig_protocol.Parser
use hil_rig_protocol.Parser.Framing.{IsIdle, push_bytes-body}
use hil_rig_protocol.Codec.{Frame, serialize}
use hil_rig_protocol.Codec.Cobs.{Cobs, Encodes}
use hil_rig_protocol.Codec.Blocks.{nonempty-Blocks, nonzero-Blocks}
use hil_rig_protocol.Control.Validity as ControlValidity
use hil_rig_protocol.Control.Slot.{held}
use hil_rig_protocol.Handshake
use hil_rig_protocol.Handshake.{handshake_frame, then_reply}
use hil_rig_protocol.Handshake.Chain.{validate_root-parser}
use hil_rig_protocol.Handshake.Publish.{HasScratch, with_item, item, held-with_item}
use hil_rig_protocol.Application.{session_is_established, has_required_storage}
use hil_rig_protocol.Application.Deliver.{read}
use hil_rig_protocol.Application.Once.{Expects, retained, taken}
use hil_rig_protocol.Application.Delivered.{read-pending, released}
use hil_rig_protocol.Receive.{process_pending_error, try_advance_recovery}
use hil_rig_protocol.Receive
use hil_rig_protocol.Receive.Dispatch.{process_retained_body}
use hil_rig_protocol.Receive.Bytes.{
  Received, returns, Turn, go_on, by_result, take_turn, receive_loop, prepare, enter_receive,
  receive_prepared, receive_bytes,
}
use hil_rig_protocol.Receive.Loop.{resume, receive_loop-resumes}
use hil_rig_protocol.Receive.Messages.{
  Sendable, consumed, process_retained_body-consumed, dispatch_frame-retained,
}

drop_all : (xs : List ℕ) → drop (length xs) xs ≡ []
drop_all [] = refl
drop_all (x ∷ xs) = drop_all xs

-- A turn that takes all bytes and goes on is the last one.
receive_loop-last :
    (cobs : Cobs) (r : Root) (bytes : List ℕ) {r' : Root}
    → 0 < length bytes
    → take_turn cobs r bytes ≡ (length bytes, Turn.more r')
    → receive_loop (length bytes) cobs r bytes 0 ≡ some (returns (length bytes) (Status.ok, r'))
unfolding receive_loop resume
receive_loop-last cobs r [] h turn = absurd (omega (arith, h))
receive_loop-last cobs r (b ∷ bytes) {r'} h turn =
    let total : 0 + length (b ∷ bytes) ≡ length (b ∷ bytes) = omega arith in
    let fuel = length bytes in
    receive_loop-resumes fuel cobs r b bytes 0
    ∙ ap (resume fuel cobs (b ∷ bytes) 0) turn
    ∙ ap (λ l. receive_loop fuel cobs r' l (0 + length (b ∷ bytes))) (drop_all (b ∷ bytes))
    ∙ ap (λ n. some (returns n (Status.ok, r'))) total

-- An established endpoint between two bodies, with no diagnostic left over.
pub record Listens (r : Root) : Type 0 where
  pub checked : Receive.validate_root r ≡ (Status.ok, r)
  pub coherent : Handshake.validate_root r ≡ (Status.ok, r)
  pub up : r.base.link_state ≡ LinkState.connected
  pub quiet : r.receive_protocol_error_pending ≡ 0
  pub between : IsIdle r.parser
  pub established : session_is_established r ≡ true

try_advance_recovery-established :
    (r : Root) → session_is_established r ≡ true → try_advance_recovery r ≡ (Status.ok, r)
unfolding try_advance_recovery session_is_established
try_advance_recovery-established r h = ground (arith, h)

enter_receive-Listens : (cobs : Cobs) {r : Root} → Listens r → enter_receive cobs r ≡ (Status.ok, r)
unfolding enter_receive prepare process_pending_error then_reply
enter_receive-Listens cobs {r} l =
    rw (l.checked, l.up, l.quiet)
      (ground (arith, l.between.unread, try_advance_recovery-established r l.established))

module _ {cobs : Cobs} {r : Root} {f : Frame} {wire ack : List ℕ} (x : Expects r f) (l : Listens r)
    (s : Sendable r f) (v : HasScratch r) (c : ControlValidity.IsValid r)
    (e : Encodes cobs (serialize f) wire)
    (a : Encodes cobs
      (serialize (handshake_frame FrameType.ack r.session.session_identifier 0 f.sequence))
      ack)
    (idle : r.control_output_state ≡ ControlOutputState.idle)
    (fits : length wire ≤ r.parser.scratch_buffer_size) where
  pushed : Parser.Parser
  pushed = (Parser.push_bytes r.parser (wire ++ (0 ∷ []))).2

  -- The endpoint with the body.
  holding : Root
  holding = record r { parser = pushed }

  -- The endpoint after it.
  after : Root
  after = consumed (retained ack f holding)

  body_is_processed : process_retained_body cobs holding ≡ (Status.ok, after)
  unfolding holding after pushed retained with_item session_is_established has_required_storage
  body_is_processed =
      let (now, used, ready, valid) =
        push_bytes-body wire [] l.between (nonzero-Blocks e.blocks)
          (ground (arith, nonempty-Blocks e.blocks)) fits in
      let x' : Expects holding f = record {
        established = x.established;
        storage = x.storage;
        free = x.free;
        empty = x.empty;
        room = x.room;
        message = x.message;
        plain = x.plain;
        some_payload = x.some_payload;
        fits = x.fits;
        same_session = x.same_session;
        next = x.next;
        in_range = x.in_range;
      } in
      let v' : HasScratch holding = record { scratch = v.scratch; bounded = v.bounded } in
      let c' = ControlValidity.IsValid-slot holding c refl refl refl in
      let s' : Sendable holding f = record {
        accepted = s.accepted;
        identifier_in = s.identifier_in;
        sequence_in = s.sequence_in;
        acknowledgement_in = s.acknowledgement_in;
        bytes = s.bytes;
        fits = s.fits;
      } in
      process_retained_body-consumed s' v' e valid ready
        (dispatch_frame-retained x' a v' c' idle (validate_root-parser r pushed l.coherent)) refl

  turn_is_taken : take_turn cobs r (wire ++ (0 ∷ [])) ≡ (length (wire ++ (0 ∷ [])), Turn.more after)
  unfolding take_turn by_result holding after pushed consumed retained with_item taken go_on
      then_reply session_is_established
  turn_is_taken =
      let (now, used, ready, valid) =
        push_bytes-body wire [] l.between (nonzero-Blocks e.blocks)
          (ground (arith, nonempty-Blocks e.blocks)) fits in
      let total : length wire + 1 ≡ length (wire ++ (0 ∷ [])) =
        ground (arith, length-append wire (0 ∷ [])) in
      let recovered = try_advance_recovery-established after x.established in
      let done = ap (λ y. then_reply y try_advance_recovery) body_is_processed ∙ recovered in
      rw (now, used, total) (ap (λ y. (length (wire ++ (0 ∷ [])), go_on y)) done)

  received :
      receive_bytes cobs r (wire ++ (0 ∷ []))
      ≡ some (returns (length (wire ++ (0 ∷ []))) (Status.ok, after))
  unfolding receive_bytes receive_prepared
  received =
      ap (λ y. receive_prepared cobs y (wire ++ (0 ∷ []))) (enter_receive-Listens cobs l)
      ∙ receive_loop-last cobs r (wire ++ (0 ∷ [])) (ground (arith, length-append wire (0 ∷ [])))
          turn_is_taken

  received_message :
      (out : List ℕ) (out_size : ℕ)
      → length f.payload ≤ out_size
      → read after (some out) out_size ≡ record {
        status = Status.ok;
        out_buffer = some (memcpy out f.payload (length f.payload));
        message_size = length f.payload;
        root = released after;
      }
  unfolding after consumed retained with_item holding taken session_is_established
      has_required_storage
  received_message out out_size h =
      let copied = take-memcpy r.received_message f.payload (length f.payload) (omega arith) in
      read-pending after out out_size x.established x.storage refl x.some_payload x.fits h
      ∙ ap
          (λ b. record {
            status = Status.ok;
            out_buffer = some (b ++ drop (length f.payload) out);
            message_size = length f.payload;
            root = released after;
          })
          copied

-- An established endpoint whose parser is between two bodies, which has no diagnostic left over and
-- owns no received message, and whose control slot is free, is given the encoding of the frame of a
-- message with the next sequence and the delimiter. The call succeeds and consumes all bytes, the
-- slot holds the ACK, and the message can be read, unchanged. COBS is as documented for both frames.
pub receive_bytes-delivers :
    {cobs : Cobs} {r : Root} {f : Frame} {wire ack : List ℕ} (out : List ℕ) (out_size : ℕ)
    → Expects r f
    → Listens r
    → Sendable r f
    → HasScratch r
    → ControlValidity.IsValid r
    → Encodes cobs (serialize f) wire
    → Encodes cobs
        (serialize (handshake_frame FrameType.ack r.session.session_identifier 0 f.sequence))
        ack
    → r.control_output_state ≡ ControlOutputState.idle
    → length wire ≤ r.parser.scratch_buffer_size
    → length f.payload ≤ out_size
    → (x : Received) × (receive_bytes cobs r (wire ++ (0 ∷ [])) ≡ some x)
      × (x.status ≡ Status.ok)
      × (x.bytes_consumed ≡ length wire + 1)
      × (held x.root ≡ take (length ack + 1) (item ack))
      × ((read x.root (some out) out_size).status ≡ Status.ok)
      × ((read x.root (some out) out_size).message_size ≡ length f.payload)
      × ((read x.root (some out) out_size).out_buffer
          ≡ some (memcpy out f.payload (length f.payload)))
unfolding returns after consumed retained with_item holding held
receive_bytes-delivers {cobs} {r} {f} {wire} {ack} out out_size x l s v c e a idle fits h =
    let got = received_message x l s v c e a idle fits out out_size h in
    (
      returns (length (wire ++ (0 ∷ []))) (Status.ok, after x l s v c e a idle fits),
      received x l s v c e a idle fits,
      refl,
      ground (arith, length-append wire (0 ∷ [])),
      held-with_item ack r,
      ap (λ g. g.status) got,
      ap (λ g. g.message_size) got,
      ap (λ g. g.out_buffer) got,
    )
