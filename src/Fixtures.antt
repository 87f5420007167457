-- ===== src/Fixtures.antt =====
-- Concrete endpoints for the tests of the components.
use hil_rig_protocol.Common.{
  ◌⊎◌, inl, inr, false, subst, ◌<◌, length-append, ℕ, zero, suc, ◌+◌, ◌-◌, ◌≡◌, ◌≢◌, refl, ap,
  arith, List, [], ◌∷◌, ◌++◌, length, drop, ◌==◌, if◌then◌else◌,
}
use hil_rig_protocol.Crc.{
  crc32_compute, crc32_update, crc32_init, crc32_finish, crc32_byte, crc32_nibble,
  crc32_nibble_table,
}
use hil_rig_protocol.Codec.{
  Frame, serialize, covered, header, write_u64_le, write_bytes, write_u16_le, write_u32_le,
  exact_cobs_size, size_loop, size_step,
}
use hil_rig_protocol.Handshake.{handshake_frame}
use hil_rig_protocol.Handshake.Publish.{HasScratch}
use hil_rig_protocol.Control
use hil_rig_protocol.Control.Validity as ControlValidity
use hil_rig_protocol.Sequence.{classify_sequence}
use hil_rig_protocol.Application.{session_is_established, has_required_storage}
use hil_rig_protocol.Application.Once.{Expects}
use hil_rig_protocol.Codec.Blocks.{Blocks}
use hil_rig_protocol.Codec.Cobs.{Cobs, EncodeStatus, Encodes}
use hil_rig_protocol.Types.{Status, Role, LinkState, SessionState, Failure, EventType, Event}
use hil_rig_protocol.Parser.{Parser}
use hil_rig_protocol.Events.{no_event}
use hil_rig_protocol.Root.{Root, OperatingMode, Config, Session, HandshakePhase, FrameType}
use hil_rig_protocol.Root.{ReliableState, ControlOutputState, OutputSelection}

abbrev pub config : Config
config = record {
  max_application_message_size = 4;
  max_encoded_frame_size = 8;
  session_seed = 7;
  initial_reliable_sequence = 0xffff;
  connection_timeout_ms = 1000;
  retransmit_timeout_ms = 50;
  max_retries = 2;
}

abbrev pub parser : Parser
parser = record {
  scratch_buffer = 0 ∷ 0 ∷ 0 ∷ 0 ∷ [];
  scratch_buffer_size = 4;
  accumulated_size = 0;
  body_ready = 0;
  discarding = 0;
}

abbrev pub session : Session
session = record {
  role = Role.host;
  link_state = LinkState.connected;
  link_state_observed = 1;
  state = SessionState.recovering;
  handshake_phase = HandshakePhase.inactive;
  session_identifier = 0;
  session_identifier_valid = 0;
  completed_confirm_sequence = 0;
  completed_confirm_sequence_valid = 0;
  next_host_session_identifier = 7;
  initial_reliable_sequence = 0xffff;
  next_transmit_sequence = 0xffff;
  expected_receive_sequence = 0xffff;
  retained_transmit_sequence = 0;
  retained_reliable_frame_type = FrameType.invalid;
  last_accepted_receive_sequence = 0;
  accepted_receive_sequence_valid = 0;
  last_accepted_receive_frame_type = FrameType.invalid;
  last_accepted_receive_acknowledgement_sequence = 0;
  reliable_state = ReliableState.idle;
  retransmissions_committed = 0;
  reliable_last_committed_ms = 0;
  last_valid_receive_ms = 0;
  last_failure = Failure.delivery;
}

-- A host whose link is up and which owns nothing.
abbrev pub quiet : Root
quiet = record {
  base = record {
    config = config;
    role = Role.host;
    link_state = LinkState.connected;
    session_state = SessionState.recovering;
    operating_mode = OperatingMode.normal;
    operating_mode_valid = 0;
    last_failure = Failure.delivery;
  };
  session = session;
  parser = parser;
  submitted_message = 0 ∷ 0 ∷ 0 ∷ 0 ∷ [];
  submitted_message_size = 0;
  submitted_message_pending = 0;
  encoded_output = 3 ∷ 1 ∷ 4 ∷ 1 ∷ 5 ∷ 9 ∷ 2 ∷ 0 ∷ [];
  encoded_output_capacity = 8;
  encoded_output_size = 0;
  output_selection = OutputSelection.none;
  control_output =
      0 ∷ 0 ∷ 0 ∷ 0 ∷ 0 ∷ 0 ∷ 0 ∷ 0 ∷ 0 ∷ 0 ∷ 0 ∷ 0 ∷ 0 ∷ 0 ∷ 0 ∷ 0 ∷ 0 ∷ 0 ∷ 0 ∷ 0 ∷ [];
  control_output_size = 0;
  control_output_state = ControlOutputState.idle;
  recovery_reset_pending = 0;
  recovery_reset_session_identifier = 0;
  recently_abandoned_session_identifier = 0;
  recently_abandoned_session_identifier_valid = 0;
  codec_scratch_size = 22;
  received_message = 0 ∷ 0 ∷ 0 ∷ 0 ∷ [];
  received_message_size = 0;
  received_message_pending = 0;
  receive_protocol_error_pending = 0;
  event_queue = no_event ∷ no_event ∷ no_event ∷ no_event ∷ [];
  event_read_index = 0;
  event_count = 0;
}

-- It owns a reliable frame of three bytes, not yet peeked.
abbrev pub loaded : Root
loaded = record quiet {
  session = record session {
    reliable_state = ReliableState.ready;
    retained_reliable_frame_type = FrameType.initiate;
    retained_transmit_sequence = 0xffff;
  };
  encoded_output_size = 3;
}

-- It transmitted that frame shortly before its clock wrapped.
abbrev pub waiting : Root
waiting = record quiet {
  session = record session {
    reliable_state = ReliableState.awaiting_ack;
    retained_reliable_frame_type = FrameType.initiate;
    retained_transmit_sequence = 0xffff;
    reliable_last_committed_ms = 0xffff_fff0;
  };
  encoded_output_size = 3;
}

-- A control item of two bytes waits beside the reliable frame.
abbrev pub both : Root
both = record loaded {
  control_output =
      8 ∷ 6 ∷ 0 ∷ 0 ∷ 0 ∷ 0 ∷ 0 ∷ 0 ∷ 0 ∷ 0 ∷ 0 ∷ 0 ∷ 0 ∷ 0 ∷ 0 ∷ 0 ∷ 0 ∷ 0 ∷ 0 ∷ 0 ∷ [];
  control_output_size = 2;
  control_output_state = ControlOutputState.ready;
}

abbrev pub reset_event : Event
reset_event = record {
  type = EventType.session_reset;
  status = Status.delivery_failed;
  failure = Failure.delivery;
  required_capacity = 0;
}

-- Two events, round the end of the ring.
abbrev pub eventful : Root
eventful = record quiet {
  event_queue = reset_event ∷ no_event ∷ no_event ∷ reset_event ∷ [];
  event_read_index = 3;
  event_count = 2;
}

-- The encoding of COBS for inputs that have no run of 254 nonzero bytes, and its decoding.
prepend : ℕ → List ℕ → List ℕ
prepend b [] = []
prepend b (code ∷ rest) = (code + 1) ∷ b ∷ rest

unfoldable pub stuff : List ℕ → List ℕ
unfolding prepend
stuff [] = 1 ∷ []
stuff (b ∷ bytes) = let rest = stuff bytes in if b == 0 then 1 ∷ rest else prepend b rest

unfoldable pub unblock : ℕ → List ℕ → List ℕ
unblock left [] = []
unblock zero (code ∷ bytes) = 0 ∷ unblock (code - 1) bytes
unblock (suc left) (b ∷ bytes) = b ∷ unblock left bytes

unfoldable pub unstuff : List ℕ → List ℕ
unfolding unblock
unstuff [] = []
unstuff (code ∷ bytes) = unblock (code - 1) bytes

unfoldable pub cobs : Cobs
cobs = record {
  encode = λ out size raw. record {
    status = EncodeStatus.ok;
    out_len = length (stuff raw);
    output = stuff raw ++ drop (length (stuff raw)) out;
  };
  decode = λ size wire. record { status = 0; decoded = unstuff wire };
}

prepend-Blocks :
    (b : ℕ) {raw wire : List ℕ}
    → b ≢ 0
    → length raw + 1 < 254
    → Blocks raw wire
    → Blocks (b ∷ raw) (prepend b wire)
unfolding prepend
prepend-Blocks b one h (Blocks.last bytes nonzero k) =
    subst (λ n. Blocks (b ∷ bytes) (n ∷ b ∷ bytes)) (omega arith)
      (Blocks.last (b ∷ bytes) (one, nonzero) (omega arith))
prepend-Blocks b one h (Blocks.zero_after bytes {raw} {wire} nonzero k rest) =
    subst (λ n. Blocks (b ∷ (bytes ++ (0 ∷ raw))) (n ∷ b ∷ (bytes ++ wire))) (omega arith)
      (Blocks.zero_after (b ∷ bytes) (one, nonzero)
        (omega (arith, h, length-append bytes (0 ∷ raw))) rest)
prepend-Blocks b one h (Blocks.full bytes {raw} {wire} nonzero k more rest) =
    absurd (omega (arith, length-append bytes raw))

-- Its encodings have the format of COBS.
stuff-Blocks : (raw : List ℕ) → length raw < 254 → Blocks raw (stuff raw)
unfolding stuff
stuff-Blocks [] h = Blocks.last [] tt (omega arith)
stuff-Blocks (b ∷ bytes) h =
    let rest = stuff-Blocks bytes (omega (arith, h)) in
    let split : (b ≡ 0) ⊎ (b ≢ 0) = omega arith in
    elim split [
      | inl e ↦ rw e (Blocks.zero_after [] tt (omega arith) rest)
      | inr one ↦
          let plain : (b == 0) ≡ false = ground (arith, one) in
          rw plain (prepend-Blocks b one (omega (arith, h)) rest)
    ]

pub stuff-Encodes :
    (raw wire : List ℕ)
    → stuff raw ≡ wire
    → unstuff wire ≡ raw
    → length raw < 254
    → Encodes cobs raw wire
unfolding cobs
stuff-Encodes raw wire e d short = record {
  blocks = subst (Blocks raw) e (stuff-Blocks raw short);
  encoded = λ out h.
      ap
        (λ w. record {
          status = EncodeStatus.ok;
          out_len = length w;
          output = w ++ drop (length w) out;
        })
        e;
  decoded = λ n h. ap (λ b. record { status = 0; decoded = b }) d;
}

abbrev wide_config : Config
wide_config = record config { max_encoded_frame_size = 24 }

-- A host that has an INITIATE to publish, from sequence 0xffff on.
abbrev pub calling : Root
calling = record quiet {
  base = record (quiet.base) { config = wide_config; session_state = SessionState.connecting };
  session = record session {
    state = SessionState.connecting;
    handshake_phase = HandshakePhase.initiate_pending;
    session_identifier = 7;
    session_identifier_valid = 1;
    next_host_session_identifier = 8;
  };
  parser = record parser {
    scratch_buffer =
        0 ∷ 0 ∷ 0 ∷ 0 ∷ 0 ∷ 0 ∷ 0 ∷ 0 ∷ 0 ∷ 0 ∷ 0 ∷ 0 ∷ 0 ∷ 0 ∷ 0 ∷ 0 ∷ 0 ∷ 0 ∷ 0 ∷ 0 ∷ 0 ∷ 0 ∷ 0
        ∷ [];
    scratch_buffer_size = 23;
  };
  encoded_output =
      0 ∷ 0 ∷ 0 ∷ 0 ∷ 0 ∷ 0 ∷ 0 ∷ 0 ∷ 0 ∷ 0 ∷ 0 ∷ 0 ∷ 0 ∷ 0 ∷ 0 ∷ 0 ∷ 0 ∷ 0 ∷ 0 ∷ 0 ∷ 0 ∷ 0 ∷ 0 ∷ 0
      ∷ [];
  encoded_output_capacity = 24;
}

-- A rig that waits for it, from sequence 5 on.
abbrev pub called : Root
called = record calling {
  base = record (calling.base) { role = Role.rig };
  session = record (calling.session) {
    role = Role.rig;
    handshake_phase = HandshakePhase.waiting_for_initiate;
    session_identifier = 0;
    session_identifier_valid = 0;
    next_host_session_identifier = 0;
    next_transmit_sequence = 5;
  };
}

-- A rig whose session 7 is established, and which expects sequence 9 after a CONFIRM.
abbrev pub talking : Root
talking = record called {
  base = record (called.base) {
    session_state = SessionState.established;
    last_failure = Failure.none;
  };
  session = record (called.session) {
    state = SessionState.established;
    handshake_phase = HandshakePhase.established;
    session_identifier = 7;
    session_identifier_valid = 1;
    expected_receive_sequence = 9;
    last_accepted_receive_sequence = 8;
    accepted_receive_sequence_valid = 1;
    last_accepted_receive_frame_type = FrameType.confirm;
    last_failure = Failure.none;
  };
}

-- The message that its peer sends next.
abbrev pub greeting : Frame
greeting = record {
  type = FrameType.application_message;
  session_identifier = 7;
  sequence = 9;
  acknowledgement_sequence = 0;
  payload = 8 ∷ 0 ∷ 255 ∷ [];
}

abbrev pub greeting_wire : List ℕ
greeting_wire =
    4 ∷ 1 ∷ 4 ∷ 7 ∷ 1 ∷ 1 ∷ 1 ∷ 1 ∷ 1 ∷ 1 ∷ 2 ∷ 9 ∷ 1 ∷ 1 ∷ 2 ∷ 8 ∷ 6 ∷ 255 ∷ 133 ∷ 130 ∷ 240 ∷ 183
    ∷ []

-- The ACK of it.
abbrev pub reply_wire : List ℕ
reply_wire = 4 ∷ 1 ∷ 5 ∷ 7 ∷ 1 ∷ 1 ∷ 1 ∷ 1 ∷ 1 ∷ 1 ∷ 1 ∷ 1 ∷ 2 ∷ 9 ∷ 5 ∷ 100 ∷ 121 ∷ 193 ∷ 244 ∷ []

pub greeting-Encodes : Encodes cobs (serialize greeting) greeting_wire
unfolding serialize covered header write_u64_le write_bytes write_u16_le write_u32_le crc32_compute
    crc32_update crc32_init crc32_finish crc32_byte crc32_nibble crc32_nibble_table exact_cobs_size
    size_loop size_step stuff unstuff unblock
greeting-Encodes = stuff-Encodes (serialize greeting) greeting_wire refl refl (omega arith)

pub reply-Encodes :
    Encodes cobs
      (serialize
        (handshake_frame FrameType.ack talking.session.session_identifier 0 greeting.sequence))
      reply_wire
unfolding serialize covered header write_u64_le write_bytes write_u16_le write_u32_le crc32_compute
    crc32_update crc32_init crc32_finish crc32_byte crc32_nibble crc32_nibble_table exact_cobs_size
    size_loop size_step stuff unstuff unblock handshake_frame
reply-Encodes =
    stuff-Encodes
      (serialize
        (handshake_frame FrameType.ack talking.session.session_identifier 0 greeting.sequence))
      reply_wire refl refl (omega arith)

pub talking-HasScratch : HasScratch talking
talking-HasScratch = record { scratch = omega arith; bounded = omega arith }

pub talking-IsValid : ControlValidity.IsValid talking
unfolding Control.validate_state
talking-IsValid = record { consistent = refl; slot = refl }

pub greeting-Expects : Expects talking greeting
unfolding session_is_established has_required_storage classify_sequence
greeting-Expects = record {
  established = refl;
  storage = refl;
  free = refl;
  empty = refl;
  room = omega arith;
  message = refl;
  plain = refl;
  some_payload = omega arith;
  fits = omega arith;
  same_session = refl;
  next = refl;
  in_range = omega arith;
}
