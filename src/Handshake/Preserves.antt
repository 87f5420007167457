-- ===== src/Handshake/Preserves.antt =====
-- The calls of an establishment keep its endpoints in it.
use hil_rig_protocol.Common.{ℕ, ◌+◌, ◌<◌, ◌≡◌, refl, arith, List, length, true}
use hil_rig_protocol.Types.{status_enum, Role, role_enum, link_state_enum, session_state_enum}
use hil_rig_protocol.Root.{
  Root, HandshakePhase, handshake_phase_enum, FrameType, frame_type_enum, ReliableState,
  control_output_capacity,
}
use hil_rig_protocol.Codec.{Frame}
use hil_rig_protocol.Events.Fifo.{IsValid-ring}
use hil_rig_protocol.Reliability.{clear_metadata, is_reliable_type}
use hil_rig_protocol.Reliability.Validity as ReliabilityValidity
use hil_rig_protocol.Reliability.Loading.{
  loaded, loaded-IsValid, transmitted, transmitted-IsValid, IsValid-frame,
}
use hil_rig_protocol.Control.Validity as ControlValidity
use hil_rig_protocol.Handshake.{set_phase}
use hil_rig_protocol.Handshake.Rig.{bind_session}
use hil_rig_protocol.Handshake.Sends.{with_output, with_output-IsValid}
use hil_rig_protocol.Handshake.Accepts.{acknowledged, remembered}
use hil_rig_protocol.Handshake.Connecting.{Connecting, acknowledged-IsValid}

-- The endpoint that has published a frame of the handshake, and waits for the answer.
unfoldable pub published : FrameType → HandshakePhase → List ℕ → Root → Root
published t phase wire r = set_phase (loaded t (length wire + 1) (with_output wire r)) phase

pub published-IsValid :
    {r : Root} (t : FrameType) (phase : HandshakePhase) (wire : List ℕ)
    → ReliabilityValidity.IsValid r
    → r.session.reliable_state ≡ ReliableState.idle
    → is_reliable_type t ≡ true
    → length wire < r.encoded_output_capacity
    → ReliabilityValidity.IsValid (published t phase wire r)
unfolding published set_phase loaded with_output
published-IsValid {r} t phase wire v idle reliable h =
    let loaded_ =
      loaded-IsValid t (length wire + 1) (with_output-IsValid wire v h) idle reliable (omega arith)
        (omega arith) in
    IsValid-frame (published t phase wire r) loaded_ refl refl refl refl refl refl refl refl refl
      refl

pub published-Connecting :
    {role : Role} {r : Root} (t : FrameType) (phase : HandshakePhase) (wire : List ℕ)
    → Connecting role r
    → r.session.reliable_state ≡ ReliableState.idle
    → is_reliable_type t ≡ true
    → length wire < control_output_capacity
    → Connecting role (published t phase wire r)
unfolding published set_phase loaded with_output
published-Connecting {role} {r} t phase wire c idle reliable h = record {
  base_role = c.base_role;
  session_role = c.session_role;
  base_up = c.base_up;
  session_up = c.session_up;
  base_state = c.base_state;
  session_state = c.session_state;
  failures = c.failures;
  identified = c.identified;
  unconfirmed = c.unconfirmed;
  no_confirm = c.no_confirm;
  scratch = record { scratch = c.scratch.scratch; bounded = c.scratch.bounded };
  reliable = published-IsValid t phase wire c.reliable idle reliable (omega (arith, c.capacity, h));
  capacity = c.capacity;
  bounded = c.bounded;
  control = ControlValidity.IsValid-slot _ c.control refl refl refl;
  free = c.free;
  events = IsValid-ring _ c.events refl refl refl;
  room = c.room;
}

pub transmitted-Connecting :
    {role : Role} {r : Root} (now_ms : ℕ)
    → Connecting role r
    → r.session.reliable_state ≡ ReliableState.ready
    → Connecting role (transmitted now_ms r)
unfolding transmitted
transmitted-Connecting {role} {r} now_ms c ready = record {
  base_role = c.base_role;
  session_role = c.session_role;
  base_up = c.base_up;
  session_up = c.session_up;
  base_state = c.base_state;
  session_state = c.session_state;
  failures = c.failures;
  identified = c.identified;
  unconfirmed = c.unconfirmed;
  no_confirm = c.no_confirm;
  scratch = record { scratch = c.scratch.scratch; bounded = c.scratch.bounded };
  reliable = transmitted-IsValid now_ms c.reliable ready;
  capacity = c.capacity;
  bounded = c.bounded;
  control = ControlValidity.IsValid-slot _ c.control refl refl refl;
  free = c.free;
  events = IsValid-ring _ c.events refl refl refl;
  room = c.room;
}

pub remembered-Connecting :
    {role : Role} {r : Root} (f : Frame) (phase : HandshakePhase)
    → Connecting role r
    → Connecting role (set_phase (remembered f r) phase)
unfolding set_phase remembered
remembered-Connecting {role} {r} f phase c = record {
  base_role = c.base_role;
  session_role = c.session_role;
  base_up = c.base_up;
  session_up = c.session_up;
  base_state = c.base_state;
  session_state = c.session_state;
  failures = c.failures;
  identified = c.identified;
  unconfirmed = c.unconfirmed;
  no_confirm = c.no_confirm;
  scratch = record { scratch = c.scratch.scratch; bounded = c.scratch.bounded };
  reliable = IsValid-frame _ c.reliable refl refl refl refl refl refl refl refl refl refl;
  capacity = c.capacity;
  bounded = c.bounded;
  control = ControlValidity.IsValid-slot _ c.control refl refl refl;
  free = c.free;
  events = IsValid-ring _ c.events refl refl refl;
  room = c.room;
}

pub acknowledged-Connecting :
    {role : Role} {r : Root} → Connecting role r → Connecting role (acknowledged r)
unfolding acknowledged clear_metadata
acknowledged-Connecting {role} {r} c = record {
  base_role = c.base_role;
  session_role = c.session_role;
  base_up = c.base_up;
  session_up = c.session_up;
  base_state = c.base_state;
  session_state = c.session_state;
  failures = c.failures;
  identified = c.identified;
  unconfirmed = c.unconfirmed;
  no_confirm = c.no_confirm;
  scratch = record { scratch = c.scratch.scratch; bounded = c.scratch.bounded };
  reliable = acknowledged-IsValid c.reliable;
  capacity = c.capacity;
  bounded = c.bounded;
  control = ControlValidity.IsValid-slot _ c.control refl refl refl;
  free = c.free;
  events = IsValid-ring _ c.events refl refl refl;
  room = c.room;
}

pub bind_session-Connecting :
    {role : Role} {r : Root} (identifier : ℕ)
    → Connecting role r
    → Connecting role (bind_session r identifier)
unfolding bind_session
bind_session-Connecting {role} {r} identifier c = record {
  base_role = c.base_role;
  session_role = c.session_role;
  base_up = c.base_up;
  session_up = c.session_up;
  base_state = c.base_state;
  session_state = c.session_state;
  failures = c.failures;
  identified = omega arith;
  unconfirmed = c.unconfirmed;
  no_confirm = c.no_confirm;
  scratch = record { scratch = c.scratch.scratch; bounded = c.scratch.bounded };
  reliable = IsValid-frame _ c.reliable refl refl refl refl refl refl refl refl refl refl;
  capacity = c.capacity;
  bounded = c.bounded;
  control = ControlValidity.IsValid-slot _ c.control refl refl refl;
  free = c.free;
  events = IsValid-ring _ c.events refl refl refl;
  room = c.room;
}
