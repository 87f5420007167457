-- ===== src/Lib.antt =====
-- The MVP profile of the HIL-RIG Transport protocol, which carries messages between a host and a rig
-- over a byte stream. An endpoint is one root structure
-- (src/transport/internal/mvp/transport_types_mvp.h) that its components read and write:
--
-- - Common: the numbers, the Boolean tests of C conditions, casts, and list lemmas.
-- - Types: the enumerations and the event of
--   include/hil_rig_protocol/transport/transport_types.h.
-- - Root: the root, its session and its configuration, with the source's fields less the bytes
--   of the codec's scratch region, which every use writes before it reads. Byte regions are lists,
--   and a flag of type `uint8_t` is a number.
-- - Crc: src/transport/internal/common/transport_crc.c, the check value of frames. Bitwise has an
--   independent description of it, Chunks the use span by span, Damage replaced bytes.
-- - Parser: src/transport/internal/common/transport_parser.c, which cuts the stream at zero bytes.
--   Stream specifies it without its buffer.
-- - Events: src/transport/internal/mvp/transport_events_mvp.c, a ring of four events. Entries reads
--   the ring as a list, Fifo specifies it as a queue.
-- - Control: src/transport/internal/mvp/transport_control_output_mvp.c, the slot of one encoded ACK
--   or RESET.
-- - Sequence: the sequence numbers of src/transport/internal/mvp/transport_session_mvp.c.
-- - Reliability: src/transport/internal/mvp/transport_reliability_mvp.c, the slot of the one reliable
--   frame that waits for its acknowledgement, with its retries.
-- - Output: src/transport/internal/mvp/transport_output_mvp.c, the arbiter that shows one of both
--   slots to external I/O and pins it until it is committed.
-- - Session: the rest of src/transport/internal/mvp/transport_session_mvp.c: the start and the end
--   of sessions, explicit resets, the fault state and link notifications. It resets the output and
--   the parser, and publishes events.
-- - Codec: src/transport/internal/mvp/transport_frame_codec_mvp.c, the raw form of frames, their
--   validation and the sizes of their encodings. Cobs has the calls of
--   src/transport/internal/common/transport_cobs.c: the vendored routines are the parameter `Cobs`,
--   and `Encodes` is what their documentation says of one input, with the format of COBS in Blocks.
--   Encode and Decode are the codec's operations, Wire takes a frame through the parser, Damage reads
--   a frame with a replaced byte.
-- - Handshake: src/transport/internal/mvp/transport_handshake_mvp.c. Host and Rig have the handlers
--   of both roles, Frames the dispatch, RESET and `HIL_TRANSPORT_MVP_Handshake_Process`, Recovery the
--   local recovery. Exchange has the frames of one establishment, Crossing their bytes, Establishes both
--   endpoints together.
--   It publishes through Codec into Reliability and Control, and reports through Events.
-- - Application: src/transport/internal/mvp/transport_application_mvp.c, the message of the session:
--   its submission and acknowledgement, and in Deliver its delivery and reading. An exhausted retry
--   starts the recovery of Handshake.
-- - Receive: src/transport/internal/mvp/transport_receive_mvp.c. Bytes has the loop that feeds the
--   parser, Dispatch the way of a complete body through the codec to Handshake, Reliability and
--   Application.
-- - Profile: src/transport/internal/mvp/transport_profile_mvp.c, reset, periodic processing and
--   status, and in Init the configuration's checks and the initialisation, which Sizes and Initial
--   are about.
-- - Fixtures: concrete endpoints for the tests.
--
-- An operation takes the root and returns its status, what it writes to its output parameters, and
-- the root that it leaves: `HIL_TRANSPORT_MVP_Events_Publish` is `Events.publish`, and the other names
-- correspond likewise. A function is divided where the source's function has parts: the helpers stand
-- before it and map to the same lines. Where a module checks its own state first, the model does too,
-- and an inconsistent state leads to the fault state as in the source.
--
-- Pointers are never null, but for the caller's destination of a peek or a read, where the source
-- treats null and a capacity of 0 on purpose: that is `none`. An enumeration holds one of its
-- enumerators, so the checks that a value lies outside of it have no counterpart. Unsigned arithmetic
-- that may wrap is written out modulo its width. Loops run over lists or over a count that is
-- given, so no fuel is needed, but for the loop of the receive path: its fuel is the number of bytes,
-- and each turn that goes on consumes a byte.
--
-- Not modelled: the check of the caller's context and the operations of the profile that only make
-- it and call one component; the facade, src/transport/transport.c, which passes on; the
-- checks that pointers do not overlap, since regions are values; the Application library; the
-- extended profile, which is a placeholder; bindings, examples and tests.
pub mod Common
pub mod Crc
pub mod Types
pub mod Parser
pub mod Root
pub mod Codec
pub mod Handshake
pub mod Application
pub mod Receive
pub mod Profile
pub mod Events
pub mod Control
pub mod Sequence
pub mod Session
pub mod Reliability
pub mod Output
pub mod Fixtures
