-- ===== src/Reliability.antt =====
-- src/transport/internal/mvp/transport_reliability_mvp.c: the one reliable encoded frame, from its
-- publication to its acknowledgement, with timed retries. Times are `uint32_t`.
pub mod Validity
pub mod Delivery
pub mod Loading
pub mod Steps
pub mod Retry
mod Tests
use hil_rig_protocol.Common.{
  ℕ, ◌+◌, ◌-◌, ◌^◌, ◌%◌, u16, u32, List, [], ◌∷◌, Bool, true, false, not, ◌&&◌, ◌||◌,
}
use hil_rig_protocol.Common.{
  ltb, leb, ◌==◌, ◌!=◌, ◌is◌, ◌isnt◌, if◌then◌else◌, Option, none, some, memcpy, Enum,
}
use hil_rig_protocol.Types.{Status, status_enum}
use hil_rig_protocol.Root.{Root, Reply, Peek, ReliableState, reliable_state_enum, FrameType}
use hil_rig_protocol.Root.{frame_type_enum, record_fault}
use hil_rig_protocol.Control.{null_with_size}
use hil_rig_protocol.Sequence.{AckResult, ack_result_enum, classify_acknowledgement}

-- `HIL_Transport_Mvp_Reliability_Outcome_T`
pub data Outcome : Type 0 where
  no_change retransmit_ready acknowledged retries_exhausted : Outcome

abbrev pub outcome_value : Outcome → ℕ
outcome_value Outcome.no_change = 0
outcome_value Outcome.retransmit_ready = 1
outcome_value Outcome.acknowledged = 2
outcome_value Outcome.retries_exhausted = 3

instance abbrev pub outcome_enum : Enum Outcome
outcome_enum = record { value = outcome_value }

unfoldable pub is_reliable_type : FrameType → Bool
is_reliable_type t =
    (t is FrameType.initiate)
    || (t is FrameType.response)
    || (t is FrameType.confirm)
    || (t is FrameType.application_message)

unfoldable pub has_storage : Root → Bool
has_storage r =
    (r.encoded_output_capacity != 0)
    && (r.encoded_output_capacity == r.base.config.max_encoded_frame_size)

unfoldable pub record_invariant_failure : Root → Reply
unfolding record_fault
record_invariant_failure r = (Status.internal_error, record_fault r)

unfoldable pub clear_metadata : Root → Root
clear_metadata r = record r {
  session = record (r.session) {
    reliable_state = ReliableState.idle;
    retained_reliable_frame_type = FrameType.invalid;
    retained_transmit_sequence = 0;
    retransmissions_committed = 0;
    reliable_last_committed_ms = 0;
  };
  encoded_output_size = 0;
}

unfoldable pub validate_state : Root → Reply
unfolding record_invariant_failure is_reliable_type
validate_state r =
    let s = r.session in
    let state = r.session.reliable_state in
    let max_retries = r.base.config.max_retries in
    if ltb max_retries s.retransmissions_committed
    then record_invariant_failure r
    else if state is ReliableState.idle
    then (if (r.encoded_output_size != 0)
          || (s.retained_reliable_frame_type isnt FrameType.invalid)
          || (s.retained_transmit_sequence != 0)
          || (s.retransmissions_committed != 0)
          || (s.reliable_last_committed_ms != 0)
        then record_invariant_failure r
        else (Status.ok, r))
    else if (r.encoded_output_size == 0)
        || ltb r.encoded_output_capacity r.encoded_output_size
        || not (is_reliable_type s.retained_reliable_frame_type)
        || (s.retained_transmit_sequence != s.next_transmit_sequence)
    then record_invariant_failure r
    else if ((state is ReliableState.ready) || (state is ReliableState.peeked))
        && ((s.retransmissions_committed != 0) || (s.reliable_last_committed_ms != 0))
    then record_invariant_failure r
    else if ((state is ReliableState.retransmit_ready)
          || (state is ReliableState.retransmit_peeked))
        && leb max_retries s.retransmissions_committed
    then record_invariant_failure r
    else if (state is ReliableState.exhausted) && (s.retransmissions_committed != max_retries)
    then record_invariant_failure r
    else (Status.ok, r)

unfoldable pub publish_encoded : Root → FrameType → ℕ → ℕ → Reply
unfolding has_storage is_reliable_type
publish_encoded r frame_type sequence encoded_size =
    if not (has_storage r)
    then (Status.invalid_argument, r)
    else let (status, r') = validate_state r in
      if status isnt Status.ok
      then (status, r')
      else if r'.session.reliable_state isnt ReliableState.idle
      then (Status.not_ready, r')
      else if (encoded_size == 0)
          || ltb r'.encoded_output_capacity encoded_size
          || not (is_reliable_type frame_type)
          || (sequence != r'.session.next_transmit_sequence)
      then (Status.invalid_argument, r')
      else (
        Status.ok,
        record r' {
          session = record (r'.session) {
            retained_reliable_frame_type = frame_type;
            retained_transmit_sequence = sequence;
            retransmissions_committed = 0;
            reliable_last_committed_ms = 0;
            reliable_state = ReliableState.ready;
          };
          encoded_output_size = encoded_size;
        },
      )

-- The state that a complete peek leaves.
unfoldable pub pin : ReliableState → ReliableState
pin ReliableState.ready = ReliableState.peeked
pin ReliableState.retransmit_ready = ReliableState.retransmit_peeked
pin state = state

-- The end of a peek, once there is a frame to show.
unfoldable pub copy_frame : Root → Option (List ℕ) → ℕ → Peek
unfolding pin
copy_frame r none out_size = record {
  status = Status.buffer_too_small;
  out_buffer = none;
  output_size = r.encoded_output_size;
  root = r;
}
copy_frame r (some out) out_size =
    if ltb out_size r.encoded_output_size
    then record {
      status = Status.buffer_too_small;
      out_buffer = some out;
      output_size = r.encoded_output_size;
      root = r;
    }
    else record {
      status = Status.ok;
      out_buffer = some (memcpy out r.encoded_output r.encoded_output_size);
      output_size = r.encoded_output_size;
      root = record r {
        session = record (r.session) { reliable_state = pin r.session.reliable_state };
      };
    }

unfoldable pub peek_output : Root → Option (List ℕ) → ℕ → Peek
unfolding has_storage copy_frame
peek_output r out out_size =
    if null_with_size out out_size || not (has_storage r)
    then record { status = Status.invalid_argument; out_buffer = out; output_size = 0; root = r }
    else let (status, r') = validate_state r in
      if status isnt Status.ok
      then record { status = status; out_buffer = out; output_size = 0; root = r' }
      else if (r'.session.reliable_state is ReliableState.idle)
          || (r'.session.reliable_state is ReliableState.awaiting_ack)
          || (r'.session.reliable_state is ReliableState.exhausted)
      then record { status = Status.not_ready; out_buffer = out; output_size = 0; root = r' }
      else copy_frame r' out out_size

-- `++root->session.retransmissions_committed`, a `uint8_t`, when a retry was pinned.
abbrev pub count_retry : ReliableState → ℕ → ℕ
count_retry ReliableState.retransmit_peeked n = (n + 1) % 256
count_retry state n = n

unfoldable pub commit_output : Root → ℕ → Reply
unfolding has_storage
commit_output r now_ms =
    if not (has_storage r)
    then (Status.invalid_argument, r)
    else let (status, r') = validate_state r in
      if status isnt Status.ok
      then (status, r')
      else if (r'.session.reliable_state isnt ReliableState.peeked)
          && (r'.session.reliable_state isnt ReliableState.retransmit_peeked)
      then (Status.not_ready, r')
      else (
        Status.ok,
        record r' {
          session = record (r'.session) {
            retransmissions_committed =
                count_retry r'.session.reliable_state r'.session.retransmissions_committed;
            reliable_last_committed_ms = now_ms;
            reliable_state = ReliableState.awaiting_ack;
          };
        },
      )

-- What `accept_acknowledgement` leaves: its status, the two values written, and the endpoint.
pub record Acknowledged : Type 0 where
  pub status : Status
  pub completed_frame_type : FrameType
  pub outcome : Outcome
  pub root : Root

abbrev pub unacknowledged : Status → Root → Acknowledged
unacknowledged status r = record {
  status = status;
  completed_frame_type = FrameType.invalid;
  outcome = Outcome.no_change;
  root = r;
}

-- `classify_acknowledgement` reports no error on the model's states, so the fault that the code
-- records for one has no case.
unfoldable pub accept_acknowledgement : Root → ℕ → Acknowledged
unfolding has_storage clear_metadata classify_acknowledgement
accept_acknowledgement r sequence =
    if not (has_storage r)
    then unacknowledged Status.invalid_argument r
    else let (status, r') = validate_state r in
      if status isnt Status.ok
      then unacknowledged status r'
      else if (classify_acknowledgement r'.session sequence).1 isnt AckResult.matched
      then unacknowledged Status.ok r'
      else record {
        status = Status.ok;
        completed_frame_type = r'.session.retained_reliable_frame_type;
        outcome = Outcome.acknowledged;
        root = clear_metadata (record r' {
          session = record (r'.session) {
            next_transmit_sequence = u16 (r'.session.retained_transmit_sequence + 1);
          };
        });
      }

-- The end of a wait: one more retry, or none left.
unfoldable pub expire : Root → Status × Outcome × Root
expire r =
    if ltb r.session.retransmissions_committed r.base.config.max_retries
    then (
      Status.ok,
      Outcome.retransmit_ready,
      record r { session = record (r.session) { reliable_state = ReliableState.retransmit_ready } },
    )
    else (
      Status.ok,
      Outcome.retries_exhausted,
      record r { session = record (r.session) { reliable_state = ReliableState.exhausted } },
    )

-- `now_ms - reliable_last_committed_ms` in `uint32_t`
abbrev pub elapsed_ms : ℕ → ℕ → ℕ
elapsed_ms now_ms since_ms = u32 (now_ms + 2 ^ 32 - since_ms)

unfoldable pub process_pending : Root → ℕ → Status × Outcome × Root
unfolding has_storage
process_pending r now_ms =
    if not (has_storage r)
    then (Status.invalid_argument, Outcome.no_change, r)
    else let (status, r') = validate_state r in
      if status isnt Status.ok
      then (status, Outcome.no_change, r')
      else if (r'.session.reliable_state isnt ReliableState.awaiting_ack)
          || (r'.base.config.retransmit_timeout_ms == 0)
      then (Status.ok, Outcome.no_change, r')
      else if ltb (elapsed_ms now_ms r'.session.reliable_last_committed_ms)
          r'.base.config.retransmit_timeout_ms
      then (Status.ok, Outcome.no_change, r')
      else expire r'

unfoldable pub request_retransmission : Root → FrameType → Status × Outcome × Root
unfolding has_storage is_reliable_type
request_retransmission r expected_frame_type =
    if not (has_storage r) || not (is_reliable_type expected_frame_type)
    then (Status.invalid_argument, Outcome.no_change, r)
    else let (status, r') = validate_state r in
      if status isnt Status.ok
      then (status, Outcome.no_change, r')
      else if r'.session.reliable_state is ReliableState.idle
      then (Status.ok, Outcome.no_change, r')
      else if r'.session.retained_reliable_frame_type isnt expected_frame_type
      then (let (failed, r'') = record_invariant_failure r' in (failed, Outcome.no_change, r''))
      else if r'.session.reliable_state isnt ReliableState.awaiting_ack
      then (Status.ok, Outcome.no_change, r')
      else expire r'

unfoldable pub reset : Root → Reply
unfolding has_storage clear_metadata
reset r =
    if not (has_storage r) then (Status.invalid_argument, r) else (Status.ok, clear_metadata r)

-- The status, whether output and whether delivery is pending, and the endpoint.
unfoldable pub get_pending_status : Root → Status × Bool × Bool × Root
unfolding has_storage
get_pending_status r =
    if not (has_storage r)
    then (Status.invalid_argument, false, false, r)
    else let (status, r') = validate_state r in
      if status isnt Status.ok then (status, false, false, r') else (
        Status.ok,
        (r'.session.reliable_state is ReliableState.ready)
            || (r'.session.reliable_state is ReliableState.peeked)
            || (r'.session.reliable_state is ReliableState.retransmit_ready)
            || (r'.session.reliable_state is ReliableState.retransmit_peeked),
        r'.session.reliable_state isnt ReliableState.idle,
        r',
      )
