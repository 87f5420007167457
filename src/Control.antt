-- ===== src/Control.antt =====
-- src/transport/internal/mvp/transport_control_output_mvp.c: the slot for one encoded control item.
-- The root and the output parameters are there; a null `out_buffer` is `none`.
pub mod Validity
pub mod Slot
mod Tests
use hil_rig_protocol.Common.{
  ℕ, List, [], ◌∷◌, Bool, true, false, not, ◌&&◌, ◌||◌, take, memcpy, equal_bytes,
}
use hil_rig_protocol.Common.{ltb, leb, ◌==◌, ◌!=◌, ◌is◌, ◌isnt◌, if◌then◌else◌, Option, none, some}
use hil_rig_protocol.Types.{Status, status_enum}
use hil_rig_protocol.Root.{Root, Reply, Peek, ControlOutputState, control_output_state_enum}
use hil_rig_protocol.Root.{record_fault, control_output_capacity}

unfoldable pub record_invariant_failure : Root → Reply
unfolding record_fault
record_invariant_failure r = (Status.internal_error, record_fault r)

-- The `case` of an item that is held.
unfoldable pub validate_item : Root → Reply
unfolding record_invariant_failure
validate_item r =
    if (r.control_output_size != 0) && leb r.control_output_size control_output_capacity
    then (Status.ok, r)
    else record_invariant_failure r

unfoldable pub validate_state : Root → Reply
unfolding validate_item
validate_state r = elim r.control_output_state [
  | ControlOutputState.idle ↦
      if r.control_output_size == 0 then (Status.ok, r) else record_invariant_failure r
  | ControlOutputState.ready ↦ validate_item r
  | ControlOutputState.peeked ↦ validate_item r
]

unfoldable pub publish_encoded : Root → List ℕ → ℕ → Reply
publish_encoded r item size =
    if (size == 0) || ltb control_output_capacity size
    then (Status.invalid_argument, r)
    else let (status, r') = validate_state r in
      if status isnt Status.ok
      then (status, r')
      else if r'.control_output_state is ControlOutputState.idle
      then (
        Status.ok,
        record r' {
          control_output = memcpy r'.control_output item size;
          control_output_size = size;
          control_output_state = ControlOutputState.ready;
        },
      )
      else if (r'.control_output_size == size)
          && equal_bytes (take size r'.control_output) (take size item)
      then (Status.ok, r')
      else (Status.not_ready, r')

-- The end of a peek, once there is an item to show.
unfoldable pub copy_item : Root → Option (List ℕ) → ℕ → Peek
copy_item r none out_size = record {
  status = Status.buffer_too_small;
  out_buffer = none;
  output_size = r.control_output_size;
  root = r;
}
copy_item r (some out) out_size =
    if ltb out_size r.control_output_size
    then record {
      status = Status.buffer_too_small;
      out_buffer = some out;
      output_size = r.control_output_size;
      root = r;
    }
    else record {
      status = Status.ok;
      out_buffer = some (memcpy out r.control_output r.control_output_size);
      output_size = r.control_output_size;
      root = record r { control_output_state = ControlOutputState.peeked };
    }

-- `( out_buffer == NULL ) && ( out_buffer_size != 0u )`
abbrev pub null_with_size : Option (List ℕ) → ℕ → Bool
null_with_size none out_size = out_size != 0
null_with_size (some out) out_size = false

unfoldable pub peek_output : Root → Option (List ℕ) → ℕ → Peek
unfolding copy_item
peek_output r out out_size =
    if null_with_size out out_size
    then record { status = Status.invalid_argument; out_buffer = out; output_size = 0; root = r }
    else let (status, r') = validate_state r in
      if status isnt Status.ok
      then record { status = status; out_buffer = out; output_size = 0; root = r' }
      else if r'.control_output_state is ControlOutputState.idle
      then record { status = Status.not_ready; out_buffer = out; output_size = 0; root = r' }
      else copy_item r' out out_size

-- What `commit_output` and `reset` write.
unfoldable pub release : Root → Root
release r = record r { control_output_size = 0; control_output_state = ControlOutputState.idle }

unfoldable pub commit_output : Root → Reply
unfolding release
commit_output r =
    let (status, r') = validate_state r in
    if status isnt Status.ok
    then (status, r')
    else if r'.control_output_state isnt ControlOutputState.peeked
    then (Status.not_ready, r')
    else (Status.ok, release r')

unfoldable pub reset : Root → Reply
unfolding release
reset r = (Status.ok, release r)

unfoldable pub get_pending_status : Root → Status × Bool × Root
get_pending_status r =
    let (status, r') = validate_state r in
    if status isnt Status.ok
    then (status, false, r')
    else (Status.ok, r'.control_output_state isnt ControlOutputState.idle, r')
