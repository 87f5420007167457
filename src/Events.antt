-- ===== src/Events.antt =====
-- src/transport/internal/mvp/transport_events_mvp.c: the bounded FIFO of high-level events.
-- The root, the event and the destination are there: null pointers have no case. A destination is
-- an option, `none` where the call leaves it untouched.
pub mod Entries
pub mod Fifo
mod Tests
use hil_rig_protocol.Common.{
  ℕ, zero, suc, ◌+◌, ◌-◌, ◌%◌, List, [], ◌∷◌, Bool, true, false, not, ◌&&◌, ◌||◌,
}
use hil_rig_protocol.Common.{
  ltb, leb, ◌==◌, ◌!=◌, ◌isnt◌, if◌then◌else◌, get_or, set, Option, none, some,
}
use hil_rig_protocol.Types.{Status, EventType, Failure, Event, event_type_value, status_enum}
use hil_rig_protocol.Root.{Root, Reply, record_fault, event_queue_capacity}

unfoldable pub record_invariant_failure : Root → Reply
unfolding record_fault
record_invariant_failure r = (Status.internal_error, record_fault r)

-- Only the test on `HIL_TRANSPORT_EVENT_NONE` can fail on an event of the model.
unfoldable pub value_is_valid : Event → Bool
value_is_valid e = ltb (event_type_value EventType.none) (event_type_value e.type)

-- What a slot holds that was never written: a zeroed event.
abbrev pub no_event : Event
no_event = record {
  type = EventType.none;
  status = Status.ok;
  failure = Failure.none;
  required_capacity = 0;
}

-- The loop of `validate_state`, over the offsets from `offset` on.
unfoldable pub slots_are_valid : List Event → ℕ → ℕ → ℕ → Bool
unfolding value_is_valid
slots_are_valid queue read_index offset zero = true
slots_are_valid queue read_index offset (suc left) =
    value_is_valid (get_or queue ((read_index + offset) % event_queue_capacity) no_event)
    && slots_are_valid queue read_index (offset + 1) left

unfoldable pub validate_state : Root → Reply
unfolding record_invariant_failure
validate_state r =
    if leb event_queue_capacity r.event_read_index || ltb event_queue_capacity r.event_count
    then record_invariant_failure r
    else if slots_are_valid r.event_queue r.event_read_index 0 r.event_count
    then (Status.ok, r)
    else record_invariant_failure r

unfoldable pub publish : Root → Event → Reply
publish r event =
    if not (value_is_valid event)
    then (Status.invalid_argument, r)
    else let (status, r') = validate_state r in
      if status isnt Status.ok
      then (status, r')
      else if r'.event_count == event_queue_capacity
      then (Status.capacity_exhausted, r')
      else (
        Status.ok,
        record r' {
          event_queue =
              set r'.event_queue ((r'.event_read_index + r'.event_count) % event_queue_capacity)
                event;
          event_count = r'.event_count + 1;
        },
      )

unfoldable pub check_capacity : Root → Reply
check_capacity r =
    let (status, r') = validate_state r in
    if status isnt Status.ok
    then (status, r')
    else if r'.event_count == event_queue_capacity
    then (Status.capacity_exhausted, r')
    else (Status.ok, r')

unfoldable pub read : Root → Status × Option Event × Root
read r =
    let (status, r') = validate_state r in
    if status isnt Status.ok
    then (status, none, r')
    else if r'.event_count == 0
    then (Status.not_ready, none, r')
    else (
      Status.ok,
      some (get_or r'.event_queue r'.event_read_index no_event),
      record r' {
        event_count = r'.event_count - 1;
        event_read_index =
            if r'.event_count - 1 == 0 then 0 else (r'.event_read_index + 1) % event_queue_capacity;
      },
    )

unfoldable pub reset : Root → Reply
reset r = (Status.ok, record r { event_read_index = 0; event_count = 0 })

unfoldable pub get_pending_status : Root → Status × Bool × Root
get_pending_status r =
    let (status, r') = validate_state r in
    if status isnt Status.ok then (status, false, r') else (Status.ok, r'.event_count != 0, r')
