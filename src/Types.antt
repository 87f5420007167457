-- ===== src/Types.antt =====
-- include/hil_rig_protocol/transport/transport_types.h: the enumerations and the event of the public
-- Transport interface. An enumeration holds one of its enumerators, so the range checks of the C
-- code on such fields have no case here. `value` is the number that C gives the enumerator.
use hil_rig_protocol.Common.{ℕ, Enum}

-- `HIL_Transport_Status_T`
pub data Status : Type 0 where
  ok invalid_argument buffer_too_small unsupported_configuration message_too_large
        capacity_exhausted delivery_failed timeout not_ready not_implemented internal_error :
      Status

abbrev pub status_value : Status → ℕ
status_value Status.ok = 0
status_value Status.invalid_argument = 1
status_value Status.buffer_too_small = 2
status_value Status.unsupported_configuration = 3
status_value Status.message_too_large = 4
status_value Status.capacity_exhausted = 5
status_value Status.delivery_failed = 6
status_value Status.timeout = 7
status_value Status.not_ready = 8
status_value Status.not_implemented = 9
status_value Status.internal_error = 10

instance abbrev pub status_enum : Enum Status
status_enum = record { value = status_value }

-- `HIL_Transport_Role_T`
pub data Role : Type 0 where
  host rig : Role

abbrev pub role_value : Role → ℕ
role_value Role.host = 0
role_value Role.rig = 1

instance abbrev pub role_enum : Enum Role
role_enum = record { value = role_value }

-- `HIL_Transport_Link_State_T`
pub data LinkState : Type 0 where
  disconnected connected : LinkState

abbrev pub link_state_value : LinkState → ℕ
link_state_value LinkState.disconnected = 0
link_state_value LinkState.connected = 1

instance abbrev pub link_state_enum : Enum LinkState
link_state_enum = record { value = link_state_value }

-- `HIL_Transport_Session_State_T`
pub data SessionState : Type 0 where
  disconnected connecting established recovering fault : SessionState

abbrev pub session_state_value : SessionState → ℕ
session_state_value SessionState.disconnected = 0
session_state_value SessionState.connecting = 1
session_state_value SessionState.established = 2
session_state_value SessionState.recovering = 3
session_state_value SessionState.fault = 4

instance abbrev pub session_state_enum : Enum SessionState
session_state_enum = record { value = session_state_value }

-- `HIL_Transport_Failure_T`
pub data Failure : Type 0 where
  none link_lost connection_timeout delivery protocol capacity local_reset internal : Failure

abbrev pub failure_value : Failure → ℕ
failure_value Failure.none = 0
failure_value Failure.link_lost = 1
failure_value Failure.connection_timeout = 2
failure_value Failure.delivery = 3
failure_value Failure.protocol = 4
failure_value Failure.capacity = 5
failure_value Failure.local_reset = 6
failure_value Failure.internal = 7

instance abbrev pub failure_enum : Enum Failure
failure_enum = record { value = failure_value }

-- `HIL_Transport_Event_Type_T`
pub data EventType : Type 0 where
  none session_established session_reset delivery_confirmed delivery_failed protocol_error
        capacity_exhausted link_state_changed :
      EventType

abbrev pub event_type_value : EventType → ℕ
event_type_value EventType.none = 0
event_type_value EventType.session_established = 1
event_type_value EventType.session_reset = 2
event_type_value EventType.delivery_confirmed = 3
event_type_value EventType.delivery_failed = 4
event_type_value EventType.protocol_error = 5
event_type_value EventType.capacity_exhausted = 6
event_type_value EventType.link_state_changed = 7

instance abbrev pub event_type_enum : Enum EventType
event_type_enum = record { value = event_type_value }

-- `HIL_Transport_Event_T`
pub record Event : Type 0 where
  pub type : EventType
  pub status : Status
  pub failure : Failure
  pub required_capacity : ℕ

-- `HIL_TRANSPORT_SESSION_SEED_INVALID` and `HIL_TRANSPORT_SESSION_SEED_RESERVED`
abbrev pub session_seed_invalid : ℕ
session_seed_invalid = 0

abbrev pub session_seed_reserved : ℕ
session_seed_reserved = 0xffff_ffff_ffff_ffff
