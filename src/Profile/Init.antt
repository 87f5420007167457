-- ===== src/Profile/Init.antt =====
-- The configuration's checks and the initialisation. Addresses and the sizes of C objects are
-- numbers: a null pointer is 0.
use hil_rig_protocol.Common.{
  ℕ, zero, suc, ◌+◌, ◌-◌, ◌%◌, List, [], ◌∷◌, Bool, ◌&&◌, ◌||◌, ltb, ◌==◌, ◌!=◌, ◌is◌, ◌isnt◌,
  if◌then◌else◌, Option, none, some, size_max,
}
use hil_rig_protocol.Types.{
  Status, status_enum, Role, role_enum, LinkState, SessionState, Failure, session_seed_invalid,
  session_seed_reserved,
}
use hil_rig_protocol.Root.{
  Root, Config, OperatingMode, Session, ControlOutputState, OutputSelection,
  control_output_capacity,
}
use hil_rig_protocol.Parser
use hil_rig_protocol.Parser.{Parser}
use hil_rig_protocol.Codec.{raw_overhead, max_encoded_size}
use hil_rig_protocol.Events
use hil_rig_protocol.Events.{no_event}
use hil_rig_protocol.Session

unfoldable pub default_config : Config
default_config = record {
  max_application_message_size = 512;
  max_encoded_frame_size = 640;
  session_seed = session_seed_invalid;
  initial_reliable_sequence = 0;
  connection_timeout_ms = 0;
  retransmit_timeout_ms = 0;
  max_retries = 0;
}

unfoldable pub checked_add : ℕ → ℕ → Option ℕ
checked_add left right = if ltb (size_max - right) left then none else some (left + right)

unfoldable pub add_all : ℕ → List ℕ → Option ℕ
add_all total [] = some total
add_all total (size ∷ sizes) = elim (checked_add total size) [
  | none ↦ none
  | some total' ↦ add_all total' sizes
]

-- The regions that follow the root in the workspace, in their order.
unfoldable pub regions : Config → ℕ → List ℕ
regions c raw_scratch_size =
    c.max_application_message_size
    ∷ c.max_encoded_frame_size
    ∷ (c.max_encoded_frame_size - 1)
    ∷ raw_scratch_size
    ∷ c.max_application_message_size
    ∷ []

unfoldable pub report_size : Option ℕ → Status × ℕ
report_size none = (Status.unsupported_configuration, 0)
report_size (some total) = (Status.ok, total)

unfoldable pub sized : ℕ → Config → Option ℕ → Status × ℕ
sized root_size c none = (Status.unsupported_configuration, 0)
sized root_size c (some raw_scratch_size) =
    report_size (add_all root_size (regions c raw_scratch_size))

-- `root_size` is the size of the root's structure; the size reported is 0 for a refusal.
unfoldable pub validate_config_and_size : ℕ → Config → Status × ℕ
validate_config_and_size root_size c =
    if (c.max_application_message_size == 0) || (c.max_encoded_frame_size == 0)
    then (Status.invalid_argument, 0)
    else if c.connection_timeout_ms != 0
    then (Status.unsupported_configuration, 0)
    else let encoded_minimum = max_encoded_size c.max_application_message_size in
      if (encoded_minimum == 0) || ltb c.max_encoded_frame_size encoded_minimum
      then (Status.unsupported_configuration, 0)
      else sized root_size c (checked_add c.max_application_message_size raw_overhead)

-- An object of the caller, with its address and its size.
pub record Object : Type 0 where
  pub address : ℕ
  pub size : ℕ

-- `HIL_Transport_Storage_T`
pub record Storage : Type 0 where
  pub workspace : ℕ
  pub workspace_size : ℕ

unfoldable pub storage_overlaps : Object → Storage → Bool
storage_overlaps object storage =
    if ltb (size_max - object.size) object.address
      || ltb (size_max - storage.workspace_size) storage.workspace
    then Bool.true
    else ltb object.address (storage.workspace + storage.workspace_size)
      && ltb storage.workspace (object.address + object.size)

-- What the platform fixes: `HIL_TRANSPORT_WORKSPACE_ALIGNMENT`, the size of the root, and where the
-- caller's context, configuration and storage description are.
pub record Layout : Type 0 where
  pub workspace_alignment : ℕ
  pub root_size : ℕ
  pub context : Object
  pub config : Object
  pub storage : Object

-- A region after `memset`.
unfoldable pub zeros : ℕ → List ℕ
zeros zero = []
zeros (suc n) = 0 ∷ zeros n

unfoldable pub initial_root : Role → Config → Session → Parser → Root
initial_root role c s p = record {
  base = record {
    config = c;
    role = role;
    link_state = LinkState.disconnected;
    session_state = SessionState.disconnected;
    operating_mode = OperatingMode.normal;
    operating_mode_valid = 0;
    last_failure = Failure.none;
  };
  session = s;
  parser = p;
  submitted_message = zeros c.max_application_message_size;
  submitted_message_size = 0;
  submitted_message_pending = 0;
  encoded_output = zeros c.max_encoded_frame_size;
  encoded_output_capacity = c.max_encoded_frame_size;
  encoded_output_size = 0;
  output_selection = OutputSelection.none;
  control_output = zeros control_output_capacity;
  control_output_size = 0;
  control_output_state = ControlOutputState.idle;
  recovery_reset_pending = 0;
  recovery_reset_session_identifier = 0;
  recently_abandoned_session_identifier = 0;
  recently_abandoned_session_identifier_valid = 0;
  codec_scratch_size = c.max_application_message_size + raw_overhead;
  received_message = zeros c.max_application_message_size;
  received_message_size = 0;
  received_message_pending = 0;
  receive_protocol_error_pending = 0;
  event_queue = no_event ∷ no_event ∷ no_event ∷ no_event ∷ [];
  event_read_index = 0;
  event_count = 0;
}

-- The parser has its own result; the event queue's reset refuses nothing.
unfoldable pub finish_init :
    Role → Config → Option Session → Status × Option Parser → Status × Option Root
finish_init role c none p = (Status.invalid_argument, none)
finish_init role c (some s) (status, none) = (status, none)
finish_init role c (some s) (status, some p) =
    let (reset_status, r) = Events.reset (initial_root role c s p) in
    if reset_status isnt Status.ok then (reset_status, none) else (Status.ok, some r)

-- The context is zeroed, as the code requires; the root is there when the status is `ok`.
unfoldable pub init : Layout → Role → Config → Storage → Status × Option Root
init layout role c storage =
    if ((role is Role.host)
        && ((c.session_seed == session_seed_invalid) || (c.session_seed == session_seed_reserved)))
      || ((role is Role.rig) && (c.session_seed != session_seed_invalid))
    then (Status.invalid_argument, none)
    else let (status, required_size) = validate_config_and_size layout.root_size c in
      if status isnt Status.ok
      then (status, none)
      else if (storage.workspace == 0) || (storage.workspace % layout.workspace_alignment != 0)
      then (Status.invalid_argument, none)
      else if ltb storage.workspace_size required_size
      then (Status.buffer_too_small, none)
      else if storage_overlaps layout.context storage
          || storage_overlaps layout.config storage
          || storage_overlaps layout.storage storage
      then (Status.invalid_argument, none)
      else finish_init role c (Session.init role c.session_seed c.initial_reliable_sequence)
          (Parser.init (zeros (c.max_encoded_frame_size - 1)) (c.max_encoded_frame_size - 1))
