-- ===== src/Profile/Sizes.antt =====
-- The sizes that the configuration's checks of
-- src/transport/internal/mvp/transport_profile_mvp.c settle.
use hil_rig_protocol.Common.{ℕ, ◌+◌, ◌-◌, ◌<◌, ◌≤◌, ◌≡◌, arith, List, length, some, size_max}
use hil_rig_protocol.Types.{Status, status_enum}
use hil_rig_protocol.Root.{Config}
use hil_rig_protocol.Codec.{raw_overhead, exact_cobs_size}
use hil_rig_protocol.Codec.Size.{exact_cobs_size-max_encoded_size, max_encoded_size-room}
use hil_rig_protocol.Profile.Init.{
  validate_config_and_size, sized, report_size, add_all, checked_add, regions,
}

-- The size of a workspace that holds the root and the five regions.
abbrev pub whole_size : ℕ → Config → ℕ
whole_size root_size c =
    root_size
    + c.max_application_message_size
    + c.max_encoded_frame_size
    + (c.max_encoded_frame_size - 1)
    + (c.max_application_message_size + raw_overhead)
    + c.max_application_message_size

sized-whole :
    (root_size : ℕ) (c : Config) {n : ℕ}
    → root_size ≤ size_max
    → sized root_size c (checked_add c.max_application_message_size raw_overhead) ≡ (Status.ok, n)
    → (n ≡ whole_size root_size c) × (n ≤ size_max)
unfolding sized report_size add_all checked_add regions
sized-whole root_size c fits h = (ground (arith, h), ground (arith, h))

-- A configuration that passes needs the size of the root and of its regions, without overflow, and
-- the nonempty raw form of a frame whose message is within the configured limit has an exact encoded
-- size, which fits, with the delimiter, the configured region.
pub validate_config_and_size-provides :
    (root_size : ℕ) (c : Config) {n : ℕ} (raw : List ℕ)
    → root_size ≤ size_max
    → validate_config_and_size root_size c ≡ (Status.ok, n)
    → 0 < length raw
    → length raw ≤ c.max_application_message_size + raw_overhead
    → (n ≡ whole_size root_size c)
      × (n ≤ size_max)
      × ((m : ℕ) × (exact_cobs_size raw ≡ some m) × (m + 1 ≤ c.max_encoded_frame_size))
unfolding validate_config_and_size
validate_config_and_size-provides root_size c {n} raw small h more fits =
    let passed : sized root_size c (checked_add c.max_application_message_size raw_overhead)
        ≡ (Status.ok, n) =
      ground (arith, h) in
    let (total, bounded) = sized-whole root_size c small passed in
    let (m, exact, room) =
      exact_cobs_size-max_encoded_size c.max_application_message_size raw (ground (arith, h))
        (ground (arith, total, bounded, h, max_encoded_size-room c.max_application_message_size))
        more fits in
    (total, bounded, (m, exact, ground (arith, h, room)))
