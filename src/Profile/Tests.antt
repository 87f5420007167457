-- ===== src/Profile/Tests.antt =====
-- Concrete runs.
use hil_rig_protocol.Common.{ℕ, ◌≤◌, [], ◌∷◌, size_max, ◌≡◌, refl, arith, ◌+◌, some, inl}
use hil_rig_protocol.Types.{Status, Role, LinkState, SessionState}
use hil_rig_protocol.Root.{Root, Config}
use hil_rig_protocol.Parser.Framing.{IsIdle}
use hil_rig_protocol.Codec.{
  cobs_max_encoded_size, with_delimiter, max_encoded_size, raw_overhead, exact_cobs_size,
}
use hil_rig_protocol.Session.{notify_link_state, identifier_is_valid}
use hil_rig_protocol.Session.Coherent.{IsCoherent, IsProvisioned, Reported}
use hil_rig_protocol.Profile.Init.{
  init, default_config, validate_config_and_size, sized, report_size, add_all, checked_add, regions,
  storage_overlaps, Layout, Storage,
}
use hil_rig_protocol.Profile.Sizes.{whole_size, validate_config_and_size-provides}
use hil_rig_protocol.Profile.Initial.{Fits, init-connects}

abbrev seeded : Config
unfolding default_config
seeded = record default_config { session_seed = 7 }

-- The objects of the caller are below the workspace.
abbrev layout : Layout
layout = record {
  workspace_alignment = 8;
  root_size = 600;
  context = record { address = 1000; size = 24 };
  config = record { address = 1024; size = 40 };
  storage = record { address = 1064; size = 16 };
}

abbrev workspace : Storage
workspace = record { workspace = 4096; workspace_size = 4096 }

abbrev required_size : ℕ
required_size = 600 + 512 + 640 + 639 + (512 + raw_overhead) + 512

seeded-accepted : validate_config_and_size 600 seeded ≡ (Status.ok, required_size)
unfolding default_config validate_config_and_size sized report_size add_all checked_add regions
    max_encoded_size with_delimiter cobs_max_encoded_size
seeded-accepted = refl

validate_config_and_size-provides_example :
    (required_size ≡ whole_size 600 seeded)
    × (required_size ≤ size_max)
    × ((m : ℕ) × (exact_cobs_size (3 ∷ 0 ∷ 5 ∷ []) ≡ some m) × (m + 1 ≤ 640))
unfolding default_config
validate_config_and_size-provides_example =
    validate_config_and_size-provides 600 seeded (3 ∷ 0 ∷ 5 ∷ []) (omega arith) seeded-accepted
      (omega arith) (omega arith)

seeded-Fits : Fits layout seeded workspace
unfolding storage_overlaps
seeded-Fits = record {
  required = required_size;
  valid = seeded-accepted;
  given = omega arith;
  aligned = refl;
  enough = omega arith;
  off_context = refl;
  off_config = refl;
  off_storage = refl;
}

init-connects_example :
    (r : Root) × (init layout Role.host seeded workspace ≡ (Status.ok, some r))
    × IsCoherent r
    × IsProvisioned r
    × IsIdle r.parser
    × (let (status, r') = notify_link_state r LinkState.connected in
        Reported status × (r'.session.state ≡ SessionState.connecting))
unfolding identifier_is_valid default_config
init-connects_example = init-connects (inl (refl, refl)) (omega arith) seeded-Fits
