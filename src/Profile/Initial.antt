-- ===== src/Profile/Initial.antt =====
-- On the initialisation of src/transport/internal/mvp/transport_profile_mvp.c.
use hil_rig_protocol.Common.{
  ℕ, ◌-◌, ◌%◌, ◌^◌, ◌<◌, ◌≤◌, ◌≡◌, ◌≢◌, refl, ap, arith, length, zero, suc, true, false, some, ◌⊎◌,
  inl, inr, ◌is◌, ◌&&◌, ◌||◌, ◌==◌, ◌!=◌, ltb,
}
use hil_rig_protocol.Types.{
  Status, status_enum, Role, role_enum, LinkState, SessionState, session_seed_invalid,
  session_seed_reserved,
}
use hil_rig_protocol.Root.{Root, Config, reliable_state_enum}
use hil_rig_protocol.Parser
use hil_rig_protocol.Parser.Framing.{IsIdle}
use hil_rig_protocol.Reliability.{has_storage}
use hil_rig_protocol.Codec.Size.{max_encoded_size-room}
use hil_rig_protocol.Events
use hil_rig_protocol.Events.Entries as Entries
use hil_rig_protocol.Session
use hil_rig_protocol.Session.{
  identifier_is_valid, completed_confirm_metadata_is_valid, recently_abandoned_metadata_is_valid,
}
use hil_rig_protocol.Session.{notify_link_state, has_scoped_work}
use hil_rig_protocol.Session.Link.{restored_link}
use hil_rig_protocol.Session.Coherent.{IsCoherent, IsProvisioned, Reported}
use hil_rig_protocol.Profile.Init.{
  init, finish_init, initial_root, zeros, validate_config_and_size, storage_overlaps, Layout,
  Storage,
}

length-zeros : (n : ℕ) → length (zeros n) ≡ n
unfolding zeros
length-zeros zero = refl
length-zeros (suc n) = ap suc (length-zeros n)

-- A configuration that passes has room for a frame and its delimiter.
validate_config_and_size-room :
    (root_size : ℕ) (c : Config) {n : ℕ}
    → validate_config_and_size root_size c ≡ (Status.ok, n)
    → 2 ≤ c.max_encoded_frame_size
unfolding validate_config_and_size
validate_config_and_size-room root_size c h =
    ground (arith, h, max_encoded_size-room c.max_application_message_size)

-- The seed is one that a session of the role starts from.
abbrev pub Suits : Role → ℕ → Type 0
Suits role seed =
    ((role ≡ Role.host) × (identifier_is_valid seed ≡ true))
    ⊎ ((role ≡ Role.rig) × (seed ≡ session_seed_invalid))

-- The workspace is aligned, holds what the configuration needs, and overlaps no object of the caller.
pub record Fits (layout : Layout) (c : Config) (storage : Storage) : Type 0 where
  pub required : ℕ
  pub valid : validate_config_and_size layout.root_size c ≡ (Status.ok, required)
  pub given : storage.workspace ≢ 0
  pub aligned : storage.workspace % layout.workspace_alignment ≡ 0
  pub enough : required ≤ storage.workspace_size
  pub off_context : storage_overlaps layout.context storage ≡ false
  pub off_config : storage_overlaps layout.config storage ≡ false
  pub off_storage : storage_overlaps layout.storage storage ≡ false

abbrev scratch_size : Config → ℕ
scratch_size c = c.max_encoded_frame_size - 1

abbrev started : Role → Config → Root
started role c =
    initial_root role c (Session.initial_session role c.session_seed c.initial_reliable_sequence)
      (record {
        scratch_buffer = zeros (scratch_size c);
        scratch_buffer_size = scratch_size c;
        accumulated_size = 0;
        body_ready = 0;
        discarding = 0;
      })

started-IsCoherent :
    (role : Role) (c : Config) → 2 ≤ c.max_encoded_frame_size → IsCoherent (started role c)
unfolding initial_root Session.initial_session completed_confirm_metadata_is_valid
    recently_abandoned_metadata_is_valid has_storage Entries.contents Entries.all_valid
started-IsCoherent role c room = record {
  roles = refl;
  links = refl;
  observed = omega arith;
  states = refl;
  failures = refl;
  abandoned = refl;
  confirmed = refl;
  storage = ground (arith, room);
  events = record { slots = refl; head_in = omega arith; count_in = omega arith; sound = refl };
}

started-IsProvisioned :
    (role : Role) (c : Config)
    → Suits role c.session_seed
    → c.session_seed < 2 ^ 64
    → IsProvisioned (started role c)
unfolding initial_root Session.initial_session
started-IsProvisioned role c suits small = record {
  host = λ h. elim suits [ inl (a, b) ↦ b | inr (a, b) ↦ ground (arith, a, h) ];
  host_in = small;
  rig = λ h. elim suits [ inl (a, b) ↦ ground (arith, a, h) | inr (a, b) ↦ b ];
}

started-IsIdle :
    (role : Role) (c : Config) → 2 ≤ c.max_encoded_frame_size → IsIdle (started role c).parser
unfolding initial_root Parser.state_is_valid
started-IsIdle role c room = record {
  valid = record {
    consistent = ground (arith, room);
    stored = ground (arith, length-zeros (scratch_size c));
  };
  empty = refl;
  unread = refl;
  keeping = refl;
}

Suits-accepted :
    (role : Role) (seed : ℕ)
    → Suits role seed
    → (((role is Role.host) && ((seed == session_seed_invalid) || (seed == session_seed_reserved)))
        || ((role is Role.rig) && (seed != session_seed_invalid)))
      ≡ false
unfolding identifier_is_valid
Suits-accepted role seed (inl (a, b)) = ground (arith, a, b)
Suits-accepted role seed (inr (a, b)) = ground (arith, a, b)

init-started :
    {layout : Layout} {role : Role} {c : Config} {storage : Storage}
    → Suits role c.session_seed
    → Fits layout c storage
    → init layout role c storage ≡ (Status.ok, some (started role c))
unfolding init
init-started {layout} {role} {c} {storage} suits f =
    let seed = Suits-accepted role c.session_seed suits in
    let room = validate_config_and_size-room layout.root_size c f.valid in
    let there : (storage.workspace == 0) ≡ false = ground (arith, f.given) in
    let enough : ltb storage.workspace_size f.required ≡ false = ground (arith, f.enough) in
    let some_scratch : (c.max_encoded_frame_size - 1 == 0) ≡ false = ground (arith, room) in
    rw (seed, f.valid, there, f.aligned, enough, f.off_context, f.off_config, f.off_storage)
      (unfold finish_init Session.init Parser.init Events.reset initial_root in
        rw (seed, some_scratch) refl)

-- An endpoint is initialised in a workspace that is aligned, is as large as the configuration
-- needs, and overlaps no object of the caller, with a seed that suits its role. It is coherent, its
-- session can start, its parser is between two bodies, and once its link comes up it is connecting.
pub init-connects :
    {layout : Layout} {role : Role} {c : Config} {storage : Storage}
    → Suits role c.session_seed
    → c.session_seed < 2 ^ 64
    → Fits layout c storage
    → (r : Root) × (init layout role c storage ≡ (Status.ok, some r))
      × IsCoherent r
      × IsProvisioned r
      × IsIdle r.parser
      × (let (status, r') = notify_link_state r LinkState.connected in
          Reported status × (r'.session.state ≡ SessionState.connecting))
init-connects {layout} {role} {c} {storage} suits small f =
    let room = validate_config_and_size-room layout.root_size c f.valid in
    let coherent = started-IsCoherent role c room in
    let provisioned = started-IsProvisioned role c suits small in
    (
      started role c,
      init-started suits f,
      coherent,
      provisioned,
      started-IsIdle role c room,
      unfold initial_root Session.initial_session has_scoped_work in
          restored_link coherent provisioned refl refl refl,
    )
