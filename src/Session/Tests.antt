-- ===== src/Session/Tests.antt =====
-- Concrete runs, and the theorems at concrete inputs.
use hil_rig_protocol.Session.Coherent.{IsCoherent, IsProvisioned}
use hil_rig_protocol.Session.Establish.{begin_establishment-connects, abandon-begin_establishment}
use hil_rig_protocol.Common.{◌≡◌, refl, arith, [], true, false, ◌⊎◌, inr}
use hil_rig_protocol.Types.{Status, Role, LinkState, SessionState, Failure}
use hil_rig_protocol.Root.{Root, HandshakePhase}
use hil_rig_protocol.Fixtures.{quiet, loaded}
use hil_rig_protocol.Reliability.{has_storage}
use hil_rig_protocol.Output.{is_faulted}
use hil_rig_protocol.Events.{value_is_valid}
use hil_rig_protocol.Events.Entries.{contents, all_valid}
use hil_rig_protocol.Session.{
  abandon, begin_establishment, explicit_reset, notify_link_state, has_scoped_work,
}
use hil_rig_protocol.Session.{
  recently_abandoned_metadata_is_valid, completed_confirm_metadata_is_valid,
}
use hil_rig_protocol.Session.{identifier_is_valid, ended_state, reset_status_for_failure}
use hil_rig_protocol.Session.Reset.{explicit_reset-repairs, explicit_reset-begin_establishment}
use hil_rig_protocol.Session.Link.{notify_link_state-reconnects}

loaded-IsCoherent : IsCoherent loaded
unfolding recently_abandoned_metadata_is_valid completed_confirm_metadata_is_valid has_storage
    contents all_valid value_is_valid
loaded-IsCoherent = record {
  roles = refl;
  links = refl;
  observed = omega arith;
  states = refl;
  failures = refl;
  abandoned = refl;
  confirmed = refl;
  storage = refl;
  events = record { slots = refl; head_in = omega arith; count_in = omega arith; sound = refl };
}

quiet-IsCoherent : IsCoherent quiet
unfolding recently_abandoned_metadata_is_valid completed_confirm_metadata_is_valid has_storage
    contents all_valid value_is_valid
quiet-IsCoherent = record {
  roles = refl;
  links = refl;
  observed = omega arith;
  states = refl;
  failures = refl;
  abandoned = refl;
  confirmed = refl;
  storage = refl;
  events = record { slots = refl; head_in = omega arith; count_in = omega arith; sound = refl };
}

loaded-IsProvisioned : IsProvisioned loaded
unfolding identifier_is_valid
loaded-IsProvisioned = record {
  host = λ e. refl;
  host_in = omega arith;
  rig = λ e. ground (arith, e);
}

quiet-IsProvisioned : IsProvisioned quiet
unfolding identifier_is_valid
quiet-IsProvisioned = record {
  host = λ e. refl;
  host_in = omega arith;
  rig = λ e. ground (arith, e);
}

quiet_is_clear : has_scoped_work quiet ≡ false
unfolding has_scoped_work
quiet_is_clear = refl

-- A faulted endpoint whose two views disagree and whose session holds a frame.
abbrev broken : Root
broken = record loaded {
  session = record (loaded.session) { state = SessionState.fault; retained_transmit_sequence = 9 };
}

is_faulted-broken : is_faulted broken ≡ true
unfolding is_faulted
is_faulted-broken = refl

loaded_runs : is_faulted loaded ≡ false
unfolding is_faulted
loaded_runs = refl

begin_establishment-connects_example :
    let (status, r') = begin_establishment quiet in
    (status ≡ Status.ok)
    × (r'.session.state ≡ SessionState.connecting)
    × (r'.base.session_state ≡ SessionState.connecting)
    × (r'.session.next_transmit_sequence ≡ 0xffff)
    × (Role.host ≡ Role.host
        → (r'.session.handshake_phase ≡ HandshakePhase.initiate_pending)
          × (r'.session.session_identifier ≡ 7)
          × (r'.session.session_identifier_valid ≡ 1)
          × (r'.session.next_host_session_identifier ≡ 8))
    × (Role.host ≡ Role.rig
        → (r'.session.handshake_phase ≡ HandshakePhase.waiting_for_initiate)
          × (r'.session.session_identifier_valid ≡ 0))
begin_establishment-connects_example =
    begin_establishment-connects quiet-IsCoherent quiet-IsProvisioned quiet_is_clear refl refl
      (inr refl)

abandon-begin_establishment_example :
    let (started, r') = begin_establishment (abandon loaded Failure.connection_timeout).1 in
    (started ≡ Status.ok) × (r'.session.state ≡ SessionState.connecting)
unfolding reset_status_for_failure
abandon-begin_establishment_example =
    abandon-begin_establishment Failure.connection_timeout loaded-IsCoherent loaded-IsProvisioned
      (λ e. ground (arith, e)) refl refl refl

explicit_reset-repairs_example :
    let (status, r') = explicit_reset broken in
    (status ≡ Status.ok)
    × (has_scoped_work r' ≡ false)
    × (contents r' ≡ [])
    × (r'.session.state ≡ ended_state LinkState.connected)
    × (r'.session.last_failure ≡ Failure.local_reset)
    × (r'.session.link_state ≡ LinkState.connected)
    × IsCoherent r'
    × IsProvisioned r'
unfolding has_storage identifier_is_valid
explicit_reset-repairs_example =
    explicit_reset-repairs broken refl refl (inr (refl, refl)) (omega arith)

explicit_reset-begin_establishment_example :
    let (status, r') = begin_establishment (explicit_reset broken).1 in
    (status ≡ Status.ok) × (r'.session.state ≡ SessionState.connecting)
unfolding has_storage identifier_is_valid
explicit_reset-begin_establishment_example =
    explicit_reset-begin_establishment broken refl refl (inr (refl, refl)) (omega arith) refl refl

notify_link_state-reconnects_example :
    let (down, r') = notify_link_state loaded LinkState.disconnected in
    let (up, r'') = notify_link_state r' LinkState.connected in
    ((down ≡ Status.ok) ⊎ (down ≡ Status.capacity_exhausted))
    × (r'.session.state ≡ SessionState.disconnected)
    × (has_scoped_work r' ≡ false)
    × IsCoherent r'
    × ((up ≡ Status.ok) ⊎ (up ≡ Status.capacity_exhausted))
    × (r''.session.state ≡ SessionState.connecting)
notify_link_state-reconnects_example =
    notify_link_state-reconnects loaded-IsCoherent loaded-IsProvisioned loaded_runs refl refl
