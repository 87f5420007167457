-- ===== src/Session/Establish.antt =====
-- The start of an establishment, also after a session that was abandoned.
use hil_rig_protocol.Common.{
  ℕ, ◌+◌, ◌-◌, ◌%◌, ◌^◌, ◌<◌, ◌≡◌, ◌≢◌, refl, sym, subst, ◌∙◌, ap, arith, true, false, some, ◌⊎◌,
  inl, inr,
}
use hil_rig_protocol.Types.{
  Status, status_enum, Role, role_enum, LinkState, link_state_enum, SessionState,
  session_state_enum, Failure,
}
use hil_rig_protocol.Root.{Root, Reply, HandshakePhase, handshake_phase_enum}
use hil_rig_protocol.Session.{set_state, identifier_is_valid, has_scoped_work}
use hil_rig_protocol.Session.{reset_status_for_failure, abandon}
use hil_rig_protocol.Session.{begin_establishment, take_role, restart_sequences, next_identifier}
use hil_rig_protocol.Session.Coherent.{
  IsCoherent, IsProvisioned, views_agree, ended_state-connected,
}
use hil_rig_protocol.Session.Abandon.{abandon-setup, abandon-ended}

pub begin_establishment-role :
    {r : Root}
    → IsCoherent r
    → has_scoped_work r ≡ false
    → r.session.link_state ≡ LinkState.connected
    → r.session.link_state_observed ≡ 1
    → (r.session.state ≡ SessionState.disconnected) ⊎ (r.session.state ≡ SessionState.recovering)
    → begin_establishment r ≡ take_role r.session.role (restart_sequences r)
unfolding begin_establishment
begin_establishment-role {r} v clear up observed (inl e) =
    rw (views_agree v, v.abandoned, v.confirmed, clear, e, up, observed) refl
begin_establishment-role {r} v clear up observed (inr e) =
    rw (views_agree v, v.abandoned, v.confirmed, clear, e, up, observed) refl

pub next_identifier-cycles :
    (n : ℕ) → identifier_is_valid n ≡ true → n < 2 ^ 64 → next_identifier n ≡ n % (2 ^ 64 - 2) + 1
unfolding next_identifier identifier_is_valid
next_identifier-cycles n ok h = ground arith

-- An establishment of either role that follows on `r`.
abbrev pub Connects : Root → Reply → Type 0
Connects r (status, r') =
    (status ≡ Status.ok)
    × (r'.session.state ≡ SessionState.connecting)
    × (r'.base.session_state ≡ SessionState.connecting)
    × (r'.session.next_transmit_sequence ≡ r.session.initial_reliable_sequence)
    × (r.session.role ≡ Role.host
        → (r'.session.handshake_phase ≡ HandshakePhase.initiate_pending)
          × (r'.session.session_identifier ≡ r.session.next_host_session_identifier)
          × (r'.session.session_identifier_valid ≡ 1)
          × (r'.session.next_host_session_identifier
              ≡ r.session.next_host_session_identifier % (2 ^ 64 - 2) + 1))
    × (r.session.role ≡ Role.rig
        → (r'.session.handshake_phase ≡ HandshakePhase.waiting_for_initiate)
          × (r'.session.session_identifier_valid ≡ 0))

pub no_identifier : (r : Root) → has_scoped_work r ≡ false → r.session.session_identifier_valid ≡ 0
unfolding has_scoped_work
no_identifier r clear = ground arith

pub take_role-Connects :
    {r : Root} (role : Role)
    → r.session.role ≡ role
    → IsProvisioned r
    → has_scoped_work r ≡ false
    → Connects r (take_role role (restart_sequences r))
unfolding take_role restart_sequences set_state
take_role-Connects {r} Role.host e p clear = rw (p.host e) (
  refl,
  refl,
  refl,
  refl,
  (λ h. (
    refl,
    refl,
    refl,
    next_identifier-cycles r.session.next_host_session_identifier (p.host e) p.host_in,
  )),
  (λ h. ground (arith, e, h)),
)
take_role-Connects {r} Role.rig e p clear =
    rw (p.rig e)
      (refl, refl, refl, refl, (λ h. ground (arith, e, h)), (λ h. (refl, no_identifier r clear)))

-- A coherent and provisioned endpoint whose link is observed to be up, whose session is over and
-- has no work left, starts to connect, from its initial sequence. A host takes the identifier that
-- it had ready for its INITIATE and gets the successor ready for the next session: identifiers go
-- round from 1 to 2 ^ 64 - 2. A rig waits for an INITIATE.
pub begin_establishment-connects :
    {r : Root}
    → IsCoherent r
    → IsProvisioned r
    → has_scoped_work r ≡ false
    → r.session.link_state ≡ LinkState.connected
    → r.session.link_state_observed ≡ 1
    → (r.session.state ≡ SessionState.disconnected) ⊎ (r.session.state ≡ SessionState.recovering)
    → let (status, r') = begin_establishment r in
      (status ≡ Status.ok)
      × (r'.session.state ≡ SessionState.connecting)
      × (r'.base.session_state ≡ SessionState.connecting)
      × (r'.session.next_transmit_sequence ≡ r.session.initial_reliable_sequence)
      × (r.session.role ≡ Role.host
          → (r'.session.handshake_phase ≡ HandshakePhase.initiate_pending)
            × (r'.session.session_identifier ≡ r.session.next_host_session_identifier)
            × (r'.session.session_identifier_valid ≡ 1)
            × (r'.session.next_host_session_identifier
                ≡ r.session.next_host_session_identifier % (2 ^ 64 - 2) + 1))
      × (r.session.role ≡ Role.rig
          → (r'.session.handshake_phase ≡ HandshakePhase.waiting_for_initiate)
            × (r'.session.session_identifier_valid ≡ 0))
begin_establishment-connects {r} v p clear up observed over =
    subst (Connects r) (sym (begin_establishment-role v clear up observed over))
      (take_role-Connects r.session.role refl p clear)

-- A coherent and provisioned endpoint that is not in fault and has observed its link to be up can
-- always start over: once a failure that ends sessions has ended its session, whatever work it had
-- and even with no room for the event, the next establishment starts.
pub abandon-begin_establishment :
    {r : Root} (failure : Failure) {status : Status}
    → IsCoherent r
    → IsProvisioned r
    → r.session.state ≢ SessionState.fault
    → r.session.link_state ≡ LinkState.connected
    → r.session.link_state_observed ≡ 1
    → reset_status_for_failure failure ≡ some status
    → let (started, r') = begin_establishment (abandon r failure).1 in
      (started ≡ Status.ok) × (r'.session.state ≡ SessionState.connecting)
abandon-begin_establishment {r} failure {status} v p running up observed e =
    let (refined, over, failed, cleared, coherent) = abandon-ended failure v running e in
    let (role, next, link, seen) = abandon-setup failure v running e in
    let provisioned : IsProvisioned (abandon r failure).1 = record {
      host = λ h. ap identifier_is_valid next ∙ p.host (sym role ∙ h);
      host_in = subst (λ n. n < 2 ^ 64) (sym next) p.host_in;
      rig = λ h. next ∙ p.rig (sym role ∙ h);
    } in
    let (started, connecting, b, t, h, g) =
      begin_establishment-connects coherent provisioned cleared (link ∙ up) (seen ∙ observed)
        (inr (over ∙ ended_state-connected r.session.link_state up)) in
    (started, connecting)
