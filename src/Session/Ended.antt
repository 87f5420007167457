-- ===== src/Session/Ended.antt =====
-- The endpoint of a session that is over, before the event that tells of it.
use hil_rig_protocol.Common.{ℕ, ◌≡◌, refl, ap, arith, Bool, true, false, ◌&&◌, ◌==◌}
use hil_rig_protocol.Types.{
  status_enum, role_enum, link_state_enum, SessionState, session_state_enum, Failure,
}
use hil_rig_protocol.Root.{Root, handshake_phase_enum}
use hil_rig_protocol.Parser
use hil_rig_protocol.Reliability
use hil_rig_protocol.Events.Entries.{contents}
use hil_rig_protocol.Session.{
  set_state, set_failure, identifier_is_valid, clear_fields, has_scoped_work,
}
use hil_rig_protocol.Session.{completed_confirm_metadata_is_valid}
use hil_rig_protocol.Session.{
  recently_abandoned_metadata_is_valid, remember_abandoned, ended_state, end_session,
}
use hil_rig_protocol.Session.Coherent.{IsCoherent, SameSetup}

-- The endpoint just before `abandon` publishes its event.
pub ended : Root → Failure → Root
ended r failure =
    set_state
      (set_failure
        (remember_abandoned (clear_fields r) r.session.session_identifier (
          (r.session.session_identifier_valid == 1)
          && identifier_is_valid r.session.session_identifier))
        failure)
      (ended_state r.session.link_state)

pub remember-scoped :
    (r : Root) (identifier : ℕ) (valid : Bool) (failure : Failure) (state : SessionState)
    → has_scoped_work (
        set_state
          (set_failure (remember_abandoned (clear_fields r) identifier valid) failure)
          state)
      ≡ false
unfolding set_state set_failure remember_abandoned clear_fields has_scoped_work Parser.reset
remember-scoped r identifier true failure state = refl
remember-scoped r identifier false failure state = refl

pub remember-contents :
    (r : Root) (identifier : ℕ) (valid : Bool) (failure : Failure) (state : SessionState)
    → contents (
        set_state
          (set_failure (remember_abandoned (clear_fields r) identifier valid) failure)
          state)
      ≡ contents r
unfolding set_state set_failure remember_abandoned clear_fields contents
remember-contents r identifier true failure state = refl
remember-contents r identifier false failure state = refl

pub remember-setup :
    (r : Root) (identifier : ℕ) (valid : Bool) (failure : Failure) (state : SessionState)
    → SameSetup r.session
        (set_state
          (set_failure (remember_abandoned (clear_fields r) identifier valid) failure)
          state).session
unfolding set_state set_failure remember_abandoned clear_fields
remember-setup r identifier true failure state = (refl, refl, refl, refl)
remember-setup r identifier false failure state = (refl, refl, refl, refl)

pub remember-IsCoherent :
    {r : Root} (identifier : ℕ) (valid : Bool) (failure : Failure) (state : SessionState)
    → (valid ≡ true → identifier_is_valid identifier ≡ true)
    → IsCoherent r
    → IsCoherent (
        set_state
          (set_failure (remember_abandoned (clear_fields r) identifier valid) failure)
          state)
unfolding set_state set_failure remember_abandoned clear_fields completed_confirm_metadata_is_valid
    recently_abandoned_metadata_is_valid Reliability.has_storage contents
remember-IsCoherent {r} identifier true failure state h v = record {
  roles = v.roles;
  links = v.links;
  observed = v.observed;
  states = refl;
  failures = refl;
  abandoned = h refl;
  confirmed = refl;
  storage = v.storage;
  events = record {
    slots = v.events.slots;
    head_in = v.events.head_in;
    count_in = v.events.count_in;
    sound = v.events.sound;
  };
}
remember-IsCoherent {r} identifier false failure state h v = record {
  roles = v.roles;
  links = v.links;
  observed = v.observed;
  states = refl;
  failures = refl;
  abandoned = v.abandoned;
  confirmed = refl;
  storage = v.storage;
  events = record {
    slots = v.events.slots;
    head_in = v.events.head_in;
    count_in = v.events.count_in;
    sound = v.events.sound;
  };
}

pub remember-link :
    (r : Root) (identifier : ℕ) (valid : Bool) (failure : Failure)
    → (set_failure
        (remember_abandoned (clear_fields r) identifier valid)
        failure).session.link_state
      ≡ r.session.link_state
unfolding set_failure remember_abandoned clear_fields
remember-link r identifier true failure = refl
remember-link r identifier false failure = refl

pub end_session-ended :
    (r : Root) (failure : Failure)
    → end_session (
        set_failure
          (remember_abandoned (clear_fields r) r.session.session_identifier (
            (r.session.session_identifier_valid == 1)
            && identifier_is_valid r.session.session_identifier))
          failure)
      ≡ ended r failure
unfolding end_session ended
end_session-ended r failure =
    let valid =
      (r.session.session_identifier_valid == 1)
      && identifier_is_valid r.session.session_identifier in
    ap
      (λ l.
        set_state
          (set_failure (remember_abandoned (clear_fields r) r.session.session_identifier valid)
            failure)
          (ended_state l))
      (remember-link r r.session.session_identifier valid failure)

pub ended-IsCoherent : (r : Root) (failure : Failure) → IsCoherent r → IsCoherent (ended r failure)
unfolding ended
ended-IsCoherent r failure v =
    remember-IsCoherent r.session.session_identifier
      ((r.session.session_identifier_valid == 1)
        && identifier_is_valid r.session.session_identifier)
      failure (ended_state r.session.link_state) (λ e. ground arith) v

pub ended-contents : (r : Root) (failure : Failure) → contents (ended r failure) ≡ contents r
unfolding ended
ended-contents r failure =
    remember-contents r r.session.session_identifier
      ((r.session.session_identifier_valid == 1)
        && identifier_is_valid r.session.session_identifier)
      failure (ended_state r.session.link_state)

pub ended-scoped : (r : Root) (failure : Failure) → has_scoped_work (ended r failure) ≡ false
unfolding ended
ended-scoped r failure =
    remember-scoped r r.session.session_identifier
      ((r.session.session_identifier_valid == 1)
        && identifier_is_valid r.session.session_identifier)
      failure (ended_state r.session.link_state)

pub ended-setup : (r : Root) (failure : Failure) → SameSetup r.session (ended r failure).session
unfolding ended
ended-setup r failure =
    remember-setup r r.session.session_identifier
      ((r.session.session_identifier_valid == 1)
        && identifier_is_valid r.session.session_identifier)
      failure (ended_state r.session.link_state)

pub ended-state :
    (r : Root) (failure : Failure)
    → (ended r failure).session.state ≡ ended_state r.session.link_state
unfolding ended set_state
ended-state r failure = refl

pub ended-failure :
    (r : Root) (failure : Failure) → (ended r failure).session.last_failure ≡ failure
unfolding ended set_state set_failure
ended-failure r failure = refl
