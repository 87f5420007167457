-- ===== src/Session/Abandon.antt =====
-- The end of a session.
use hil_rig_protocol.Common.{
  ◌≡◌, ◌≢◌, refl, sym, subst, ◌∙◌, ap, arith, true, false, some, ◌is◌, inl, inr,
}
use hil_rig_protocol.Types.{
  Status, status_enum, role_enum, link_state_enum, SessionState, session_state_enum, Failure,
}
use hil_rig_protocol.Root.{Root, handshake_phase_enum}
use hil_rig_protocol.Events.{publish, value_is_valid}
use hil_rig_protocol.Events.Entries as Entries
use hil_rig_protocol.Events.Entries.{contents}
use hil_rig_protocol.Events.Fifo.{offer, publish_refines, publish-cases}
use hil_rig_protocol.Session.{clear_fields, has_scoped_work}
use hil_rig_protocol.Session.{ended_state}
use hil_rig_protocol.Session.{
  reset_event, reset_status_for_failure, finish_abandon, abandon, abandon_with, abandon_reported,
}
use hil_rig_protocol.Session.Clear.{clear_scoped_work-fields}
use hil_rig_protocol.Session.Coherent.{
  IsCoherent, SameSetup, views_agree, publish-IsCoherent, Reported, publish-Reported,
}
use hil_rig_protocol.Session.Ended.{
  ended, end_session-ended, ended-IsCoherent, ended-contents, ended-scoped, ended-setup,
  ended-state, ended-failure,
}

pub reset_event-is_valid :
    (failure : Failure) (status : Status) → value_is_valid (reset_event failure status) ≡ true
unfolding reset_event value_is_valid
reset_event-is_valid failure status = refl

pub finish_abandon-publish :
    {r : Root} (failure : Failure) (status : Status)
    → Entries.IsValid r
    → finish_abandon (publish r (reset_event failure status))
      ≡ publish r (reset_event failure status)
unfolding finish_abandon
finish_abandon-publish failure status v =
    elim (publish-cases (reset_event failure status) v (reset_event-is_valid failure status)) [
      | inl e ↦ rw e refl
      | inr e ↦ rw e refl
    ]

pub clear_fields-running :
    (r : Root)
    → r.session.state ≢ SessionState.fault
    → ((clear_fields r).session.state is SessionState.fault) ≡ false
unfolding clear_fields
clear_fields-running r running = ground (arith, running)

pub abandon_with-publishes :
    {r : Root} (failure : Failure) (status : Status)
    → IsCoherent r
    → r.session.state ≢ SessionState.fault
    → abandon_with r failure status ≡ publish (ended r failure) (reset_event failure status)
unfolding abandon_with
abandon_with-publishes {r} failure status v running =
    rw
      (
        views_agree v,
        v.confirmed,
        clear_scoped_work-fields r,
        v.storage,
        clear_fields-running r running,
      )
      (ap (λ x. finish_abandon (publish x (reset_event failure status)))
          (end_session-ended r failure)
        ∙ finish_abandon-publish failure status (ended-IsCoherent r failure v).events)

-- The checks of `abandon` pass, and it clears the work and publishes its event.
pub abandon-publishes :
    {r : Root} (failure : Failure) {status : Status}
    → IsCoherent r
    → r.session.state ≢ SessionState.fault
    → reset_status_for_failure failure ≡ some status
    → abandon r failure ≡ publish (ended r failure) (reset_event failure status)
unfolding abandon abandon_reported
abandon-publishes {r} failure {status} v running e =
    ap (abandon_reported r failure) e ∙ abandon_with-publishes failure status v running

pub abandon-Reported :
    {r : Root} (failure : Failure) {status : Status}
    → IsCoherent r
    → r.session.state ≢ SessionState.fault
    → reset_status_for_failure failure ≡ some status
    → Reported (abandon r failure).0
abandon-Reported {r} failure {status} v running e =
    subst (λ x. Reported x.0) (sym (abandon-publishes failure v running e))
      (publish-Reported (reset_event failure status) (reset_event-is_valid failure status)
        (ended-IsCoherent r failure v).events)

pub abandon-setup :
    {r : Root} (failure : Failure) {status : Status}
    → IsCoherent r
    → r.session.state ≢ SessionState.fault
    → reset_status_for_failure failure ≡ some status
    → SameSetup r.session (abandon r failure).1.session
abandon-setup {r} failure {status} v running e =
    let (coherent, same, cleared) =
      publish-IsCoherent (reset_event failure status) (reset_event-is_valid failure status)
        (ended-IsCoherent r failure v) in
    subst (λ x. SameSetup r.session x.1.session) (sym (abandon-publishes failure v running e))
      (subst (SameSetup r.session) (sym same) (ended-setup r failure))

-- The end of a session, with the code's own choice of the last state.
pub abandon-ended :
    {r : Root} (failure : Failure) {status : Status}
    → IsCoherent r
    → r.session.state ≢ SessionState.fault
    → reset_status_for_failure failure ≡ some status
    → let (answer, r') = abandon r failure in
      ((answer, contents r') ≡ offer (contents r) (reset_event failure status))
      × (r'.session.state ≡ ended_state r.session.link_state)
      × (r'.session.last_failure ≡ failure)
      × (has_scoped_work r' ≡ false)
      × IsCoherent r'
abandon-ended {r} failure {status} v running e =
    let u = ended-IsCoherent r failure v in
    let (refined, valid) = publish_refines (reset_event failure status) u.events in
    let (coherent, same, cleared) =
      publish-IsCoherent (reset_event failure status) (reset_event-is_valid failure status) u in
    subst
      (λ x.
        ((x.0, contents x.1) ≡ offer (contents r) (reset_event failure status))
        × (x.1.session.state ≡ ended_state r.session.link_state)
        × (x.1.session.last_failure ≡ failure)
        × (has_scoped_work x.1 ≡ false)
        × IsCoherent x.1)
      (sym (abandon-publishes failure v running e))
      (
        refined ∙ ap (λ c. offer c (reset_event failure status)) (ended-contents r failure),
        ap (λ x. x.state) same ∙ ended-state r failure,
        ap (λ x. x.last_failure) same ∙ ended-failure r failure,
        cleared ∙ ended-scoped r failure,
        coherent,
      )
