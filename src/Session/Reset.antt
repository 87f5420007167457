-- ===== src/Session/Reset.antt =====
-- The explicit reset.
use hil_rig_protocol.Session.Coherent.{IsCoherent, IsProvisioned, ended_state-connected}
use hil_rig_protocol.Session.Establish.{begin_establishment-connects}
use hil_rig_protocol.Common.{
  ℕ, ◌^◌, ◌<◌, ◌≡◌, refl, ◌∙◌, arith, [], Bool, true, false, if◌then◌else◌, ◌⊎◌, inl, inr,
  Bool-cases, length,
}
use hil_rig_protocol.Types.{
  Status, status_enum, Role, role_enum, LinkState, SessionState, Failure, session_seed_invalid,
}
use hil_rig_protocol.Root.{Root, Reply, event_queue_capacity}
use hil_rig_protocol.Parser
use hil_rig_protocol.Reliability
use hil_rig_protocol.Events
use hil_rig_protocol.Events.Entries.{contents, entries, all_valid}
use hil_rig_protocol.Session.{
  set_state, set_failure, set_link_state, identifier_is_valid, clear_fields, has_scoped_work,
}
use hil_rig_protocol.Session.{completed_confirm_metadata_is_valid, ended_state}
use hil_rig_protocol.Session.{
  recently_abandoned_metadata_is_valid, explicit_reset, repair_setup, finish_reset, set_fault,
}
use hil_rig_protocol.Session.{clear_recently_abandoned, begin_establishment}
use hil_rig_protocol.Session.Clear.{clear_scoped_work-fields}

-- What a reset that succeeds leaves of `r`.
abbrev Repaired : Root → Reply → Type 0
Repaired r (status, r') =
    (status ≡ Status.ok)
    × (has_scoped_work r' ≡ false)
    × (contents r' ≡ [])
    × (r'.session.state ≡ ended_state r.base.link_state)
    × (r'.session.last_failure ≡ Failure.local_reset)
    × (r'.session.link_state ≡ r.base.link_state)
    × IsCoherent r'
    × IsProvisioned r'

-- The repair of the setup, on cleared work and a note of an abandoned session that is sound.
finish_reset-repairs :
    (r : Root) (identifier valid : ℕ)
    → Reliability.has_storage r ≡ true
    → length r.event_queue ≡ event_queue_capacity
    → (r.base.role ≡ Role.rig)
      ⊎ ((r.base.role ≡ Role.host)
          × (identifier_is_valid r.session.next_host_session_identifier ≡ true))
    → r.session.next_host_session_identifier < 2 ^ 64
    → recently_abandoned_metadata_is_valid (record (clear_fields r) {
      recently_abandoned_session_identifier = identifier;
      recently_abandoned_session_identifier_valid = valid;
    })
      ≡ true
    → Repaired r (
        finish_reset Status.ok (
          repair_setup
            (Events.reset (record (clear_fields r) {
              recently_abandoned_session_identifier = identifier;
              recently_abandoned_session_identifier_valid = valid;
            })).1))
unfolding finish_reset repair_setup Events.reset clear_fields set_link_state set_state set_failure
    has_scoped_work contents Reliability.has_storage completed_confirm_metadata_is_valid
    Parser.reset recently_abandoned_metadata_is_valid entries all_valid
finish_reset-repairs r identifier valid storage slots (inl e) h sound = rw e (
  refl,
  refl,
  refl,
  refl,
  refl,
  refl,
  record {
    roles = refl;
    links = refl;
    observed = ground arith;
    states = refl;
    failures = refl;
    abandoned = sound;
    confirmed = refl;
    storage = storage;
    events = record { slots = slots; head_in = omega arith; count_in = omega arith; sound = refl };
  },
  record { host = λ p. ground arith; host_in = omega arith; rig = λ p. refl },
)
finish_reset-repairs r identifier valid storage slots (inr (e, ok)) h sound =
    rw (e, ok)
      (
        refl,
        refl,
        refl,
        refl,
        refl,
        refl,
        record {
          roles = refl;
          links = refl;
          observed = ground arith;
          states = refl;
          failures = refl;
          abandoned = sound;
          confirmed = refl;
          storage = storage;
          events = record {
            slots = slots;
            head_in = omega arith;
            count_in = omega arith;
            sound = refl;
          };
        },
        record { host = λ p. ok; host_in = h; rig = λ p. ground arith },
      )

-- An explicit reset repairs any endpoint, in fault or not, and whatever work or garbage its
-- session holds, if its storage is there and it is a rig or a host with a usable 64-bit
-- identifier: the work and the events are gone, the session is over with a local reset recorded,
-- and the endpoint is coherent and provisioned. The link is that of the public view.
pub explicit_reset-repairs :
    (r : Root)
    → Reliability.has_storage r ≡ true
    → length r.event_queue ≡ event_queue_capacity
    → (r.base.role ≡ Role.rig)
      ⊎ ((r.base.role ≡ Role.host)
          × (identifier_is_valid r.session.next_host_session_identifier ≡ true))
    → r.session.next_host_session_identifier < 2 ^ 64
    → let (status, r') = explicit_reset r in
      (status ≡ Status.ok)
      × (has_scoped_work r' ≡ false)
      × (contents r' ≡ [])
      × (r'.session.state ≡ ended_state r.base.link_state)
      × (r'.session.last_failure ≡ Failure.local_reset)
      × (r'.session.link_state ≡ r.base.link_state)
      × IsCoherent r'
      × IsProvisioned r'
unfolding explicit_reset clear_recently_abandoned
explicit_reset-repairs r storage slots setup h =
    elim (Bool-cases (recently_abandoned_metadata_is_valid (clear_fields r))) [
      | inl e ↦
          rw (clear_scoped_work-fields r, storage, e)
            (finish_reset-repairs r (clear_fields r).recently_abandoned_session_identifier
              (clear_fields r).recently_abandoned_session_identifier_valid storage slots setup h e)
      | inr e ↦
          rw (clear_scoped_work-fields r, storage, e)
            (finish_reset-repairs r session_seed_invalid 0 storage slots setup h
              (unfold recently_abandoned_metadata_is_valid in refl))
    ]

finish_reset-observed :
    (status : Status) (r : Root)
    → (finish_reset status r).1.session.link_state_observed ≡ r.session.link_state_observed
unfolding finish_reset set_state set_failure set_fault
finish_reset-observed status r = ground arith

repair_setup-observed :
    (r : Root) (keep : Bool)
    → r.session.link_state_observed ≡ 1
    → (repair_setup
        (Events.reset (
          if keep
          then clear_fields r
          else clear_recently_abandoned (clear_fields r))).1).session.link_state_observed
      ≡ 1
unfolding repair_setup Events.reset clear_fields clear_recently_abandoned set_link_state
repair_setup-observed r true e = rw e refl
repair_setup-observed r false e = rw e refl

reset-observed :
    (r : Root)
    → r.session.link_state_observed ≡ 1
    → (explicit_reset r).1.session.link_state_observed ≡ 1
unfolding explicit_reset
reset-observed r e =
    finish_reset-observed _ _
    ∙ rw (clear_scoped_work-fields r)
        (repair_setup-observed r (recently_abandoned_metadata_is_valid (clear_fields r)) e)

-- After an explicit reset of an endpoint with its storage, of a rig or of a host with a usable
-- 64-bit identifier, with the link up and observed, the next establishment starts.
pub explicit_reset-begin_establishment :
    (r : Root)
    → Reliability.has_storage r ≡ true
    → length r.event_queue ≡ event_queue_capacity
    → (r.base.role ≡ Role.rig)
      ⊎ ((r.base.role ≡ Role.host)
          × (identifier_is_valid r.session.next_host_session_identifier ≡ true))
    → r.session.next_host_session_identifier < 2 ^ 64
    → r.base.link_state ≡ LinkState.connected
    → r.session.link_state_observed ≡ 1
    → let (status, r') = begin_establishment (explicit_reset r).1 in
      (status ≡ Status.ok) × (r'.session.state ≡ SessionState.connecting)
explicit_reset-begin_establishment r storage slots setup h up observed =
    let (ok, cleared, emptied, over, failed, link, coherent, provisioned) =
      explicit_reset-repairs r storage slots setup h in
    let (started, connecting, b, t, k, g) =
      begin_establishment-connects coherent provisioned cleared (link ∙ up)
        (reset-observed r observed) (inr (over ∙ ended_state-connected r.base.link_state up)) in
    (started, connecting)
