-- ===== src/Session/Coherent.antt =====
-- What the entry checks of the session ask for, and what publishing an event keeps of it.
use hil_rig_protocol.Common.{
  ◌^◌, ◌<◌, ◌≤◌, ◌≡◌, refl, sym, subst, ap, arith, true, false, ◌⊎◌, inl, inr,
}
use hil_rig_protocol.Types.{
  Status, status_enum, Role, role_enum, LinkState, link_state_enum, SessionState,
  session_state_enum, Event,
}
use hil_rig_protocol.Root.{Root, Session, handshake_phase_enum}
use hil_rig_protocol.Reliability
use hil_rig_protocol.Events.{publish, value_is_valid}
use hil_rig_protocol.Events.Entries as Entries
use hil_rig_protocol.Events.Entries.{contents}
use hil_rig_protocol.Events.Fifo.{publish_refines, publish-cases}
use hil_rig_protocol.Session.{identifier_is_valid, has_scoped_work}
use hil_rig_protocol.Session.{completed_confirm_metadata_is_valid, views_differ}
use hil_rig_protocol.Session.{recently_abandoned_metadata_is_valid, ended_state}

-- What the entry checks of the session's operations ask for, with storage for the reliable frame
-- and a well-formed event queue.
pub record IsCoherent (r : Root) : Type 0 where
  pub roles : r.base.role ≡ r.session.role
  pub links : r.base.link_state ≡ r.session.link_state
  pub observed : r.session.link_state_observed ≤ 1
  pub states : r.base.session_state ≡ r.session.state
  pub failures : r.base.last_failure ≡ r.session.last_failure
  pub abandoned : recently_abandoned_metadata_is_valid r ≡ true
  pub confirmed : completed_confirm_metadata_is_valid r ≡ true
  pub storage : Reliability.has_storage r ≡ true
  pub events : Entries.IsValid r

-- A host has a usable identifier for its next session; a rig has none.
pub record IsProvisioned (r : Root) : Type 0 where
  pub host :
      r.session.role ≡ Role.host → identifier_is_valid r.session.next_host_session_identifier ≡ true
  pub host_in : r.session.next_host_session_identifier < 2 ^ 64
  pub rig : r.session.role ≡ Role.rig → r.session.next_host_session_identifier ≡ 0

-- The setup that ending a session keeps.
abbrev pub SameSetup : Session → Session → Type 0
SameSetup s t =
    (t.role ≡ s.role)
    × (t.next_host_session_identifier ≡ s.next_host_session_identifier)
    × (t.link_state ≡ s.link_state)
    × (t.link_state_observed ≡ s.link_state_observed)

pub views_agree : {r : Root} → IsCoherent r → views_differ r ≡ false
unfolding views_differ
views_agree {r} v = rw (v.roles, v.links, v.states, v.failures) (ground (arith, v.observed))

pub publish-IsCoherent :
    {r : Root} (e : Event)
    → value_is_valid e ≡ true
    → IsCoherent r
    → IsCoherent (publish r e).1
      × ((publish r e).1.session ≡ r.session)
      × (has_scoped_work (publish r e).1 ≡ has_scoped_work r)
unfolding completed_confirm_metadata_is_valid recently_abandoned_metadata_is_valid
    Reliability.has_storage has_scoped_work
publish-IsCoherent {r} e ok v =
    let (refined, valid) = publish_refines e v.events in
    elim (publish-cases e v.events ok) [
      | inl p ↦
          subst
            (λ x.
              IsCoherent x.1
              × (x.1.session ≡ r.session)
              × (has_scoped_work x.1 ≡ has_scoped_work r))
            (sym p) (v, refl, refl)
      | inr p ↦
          subst
            (λ x.
              IsCoherent x.1
              × (x.1.session ≡ r.session)
              × (has_scoped_work x.1 ≡ has_scoped_work r))
            (sym p)
            (
              record {
                roles = v.roles;
                links = v.links;
                observed = v.observed;
                states = v.states;
                failures = v.failures;
                abandoned = v.abandoned;
                confirmed = v.confirmed;
                storage = v.storage;
                events = subst (λ x. Entries.IsValid x.1) p valid;
              },
              refl,
              refl,
            )
    ]

-- The status of a call that only the event queue's capacity may trouble.
abbrev pub Reported : Status → Type 0
Reported status = (status ≡ Status.ok) ⊎ (status ≡ Status.capacity_exhausted)

pub publish-Reported :
    {r : Root} (e : Event) → value_is_valid e ≡ true → Entries.IsValid r → Reported (publish r e).0
publish-Reported {r} e ok v = elim (publish-cases e v ok) [
  | inl p ↦ inr (ap (λ x. x.0) p)
  | inr p ↦ inl (ap (λ x. x.0) p)
]

pub ended_state-connected :
    (l : LinkState) → l ≡ LinkState.connected → ended_state l ≡ SessionState.recovering
unfolding ended_state
ended_state-connected l e = rw e refl

pub ended_state-disconnected :
    (l : LinkState) → l ≡ LinkState.disconnected → ended_state l ≡ SessionState.disconnected
unfolding ended_state
ended_state-disconnected l e = rw e refl
