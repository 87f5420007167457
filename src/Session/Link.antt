-- ===== src/Session/Link.antt =====
-- Link notifications.
use hil_rig_protocol.Session.Coherent.{
  IsCoherent, IsProvisioned, SameSetup, views_agree, publish-IsCoherent, Reported, publish-Reported,
  ended_state-disconnected,
}
use hil_rig_protocol.Session.Abandon.{abandon-Reported, abandon-setup, abandon-ended}
use hil_rig_protocol.Session.Establish.{begin_establishment-connects}
use hil_rig_protocol.Common.{
  not, ℕ, ◌^◌, ◌<◌, ◌≡◌, ◌≢◌, refl, sym, subst, ◌∙◌, ap, arith, true, false, ◌&&◌, ◌is◌, ◌isnt◌,
  ◌!=◌, ◌⊎◌, inl, inr,
}
use hil_rig_protocol.Types.{link_state_enum}
use hil_rig_protocol.Reliability.{has_storage}
use hil_rig_protocol.Events.{publish, value_is_valid}
use hil_rig_protocol.Events.Entries as Entries
use hil_rig_protocol.Session.{
  finish_notify, notify_changed, publish_link_event, link_event, change_link,
  completed_confirm_metadata_is_valid, recently_abandoned_metadata_is_valid,
}
use hil_rig_protocol.Types.{Status, status_enum, LinkState, SessionState, Failure}
use hil_rig_protocol.Root.{Root, Reply, Session}
use hil_rig_protocol.Output.{is_faulted}
use hil_rig_protocol.Session.{
  notify_link_state, notify_faulted, observe_link, set_fault, set_state, set_failure,
}
use hil_rig_protocol.Session.{
  set_link_state, clear_recently_abandoned, clear_fields, has_scoped_work, identifier_is_valid,
  begin_establishment, reset_status_for_failure,
}
use hil_rig_protocol.Session.Clear.{clear_scoped_work-fields}

-- On a coherent endpoint that is not in fault, a notification of the link state that was observed
-- already changes nothing.
notify_link_state-repeated :
    {r : Root}
    → IsCoherent r
    → is_faulted r ≡ false
    → r.session.link_state_observed ≡ 1
    → notify_link_state r r.session.link_state ≡ (Status.ok, r)
unfolding notify_link_state
notify_link_state-repeated {r} v running observed =
    rw (running, views_agree v, v.confirmed, observed) (ground arith)

-- An endpoint in fault stays in fault whatever its link does, and keeps track of the link.
notify_link_state-fault :
    (r : Root) (link_state : LinkState)
    → is_faulted r ≡ true
    → let (status, r') = notify_link_state r link_state in
      (r'.session.state ≡ SessionState.fault)
      × (r'.base.session_state ≡ SessionState.fault)
      × (r'.base.link_state ≡ link_state)
      × (r'.session.link_state ≡ link_state)
      × (r'.session.link_state_observed ≡ 1)
unfolding notify_link_state notify_faulted observe_link set_fault set_state set_failure
    set_link_state clear_recently_abandoned clear_fields
notify_link_state-fault r LinkState.connected fault = rw fault (refl, refl, refl, refl, refl)
notify_link_state-fault r LinkState.disconnected fault =
    rw (fault, clear_scoped_work-fields (observe_link r LinkState.disconnected))
      (refl, refl, refl, refl, refl)

finish_notify-root :
    (event_status status : Status) (r : Root)
    → Reported event_status
    → Reported status
    → ((finish_notify event_status (status, r)).1 ≡ r)
      × Reported (finish_notify event_status (status, r)).0
unfolding finish_notify
finish_notify-root event_status status r (inl p) (inl q) = rw (p, q) (refl, inl refl)
finish_notify-root event_status status r (inl p) (inr q) = rw (p, q) (refl, inr refl)
finish_notify-root event_status status r (inr p) (inl q) = rw (p, q) (refl, inr refl)
finish_notify-root event_status status r (inr p) (inr q) = rw (p, q) (refl, inr refl)

observe_link-IsCoherent :
    {r : Root} (link_state : LinkState) → IsCoherent r → IsCoherent (observe_link r link_state)
unfolding observe_link set_link_state recently_abandoned_metadata_is_valid
    completed_confirm_metadata_is_valid has_storage Entries.contents
observe_link-IsCoherent link_state v = record {
  roles = v.roles;
  links = refl;
  observed = omega arith;
  states = v.states;
  failures = v.failures;
  abandoned = v.abandoned;
  confirmed = v.confirmed;
  storage = v.storage;
  events = record {
    slots = v.events.slots;
    head_in = v.events.head_in;
    count_in = v.events.count_in;
    sound = v.events.sound;
  };
}

clear_abandoned-IsCoherent : {r : Root} → IsCoherent r → IsCoherent (clear_recently_abandoned r)
unfolding clear_recently_abandoned recently_abandoned_metadata_is_valid
    completed_confirm_metadata_is_valid has_storage Entries.contents
clear_abandoned-IsCoherent v = record {
  roles = v.roles;
  links = v.links;
  observed = v.observed;
  states = v.states;
  failures = v.failures;
  abandoned = refl;
  confirmed = v.confirmed;
  storage = v.storage;
  events = record {
    slots = v.events.slots;
    head_in = v.events.head_in;
    count_in = v.events.count_in;
    sound = v.events.sound;
  };
}

is-differs : (a b : LinkState) → a ≢ b → (a is b) ≡ false
is-differs a b h = ground arith

Reported-passes :
    {s : Status} → Reported s → ((s isnt Status.ok) && (s isnt Status.capacity_exhausted)) ≡ false
Reported-passes (inl p) = rw p refl
Reported-passes (inr p) = rw p refl

link_event-is_valid : (link_state : LinkState) → value_is_valid (link_event link_state) ≡ true
unfolding link_event value_is_valid
link_event-is_valid link_state = refl

observed-differs : {n : ℕ} → n ≡ 1 → (n != 0) ≡ true
observed-differs e = ground (arith, e)

notify_changed-publishes :
    {r : Root} (link_state : LinkState)
    → IsCoherent r
    → notify_changed r link_state
      ≡ finish_notify
          (publish r (link_event link_state)).0
          (change_link (publish r (link_event link_state)).1 link_state)
unfolding notify_changed publish_link_event
notify_changed-publishes link_state v =
    rw
      (Reported-passes
        (publish-Reported (link_event link_state) (link_event-is_valid link_state) v.events))
      refl

-- A change of the observed link passes the checks and publishes its event.
notify_link_state-publishes :
    {r : Root} (link_state : LinkState)
    → IsCoherent r
    → is_faulted r ≡ false
    → (r.session.link_state_observed ≡ 1) ⊎ (link_state ≡ LinkState.connected)
    → r.session.link_state ≢ link_state
    → notify_link_state r link_state
      ≡ finish_notify
          (publish (observe_link r link_state) (link_event link_state)).0
          (change_link (publish (observe_link r link_state) (link_event link_state)).1 link_state)
unfolding notify_link_state
notify_link_state-publishes {r} link_state v running observed changed =
    let same : ((r.session.link_state_observed != 0) && (r.session.link_state is link_state))
        ≡ false =
      ground (arith, is-differs r.session.link_state link_state changed) in
    let unseen : (not (r.session.link_state_observed != 0)
          && (link_state is LinkState.disconnected))
        ≡ false =
      elim observed [ inl o ↦ ground (arith, o) | inr e ↦ ground (arith, e) ] in
    rw (running, views_agree v, v.confirmed, same, unseen)
      (notify_changed-publishes link_state (observe_link-IsCoherent link_state v))

record Lost (s : Session) (x : Reply) : Type 0 where
  reported : Reported x.0
  over : x.1.session.state ≡ SessionState.disconnected
  cleared : has_scoped_work x.1 ≡ false
  coherent : IsCoherent x.1
  setup : SameSetup s x.1.session

abandon-Lost :
    {r : Root}
    → IsCoherent r
    → r.session.state ≢ SessionState.fault
    → r.session.link_state ≡ LinkState.disconnected
    → Lost r.session (change_link r LinkState.disconnected)
unfolding change_link has_scoped_work clear_recently_abandoned reset_status_for_failure
abandon-Lost {r} v running down =
    let (refined, over, failed, cleared, coherent) =
      abandon-ended Failure.link_lost v running refl in
    record {
      reported = abandon-Reported Failure.link_lost v running refl;
      over = over ∙ ended_state-disconnected r.session.link_state down;
      cleared = cleared;
      coherent = clear_abandoned-IsCoherent coherent;
      setup = abandon-setup Failure.link_lost v running refl;
    }

-- What a change of the link does to the endpoint, once its event is published.
after_event : Root → LinkState → Root
after_event r link_state = (publish (observe_link r link_state) (link_event link_state)).1

after_event-fields :
    {r : Root} (link_state : LinkState)
    → IsCoherent r
    → IsCoherent (after_event r link_state)
      × ((after_event r link_state).session ≡ (observe_link r link_state).session)
      × (has_scoped_work (after_event r link_state) ≡ has_scoped_work (observe_link r link_state))
unfolding after_event
after_event-fields link_state v =
    publish-IsCoherent (link_event link_state) (link_event-is_valid link_state)
      (observe_link-IsCoherent link_state v)

not_fault : (r : Root) → is_faulted r ≡ false → r.session.state ≢ SessionState.fault
unfolding is_faulted
not_fault r h e = ground arith

not_faulted :
    {r : Root} → IsCoherent r → r.session.state ≡ SessionState.disconnected → is_faulted r ≡ false
unfolding is_faulted
not_faulted {r} v e = rw (v.states, e) refl

observe_link-link : (r : Root) (l : LinkState) → (observe_link r l).session.link_state ≡ l
unfolding observe_link set_link_state
observe_link-link r l = refl

observe_link-seen : (r : Root) (l : LinkState) → (observe_link r l).session.link_state_observed ≡ 1
unfolding observe_link set_link_state
observe_link-seen r l = refl

observe_link-state : (r : Root) (l : LinkState) → (observe_link r l).session.state ≡ r.session.state
unfolding observe_link set_link_state
observe_link-state r l = refl

finish-Lost :
    {s : Session} (event_status : Status) (x : Reply)
    → Reported event_status
    → Lost s x
    → Lost s (finish_notify event_status x)
finish-Lost {s} event_status (status, r) reported lost =
    let (same, answer) = finish_notify-root event_status status r reported lost.reported in
    record {
      reported = answer;
      over = ap (λ u. u.session.state) same ∙ lost.over;
      cleared = ap has_scoped_work same ∙ lost.cleared;
      coherent = subst IsCoherent (sym same) lost.coherent;
      setup = subst (λ u. SameSetup s u.session) (sym same) lost.setup;
    }

notify_link_state-Lost :
    {r : Root}
    → IsCoherent r
    → is_faulted r ≡ false
    → r.session.link_state_observed ≡ 1
    → r.session.link_state ≡ LinkState.connected
    → Lost
        (observe_link r LinkState.disconnected).session
        (notify_link_state r LinkState.disconnected)
notify_link_state-Lost {r} v running observed up =
    let (coherent, same, cleared) = after_event-fields LinkState.disconnected v in
    let e =
      notify_link_state-publishes LinkState.disconnected v running (inl observed)
        (λ h. ground (arith, up, h)) in
    subst (Lost _) (sym e) (
      finish-Lost _ _
        (publish-Reported (link_event LinkState.disconnected)
          (link_event-is_valid LinkState.disconnected)
          (observe_link-IsCoherent LinkState.disconnected v).events)
        (unfold after_event in
          subst
            (λ s.
              Lost s (change_link (after_event r LinkState.disconnected) LinkState.disconnected))
            same
            (abandon-Lost coherent
              (λ h. not_fault _ running (
                sym (observe_link-state r LinkState.disconnected)
                ∙ sym (ap (λ x. x.state) same)
                ∙ h))
              (ap (λ x. x.link_state) same ∙ observe_link-link r LinkState.disconnected))))

observe_link-IsProvisioned :
    {r : Root} (l : LinkState) → IsProvisioned r → IsProvisioned (observe_link r l)
unfolding observe_link set_link_state
observe_link-IsProvisioned l p = record { host = p.host; host_in = p.host_in; rig = p.rig }

observe_link-work :
    (r : Root) (l : LinkState) → has_scoped_work (observe_link r l) ≡ has_scoped_work r
unfolding observe_link set_link_state has_scoped_work
observe_link-work r l = refl

SameSetup-IsProvisioned :
    (r u : Root) → SameSetup r.session u.session → IsProvisioned r → IsProvisioned u
SameSetup-IsProvisioned r u (role, next, link, seen) p = record {
  host = λ h. ap identifier_is_valid next ∙ p.host (sym role ∙ h);
  host_in = subst (λ n. n < 2 ^ 64) (sym next) p.host_in;
  rig = λ h. next ∙ p.rig (sym role ∙ h);
}

pub restored_link :
    {r : Root}
    → IsCoherent r
    → IsProvisioned r
    → has_scoped_work r ≡ false
    → r.session.state ≡ SessionState.disconnected
    → r.session.link_state ≡ LinkState.disconnected
    → let (status, r') = notify_link_state r LinkState.connected in
      Reported status × (r'.session.state ≡ SessionState.connecting)
unfolding change_link after_event
restored_link {r} v p clear over down =
    let (coherent, same, cleared) = after_event-fields LinkState.connected v in
    let provisioned : IsProvisioned (after_event r LinkState.connected) =
      SameSetup-IsProvisioned (observe_link r LinkState.connected) _
        (subst (SameSetup (observe_link r LinkState.connected).session) (sym same)
          (refl, refl, refl, refl))
        (observe_link-IsProvisioned LinkState.connected p) in
    let (started, connecting, b, t, h, g) =
      begin_establishment-connects coherent provisioned
        (cleared ∙ observe_link-work r LinkState.connected ∙ clear)
        (ap (λ x. x.link_state) same ∙ observe_link-link r LinkState.connected)
        (ap (λ x. x.link_state_observed) same ∙ observe_link-seen r LinkState.connected)
        (inl (ap (λ x. x.state) same ∙ observe_link-state r LinkState.connected ∙ over)) in
    let e =
      notify_link_state-publishes LinkState.connected v (not_faulted v over) (inr refl)
        (λ h. ground (arith, down, h)) in
    subst (λ x. Reported x.0 × (x.1.session.state ≡ SessionState.connecting)) (sym e)
      (let (root, answer) =
          finish_notify-root _ (begin_establishment (after_event r LinkState.connected)).0
            (begin_establishment (after_event r LinkState.connected)).1
            (publish-Reported (link_event LinkState.connected)
              (link_event-is_valid LinkState.connected)
              (observe_link-IsCoherent LinkState.connected v).events)
            (inl started) in
        (answer, ap (λ u. u.session.state) root ∙ connecting))

-- On a coherent and provisioned endpoint that is not in fault and has observed its link to be up,
-- a link that goes down ends the session: the endpoint is disconnected with no work left and is
-- coherent. When the link then comes back up, the next establishment starts, of a host or of a
-- rig. Both answers report at most that the event queue was full.
pub notify_link_state-reconnects :
    {r : Root}
    → IsCoherent r
    → IsProvisioned r
    → is_faulted r ≡ false
    → r.session.link_state_observed ≡ 1
    → r.session.link_state ≡ LinkState.connected
    → let (down, r') = notify_link_state r LinkState.disconnected in
      let (up, r'') = notify_link_state r' LinkState.connected in
      ((down ≡ Status.ok) ⊎ (down ≡ Status.capacity_exhausted))
      × (r'.session.state ≡ SessionState.disconnected)
      × (has_scoped_work r' ≡ false)
      × IsCoherent r'
      × ((up ≡ Status.ok) ⊎ (up ≡ Status.capacity_exhausted))
      × (r''.session.state ≡ SessionState.connecting)
notify_link_state-reconnects {r} v p running observed up =
    let d = notify_link_state-Lost v running observed up in
    let (role, next, link, seen) = d.setup in
    let (started, connecting) =
      restored_link d.coherent
        (SameSetup-IsProvisioned (observe_link r LinkState.disconnected) _ d.setup
          (observe_link-IsProvisioned LinkState.disconnected p))
        d.cleared d.over (link ∙ observe_link-link r LinkState.disconnected) in
    (d.reported, d.over, d.cleared, d.coherent, started, connecting)
