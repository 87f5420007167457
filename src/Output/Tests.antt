-- ===== src/Output/Tests.antt =====
-- Concrete runs, and the theorems at concrete inputs.
use hil_rig_protocol.Common.{subst, inr, ◌≡◌, refl, arith, [], ◌∷◌, some}
use hil_rig_protocol.Types.{Status}
use hil_rig_protocol.Root.{Root, ReliableState, ControlOutputState, OutputSelection}
use hil_rig_protocol.Fixtures.{loaded, both}
use hil_rig_protocol.Control
use hil_rig_protocol.Reliability
use hil_rig_protocol.Output.{
  peek_output, commit_output, is_faulted, recovery_is_inconsistent, selection_matches,
  control_peeked, reliable_peeked,
}
use hil_rig_protocol.Output.Validity.{IsValid}
use hil_rig_protocol.Output.Arbitration.{
  peek_output-control_first, peek_output-reliable, commit_output-routes,
}
use hil_rig_protocol.Output.Preserve.{peek_output-IsValid, commit_output-IsValid}

-- Both items wait, and the control item is pinned.
abbrev pinned : Root
pinned = record both {
  control_output_state = ControlOutputState.peeked;
  output_selection = OutputSelection.control;
}

both-IsValid : IsValid both
unfolding is_faulted recovery_is_inconsistent selection_matches control_peeked reliable_peeked
    Control.validate_state Control.validate_item Reliability.validate_state Reliability.has_storage
both-IsValid = record {
  reliable = record {
    consistent = refl;
    provisioned = refl;
    stored = omega arith;
    retries_in = omega arith;
    next_in = omega arith;
  };
  control = record { consistent = refl; slot = refl };
  recovery = refl;
  selected = refl;
  running = refl;
}

pinned-IsValid : IsValid pinned
unfolding is_faulted recovery_is_inconsistent selection_matches control_peeked reliable_peeked
    Control.validate_state Control.validate_item Reliability.validate_state Reliability.has_storage
pinned-IsValid = record {
  reliable = record {
    consistent = refl;
    provisioned = refl;
    stored = omega arith;
    retries_in = omega arith;
    next_in = omega arith;
  };
  control = record { consistent = refl; slot = refl };
  recovery = refl;
  selected = refl;
  running = refl;
}

loaded-IsValid : IsValid loaded
unfolding is_faulted recovery_is_inconsistent selection_matches control_peeked reliable_peeked
    Control.validate_state Control.validate_item Reliability.validate_state Reliability.has_storage
loaded-IsValid = record {
  reliable = record {
    consistent = refl;
    provisioned = refl;
    stored = omega arith;
    retries_in = omega arith;
    next_in = omega arith;
  };
  control = record { consistent = refl; slot = refl };
  recovery = refl;
  selected = refl;
  running = refl;
}

peek_output-control_first_example : peek_output both (some (0 ∷ 0 ∷ 0 ∷ [])) 3 ≡ record {
  status = Status.ok;
  out_buffer = some (8 ∷ 6 ∷ 0 ∷ []);
  output_size = 2;
  root = pinned;
}
peek_output-control_first_example =
    peek_output-control_first (0 ∷ 0 ∷ 0 ∷ []) 3 both-IsValid refl refl (omega arith)

-- The frame waits for a retry, and is pinned for it.
abbrev retrying : Root
retrying = record loaded {
  session = record (loaded.session) {
    reliable_state = ReliableState.retransmit_ready;
    retransmissions_committed = 0;
  };
}

abbrev retry_pinned : Root
retry_pinned = record retrying {
  session = record (retrying.session) { reliable_state = ReliableState.retransmit_peeked };
  output_selection = OutputSelection.reliable;
}

retrying-IsValid : IsValid retrying
unfolding is_faulted recovery_is_inconsistent selection_matches control_peeked reliable_peeked
    Control.validate_state Control.validate_item Reliability.validate_state Reliability.has_storage
retrying-IsValid = record {
  reliable = record {
    consistent = refl;
    provisioned = refl;
    stored = omega arith;
    retries_in = omega arith;
    next_in = omega arith;
  };
  control = record { consistent = refl; slot = refl };
  recovery = refl;
  selected = refl;
  running = refl;
}

peek_output-reliable_example : peek_output retrying (some (0 ∷ 0 ∷ 0 ∷ [])) 3 ≡ record {
  status = Status.ok;
  out_buffer = some (3 ∷ 1 ∷ 4 ∷ []);
  output_size = 3;
  root = retry_pinned;
}
peek_output-reliable_example =
    peek_output-reliable (0 ∷ 0 ∷ 0 ∷ []) 3 retrying-IsValid refl refl (inr (refl, refl))
      (omega arith)

retry_pinned-IsValid : IsValid retry_pinned
retry_pinned-IsValid =
    subst (λ p. IsValid p.root)
      (peek_output-reliable (0 ∷ 0 ∷ 0 ∷ []) 3 retrying-IsValid refl refl (inr (refl, refl))
        (omega arith))
      (peek_output-IsValid (0 ∷ 0 ∷ 0 ∷ []) 3 retrying-IsValid)

commit_output-routes_example :
    let (status, r') = commit_output retry_pinned 10 in
    (OutputSelection.reliable ≡ OutputSelection.none
      → (status ≡ Status.not_ready) × (r' ≡ retry_pinned))
    × (OutputSelection.reliable ≡ OutputSelection.control
        → (status ≡ Status.ok)
          × (r'.output_selection ≡ OutputSelection.none)
          × (r'.control_output_state ≡ ControlOutputState.idle)
          × (r'.control_output_size ≡ 0)
          × (r'.recovery_reset_pending ≡ 0)
          × (r'.session ≡ retry_pinned.session)
          × (r'.encoded_output_size ≡ 3))
    × (OutputSelection.reliable ≡ OutputSelection.reliable
        → (status ≡ Status.ok)
          × (r'.output_selection ≡ OutputSelection.none)
          × (r'.session.reliable_state ≡ ReliableState.awaiting_ack)
          × (r'.session.reliable_last_committed_ms ≡ 10)
          × (ReliableState.retransmit_peeked ≡ ReliableState.peeked
              → r'.session.retransmissions_committed ≡ 0)
          × (ReliableState.retransmit_peeked ≡ ReliableState.retransmit_peeked
              → r'.session.retransmissions_committed ≡ 1)
          × (r'.control_output_state ≡ ControlOutputState.idle)
          × (r'.control_output_size ≡ 0)
          × (r'.control_output ≡ retry_pinned.control_output))
commit_output-routes_example = commit_output-routes 10 retry_pinned-IsValid

peek_output-IsValid_example : IsValid (peek_output both (some (0 ∷ [])) 1).root
peek_output-IsValid_example = peek_output-IsValid (0 ∷ []) 1 both-IsValid

commit_output-IsValid_example : IsValid (commit_output pinned 10).1
commit_output-IsValid_example = commit_output-IsValid 10 pinned-IsValid
