-- ===== src/Output/Preserve.antt =====
-- Peeks and commits through the arbiter keep its invariant.
use hil_rig_protocol.Common.{
  ℕ, ◌≡◌, ◌≢◌, refl, arith, List, Bool, true, false, Option, some, none, ◌isnt◌, ◌⊎◌, inl, inr,
}
use hil_rig_protocol.Types.{session_seed_invalid}
use hil_rig_protocol.Root.{
  Root, ControlOutputState, control_output_state_enum, OutputSelection, Session,
}
use hil_rig_protocol.Control
use hil_rig_protocol.Control.{null_with_size}
use hil_rig_protocol.Control.Validity as ControlValidity
use hil_rig_protocol.Reliability
use hil_rig_protocol.Reliability.Validity as ReliabilityValidity
use hil_rig_protocol.Output.{
  peek_output, peek_selected, select, selection_matches, control_peeked, reliable_peeked,
  pin_selection, unpin, commit_output, commit_selected, is_faulted, recovery_is_inconsistent,
}
use hil_rig_protocol.Output.Validity.{IsValid, reliable_pending}
use hil_rig_protocol.Output.Arbitration.{
  control_pinned, reliable_pinned, peek_output-selected, commit_output-selected,
}

-- The reliable frame does not depend on the control slot, nor on what is selected.
reliable_frame :
    {r : Root} (bytes : List ℕ) (size : ℕ) (state : ControlOutputState)
    (selection : OutputSelection) (pending identifier : ℕ)
    → ReliabilityValidity.IsValid r
    → ReliabilityValidity.IsValid (record r {
      control_output = bytes;
      control_output_size = size;
      control_output_state = state;
      output_selection = selection;
      recovery_reset_pending = pending;
      recovery_reset_session_identifier = identifier;
    })
unfolding Reliability.validate_state Reliability.has_storage
reliable_frame bytes size state selection pending identifier v = ground arith

-- Nor does the control slot depend on the reliable frame.
control_frame :
    {r : Root} (s : Session) (size : ℕ) (selection : OutputSelection)
    → ControlValidity.IsValid r
    → ControlValidity.IsValid
        (record r { session = s; encoded_output_size = size; output_selection = selection })
unfolding Control.validate_state
control_frame s size selection v = ground arith

-- What a peek through the arbiter does: nothing, or it pins one of the two items.
peek_selected-cases :
    {r : Root} (out : Option (List ℕ)) (out_size : ℕ) (selection : OutputSelection)
    → IsValid r
    → ((peek_selected selection r out out_size).root ≡ r)
      ⊎ ((peek_selected selection r out out_size).root ≡ record r {
        control_output_state = ControlOutputState.peeked;
        output_selection = OutputSelection.control;
      })
        × (selection ≡ OutputSelection.control)
        × (r.control_output_state ≢ ControlOutputState.idle)
      ⊎ ((peek_selected selection r out out_size).root ≡ record r {
        session = record (r.session) { reliable_state = Reliability.pin r.session.reliable_state };
        output_selection = OutputSelection.reliable;
      })
        × (selection ≡ OutputSelection.reliable)
        × (reliable_pending r ≡ true)
unfolding peek_selected pin_selection Control.peek_output Reliability.peek_output reliable_pending
peek_selected-cases none out_size OutputSelection.none v = inl refl
peek_selected-cases none out_size OutputSelection.control v =
    ground (arith, ControlValidity.validate_state-IsValid v.control)
peek_selected-cases none out_size OutputSelection.reliable v =
    ground (arith, ReliabilityValidity.validate_state-IsValid v.reliable)
peek_selected-cases (some out) out_size OutputSelection.none v = inl refl
peek_selected-cases (some out) out_size OutputSelection.control v =
    ground (arith, ControlValidity.validate_state-IsValid v.control)
peek_selected-cases (some out) out_size OutputSelection.reliable v =
    ground (arith, ReliabilityValidity.validate_state-IsValid v.reliable)

-- The selection that a peek makes leaves nothing else pinned.
select-control :
    (selection : OutputSelection) (waiting item reliable control : Bool)
    → select selection waiting item ≡ OutputSelection.control
    → selection_matches selection reliable control ≡ true
    → reliable ≡ false
unfolding select selection_matches
select-control selection waiting item reliable control e h = ground arith

select-reliable :
    (selection : OutputSelection) (waiting item reliable control : Bool)
    → select selection waiting item ≡ OutputSelection.reliable
    → selection_matches selection reliable control ≡ true
    → control ≡ false
unfolding select selection_matches
select-reliable selection waiting item reliable control e h = ground arith

pinned_control-IsValid :
    {r : Root}
    → IsValid r
    → r.control_output_state ≢ ControlOutputState.idle
    → reliable_peeked r ≡ false
    → IsValid (record r {
      control_output_state = ControlOutputState.peeked;
      output_selection = OutputSelection.control;
    })
unfolding selection_matches control_peeked reliable_peeked is_faulted recovery_is_inconsistent
pinned_control-IsValid {r} v busy free = record {
  reliable = reliable_frame _ _ _ _ _ _ v.reliable;
  control = unfold Control.validate_state in ground (arith, v.control);
  recovery = ground (arith, v.recovery);
  selected = ground arith;
  running = v.running;
}

pinned_reliable-IsValid :
    {r : Root}
    → IsValid r
    → reliable_pending r ≡ true
    → control_peeked r ≡ false
    → IsValid (record r {
      session = record (r.session) { reliable_state = Reliability.pin r.session.reliable_state };
      output_selection = OutputSelection.reliable;
    })
unfolding selection_matches control_peeked reliable_peeked is_faulted recovery_is_inconsistent
pinned_reliable-IsValid {r} v waits free = record {
  reliable = reliable_frame _ _ _ _ _ _ (ReliabilityValidity.pin-IsValid v.reliable);
  control = control_frame _ _ _ v.control;
  recovery = v.recovery;
  selected = unfold Reliability.pin reliable_pending in ground arith;
  running = v.running;
}

-- Any peek into a buffer of the caller, successful or not, keeps the invariant of the arbiter.
pub peek_output-IsValid :
    {r : Root} (out : List ℕ) (out_size : ℕ)
    → IsValid r
    → IsValid (peek_output r (some out) out_size).root
peek_output-IsValid {r} out out_size v =
    rw (peek_output-selected out out_size v)
      (elim (peek_selected-cases (some out) out_size selection v) [
        | inl e ↦ rw e v
        | inr (inl (e, p, busy)) ↦
            rw e (pinned_control-IsValid v busy (select-control _ _ _ _ _ p v.selected))
        | inr (inr (e, p, waits)) ↦
            rw e (pinned_reliable-IsValid v waits (select-reliable _ _ _ _ _ p v.selected))
      ])
  where
    selection : OutputSelection
    selection =
        select r.output_selection (reliable_pending r)
          (r.control_output_state isnt ControlOutputState.idle)

released-IsValid :
    {r : Root}
    → IsValid r
    → reliable_peeked r ≡ false
    → IsValid (record r {
      control_output_size = 0;
      control_output_state = ControlOutputState.idle;
      output_selection = OutputSelection.none;
      recovery_reset_pending = 0;
      recovery_reset_session_identifier = session_seed_invalid;
    })
unfolding selection_matches control_peeked reliable_peeked is_faulted recovery_is_inconsistent
released-IsValid {r} v free = record {
  reliable = reliable_frame _ _ _ _ _ _ v.reliable;
  control = unfold Control.validate_state in ground (arith, v.control);
  recovery = refl;
  selected = ground (arith, free);
  running = v.running;
}

awaiting-IsValid :
    {r : Root} (now_ms : ℕ)
    → IsValid r
    → control_peeked r ≡ false
    → reliable_peeked r ≡ true
    → IsValid (record (ReliabilityValidity.committed r now_ms) {
      output_selection = OutputSelection.none;
    })
unfolding selection_matches control_peeked reliable_peeked is_faulted recovery_is_inconsistent
awaiting-IsValid {r} now_ms v free held = record {
  reliable =
      reliable_frame _ _ _ _ _ _
        (ReliabilityValidity.committed-IsValid now_ms v.reliable (ground (arith, held)));
  control = control_frame _ _ _ v.control;
  recovery = v.recovery;
  selected = ground (arith, free);
  running = v.running;
}

commit_control :
    {r : Root} (now_ms : ℕ)
    → IsValid r
    → r.output_selection ≡ OutputSelection.control
    → (commit_selected OutputSelection.control r now_ms).1 ≡ record r {
      control_output_size = 0;
      control_output_state = ControlOutputState.idle;
      output_selection = OutputSelection.none;
      recovery_reset_pending = 0;
      recovery_reset_session_identifier = session_seed_invalid;
    }
unfolding commit_selected unpin Control.commit_output recovery_is_inconsistent
commit_control {r} now_ms v p =
    ground (arith, ControlValidity.validate_state-IsValid v.control, control_pinned v p, v.recovery)

commit_reliable :
    {r : Root} (now_ms : ℕ)
    → IsValid r
    → r.output_selection ≡ OutputSelection.reliable
    → (commit_selected OutputSelection.reliable r now_ms).1
      ≡ record (ReliabilityValidity.committed r now_ms) { output_selection = OutputSelection.none }
unfolding commit_selected unpin Reliability.commit_output
commit_reliable {r} now_ms v p =
    ground (arith, ReliabilityValidity.validate_state-IsValid v.reliable, reliable_pinned v p)

commit_selected-IsValid :
    {r : Root} (selection : OutputSelection) (now_ms : ℕ)
    → IsValid r
    → r.output_selection ≡ selection
    → IsValid (commit_selected selection r now_ms).1
commit_selected-IsValid OutputSelection.none now_ms v p = unfold commit_selected in v
commit_selected-IsValid {r} OutputSelection.control now_ms v p =
    rw (commit_control now_ms v p) (released-IsValid v free)
  where
    free : reliable_peeked r ≡ false
    free = unfold selection_matches in ground (arith, v.selected)
commit_selected-IsValid {r} OutputSelection.reliable now_ms v p =
    rw (commit_reliable now_ms v p) (awaiting-IsValid now_ms v free held)
  where
    free : control_peeked r ≡ false
    free = unfold selection_matches in ground (arith, v.selected)

    held : reliable_peeked r ≡ true
    held = unfold selection_matches in ground (arith, v.selected)

-- Any commit, successful or not, keeps the invariant of the arbiter.
pub commit_output-IsValid : {r : Root} (now_ms : ℕ) → IsValid r → IsValid (commit_output r now_ms).1
commit_output-IsValid {r} now_ms v =
    rw (commit_output-selected now_ms v) (commit_selected-IsValid r.output_selection now_ms v refl)
