-- ===== src/Output/Validity.antt =====
-- The invariant of the arbiter: both lifecycles are valid, the pinned selection agrees with them, and
-- so does the recovery RESET.
use hil_rig_protocol.Common.{◌≡◌, arith, Bool, true, false, ◌&&◌, ◌||◌, ◌is◌, ◌isnt◌}
use hil_rig_protocol.Types.{Status}
use hil_rig_protocol.Root.{
  Root, ReliableState, reliable_state_enum, ControlOutputState, control_output_state_enum,
  OutputSelection,
}
use hil_rig_protocol.Control
use hil_rig_protocol.Control.Validity as ControlValidity
use hil_rig_protocol.Reliability
use hil_rig_protocol.Reliability.Validity as ReliabilityValidity
use hil_rig_protocol.Output.{validate_state, recovery_is_inconsistent, selection_matches}
use hil_rig_protocol.Output.{reliable_peeked, control_peeked, is_faulted}

pub record IsValid (r : Root) : Type 0 where
  pub reliable : ReliabilityValidity.IsValid r
  pub control : ControlValidity.IsValid r
  pub recovery : recovery_is_inconsistent r ≡ false
  pub selected : selection_matches r.output_selection (reliable_peeked r) (control_peeked r) ≡ true
  pub running : is_faulted r ≡ false

-- `*reliable_output_pending`
unfoldable pub reliable_pending : Root → Bool
reliable_pending r =
    (r.session.reliable_state is ReliableState.ready)
    || (r.session.reliable_state is ReliableState.peeked)
    || (r.session.reliable_state is ReliableState.retransmit_ready)
    || (r.session.reliable_state is ReliableState.retransmit_peeked)

reliable_status :
    {r : Root}
    → ReliabilityValidity.IsValid r
    → Reliability.get_pending_status r
      ≡ (Status.ok, reliable_pending r, r.session.reliable_state isnt ReliableState.idle, r)
unfolding Reliability.get_pending_status reliable_pending
reliable_status v = ground (arith, ReliabilityValidity.validate_state-IsValid v)

control_status :
    {r : Root}
    → ControlValidity.IsValid r
    → Control.get_pending_status r
      ≡ (Status.ok, r.control_output_state isnt ControlOutputState.idle, r)
unfolding Control.get_pending_status
control_status v = ground (arith, ControlValidity.validate_state-IsValid v)

-- The selection rules out that both items are pinned.
one_pinned :
    (selection : OutputSelection) (reliable control : Bool)
    → selection_matches selection reliable control ≡ true
    → (reliable && control) ≡ false
unfolding selection_matches
one_pinned OutputSelection.none reliable control h = ground arith
one_pinned OutputSelection.reliable reliable control h = ground arith
one_pinned OutputSelection.control reliable control h = ground arith

-- A valid endpoint passes the arbiter's check, which reports what is pending and changes nothing.
pub validate_state-IsValid :
    {r : Root}
    → IsValid r
    → validate_state r ≡ record {
      status = Status.ok;
      reliable_output = reliable_pending r;
      control_output = r.control_output_state isnt ControlOutputState.idle;
      reliable_delivery = r.session.reliable_state isnt ReliableState.idle;
      root = r;
    }
unfolding validate_state
validate_state-IsValid {r} v = rw (
  reliable_status v.reliable,
  control_status v.control,
  v.recovery,
  one_pinned r.output_selection (reliable_peeked r) (control_peeked r) v.selected,
  v.selected,
)
