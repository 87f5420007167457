-- ===== src/Output.antt =====
-- src/transport/internal/mvp/transport_output_mvp.c: the arbiter between the reliable frame and the
-- control item. The root and the output parameters are there; a null `out_buffer` is `none`.
pub mod Validity
pub mod Arbitration
pub mod Preserve
mod Tests
use hil_rig_protocol.Common.{
  ℕ, List, [], ◌∷◌, Bool, true, false, not, ◌&&◌, ◌||◌, ltb, leb, ◌==◌, ◌!=◌,
}
use hil_rig_protocol.Common.{◌is◌, ◌isnt◌, if◌then◌else◌, Option, none, some}
use hil_rig_protocol.Types.{Status, status_enum, SessionState, session_state_enum, LinkState}
use hil_rig_protocol.Types.{link_state_enum, session_seed_invalid, session_seed_reserved}
use hil_rig_protocol.Root.{
  Root, Reply, Peek, ReliableState, reliable_state_enum, ControlOutputState,
}
use hil_rig_protocol.Root.{control_output_state_enum, OutputSelection, output_selection_enum}
use hil_rig_protocol.Root.{record_fault}
use hil_rig_protocol.Control
use hil_rig_protocol.Control.{null_with_size}
use hil_rig_protocol.Reliability

unfoldable pub record_invariant_failure : Root → Reply
unfolding record_fault
record_invariant_failure r = (Status.internal_error, record_fault r)

-- `reliable_peeked` and `control_peeked`
unfoldable pub reliable_peeked : Root → Bool
reliable_peeked r =
    (r.session.reliable_state is ReliableState.peeked)
    || (r.session.reliable_state is ReliableState.retransmit_peeked)

unfoldable pub control_peeked : Root → Bool
control_peeked r = r.control_output_state is ControlOutputState.peeked

-- The conditions on a recovery RESET that is pending, and on none.
unfoldable pub recovery_is_inconsistent : Root → Bool
recovery_is_inconsistent r =
    ltb 1 r.recovery_reset_pending
    || ((r.recovery_reset_pending == 0)
        && (r.recovery_reset_session_identifier != session_seed_invalid))
    || ((r.recovery_reset_pending != 0)
        && ((r.base.session_state isnt SessionState.recovering)
            || (r.session.state isnt SessionState.recovering)
            || (r.base.link_state isnt LinkState.connected)
            || (r.session.link_state isnt LinkState.connected)
            || (r.recovery_reset_session_identifier == session_seed_invalid)
            || (r.recovery_reset_session_identifier == session_seed_reserved)
            || (r.control_output_state is ControlOutputState.idle)))

-- The `switch` on the selection.
unfoldable pub selection_matches : OutputSelection → Bool → Bool → Bool
selection_matches OutputSelection.none reliable control = not reliable && not control
selection_matches OutputSelection.reliable reliable control = reliable && not control
selection_matches OutputSelection.control reliable control = control && not reliable

-- What `validate_state` answers: its status, the three flags that it writes, and the endpoint.
pub record Pending : Type 0 where
  pub status : Status
  pub reliable_output : Bool
  pub control_output : Bool
  pub reliable_delivery : Bool
  pub root : Root

unfoldable pub validate_state : Root → Pending
validate_state r =
    let (reliable_status, output, delivery, r') = Reliability.get_pending_status r in
    if reliable_status isnt Status.ok
    then record {
      status = reliable_status;
      reliable_output = output;
      control_output = false;
      reliable_delivery = delivery;
      root = r';
    }
    else let (control_status, control, r'') = Control.get_pending_status r' in
      if control_status isnt Status.ok
      then record {
        status = control_status;
        reliable_output = output;
        control_output = control;
        reliable_delivery = delivery;
        root = r'';
      }
      else if recovery_is_inconsistent r''
          || (reliable_peeked r'' && control_peeked r'')
          || not (selection_matches r''.output_selection (reliable_peeked r'') (control_peeked r''))
      then (let (failed, faulted) = record_invariant_failure r'' in
          record {
            status = failed;
            reliable_output = output;
            control_output = control;
            reliable_delivery = delivery;
            root = faulted;
          })
      else record {
        status = Status.ok;
        reliable_output = output;
        control_output = control;
        reliable_delivery = delivery;
        root = r'';
      }

unfoldable pub is_faulted : Root → Bool
is_faulted r =
    (r.base.session_state is SessionState.fault) || (r.session.state is SessionState.fault)

-- The selection of an unpinned peek: control output before reliable output.
unfoldable pub select : OutputSelection → Bool → Bool → OutputSelection
select OutputSelection.none reliable control =
    if control
    then OutputSelection.control
    else if reliable
    then OutputSelection.reliable
    else OutputSelection.none
select selection reliable control = selection

-- A peek that succeeds pins its selection.
unfoldable pub pin_selection : OutputSelection → Peek → Peek
pin_selection selection p =
    if p.status is Status.ok
    then record p { root = record (p.root) { output_selection = selection } }
    else p

unfoldable pub peek_selected : OutputSelection → Root → Option (List ℕ) → ℕ → Peek
peek_selected OutputSelection.none r out out_size = record {
  status = Status.not_ready;
  out_buffer = out;
  output_size = 0;
  root = r;
}
peek_selected OutputSelection.control r out out_size =
    pin_selection OutputSelection.control (Control.peek_output r out out_size)
peek_selected OutputSelection.reliable r out out_size =
    pin_selection OutputSelection.reliable (Reliability.peek_output r out out_size)

unfoldable pub peek_output : Root → Option (List ℕ) → ℕ → Peek
peek_output r out out_size =
    if null_with_size out out_size
    then record { status = Status.invalid_argument; out_buffer = out; output_size = 0; root = r }
    else if is_faulted r
    then record { status = Status.internal_error; out_buffer = out; output_size = 0; root = r }
    else let pending = validate_state r in
      if pending.status isnt Status.ok
      then record {
        status = pending.status;
        out_buffer = out;
        output_size = 0;
        root = pending.root;
      }
      else peek_selected
          (select pending.root.output_selection pending.reliable_output pending.control_output)
          pending.root out out_size

-- What a commit of the pinned item leaves of the arbiter.
unfoldable pub unpin : OutputSelection → Reply → Reply
unpin selection (status, r) =
    if status isnt Status.ok
    then (status, r)
    else if (selection is OutputSelection.control) && (r.recovery_reset_pending != 0)
    then (
      status,
      record r {
        recovery_reset_pending = 0;
        recovery_reset_session_identifier = session_seed_invalid;
        output_selection = OutputSelection.none;
      },
    )
    else (status, record r { output_selection = OutputSelection.none })

unfoldable pub commit_selected : OutputSelection → Root → ℕ → Reply
commit_selected OutputSelection.none r now_ms = (Status.not_ready, r)
commit_selected OutputSelection.reliable r now_ms =
    unpin OutputSelection.reliable (Reliability.commit_output r now_ms)
commit_selected OutputSelection.control r now_ms =
    unpin OutputSelection.control (Control.commit_output r)

unfoldable pub commit_output : Root → ℕ → Reply
commit_output r now_ms =
    if is_faulted r
    then (Status.internal_error, r)
    else let pending = validate_state r in
      if pending.status isnt Status.ok
      then (pending.status, pending.root)
      else commit_selected pending.root.output_selection pending.root now_ms

unfoldable pub reset : Root → Reply
reset r =
    let (reliable_status, r') = Reliability.reset r in
    let (control_status, r'') = Control.reset r' in
    let r''' = record r'' { output_selection = OutputSelection.none } in
    if reliable_status isnt Status.ok then (reliable_status, r''') else (control_status, r''')

-- The status, whether output and whether reliable delivery is pending, and the endpoint.
unfoldable pub get_pending_status : Root → Status × Bool × Bool × Root
get_pending_status r =
    let pending = validate_state r in
    if pending.status isnt Status.ok then (pending.status, false, false, pending.root) else (
      Status.ok,
      pending.reliable_output || pending.control_output,
      pending.reliable_delivery,
      pending.root,
    )
