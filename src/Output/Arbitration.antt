-- ===== src/Output/Arbitration.antt =====
-- Which item a peek shows and a commit releases.
use hil_rig_protocol.Common.{
  ℕ, ◌+◌, ◌<◌, ◌≤◌, ◌≡◌, ◌∙◌, arith, List, false, some, ◌isnt◌, memcpy, ◌⊎◌,
}
use hil_rig_protocol.Types.{Status}
use hil_rig_protocol.Root.{
  Root, ReliableState, reliable_state_enum, ControlOutputState, control_output_state_enum,
  OutputSelection,
}
use hil_rig_protocol.Control
use hil_rig_protocol.Control.{null_with_size}
use hil_rig_protocol.Control.Validity as ControlValidity
use hil_rig_protocol.Reliability
use hil_rig_protocol.Reliability.Validity as ReliabilityValidity
use hil_rig_protocol.Output.{
  peek_output, peek_selected, select, selection_matches, control_peeked, reliable_peeked,
  pin_selection, unpin, commit_output, commit_selected,
}
use hil_rig_protocol.Output.Validity.{IsValid, validate_state-IsValid, reliable_pending}

-- A peek on a valid endpoint shows what the selection says.
pub peek_output-selected :
    {r : Root} (out : List ℕ) (out_size : ℕ)
    → IsValid r
    → peek_output r (some out) out_size
      ≡ peek_selected
          (select r.output_selection
            (reliable_pending r)
            (r.control_output_state isnt ControlOutputState.idle))
          r
          (some out)
          out_size
unfolding peek_output
peek_output-selected {r} out out_size v = rw (v.running, validate_state-IsValid v)

-- On a valid endpoint with nothing pinned, control output that waits goes first, whatever reliable
-- output waits: a peek into a buffer that holds it copies the control item and pins it, and
-- touches nothing else.
pub peek_output-control_first :
    {r : Root} (out : List ℕ) (out_size : ℕ)
    → IsValid r
    → r.output_selection ≡ OutputSelection.none
    → r.control_output_state ≡ ControlOutputState.ready
    → r.control_output_size ≤ out_size
    → peek_output r (some out) out_size ≡ record {
      status = Status.ok;
      out_buffer = some (memcpy out r.control_output r.control_output_size);
      output_size = r.control_output_size;
      root = record r {
        control_output_state = ControlOutputState.peeked;
        output_selection = OutputSelection.control;
      };
    }
unfolding select peek_selected pin_selection Control.peek_output
peek_output-control_first {r} out out_size v free waits h =
    peek_output-selected out out_size v
    ∙ ground (arith, ControlValidity.validate_state-IsValid v.control)

-- On a valid endpoint with nothing pinned and no control output, a peek into a buffer that holds
-- it copies and pins a frame that waits: as `peeked` for its first transmission and as
-- `retransmit_peeked` for a retry. It touches nothing else.
pub peek_output-reliable :
    {r : Root} {pinned : ReliableState} (out : List ℕ) (out_size : ℕ)
    → IsValid r
    → r.output_selection ≡ OutputSelection.none
    → r.control_output_state ≡ ControlOutputState.idle
    → ((r.session.reliable_state ≡ ReliableState.ready) × (pinned ≡ ReliableState.peeked))
      ⊎ ((r.session.reliable_state ≡ ReliableState.retransmit_ready)
          × (pinned ≡ ReliableState.retransmit_peeked))
    → r.encoded_output_size ≤ out_size
    → peek_output r (some out) out_size ≡ record {
      status = Status.ok;
      out_buffer = some (memcpy out r.encoded_output r.encoded_output_size);
      output_size = r.encoded_output_size;
      root = record r {
        session = record (r.session) { reliable_state = pinned };
        output_selection = OutputSelection.reliable;
      };
    }
unfolding select peek_selected pin_selection Reliability.peek_output Reliability.copy_frame
    Reliability.pin reliable_pending
peek_output-reliable {r} {pinned} out out_size v free quiet waits h =
    peek_output-selected out out_size v
    ∙ ground (arith, ReliabilityValidity.validate_state-IsValid v.reliable)

-- Nothing is shown, and nothing changes, when neither lifecycle has output.
pub peek_output-none :
    {r : Root} (out : List ℕ) (out_size : ℕ)
    → IsValid r
    → r.output_selection ≡ OutputSelection.none
    → r.control_output_state ≡ ControlOutputState.idle
    → reliable_pending r ≡ false
    → peek_output r (some out) out_size
      ≡ record { status = Status.not_ready; out_buffer = some out; output_size = 0; root = r }
unfolding select peek_selected
peek_output-none {r} out out_size v free quiet silent =
    peek_output-selected out out_size v ∙ ground arith

pub commit_output-selected :
    {r : Root} (now_ms : ℕ)
    → IsValid r
    → commit_output r now_ms ≡ commit_selected r.output_selection r now_ms
unfolding commit_output
commit_output-selected {r} now_ms v = rw (v.running, validate_state-IsValid v)

pub control_pinned :
    {r : Root}
    → IsValid r
    → r.output_selection ≡ OutputSelection.control
    → r.control_output_state ≡ ControlOutputState.peeked
unfolding selection_matches control_peeked reliable_peeked
control_pinned v p = ground (arith, v.selected)

pub reliable_pinned :
    {r : Root}
    → IsValid r
    → r.output_selection ≡ OutputSelection.reliable
    → (r.session.reliable_state ≡ ReliableState.peeked)
      ⊎ (r.session.reliable_state ≡ ReliableState.retransmit_peeked)
unfolding selection_matches control_peeked reliable_peeked
reliable_pinned v p = ground (arith, v.selected)

reliable_committed :
    {r : Root} (now_ms : ℕ)
    → IsValid r
    → r.output_selection ≡ OutputSelection.reliable
    → let (status, r') = commit_output r now_ms in
      (status ≡ Status.ok)
      × (r'.output_selection ≡ OutputSelection.none)
      × (r'.session.reliable_state ≡ ReliableState.awaiting_ack)
      × (r'.session.reliable_last_committed_ms ≡ now_ms)
      × (r'.control_output_state ≡ r.control_output_state)
      × (r'.control_output_size ≡ r.control_output_size)
      × (r'.control_output ≡ r.control_output)
unfolding commit_selected unpin Reliability.commit_output
reliable_committed {r} now_ms v p = ground (
  arith,
  commit_output-selected now_ms v,
  ReliabilityValidity.validate_state-IsValid v.reliable,
  reliable_pinned v p,
)

-- A retry that is pinned is within the limit.
retry_room :
    {r : Root}
    → ReliabilityValidity.IsValid r
    → r.session.reliable_state ≡ ReliableState.retransmit_peeked
    → r.session.retransmissions_committed + 1 < 256
unfolding Reliability.validate_state
retry_room {r} v again = ground (arith, v.consistent, v.retries_in)

-- On a valid endpoint a commit goes to the lifecycle that the last complete peek pinned, and to no
-- other. With nothing pinned it is refused and changes nothing. A pinned control item is released
-- at once, with the recovery RESET that it may carry, and the reliable frame stays as it was. A
-- pinned frame waits for its acknowledgement from the given time on, its retries are as many as
-- before for a first transmission and one more for a retry, and the control slot stays as it was.
pub commit_output-routes :
    {r : Root} (now_ms : ℕ)
    → IsValid r
    → let (status, r') = commit_output r now_ms in
      (r.output_selection ≡ OutputSelection.none → (status ≡ Status.not_ready) × (r' ≡ r))
      × (r.output_selection ≡ OutputSelection.control
          → (status ≡ Status.ok)
            × (r'.output_selection ≡ OutputSelection.none)
            × (r'.control_output_state ≡ ControlOutputState.idle)
            × (r'.control_output_size ≡ 0)
            × (r'.recovery_reset_pending ≡ 0)
            × (r'.session ≡ r.session)
            × (r'.encoded_output_size ≡ r.encoded_output_size))
      × (r.output_selection ≡ OutputSelection.reliable
          → (status ≡ Status.ok)
            × (r'.output_selection ≡ OutputSelection.none)
            × (r'.session.reliable_state ≡ ReliableState.awaiting_ack)
            × (r'.session.reliable_last_committed_ms ≡ now_ms)
            × (r.session.reliable_state ≡ ReliableState.peeked
                → r'.session.retransmissions_committed ≡ r.session.retransmissions_committed)
            × (r.session.reliable_state ≡ ReliableState.retransmit_peeked
                → r'.session.retransmissions_committed ≡ r.session.retransmissions_committed + 1)
            × (r'.control_output_state ≡ r.control_output_state)
            × (r'.control_output_size ≡ r.control_output_size)
            × (r'.control_output ≡ r.control_output))
unfolding commit_selected unpin Control.commit_output Reliability.commit_output
commit_output-routes {r} now_ms v =
    let c = ControlValidity.validate_state-IsValid v.control in
    let f = ReliabilityValidity.validate_state-IsValid v.reliable in
    let e = commit_output-selected now_ms v in
    (
      λ p. ground (arith, e),
      λ p. ground (arith, e, c, control_pinned v p),
      λ p.
          let (status, free, waits, since, state, size, bytes) = reliable_committed now_ms v p in
          (
            status,
            free,
            waits,
            since,
            λ first. ground (arith, e, f, first),
            λ again. ground (arith, e, f, again, retry_room v.reliable again),
            state,
            size,
            bytes,
          ),
    )
