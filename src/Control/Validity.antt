-- ===== src/Control/Validity.antt =====
-- The invariant of the control slot.
use hil_rig_protocol.Common.{
  ℕ, ◌≤◌, ◌≡◌, ap, ◌∙◌, arith, List, Option, length, some, none, length-memcpy,
}
use hil_rig_protocol.Types.{Status}
use hil_rig_protocol.Root.{Root, control_output_capacity}
use hil_rig_protocol.Control.{
  validate_state, validate_item, publish_encoded, peek_output, commit_output, reset, release,
}
use hil_rig_protocol.Control.{get_pending_status}

-- The code's own check passes, and the slot has its fixed size.
pub record IsValid (r : Root) : Type 0 where
  pub consistent : (validate_state r).0 ≡ Status.ok
  pub slot : length r.control_output ≡ control_output_capacity

pub validate_state-IsValid : {r : Root} → IsValid r → validate_state r ≡ (Status.ok, r)
unfolding validate_state
validate_state-IsValid {r} v = ground arith

pub publish_encoded-IsValid :
    {r : Root} (item : List ℕ) (size : ℕ)
    → IsValid r
    → size ≤ length item
    → IsValid (publish_encoded r item size).1
unfolding publish_encoded validate_state
publish_encoded-IsValid {r} item size v h =
    ground (arith, validate_state-IsValid v, length-memcpy r.control_output item size)

pub peek_output-IsValid :
    {r : Root} (out : Option (List ℕ)) (out_size : ℕ)
    → IsValid r
    → IsValid (peek_output r out out_size).root
unfolding peek_output validate_state
peek_output-IsValid none out_size v = ground (arith, validate_state-IsValid v)
peek_output-IsValid (some out) out_size v = ground (arith, validate_state-IsValid v)

pub commit_output-IsValid : {r : Root} → IsValid r → IsValid (commit_output r).1
unfolding commit_output validate_state
commit_output-IsValid v = ground (arith, validate_state-IsValid v)

-- Reset repairs the slot, whatever its state was.
pub reset-IsValid :
    (r : Root) → length r.control_output ≡ control_output_capacity → IsValid (reset r).1
unfolding reset validate_state
reset-IsValid r h = ground arith

pub release-IsValid :
    (r : Root) → length r.control_output ≡ control_output_capacity → IsValid (release r)
unfolding release validate_state
release-IsValid r h = ground arith

pub get_pending_status-IsValid :
    {r : Root}
    → IsValid r
    → let (status, pending, r') = get_pending_status r in (status ≡ Status.ok) × (r' ≡ r)
unfolding get_pending_status
get_pending_status-IsValid v = ground (arith, validate_state-IsValid v)

-- The invariant reads the slot alone.
pub IsValid-slot :
    {r : Root} (r' : Root)
    → IsValid r
    → r'.control_output ≡ r.control_output
    → r'.control_output_size ≡ r.control_output_size
    → r'.control_output_state ≡ r.control_output_state
    → IsValid r'
unfolding validate_state validate_item
IsValid-slot {r} r' v bytes size state = record {
  consistent = ground (arith, v.consistent);
  slot = ap length bytes ∙ v.slot;
}
