-- ===== src/Handshake/Chain.antt =====
-- A chain of calls that a failure ends, by what its calls return.
use hil_rig_protocol.Common.{◌≡◌, ◌≢◌, arith, ◌⊎◌}
use hil_rig_protocol.Types.{
  Status, status_enum, role_enum, link_state_enum, session_state_enum, failure_enum,
}
use hil_rig_protocol.Root.{Root, Reply, handshake_phase_enum}
use hil_rig_protocol.Handshake.{FrameResult, Handled, then_reply, then_handle, validate_root}
use hil_rig_protocol.Session.{enter_fault, completed_confirm_metadata_is_valid}
use hil_rig_protocol.Parser.{Parser}

pub Status-cases : (s : Status) → (s ≡ Status.ok) ⊎ (s ≢ Status.ok)
Status-cases s = ground arith

pub then_reply-stops : (x : Reply) (next : Root → Reply) → x.0 ≢ Status.ok → then_reply x next ≡ x
unfolding then_reply
then_reply-stops (s, r) next h = ground arith

pub then_handle-stops :
    (x : Reply) (next : Root → Handled)
    → x.0 ≢ Status.ok
    → then_handle x next ≡ (x.0, FrameResult.incompatible, x.1)
unfolding then_handle
then_handle-stops (s, r) next h = ground arith

pub then_reply-ok :
    (x : Reply) (next : Root → Reply) → x.0 ≡ Status.ok → then_reply x next ≡ next x.1
unfolding then_reply
then_reply-ok (s, r) next h = ground arith

-- The entry check reads no parser.
pub validate_root-parser :
    (r : Root) (p : Parser)
    → validate_root r ≡ (Status.ok, r)
    → validate_root (record r { parser = p }) ≡ (Status.ok, record r { parser = p })
unfolding validate_root enter_fault completed_confirm_metadata_is_valid
validate_root-parser r p h = ground (arith, h)
