-- ===== src/Reliability/Steps.antt =====
-- The reliable frame as a state machine: an endpoint takes the operations in any order.
use hil_rig_protocol.Common.{ℕ, ◌≡◌, List, Option}
use hil_rig_protocol.Root.{Root, FrameType}
use hil_rig_protocol.Reliability.{
  publish_encoded, peek_output, commit_output, accept_acknowledgement,
}
use hil_rig_protocol.Reliability.{process_pending, request_retransmission, reset}
use hil_rig_protocol.Reliability.Validity.{IsValid, publish_encoded-IsValid, peek_output-IsValid}
use hil_rig_protocol.Reliability.Validity.{commit_output-IsValid, accept_acknowledgement-IsValid}
use hil_rig_protocol.Reliability.Validity.{process_pending-IsValid, request_retransmission-IsValid}
use hil_rig_protocol.Reliability.Validity.{reset-IsValid}

-- One call, with any arguments, whatever status it reports.
pub data Step (r u : Root) : Type 0 where
  publish :
      (t : FrameType) (sequence size : ℕ) → u ≡ (publish_encoded r t sequence size).1 → Step r u
  peek : (out : Option (List ℕ)) (out_size : ℕ) → u ≡ (peek_output r out out_size).root → Step r u
  commit : (now_ms : ℕ) → u ≡ (commit_output r now_ms).1 → Step r u
  acknowledge : (sequence : ℕ) → u ≡ (accept_acknowledgement r sequence).root → Step r u
  process : (now_ms : ℕ) → u ≡ (process_pending r now_ms).2 → Step r u
  request : (t : FrameType) → u ≡ (request_retransmission r t).2 → Step r u
  clear : u ≡ (reset r).1 → Step r u

pub data Reach (r : Root) : Root → Type 0 where
  here : Reach r r
  next : {u w : Root} → Reach r u → Step u w → Reach r w

Step-IsValid : {r u : Root} → Step r u → IsValid r → IsValid u
Step-IsValid (publish t sequence size e) v = rw e (publish_encoded-IsValid t sequence size v)
Step-IsValid (peek out out_size e) v = rw e (peek_output-IsValid out out_size v)
Step-IsValid (commit now_ms e) v = rw e (commit_output-IsValid now_ms v)
Step-IsValid (acknowledge sequence e) v = rw e (accept_acknowledgement-IsValid sequence v)
Step-IsValid (process now_ms e) v = rw e (process_pending-IsValid now_ms v)
Step-IsValid (request t e) v = rw e (request_retransmission-IsValid t v)
Step-IsValid (clear e) v = rw e (reset-IsValid v)

-- Every sequence of calls of the frame's operations, with any arguments and whatever they answer,
-- leads from a valid endpoint to a valid one.
pub Reach-IsValid : {r u : Root} → Reach r u → IsValid r → IsValid u
Reach-IsValid here v = v
Reach-IsValid (next path s) v = Step-IsValid s (Reach-IsValid path v)
