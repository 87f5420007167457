-- ===== src/Reliability/Validity.antt =====
-- The invariant of the reliable frame, which every operation keeps.
use hil_rig_protocol.Common.{
  ℕ, ◌+◌, ◌^◌, ◌≤◌, ◌<◌, ◌≡◌, arith, List, true, Option, length, some, none, u16, ◌isnt◌, ◌⊎◌, inl,
  inr, ◌&&◌, false,
}
use hil_rig_protocol.Types.{Status}
use hil_rig_protocol.Root.{Root, FrameType, ReliableState, reliable_state_enum}
use hil_rig_protocol.Reliability.{has_storage, validate_state, publish_encoded, peek_output}
use hil_rig_protocol.Reliability.{commit_output, accept_acknowledgement, process_pending}
use hil_rig_protocol.Reliability.{request_retransmission, reset, clear_metadata, get_pending_status}
use hil_rig_protocol.Reliability.{
  pin, expire, record_invariant_failure, copy_frame, count_retry, Outcome,
}

-- The code's own checks pass, the region for the frame is there, and the configured number of
-- retries and the next sequence fit their widths.
pub record IsValid (r : Root) : Type 0 where
  pub consistent : (validate_state r).0 ≡ Status.ok
  pub provisioned : has_storage r ≡ true
  pub stored : r.encoded_output_capacity ≤ length r.encoded_output
  pub retries_in : r.base.config.max_retries < 256
  pub next_in : r.session.next_transmit_sequence < 2 ^ 16

pub validate_state-ok :
    (r : Root) → (validate_state r).0 ≡ Status.ok → validate_state r ≡ (Status.ok, r)
unfolding validate_state
validate_state-ok r h = ground arith

-- The code's own check passes a valid state and changes nothing.
pub validate_state-IsValid : {r : Root} → IsValid r → validate_state r ≡ (Status.ok, r)
validate_state-IsValid {r} v = validate_state-ok r v.consistent

clear_metadata-IsValid :
    {r : Root} (next : ℕ)
    → IsValid r
    → next < 2 ^ 16
    → IsValid (
        clear_metadata
          (record r { session = record (r.session) { next_transmit_sequence = next } }))
unfolding clear_metadata validate_state has_storage
clear_metadata-IsValid next v h = ground arith

pub pin-IsValid :
    {r : Root}
    → IsValid r
    → IsValid (record r {
      session = record (r.session) { reliable_state = pin r.session.reliable_state };
    })
unfolding validate_state has_storage pin
pin-IsValid {r} v = ground arith

expire-IsValid :
    {r : Root}
    → IsValid r
    → r.session.reliable_state ≡ ReliableState.awaiting_ack
    → IsValid (expire r).2
unfolding expire validate_state has_storage
expire-IsValid {r} v e = ground arith

record_fault-IsValid : {r : Root} → IsValid r → IsValid (record_invariant_failure r).1
unfolding record_invariant_failure validate_state has_storage
record_fault-IsValid {r} v = ground arith

pub publish_encoded-IsValid :
    {r : Root} (t : FrameType) (sequence size : ℕ)
    → IsValid r
    → IsValid (publish_encoded r t sequence size).1
unfolding publish_encoded validate_state
publish_encoded-IsValid {r} t sequence size v = ground (arith, validate_state-ok r v.consistent)

-- What a peek does to the endpoint: nothing, or it pins the frame.
pub peek_output-cases :
    {r : Root} (out : Option (List ℕ)) (out_size : ℕ)
    → IsValid r
    → ((peek_output r out out_size).root ≡ r)
      ⊎ ((peek_output r out out_size).root ≡ record r {
        session = record (r.session) { reliable_state = pin r.session.reliable_state };
      })
unfolding peek_output copy_frame
peek_output-cases none out_size v = ground (arith, validate_state-IsValid v)
peek_output-cases (some out) out_size v = ground (arith, validate_state-IsValid v)

pub peek_output-IsValid :
    {r : Root} (out : Option (List ℕ)) (out_size : ℕ)
    → IsValid r
    → IsValid (peek_output r out out_size).root
peek_output-IsValid out out_size v = elim (peek_output-cases out out_size v) [
  | inl e ↦ rw e v
  | inr e ↦ rw e (pin-IsValid v)
]

-- The endpoint after a commit that succeeds.
abbrev pub committed : Root → ℕ → Root
committed r now_ms = record r {
  session = record (r.session) {
    retransmissions_committed =
        count_retry r.session.reliable_state r.session.retransmissions_committed;
    reliable_last_committed_ms = now_ms;
    reliable_state = ReliableState.awaiting_ack;
  };
}

pub committed-IsValid :
    {r : Root} (now_ms : ℕ)
    → IsValid r
    → ((r.session.reliable_state isnt ReliableState.peeked)
        && (r.session.reliable_state isnt ReliableState.retransmit_peeked))
      ≡ false
    → IsValid (committed r now_ms)
unfolding validate_state has_storage
committed-IsValid {r} now_ms v e = ground arith

pub commit_output-cases :
    {r : Root} (now_ms : ℕ)
    → IsValid r
    → (commit_output r now_ms ≡ (Status.not_ready, r))
      ⊎ ((((r.session.reliable_state isnt ReliableState.peeked)
              && (r.session.reliable_state isnt ReliableState.retransmit_peeked))
            ≡ false)
          × (commit_output r now_ms ≡ (Status.ok, committed r now_ms)))
unfolding commit_output
commit_output-cases now_ms v = ground (arith, validate_state-IsValid v)

pub commit_output-IsValid : {r : Root} (now_ms : ℕ) → IsValid r → IsValid (commit_output r now_ms).1
commit_output-IsValid now_ms v = elim (commit_output-cases now_ms v) [
  | inl e ↦ rw e v
  | inr (p, e) ↦ rw e (committed-IsValid now_ms v p)
]

abbrev advanced : Root → Root
advanced r = clear_metadata (record r {
  session = record (r.session) {
    next_transmit_sequence = u16 (r.session.retained_transmit_sequence + 1);
  };
})

accept_acknowledgement-cases :
    {r : Root} (sequence : ℕ)
    → IsValid r
    → ((accept_acknowledgement r sequence).root ≡ r)
      ⊎ ((accept_acknowledgement r sequence).root ≡ advanced r)
unfolding accept_acknowledgement
accept_acknowledgement-cases {r} sequence v = ground (arith, validate_state-IsValid v)

pub accept_acknowledgement-IsValid :
    {r : Root} (sequence : ℕ) → IsValid r → IsValid (accept_acknowledgement r sequence).root
accept_acknowledgement-IsValid sequence v = elim (accept_acknowledgement-cases sequence v) [
  | inl e ↦ rw e v
  | inr e ↦ rw e (clear_metadata-IsValid _ v (omega arith))
]

pub process_pending-cases :
    {r : Root} (now_ms : ℕ)
    → IsValid r
    → (process_pending r now_ms ≡ (Status.ok, Outcome.no_change, r))
      ⊎ ((r.session.reliable_state ≡ ReliableState.awaiting_ack)
          × (process_pending r now_ms ≡ expire r))
unfolding process_pending
process_pending-cases {r} now_ms v = ground (arith, validate_state-IsValid v)

pub process_pending-IsValid :
    {r : Root} (now_ms : ℕ) → IsValid r → IsValid (process_pending r now_ms).2
process_pending-IsValid now_ms v = elim (process_pending-cases now_ms v) [
  | inl e ↦ rw e v
  | inr (p, e) ↦ rw e (expire-IsValid v p)
]

pub request_retransmission-cases :
    {r : Root} (t : FrameType)
    → IsValid r
    → ((request_retransmission r t).2 ≡ r)
      ⊎ ((request_retransmission r t).2 ≡ (record_invariant_failure r).1)
      ⊎ ((r.session.reliable_state ≡ ReliableState.awaiting_ack)
          × (request_retransmission r t ≡ expire r))
unfolding request_retransmission
request_retransmission-cases {r} t v = ground (arith, validate_state-IsValid v)

pub request_retransmission-IsValid :
    {r : Root} (t : FrameType) → IsValid r → IsValid (request_retransmission r t).2
request_retransmission-IsValid t v = elim (request_retransmission-cases t v) [
  | inl e ↦ rw e v
  | inr (inl e) ↦ rw e (record_fault-IsValid v)
  | inr (inr (p, e)) ↦ rw e (expire-IsValid v p)
]

pub reset-IsValid : {r : Root} → IsValid r → IsValid (reset r).1
unfolding reset validate_state
reset-IsValid {r} v = ground arith

pub get_pending_status-IsValid :
    {r : Root}
    → IsValid r
    → let (status, output, delivery, r') = get_pending_status r in (status ≡ Status.ok) × (r' ≡ r)
unfolding get_pending_status
get_pending_status-IsValid v = ground (arith, validate_state-IsValid v)
