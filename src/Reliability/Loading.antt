-- ===== src/Reliability/Loading.antt =====
-- The publication of a reliable frame on an endpoint that owns none.
use hil_rig_protocol.Common.{
  memcpy, ℕ, ◌≤◌, ◌<◌, ◌≡◌, ap, subst, arith, List, [], some, true, length,
}
use hil_rig_protocol.Types.{Status, status_enum}
use hil_rig_protocol.Root.{Root, FrameType, frame_type_enum, ReliableState, reliable_state_enum}
use hil_rig_protocol.Sequence.{reserve_sequence}
use hil_rig_protocol.Reliability.{
  has_storage, is_reliable_type, validate_state, publish_encoded, commit_output, peek_output,
  copy_frame, pin,
}
use hil_rig_protocol.Reliability.Validity.{
  IsValid, validate_state-IsValid, publish_encoded-IsValid, peek_output-IsValid,
  commit_output-IsValid,
}

-- The frame of so many bytes is owned and awaits its first transmission.
unfoldable pub loaded : FrameType → ℕ → Root → Root
loaded t size r = record r {
  session = record (r.session) {
    retained_reliable_frame_type = t;
    retained_transmit_sequence = r.session.next_transmit_sequence;
    retransmissions_committed = 0;
    reliable_last_committed_ms = 0;
    reliable_state = ReliableState.ready;
  };
  encoded_output_size = size;
}

pub publish_encoded-loaded :
    {r : Root} (t : FrameType) (size : ℕ)
    → IsValid r
    → r.session.reliable_state ≡ ReliableState.idle
    → is_reliable_type t ≡ true
    → 0 < size
    → size ≤ r.encoded_output_capacity
    → publish_encoded r t r.session.next_transmit_sequence size ≡ (Status.ok, loaded t size r)
unfolding publish_encoded loaded
publish_encoded-loaded {r} t size v idle reliable h k =
    ground (arith, validate_state-IsValid v, v.provisioned)

pub reserve_sequence-idle :
    {r : Root}
    → IsValid r
    → r.session.reliable_state ≡ ReliableState.idle
    → reserve_sequence r.session ≡ (Status.ok, r.session.next_transmit_sequence)
unfolding reserve_sequence validate_state
reserve_sequence-idle {r} v idle = ground (arith, v.consistent)

-- The invariant reads no byte of the regions for the message and for the frame.
pub IsValid-regions :
    {r : Root} (message out : List ℕ)
    → IsValid r
    → length out ≡ length r.encoded_output
    → IsValid (record r { submitted_message = message; encoded_output = out })
unfolding validate_state has_storage
IsValid-regions {r} message out v region = record {
  consistent = ground (arith, v.consistent);
  provisioned = v.provisioned;
  stored = ground (arith, v.stored);
  retries_in = v.retries_in;
  next_in = v.next_in;
}

-- The invariant reads the frame's part of the session alone.
pub IsValid-frame :
    {r : Root} (r' : Root)
    → IsValid r
    → r'.base.config ≡ r.base.config
    → r'.encoded_output ≡ r.encoded_output
    → r'.encoded_output_size ≡ r.encoded_output_size
    → r'.encoded_output_capacity ≡ r.encoded_output_capacity
    → r'.session.reliable_state ≡ r.session.reliable_state
    → r'.session.retained_reliable_frame_type ≡ r.session.retained_reliable_frame_type
    → r'.session.retained_transmit_sequence ≡ r.session.retained_transmit_sequence
    → r'.session.retransmissions_committed ≡ r.session.retransmissions_committed
    → r'.session.reliable_last_committed_ms ≡ r.session.reliable_last_committed_ms
    → r'.session.next_transmit_sequence ≡ r.session.next_transmit_sequence
    → IsValid r'
unfolding validate_state has_storage
IsValid-frame {r} r' v config output size capacity state type number retries time next = record {
  consistent = ground (arith, v.consistent, ap (λ c. c.max_retries) config);
  provisioned = ground (arith, v.provisioned, ap (λ c. c.max_encoded_frame_size) config);
  stored = ground (arith, v.stored, ap length output);
  retries_in = ground (arith, v.retries_in, ap (λ c. c.max_retries) config);
  next_in = ground (arith, v.next_in);
}

pub loaded-IsValid :
    {r : Root} (t : FrameType) (size : ℕ)
    → IsValid r
    → r.session.reliable_state ≡ ReliableState.idle
    → is_reliable_type t ≡ true
    → 0 < size
    → size ≤ r.encoded_output_capacity
    → IsValid (loaded t size r)
loaded-IsValid {r} t size v idle reliable h k =
    subst (λ x. IsValid x.1) (publish_encoded-loaded t size v idle reliable h k)
      (publish_encoded-IsValid t r.session.next_transmit_sequence size v)

-- What a first transmission leaves: the caller peeked at the frame, sent it and committed it.
unfoldable pub transmitted : ℕ → Root → Root
transmitted now_ms r = record r {
  session = record (r.session) {
    reliable_state = ReliableState.awaiting_ack;
    reliable_last_committed_ms = now_ms;
  };
}

pub transmit_once :
    {r : Root} (out : List ℕ) (out_size now_ms : ℕ)
    → IsValid r
    → r.session.reliable_state ≡ ReliableState.ready
    → r.encoded_output_size ≤ out_size
    → commit_output (peek_output r (some out) out_size).root now_ms
      ≡ (Status.ok, transmitted now_ms r)
unfolding commit_output peek_output copy_frame pin transmitted
transmit_once {r} out out_size now_ms v ready h =
    let v' = peek_output-IsValid (some out) out_size v in
    ground (arith, validate_state-IsValid v, validate_state-IsValid v', v.provisioned)

-- What the caller was shown.
pub peek_once :
    {r : Root} (out : List ℕ) (out_size : ℕ)
    → IsValid r
    → r.session.reliable_state ≡ ReliableState.ready
    → r.encoded_output_size ≤ out_size
    → let shown = peek_output r (some out) out_size in
      (shown.status ≡ Status.ok)
      × (shown.out_buffer ≡ some (memcpy out r.encoded_output r.encoded_output_size))
      × (shown.output_size ≡ r.encoded_output_size)
unfolding peek_output copy_frame
peek_once {r} out out_size v ready h =
    let ok = validate_state-IsValid v in
    (
      ground (arith, ok, v.provisioned),
      ground (arith, ok, v.provisioned),
      ground (arith, ok, v.provisioned),
    )

pub transmitted-IsValid :
    {r : Root} (now_ms : ℕ)
    → IsValid r
    → r.session.reliable_state ≡ ReliableState.ready
    → IsValid (transmitted now_ms r)
transmitted-IsValid {r} now_ms v ready =
    let size = r.encoded_output_size in
    subst (λ x. IsValid x.1) (transmit_once [] size now_ms v ready (omega arith))
      (commit_output-IsValid now_ms (peek_output-IsValid (some []) size v))
