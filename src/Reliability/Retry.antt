-- ===== src/Reliability/Retry.antt =====
-- Timed retries of the frame that is held.
use hil_rig_protocol.Common.{
  ℕ, ◌+◌, ◌-◌, ◌%◌, ◌^◌, ◌≤◌, ◌<◌, ◌≡◌, refl, sym, subst, ◌∙◌, ap₂, arith, List, [], ◌∷◌, Option,
  some, memcpy, if◌then◌else◌, ◌is◌, inl, inr,
}
use hil_rig_protocol.Types.{Status, status_enum}
use hil_rig_protocol.Root.{Root, FrameType, ReliableState}
use hil_rig_protocol.Reliability.{
  peek_output, commit_output, process_pending, request_retransmission,
}
use hil_rig_protocol.Reliability.{Outcome, expire, pin, record_invariant_failure, validate_state}
use hil_rig_protocol.Reliability.Validity.{IsValid, validate_state-IsValid, peek_output-IsValid}
use hil_rig_protocol.Reliability.Validity.{commit_output-IsValid, process_pending-IsValid}
use hil_rig_protocol.Reliability.Validity.{request_retransmission-IsValid, peek_output-cases}
use hil_rig_protocol.Reliability.Validity.{commit_output-cases, process_pending-cases}
use hil_rig_protocol.Reliability.Validity.{request_retransmission-cases}

-- On a valid endpoint with a timeout that is not 0, for a frame committed `d` milliseconds ago on
-- a 32-bit clock, which may have wrapped since: before the timeout nothing changes; from the
-- timeout on the frame becomes ready for a retry if retries are left, and is exhausted if not.
pub process_pending-elapsed :
    {r : Root} (d : ℕ)
    → IsValid r
    → r.session.reliable_state ≡ ReliableState.awaiting_ack
    → r.session.reliable_last_committed_ms < 2 ^ 32
    → 0 < r.base.config.retransmit_timeout_ms
    → d < 2 ^ 32
    → let (status, outcome, r') =
        process_pending r ((r.session.reliable_last_committed_ms + d) % 2 ^ 32) in
      (status ≡ Status.ok)
      × (d < r.base.config.retransmit_timeout_ms → (outcome ≡ Outcome.no_change) × (r' ≡ r))
      × (r.base.config.retransmit_timeout_ms ≤ d
          → r.session.retransmissions_committed < r.base.config.max_retries
          → (outcome ≡ Outcome.retransmit_ready)
            × (r'.session.reliable_state ≡ ReliableState.retransmit_ready))
      × (r.base.config.retransmit_timeout_ms ≤ d
          → r.base.config.max_retries ≤ r.session.retransmissions_committed
          → (outcome ≡ Outcome.retries_exhausted)
            × (r'.session.reliable_state ≡ ReliableState.exhausted))
unfolding process_pending expire
process_pending-elapsed {r} d v waiting clock timed h =
    let ok = validate_state-IsValid v in
    (
      ground (arith, ok),
      λ p. ground (arith, ok),
      λ p q. ground (arith, ok),
      λ p q. ground (arith, ok),
    )

-- What the owner of a held frame may do before it is acknowledged.
pub data Op : Type 0 where
  peek : Option (List ℕ) → ℕ → Op
  commit : ℕ → Op
  process : ℕ → Op
  request : FrameType → Op

unfoldable pub apply : Root → Op → Root
apply r (peek out out_size) = (peek_output r out out_size).root
apply r (commit now_ms) = (commit_output r now_ms).1
apply r (process now_ms) = (process_pending r now_ms).2
apply r (request t) = (request_retransmission r t).2

unfoldable pub apply_all : Root → List Op → Root
unfolding apply
apply_all r [] = r
apply_all r (op ∷ ops) = apply_all (apply r op) ops

-- A commit that succeeds is a transmission: external I/O has taken the bytes.
pub transmits : Root → Op → ℕ
transmits r (commit now_ms) = if (commit_output r now_ms).0 is Status.ok then 1 else 0
transmits r op = 0

pub transmissions : Root → List Op → ℕ
unfolding apply transmits
transmissions r [] = 0
transmissions r (op ∷ ops) = transmits r op + transmissions (apply r op) ops

-- How often the frame may still be transmitted.
allowance : Root → ℕ
allowance r = elim r.session.reliable_state [
  | ReliableState.idle ↦ 0
  | ReliableState.ready ↦ r.base.config.max_retries + 1
  | ReliableState.peeked ↦ r.base.config.max_retries + 1
  | ReliableState.awaiting_ack ↦ r.base.config.max_retries - r.session.retransmissions_committed
  | ReliableState.retransmit_ready ↦ r.base.config.max_retries - r.session.retransmissions_committed
  | ReliableState.retransmit_peeked ↦
      r.base.config.max_retries - r.session.retransmissions_committed
  | ReliableState.exhausted ↦ 0
]

apply-IsValid : {r : Root} (op : Op) → IsValid r → IsValid (apply r op)
unfolding apply
apply-IsValid (peek out out_size) v = peek_output-IsValid out out_size v
apply-IsValid (commit now_ms) v = commit_output-IsValid now_ms v
apply-IsValid (process now_ms) v = process_pending-IsValid now_ms v
apply-IsValid (request t) v = request_retransmission-IsValid t v

counters :
    {r : Root}
    → IsValid r
    → (r.session.reliable_state ≡ ReliableState.peeked → r.session.retransmissions_committed ≡ 0)
      × (r.session.reliable_state ≡ ReliableState.retransmit_peeked
          → r.session.retransmissions_committed < r.base.config.max_retries)
unfolding validate_state
counters {r} v = (λ e. ground arith, λ e. ground arith)

expire-allowance :
    (r : Root)
    → r.session.reliable_state ≡ ReliableState.awaiting_ack
    → allowance (expire r).2 ≤ allowance r
unfolding expire allowance
expire-allowance r e = ground arith

process-allowance :
    {r : Root} (now_ms : ℕ) → IsValid r → allowance (process_pending r now_ms).2 ≤ allowance r
process-allowance {r} now_ms v = elim (process_pending-cases now_ms v) [
  | inl e ↦ rw e (omega arith)
  | inr (p, e) ↦ rw e (expire-allowance r p)
]

request-allowance :
    {r : Root} (t : FrameType) → IsValid r → allowance (request_retransmission r t).2 ≤ allowance r
request-allowance {r} t v = elim (request_retransmission-cases t v) [
  | inl e ↦ rw e (omega arith)
  | inr (inl e) ↦ rw e (unfold record_invariant_failure allowance in ground arith)
  | inr (inr (p, e)) ↦ rw e (expire-allowance r p)
]

peek-allowance :
    {r : Root} (out : Option (List ℕ)) (out_size : ℕ)
    → IsValid r
    → allowance (peek_output r out out_size).root ≤ allowance r
peek-allowance {r} out out_size v = elim (peek_output-cases out out_size v) [
  | inl e ↦ rw e (omega arith)
  | inr e ↦ rw e (unfold pin allowance in ground arith)
]

commit-allowance :
    {r : Root} (now_ms : ℕ)
    → IsValid r
    → (if (commit_output r now_ms).0 is Status.ok then 1 else 0)
        + allowance (commit_output r now_ms).1
      ≤ allowance r
commit-allowance {r} now_ms v = elim (commit_output-cases now_ms v) [
  | inl e ↦ rw e (omega arith)
  | inr (p, e) ↦
      rw e (unfold allowance in ground (arith, p, (counters v).0, (counters v).1, v.retries_in))
]

-- An operation spends from the allowance what it transmits.
transmits-allowance :
    {r : Root} (op : Op) → IsValid r → transmits r op + allowance (apply r op) ≤ allowance r
unfolding transmits apply
transmits-allowance (peek out out_size) v = omega (arith, peek-allowance out out_size v)
transmits-allowance (commit now_ms) v = commit-allowance now_ms v
transmits-allowance (process now_ms) v = omega (arith, process-allowance now_ms v)
transmits-allowance (request t) v = omega (arith, request-allowance t v)

transmissions-allowance : {r : Root} (ops : List Op) → IsValid r → transmissions r ops ≤ allowance r
unfolding transmissions
transmissions-allowance [] v = omega arith
transmissions-allowance {r} (op ∷ ops) v = omega (
  arith,
  transmits-allowance op v,
  transmissions-allowance {r = apply r op} ops (apply-IsValid op v),
)

-- On a valid endpoint, a frame that was just published is transmitted at most once and then once
-- for each configured retry, whatever is peeked, committed, timed out or requested, in whatever
-- order.
pub transmissions-bound :
    {r : Root} (ops : List Op)
    → IsValid r
    → r.session.reliable_state ≡ ReliableState.ready
    → transmissions r ops ≤ r.base.config.max_retries + 1
unfolding allowance
transmissions-bound {r} ops v e = ground (arith, transmissions-allowance ops v)

-- The bytes that the endpoint owns for the frame.
abbrev SameBytes : Root → Root → Type 0
SameBytes r u =
    (u.encoded_output ≡ r.encoded_output) × (u.encoded_output_size ≡ r.encoded_output_size)

expire-bytes : (r : Root) → SameBytes r (expire r).2
unfolding expire
expire-bytes r = ground arith

peek-bytes :
    {r : Root} (out : Option (List ℕ)) (out_size : ℕ)
    → IsValid r
    → SameBytes r (peek_output r out out_size).root
peek-bytes {r} out out_size v = elim (peek_output-cases out out_size v) [
  | inl e ↦ subst (SameBytes r) (sym e) (refl, refl)
  | inr e ↦ subst (SameBytes r) (sym e) (refl, refl)
]

commit-bytes : {r : Root} (now_ms : ℕ) → IsValid r → SameBytes r (commit_output r now_ms).1
commit-bytes {r} now_ms v = elim (commit_output-cases now_ms v) [
  | inl e ↦ subst (λ x. SameBytes r x.1) (sym e) (refl, refl)
  | inr (p, e) ↦ subst (λ x. SameBytes r x.1) (sym e) (refl, refl)
]

process-bytes : {r : Root} (now_ms : ℕ) → IsValid r → SameBytes r (process_pending r now_ms).2
process-bytes {r} now_ms v = elim (process_pending-cases now_ms v) [
  | inl e ↦ subst (λ x. SameBytes r x.2) (sym e) (refl, refl)
  | inr (p, e) ↦ subst (λ x. SameBytes r x.2) (sym e) (expire-bytes r)
]

request-bytes : {r : Root} (t : FrameType) → IsValid r → SameBytes r (request_retransmission r t).2
request-bytes {r} t v = elim (request_retransmission-cases t v) [
  | inl e ↦ subst (SameBytes r) (sym e) (refl, refl)
  | inr (inl e) ↦ subst (SameBytes r) (sym e) (unfold record_invariant_failure in (refl, refl))
  | inr (inr (p, e)) ↦ subst (λ x. SameBytes r x.2) (sym e) (expire-bytes r)
]

apply-bytes : {r : Root} (op : Op) → IsValid r → SameBytes r (apply r op)
unfolding apply
apply-bytes (peek out out_size) v = peek-bytes out out_size v
apply-bytes (commit now_ms) v = commit-bytes now_ms v
apply-bytes (process now_ms) v = process-bytes now_ms v
apply-bytes (request t) v = request-bytes t v

apply_all-bytes :
    {r : Root} (ops : List Op)
    → IsValid r
    → ((apply_all r ops).encoded_output ≡ r.encoded_output)
      × ((apply_all r ops).encoded_output_size ≡ r.encoded_output_size)
      × IsValid (apply_all r ops)
unfolding apply_all
apply_all-bytes [] v = (refl, refl, v)
apply_all-bytes {r} (op ∷ ops) v =
    let (bytes, size) = apply-bytes op v in
    let (bytes', size', v') = apply_all-bytes {r = apply r op} ops (apply-IsValid op v) in
    (bytes' ∙ bytes, size' ∙ size, v')

peek_output-copies :
    {r : Root} (out : List ℕ) (out_size : ℕ)
    → IsValid r
    → (peek_output r (some out) out_size).status ≡ Status.ok
    → (peek_output r (some out) out_size).out_buffer
      ≡ some (memcpy out r.encoded_output r.encoded_output_size)
unfolding peek_output
peek_output-copies {r} out out_size v e = ground (arith, validate_state-IsValid v)

-- Every transmission of a held frame shows the same bytes: from a valid endpoint, after any
-- sequence of the owner's operations, a peek that succeeds copies exactly the bytes that were held
-- at the start.
pub retry-same_bytes :
    {r : Root} (ops : List Op) (out : List ℕ) (out_size : ℕ)
    → IsValid r
    → (peek_output (apply_all r ops) (some out) out_size).status ≡ Status.ok
    → (peek_output (apply_all r ops) (some out) out_size).out_buffer
      ≡ some (memcpy out r.encoded_output r.encoded_output_size)
retry-same_bytes {r} ops out out_size v e =
    let (bytes, size, v') = apply_all-bytes ops v in
    peek_output-copies out out_size v' e ∙ ap₂ (λ b n. some (memcpy out b n)) bytes size
