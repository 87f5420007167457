-- ===== src/Parser/Framing.antt =====
-- Whole bodies on the wire: nonzero bytes and then a zero.
use hil_rig_protocol.Common.{ℕ, ◌+◌, ◌≤◌, ◌<◌, ◌≡◌, ◌≢◌, arith, length, length-append, length-take}
use hil_rig_protocol.Common.{List, [], ◌∷◌, ◌++◌, append_assoc, append-nil, All, take, drop, some}
use hil_rig_protocol.Types.{Status}
use hil_rig_protocol.Parser.{Parser, Result, need_more_data, body_ready, discarding, discarded_body}
use hil_rig_protocol.Parser.{push_bytes, read_body, peek_body, consume_body, state_is_valid}
use hil_rig_protocol.Parser.Validity.{IsValid, push_bytes-IsValid}
use hil_rig_protocol.Parser.Stream.{collecting, complete, skipping, view, accept, accept_all}
use hil_rig_protocol.Parser.Stream.{push_bytes_refines}

-- A valid parser between two bodies.
pub record IsIdle (p : Parser) : Type 0 where
  pub valid : IsValid p
  pub empty : p.accumulated_size ≡ 0
  pub unread : p.body_ready ≡ 0
  pub keeping : p.discarding ≡ 0

module _ (cap : ℕ) where
  accept_all-body :
      (result : Result) (index : ℕ) (body xs rest : List ℕ)
      → All (λ b. b ≢ 0) xs
      → length body + length xs ≤ cap
      → 0 < length body + length xs
      → accept_all cap result index (collecting body) (xs ++ (0 ∷ rest))
        ≡ (body_ready, index + length xs + 1, complete (body ++ xs))
  unfolding accept_all accept
  accept_all-body result index body [] rest nz fits more = ground (arith, append-nil body)
  accept_all-body result index body (x ∷ xs) rest nz fits more = ground (
    arith,
    length-append body (x ∷ []),
    append_assoc body (x ∷ []) xs,
    accept_all-body need_more_data (index + 1) (body ++ (x ∷ [])) xs rest nz.1,
  )

  accept_all-skip :
      (result : Result) (index : ℕ) (xs rest : List ℕ)
      → All (λ b. b ≢ 0) xs
      → accept_all cap result index skipping (xs ++ (0 ∷ rest))
        ≡ (discarded_body, index + length xs + 1, collecting [])
  unfolding accept_all accept
  accept_all-skip result index [] rest nz = ground arith
  accept_all-skip result index (x ∷ xs) rest nz =
      ground (arith, accept_all-skip discarding (index + 1) xs rest nz.1)

  accept_all-oversized :
      (result : Result) (index : ℕ) (body xs rest : List ℕ)
      → All (λ b. b ≢ 0) xs
      → length body ≤ cap
      → cap < length body + length xs
      → accept_all cap result index (collecting body) (xs ++ (0 ∷ rest))
        ≡ (discarded_body, index + length xs + 1, collecting [])
  unfolding accept_all accept
  accept_all-oversized result index body [] rest nz fits over = absurd (omega arith)
  accept_all-oversized result index body (x ∷ xs) rest nz fits over = ground (
    arith,
    length-append body (x ∷ []),
    accept_all-skip discarding (index + 1) xs rest nz.1,
    accept_all-oversized need_more_data (index + 1) (body ++ (x ∷ [])) xs rest nz.1,
  )

view-IsIdle : {p : Parser} → IsIdle p → view p ≡ collecting []
unfolding view
view-IsIdle i = ground arith

IsIdle-view : {p : Parser} → IsValid p → view p ≡ collecting [] → IsIdle p
unfolding view state_is_valid
IsIdle-view {p} v e = ground (arith, length-take p.accumulated_size p.scratch_buffer)

-- On an idle parser, a nonempty body of nonzero bytes that fits the buffer, and the zero behind
-- it, make a body ready: exactly those bytes are consumed, whatever follows, and what is then
-- collected is the body.
pub push_bytes-body :
    {p : Parser} (body rest : List ℕ)
    → IsIdle p
    → All (λ b. b ≢ 0) body
    → 0 < length body
    → length body ≤ p.scratch_buffer_size
    → let (now, used, p') = push_bytes p (body ++ (0 ∷ rest)) in
      (now ≡ body_ready) × (used ≡ length body + 1) × (view p' ≡ complete body) × IsValid p'
push_bytes-body {p} body rest i nz more fits = ground (
  arith,
  view-IsIdle i,
  push_bytes-IsValid (body ++ (0 ∷ rest)) i.valid,
  push_bytes_refines (body ++ (0 ∷ rest)) i.valid i.unread,
  accept_all-body p.scratch_buffer_size need_more_data 0 [] body rest,
)

-- On an idle parser, a body of nonzero bytes longer than the buffer is skipped up to and with the
-- zero that ends it, and leaves the parser idle: the next body is not lost.
pub push_bytes-oversized :
    {p : Parser} (body rest : List ℕ)
    → IsIdle p
    → All (λ b. b ≢ 0) body
    → p.scratch_buffer_size < length body
    → let (now, used, p') = push_bytes p (body ++ (0 ∷ rest)) in
      (now ≡ discarded_body) × (used ≡ length body + 1) × IsIdle p'
push_bytes-oversized {p} body rest i nz over =
    let (v, _, _) = push_bytes-IsValid (body ++ (0 ∷ rest)) i.valid in
    let view_i : view p ≡ collecting [] = view-IsIdle i in
    let refined = push_bytes_refines (body ++ (0 ∷ rest)) i.valid i.unread in
    let run = accept_all-oversized p.scratch_buffer_size need_more_data 0 [] body rest nz in
    (ground (arith, run), ground (arith, run), IsIdle-view v (ground (arith, run)))

complete-parts :
    {p : Parser} {body : List ℕ}
    → IsValid p
    → view p ≡ complete body
    → (p.body_ready ≢ 0)
      × (take p.accumulated_size p.scratch_buffer ≡ body)
      × (p.accumulated_size ≡ length body)
unfolding view state_is_valid
complete-parts {p} v e = ground (arith, length-take p.accumulated_size p.scratch_buffer)

-- Reading the complete body of a valid parser into a buffer that is large enough copies exactly
-- the body to the start of the buffer, reports its length, and leaves the parser idle.
pub read_body-complete :
    {p : Parser} (body out : List ℕ) (out_size : ℕ)
    → IsValid p
    → view p ≡ complete body
    → length body ≤ out_size
    → let r = read_body p (some out) out_size in
      (r.status ≡ Status.ok)
      × (r.body_size ≡ length body)
      × (r.out_buffer ≡ some (body ++ drop (length body) out))
      × IsIdle r.parser
unfolding read_body state_is_valid
read_body-complete {p} body out out_size v e h =
    let parts = complete-parts v e in ground (arith, parts)

-- Peeking at a complete body shows it.
pub peek_body-complete :
    {p : Parser} (body : List ℕ)
    → IsValid p
    → view p ≡ complete body
    → let (status, buffer, size) = peek_body p in (status ≡ Status.ok) × (take size buffer ≡ body)
unfolding peek_body state_is_valid
peek_body-complete {p} body v e = let parts = complete-parts v e in ground (arith, parts)

-- Consuming it leaves the bytes, but owns them no longer.
pub consume_body-complete :
    {p : Parser} (body : List ℕ)
    → IsValid p
    → view p ≡ complete body
    → consume_body p ≡ (Status.ok, record p { body_ready = 0; accumulated_size = 0 })
unfolding consume_body state_is_valid
consume_body-complete {p} body v e = let parts = complete-parts v e in ground (arith, parts)
