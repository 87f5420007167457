-- ===== src/Parser/Stream.antt =====
-- What the parser promises, with no buffer: it collects the bytes before a zero, holds a complete
-- body until it is consumed, and skips a body that is longer than `cap`.
use hil_rig_protocol.Common.{ℕ, ◌+◌, ◌≡◌, refl, arith, length}
use hil_rig_protocol.Common.{List, [], ◌∷◌, ◌++◌, take, if◌then◌else◌, ◌==◌}
use hil_rig_protocol.Common.{take-set, length-take, ◌!=◌}
use hil_rig_protocol.Parser.{Parser, Result, need_more_data, body_ready, discarding, discarded_body}
use hil_rig_protocol.Parser.{error, state_is_valid, push_byte, push_loop, push_bytes}
use hil_rig_protocol.Parser.Validity.{IsValid, push_byte-IsValid}

pub data Stream : Type 0 where
  collecting : List ℕ → Stream
  complete : List ℕ → Stream
  skipping : Stream

-- What a parser stands for.
unfoldable pub view : Parser → Stream
view p =
    if p.discarding != 0
    then skipping
    else if p.body_ready != 0
    then complete (take p.accumulated_size p.scratch_buffer)
    else collecting (take p.accumulated_size p.scratch_buffer)

unfoldable pub accept : ℕ → Stream → ℕ → Result × Stream
accept cap (collecting body) byte =
    if byte == 0
    then (if length body == 0 then (need_more_data, collecting []) else (body_ready, complete body))
    else if length body == cap
    then (discarding, skipping)
    else (need_more_data, collecting (body ++ (byte ∷ [])))
accept cap (complete body) byte = (body_ready, complete body)
accept cap skipping byte =
    if byte == 0 then (discarded_body, collecting []) else (discarding, skipping)

-- `push_byte` does to the bytes that a valid parser holds what `accept` says, with its result.
pub push_byte_refines :
    {p : Parser} (byte : ℕ)
    → IsValid p
    → let (result, p') = push_byte p byte in
      (result, view p') ≡ accept p.scratch_buffer_size (view p) byte
unfolding push_byte view accept state_is_valid
push_byte_refines {p} byte v = ground (
  arith,
  length-take p.accumulated_size p.scratch_buffer,
  take-set p.scratch_buffer p.accumulated_size byte,
)

-- A span of bytes, up to the one that completes a body or ends a skipped one.
unfoldable pub accept_all : ℕ → Result → ℕ → Stream → List ℕ → Result × ℕ × Stream
unfolding accept
accept_all cap result index s [] = (result, index, s)
accept_all cap result index s (byte ∷ bytes) =
    let (now, s') = accept cap s byte in
    elim now [
      | error ↦ (error, index, s')
      | body_ready ↦ (body_ready, index + 1, s')
      | discarded_body ↦ (discarded_body, index + 1, s')
      | need_more_data ↦ accept_all cap need_more_data (index + 1) s' bytes
      | discarding ↦ accept_all cap discarding (index + 1) s' bytes
    ]

pub push_loop_refines :
    (result : Result) (index : ℕ) {p : Parser} (bytes : List ℕ)
    → IsValid p
    → let (now, used, p') = push_loop result index p bytes in
      (now, used, view p') ≡ accept_all p.scratch_buffer_size result index (view p) bytes
unfolding push_loop accept_all
push_loop_refines result index [] v = refl
push_loop_refines result index {p} (byte ∷ bytes) v = ground (
  arith,
  push_byte-IsValid byte v,
  push_byte_refines byte v,
  push_loop_refines need_more_data (index + 1) {p = (push_byte p byte).1} bytes,
  push_loop_refines discarding (index + 1) {p = (push_byte p byte).1} bytes,
)

-- `push_bytes` on a valid parser with no unread body does to the collected bytes what the
-- specification does to the whole span: same result, same number of bytes consumed.
pub push_bytes_refines :
    {p : Parser} (bytes : List ℕ)
    → IsValid p
    → p.body_ready ≡ 0
    → let (now, used, p') = push_bytes p bytes in
      (now, used, view p') ≡ accept_all p.scratch_buffer_size need_more_data 0 (view p) bytes
unfolding push_bytes
push_bytes_refines bytes v h = ground (arith, push_loop_refines need_more_data 0 bytes v)
