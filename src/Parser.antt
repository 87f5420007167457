-- ===== src/Parser.antt =====
-- src/transport/internal/common/transport_parser.c: the bounded accumulator of delimited bodies.
-- `scratch_buffer` is the whole caller-owned region, of which `scratch_buffer_size` bytes are
-- writable. The parser and the output parameters are there: null pointers to them have no case.
pub mod Validity
pub mod Framing
pub mod Stream
mod Tests
use hil_rig_protocol.Common.{ℕ, ◌+◌, List, [], ◌∷◌, Bool, not, ◌&&◌, ◌||◌, ltb, leb, ◌==◌, ◌!=◌}
use hil_rig_protocol.Common.{if◌then◌else◌, set, take, memcpy, Option, none, some, Enum, ◌is◌}
use hil_rig_protocol.Types.{Status, status_enum}

-- `HIL_Transport_Parser_Result_T`
pub data Result : Type 0 where
  need_more_data body_ready discarding discarded_body error : Result

-- `HIL_Transport_Parser_T`
pub record Parser : Type 0 where
  pub scratch_buffer : List ℕ
  pub scratch_buffer_size : ℕ
  pub accumulated_size : ℕ
  pub body_ready : ℕ
  pub discarding : ℕ

unfoldable pub state_is_valid : Parser → Bool
state_is_valid p =
    (p.scratch_buffer_size != 0)
    && leb p.accumulated_size p.scratch_buffer_size
    && leb p.body_ready 1
    && leb p.discarding 1
    && not ((p.body_ready != 0) && (p.discarding != 0))
    && not ((p.body_ready != 0) && (p.accumulated_size == 0))
    && not ((p.discarding != 0) && (p.accumulated_size != 0))

unfoldable pub init : List ℕ → ℕ → Status × Option Parser
init scratch size = if size == 0 then (Status.invalid_argument, none) else (
  Status.ok,
  some (record {
    scratch_buffer = scratch;
    scratch_buffer_size = size;
    accumulated_size = 0;
    body_ready = 0;
    discarding = 0;
  }),
)

unfoldable pub push_byte : Parser → ℕ → Result × Parser
unfolding state_is_valid
push_byte p byte =
    if not (state_is_valid p)
    then (error, p)
    else if p.body_ready != 0
    then (body_ready, p)
    else if p.discarding != 0
    then (if byte == 0 then (discarded_body, record p { discarding = 0 }) else (discarding, p))
    else if byte == 0
    then (if p.accumulated_size == 0
        then (need_more_data, p)
        else (body_ready, record p { body_ready = 1 }))
    else if p.accumulated_size == p.scratch_buffer_size
    then (discarding, record p { accumulated_size = 0; discarding = 1 })
    else (
      need_more_data,
      record p {
        scratch_buffer = set p.scratch_buffer p.accumulated_size byte;
        accumulated_size = p.accumulated_size + 1;
      },
    )

-- The loop of `push_bytes` from one index on: the last result, the bytes consumed and the parser.
unfoldable pub push_loop : Result → ℕ → Parser → List ℕ → Result × ℕ × Parser
unfolding push_byte
push_loop result index p [] = (result, index, p)
push_loop result index p (byte ∷ bytes) =
    let (now, p') = push_byte p byte in
    elim now [
      | error ↦ (error, index, p')
      | body_ready ↦ (body_ready, index + 1, p')
      | discarded_body ↦ (discarded_body, index + 1, p')
      | need_more_data ↦ push_loop need_more_data (index + 1) p' bytes
      | discarding ↦ push_loop discarding (index + 1) p' bytes
    ]

unfoldable pub push_bytes : Parser → List ℕ → Result × ℕ × Parser
unfolding push_loop
push_bytes p bytes =
    if not (state_is_valid p)
    then (error, 0, p)
    else if p.body_ready != 0
    then (body_ready, 0, p)
    else push_loop need_more_data 0 p bytes

-- What is seen of the body: its status, its bytes and their number.
unfoldable pub peek_body : Parser → Status × List ℕ × ℕ
unfolding state_is_valid
peek_body p =
    if not (state_is_valid p)
    then (Status.internal_error, [], 0)
    else if p.body_ready == 0
    then (Status.not_ready, [], 0)
    else (Status.ok, p.scratch_buffer, p.accumulated_size)

unfoldable pub consume_body : Parser → Status × Parser
unfolding state_is_valid
consume_body p =
    if not (state_is_valid p)
    then (Status.internal_error, p)
    else if p.body_ready == 0
    then (Status.not_ready, p)
    else (Status.ok, record p { body_ready = 0; accumulated_size = 0 })

-- What `read_body` leaves: its status, the caller's buffer, the size reported and the parser.
pub record Read : Type 0 where
  pub status : Status
  pub out_buffer : Option (List ℕ)
  pub body_size : ℕ
  pub parser : Parser

unfoldable pub read_body : Parser → Option (List ℕ) → ℕ → Read
unfolding peek_body consume_body
read_body p none out_size =
    let (status, body, size) = peek_body p in
    if out_size != 0
    then record { status = Status.invalid_argument; out_buffer = none; body_size = 0; parser = p }
    else if not (status is Status.ok)
    then record { status = status; out_buffer = none; body_size = size; parser = p }
    else record {
      status = Status.buffer_too_small;
      out_buffer = none;
      body_size = size;
      parser = p;
    }
read_body p (some out) out_size =
    let (status, body, size) = peek_body p in
    if not (status is Status.ok)
    then record { status = status; out_buffer = some out; body_size = size; parser = p }
    else if ltb out_size size
    then record {
      status = Status.buffer_too_small;
      out_buffer = some out;
      body_size = size;
      parser = p;
    }
    else let (done, p') = consume_body p in
      record {
        status = done;
        out_buffer = some (memcpy out body size);
        body_size = size;
        parser = p';
      }

unfoldable pub reset : Parser → Parser
reset p = record p { accumulated_size = 0; body_ready = 0; discarding = 0 }
