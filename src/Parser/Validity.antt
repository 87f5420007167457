-- ===== src/Parser/Validity.antt =====
-- The representation invariant of the parser.
use hil_rig_protocol.Common.{ℕ, ◌+◌, ◌≤◌, ◌<◌, ◌≡◌, ◌≢◌, arith, true, length, length-set}
use hil_rig_protocol.Common.{List, [], ◌∷◌, some}
use hil_rig_protocol.Types.{Status}
use hil_rig_protocol.Parser.{Parser, Result, need_more_data, discarding}
use hil_rig_protocol.Parser.{error, state_is_valid, init, push_byte, push_loop, push_bytes}
use hil_rig_protocol.Parser.{consume_body, reset}

-- The code's own test of the state, and storage for as many bytes as the parser may write.
pub record IsValid (p : Parser) : Type 0 where
  pub consistent : state_is_valid p ≡ true
  pub stored : p.scratch_buffer_size ≤ length p.scratch_buffer

pub init-IsValid :
    (scratch : List ℕ) (size : ℕ) {p : Parser}
    → size ≤ length scratch
    → init scratch size ≡ (Status.ok, some p)
    → IsValid p
unfolding init state_is_valid
init-IsValid scratch size h e = ground arith

-- `push_byte` keeps the invariant and the bound on the body, and never reports an error.
pub push_byte-IsValid :
    {p : Parser} (byte : ℕ)
    → IsValid p
    → IsValid (push_byte p byte).1
      × ((push_byte p byte).0 ≢ error)
      × ((push_byte p byte).1.scratch_buffer_size ≡ p.scratch_buffer_size)
unfolding push_byte state_is_valid
push_byte-IsValid {p} byte v = ground (arith, length-set p.scratch_buffer p.accumulated_size byte)

push_loop-IsValid :
    (result : Result) (index : ℕ) {p : Parser} (bytes : List ℕ)
    → IsValid p
    → result ≢ error
    → let (now, used, p') = push_loop result index p bytes in
      IsValid p' × (now ≢ error) × (used ≤ index + length bytes)
unfolding push_loop
push_loop-IsValid result index [] v h = ground arith
push_loop-IsValid result index {p} (byte ∷ bytes) v h = ground (
  arith,
  push_byte-IsValid byte v,
  push_loop-IsValid need_more_data (index + 1) {p = (push_byte p byte).1} bytes,
  push_loop-IsValid discarding (index + 1) {p = (push_byte p byte).1} bytes,
)

-- On a valid parser `push_bytes` keeps the invariant, consumes no more bytes than it is given, and
-- reports no error.
pub push_bytes-IsValid :
    {p : Parser} (bytes : List ℕ)
    → IsValid p
    → let (now, used, p') = push_bytes p bytes in IsValid p' × (now ≢ error) × (used ≤ length bytes)
unfolding push_bytes
push_bytes-IsValid {p} bytes v =
    ground (arith, push_loop-IsValid need_more_data 0 bytes v (λ e. cc))

pub consume_body-IsValid : {p : Parser} → IsValid p → IsValid (consume_body p).1
unfolding consume_body state_is_valid
consume_body-IsValid v = ground arith

-- `reset` makes any parser over real storage valid, whatever its state was.
pub reset-IsValid :
    (p : Parser)
    → 0 < p.scratch_buffer_size
    → p.scratch_buffer_size ≤ length p.scratch_buffer
    → IsValid (reset p)
unfolding reset state_is_valid
reset-IsValid p h k = ground arith
