-- ===== src/Receive/Bytes.antt =====
-- `HIL_TRANSPORT_MVP_Receive_Bytes`: the loop over the caller's bytes, on fuel.
use hil_rig_protocol.Common.{
  ℕ, zero, suc, ◌+◌, List, [], ◌∷◌, length, drop, Bool, ◌==◌, ◌!=◌, ◌is◌, ◌isnt◌, if◌then◌else◌,
  Option, none, some,
}
use hil_rig_protocol.Types.{Status, status_enum, LinkState, link_state_enum}
use hil_rig_protocol.Root.{Root, Reply}
use hil_rig_protocol.Parser
use hil_rig_protocol.Codec.Cobs.{Cobs}
use hil_rig_protocol.Session.{enter_fault}
use hil_rig_protocol.Handshake.{then_reply}
use hil_rig_protocol.Receive.{validate_root, process_pending_error, try_advance_recovery}
use hil_rig_protocol.Receive.Dispatch.{process_retained_body}

-- What the call leaves: its status, the bytes consumed and the endpoint.
pub record Received : Type 0 where
  pub status : Status
  pub bytes_consumed : ℕ
  pub root : Root

unfoldable pub returns : ℕ → Reply → Received
returns consumed (status, r) = record { status = status; bytes_consumed = consumed; root = r }

-- One turn of the loop leaves the call with a reply, or goes on with an endpoint.
pub data Turn : Type 0 where
  done : Reply → Turn
  more : Root → Turn

unfoldable pub go_on : Reply → Turn
go_on (Status.ok, r) = more r
go_on (status, r) = done (status, r)

-- The `switch` on the parser's result; `all` tells whether every byte was consumed.
unfoldable pub by_result : Cobs → Parser.Result → Bool → Root → Turn
by_result cobs Parser.Result.need_more_data all r =
    done (if all then (Status.ok, r) else enter_fault r)
by_result cobs Parser.Result.discarding all r = done (if all then (Status.ok, r) else enter_fault r)
by_result cobs Parser.Result.body_ready all r =
    go_on (then_reply (process_retained_body cobs r) try_advance_recovery)
by_result cobs Parser.Result.discarded_body all r = go_on (
    then_reply (process_pending_error (record r { receive_protocol_error_pending = 1 }))
      try_advance_recovery)
by_result cobs Parser.Result.error all r = done (enter_fault r)

-- The bytes that the parser takes in one turn, and the turn.
unfoldable pub take_turn : Cobs → Root → List ℕ → ℕ × Turn
take_turn cobs r bytes =
    let (result, used, p) = Parser.push_bytes r.parser bytes in
    (used, by_result cobs result (used == length bytes) (record r { parser = p }))

-- The loop on the bytes that are left; `none` where the fuel is used up.
unfoldable pub receive_loop : ℕ → Cobs → Root → List ℕ → ℕ → Option Received
receive_loop fuel cobs r [] consumed = some (returns consumed (Status.ok, r))
receive_loop zero cobs r (b ∷ bytes) consumed = none
receive_loop (suc fuel) cobs r (b ∷ bytes) consumed =
    let (used, turn) = take_turn cobs r (b ∷ bytes) in
    elim turn [
      | done reply ↦ some (returns (consumed + used) reply)
      | more r' ↦ receive_loop fuel cobs r' (drop used (b ∷ bytes)) (consumed + used)
    ]

-- What is done before the first byte.
unfoldable pub prepare : Cobs → Root → Reply
prepare cobs r = then_reply (process_pending_error r) (λ r₁.
    then_reply
      (if r₁.parser.body_ready != 0 then process_retained_body cobs r₁ else (Status.ok, r₁))
      try_advance_recovery)

unfoldable pub receive_prepared : Cobs → Reply → List ℕ → Option Received
receive_prepared cobs (Status.ok, r) bytes = receive_loop (length bytes) cobs r bytes 0
receive_prepared cobs (status, r) bytes = some (returns 0 (status, r))

-- What precedes the loop: all that a call with no bytes does.
unfoldable pub enter_receive : Cobs → Root → Reply
enter_receive cobs r =
    let (status, r') = validate_root r in
    if status isnt Status.ok
    then (status, r')
    else if r'.base.link_state is LinkState.disconnected
    then (Status.not_ready, r')
    else prepare cobs r'

unfoldable pub receive_bytes : Cobs → Root → List ℕ → Option Received
receive_bytes cobs r bytes = receive_prepared cobs (enter_receive cobs r) bytes
