-- ===== src/Parser/Tests.antt =====
-- Concrete runs, and the theorems at concrete inputs.
use hil_rig_protocol.Common.{◌≤◌, ◌≡◌, ◌≢◌, refl, arith, [], ◌∷◌, some}
use hil_rig_protocol.Types.{Status}
use hil_rig_protocol.Parser.{Parser, need_more_data, body_ready, discarded_body, error}
use hil_rig_protocol.Parser.{push_byte, push_bytes, read_body, state_is_valid}
use hil_rig_protocol.Parser.Validity.{IsValid, push_bytes-IsValid}
use hil_rig_protocol.Parser.Stream.{
  view, accept, accept_all, complete, push_byte_refines, push_bytes_refines,
}
use hil_rig_protocol.Parser.Framing.{
  IsIdle, push_bytes-body, push_bytes-oversized, read_body-complete,
}

abbrev idle : Parser
idle = record {
  scratch_buffer = 0 ∷ 0 ∷ 0 ∷ [];
  scratch_buffer_size = 3;
  accumulated_size = 0;
  body_ready = 0;
  discarding = 0;
}

abbrev ready : Parser
ready = record idle { scratch_buffer = 5 ∷ 6 ∷ 0 ∷ []; accumulated_size = 2; body_ready = 1 }

idle-IsValid : IsValid idle
unfolding state_is_valid
idle-IsValid = record { consistent = refl; stored = omega arith }

ready-IsValid : IsValid ready
unfolding state_is_valid
ready-IsValid = record { consistent = refl; stored = omega arith }

idle-IsIdle : IsIdle idle
idle-IsIdle = record { valid = idle-IsValid; empty = refl; unread = refl; keeping = refl }

two_bodies : (push_bytes idle (5 ∷ 6 ∷ 0 ∷ 7 ∷ 0 ∷ [])).1 ≡ 3
unfolding push_bytes
two_bodies = refl

too_long : (push_bytes idle (5 ∷ 6 ∷ 7 ∷ 8 ∷ 9 ∷ 0 ∷ 1 ∷ [])).0 ≡ discarded_body
unfolding push_bytes
too_long = refl

push_bytes-IsValid_example :
    let (now, used, p') = push_bytes idle (5 ∷ 0 ∷ 6 ∷ []) in
    IsValid p' × (now ≢ error) × (used ≤ 3)
push_bytes-IsValid_example = push_bytes-IsValid (5 ∷ 0 ∷ 6 ∷ []) idle-IsValid

push_byte_refines_example :
    let (result, p') = push_byte idle 5 in (result, view p') ≡ accept 3 (view idle) 5
push_byte_refines_example = push_byte_refines 5 idle-IsValid

push_bytes_refines_example :
    let (now, used, p') = push_bytes idle (5 ∷ 0 ∷ 6 ∷ []) in
    (now, used, view p') ≡ accept_all 3 need_more_data 0 (view idle) (5 ∷ 0 ∷ 6 ∷ [])
push_bytes_refines_example = push_bytes_refines (5 ∷ 0 ∷ 6 ∷ []) idle-IsValid refl

push_bytes-body_example :
    let (now, used, p') = push_bytes idle (5 ∷ 6 ∷ 0 ∷ 7 ∷ []) in
    (now ≡ body_ready) × (used ≡ 3) × (view p' ≡ complete (5 ∷ 6 ∷ [])) × IsValid p'
push_bytes-body_example =
    push_bytes-body (5 ∷ 6 ∷ []) (7 ∷ []) idle-IsIdle (omega arith) (omega arith) (omega arith)

push_bytes-oversized_example :
    let (now, used, p') = push_bytes idle (5 ∷ 6 ∷ 7 ∷ 8 ∷ 0 ∷ 1 ∷ []) in
    (now ≡ discarded_body) × (used ≡ 5) × IsIdle p'
push_bytes-oversized_example =
    push_bytes-oversized (5 ∷ 6 ∷ 7 ∷ 8 ∷ []) (1 ∷ []) idle-IsIdle (omega arith) (omega arith)

view-ready : view ready ≡ complete (5 ∷ 6 ∷ [])
unfolding view
view-ready = refl

read_body-complete_example :
    let r = read_body ready (some (9 ∷ 9 ∷ 9 ∷ [])) 3 in
    (r.status ≡ Status.ok)
    × (r.body_size ≡ 2)
    × (r.out_buffer ≡ some (5 ∷ 6 ∷ 9 ∷ []))
    × IsIdle r.parser
read_body-complete_example =
    read_body-complete (5 ∷ 6 ∷ []) (9 ∷ 9 ∷ 9 ∷ []) 3 ready-IsValid view-ready (omega arith)
