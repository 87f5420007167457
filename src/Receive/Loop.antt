-- ===== src/Receive/Loop.antt =====
-- The receive loop returns on every endpoint and all bytes.
use hil_rig_protocol.Common.{
  ℕ, zero, suc, ◌+◌, ◌≤◌, ◌<◌, ◌≡◌, ◌≢◌, refl, sym, subst, arith, inl, inr, List, [], ◌∷◌, length,
  drop, length-drop, ◌==◌, ◌!=◌, if◌then◌else◌, Option, some,
}
use hil_rig_protocol.Types.{Status, status_enum, link_state_enum}
use hil_rig_protocol.Root.{Root, Reply}
use hil_rig_protocol.Codec.Cobs.{Cobs}
use hil_rig_protocol.Parser
use hil_rig_protocol.Parser.{Parser}
use hil_rig_protocol.Session.{enter_fault}
use hil_rig_protocol.Handshake.{then_reply}
use hil_rig_protocol.Handshake.Chain.{Status-cases, then_reply-ok, then_reply-stops}
use hil_rig_protocol.Receive.{process_pending_error, try_advance_recovery, validate_root}
use hil_rig_protocol.Receive.Dispatch.{process_retained_body}
use hil_rig_protocol.Receive.Bytes.{
  Received, returns, Turn, go_on, by_result, take_turn, receive_loop, prepare, enter_receive,
  receive_prepared, receive_bytes,
}
use hil_rig_protocol.Receive.Progress.{Frees}
use hil_rig_protocol.Receive.Turns.{
  process_retained_body-Frees, process_pending_error-Frees, try_advance_recovery-Frees,
  then_reply-Frees,
}

push_byte-discards :
    (p : Parser) (b : ℕ)
    → (Parser.push_byte p b).0 ≡ Parser.Result.discarded_body
    → (Parser.push_byte p b).1.body_ready ≡ 0
unfolding Parser.push_byte
push_byte-discards p b h = ground arith

-- What the parser consumes of some bytes.
push_loop-used :
    (bytes : List ℕ) (result : Parser.Result) (index : ℕ) (p : Parser)
    → result ≢ Parser.Result.discarded_body
    → let (now, used, p') = Parser.push_loop result index p bytes in
      (index ≤ used)
      × (used ≤ index + length bytes)
      × (length bytes ≢ 0 → now ≢ Parser.Result.error → index < used)
      × (now ≡ Parser.Result.discarded_body → p'.body_ready ≡ 0)
unfolding Parser.push_loop
push_loop-used [] result index p h = ground arith
push_loop-used (b ∷ bytes) result index p h = ground (
  arith,
  push_byte-discards p b,
  push_loop-used bytes Parser.Result.need_more_data (index + 1) (Parser.push_byte p b).1,
  push_loop-used bytes Parser.Result.discarding (index + 1) (Parser.push_byte p b).1,
)

-- What a turn promises on so many bytes.
abbrev Fits : ℕ → ℕ → Turn → Type 0
Fits used total (Turn.done (s, r)) = s ≡ Status.ok → used ≡ total
Fits used total (Turn.more r) = (0 < used) × (r.parser.body_ready ≡ 0)

go_on-stops : (x : Reply) → x.0 ≢ Status.ok → go_on x ≡ Turn.done x
unfolding go_on
go_on-stops (s, r) h = ground arith

go_on-ok : (x : Reply) → x.0 ≡ Status.ok → go_on x ≡ Turn.more x.1
unfolding go_on
go_on-ok (s, r) h = ground arith

go_on-Fits : (used total : ℕ) (x : Reply) → 0 < used → Frees x → Fits used total (go_on x)
go_on-Fits used total x h free = elim (Status-cases x.0) [
  | inl e ↦ subst (Fits used total) (sym (go_on-ok x e)) (h, free e)
  | inr n ↦ subst (Fits used total) (sym (go_on-stops x n)) (λ e. absurd (n e))
]

recovers-Frees : (x : Reply) → Frees x → Frees (then_reply x try_advance_recovery)
recovers-Frees x free = then_reply-Frees x try_advance_recovery free try_advance_recovery-Frees

by_result-Fits :
    (cobs : Cobs) (result : Parser.Result) (used total : ℕ) (r : Root)
    → (result ≢ Parser.Result.error → 0 < used)
    → (result ≡ Parser.Result.discarded_body → r.parser.body_ready ≡ 0)
    → Fits used total (by_result cobs result (used == total) r)
unfolding by_result enter_fault
by_result-Fits cobs Parser.Result.need_more_data used total r some_used free = ground arith
by_result-Fits cobs Parser.Result.discarding used total r some_used free = ground arith
by_result-Fits cobs Parser.Result.error used total r some_used free = ground arith
by_result-Fits cobs Parser.Result.body_ready used total r some_used free =
    go_on-Fits used total (then_reply (process_retained_body cobs r) try_advance_recovery)
      (some_used (ground arith))
      (recovers-Frees (process_retained_body cobs r) (process_retained_body-Frees cobs r))
by_result-Fits cobs Parser.Result.discarded_body used total r some_used free =
    let r' = record r { receive_protocol_error_pending = 1 } in
    go_on-Fits used total (then_reply (process_pending_error r') try_advance_recovery)
      (some_used (ground arith))
      (recovers-Frees (process_pending_error r') (process_pending_error-Frees r' (free refl)))

push_bytes-used :
    (p : Parser) (b : ℕ) (bytes : List ℕ)
    → p.body_ready ≡ 0
    → let (now, used, p') = Parser.push_bytes p (b ∷ bytes) in
      (used ≤ length (b ∷ bytes))
      × (now ≢ Parser.Result.error → 0 < used)
      × (now ≡ Parser.Result.discarded_body → p'.body_ready ≡ 0)
unfolding Parser.push_bytes
push_bytes-used p b bytes free =
    ground (arith, push_loop-used (b ∷ bytes) Parser.Result.need_more_data 0 p)

take_turn-Fits :
    (cobs : Cobs) (r : Root) (b : ℕ) (bytes : List ℕ)
    → r.parser.body_ready ≡ 0
    → let (used, turn) = take_turn cobs r (b ∷ bytes) in
      (used ≤ length (b ∷ bytes)) × Fits used (length (b ∷ bytes)) turn
unfolding take_turn
take_turn-Fits cobs r b bytes free =
    let (now, used, p) = Parser.push_bytes r.parser (b ∷ bytes) in
    let (bound, some_used, frees) = push_bytes-used r.parser b bytes free in
    (
      bound,
      by_result-Fits cobs now used (length (b ∷ bytes)) (record r { parser = p }) some_used frees,
    )

-- What the call promises.
abbrev Returns : Option Received → ℕ → Type 0
Returns o total =
    (x : Received) × (o ≡ some x)
    × (x.bytes_consumed ≤ total)
    × (x.status ≡ Status.ok → x.bytes_consumed ≡ total)

-- The rest of the loop, after one turn of it.
unfoldable pub resume : ℕ → Cobs → List ℕ → ℕ → ℕ × Turn → Option Received
resume fuel cobs bytes consumed (used, Turn.done reply) = some (returns (consumed + used) reply)
resume fuel cobs bytes consumed (used, Turn.more r) =
    receive_loop fuel cobs r (drop used bytes) (consumed + used)

pub receive_loop-resumes :
    (fuel : ℕ) (cobs : Cobs) (r : Root) (b : ℕ) (bytes : List ℕ) (consumed : ℕ)
    → receive_loop (suc fuel) cobs r (b ∷ bytes) consumed
      ≡ resume fuel cobs (b ∷ bytes) consumed (take_turn cobs r (b ∷ bytes))
unfolding receive_loop resume
receive_loop-resumes fuel cobs r b bytes consumed = refl

-- The loop with this much fuel returns.
abbrev Enough : ℕ → Cobs → Type 0
Enough fuel cobs =
    (r : Root) (bytes : List ℕ) (consumed : ℕ)
    → length bytes ≤ fuel
    → r.parser.body_ready ≡ 0
    → Returns (receive_loop fuel cobs r bytes consumed) (consumed + length bytes)

resume-Returns :
    (fuel : ℕ) (cobs : Cobs) (bytes : List ℕ) (consumed used : ℕ) (turn : Turn)
    → Enough fuel cobs
    → length bytes ≤ suc fuel
    → used ≤ length bytes
    → Fits used (length bytes) turn
    → Returns (resume fuel cobs bytes consumed (used, turn)) (consumed + length bytes)
unfolding resume returns
resume-Returns fuel cobs bytes consumed used (Turn.done (s, r)) enough h bound fits =
    (_, refl, omega arith, λ e. ground (arith, fits e))
resume-Returns fuel cobs bytes consumed used (Turn.more r) enough h bound fits =
    let left = length-drop used bytes in
    let (x, same, most, all) =
      enough r (drop used bytes) (consumed + used) (ground (arith, left, fits.0)) fits.1 in
    (x, same, ground (arith, left), λ e. ground (arith, left, all e))

receive_loop-Returns : (fuel : ℕ) (cobs : Cobs) → Enough fuel cobs
unfolding receive_loop returns
receive_loop-Returns fuel cobs r [] consumed h free = (_, refl, omega arith, λ e. omega arith)
receive_loop-Returns zero cobs r (b ∷ bytes) consumed h free = absurd (omega arith)
receive_loop-Returns (suc fuel) cobs r (b ∷ bytes) consumed h free =
    let (bound, fits) = take_turn-Fits cobs r b bytes free in
    subst (λ o. Returns o (consumed + length (b ∷ bytes)))
      (sym (receive_loop-resumes fuel cobs r b bytes consumed))
      (resume-Returns fuel cobs (b ∷ bytes) consumed (take_turn cobs r (b ∷ bytes)).0
        (take_turn cobs r (b ∷ bytes)).1 (receive_loop-Returns fuel cobs) h bound fits)

prepare_body-Frees :
    (cobs : Cobs) (r : Root)
    → Frees (if r.parser.body_ready != 0 then process_retained_body cobs r else (Status.ok, r))
prepare_body-Frees cobs r = ground (arith, process_retained_body-Frees cobs r)

-- A chain frees the parser when whatever follows its first call does.
follows-Frees :
    (x : Reply) (next : Root → Reply) → ((r : Root) → Frees (next r)) → Frees (then_reply x next)
follows-Frees x next go = elim (Status-cases x.0) [
  | inl e ↦ subst Frees (sym (then_reply-ok x next e)) (go x.1)
  | inr n ↦ subst Frees (sym (then_reply-stops x next n)) (λ e. absurd (n e))
]

prepare-Frees : (cobs : Cobs) (r : Root) → Frees (prepare cobs r)
unfolding prepare
prepare-Frees cobs r =
    follows-Frees (process_pending_error r) _ (λ r₁. recovers-Frees _ (prepare_body-Frees cobs r₁))

enter_receive-Frees : (cobs : Cobs) (r : Root) → Frees (enter_receive cobs r)
unfolding enter_receive
enter_receive-Frees cobs r h = ground (arith, h, prepare-Frees cobs (validate_root r).1)

receive_prepared-stops :
    (cobs : Cobs) (x : Reply) (bytes : List ℕ)
    → x.0 ≢ Status.ok
    → receive_prepared cobs x bytes ≡ some (returns 0 x)
unfolding receive_prepared
receive_prepared-stops cobs (s, r) bytes h = ground arith

receive_prepared-ok :
    (cobs : Cobs) (x : Reply) (bytes : List ℕ)
    → x.0 ≡ Status.ok
    → receive_prepared cobs x bytes ≡ receive_loop (length bytes) cobs x.1 bytes 0
unfolding receive_prepared
receive_prepared-ok cobs (s, r) bytes h = ground arith

receive_prepared-Returns :
    (cobs : Cobs) (x : Reply) (bytes : List ℕ)
    → Frees x
    → Returns (receive_prepared cobs x bytes) (length bytes)
unfolding returns
receive_prepared-Returns cobs x bytes free =
    let none_before : 0 + length bytes ≡ length bytes = omega arith in
    elim (Status-cases x.0) [
      | inl e ↦
          subst (λ o. Returns o (length bytes)) (sym (receive_prepared-ok cobs x bytes e))
            (subst (Returns (receive_loop (length bytes) cobs x.1 bytes 0)) none_before
              (receive_loop-Returns (length bytes) cobs x.1 bytes 0 (omega arith) (free e)))
      | inr n ↦ (_, receive_prepared-stops cobs x bytes n, omega arith, λ e. absurd (n e))
    ]

-- The call returns, whatever the endpoint's state, the bytes and COBS are: so much fuel as there
-- are bytes is enough. It consumes no more than the bytes given, and all of them when it succeeds.
pub receive_bytes-returns :
    (cobs : Cobs) (r : Root) (bytes : List ℕ)
    → (x : Received) × (receive_bytes cobs r bytes ≡ some x)
      × (x.bytes_consumed ≤ length bytes)
      × (x.status ≡ Status.ok → x.bytes_consumed ≡ length bytes)
unfolding receive_bytes
receive_bytes-returns cobs r bytes =
    receive_prepared-Returns cobs (enter_receive cobs r) bytes (enter_receive-Frees cobs r)
