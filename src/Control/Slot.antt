-- ===== src/Control/Slot.antt =====
-- One control item from publication to commit.
use hil_rig_protocol.Common.{
  memcpy, some, ℕ, ◌≤◌, ◌<◌, ◌≡◌, ◌≢◌, ap, length-take, arith, List, length, take, take-memcpy,
  equal_bytes_refl, equal_bytes→eq,
}
use hil_rig_protocol.Types.{Status}
use hil_rig_protocol.Root.{Root, ControlOutputState, control_output_capacity}
use hil_rig_protocol.Control.{
  publish_encoded, validate_state, peek_output, commit_output, copy_item, release,
}
use hil_rig_protocol.Control.Validity.{IsValid, validate_state-IsValid, peek_output-IsValid}

-- The bytes that the slot owns.
unfoldable pub held : Root → List ℕ
held r = take r.control_output_size r.control_output

size_bound : {r : Root} → IsValid r → r.control_output_size ≤ control_output_capacity
unfolding validate_state
size_bound v = ground arith

-- An item that waits is shown whole to a caller whose buffer holds it, and the commit of it frees the
-- slot.
pub transmit_item :
    {r : Root} (out : List ℕ) (out_size : ℕ)
    → IsValid r
    → r.control_output_state ≢ ControlOutputState.idle
    → r.control_output_size ≤ out_size
    → let shown = peek_output r (some out) out_size in
      (shown.status ≡ Status.ok)
      × (shown.out_buffer ≡ some (memcpy out r.control_output r.control_output_size))
      × (shown.output_size ≡ r.control_output_size)
      × (commit_output shown.root ≡ (Status.ok, release r))
unfolding peek_output commit_output copy_item release
transmit_item {r} out out_size v busy h =
    let ok = validate_state-IsValid v in
    let ok' = validate_state-IsValid (peek_output-IsValid (some out) out_size v) in
    (ground (arith, ok), ground (arith, ok), ground (arith, ok), ground (arith, ok, ok'))

-- On a valid slot, an item of 1 to 20 bytes: an idle slot takes it and then holds its bytes; a slot
-- that holds the same bytes accepts it and stays as it is; one that holds others refuses it and
-- stays as it is.
pub publish_encoded-cases :
    {r : Root} (item : List ℕ) (size : ℕ)
    → IsValid r
    → 0 < size
    → size ≤ control_output_capacity
    → size ≤ length item
    → let (status, r') = publish_encoded r item size in
      (r.control_output_state ≡ ControlOutputState.idle
        → (status ≡ Status.ok)
          × (r'.control_output_state ≡ ControlOutputState.ready)
          × (held r' ≡ take size item))
      × (r.control_output_state ≢ ControlOutputState.idle
          → held r ≡ take size item
          → (status ≡ Status.ok) × (r' ≡ r))
      × (r.control_output_state ≢ ControlOutputState.idle
          → held r ≢ take size item
          → (status ≡ Status.not_ready) × (r' ≡ r))
unfolding publish_encoded held
publish_encoded-cases {r} item size v h k m =
    let ok = validate_state-IsValid v in
    let bytes = take-memcpy r.control_output item size m in
    (
      λ idle. ground (arith, ok, bytes),
      λ busy same. ground (
        arith,
        ok,
        size_bound v,
        length-take r.control_output_size r.control_output,
        length-take size item,
        ap length same,
        equal_bytes_refl (take size item),
      ),
      λ busy other.
          ground (arith, ok, equal_bytes→eq (take size r.control_output) (take size item)),
    )
