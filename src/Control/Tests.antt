-- ===== src/Control/Tests.antt =====
-- Concrete runs, and the theorems at concrete inputs.
use hil_rig_protocol.Common.{◌≡◌, ◌≢◌, refl, arith, [], ◌∷◌}
use hil_rig_protocol.Types.{Status}
use hil_rig_protocol.Root.{ControlOutputState}
use hil_rig_protocol.Fixtures.{both}
use hil_rig_protocol.Control.{validate_state, publish_encoded}
use hil_rig_protocol.Control.Validity.{IsValid}
use hil_rig_protocol.Control.Slot.{held, publish_encoded-cases}

both-IsValid : IsValid both
unfolding validate_state
both-IsValid = record { consistent = refl; slot = refl }

publish_encoded-cases_example :
    let (status, r') = publish_encoded both (8 ∷ 6 ∷ []) 2 in
    (both.control_output_state ≡ ControlOutputState.idle
      → (status ≡ Status.ok)
        × (r'.control_output_state ≡ ControlOutputState.ready)
        × (held r' ≡ 8 ∷ 6 ∷ []))
    × (both.control_output_state ≢ ControlOutputState.idle
        → held both ≡ 8 ∷ 6 ∷ []
        → (status ≡ Status.ok) × (r' ≡ both))
    × (both.control_output_state ≢ ControlOutputState.idle
        → held both ≢ 8 ∷ 6 ∷ []
        → (status ≡ Status.not_ready) × (r' ≡ both))
publish_encoded-cases_example =
    publish_encoded-cases (8 ∷ 6 ∷ []) 2 both-IsValid (omega arith) (omega arith) (omega arith)
