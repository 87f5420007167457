-- ===== src/Events/Tests.antt =====
-- Concrete runs, and the theorems at concrete inputs.
use hil_rig_protocol.Common.{◌≡◌, refl, arith, List, [], ◌∷◌}
use hil_rig_protocol.Types.{Status}
use hil_rig_protocol.Fixtures.{quiet, eventful, reset_event}
use hil_rig_protocol.Events.{publish, no_event, value_is_valid}
use hil_rig_protocol.Events.Entries.{IsValid, contents, all_valid}
use hil_rig_protocol.Events.Fifo.{Call, put, get, run, run_queue, run_refines}

eventful-IsValid : IsValid eventful
unfolding contents all_valid value_is_valid
eventful-IsValid = record {
  slots = refl;
  head_in = omega arith;
  count_in = omega arith;
  sound = refl;
}

contents-eventful : contents eventful ≡ reset_event ∷ reset_event ∷ []
unfolding contents
contents-eventful = refl

publish_refused : (publish quiet no_event).0 ≡ Status.invalid_argument
unfolding publish value_is_valid
publish_refused = refl

abbrev script : List Call
script = get ∷ put reset_event ∷ get ∷ get ∷ get ∷ []

run_refines_example : run eventful script ≡ run_queue (contents eventful) script
run_refines_example = run_refines script eventful-IsValid
