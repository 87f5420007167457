-- ===== src/Sequence/Tests.antt =====
-- Concrete runs, and the theorems at concrete inputs.
use hil_rig_protocol.Common.{◌≡◌, refl, arith, [], ◌∷◌, length}
use hil_rig_protocol.Types.{Status}
use hil_rig_protocol.Root.{Session}
use hil_rig_protocol.Fixtures.{session}
use hil_rig_protocol.Sequence.{RxSequence, classify_sequence, accept_sequence}
use hil_rig_protocol.Sequence.Receive.{IsTracking, taken, successive, classify_sequence-distance}
use hil_rig_protocol.Sequence.Receive.{accept_sequence-IsTracking, taken-successive}

abbrev tracking : Session
tracking = record session {
  accepted_receive_sequence_valid = 1;
  last_accepted_receive_sequence = 0xfffe;
  expected_receive_sequence = 0xffff;
}

tracking-IsTracking : IsTracking tracking
tracking-IsTracking = omega arith

taken_once : taken tracking (0xffff ∷ 0xffff ∷ 5 ∷ 0 ∷ 0xfffe ∷ 1 ∷ []) ≡ 0xffff ∷ 0 ∷ 1 ∷ []
unfolding taken accept_sequence classify_sequence
taken_once = refl

classify_sequence-distance_example :
    classify_sequence tracking 3 ≡ (Status.ok, RxSequence.incompatible)
classify_sequence-distance_example =
    classify_sequence-distance tracking 5 tracking-IsTracking (omega arith)

accept_sequence-IsTracking_example :
    let s' = (accept_sequence session 9).1 in
    IsTracking s'
    × (classify_sequence s' 9 ≡ (Status.ok, RxSequence.duplicate))
    × (classify_sequence s' 10 ≡ (Status.ok, RxSequence.expected))
accept_sequence-IsTracking_example = accept_sequence-IsTracking session 9 (omega arith) first
  where
    first : (accept_sequence session 9).0 ≡ Status.ok
    first = unfold accept_sequence classify_sequence in refl

taken-successive_example :
    taken tracking (0xffff ∷ 0xffff ∷ 5 ∷ 0 ∷ [])
    ≡ successive 0xffff (length (taken tracking (0xffff ∷ 0xffff ∷ 5 ∷ 0 ∷ [])))
taken-successive_example =
    taken-successive tracking (0xffff ∷ 0xffff ∷ 5 ∷ 0 ∷ []) tracking-IsTracking
