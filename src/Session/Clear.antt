-- ===== src/Session/Clear.antt =====
-- What clearing a session's work leaves.
use hil_rig_protocol.Common.{◌≡◌, refl, arith, true, false, if◌then◌else◌}
use hil_rig_protocol.Types.{Status}
use hil_rig_protocol.Root.{Root}
use hil_rig_protocol.Parser
use hil_rig_protocol.Output
use hil_rig_protocol.Control
use hil_rig_protocol.Reliability
use hil_rig_protocol.Session.{clear_scoped_work, clear_fields, has_scoped_work}
use hil_rig_protocol.Session.{completed_confirm_metadata_is_valid}

-- The resets of the output lifecycles write nothing that clearing does not overwrite.
pub clear_scoped_work-fields :
    (r : Root)
    → clear_scoped_work r
      ≡ (if Reliability.has_storage r then Status.ok else Status.internal_error, clear_fields r)
unfolding clear_scoped_work clear_fields Output.reset Control.reset Control.release
    Reliability.reset Reliability.clear_metadata
clear_scoped_work-fields r = ground arith

pub clear_fields-clears : (r : Root) → has_scoped_work (clear_fields r) ≡ false
unfolding clear_fields has_scoped_work Parser.reset
clear_fields-clears r = refl

pub clear_fields-confirm : (r : Root) → completed_confirm_metadata_is_valid (clear_fields r) ≡ true
unfolding clear_fields completed_confirm_metadata_is_valid
clear_fields-confirm r = refl
