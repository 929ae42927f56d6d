-- ===== src/Relations/Atomic/Tests.antt =====
-- A run of both decisions on a commit outside any block.
use oh_my_document.Prelude.{
  false, [], Text, text_beq, Option, none, some, ok, codes, if◌then◌else◌, ◌==◌, text_eq, ◌≡◌, refl,
}
use oh_my_document.Records.Commit.{commit}
use oh_my_document.Records.Reset
use oh_my_document.Records.Reset.{
  ResetTargetRecord, ResetOutcome, is_marker, open_begin, reset_block_membership, depth_after,
}
use oh_my_document.Relations.Atomic.{restore_target, resolve_reset}
use oh_my_document.Relations.Atomic.Landing.{reset-resolve_reset}

abbrev target_record : ResetTargetRecord
target_record = record { kind = commit; previous_id = codes "A"; parent_block = none }

abbrev read : Text → Option ResetTargetRecord
read id = if id == codes "D" then some target_record else none

abbrev landed : ResetOutcome
landed = record { requested = codes "D"; actual = codes "D"; warning = [] }

lands : Reset.reset (codes "D") read ≡ ok landed
unfolding Reset.reset is_marker reset_block_membership open_begin depth_after text_beq
lands = refl

predecessor_restored :
    (landed.actual ≡ codes "D")
    × (resolve_reset commit (codes "A") false false ≡ restore_target (codes "A"))
predecessor_restored =
    reset-resolve_reset read (codes "D") target_record landed (unfold text_beq in refl)
      (unfold is_marker in refl) lands
