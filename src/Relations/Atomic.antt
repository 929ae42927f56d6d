-- ===== src/Relations/Atomic.antt =====
-- src/relations/atomic.rs: the stack of open blocks, and the landing of a reset.
mod Landing
mod Tests
use oh_my_document.Prelude.{
  Bool, true, false, not, List, [], ◌∷◌, ◌++◌, Text, Option, none, some, is_empty, if◌then◌else◌,
}
use oh_my_document.Records.Commit.{CommitKind, atomic_begin, atomic_end}

-- The unclosed BEGINs, outermost first.
pub record AtomicStack : Type 0 where
  pub open_begins : List Text

unfoldable pub begin : Text → AtomicStack → AtomicStack
begin commit_id s = record { open_begins = s.open_begins ++ commit_id ∷ [] }

-- `pop_back`.
unfoldable pub pop_back : List Text → List Text × Option Text
pop_back [] = ([], none)
pop_back (x ∷ []) = ([], some x)
pop_back (x ∷ y ∷ xs) = let (rest, last) = pop_back (y ∷ xs) in (x ∷ rest, last)

unfoldable pub end : AtomicStack → AtomicStack × Option Text
unfolding pop_back
end s = let (rest, last) = pop_back s.open_begins in (record { open_begins = rest }, last)

unfoldable pub is_open : AtomicStack → Bool
is_open s = not (is_empty s.open_begins)

pub data ResetLanding : Type 0 where
  marker_predecessor restore_target : Text → ResetLanding
  refused_interior refused_into_child_member : ResetLanding

unfoldable pub landing_of : CommitKind → Text → Bool → ResetLanding
landing_of atomic_begin target_prev is_block_member = marker_predecessor target_prev
landing_of atomic_end target_prev is_block_member = marker_predecessor target_prev
landing_of _ target_prev is_block_member =
    if is_block_member then refused_interior else restore_target target_prev

unfoldable pub resolve_reset : CommitKind → Text → Bool → Bool → ResetLanding
unfolding landing_of
resolve_reset target_kind target_prev is_block_member in_child_member =
    if in_child_member
    then refused_into_child_member
    else landing_of target_kind target_prev is_block_member
