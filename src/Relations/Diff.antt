-- ===== src/Relations/Diff.antt =====
-- src/relations/diff.rs: hunks of a difference, mapped positions, dirtied ranges, and where a
-- fragment occurs. The edit script comes from the crate `similar`, as a list of operations.
pub mod Script
pub mod Candidates
mod Mapping
mod Dirtied
mod Tests
use oh_my_document.Prelude.{
  ℕ, ◌+◌, ◌-◌, ◌%◌, ◌≤◌, Bool, true, false, not, ◌&&◌, ◌||◌, List, [], ◌∷◌, map, Option, none, some,
  ltb, max, if◌then◌else◌, ◌==◌, nat_eq, any, u64_mod,
}
use oh_my_document.Relations.Range.{Range}

-- `similar::DiffOp`. Indices count characters, or bytes.
pub data DiffOp : Type 0 where
  equal : (old_index new_index len : ℕ) → DiffOp
  delete : (old_index old_len new_index : ℕ) → DiffOp
  insertion : (old_index new_index new_len : ℕ) → DiffOp
  replace : (old_index old_len new_index new_len : ℕ) → DiffOp

pub record Hunk : Type 0 where
  pub pos : ℕ
  pub len : ℕ
  pub is_insertion : Bool
  pub old_len : ℕ
  pub new_len : ℕ

hunk_of : DiffOp → Option Hunk
hunk_of (equal o n l) = none
hunk_of (delete o l n) =
    some (record { pos = o; len = l; is_insertion = false; old_len = l; new_len = 0 })
hunk_of (insertion o n m) =
    some (record { pos = o; len = m; is_insertion = true; old_len = 0; new_len = m })
hunk_of (replace o l n m) =
    some (record { pos = o; len = max l m; is_insertion = false; old_len = l; new_len = m })

unfoldable pub hunks_from_ops : List DiffOp → List Hunk
unfolding hunk_of
hunks_from_ops [] = []
hunks_from_ops (op ∷ ops) = elim (hunk_of op) [
  | none ↦ hunks_from_ops ops
  | some h ↦ h ∷ hunks_from_ops ops
]

-- `(pos as i64 + (new_len as i64 - old_len as i64)) as u64`, which wraps.
unfoldable pub shifted : ℕ → Hunk → ℕ
shifted pos h = (pos + h.new_len + u64_mod - h.old_len) % u64_mod

unfoldable pub map_from : List Hunk → ℕ → Bool → ℕ → ℕ
map_from [] old_pos is_start pos = pos
map_from (h ∷ hunks) old_pos is_start pos =
    let rest = map_from hunks old_pos is_start (shifted pos h) in
    if ltb old_pos h.pos
    then pos
    else if ltb old_pos (h.pos + h.old_len) && ltb 0 h.old_len
    then (h.pos + h.new_len) % u64_mod
    else if h.pos == old_pos && (h.is_insertion && not is_start)
    then pos
    else rest

unfoldable pub map_position : List Hunk → ℕ → Bool → ℕ
unfolding map_from
map_position hunks old_pos is_start = map_from hunks old_pos is_start old_pos

unfoldable pub map_range : List Hunk → Range → Option Range
map_range hunks range =
    let start = map_position hunks range.start true in
    let end = map_position hunks range.end false in
    if ltb start end then some (record range { start = start; end = end }) else none

unfoldable pub dirties : Range → Hunk → Bool
dirties r h = (ltb h.pos r.end && ltb r.start (h.pos + h.len)) || (h.is_insertion && h.pos == r.end)

unfoldable pub dirtied_by : List Hunk → List Range → List Bool
unfolding dirties
dirtied_by hunks ranges = map (λ r. any (dirties r) hunks) ranges
